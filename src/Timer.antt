-- ===== src/Timer.antt =====
-- The class `TimerWheel` (include/xnetty/event/timer_wheel.h, src/event/timer_wheel.cpp): a hashed
-- wheel of timers. A callback is a value of any type `C`; what running it does to the wheel (it may
-- call `addTimer` and `cancelTimer`) is the parameter `run` of `tick`.
pub mod Wheel
pub mod Fire
pub mod Liveness
pub mod Cancel
pub mod Ticks
mod Tests
use xnetty.Prelude.{
  ℕ, zero, suc, ◌+◌, ◌-◌, ◌/◌, ◌%◌, ◌^◌, List, [], ◌∷◌, ◌++◌, Bool, true, false, Option, none, some,
  leb, ◌==◌, if◌then◌else◌, length, get_or,
}
use xnetty.Prelude.Preds.{modify}

-- `callback` is `none` for an empty `std::function`.
pub record TimerEntry (C : Type 0) : Type 0 where
  pub id : ℕ
  pub expiration_tick : ℕ
  pub callback : Option C
  pub canceled : Bool

-- `slots` holds the entries of each slot in the order of their insertion.
pub record TimerWheel (C : Type 0) : Type 0 where
  pub num_slots : ℕ
  pub tick_ms : ℕ
  pub current_tick : ℕ
  pub next_id : ℕ
  pub slots : List (List (TimerEntry C))

abbrev pub u64 : ℕ → ℕ
u64 n = n % 2 ^ 64

module _ {C : Type 0} where
  no_entries : ℕ → List (List (TimerEntry C))
  no_entries zero = []
  no_entries (suc n) = [] ∷ no_entries n

  -- The constructor.
  pub create : ℕ → ℕ → TimerWheel C
  create num_slots tick_ms = record {
    num_slots = num_slots;
    tick_ms = tick_ms;
    current_tick = 0;
    next_id = 0;
    slots = no_entries num_slots;
  }

  -- The ticks until a timer expires: the delay in ticks, rounded up.
  pub ticks_for : TimerWheel C → ℕ → ℕ
  ticks_for w delay_ms = u64 (delay_ms + w.tick_ms + 2 ^ 64 - 1) / w.tick_ms

  pub expire_tick : TimerWheel C → ℕ → ℕ
  expire_tick w delay_ms = u64 (w.current_tick + ticks_for w delay_ms)

  abbrev pub new_entry : TimerWheel C → ℕ → Option C → TimerEntry C
  new_entry w delay_ms cb = record {
    id = w.next_id;
    expiration_tick = expire_tick w delay_ms;
    callback = cb;
    canceled = false;
  }

  pub add_timer : TimerWheel C → ℕ → Option C → TimerWheel C × ℕ
  add_timer w delay_ms cb = (
    record w {
      next_id = u64 (w.next_id + 1);
      slots =
          modify w.slots (expire_tick w delay_ms % w.num_slots)
            (λ entries. entries ++ (new_entry w delay_ms cb ∷ []));
    },
    w.next_id,
  )

  abbrev behind : TimerEntry C → Option (List (TimerEntry C)) → Option (List (TimerEntry C))
  behind e none = none
  behind e (some rest) = some (e ∷ rest)

  -- The inner loop of `cancelTimer`: `none` if no entry of the slot has this id.
  pub cancel_in : ℕ → List (TimerEntry C) → Option (List (TimerEntry C))
  cancel_in timer_id [] = none
  cancel_in timer_id (e ∷ entries) =
      if e.id == timer_id
      then some (record e { canceled = true } ∷ entries)
      else behind e (cancel_in timer_id entries)

  -- The slot that was searched, and what to do with those behind it.
  abbrev unless_found :
      List (TimerEntry C)
      → List (List (TimerEntry C))
      → List (List (TimerEntry C))
      → Option (List (TimerEntry C))
      → List (List (TimerEntry C))
  unless_found s slots later none = s ∷ later
  unless_found s slots later (some s') = s' ∷ slots

  pub cancel_slots : ℕ → List (List (TimerEntry C)) → List (List (TimerEntry C))
  cancel_slots timer_id [] = []
  cancel_slots timer_id (s ∷ slots) =
      unless_found s slots (cancel_slots timer_id slots) (cancel_in timer_id s)

  pub cancel_timer : TimerWheel C → ℕ → TimerWheel C
  cancel_timer w timer_id = record w { slots = cancel_slots timer_id w.slots }

  -- The loop of `tick` that sorts the entries of the slot: those that stay, and those that fire.
  pub keep_of : ℕ → List (TimerEntry C) → List (TimerEntry C)
  keep_of now [] = []
  keep_of now (e ∷ entries) =
      let rest = keep_of now entries in
      if e.canceled then rest else if leb e.expiration_tick now then rest else e ∷ rest

  pub due_of : ℕ → List (TimerEntry C) → List (TimerEntry C)
  due_of now [] = []
  due_of now (e ∷ entries) =
      let rest = due_of now entries in
      if e.canceled then rest else if leb e.expiration_tick now then e ∷ rest else rest

  -- The slot that a tick looks at.
  abbrev pub current_slot : TimerWheel C → List (TimerEntry C)
  current_slot w = get_or w.slots (w.current_tick % w.num_slots) []

  pub to_fire : TimerWheel C → List (TimerEntry C)
  to_fire w = due_of w.current_tick (current_slot w)

  -- The wheel after `entries.swap(keep)`, when the callbacks begin to run.
  pub swapped : TimerWheel C → TimerWheel C
  swapped w = record w {
    slots = modify w.slots (w.current_tick % w.num_slots) (keep_of w.current_tick);
  }

  module _ (run : C → TimerWheel C → TimerWheel C) where
    -- An empty `std::function` is not called.
    pub run_callback : Option C → TimerWheel C → TimerWheel C
    run_callback none w = w
    run_callback (some c) w = run c w

    pub fire_all : List (TimerEntry C) → TimerWheel C → TimerWheel C
    fire_all [] w = w
    fire_all (e ∷ entries) w = fire_all entries (run_callback e.callback w)

    pub tick : TimerWheel C → TimerWheel C
    tick w =
        let w' = fire_all (to_fire w) (swapped w) in
        record w' { current_tick = u64 (w'.current_tick + 1) }

    -- The event loop's ticks, one after the other.
    pub ticks : ℕ → TimerWheel C → TimerWheel C
    ticks zero w = w
    ticks (suc k) w = ticks k (tick w)
