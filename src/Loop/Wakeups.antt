-- ===== src/Loop/Wakeups.antt =====
-- The threads that call `EventLoop::queueInLoop` and the thread of the loop, one access to shared
-- memory after the other (src/event/event_loop.cpp, include/xnetty/event/event_loop.h). The relaxed
-- store that resets `wakeupSent_` becomes visible some time later, as from a store buffer; a push
-- reads the tail first and stores it last. The other accesses take effect where they stand.
use xnetty.Prelude.{ℕ, suc, ◌+◌, ◌≡◌, ◌<◌, ◌⊎◌, Bool, true, false, ◌||◌, ltb}

-- Where the loop is: in the poller; behind it, with the handlers and the timers; behind the reset of
-- `wakeupSent_`; behind `popAll`; and calling functors.
pub data Place : Type 0 where
  polling awake reset popped calling : Place

-- `ring` and `overflow` count the functors in `lfBuffer_` and in `pendingFunctors_`, `pushing` the
-- threads inside `push`, `pushed` those between their push and the exchange of `wakeupSent_`,
-- `winners` those that are about to write to the pipe, and `pipe` what was written and not read.
-- `resetting` tells that the store of false to `wakeupSent_` is not visible yet. `disturbed` records
-- what the code does not provide for: two threads inside `push`, a `popAll` that overtakes the store,
-- or an exception that leaves the body of the loop.
pub record Shared : Type 0 where
  pub ring : ℕ
  pub overflow : ℕ
  pub pushing : ℕ
  pub pushed : ℕ
  pub winners : ℕ
  pub wakeup_sent : Bool
  pub resetting : Bool
  pub pipe : ℕ
  pub place : Place
  pub disturbed : Bool

pub data Step : Shared → Shared → Type 0 where
  -- `push`, of any thread: the load of the tail, and the end, behind which another thread, or a
  -- functor that the loop calls, goes on to the exchange. A full ring makes it use `pendingFunctors_`.
  begin_push :
      (s : Shared)
      → Step s (record s { pushing = s.pushing + 1; disturbed = s.disturbed || ltb 0 s.pushing })
  push :
      (s : Shared) (n : ℕ)
      → s.pushing ≡ suc n
      → Step s (record s { ring = s.ring + 1; pushing = n; pushed = s.pushed + 1 })
  push_back :
      (s : Shared) (n : ℕ)
      → s.pushing ≡ suc n
      → Step s (record s { overflow = s.overflow + 1; pushing = n; pushed = s.pushed + 1 })
  exchange_first :
      (s : Shared) (n : ℕ)
      → s.pushed ≡ suc n
      → s.wakeup_sent ≡ false
      → Step s (record s { pushed = n; winners = s.winners + 1; wakeup_sent = true })
  exchange_again :
      (s : Shared) (n : ℕ)
      → s.pushed ≡ suc n
      → s.wakeup_sent ≡ true
      → Step s (record s { pushed = n })
  write :
      (s : Shared) (n : ℕ)
      → s.winners ≡ suc n
      → Step s (record s { winners = n; pipe = s.pipe + 1 })
  -- The end of `push` of a handler or a timer of the loop, which wakes nobody.
  push_own :
      (s : Shared) (n : ℕ)
      → s.place ≡ awake
      → s.pushing ≡ suc n
      → Step s (record s { ring = s.ring + 1; pushing = n })
  push_back_own :
      (s : Shared) (n : ℕ)
      → s.place ≡ awake
      → s.pushing ≡ suc n
      → Step s (record s { overflow = s.overflow + 1; pushing = n })
  -- `poll` returns because of the pipe, which `handleWakeup` reads, or because of something else.
  poll_pipe :
      (s : Shared) (n : ℕ)
      → s.place ≡ polling
      → s.pipe ≡ suc n
      → Step s (record s { pipe = n; place = awake })
  poll_other : (s : Shared) → s.place ≡ polling → Step s (record s { place = awake })
  -- `doPendingFunctors`; the store becomes visible by `show`.
  store : (s : Shared) → s.place ≡ awake → Step s (record s { resetting = true; place = reset })
  show :
      (s : Shared)
      → s.resetting ≡ true
      → Step s (record s { resetting = false; wakeup_sent = false })
  pop_all :
      (s : Shared)
      → s.place ≡ reset
      → Step s (record s { ring = 0; place = popped; disturbed = s.disturbed || s.resetting })
  take_pending :
      (s : Shared) → s.place ≡ popped → Step s (record s { overflow = 0; place = calling })
  done : (s : Shared) → s.place ≡ calling → Step s (record s { place = polling })
  -- An exception of a handler, a timer or a functor.
  throw_awake :
      (s : Shared) → s.place ≡ awake → Step s (record s { place = polling; disturbed = true })
  throw_calling :
      (s : Shared) → s.place ≡ calling → Step s (record s { place = polling; disturbed = true })

pub data Reach (s : Shared) : Shared → Type 0 where
  here : Reach s s
  next : {t u : Shared} → Reach s t → Step t u → Reach s u

-- A loop that has not begun.
abbrev pub start : Shared
start = record {
  ring = 0;
  overflow = 0;
  pushing = 0;
  pushed = 0;
  winners = 0;
  wakeup_sent = false;
  resetting = false;
  pipe = 0;
  place = polling;
  disturbed = false;
}

-- The next `popAll`, and the next look at `pendingFunctors_`, are still to come in this round.
pub ring_ahead : Place → Bool
ring_ahead awake = true
ring_ahead reset = true
ring_ahead _ = false

pub overflow_ahead : Place → Bool
overflow_ahead awake = true
overflow_ahead reset = true
overflow_ahead popped = true
overflow_ahead _ = false

-- Functors that nobody in this round takes have woken the loop, or will; and a loop that was woken
-- finds it in the pipe, unless it has just read it.
record IsTold (s : Shared) : Type 0 where
  ring_told : (s.ring ≡ 0) ⊎ (ring_ahead s.place ≡ true) ⊎ (0 < s.pushed) ⊎ (s.wakeup_sent ≡ true)
  overflow_told :
      (s.overflow ≡ 0) ⊎ (overflow_ahead s.place ≡ true) ⊎ (0 < s.pushed) ⊎ (s.wakeup_sent ≡ true)
  sent :
      (s.wakeup_sent ≡ false)
      ⊎ (0 < s.winners)
      ⊎ (0 < s.pipe)
      ⊎ (s.place ≡ awake)
      ⊎ (s.resetting ≡ true)
  in_time : (s.resetting ≡ false) ⊎ (s.place ≡ reset)

abbrev IsSound : Shared → Type 0
IsSound s = (s.disturbed ≡ true) ⊎ IsTold s
