-- ===== src/Loop.antt =====
-- The functors that an `EventLoop` (include/xnetty/event/event_loop.h, src/event/event_loop.cpp) is
-- given by `queueInLoop`, and its clock. A `std::function` is an option, `none` an empty one; what a
-- functor does to the loop is the parameter `react`: the functors that it queues, and whether it
-- throws. `left` is what a `std::function` holds after it was moved from.
pub mod Queue
pub mod Ring
pub mod Refine
pub mod Order
pub mod Create
pub mod Called
pub mod Clock
pub mod Wakeups
mod Tests
use xnetty.Prelude.{
  ℕ, ◌+◌, List, [], ◌∷◌, ◌++◌, Bool, true, false, not, ◌&&◌, ◌||◌, Option, none, some,
  if◌then◌else◌, ltb,
}
use xnetty.Memory.{Outcome, ok, ◌>>=◌}
use xnetty.Loop.Queue.{SpscQueue, push, pop_all}

-- `woken` counts the bytes that `wakeup` wrote and `handleWakeup` has not read. Records of what
-- happened: `queued` are the functors that were given to `queueInLoop`, `ran` those that were called,
-- and `disturbed` tells that the ring refused one or that one threw.
pub record EventLoop {ℓ} (F : Type ℓ) : Type ℓ where
  pub lf_buffer : SpscQueue (Option F)
  pub pending_functors : List (Option F)
  pub calling_pending_functors : Bool
  pub wakeup_sent : Bool
  pub woken : ℕ
  pub queued : List (Option F)
  pub ran : List (Option F)
  pub disturbed : Bool

module _ {ℓ} {F : Type ℓ} where
  unfoldable pub wakeup : EventLoop F → EventLoop F
  wakeup s = record s { woken = s.woken + 1 }

  -- The end of `queueInLoop`.
  unfoldable pub wake : Bool → EventLoop F → EventLoop F
  wake in_loop s =
      if (not in_loop || s.calling_pending_functors) && not s.wakeup_sent
      then wakeup (record s { wakeup_sent = true })
      else s

  unfoldable pub stored : Option F → Bool × SpscQueue (Option F) → EventLoop F → EventLoop F
  stored left (true, q) s = record s { lf_buffer = q }
  stored left (false, q) s = record s {
    lf_buffer = q;
    pending_functors = s.pending_functors ++ (left ∷ []);
    disturbed = true;
  }

  -- One call at a time: the ring is made for one producer. Loop/Wakeups has calls that overlap.
  unfoldable pub queue_in_loop : Option F → Bool → Option F → EventLoop F → Outcome (EventLoop F)
  queue_in_loop left in_loop cb s = do
    r ← push none cb s.lf_buffer
    ok (wake in_loop (stored left r (record s { queued = s.queued ++ (cb ∷ []) })))

  -- What a functor queues, from the thread of the loop.
  unfoldable pub queue_all : Option F → List (Option F) → EventLoop F → Outcome (EventLoop F)
  queue_all left [] s = ok s
  queue_all left (cb ∷ more) s = do s' ← queue_in_loop left true cb s; queue_all left more s'

abbrev pub new_loop {ℓ} : {F : Type ℓ} → SpscQueue (Option F) → EventLoop F
new_loop q = record {
  lf_buffer = q;
  pending_functors = [];
  calling_pending_functors = false;
  wakeup_sent = false;
  woken = 0;
  queued = [];
  ran = [];
  disturbed = false;
}

-- The constructor with `setEventQueueSize`; the constructor's own size is 65536.
unfoldable pub create {ℓ} : {F : Type ℓ} → ℕ → Outcome (EventLoop F)
create size = do q ← Queue.create none (if ltb size 64 then 64 else size); ok (new_loop q)

-- A functor that another thread (or, with `true`, the loop's own) queues; and the end of a round of
-- the loop.
pub data Event {ℓ} (F : Type ℓ) : Type ℓ where
  queue : Bool → Option F → Event F
  pending : Event F

-- A loop that catches what is thrown in it.
module _ {ℓ} {F : Type ℓ} (left : Option F) (react : F → List (Option F) × Bool) where
  -- The calls of `doPendingFunctors`; an empty functor throws. The flag tells that all were called.
  unfoldable pub call_all : List (Option F) → EventLoop F → Outcome (Bool × EventLoop F)
  call_all [] s = ok (true, s)
  call_all (none ∷ more) s = ok (false, record s { disturbed = true })
  call_all (some f ∷ more) s = do
    s' ← queue_all left (react f).0 (record s { ran = s.ran ++ (some f ∷ []) })
    if (react f).1 then ok (false, record s' { disturbed = true }) else call_all more s'

  -- An exception leaves the flag as it is.
  unfoldable pub finished : Bool × EventLoop F → EventLoop F
  finished (true, s) = record s { calling_pending_functors = false }
  finished (false, s) = s

  unfoldable pub do_pending_functors : EventLoop F → Outcome (EventLoop F)
  do_pending_functors s = do
    (functors, q) ← pop_all none s.lf_buffer
    r ← call_all (functors ++ s.pending_functors) (record s {
      lf_buffer = q;
      pending_functors = [];
      calling_pending_functors = true;
      wakeup_sent = false;
    })
    ok (finished r)

  unfoldable pub step : Event F → EventLoop F → Outcome (EventLoop F)
  step (queue in_loop cb) s = queue_in_loop left in_loop cb s
  step pending s = do_pending_functors s

  unfoldable pub run : List (Event F) → EventLoop F → Outcome (EventLoop F)
  run [] s = ok s
  run (e ∷ events) s = do s' ← step e s; run events s'
