-- ===== src/Loop/Tests.antt =====
-- Event loops at work, and the theorems at concrete inputs.
use xnetty.Prelude.{
  ℕ, ◌-◌, ◌^◌, ◌≡◌, ◌≤◌, ◌⊎◌, inl, refl, List, [], ◌∷◌, ◌++◌, Bool, true, false, Option, none, some,
  ◌==◌, if◌then◌else◌, arith,
}
use xnetty.Memory.{ok, ◌>>=◌}
use xnetty.Memory.Returns.{Ends}
use xnetty.Timer.{TimerWheel, ticks}
use xnetty.Loop.{
  Event, queue, pending, create, new_loop, run, do_pending_functors, queue_in_loop, queue_all,
  call_all, finished, wake, wakeup, stored, step,
}
use xnetty.Loop.Queue
use xnetty.Loop.Queue.{
  SpscQueue, next, double_up, next_power_of_two, push, pop_from, pop_all, Op, put, take_all, taken,
}
use xnetty.Loop.Ring.{IsValid, contents}
use xnetty.Loop.Refine.{bounded}
use xnetty.Loop.Create.{create-bounded}
use xnetty.Loop.Called.{run-calls_in_order, queue_in_loop-loses}
use xnetty.Loop.Clock.{advance_timer, advance_all, advance_all-ticks}
use xnetty.Loop.Wakeups.{Shared, polling}

all_open : Unit {0}
unfolding next double_up next_power_of_two Queue.create push pop_from pop_all Queue.run wakeup wake
    stored queue_in_loop queue_all create call_all finished do_pending_functors step run
    advance_timer advance_all
all_open = tt

-- Three items fit into a ring of four places; the fourth one is refused.
abbrev five : List (Op ℕ)
five = put 1 ∷ put 2 ∷ put 3 ∷ put 4 ∷ take_all ∷ put 5 ∷ take_all ∷ []

ring_at_work :
    (do q ← Queue.create 0 3; Queue.run 0 five q)
    ≡ ok (
        Queue.stored true
        ∷ Queue.stored true
        ∷ Queue.stored true
        ∷ Queue.stored false
        ∷ taken (1 ∷ 2 ∷ 3 ∷ [])
        ∷ Queue.stored true
        ∷ taken (5 ∷ [])
        ∷ [])
unfolding all_open
ring_at_work = refl

create-bounded_example :
    (k : ℕ) × (3 ≤ 2 ^ k)
    × ((do q ← Queue.create 0 3; Queue.run 0 five q) ≡ ok (bounded (2 ^ k - 1) five []))
create-bounded_example = create-bounded 0 3 five (omega arith)

-- The functor 1 queues the functor 9.
abbrev react : ℕ → List (Option ℕ) × Bool
react f = (if f == 1 then some 9 ∷ [] else [], false)

abbrev rounds : List (Event ℕ)
rounds = queue true (some 1) ∷ queue true (some 2) ∷ pending ∷ queue true (some 3) ∷ []

run-calls_in_order_example :
    Ends
      (λ (before, after).
        ((after.disturbed ≡ true) ⊎ (after.ran ++ contents none after.lf_buffer ≡ after.queued))
        × ((before.disturbed ≡ true) ⊎ (after.disturbed ≡ true) ⊎ (after.ran ≡ before.queued)))
      (do
        s ← create 64
        before ← run none react rounds s
        after ← do_pending_functors none react before
        ok (before, after))
run-calls_in_order_example =
    run-calls_in_order none react rounds 64 (omega arith) (inl (refl, (refl, (tt, (refl, tt)))))

-- A ring of two places, which holds one functor and has no place for another.
abbrev full_ring : SpscQueue (Option ℕ)
full_ring = record { buf = some 7 ∷ none ∷ []; size_mask = 1; head = 0; tail = 1 }

full_ring-IsValid : IsValid full_ring
full_ring-IsValid = record {
  sized = refl;
  small = omega arith;
  head_within = omega arith;
  tail_within = omega arith;
}

abbrev quiet : ℕ → List (Option ℕ) × Bool
quiet f = ([], false)

queue_in_loop-loses_example :
    Ends
      (λ t.
        (t.ran ≡ some 7 ∷ [])
        × (contents none t.lf_buffer ≡ [])
        × (t.pending_functors ≡ [])
        × (t.calling_pending_functors ≡ true))
      (do
        s' ← queue_in_loop none false (some 8) (new_loop full_ring)
        do_pending_functors none quiet s')
unfolding all_open
queue_in_loop-loses_example =
    queue_in_loop-loses quiet false 8 (7 ∷ []) (new_loop full_ring) (λ f. refl) full_ring-IsValid
      refl refl refl

abbrev wheel : TimerWheel ℕ
wheel = record { num_slots = 4; tick_ms = 10; current_tick = 0; next_id = 0; slots = [] }

abbrev no_effect : ℕ → TimerWheel ℕ → TimerWheel ℕ
no_effect c w = w

advance_all-ticks_example :
    Ends
      (λ s. (s.timer_wheel ≡ ticks no_effect 4 wheel) × (s.timer_ticks ≡ 4))
      (advance_all no_effect
        (15000000 ∷ 29000000 ∷ 49000000 ∷ [])
        (record { timer_wheel = wheel; last_timer_tick = 5000000; timer_ticks = 0 }))
advance_all-ticks_example =
    advance_all-ticks no_effect 5000000 49000000 (15000000 ∷ 29000000 ∷ 49000000 ∷ []) wheel
      (λ c v. refl) (omega arith) (omega arith, (omega arith, (omega arith, refl)))

-- Another thread has queued a functor and written to the pipe.
abbrev told : Shared
told = record {
  ring = 1;
  overflow = 0;
  pushing = 0;
  pushed = 0;
  winners = 0;
  wakeup_sent = true;
  resetting = false;
  pipe = 1;
  place = polling;
  disturbed = false;
}
