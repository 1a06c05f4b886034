-- ===== src/Timer/Tests.antt =====
-- Runs of the timer wheel, and its theorems at concrete inputs.
use xnetty.Prelude.{ℕ, ◌≡◌, refl, [], ◌∷◌, some, arith, ◌==◌}
use xnetty.Prelude.Preds.{In}
use xnetty.Timer.{TimerEntry, TimerWheel, ticks_for, new_entry, add_timer, to_fire, due_of, ticks}
use xnetty.Timer.Wheel.{IsValid}
use xnetty.Timer.Fire.{all_expiring, to_fire-exact}
use xnetty.Timer.Liveness.{add_timer-fires}

-- Four slots of 10 ms, at tick 0.
abbrev fresh : TimerWheel ℕ
fresh = record {
  num_slots = 4;
  tick_ms = 10;
  current_tick = 0;
  next_id = 0;
  slots = [] ∷ [] ∷ [] ∷ [] ∷ [];
}

abbrev timer : ℕ → ℕ → TimerEntry ℕ
timer id at = record { id = id; expiration_tick = at; callback = some id; canceled = id == 9 }

-- At tick 5: timer 1 is due now, timer 2 one round later, and 3 at the next tick.
abbrev running : TimerWheel ℕ
running = record {
  num_slots = 4;
  tick_ms = 10;
  current_tick = 5;
  next_id = 4;
  slots = [] ∷ (timer 1 5 ∷ timer 2 9 ∷ []) ∷ (timer 3 6 ∷ []) ∷ [] ∷ [];
}

-- Callbacks that do not touch the wheel.
abbrev quiet : ℕ → TimerWheel ℕ → TimerWheel ℕ
quiet c w = w

running-IsValid : IsValid running
running-IsValid = omega arith

fires_one : to_fire running ≡ timer 1 5 ∷ []
unfolding to_fire due_of
fires_one = refl

rounds_up : ticks_for fresh 25 ≡ 3
unfolding ticks_for
rounds_up = refl

to_fire-exact_example : to_fire running ≡ all_expiring 5 running.slots
to_fire-exact_example = to_fire-exact running-IsValid

add_timer-fires_example :
    In
      (new_entry fresh 25 (some 7))
      (to_fire (ticks quiet (ticks_for fresh 25) (add_timer fresh 25 (some 7)).0))
unfolding ticks_for
add_timer-fires_example =
    add_timer-fires quiet {w = fresh} 25 (some 7) (omega arith) (omega arith) (λ c w h. (h, refl))
