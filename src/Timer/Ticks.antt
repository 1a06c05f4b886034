-- ===== src/Timer/Ticks.antt =====
-- Many ticks of the wheel.
use xnetty.Prelude.{ℕ, zero, suc, ◌+◌, ◌≡◌, refl, ap, ◌∙◌, List, [], ◌∷◌, Option, none, some, arith}
use xnetty.Timer.{
  TimerEntry, TimerWheel, to_fire, swapped, run_callback, fire_all, tick, ticks, add_timer,
}

module _ {C : Type 0} (run : C → TimerWheel C → TimerWheel C) where
  pub ticks_zero : (w : TimerWheel C) → ticks run 0 w ≡ w
  unfolding ticks
  ticks_zero w = refl

  pub ticks_add : (n k : ℕ) (w : TimerWheel C) → ticks run k (ticks run n w) ≡ ticks run (n + k) w
  unfolding ticks
  ticks_add zero k w = let e : k ≡ 0 + k = omega arith in ap (λ j. ticks run j w) e
  ticks_add (suc n) k w =
      let e : suc (n + k) ≡ suc n + k = omega arith in
      ticks_add n k (tick run w) ∙ ap (λ j. ticks run j w) e

  fire_all-tick_ms :
      (es : List (TimerEntry C)) (w : TimerWheel C)
      → ((c : C) (v : TimerWheel C) → (run c v).tick_ms ≡ v.tick_ms)
      → (fire_all run es w).tick_ms ≡ w.tick_ms
  unfolding fire_all run_callback
  fire_all-tick_ms [] w h = refl
  fire_all-tick_ms (e ∷ es) w h =
      fire_all-tick_ms es (run_callback run e.callback w) h ∙ called e.callback
    where
      called : (cb : Option C) → (run_callback run cb w).tick_ms ≡ w.tick_ms
      called none = refl
      called (some c) = h c w

  -- Callbacks that leave the length of a tick as it is do so in any number of ticks.
  pub ticks-tick_ms :
      (n : ℕ) (w : TimerWheel C)
      → ((c : C) (v : TimerWheel C) → (run c v).tick_ms ≡ v.tick_ms)
      → (ticks run n w).tick_ms ≡ w.tick_ms
  unfolding ticks tick swapped
  ticks-tick_ms zero w h = refl
  ticks-tick_ms (suc n) w h =
      ticks-tick_ms n (tick run w) h ∙ fire_all-tick_ms (to_fire w) (swapped w) h

-- The id of a timer is the next id of the wheel.
pub add_timer-id :
    {C : Type 0} (w : TimerWheel C) (delay : ℕ) (cb : Option C)
    → (add_timer w delay cb).1 ≡ w.next_id
unfolding add_timer
add_timer-id w delay cb = refl
