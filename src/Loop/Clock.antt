-- ===== src/Loop/Clock.antt =====
-- `EventLoop::advanceTimer` (src/event/event_loop.cpp): the ticks of the wheel follow a clock. Times are
-- in nanoseconds, as those of `steady_clock`.
use native.Mathlib.Nat.{div-eq_of_lt-le, div-mul-le_self, lt-div-mul-add, add-mul, one-mul}
use xnetty.Prelude.{
  ℕ, ◌+◌, ◌-◌, ◌*◌, ◌/◌, ◌≡◌, ◌≤◌, ◌<◌, refl, sym, subst, ap, ◌∙◌, List, [], ◌∷◌, false, arith, ltb,
  ◌==◌, if◌then◌else◌, inl, inr, Bool-cases,
}
use xnetty.Memory.{Outcome, ok, fault, ◌>>=◌}
use xnetty.Memory.Returns.{Ends, Ends->>=}
use xnetty.Timer.{TimerWheel, ticks}
use xnetty.Timer.Ticks.{ticks_zero, ticks_add, ticks-tick_ms}

-- `timer_ticks` counts the calls of `onTimerTick`.
pub record Clock (C : Type 0) : Type 0 where
  pub timer_wheel : TimerWheel C
  pub last_timer_tick : ℕ
  pub timer_ticks : ℕ

module _ {C : Type 0} (run : C → TimerWheel C → TimerWheel C) where
  -- A wheel whose tick takes no time is a division by zero.
  unfoldable pub advance_timer : ℕ → Clock C → Outcome (Clock C)
  advance_timer now s =
      let elapsed = (now - s.last_timer_tick) / 1000000 in
      let catch_up = elapsed / s.timer_wheel.tick_ms in
      let wheel = ticks run catch_up s.timer_wheel in
      if ltb elapsed s.timer_wheel.tick_ms
      then ok s
      else if s.timer_wheel.tick_ms == 0
      then fault
      else ok (record {
        timer_wheel = wheel;
        last_timer_tick = s.last_timer_tick + catch_up * wheel.tick_ms * 1000000;
        timer_ticks = s.timer_ticks + catch_up;
      })

  -- The rounds of the loop, at these times.
  unfoldable pub advance_all : List ℕ → Clock C → Outcome (Clock C)
  advance_all [] s = ok s
  advance_all (now ∷ times) s = do s' ← advance_timer now s; advance_all times s'

-- The times do not go backwards, and the last one of them is `last`.
abbrev pub IsClock : ℕ → List ℕ → ℕ → Type 0
IsClock now [] last = now ≡ last
IsClock now (t ∷ times) last = (now ≤ t) × IsClock t times last

module _ {C : Type 0} (run : C → TimerWheel C → TimerWheel C) where
  -- A clock that began at `start` with the wheel `w` and has made `n` ticks.
  record IsBehind (start : ℕ) (w : TimerWheel C) (n : ℕ) (s : Clock C) : Type 0 where
    wheel : s.timer_wheel ≡ ticks run n w
    counted : s.timer_ticks ≡ n
    last : s.last_timer_tick ≡ start + n * w.tick_ms * 1000000

  advance_timer-IsBehind :
      (start now n : ℕ) (w : TimerWheel C) (s : Clock C)
      → ((c : C) (v : TimerWheel C) → (run c v).tick_ms ≡ v.tick_ms)
      → 0 < w.tick_ms
      → s.last_timer_tick ≤ now
      → IsBehind start w n s
      → Ends
          (λ s'.
            (n' : ℕ) × IsBehind start w n' s'
            × (s'.last_timer_tick ≤ now)
            × (now < s'.last_timer_tick + w.tick_ms * 1000000))
          (advance_timer run now s)
  unfolding advance_timer
  advance_timer-IsBehind start now n w s h pos le b =
      let t = s.timer_wheel.tick_ms in
      let same : s.timer_wheel.tick_ms ≡ w.tick_ms =
        ap (λ v. v.tick_ms) b.wheel ∙ ticks-tick_ms run n w h in
      let elapsed = (now - s.last_timer_tick) / 1000000 in
      elim (Bool-cases (ltb elapsed t)) [
        | inl e ↦ (s, rw e refl, (n, b, le, ground (arith, same)))
        | inr e ↦
            let some_time : (t == 0) ≡ false = ground (arith, same) in
            let k = elapsed / t in
            let low = div-mul-le_self elapsed t in
            let high = lt-div-mul-add {a = elapsed} {b = t} (omega (arith, same)) in
            let s' : Clock C = record {
              timer_wheel = ticks run k s.timer_wheel;
              last_timer_tick = s.last_timer_tick + k * t * 1000000;
              timer_ticks = s.timer_ticks + k;
            } in
            let before : s.last_timer_tick ≡ start + n * t * 1000000 =
              b.last ∙ ap (λ j. start + n * j * 1000000) (sym same) in
            let after : s.last_timer_tick + k * t * 1000000 ≡ start + (n + k) * t * 1000000 =
              rw add-mul (omega (arith, before)) in
            (
              s',
              rw (e, some_time, ticks-tick_ms run k s.timer_wheel h) refl,
              (
                n + k,
                record {
                  wheel = ap (ticks run k) b.wheel ∙ ticks_add run n k w;
                  counted = ap (λ j. j + k) b.counted;
                  last = after ∙ ap (λ j. start + (n + k) * j * 1000000) same;
                },
                omega (arith, low),
                omega (arith, high, same),
              ),
            )
      ]

  -- What holds of a clock after it was read at `now`.
  Follows : ℕ → TimerWheel C → ℕ → Clock C → Type 0
  Follows start w now s =
      (n : ℕ) × IsBehind start w n s
      × (s.last_timer_tick ≤ now)
      × (now < s.last_timer_tick + w.tick_ms * 1000000)

  advance_all-Follows :
      (start now last : ℕ) (w : TimerWheel C) (times : List ℕ) (s : Clock C)
      → ((c : C) (v : TimerWheel C) → (run c v).tick_ms ≡ v.tick_ms)
      → 0 < w.tick_ms
      → IsClock now times last
      → Follows start w now s
      → Ends (Follows start w last) (advance_all run times s)
  unfolding advance_all Follows
  advance_all-Follows start now last w [] s h pos e f =
      (s, refl, subst (λ t. Follows start w t s) e f)
  advance_all-Follows start now last w (t ∷ times) s h pos (le, more) (n, b, low, high) =
      Ends->>= (Follows start w t) (Follows start w last) (advance_timer run t s) _
        (advance_timer-IsBehind start t n w s h pos (omega arith) b)
        (λ s' f. advance_all-Follows start t last w times s' h pos more f)

  -- If the callbacks leave the length of a tick as it is, a clock that is read at any times, none before
  -- the one in front of it, has made as many ticks at the end as whole ticks fit into the milliseconds
  -- from the start to the last reading: the wheel and the calls of `onTimerTick` do not drift.
  pub advance_all-ticks :
      (start last : ℕ) (times : List ℕ) (w : TimerWheel C)
      → ((c : C) (v : TimerWheel C) → (run c v).tick_ms ≡ v.tick_ms)
      → 0 < w.tick_ms
      → IsClock start times last
      → Ends
          (λ s.
            (s.timer_wheel ≡ ticks run ((last - start) / 1000000 / w.tick_ms) w)
            × (s.timer_ticks ≡ (last - start) / 1000000 / w.tick_ms))
          (advance_all run times
            (record { timer_wheel = w; last_timer_tick = start; timer_ticks = 0 }))
  unfolding Follows
  advance_all-ticks start last times w h pos c =
      let fresh : Clock C = record { timer_wheel = w; last_timer_tick = start; timer_ticks = 0 } in
      let b : IsBehind start w 0 fresh = record {
        wheel = sym (ticks_zero run w);
        counted = refl;
        last = omega arith;
      } in
      let (s, e, (n, b', low, high)) =
        advance_all-Follows start start last w times fresh h pos c
          (0, b, omega arith, omega arith) in
      let exact : (last - start) / 1000000 / w.tick_ms ≡ n =
        div-eq_of_lt-le w.tick_ms (omega (arith, b'.last))
          (rw (add-mul, one-mul) (omega (arith, b'.last))) in
      (s, e, (b'.wheel ∙ ap (λ j. ticks run j w) (sym exact), b'.counted ∙ sym exact))
