-- ===== src/Timer/Liveness.antt =====
-- A timer that is not canceled fires at the tick that its delay asks for.
use xnetty.Prelude.{
  ℕ, zero, suc, ◌+◌, ◌-◌, ◌*◌, ◌%◌, ◌^◌, ◌≡◌, ◌≤◌, ◌<◌, refl, sym, ◌∙◌, List, [], ◌∷◌, ◌++◌, false,
  Option, none, some, arith, get_or, ◌==◌, Bool-cases, inl, inr, subst, ==_iff,
}
use xnetty.Prelude.Preds.{In, In-append_right, get_or-modify_self, get_or-modify, get_or-modify_ne}
use xnetty.Timer.{
  TimerEntry, TimerWheel, u64, ticks_for, expire_tick, new_entry, add_timer, keep_of, due_of,
  current_slot, to_fire, swapped, run_callback, fire_all, tick, ticks,
}
use xnetty.Timer.Wheel.{IsValid}

-- The delay in ticks is the delay in milliseconds, rounded up.
pub ticks_for_bounds :
    {C : Type 0} (w : TimerWheel C) (delay : ℕ)
    → 0 < w.tick_ms
    → delay + w.tick_ms ≤ 2 ^ 64
    → (delay ≤ ticks_for w delay * w.tick_ms) × (ticks_for w delay * w.tick_ms < delay + w.tick_ms)
unfolding ticks_for
ticks_for_bounds w delay h small =
    let plain : u64 (delay + w.tick_ms + 2 ^ 64 - 1) ≡ delay + w.tick_ms - 1 = omega arith in
    rw plain (grind arith, grind arith)

module _ {C : Type 0} where
  -- The entry stands in its slot.
  abbrev pub Waits : TimerEntry C → TimerWheel C → Type 0
  Waits e w = In e (get_or w.slots (e.expiration_tick % w.num_slots) [])

  keep_of-In :
      (now : ℕ) (e : TimerEntry C) (s : List (TimerEntry C))
      → e.canceled ≡ false
      → now < e.expiration_tick
      → In e s
      → In e (keep_of now s)
  unfolding keep_of
  keep_of-In now e [] c l h = h
  keep_of-In now e (x ∷ s) c l (inl p) = ground arith
  keep_of-In now e (x ∷ s) c l (inr h) = ground (arith, keep_of-In now e s c l h)

  due_of-In :
      (now : ℕ) (e : TimerEntry C) (s : List (TimerEntry C))
      → e.canceled ≡ false
      → e.expiration_tick ≤ now
      → In e s
      → In e (due_of now s)
  unfolding due_of
  due_of-In now e [] c l h = h
  due_of-In now e (x ∷ s) c l (inl p) = ground arith
  due_of-In now e (x ∷ s) c l (inr h) = ground (arith, due_of-In now e s c l h)

  swapped-Waits :
      (e : TimerEntry C) (w : TimerWheel C)
      → e.canceled ≡ false
      → w.current_tick < e.expiration_tick
      → Waits e w
      → Waits e (swapped w)
  unfolding swapped
  swapped-Waits e w c l h =
      elim (Bool-cases (w.current_tick % w.num_slots == e.expiration_tick % w.num_slots)) [
        | inl t ↦
            let same : w.current_tick % w.num_slots ≡ e.expiration_tick % w.num_slots =
              (==_iff _ _).0 t in
            rw
              (
                same,
                get_or-modify_self w.slots (e.expiration_tick % w.num_slots)
                    (keep_of w.current_tick) [] (unfold keep_of in refl),
              )
              (keep_of-In w.current_tick e _ c l h)
        | inr t ↦
            rw
              (get_or-modify_ne w.slots (w.current_tick % w.num_slots)
                (e.expiration_tick % w.num_slots) (keep_of w.current_tick) [] (ground arith))
              h
      ]

  module _ (run : C → TimerWheel C → TimerWheel C) (e : TimerEntry C) where
    -- No callback cancels this timer, or drives the clock.
    abbrev pub IsSparing : Type 0
    IsSparing =
        (c : C) (w : TimerWheel C)
        → Waits e w
        → Waits e (run c w) × ((run c w).current_tick ≡ w.current_tick)

    run_callback-Waits :
        IsSparing
        → (o : Option C) (w : TimerWheel C) → Waits e w
        → Waits e (run_callback run o w) × ((run_callback run o w).current_tick ≡ w.current_tick)
    unfolding run_callback
    run_callback-Waits g none w h = (h, refl)
    run_callback-Waits g (some c) w h = g c w h

    fire_all-Waits :
        IsSparing
        → (entries : List (TimerEntry C)) (w : TimerWheel C) → Waits e w
        → Waits e (fire_all run entries w)
          × ((fire_all run entries w).current_tick ≡ w.current_tick)
    unfolding fire_all
    fire_all-Waits g [] w h = (h, refl)
    fire_all-Waits g (x ∷ entries) w h =
        let (h', same) = run_callback-Waits g x.callback w h in
        let (h'', same') = fire_all-Waits g entries (run_callback run x.callback w) h' in
        (h'', same' ∙ same)

    tick-Waits :
        IsSparing
        → (w : TimerWheel C) → e.canceled ≡ false
        → e.expiration_tick < 2 ^ 64
        → w.current_tick < e.expiration_tick
        → Waits e w
        → Waits e (tick run w) × ((tick run w).current_tick ≡ w.current_tick + 1)
    unfolding tick
    tick-Waits g w c small l h =
        let (h', same) = fire_all-Waits g (to_fire w) (swapped w) (swapped-Waits e w c l h) in
        (h', omega (arith, same, still))
      where
        still : (swapped w).current_tick ≡ w.current_tick
        still = unfold swapped in refl

    -- A timer that waits is still there at the tick of its expiration, and fires in it.
    pub fires_at_expiration :
        IsSparing
        → (k : ℕ) (w : TimerWheel C) → e.canceled ≡ false
        → e.expiration_tick < 2 ^ 64
        → w.current_tick + k ≡ e.expiration_tick
        → Waits e w
        → In e (to_fire (ticks run k w))
    unfolding ticks
    fires_at_expiration g zero w c small l h =
        unfold to_fire in
        let now : w.current_tick ≡ e.expiration_tick = omega arith in
        due_of-In w.current_tick e (current_slot w) c (omega arith)
          (subst (λ t. In e (get_or w.slots (t % w.num_slots) [])) (sym now) h)
    fires_at_expiration g (suc k) w c small l h =
        let (h', next) = tick-Waits g w c small (omega arith) h in
        fires_at_expiration g k (tick run w) c small (omega (arith, next)) h'

  -- A timer that is added fires after as many ticks as its delay has, if no callback cancels it and
  -- the tick counter does not overflow.
  pub add_timer-fires :
      (run : C → TimerWheel C → TimerWheel C) {w : TimerWheel C} (delay : ℕ) (cb : Option C)
      → IsValid w
      → w.current_tick + ticks_for w delay < 2 ^ 64
      → IsSparing run (new_entry w delay cb)
      → In (new_entry w delay cb) (to_fire (ticks run (ticks_for w delay) (add_timer w delay cb).0))
  unfolding add_timer
  add_timer-fires run {w} delay cb v small g =
      fires_at_expiration run (new_entry w delay cb) g (ticks_for w delay) _ refl
        (omega (arith, at)) (sym at) placed
    where
      at : expire_tick w delay ≡ w.current_tick + ticks_for w delay
      at = unfold expire_tick in omega arith

      slot : ℕ
      slot = expire_tick w delay % w.num_slots

      placed : Waits (new_entry w delay cb) (add_timer w delay cb).0
      placed =
          rw (get_or-modify w.slots slot (λ s. s ++ (new_entry w delay cb ∷ [])) [] (omega arith)) (
            In-append_right (new_entry w delay cb) (get_or w.slots slot [])
              (new_entry w delay cb ∷ []) (inl refl))
