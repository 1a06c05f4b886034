-- ===== src/Timer/Fire.antt =====
-- What a tick fires, and when a timer fires.
use xnetty.Prelude.{
  ℕ, zero, suc, ◌+◌, ◌%◌, ◌^◌, ◌≡◌, ◌≢◌, ◌<◌, refl, sym, ap, ◌∙◌, List, [], ◌∷◌, ◌++◌, Option, none,
  some, arith, get_or, ◌==◌, if◌then◌else◌, Bool-cases, inl, inr, subst, ==_iff, append-nil,
}
use xnetty.Prelude.Preds.{All, AllAt}
use xnetty.Timer.{
  TimerEntry, TimerWheel, u64, due_of, current_slot, to_fire, swapped, fire_all, tick, run_callback,
}
use xnetty.Timer.Wheel.{Fits, Holds, IsValid, IsAhead, swapped-IsAhead}

module _ {C : Type 0} where
  -- The entries of a list that are not canceled and expire at tick `now`, in order.
  pub expiring : ℕ → List (TimerEntry C) → List (TimerEntry C)
  expiring now [] = []
  expiring now (e ∷ s) =
      let rest = expiring now s in
      if e.canceled then rest else if e.expiration_tick == now then e ∷ rest else rest

  -- Those of all slots.
  pub all_expiring : ℕ → List (List (TimerEntry C)) → List (TimerEntry C)
  all_expiring now [] = []
  all_expiring now (s ∷ slots) = expiring now s ++ all_expiring now slots

  due_of-eq :
      (n now j : ℕ) (s : List (TimerEntry C)) → All (Fits n now j) s → due_of now s ≡ expiring now s
  unfolding due_of expiring
  due_of-eq n now j [] h = refl
  due_of-eq n now j (e ∷ s) (f, h) = ground (arith, due_of-eq n now j s h)

  expiring-elsewhere :
      (n now j : ℕ) (s : List (TimerEntry C))
      → j ≢ now % n
      → All (Fits n now j) s
      → expiring now s ≡ []
  unfolding expiring
  expiring-elsewhere n now j [] ne h = refl
  expiring-elsewhere n now j (e ∷ s) ne ((p, q), h) = elim (Bool-cases (e.expiration_tick == now)) [
    | inl t ↦ absurd (ne (sym p ∙ ap (λ k. k % n) ((==_iff _ _).0 t)))
    | inr t ↦ ground (arith, expiring-elsewhere n now j s ne h)
  ]

  no_more :
      (n now i : ℕ) (slots : List (List (TimerEntry C)))
      → now % n < i
      → AllAt (λ j. All (Fits n now j)) i slots
      → all_expiring now slots ≡ []
  unfolding all_expiring
  no_more n now i [] l h = refl
  no_more n now i (s ∷ slots) l (p, h) =
      rw (expiring-elsewhere n now i s (omega arith) p, no_more n now (suc i) slots (omega arith) h)

  one_slot :
      (n now d i : ℕ) (slots : List (List (TimerEntry C)))
      → now % n ≡ i + d
      → AllAt (λ j. All (Fits n now j)) i slots
      → all_expiring now slots ≡ expiring now (get_or slots d [])
  unfolding all_expiring
  one_slot n now zero i [] e h = unfold expiring in refl
  one_slot n now (suc d) i [] e h = unfold expiring in refl
  one_slot n now zero i (s ∷ slots) e (p, h) =
      rw (no_more n now (suc i) slots (omega arith) h) (append-nil _)
  one_slot n now (suc d) i (s ∷ slots) e (p, h) =
      rw (expiring-elsewhere n now i s (omega arith) p)
        (one_slot n now d (suc i) slots (omega arith) h)

  slot-Fits :
      (n from d i : ℕ) (slots : List (List (TimerEntry C)))
      → AllAt (λ j. All (Fits n from j)) i slots
      → All (Fits n from (i + d)) (get_or slots d [])
  slot-Fits n from zero i [] h = tt
  slot-Fits n from (suc d) i [] h = tt
  slot-Fits n from zero i (s ∷ slots) (p, h) = subst (λ k. All (Fits n from k) s) (omega arith) p
  slot-Fits n from (suc d) i (s ∷ slots) (p, h) =
      subst (λ k. All (Fits n from k) (get_or slots d [])) (omega arith)
        (slot-Fits n from d (suc i) slots h)

  -- In a wheel that satisfies the invariant `IsValid`, where every timer stands in the slot of its tick
  -- and expires now or later, a tick fires exactly the timers of the whole wheel that are not canceled
  -- and expire now, though it looks at one slot only.
  pub to_fire-exact :
      {w : TimerWheel C} → IsValid w → to_fire w ≡ all_expiring w.current_tick w.slots
  unfolding to_fire
  to_fire-exact {w} v =
      let k : ℕ = w.current_tick % w.num_slots in
      due_of-eq w.num_slots w.current_tick (0 + k) (current_slot w)
        (slot-Fits w.num_slots w.current_tick k 0 w.slots v.placed)
      ∙ sym (one_slot w.num_slots w.current_tick k 0 w.slots (omega arith) v.placed)

  module _ (run : C → TimerWheel C → TimerWheel C) where
    -- What callbacks do through `addTimer` with a positive delay and `cancelTimer`.
    abbrev pub IsGentle : Type 0
    IsGentle =
        (c : C) (w : TimerWheel C)
        → IsAhead w
        → IsAhead (run c w) × ((run c w).current_tick ≡ w.current_tick)

    run_callback-IsAhead :
        IsGentle
        → (o : Option C) (w : TimerWheel C) → IsAhead w
        → IsAhead (run_callback run o w) × ((run_callback run o w).current_tick ≡ w.current_tick)
    unfolding run_callback
    run_callback-IsAhead g none w h = (h, refl)
    run_callback-IsAhead g (some c) w h = g c w h

    fire_all-IsAhead :
        IsGentle
        → (entries : List (TimerEntry C)) (w : TimerWheel C) → IsAhead w
        → IsAhead (fire_all run entries w)
          × ((fire_all run entries w).current_tick ≡ w.current_tick)
    unfolding fire_all
    fire_all-IsAhead g [] w h = (h, refl)
    fire_all-IsAhead g (e ∷ entries) w h =
        let (h', same) = run_callback-IsAhead g e.callback w h in
        let (h'', same') = fire_all-IsAhead g entries (run_callback run e.callback w) h' in
        (h'', same' ∙ same)

    -- A tick keeps the invariant, whatever its callbacks add with a positive delay or cancel.
    pub tick-IsValid :
        {w : TimerWheel C}
        → IsGentle
        → w.current_tick + 1 < 2 ^ 64
        → IsValid w
        → IsValid (tick run w) × ((tick run w).current_tick ≡ w.current_tick + 1)
    unfolding tick
    tick-IsValid {w} g small v =
        let (h, same) = fire_all-IsAhead g (to_fire w) (swapped w) (swapped-IsAhead v) in
        let next : u64 ((fire_all run (to_fire w) (swapped w)).current_tick + 1)
            ≡ w.current_tick + 1 =
          omega (arith, same, still) in
        (
          subst (λ k. Holds k (tick run w)) (omega (arith, next, same, still))
              (record {
                has_slots = h.has_slots;
                has_tick = h.has_tick;
                sized = h.sized;
                placed = h.placed;
              }),
          next,
        )
      where
        still : (swapped w).current_tick ≡ w.current_tick
        still = unfold swapped in refl
