-- ===== src/Timer/Wheel.antt =====
-- The invariant of the wheel: every entry stands in the slot of its expiration tick, and has not been
-- missed.
use xnetty.Prelude.{
  ℕ, zero, suc, ◌+◌, ◌%◌, ◌≡◌, ◌≢◌, ◌≤◌, ◌<◌, refl, sym, ap, ◌∙◌, List, [], ◌∷◌, true, Option, none,
  some, length, arith, ◌==◌, Bool-cases, Option-cases, inl, inr, subst, ==_iff,
}
use xnetty.Prelude.Preds.{All, AllAt, AllAt-modify, All-append, All-imp, length-modify}
use xnetty.Timer.{
  behind, unless_found, TimerEntry, TimerWheel, create, no_entries, expire_tick, new_entry,
  add_timer, cancel_in, cancel_slots, cancel_timer, keep_of, swapped,
}

module _ {C : Type 0} where
  -- The entry belongs in slot `j` of `n`, and expires at tick `from` or later.
  abbrev pub Fits : ℕ → ℕ → ℕ → TimerEntry C → Type 0
  Fits n from j e = (e.expiration_tick % n ≡ j) × (from ≤ e.expiration_tick)

  abbrev pub Placed : ℕ → ℕ → List (List (TimerEntry C)) → Type 0
  Placed n from slots = AllAt (λ j. All (Fits n from j)) 0 slots

  pub record Holds (from : ℕ) (w : TimerWheel C) : Type 0 where
    pub has_slots : 0 < w.num_slots
    pub has_tick : 0 < w.tick_ms
    pub sized : length w.slots ≡ w.num_slots
    pub placed : Placed w.num_slots from w.slots

  -- Between two ticks nothing that is in the wheel has been missed; while the callbacks of a tick run,
  -- nothing that is in the wheel was due in it.
  abbrev pub IsValid : TimerWheel C → Type 0
  IsValid w = Holds w.current_tick w

  abbrev pub IsAhead : TimerWheel C → Type 0
  IsAhead w = Holds (w.current_tick + 1) w

no_entries-Placed :
    (C : Type 0) (n from i k : ℕ) → AllAt (λ j. All (Fits {C = C} n from j)) i (no_entries k)
unfolding no_entries
no_entries-Placed C n from i zero = tt
no_entries-Placed C n from i (suc k) = (tt, no_entries-Placed C n from (suc i) k)

length-no_entries : (C : Type 0) (n : ℕ) → length (no_entries {C = C} n) ≡ n
unfolding no_entries
length-no_entries C zero = refl
length-no_entries C (suc n) = ap suc (length-no_entries C n)

module _ {C : Type 0} where
  pub create-IsValid : (n t : ℕ) → 0 < n → 0 < t → IsValid (create {C = C} n t)
  unfolding create
  create-IsValid n t hn ht = record {
    has_slots = hn;
    has_tick = ht;
    sized = length-no_entries C n;
    placed = no_entries-Placed C n 0 0 n;
  }

  -- A timer that does not expire before `from` keeps the invariant.
  pub add_timer-Holds :
      {from : ℕ} {w : TimerWheel C} (delay : ℕ) (cb : Option C)
      → Holds from w
      → from ≤ expire_tick w delay
      → Holds from (add_timer w delay cb).0
  unfolding add_timer
  add_timer-Holds {from} {w} delay cb h le = record {
    has_slots = h.has_slots;
    has_tick = h.has_tick;
    sized = length-modify w.slots _ _ ∙ h.sized;
    placed =
        AllAt-modify (λ j. All (Fits w.num_slots from j)) (λ j. All (Fits w.num_slots from j)) _
          (expire_tick w delay % w.num_slots) (expire_tick w delay % w.num_slots) 0 w.slots
          (omega arith)
          (λ s a.
            All-append (Fits w.num_slots from _) s (new_entry w delay cb ∷ []) a ((refl, le), tt))
          (λ j s ne a. a) h.placed;
  }

  abbrev AllFound : (TimerEntry C → Type 0) → Option (List (TimerEntry C)) → Type 0
  AllFound P none = Unit
  AllFound P (some s) = All P s

  behind-AllFound :
      (P : TimerEntry C → Type 0) (e : TimerEntry C) (o : Option (List (TimerEntry C)))
      → P e
      → AllFound P o
      → AllFound P (behind e o)
  behind-AllFound P e none p h = tt
  behind-AllFound P e (some s) p h = (p, h)

  cancel_in-All :
      (P : TimerEntry C → Type 0) (id : ℕ) (s : List (TimerEntry C))
      → ((e : TimerEntry C) → P e → P (record e { canceled = true }))
      → All P s
      → AllFound P (cancel_in id s)
  unfolding cancel_in
  cancel_in-All P id [] f h = tt
  cancel_in-All P id (x ∷ s) f (p, h) = elim (Bool-cases (x.id == id)) [
    | inl t ↦ rw t (f x p, h)
    | inr t ↦ rw t (behind-AllFound P x (cancel_in id s) p (cancel_in-All P id s f h))
  ]

  unless_found-AllAt :
      (P : ℕ → List (TimerEntry C) → Type 0) (i : ℕ) (s : List (TimerEntry C))
      (slots later : List (List (TimerEntry C))) (o : Option (List (TimerEntry C)))
      → P i s
      → AllAt P (suc i) slots
      → AllAt P (suc i) later
      → ((s' : List (TimerEntry C)) → o ≡ some s' → P i s')
      → AllAt P i (unless_found s slots later o)
  unless_found-AllAt P i s slots later none p h l f = (p, l)
  unless_found-AllAt P i s slots later (some s') p h l f = (f s' refl, h)

  cancel_slots-Placed :
      (n from id i : ℕ) (slots : List (List (TimerEntry C)))
      → AllAt (λ j. All (Fits n from j)) i slots
      → AllAt (λ j. All (Fits n from j)) i (cancel_slots id slots)
  unfolding cancel_slots
  cancel_slots-Placed n from id i [] h = tt
  cancel_slots-Placed n from id i (s ∷ slots) (p, h) =
      unless_found-AllAt (λ j. All (Fits n from j)) i s slots (cancel_slots id slots)
        (cancel_in id s) p h (cancel_slots-Placed n from id (suc i) slots h)
        (λ s' e.
          subst (AllFound (Fits n from i)) e (cancel_in-All (Fits n from i) id s (λ x q. q) p))

  length-cancel_slots :
      (id : ℕ) (slots : List (List (TimerEntry C))) → length (cancel_slots id slots) ≡ length slots
  unfolding cancel_slots
  length-cancel_slots id [] = refl
  length-cancel_slots id (s ∷ slots) =
      ground (arith, length-cancel_slots id slots, Option-cases (cancel_in id s))

  -- Canceling a timer keeps the invariant.
  pub cancel_timer-Holds :
      {from : ℕ} {w : TimerWheel C} (id : ℕ) → Holds from w → Holds from (cancel_timer w id)
  unfolding cancel_timer
  cancel_timer-Holds {from} {w} id h = record {
    has_slots = h.has_slots;
    has_tick = h.has_tick;
    sized = length-cancel_slots id w.slots ∙ h.sized;
    placed = cancel_slots-Placed w.num_slots from id 0 w.slots h.placed;
  }

  keep_of-All :
      (n now j : ℕ) (s : List (TimerEntry C))
      → All (Fits n now j) s
      → All (Fits n (now + 1) j) (keep_of now s)
  unfolding keep_of
  keep_of-All n now j [] h = tt
  keep_of-All n now j (e ∷ s) ((p, q), h) = ground (arith, keep_of-All n now j s h)

  -- After the entries of a tick were taken out, what is left in the wheel is due later.
  pub swapped-IsAhead : {w : TimerWheel C} → IsValid w → IsAhead (swapped w)
  unfolding swapped
  swapped-IsAhead {w} v = record {
    has_slots = v.has_slots;
    has_tick = v.has_tick;
    sized = length-modify w.slots _ _ ∙ v.sized;
    placed =
        AllAt-modify (λ j. All (Fits w.num_slots w.current_tick j))
          (λ j. All (Fits w.num_slots (w.current_tick + 1) j)) (keep_of w.current_tick)
          (w.current_tick % w.num_slots) (w.current_tick % w.num_slots) 0 w.slots (omega arith)
          (λ s a. keep_of-All w.num_slots w.current_tick _ s a)
          (λ j s ne a. All-imp _ _ s (λ e f. (f.0, later j ne e f)) a) v.placed;
  }
    where
      later :
          (j : ℕ)
          → j ≢ w.current_tick % w.num_slots
          → (e : TimerEntry C) → Fits w.num_slots w.current_tick j e
          → w.current_tick + 1 ≤ e.expiration_tick
      later j ne e (p, q) = elim (Bool-cases (e.expiration_tick == w.current_tick)) [
        | inl t ↦ absurd (ne (sym p ∙ ap (λ k. k % w.num_slots) ((==_iff _ _).0 t)))
        | inr t ↦ ground arith
      ]
