-- ===== src/Timer/Cancel.antt =====
-- Timer ids are unique, so `cancelTimer` stops the timer that it names.
use xnetty.Prelude.{
  ℕ, zero, suc, ◌+◌, ◌%◌, ◌≡◌, ◌≢◌, ◌≤◌, ◌<◌, List, [], ◌∷◌, true, Option, none, some, ◌==◌,
  if◌then◌else◌, ◌++◌,
}
use xnetty.Prelude.Preds.{All, modify}
use xnetty.Timer.{TimerEntry, TimerWheel, add_timer, expire_tick}

module _ {C : Type 0} where
  -- How many entries have this id.
  unfoldable pub count_in : ℕ → List (TimerEntry C) → ℕ
  count_in id [] = 0
  count_in id (e ∷ s) = (if e.id == id then 1 else 0) + count_in id s

  unfoldable pub count_id : ℕ → List (List (TimerEntry C)) → ℕ
  count_id id [] = 0
  count_id id (s ∷ slots) = count_in id s + count_id id slots

  abbrev pub Stopped : ℕ → TimerEntry C → Type 0
  Stopped id e = e.id ≡ id → e.canceled ≡ true

  -- What the search of one slot leaves: nothing found and no such id, or the entry canceled.
  abbrev Searched : ℕ → List (TimerEntry C) → Option (List (TimerEntry C)) → Type 0
  Searched id s none = count_in id s ≡ 0
  Searched id s (some s') = (0 < count_in id s) × (count_in id s ≤ 1 → All (Stopped id) s')

  -- The wheel has no timer of this id that is not canceled.
  abbrev pub IsStopped : ℕ → TimerWheel C → Type 0
  IsStopped id w = All (All (Stopped id)) w.slots

  modify-Stopped :
      (id k : ℕ) (slots : List (List (TimerEntry C)))
      (f : List (TimerEntry C) → List (TimerEntry C))
      → ((s : List (TimerEntry C)) → All (Stopped id) s → All (Stopped id) (f s))
      → All (All (Stopped id)) slots
      → All (All (Stopped id)) (modify slots k f)
  modify-Stopped id k [] f g h = tt
  modify-Stopped id zero (s ∷ slots) f g (p, h) = (g s p, h)
  modify-Stopped id (suc k) (s ∷ slots) f g (p, h) = (p, modify-Stopped id k slots f g h)

  append-Stopped :
      (id : ℕ) (e : TimerEntry C) (s : List (TimerEntry C))
      → Stopped id e
      → All (Stopped id) s
      → All (Stopped id) (s ++ (e ∷ []))
  append-Stopped id e [] p h = (p, tt)
  append-Stopped id e (x ∷ s) p (q, h) = (q, append-Stopped id e s p h)

  -- `addTimer` keeps this as long as the new timer has another id.
  pub add_timer-IsStopped :
      (w : TimerWheel C) (id delay : ℕ) (cb : Option C)
      → w.next_id ≢ id
      → IsStopped id w
      → IsStopped id (add_timer w delay cb).0
  unfolding add_timer
  add_timer-IsStopped w id delay cb ne h =
      modify-Stopped id (expire_tick w delay % w.num_slots) w.slots _
        (λ s p. append-Stopped id _ s (λ same. absurd (ne same)) p) h
