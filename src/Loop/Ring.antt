-- ===== src/Loop/Ring.antt =====
-- The ring holds a queue: the items between its head and its tail.
use native.Mathlib.Nat.{mod-eq_of_lt, mod_self}
use xnetty.Prelude.{
  ℕ, zero, suc, ◌+◌, ◌-◌, ◌%◌, ◌^◌, ◌≡◌, ◌≢◌, ◌≤◌, ◌<◌, refl, ap, ap₂, ◌∙◌, ◌⊎◌, inl, inr, List, [],
  ◌∷◌, ◌++◌, Bool-cases, arith, leb, ◌↔◌, ◌==◌, ==_iff, if◌then◌else◌, length, get_or, set,
  get_or-set_self, get_or-set_ne,
}
use xnetty.Memory.{add_size}
use xnetty.Loop.Queue.{SpscQueue, next}

-- The next place: one further, or the first one.
pub next-cases :
    (mask i : ℕ)
    → i ≤ mask
    → mask < 2 ^ 63
    → ((i < mask) × (next mask i ≡ i + 1)) ⊎ ((i ≡ mask) × (next mask i ≡ 0))
unfolding next
next-cases mask i h small =
    let plain : add_size i 1 ≡ i + 1 = omega arith in
    elim (Bool-cases (i == mask)) [
      | inl e ↦ inr (
        (==_iff i mask).0 e,
        rw plain (ap (λ k. (k + 1) % (mask + 1)) ((==_iff i mask).0 e) ∙ mod_self (mask + 1)),
      )
      | inr e ↦
          let less : i < mask = ground arith in inl (less, rw plain (mod-eq_of_lt (omega arith)))
    ]

pub next_bound : (mask i : ℕ) → i ≤ mask → mask < 2 ^ 63 → next mask i ≤ mask
next_bound mask i h small = elim (next-cases mask i h small) [
  | inl (l, e) ↦ omega (arith, e)
  | inr (l, e) ↦ omega (arith, e)
]

module _ {ℓ} {T : Type ℓ} where
  -- Every place of the ring exists.
  pub record IsValid (q : SpscQueue T) : Type ℓ where
    pub sized : length q.buf ≡ q.size_mask + 1
    pub small : q.size_mask < 2 ^ 63
    pub head_within : q.head ≤ q.size_mask
    pub tail_within : q.tail ≤ q.size_mask

  abbrev pub held : SpscQueue T → ℕ
  held q = if leb q.head q.tail then q.tail - q.head else q.tail + (q.size_mask + 1) - q.head

  -- The place behind the tail is the head exactly if all places but one are taken.
  pub full_iff :
      (q : SpscQueue T) → IsValid q → (next q.size_mask q.tail ≡ q.head) ↔ (held q ≡ q.size_mask)
  full_iff q v = elim (next-cases q.size_mask q.tail v.tail_within v.small) [
    | inl (l, f) ↦ (
      λ e. ground (arith, v.head_within, v.tail_within),
      λ e. ground (arith, v.head_within, v.tail_within),
    )
    | inr (l, f) ↦ (
      λ e. ground (arith, v.head_within, v.tail_within),
      λ e. ground (arith, v.head_within, v.tail_within),
    )
  ]

  pub held_stored :
      (q : SpscQueue T) (x : T)
      → IsValid q
      → next q.size_mask q.tail ≢ q.head
      → held (record q { buf = set q.buf q.tail x; tail = next q.size_mask q.tail }) ≡ suc (held q)
  held_stored q x v ne = elim (next-cases q.size_mask q.tail v.tail_within v.small) [
    | inl (l, f) ↦ ground (arith, v.head_within, v.tail_within)
    | inr (l, f) ↦ ground (arith, v.head_within, v.tail_within)
  ]

module _ {ℓ} {T : Type ℓ} (vacant : T) where
  -- The `n` items from place `h` on.
  abbrev pub window : ℕ → List T → ℕ → ℕ → List T
  window mask buf h zero = []
  window mask buf h (suc n) = get_or buf h vacant ∷ window mask buf (next mask h) n

  -- A place that lies `d` behind the window's first one is not in it.
  pub window-set_out :
      (mask : ℕ) (buf : List T) (x : T) (i n h d : ℕ)
      → mask < 2 ^ 63
      → i ≤ mask
      → h ≤ mask
      → 0 < d
      → d + n ≤ mask + 1
      → (i + d ≡ h) ⊎ (i + d ≡ h + (mask + 1))
      → window mask (set buf i x) h n ≡ window mask buf h n
  window-set_out mask buf x i zero h d small hi hh pos le e = refl
  window-set_out mask buf x i (suc n) h d small hi hh pos le e =
      ap₂ ◌∷◌ (get_or-set_ne buf i h x vacant (λ k. ground arith)) (
        window-set_out mask buf x i n (next mask h) (d + 1) small hi (next_bound mask h hh small)
          (omega arith) (omega arith) shifted)
    where
      shifted : (i + (d + 1) ≡ next mask h) ⊎ (i + (d + 1) ≡ next mask h + (mask + 1))
      shifted = elim (next-cases mask h hh small) [
        | inl (l, f) ↦ ground (arith, f)
        | inr (l, f) ↦ ground (arith, f)
      ]

  -- An item that is put behind a window.
  pub window-set :
      (mask : ℕ) (buf : List T) (x : T) (i n h : ℕ)
      → mask < 2 ^ 63
      → length buf ≡ mask + 1
      → i ≤ mask
      → h ≤ mask
      → n < mask + 1
      → (h + n ≡ i) ⊎ (h + n ≡ i + (mask + 1))
      → window mask (set buf i x) h (suc n) ≡ window mask buf h n ++ (x ∷ [])
  window-set mask buf x i zero h small size hi hh le e =
      let same : h ≡ i = ground arith in
      rw same (ap (λ y. y ∷ []) (get_or-set_self buf i x vacant (omega arith)))
  window-set mask buf x i (suc n) h small size hi hh le e =
      ap₂ ◌∷◌ (get_or-set_ne buf i h x vacant (λ k. ground arith)) (
        window-set mask buf x i n (next mask h) small size hi (next_bound mask h hh small)
          (omega arith) shifted)
    where
      shifted : (next mask h + n ≡ i) ⊎ (next mask h + n ≡ i + (mask + 1))
      shifted = elim (next-cases mask h hh small) [
        | inl (l, f) ↦ ground (arith, f)
        | inr (l, f) ↦ ground (arith, f)
      ]

  abbrev pub contents : SpscQueue T → List T
  contents q = window q.size_mask q.buf q.head (held q)

  pub length-window : (mask : ℕ) (buf : List T) (h n : ℕ) → length (window mask buf h n) ≡ n
  length-window mask buf h zero = refl
  length-window mask buf h (suc n) = ap suc (length-window mask buf (next mask h) n)
