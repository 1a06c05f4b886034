-- ===== src/Memory/Plain.antt =====
-- An allocator that gives every block below the size limit, filled with zeros: one way to meet the
-- assumptions of `Allocator`.
use xnetty.Prelude.{
  ℕ, zero, suc, ◌^◌, ◌≤◌, ◌<◌, ◌≡◌, refl, ap, ◌∙◌, List, [], ◌∷◌, ◌++◌, Option, none, some, arith,
  length, take, ltb, ltb→lt, if◌then◌else◌, length-take, length-append, Bool-cases, inl, inr,
}
use xnetty.Prelude.Slices.{take-take, take-append_le}
use xnetty.Memory.{Allocator}

abbrev pub zeros : ℕ → List ℕ
zeros zero = []
zeros (suc n) = 0 ∷ zeros n

pub length-zeros : (n : ℕ) → length (zeros n) ≡ n
length-zeros zero = refl
length-zeros (suc n) = ap suc (length-zeros n)

abbrev pub limited : List ℕ → ℕ → Option (List ℕ)
limited block n = if ltb n (2 ^ 63) then some (take n (block ++ zeros n)) else none

limited-some :
    (old : List ℕ) (n : ℕ) (b : List ℕ)
    → limited old n ≡ some b
    → (b ≡ take n (old ++ zeros n)) × (n < 2 ^ 63)
limited-some old n b e = elim (Bool-cases (ltb n (2 ^ 63))) [
  | inl t ↦ (ground arith, ltb→lt _ _ t)
  | inr t ↦ absurd (ground arith)
]

pub limited_size :
    (old : List ℕ) (n : ℕ) (b : List ℕ) → limited old n ≡ some b → (length b ≡ n) × (n < 2 ^ 63)
limited_size old n b e =
    let (same, small) = limited-some old n b e in
    (
      ap length same
          ∙ omega
              (arith, length-take n (old ++ zeros n), length-append old (zeros n), length-zeros n),
      small,
    )

pub limited_keeps :
    (old : List ℕ) (n k : ℕ) (b : List ℕ)
    → limited old n ≡ some b
    → k ≤ length old
    → k ≤ n
    → take k b ≡ take k old
limited_keeps old n k b e l m =
    ap (take k) (limited-some old n b e).0
    ∙ take-take k n (old ++ zeros n) m
    ∙ take-append_le k old (zeros n) l

abbrev pub plain : Allocator
plain = record {
  malloc = limited [];
  realloc = limited;
  malloc_size = limited_size [];
  realloc_size = limited_size;
  realloc_keeps = limited_keeps;
}
