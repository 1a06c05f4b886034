-- ===== src/Prelude/Splice.antt =====
-- A run of items written over others in the middle of a list.
use Prim.Native.Nat.{ℕ, ◌+◌, ◌≤◌}
use mathlib.Core.Path.{◌≡◌, sym, ap, ap₂, ◌∙◌}
use mathlib.Core.List.{List, ◌++◌, append_assoc}
use native.Mathlib.Omega.{arith}
use xnetty.Prelude.Lists.{length, take, drop, length-append, length-take, length-drop}
use xnetty.Prelude.Slices.{take-append, drop-append, drop-drop}

module _ {ℓ} {A : Type ℓ} where
  abbrev pub splice : ℕ → List A → List A → List A
  splice i src block = take i block ++ (src ++ drop (i + length src) block)

  pub length-splice :
      (i : ℕ) (src block : List A)
      → i + length src ≤ length block
      → length (splice i src block) ≡ length block
  length-splice i src block h = omega (
    arith,
    length-append (take i block) (src ++ drop (i + length src) block),
    length-append src (drop (i + length src) block),
    length-take i block,
    length-drop (i + length src) block,
  )

  -- Two runs, one behind the other, are one.
  pub splice-splice :
      (i j : ℕ) (a b block : List A)
      → j ≡ i + length a
      → j + length b ≤ length block
      → splice j b (splice i a block) ≡ splice i (a ++ b) block
  splice-splice i j a b block e h =
      let lt = length-take i block in
      let la = length-append (take i block) a in
      let lab = length-append a b in
      let rest = drop (i + length a) block in
      let front : splice i a block ≡ (take i block ++ a) ++ rest =
        sym (append_assoc (take i block) a rest) in
      let t : take j (splice i a block) ≡ take i block ++ a =
        ap (take j) front ∙ take-append j (take i block ++ a) rest (omega arith) in
      let d : drop (j + length b) (splice i a block) ≡ drop (i + length (a ++ b)) block =
        sym (drop-drop j (length b) (j + length b) (splice i a block) (omega arith))
        ∙ ap (λ l. drop (length b) (drop j l)) front
        ∙ ap (drop (length b)) (drop-append j (take i block ++ a) rest (omega arith))
        ∙ drop-drop (i + length a) (length b) (i + length (a ++ b)) block (omega arith) in
      ap₂ (λ x y. x ++ (b ++ y)) t d
      ∙ append_assoc (take i block) a (b ++ drop (i + length (a ++ b)) block)
      ∙ ap (λ l. take i block ++ l) (sym (append_assoc a b (drop (i + length (a ++ b)) block)))
