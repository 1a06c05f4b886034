-- ===== src/Prelude/Table.antt =====
-- Functions of a number below a bound, compared by evaluation.
use Prim.Native.Nat.{ℕ, zero, suc, ◌+◌, ◌≤◌, ◌<◌}
use mathlib.Core.Path.{◌≡◌, refl, subst}
use mathlib.Core.Logic.{inl, inr}
use mathlib.Core.Bool.{Bool, true, false}
use native.Mathlib.Omega.{arith}
use xnetty.Prelude.Tests.{◌==◌, ==_iff, Bool-cases, if◌then◌else◌}

-- Two functions have the same values at the `count` numbers from `start` on.
unfoldable pub same_values : (f g : ℕ → ℕ) (start count : ℕ) → Bool
same_values f g start zero = true
same_values f g start (suc count) =
    let later = same_values f g (start + 1) count in if f start == g start then later else false

both : (b r : Bool) → (if b then r else false) ≡ true → (b ≡ true) × (r ≡ true)
both true r e = (refl, e)
both false r e = ground arith

pub value :
    (f g : ℕ → ℕ) (start count i : ℕ)
    → start ≤ i
    → i < start + count
    → same_values f g start count ≡ true
    → f i ≡ g i
unfolding same_values
value f g start zero i low high all = absurd (omega arith)
value f g start (suc count) i low high all =
    let (now, later) = both (f start == g start) (same_values f g (start + 1) count) all in
    elim (Bool-cases (start == i)) [
      | inl e ↦ subst (λ j. f j ≡ g j) ((==_iff start i).0 e) ((==_iff (f start) (g start)).0 now)
      | inr e ↦ value f g (start + 1) count i (ground arith) (omega arith) later
    ]
