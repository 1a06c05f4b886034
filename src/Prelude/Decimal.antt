-- ===== src/Prelude/Decimal.antt =====
-- Numbers in decimal: `std::to_string` and `std::to_chars` of an unsigned number.
use Prim.Native.Nat.{ℕ, zero, suc, ◌+◌, ◌/◌, ◌%◌}
use mathlib.Core.List.{[], ◌∷◌, ◌++◌}
use xnetty.Prelude.Tests.{ltb, if◌then◌else◌}
use xnetty.Prelude.Text.{Text}

-- With a round for every digit that is left.
unfoldable pub digits_from : ℕ → ℕ → Text
digits_from zero n = []
digits_from (suc fuel) n =
    let front = digits_from fuel (n / 10) in
    if ltb n 10 then (b'0' + n) ∷ [] else front ++ ((b'0' + n % 10) ∷ [])

unfoldable pub digits : ℕ → Text
unfolding digits_from
digits n = digits_from (suc n) n
