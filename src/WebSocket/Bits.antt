-- ===== src/WebSocket/Bits.antt =====
-- The bit fields of a frame's first two bytes, and masking: identities that are found by evaluation,
-- since a byte has few values.
use Prim.Native.Nat.{bit_and, bit_or, bit_xor}
use xnetty.Prelude.Table.{same_values, value}
use xnetty.Prelude.{ℕ, ◌<◌, ◌≡◌, refl, Bool, true, false, not, arith, ◌==◌, if◌then◌else◌}

abbrev flag : Bool → ℕ
flag b = if b then 0x80 else 0

-- The first byte of a frame gives its two fields back.
opcode_values :
    (fin : Bool) → same_values (λ op. bit_and (bit_or (flag fin) op) 0x0f) (λ op. op) 0 16 ≡ true
unfolding same_values
opcode_values true = refl
opcode_values false = refl

fin_values :
    (fin : Bool)
    → same_values (λ op. bit_and (bit_or (flag fin) op) 0x80) (λ op. flag fin) 0 16 ≡ true
unfolding same_values
fin_values true = refl
fin_values false = refl

pub opcode_bits : (fin : Bool) (op : ℕ) → op < 16 → bit_and (bit_or (flag fin) op) 0x0f ≡ op
opcode_bits fin op h = value _ _ 0 16 op (omega arith) (omega arith) (opcode_values fin)

is_set : (b : Bool) (x : ℕ) → x ≡ flag b → not (x == 0) ≡ b
is_set true x e = ground arith
is_set false x e = ground arith

pub fin_bit : (fin : Bool) (op : ℕ) → op < 16 → not (bit_and (bit_or (flag fin) op) 0x80 == 0) ≡ fin
fin_bit fin op h = is_set fin _ (value _ _ 0 16 op (omega arith) (omega arith) (fin_values fin))

-- So does the second.
length_values :
    (mask : Bool) → same_values (λ n. bit_and (bit_or n (flag mask)) 0x7f) (λ n. n) 0 128 ≡ true
unfolding same_values
length_values true = refl
length_values false = refl

mask_values :
    (mask : Bool)
    → same_values (λ n. bit_and (bit_or n (flag mask)) 0x80) (λ n. flag mask) 0 128 ≡ true
unfolding same_values
mask_values true = refl
mask_values false = refl

pub length_bits : (mask : Bool) (n : ℕ) → n < 128 → bit_and (bit_or n (flag mask)) 0x7f ≡ n
length_bits mask n h = value _ _ 0 128 n (omega arith) (omega arith) (length_values mask)

pub mask_bit :
    (mask : Bool) (n : ℕ) → n < 128 → not (bit_and (bit_or n (flag mask)) 0x80 == 0) ≡ mask
mask_bit mask n h = is_set mask _ (value _ _ 0 128 n (omega arith) (omega arith) (mask_values mask))

-- Whether masking with this byte is undone by masking again, at every byte.
abbrev undone : ℕ → Bool
undone k = same_values (λ x. bit_xor (bit_xor x k) k) (λ x. x) 0 256

xor_values : same_values (λ k. if undone k then 1 else 0) (λ k. 1) 0 256 ≡ true
unfolding same_values
xor_values = refl

abbrev one_if : Bool → ℕ
one_if b = if b then 1 else 0

from_one : (b : Bool) → one_if b ≡ 1 → b ≡ true
from_one true e = refl
from_one false e = absurd (omega arith)

-- Masking a byte twice gives it back.
pub xor_twice : (x k : ℕ) → x < 256 → k < 256 → bit_xor (bit_xor x k) k ≡ x
xor_twice x k hx hk =
    let e =
      value (λ k. if undone k then 1 else 0) (λ k. 1) 0 256 k (omega arith) (omega arith)
        xor_values in
    value (λ x. bit_xor (bit_xor x k) k) (λ x. x) 0 256 x (omega arith) (omega arith)
      (from_one (undone k) e)
