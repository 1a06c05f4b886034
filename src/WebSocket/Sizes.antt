-- ===== src/WebSocket/Sizes.antt =====
-- The length fields of `encodeFrame`, and how `channelRead` reads them.
use Prim.Native.Nat.{bit_and}
use xnetty.Prelude.{
  ℕ, suc, ◌+◌, ◌*◌, ◌/◌, ◌%◌, ◌^◌, ◌≤◌, ◌<◌, ◌≡◌, refl, inl, inr, List, [], ◌∷◌, ◌++◌, Bool, false,
  not, some, arith, leb, ltb, ◌==◌, Bool-cases, ltb→lt, leb→le, length, get_or,
}
use xnetty.WebSocket.{length_bytes, big_endian, length_field}
use xnetty.WebSocket.Bits.{length_bits, mask_bit}

step_up : (q : ℕ) → q < 2 ^ 64 → q / 256 * 256 % 2 ^ 64 + q % 256 ≡ q
step_up q h = omega arith

quotients :
    (n : ℕ)
    → n < 2 ^ 63
    → (n / 2 ^ 16 ≡ n / 2 ^ 8 / 256)
      × (n / 2 ^ 24 ≡ n / 2 ^ 16 / 256)
      × (n / 2 ^ 32 ≡ n / 2 ^ 24 / 256)
      × (n / 2 ^ 40 ≡ n / 2 ^ 32 / 256)
      × (n / 2 ^ 48 ≡ n / 2 ^ 40 / 256)
      × (n / 2 ^ 56 ≡ n / 2 ^ 48 / 256)
      × (n / 2 ^ 56 < 256)
quotients n h =
    (omega arith, omega arith, omega arith, omega arith, omega arith, omega arith, omega arith)

-- The eight bytes of a long size, read back.
from_bytes :
    (n : ℕ)
    → n < 2 ^ 63
    → big_endian 0 (
        (n / 2 ^ 56) % 256
        ∷ (n / 2 ^ 48) % 256
        ∷ (n / 2 ^ 40) % 256
        ∷ (n / 2 ^ 32) % 256
        ∷ (n / 2 ^ 24) % 256
        ∷ (n / 2 ^ 16) % 256
        ∷ (n / 2 ^ 8) % 256
        ∷ n % 256
        ∷ [])
      ≡ n
unfolding big_endian
from_bytes n h =
    let (e16, e24, e32, e40, e48, e56, top) = quotients n h in
    let s7 : 0 * 256 % 2 ^ 64 + n / 2 ^ 56 % 256 ≡ n / 2 ^ 56 = omega arith in
    let s6 : n / 2 ^ 56 * 256 % 2 ^ 64 + n / 2 ^ 48 % 256 ≡ n / 2 ^ 48 =
      rw e56 (step_up (n / 2 ^ 48) (omega arith)) in
    let s5 : n / 2 ^ 48 * 256 % 2 ^ 64 + n / 2 ^ 40 % 256 ≡ n / 2 ^ 40 =
      rw e48 (step_up (n / 2 ^ 40) (omega arith)) in
    let s4 : n / 2 ^ 40 * 256 % 2 ^ 64 + n / 2 ^ 32 % 256 ≡ n / 2 ^ 32 =
      rw e40 (step_up (n / 2 ^ 32) (omega arith)) in
    let s3 : n / 2 ^ 32 * 256 % 2 ^ 64 + n / 2 ^ 24 % 256 ≡ n / 2 ^ 24 =
      rw e32 (step_up (n / 2 ^ 24) (omega arith)) in
    let s2 : n / 2 ^ 24 * 256 % 2 ^ 64 + n / 2 ^ 16 % 256 ≡ n / 2 ^ 16 =
      rw e24 (step_up (n / 2 ^ 16) (omega arith)) in
    let s1 : n / 2 ^ 16 * 256 % 2 ^ 64 + n / 2 ^ 8 % 256 ≡ n / 2 ^ 8 =
      rw e16 (step_up (n / 2 ^ 8) (omega arith)) in
    rw (s7, s6, s5, s4, s3, s2, s1) (step_up n (omega arith))

pub enough :
    (n : ℕ)
    → (ltb (suc (suc (suc (suc n)))) 4 ≡ false)
      × (ltb (suc (suc (suc (suc (suc (suc (suc (suc (suc (suc n)))))))))) 10 ≡ false)
enough n = (ground arith, ground arith)

pub size_known :
    (b0 : ℕ) (size : ℕ) (mask : Bool) (tail : List ℕ)
    → size < 2 ^ 63
    → length_field (b0 ∷ (length_bytes size mask ++ tail))
      ≡ some (size, 1 + length (length_bytes size mask))
unfolding length_bytes length_field
size_known b0 size mask tail h = elim (Bool-cases (ltb size 126)) [
  | inl t ↦
      let lt = ltb→lt _ _ t in
      let e = length_bits mask size (omega arith) in
      let n6 : (size == 126) ≡ false = ground arith in
      let n7 : (size == 127) ≡ false = ground arith in rw (t, e, n6, n7) refl
  | inr t ↦ elim (Bool-cases (leb size 0xffff)) [
    | inl u ↦
        let e = length_bits mask 126 (omega arith) in
        let lt = leb→le _ _ u in
        let whole : size / 2 ^ 8 % 256 * 256 + size % 256 ≡ size = omega arith in
        rw (t, u, e, (enough (length tail)).0, whole) refl
    | inr u ↦
        let e = length_bits mask 127 (omega arith) in
        rw (t, u, e, (enough (length tail)).1, from_bytes size h) refl
  ]
]

pub second_byte :
    (b0 : ℕ) (size : ℕ) (mask : Bool) (tail : List ℕ)
    → not (bit_and (get_or (b0 ∷ (length_bytes size mask ++ tail)) 1 0) 0x80 == 0) ≡ mask
unfolding length_bytes
second_byte b0 size mask tail = elim (Bool-cases (ltb size 126)) [
  | inl t ↦ let lt = ltb→lt _ _ t in rw t (mask_bit mask size (omega arith))
  | inr t ↦ elim (Bool-cases (leb size 0xffff)) [
    | inl u ↦ rw (t, u) (mask_bit mask 126 (omega arith))
    | inr u ↦ rw (t, u) (mask_bit mask 127 (omega arith))
  ]
]

pub length_bytes_bound :
    (size : ℕ) (mask : Bool)
    → (1 ≤ length (length_bytes size mask)) × (length (length_bytes size mask) ≤ 9)
unfolding length_bytes
length_bytes_bound size mask = ground arith
