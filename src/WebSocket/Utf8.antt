-- ===== src/WebSocket/Utf8.antt =====
-- Inputs that `channelRead` does not refuse as it means to.
use Prim.Native.Nat.{bit_and}
use xnetty.Prelude.{
  ℕ, zero, suc, ◌+◌, ◌%◌, ◌^◌, ◌≤◌, ◌<◌, ◌≡◌, refl, ap, ◌∙◌, List, [], ◌∷◌, true, false, not, some,
  arith, leb, ltb, ◌==◌, length, length-drop, get_or, drop,
}
use xnetty.WebSocket.{
  Header, big_endian, length_field, with_length, utf8_from, is_valid_utf8, CodecState, throw_length,
  with_header, read_round,
}
use xnetty.WebSocket.Sizes.{enough}
use xnetty.WebSocket.Encode.{read_header-some}

-- With a round for every byte, more rounds change nothing: the loop of `isValidUtf8` has ended.
pub utf8_from-enough :
    (fuel more : ℕ) (s : List ℕ)
    → length s ≤ fuel
    → length s ≤ more
    → utf8_from fuel s ≡ utf8_from more s
unfolding utf8_from
utf8_from-enough zero zero s h k = refl
utf8_from-enough zero (suc more) [] h k = refl
utf8_from-enough zero (suc more) (x ∷ s) h k = absurd (omega arith)
utf8_from-enough (suc fuel) zero [] h k = refl
utf8_from-enough (suc fuel) zero (x ∷ s) h k = absurd (omega arith)
utf8_from-enough (suc fuel) (suc more) [] h k = refl
utf8_from-enough (suc fuel) (suc more) (x ∷ s) h k =
    let go : (n : ℕ) → 1 ≤ n → utf8_from fuel (drop n (x ∷ s)) ≡ utf8_from more (drop n (x ∷ s)) =
      λ n l.
        let e = length-drop n (x ∷ s) in
        utf8_from-enough fuel more (drop n (x ∷ s)) (omega arith) (omega arith) in
    rw (go 1 (omega arith), go 2 (omega arith), go 3 (omega arith), go 4 (omega arith)) refl

utf8_from-two :
    (fuel c x : ℕ) (s : List ℕ)
    → bit_and c 0x80 ≡ 0x80
    → bit_and c 0xe0 ≡ 0xc0
    → bit_and x 0xc0 ≡ 0x80
    → utf8_from (suc fuel) (c ∷ x ∷ s) ≡ utf8_from fuel s
unfolding utf8_from
utf8_from-two fuel c x s a b d =
    let l0 : (suc (suc (length s)) == 0) ≡ false = ground arith in
    let l1 : leb (suc (suc (length s))) 1 ≡ false = ground arith in rw (l0, a, b, l1, d) refl

-- `isValidUtf8` passes over every pair of a lead byte 110xxxxx and a continuation byte, whatever
-- the lead byte: also over 0xC0 and 0xC1, with which only overlong forms begin.
pub is_valid_utf8-overlong :
    (c x : ℕ) (s : List ℕ)
    → bit_and c 0x80 ≡ 0x80
    → bit_and c 0xe0 ≡ 0xc0
    → bit_and x 0xc0 ≡ 0x80
    → is_valid_utf8 (c ∷ x ∷ s) ≡ is_valid_utf8 s
unfolding is_valid_utf8
is_valid_utf8-overlong c x s a b d =
    utf8_from-two (suc (length s)) c x s a b d
    ∙ utf8_from-enough (suc (length s)) (length s) s (omega arith) (omega arith)

-- A frame with no mask whose announced end, which may wrap around, has come.
abbrev plain : List ℕ → ℕ → ℕ → Header
plain raw p e = record {
  fin = not (bit_and (get_or raw 0 0) 0x80 == 0);
  opcode = bit_and (get_or raw 0 0) 0x0f;
  masked = false;
  payload_len = p;
  header_len = e;
}

with_length-plain :
    (raw : List ℕ) (p e : ℕ)
    → not (bit_and (get_or raw 1 0) 0x80 == 0) ≡ false
    → ltb (length raw) e ≡ false
    → ltb (length raw) ((e + p) % 2 ^ 64) ≡ false
    → with_length raw (some (p, e)) ≡ some (plain raw p e)
with_length-plain raw p e m a b = rw (m, a, b) refl

with_header-throws :
    (st : CodecState) (raw : List ℕ) (h : Header)
    → leb (2 ^ 63) h.payload_len ≡ true
    → with_header st raw (some h) ≡ throw_length
with_header-throws st raw h e = rw e refl

big_field :
    (k : ℕ) (rest : List ℕ)
    → length_field (0x82 ∷ 127 ∷ 255 ∷ 255 ∷ 255 ∷ 255 ∷ 255 ∷ 255 ∷ 255 ∷ (246 + k) ∷ rest)
      ≡ some (18446744073709551360 + (246 + k), 10)
unfolding length_field big_endian
big_field k rest = rw ((enough (length rest)).1) refl

-- A frame with no mask that announces 2^64 - 10 + k payload bytes, where k < 10, is not taken for
-- one of which bytes are missing, however few have come: the sum with the length of the header wraps
-- around, and `channelRead` throws `std::length_error`.
pub read_round-throws :
    (st : CodecState) (k : ℕ) (rest : List ℕ)
    → k < 10
    → read_round st (0x82 ∷ 127 ∷ 255 ∷ 255 ∷ 255 ∷ 255 ∷ 255 ∷ 255 ∷ 255 ∷ (246 + k) ∷ rest)
      ≡ throw_length
unfolding read_round
read_round-throws st k rest h =
    let raw = 0x82 ∷ 127 ∷ 255 ∷ 255 ∷ 255 ∷ 255 ∷ 255 ∷ 255 ∷ 255 ∷ (246 + k) ∷ rest in
    let size = 18446744073709551360 + (246 + k) in
    let a : ltb (length raw) 10 ≡ false = (enough (length rest)).1 in
    let b : ltb (length raw) ((10 + size) % 2 ^ 64) ≡ false = ground arith in
    ap (with_header st raw) (
      read_header-some raw size 10 _ (omega arith) (big_field k rest)
        (with_length-plain raw size 10 refl a b))
    ∙ with_header-throws st raw (plain raw size 10) (ground arith)
