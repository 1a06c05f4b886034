-- ===== src/Handshake/Decode.antt =====
-- What `base64Encode` writes can be read back.
use xnetty.Prelude.{
  ℕ, suc, ◌+◌, ◌*◌, ◌/◌, ◌%◌, ◌^◌, ◌<◌, ◌≡◌, refl, ap, ap₂, ◌∙◌, List, [], ◌∷◌, ◌++◌, true, false,
  ◌==◌, if◌then◌else◌, arith,
}
use xnetty.Prelude.Preds.{All}
use xnetty.Prelude.Table.{same_values, value}
use xnetty.Prelude.Text.{Text}
use xnetty.Handshake.Base64.{chars, char_at, base64_encode}

-- The place of a character in the alphabet.
unfoldable pub index_in : Text → ℕ → ℕ
index_in [] x = 0
index_in (c ∷ cs) x = let later = suc (index_in cs x) in if c == x then 0 else later

unfoldable pub sextet : ℕ → ℕ
sextet x = index_in chars x

abbrev bytes_of : ℕ → List ℕ
bytes_of v = v / 2 ^ 16 ∷ v / 2 ^ 8 % 256 ∷ v % 256 ∷ []

-- The bytes of four characters, of which `=` stands for none.
unfoldable pub decode_group : ℕ → ℕ → ℕ → ℕ → List ℕ
decode_group w x y z =
    let v = sextet w * 2 ^ 18 + sextet x * 2 ^ 12 in
    let v' = v + sextet y * 2 ^ 6 in
    if y == b'='
    then v / 2 ^ 16 ∷ []
    else if z == b'='
    then v' / 2 ^ 16 ∷ v' / 2 ^ 8 % 256 ∷ []
    else bytes_of (v' + sextet z)

-- Base 64 as RFC 4648 reads it.
unfoldable pub decode : Text → List ℕ
decode (w ∷ x ∷ y ∷ z ∷ rest) = decode_group w x y z ++ decode rest
decode _ = []

sextet_values : same_values (λ i. sextet (char_at i)) (λ i. i) 0 64 ≡ true
unfolding same_values sextet index_in
sextet_values = refl

sextet-char_at : (i : ℕ) → i < 64 → sextet (char_at i) ≡ i
sextet-char_at i h = value _ _ 0 64 i (omega arith) (omega arith) sextet_values

pad_values : same_values (λ i. if char_at i == b'=' then 1 else 0) (λ i. 0) 0 64 ≡ true
unfolding same_values
pad_values = refl

not_pad : (i : ℕ) → i < 64 → (char_at i == b'=') ≡ false
not_pad i h = let e = value _ _ 0 64 i (omega arith) (omega arith) pad_values in ground arith

abbrev pub IsByte : ℕ → Type 0
IsByte x = x < 256

-- The sextets of a number of 24 bits give the number back.
recombine :
    (v : ℕ)
    → v < 2 ^ 24
    → v / 2 ^ 18 % 64 * 2 ^ 18 + v / 2 ^ 12 % 64 * 2 ^ 12 + v / 2 ^ 6 % 64 * 2 ^ 6 + v % 64 ≡ v
recombine v h = omega arith

sextet_of : (v k : ℕ) → sextet (char_at (v / k % 64)) ≡ v / k % 64
sextet_of v k = sextet-char_at (v / k % 64) (omega arith)

three_lem :
    (v : ℕ)
    → v < 2 ^ 24
    → decode_group
        (char_at (v / 2 ^ 18 % 64))
        (char_at (v / 2 ^ 12 % 64))
        (char_at (v / 2 ^ 6 % 64))
        (char_at (v % 64))
      ≡ bytes_of v
unfolding decode_group
three_lem v h =
    rw
      (
        not_pad (v / 2 ^ 6 % 64) (omega arith),
        not_pad (v % 64) (omega arith),
        sextet_of v (2 ^ 18),
        sextet_of v (2 ^ 12),
        sextet_of v (2 ^ 6),
        sextet-char_at (v % 64) (omega arith),
        recombine v h,
      )
      refl

two_lem :
    (v : ℕ)
    → v < 2 ^ 24
    → v % 64 ≡ 0
    → decode_group
        (char_at (v / 2 ^ 18 % 64))
        (char_at (v / 2 ^ 12 % 64))
        (char_at (v / 2 ^ 6 % 64))
        b'='
      ≡ v / 2 ^ 16 ∷ v / 2 ^ 8 % 256 ∷ []
unfolding decode_group
two_lem v h z =
    let whole : v / 2 ^ 18 % 64 * 2 ^ 18 + v / 2 ^ 12 % 64 * 2 ^ 12 + v / 2 ^ 6 % 64 * 2 ^ 6 ≡ v =
      omega (arith, recombine v h) in
    rw
      (
        not_pad (v / 2 ^ 6 % 64) (omega arith),
        sextet_of v (2 ^ 18),
        sextet_of v (2 ^ 12),
        sextet_of v (2 ^ 6),
        whole,
      )
      refl

one_lem :
    (v : ℕ)
    → v < 2 ^ 24
    → v % 2 ^ 12 ≡ 0
    → decode_group (char_at (v / 2 ^ 18 % 64)) (char_at (v / 2 ^ 12 % 64)) b'=' b'='
      ≡ v / 2 ^ 16 ∷ []
unfolding decode_group
one_lem v h z =
    let whole : v / 2 ^ 18 % 64 * 2 ^ 18 + v / 2 ^ 12 % 64 * 2 ^ 12 ≡ v = omega arith in
    rw (sextet_of v (2 ^ 18), sextet_of v (2 ^ 12), whole) refl

-- The bytes that a number of 24 bits was put together from.
bytes_back :
    (a b c v : ℕ)
    → a < 256
    → b < 256
    → c < 256
    → v ≡ a * 2 ^ 16 + b * 2 ^ 8 + c
    → (v / 2 ^ 16 ≡ a) × (v / 2 ^ 8 % 256 ≡ b) × (v % 256 ≡ c)
bytes_back a b c v ha hb hc e = (omega arith, omega arith, omega arith)

-- Bytes that were encoded are read back, whatever they are and however many.
pub decode-base64_encode : (bs : List ℕ) → All IsByte bs → decode (base64_encode bs) ≡ bs
unfolding decode base64_encode
decode-base64_encode [] h = refl
decode-base64_encode (a ∷ []) (ha, _) =
    let v = a * 2 ^ 16 in
    let (x, _, _) = bytes_back a 0 0 v ha (omega arith) (omega arith) (omega arith) in
    ap (λ g. g ++ []) (one_lem v (omega arith) (omega arith)) ∙ ap (λ n. n ∷ []) x
decode-base64_encode (a ∷ b ∷ []) (ha, (hb, _)) =
    let v = a * 2 ^ 16 + b * 2 ^ 8 in
    let (x, y, _) = bytes_back a b 0 v ha hb (omega arith) (omega arith) in
    ap (λ g. g ++ []) (two_lem v (omega arith) (omega arith)) ∙ ap₂ (λ n k. n ∷ k ∷ []) x y
decode-base64_encode (a ∷ b ∷ c ∷ rest) (ha, (hb, (hc, h))) =
    let v = a * 2 ^ 16 + b * 2 ^ 8 + c in
    let (x, y, z) = bytes_back a b c v ha hb hc refl in
    ap₂ (λ g r. g ++ r) (three_lem v (omega arith)) (decode-base64_encode rest h)
    ∙ rw (x, y, z) refl
