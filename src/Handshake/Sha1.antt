-- ===== src/Handshake/Sha1.antt =====
-- `sha1` (src/util/sha1.cpp): the words of a block, the 80 rounds, the blocks of the data and the two
-- that may follow them. The bytes that make a word share no bit, so that `|` adds them.
use Prim.Native.Nat.{bit_and, bit_or, bit_xor}
use xnetty.Prelude.{
  ℕ, zero, suc, ◌+◌, ◌-◌, ◌*◌, ◌/◌, ◌%◌, ◌^◌, List, [], ◌∷◌, ◌++◌, leb, ltb, if◌then◌else◌, length,
  get_or, take, drop,
}
use xnetty.Memory.Plain.{zeros}

abbrev word_mod : ℕ
word_mod = 2 ^ 32

unfoldable pub rotl : ℕ → ℕ → ℕ
rotl x n = bit_or (x * 2 ^ n % word_mod) (x / 2 ^ (32 - n))

-- The five words of `state`.
pub record Digest : Type 0 where
  pub a : ℕ
  pub b : ℕ
  pub c : ℕ
  pub d : ℕ
  pub e : ℕ

unfoldable pub initial : Digest
initial = record { a = 0x67452301; b = 0xEFCDAB89; c = 0x98BADCFE; d = 0x10325476; e = 0xC3D2E1F0 }

-- The first loop of `sha1Process`.
unfoldable pub words_of : List ℕ → List ℕ
words_of (p ∷ q ∷ r ∷ s ∷ block) = (p * 2 ^ 24 + q * 2 ^ 16 + r * 2 ^ 8 + s) ∷ words_of block
words_of _ = []

-- The second: `ws` holds the words so far, the last one first.
unfoldable pub extend : ℕ → List ℕ → List ℕ
extend zero ws = ws
extend (suc n) ws =
    let w =
      rotl
        (bit_xor (bit_xor (bit_xor (get_or ws 2 0) (get_or ws 7 0)) (get_or ws 13 0))
          (get_or ws 15 0))
        1 in
    extend n (w ∷ ws)

unfoldable pub reverse_onto : List ℕ → List ℕ → List ℕ
reverse_onto [] ys = ys
reverse_onto (x ∷ xs) ys = reverse_onto xs (x ∷ ys)

unfoldable pub schedule : List ℕ → List ℕ
schedule block = reverse_onto (extend 64 (reverse_onto (words_of block) [])) []

abbrev not_word : ℕ → ℕ
not_word x = word_mod - 1 - x

-- `f` and `k` of round `i`.
unfoldable pub mix : ℕ → Digest → ℕ
mix i s =
    if ltb i 20
    then bit_or (bit_and s.b s.c) (bit_and (not_word s.b) s.d)
    else if ltb i 40
    then bit_xor (bit_xor s.b s.c) s.d
    else if ltb i 60
    then bit_or (bit_or (bit_and s.b s.c) (bit_and s.b s.d)) (bit_and s.c s.d)
    else bit_xor (bit_xor s.b s.c) s.d

unfoldable pub constant : ℕ → ℕ
constant i =
    if ltb i 20
    then 0x5A827999
    else if ltb i 40
    then 0x6ED9EBA1
    else if ltb i 60
    then 0x8F1BBCDC
    else 0xCA62C1D6

unfoldable pub step : ℕ → ℕ → Digest → Digest
step i w s = record {
  a = (rotl s.a 5 + mix i s + s.e + constant i + w) % word_mod;
  b = s.a;
  c = rotl s.b 30;
  d = s.c;
  e = s.d;
}

-- The loop over the rounds, from round `i` on.
unfoldable pub rounds : ℕ → List ℕ → Digest → Digest
rounds i [] s = s
rounds i (w ∷ ws) s = rounds (i + 1) ws (step i w s)

abbrev add_digest : Digest → Digest → Digest
add_digest s t = record {
  a = (s.a + t.a) % word_mod;
  b = (s.b + t.b) % word_mod;
  c = (s.c + t.c) % word_mod;
  d = (s.d + t.d) % word_mod;
  e = (s.e + t.e) % word_mod;
}

-- `sha1Process`
unfoldable pub process : Digest → List ℕ → Digest
process s block = add_digest s (rounds 0 (schedule block) s)

-- The `while` loop: the state, and the data that is left. Every round passes 64 bytes.
unfoldable pub process_blocks : ℕ → Digest → List ℕ → Digest × List ℕ
process_blocks zero s input = (s, input)
process_blocks (suc fuel) s input =
    let rest = process_blocks fuel (process s (take 64 input)) (drop 64 input) in
    if leb 64 (length input) then rest else (s, input)

-- The last 8 bytes of a block become the length in bits, the highest byte first.
unfoldable pub count_bytes : ℕ → List ℕ
count_bytes n =
    n / 2 ^ 56 % 256
    ∷ n / 2 ^ 48 % 256
    ∷ n / 2 ^ 40 % 256
    ∷ n / 2 ^ 32 % 256
    ∷ n / 2 ^ 24 % 256
    ∷ n / 2 ^ 16 % 256
    ∷ n / 2 ^ 8 % 256
    ∷ n % 256
    ∷ []

abbrev pub marked : List ℕ → List ℕ
marked rest = rest ++ (0x80 ∷ zeros (63 - length rest))

unfoldable pub last_block : Digest → List ℕ → ℕ → Digest
last_block s block count = process s (take 56 block ++ count_bytes count)

-- What follows on the loop.
unfoldable pub finish : ℕ → Digest × List ℕ → Digest
finish count (s, rest) =
    if leb 56 (length rest)
    then last_block (process s (marked rest)) (zeros 64) count
    else last_block s (marked rest) count

unfoldable pub digest_of : List ℕ → Digest
digest_of input = finish (length input * 8 % 2 ^ 64) (process_blocks (length input) initial input)

abbrev pub word_bytes : ℕ → List ℕ
word_bytes w = w / 2 ^ 24 % 256 ∷ w / 2 ^ 16 % 256 ∷ w / 2 ^ 8 % 256 ∷ w % 256 ∷ []

unfoldable pub output : Digest → List ℕ
output s =
    word_bytes s.a ++ (word_bytes s.b ++ (word_bytes s.c ++ (word_bytes s.d ++ word_bytes s.e)))

unfoldable pub sha1 : List ℕ → List ℕ
sha1 input = output (digest_of input)
