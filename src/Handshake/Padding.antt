-- ===== src/Handshake/Padding.antt =====
-- `sha1` takes the blocks of the padded message, as FIPS 180 and RFC 3174 describe them.
use xnetty.Prelude.{
  ℕ, zero, suc, ◌+◌, ◌-◌, ◌*◌, ◌/◌, ◌%◌, ◌^◌, ◌≤◌, ◌<◌, ◌≡◌, sym, ap, ap₂, ◌∙◌, inl, inr, List, ◌∷◌,
  ◌++◌, append_assoc, true, false, leb, leb→le, Bool-cases, arith, length, take, drop,
  length-append, length-drop,
}
use xnetty.Prelude.Slices.{take-all, take-append, drop-append, take-append_le, drop-append_le}
use xnetty.Memory.Plain.{zeros, length-zeros}
use xnetty.Handshake.Sha1.{
  Digest, initial, process, process_blocks, count_bytes, marked, last_block, finish, digest_of,
}

-- How many zeros fill the message up to a whole number of blocks.
abbrev fill : ℕ → ℕ
fill n = (119 - n % 64) % 64

abbrev tail : ℕ → ℕ → List ℕ
tail n count = 0x80 ∷ (zeros (fill n) ++ count_bytes count)

-- The message, a bit that is set, zeros, and the length in bits.
unfoldable pub pad : List ℕ → List ℕ
pad bytes = bytes ++ tail (length bytes) (length bytes * 8 % 2 ^ 64)

-- The state after `n` blocks of 64 bytes.
unfoldable pub blocks : ℕ → Digest → List ℕ → Digest
blocks zero s bytes = s
blocks (suc n) s bytes = blocks n (process s (take 64 bytes)) (drop 64 bytes)

abbrev block_count : ℕ → ℕ
block_count n = (n + 9 + fill n) / 64

zeros_add : (k a b : ℕ) → k ≡ a + b → zeros k ≡ zeros a ++ zeros b
zeros_add k zero b e = let f : k ≡ b = omega arith in ap zeros f
zeros_add zero (suc a) b e = absurd (omega arith)
zeros_add (suc k) (suc a) b e = ap (λ l. 0 ∷ l) (zeros_add k a b (omega arith))

length-pad : (bytes : List ℕ) → length (pad bytes) ≡ length bytes + 9 + fill (length bytes)
unfolding pad count_bytes
length-pad bytes =
    let n = length bytes in
    omega (
      arith,
      length-append bytes (tail n (n * 8 % 2 ^ 64)),
      length-append (zeros (fill n)) (count_bytes (n * 8 % 2 ^ 64)),
      length-zeros (fill n),
    )

-- The bytes, the set bit and some zeros.
abbrev front : List ℕ → ℕ → List ℕ
front bytes k = bytes ++ (0x80 ∷ zeros k)

length-front : (bytes : List ℕ) (k : ℕ) → length (front bytes k) ≡ length bytes + suc k
length-front bytes k = omega (arith, length-append bytes (0x80 ∷ zeros k), length-zeros k)

front_more :
    (bytes rest : List ℕ) (n a b : ℕ)
    → n ≡ a + b
    → bytes ++ (0x80 ∷ (zeros n ++ rest)) ≡ front bytes a ++ (zeros b ++ rest)
front_more bytes rest n a b e =
    ap (λ z. bytes ++ (0x80 ∷ (z ++ rest))) (zeros_add n a b e)
    ∙ ap (λ t. bytes ++ (0x80 ∷ t)) (append_assoc (zeros a) (zeros b) rest)
    ∙ sym (append_assoc bytes (0x80 ∷ zeros a) (zeros b ++ rest))

front_split : (bytes : List ℕ) (n a b : ℕ) → n ≡ a + b → front bytes n ≡ front bytes a ++ zeros b
front_split bytes n a b e =
    ap (λ z. bytes ++ (0x80 ∷ z)) (zeros_add n a b e)
    ∙ sym (append_assoc bytes (0x80 ∷ zeros a) (zeros b))

-- The last block of a message that leaves room for the length.
last_one :
    (s : Digest) (bytes : List ℕ) (count : ℕ)
    → length bytes < 56
    → finish count (s, bytes) ≡ blocks 1 s (bytes ++ tail (length bytes) count)
unfolding finish last_block blocks count_bytes
last_one s bytes count h =
    let n = length bytes in
    let small : leb 56 n ≡ false = ground arith in
    let size = length-front bytes (55 - n) in
    let here : take 56 (marked bytes) ≡ front bytes (55 - n) =
      ap (take 56) (front_split bytes (63 - n) (55 - n) 8 (omega arith))
      ∙ take-append 56 (front bytes (55 - n)) (zeros 8) (omega arith) in
    let there : bytes ++ tail n count ≡ front bytes (55 - n) ++ count_bytes count =
      front_more bytes (count_bytes count) (fill n) (55 - n) 0 (omega arith) in
    let whole : take 64 (bytes ++ tail n count) ≡ front bytes (55 - n) ++ count_bytes count =
      ap (take 64) there
      ∙ take-all 64 (front bytes (55 - n) ++ count_bytes count)
          (omega (arith, length-append (front bytes (55 - n)) (count_bytes count))) in
    rw small (ap (process s) (ap (λ t. t ++ count_bytes count) here ∙ sym whole))

-- The two blocks of a message that leaves none.
last_two :
    (s : Digest) (bytes : List ℕ) (count : ℕ)
    → 56 ≤ length bytes
    → length bytes < 64
    → finish count (s, bytes) ≡ blocks 2 s (bytes ++ tail (length bytes) count)
unfolding finish last_block blocks count_bytes
last_two s bytes count h l =
    let n = length bytes in
    let big : leb 56 n ≡ true = ground arith in
    let size = length-front bytes (63 - n) in
    let there : bytes ++ tail n count ≡ marked bytes ++ (zeros 56 ++ count_bytes count) =
      front_more bytes (count_bytes count) (fill n) (63 - n) 56 (omega arith) in
    let first : take 64 (bytes ++ tail n count) ≡ marked bytes =
      ap (take 64) there
      ∙ take-append 64 (marked bytes) (zeros 56 ++ count_bytes count) (omega arith) in
    let second : drop 64 (bytes ++ tail n count) ≡ zeros 56 ++ count_bytes count =
      ap (drop 64) there
      ∙ drop-append 64 (marked bytes) (zeros 56 ++ count_bytes count) (omega arith) in
    rw big (ap₂ process (ap (process s) (sym first)) (sym (ap (take 64) second)))

last_blocks :
    (s : Digest) (bytes : List ℕ) (count : ℕ)
    → length bytes < 64
    → finish count (s, bytes)
      ≡ blocks (block_count (length bytes)) s (bytes ++ tail (length bytes) count)
last_blocks s bytes count h = elim (Bool-cases (leb 56 (length bytes))) [
  | inl t ↦
      let n : block_count (length bytes) ≡ 2 = let l = leb→le _ _ t in omega arith in
      rw n (last_two s bytes count (leb→le _ _ t) h)
  | inr t ↦
      let small : length bytes < 56 = ground arith in
      let n : block_count (length bytes) ≡ 1 = omega arith in rw n (last_one s bytes count small)
]

blocks_next :
    (n : ℕ) (s : Digest) (bytes more : List ℕ)
    → 64 ≤ length bytes
    → blocks (suc n) s (bytes ++ more)
      ≡ blocks n (process s (take 64 bytes)) (drop 64 bytes ++ more)
unfolding blocks
blocks_next n s bytes more h =
    ap₂ (λ t d. blocks n (process s t) d) (take-append_le 64 bytes more h)
      (drop-append_le 64 bytes more h)

process_blocks-blocks :
    (fuel : ℕ) (s : Digest) (bytes : List ℕ) (count : ℕ)
    → length bytes ≤ fuel
    → finish count (process_blocks fuel s bytes)
      ≡ blocks (block_count (length bytes)) s (bytes ++ tail (length bytes) count)
unfolding process_blocks
process_blocks-blocks zero s bytes count h = last_blocks s bytes count (omega arith)
process_blocks-blocks (suc fuel) s bytes count h = elim (Bool-cases (leb 64 (length bytes))) [
  | inl t ↦
      let l = leb→le _ _ t in
      let size = length-drop 64 bytes in
      let n = length bytes in
      let later = drop 64 bytes in
      let zs : fill (length later) ≡ fill n = omega arith in
      let more : block_count n ≡ suc (block_count (length later)) = omega arith in
      let ends : tail (length later) count ≡ tail n count =
        ap (λ k. 0x80 ∷ (zeros k ++ count_bytes count)) zs in
      let ih = process_blocks-blocks fuel (process s (take 64 bytes)) later count (omega arith) in
      let step : blocks (block_count n) s (bytes ++ tail n count)
          ≡ blocks (block_count (length later)) (process s (take 64 bytes))
              (later ++ tail n count) =
        ap (λ k. blocks k s (bytes ++ tail n count)) more
        ∙ blocks_next (block_count (length later)) s bytes (tail n count) l in
      rw t ih
      ∙ ap (λ e. blocks (block_count (length later)) (process s (take 64 bytes)) (later ++ e)) ends
      ∙ sym step
  | inr t ↦ rw t (last_blocks s bytes count (ground arith))
]

-- The hash is what the blocks of the padded message give one after the other, and the padded message
-- is a whole number of blocks.
pub digest_of-blocks :
    (bytes : List ℕ)
    → (digest_of bytes ≡ blocks (length (pad bytes) / 64) initial (pad bytes))
      × (length (pad bytes) % 64 ≡ 0)
unfolding digest_of pad
digest_of-blocks bytes =
    let n = length bytes in
    let size = length-pad bytes in
    let count : length (pad bytes) / 64 ≡ block_count n = omega arith in
    (
      process_blocks-blocks n initial bytes (n * 8 % 2 ^ 64) (omega arith)
          ∙ ap (λ k. blocks k initial (pad bytes)) (sym count),
      omega arith,
    )
