-- ===== src/Memory.antt =====
-- What the code takes from the C library's allocator, and how a piece of code can end.
pub mod Plain
pub mod Returns
use xnetty.Prelude.{
  refl, ℕ, ◌+◌, ◌%◌, ◌^◌, ◌<◌, ◌≤◌, ◌≡◌, List, ◌++◌, Option, some, arith, length, take, drop, leb,
  if◌then◌else◌, ◌-◌, ap, ◌∙◌, length-append, length-drop,
}

-- `ok` is a normal return, `out_of_range` and `bad_alloc` are the exceptions of these names (thrown
-- before the object has changed), `fault` is undefined behaviour such as an access outside of a
-- block, and `diverge` is a loop that does not end.
pub data Outcome {ℓ} (A : Type ℓ) : Type ℓ where
  ok : A → Outcome A
  out_of_range bad_alloc fault diverge : Outcome A

infixl 5 ◌>>=◌
abbrev pub ◌>>=◌ {ℓ κ} : {A : Type ℓ} {B : Type κ} → Outcome A → (A → Outcome B) → Outcome B
ok a >>= f = f a
out_of_range >>= f = out_of_range
bad_alloc >>= f = bad_alloc
fault >>= f = fault
diverge >>= f = diverge

pub >>=-assoc {ℓ κ μ} :
    {A : Type ℓ} {B : Type κ} {C : Type μ} (o : Outcome A) (f : A → Outcome B) (g : B → Outcome C)
    → (o >>= λ a. f a >>= g) ≡ ((o >>= f) >>= g)
>>=-assoc (ok a) f g = refl
>>=-assoc out_of_range f g = refl
>>=-assoc bad_alloc f g = refl
>>=-assoc fault f g = refl
>>=-assoc diverge f g = refl

-- `size_t` arithmetic.
abbrev pub size_mod : ℕ
size_mod = 2 ^ 64

abbrev pub add_size : ℕ → ℕ → ℕ
add_size a b = (a + b) % size_mod

-- `malloc` and `realloc`: `none` is a null pointer, and a block is the list of its bytes. No block is
-- larger than `PTRDIFF_MAX`, and `realloc` keeps the bytes that both blocks have. The null pointer
-- is a block of no bytes.
pub record Allocator : Type 0 where
  pub malloc : ℕ → Option (List ℕ)
  pub realloc : List ℕ → ℕ → Option (List ℕ)
  pub malloc_size : (n : ℕ) (b : List ℕ) → malloc n ≡ some b → (length b ≡ n) × (n < 2 ^ 63)
  pub realloc_size :
      (old : List ℕ) (n : ℕ) (b : List ℕ) → realloc old n ≡ some b → (length b ≡ n) × (n < 2 ^ 63)
  pub realloc_keeps :
      (old : List ℕ) (n k : ℕ) (b : List ℕ)
      → realloc old n ≡ some b
      → k ≤ length old
      → k ≤ n
      → take k b ≡ take k old

-- `memcpy` into a block at offset `i`.
unfoldable pub store : List ℕ → ℕ → List ℕ → Outcome (List ℕ)
store block i src =
    if leb (i + length src) (length block)
    then ok (take i block ++ (src ++ drop (i + length src) block))
    else fault

-- `memcpy` of `n` bytes out of a block at offset `i`.
unfoldable pub load : List ℕ → ℕ → ℕ → Outcome (List ℕ)
load block i n = if leb (i + n) (length block) then ok (take n (drop i block)) else fault

pub store-ok :
    (block : List ℕ) (i : ℕ) (src : List ℕ)
    → i + length src ≤ length block
    → store block i src ≡ ok (take i block ++ (src ++ drop (i + length src) block))
unfolding store
store-ok block i src h = ground arith

pub load-ok :
    (block : List ℕ) (i n : ℕ) → i + n ≤ length block → load block i n ≡ ok (take n (drop i block))
unfolding load
load-ok block i n h = ground arith

pub store-fault :
    (block : List ℕ) (i : ℕ) (src : List ℕ)
    → length block < i + length src
    → store block i src ≡ fault
unfolding store
store-fault block i src h = ground arith

pub load-fault : (block : List ℕ) (i n : ℕ) → length block < i + n → load block i n ≡ fault
unfolding load
load-fault block i n h = ground arith

-- A block that begins with `src`: what the copying operations leave at the front.
pub length-front :
    (block src : List ℕ)
    → length src ≤ length block
    → length (src ++ drop (length src) block) ≡ length block
length-front block src h =
    omega (arith, length-append src (drop (length src) block), length-drop (length src) block)

pub store_front :
    (block src : List ℕ)
    → length src ≤ length block
    → store block 0 src ≡ ok (src ++ drop (length src) block)
store_front block src h =
    let e : 0 + length src ≡ length src = omega arith in
    store-ok block 0 src (omega arith) ∙ ap (λ k. ok (src ++ drop k block)) e
