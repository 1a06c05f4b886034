-- ===== src/Loop/Create.antt =====
-- A ring that is made for some number of items.
use native.Mathlib.Nat.{pow-suc, pow-le-pow_right}
use xnetty.Prelude.{
  ℕ, zero, suc, ◌+◌, ◌-◌, ◌*◌, ◌%◌, ◌^◌, ◌≡◌, ◌≢◌, ◌≤◌, ◌<◌, refl, sym, subst, ap, ap₂, ◌∙◌, inl,
  inr, List, [], Bool-cases, arith, ltb, le→ltb_false, ◌==◌, length,
}
use xnetty.Memory.{ok, ◌>>=◌, size_mod}
use xnetty.Loop.Queue.{Op, run, create, double_up, next_power_of_two, repeat}
use xnetty.Loop.Refine.{bounded, run-bounded}
use xnetty.Memory.Returns.{Ends}
use xnetty.Loop.Ring.{IsValid, contents}

-- The loop of `nextPowerOfTwo` ends with a power of two that is not less than `n`.
double_up_lem :
    (rounds k n : ℕ)
    → n ≤ 2 ^ 63
    → k ≤ 63
    → 63 ≤ k + rounds
    → (k' : ℕ) × (double_up rounds (2 ^ k) n ≡ ok (2 ^ k')) × (k' ≤ 63) × (n ≤ 2 ^ k')
unfolding double_up
double_up_lem zero k n hn hk hr =
    let top : k ≡ 63 = omega arith in
    rw top (63, rw (le→ltb_false (2 ^ 63) n hn) refl, omega arith, hn)
double_up_lem (suc rounds) k n hn hk hr = elim (Bool-cases (ltb (2 ^ k) n)) [
  | inl e ↦
      let less : 2 ^ k < n = ground arith in
      let not_top : k ≢ 63 =
        λ t. let h : 2 ^ 63 < n = subst (λ j. 2 ^ j < n) t less in omega arith in
      let (k', f, b, c) =
        double_up_lem rounds (suc k) n hn (omega (arith, not_top)) (omega arith) in
      let doubled : 2 ^ k * 2 % size_mod ≡ 2 ^ suc k = omega arith ∙ sym (pow-suc 2 k) in
      (k', rw (e, doubled) f, b, c)
  | inr e ↦ (k, rw e refl, hk, ground arith)
]

next_power_of_two_lem :
    (n : ℕ) → n ≤ 2 ^ 63 → (k : ℕ) × (next_power_of_two n ≡ ok (2 ^ k)) × (k ≤ 63) × (n ≤ 2 ^ k)
unfolding next_power_of_two
next_power_of_two_lem n h = elim (Bool-cases (n == 0)) [
  | inl e ↦ (0, rw e refl, omega arith, ground arith)
  | inr e ↦
      let (k, f, b, c) = double_up_lem 64 0 n h (omega arith) (omega arith) in (k, rw e f, b, c)
]

length-repeat {ℓ} : {A : Type ℓ} (n : ℕ) (x : A) → length (repeat n x) ≡ n
length-repeat zero x = refl
length-repeat (suc n) x = ap suc (length-repeat n x)

pow_bounds : (k : ℕ) → k ≤ 63 → (0 < 2 ^ k) × (2 ^ k ≤ 2 ^ 63)
pow_bounds k h = (
  pow-le-pow_right {n = 2} (omega arith) {i = 0} {j = k} (omega arith),
  pow-le-pow_right {n = 2} (omega arith) h,
)

-- A new ring is valid and holds nothing.
pub create-IsValid {ℓ} :
    {T : Type ℓ} (vacant : T) (size : ℕ)
    → size ≤ 2 ^ 63
    → (k : ℕ) × (size ≤ 2 ^ k)
      × Ends
          (λ q. (q.size_mask ≡ 2 ^ k - 1) × IsValid q × (contents vacant q ≡ []))
          (create vacant size)
unfolding create
create-IsValid vacant size h =
    let (k, f, b, c) = next_power_of_two_lem size h in
    let (pos, top) = pow_bounds k b in
    let v : IsValid
        (record { buf = repeat (2 ^ k) vacant; size_mask = 2 ^ k - 1; head = 0; tail = 0 }) =
      record {
        sized = length-repeat (2 ^ k) vacant ∙ omega arith;
        small = omega arith;
        head_within = omega arith;
        tail_within = omega arith;
      } in
    (k, c, (_, rw f refl, (refl, v, refl)))

-- A ring that is made for `size` items, at most 2^63, is a queue: it keeps what is pushed in order,
-- takes all of it out at once, and refuses an item only when one place less than its size is taken.
-- Its size is the power of two 2^k, which is not less than `size`.
pub create-bounded {ℓ} :
    {T : Type ℓ} (vacant : T) (size : ℕ) (ops : List (Op T))
    → size ≤ 2 ^ 63
    → (k : ℕ) × (size ≤ 2 ^ k)
      × ((do q ← create vacant size; run vacant ops q) ≡ ok (bounded (2 ^ k - 1) ops []))
create-bounded vacant size ops h =
    let (k, c, (q, e, (m, v, n))) = create-IsValid vacant size h in
    (k, c, rw e (run-bounded vacant ops q v ∙ ap₂ (λ r xs. ok (bounded r ops xs)) m n))
