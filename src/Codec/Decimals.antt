-- ===== src/Codec/Decimals.antt =====
-- `std::stoul` reads a decimal back (src/http/http_codec.cpp).
use xnetty.Prelude.{
  ℕ, zero, suc, ◌+◌, ◌-◌, ◌*◌, ◌/◌, ◌%◌, ◌≤◌, ◌<◌, ◌≡◌, refl, sym, ap, ◌∙◌, subst, inl, inr, [],
  ◌∷◌, ◌++◌, true, false, some, leb, ltb, lt→ltb, Bool-cases, arith, ◌==◌, ◌||◌, ◌&&◌,
}
use xnetty.Prelude.Preds.{All, All-append}
use xnetty.Prelude.Text.{Text, is_empty}
use xnetty.Prelude.Decimal.{digits, digits_from}
use xnetty.Memory.{size_mod}
use xnetty.Codec.{is_digit, number, skip_space, magnitude, signed, stoul, body_len, or_zero}

-- Digits, one at least.
abbrev IsNumber : Text → Type 0
IsNumber s = (is_empty s ≡ false) × All (λ c. is_digit c ≡ true) s

digit : (n : ℕ) → n < 10 → is_digit (b'0' + n) ≡ true
unfolding is_digit
digit n h = ground arith

number_append :
    (acc c : ℕ) (s : Text)
    → All (λ x. is_digit x ≡ true) s
    → is_digit c ≡ true
    → number acc (s ++ (c ∷ [])) ≡ number acc s * 10 + (c - b'0')
unfolding number
number_append acc c [] h d = rw d refl
number_append acc c (x ∷ s) (e, h) d = rw e (number_append (acc * 10 + (x - b'0')) c s h d)

-- The last digit behind the others.
behind_front :
    (front : Text) (n : ℕ)
    → IsNumber front × (number 0 front ≡ n / 10)
    → IsNumber (front ++ ((b'0' + n % 10) ∷ [])) × (number 0 (front ++ ((b'0' + n % 10) ∷ [])) ≡ n)
behind_front front n ((some_digit, all), value) =
    let last = digit (n % 10) (omega arith) in
    let read = number_append 0 (b'0' + n % 10) front all last in
    ((not_empty front, All-append (λ c. is_digit c ≡ true) front _ all (last, tt)), omega arith)
  where
    not_empty : (xs : Text) → is_empty (xs ++ ((b'0' + n % 10) ∷ [])) ≡ false
    not_empty [] = refl
    not_empty (x ∷ xs) = refl

digits_from-number :
    (fuel n : ℕ) → n < fuel → IsNumber (digits_from fuel n) × (number 0 (digits_from fuel n) ≡ n)
unfolding digits_from
digits_from-number zero n h = absurd (omega arith)
digits_from-number (suc fuel) n h = elim (Bool-cases (ltb n 10)) [
  | inl t ↦
      let d = digit n (ground arith) in rw t ((refl, (d, tt)), unfold number in rw d (omega arith))
  | inr t ↦
      let more : 10 ≤ n = ground arith in
      let front = digits_from-number fuel (n / 10) (omega arith) in
      rw t (behind_front (digits_from fuel (n / 10)) n front)
]

stoul_digits : (s : Text) → IsNumber s → number 0 s < size_mod → stoul s ≡ some (number 0 s)
unfolding stoul signed skip_space magnitude is_digit
stoul_digits [] h l = absurd (ground arith)
stoul_digits (c ∷ s) h l =
    let no_space : c == 32 || (leb 9 c && leb c 13) ≡ false = ground (arith, h.1.0) in
    let no_minus : (c == b'-') ≡ false = ground (arith, h.1.0) in
    let no_plus : (c == b'+') ≡ false = ground (arith, h.1.0) in
    rw (no_space, no_minus, no_plus, h.1.0, lt→ltb (number 0 (c ∷ s)) size_mod l) refl

-- What `std::to_string` writes for a number of 64 bits is read as this number.
pub body_len-digits : (n : ℕ) → n < size_mod → body_len (digits n) ≡ n
unfolding body_len digits
body_len-digits n h =
    let (shape, value) = digits_from-number (suc n) n (omega arith) in
    let small : number 0 (digits n) < size_mod = subst (λ k. k < size_mod) (sym value) h in
    ap or_zero (stoul_digits (digits n) shape small) ∙ value

pub digits_nonempty : (n : ℕ) → is_empty (digits n) ≡ false
unfolding digits
digits_nonempty n = (digits_from-number (suc n) n (omega arith)).0.0
