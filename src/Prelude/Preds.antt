-- ===== src/Prelude/Preds.antt =====
-- Predicates on the items of a list, and one item changed in place.
use Prim.Native.Nat.{ℕ, zero, suc, ◌+◌, ◌≤◌, ◌<◌}
use mathlib.Core.Path.{◌≡◌, refl, ap, sym, subst}
use mathlib.Core.Logic.{◌≢◌, ◌⊎◌, inl, inr}
use mathlib.Core.List.{List, [], ◌∷◌, ◌++◌}
use native.Mathlib.Omega.{arith}
use xnetty.Prelude.Lists.{length, get_or}

abbrev pub All {ℓ κ} : {A : Type ℓ} → (A → Type κ) → List A → Type κ
All P [] = Unit
All P (x ∷ xs) = P x × All P xs

-- The item occurs in the list.
abbrev pub In : {A : Type 0} → A → List A → Type 0
In a [] = ⊥
In a (x ∷ xs) = (x ≡ a) ⊎ In a xs

pub In-append_right : {A : Type 0} (a : A) (xs ys : List A) → In a ys → In a (xs ++ ys)
In-append_right a [] ys h = h
In-append_right a (x ∷ xs) ys h = inr (In-append_right a xs ys h)

pub In-append_left : {A : Type 0} (a : A) (xs ys : List A) → In a xs → In a (xs ++ ys)
In-append_left a [] ys h = absurd h
In-append_left a (x ∷ xs) ys (inl e) = inl e
In-append_left a (x ∷ xs) ys (inr h) = inr (In-append_left a xs ys h)

module _ {ℓ κ} {A : Type ℓ} (P : A → Type κ) where
  pub All-append : (xs ys : List A) → All P xs → All P ys → All P (xs ++ ys)
  All-append [] ys h k = k
  All-append (x ∷ xs) ys (p, h) k = (p, All-append xs ys h k)

  pub All-append_left : (xs ys : List A) → All P (xs ++ ys) → All P xs
  All-append_left [] ys h = tt
  All-append_left (x ∷ xs) ys (p, h) = (p, All-append_left xs ys h)

  pub All-append_right : (xs ys : List A) → All P (xs ++ ys) → All P ys
  All-append_right [] ys h = h
  All-append_right (x ∷ xs) ys (p, h) = All-append_right xs ys h

pub All-imp {ℓ κ μ} :
    {A : Type ℓ} (P : A → Type κ) (Q : A → Type μ) (xs : List A)
    → ((x : A) → P x → Q x)
    → All P xs
    → All Q xs
All-imp P Q [] f h = tt
All-imp P Q (x ∷ xs) f (p, h) = (f x p, All-imp P Q xs f h)

module _ {ℓ} {A : Type ℓ} where
  -- The item at an index changed; out of range nothing changes.
  abbrev pub modify : List A → ℕ → (A → A) → List A
  modify [] i f = []
  modify (x ∷ xs) zero f = f x ∷ xs
  modify (x ∷ xs) (suc i) f = x ∷ modify xs i f

  pub length-modify : (xs : List A) (i : ℕ) (f : A → A) → length (modify xs i f) ≡ length xs
  length-modify [] i f = refl
  length-modify (x ∷ xs) zero f = refl
  length-modify (x ∷ xs) (suc i) f = ap suc (length-modify xs i f)

module _ {ℓ} {A : Type ℓ} where
  pub get_or-modify_self :
      (xs : List A) (i : ℕ) (f : A → A) (d : A)
      → f d ≡ d
      → get_or (modify xs i f) i d ≡ f (get_or xs i d)
  get_or-modify_self [] i f d h = sym h
  get_or-modify_self (x ∷ xs) zero f d h = refl
  get_or-modify_self (x ∷ xs) (suc i) f d h = get_or-modify_self xs i f d h

  pub get_or-modify :
      (xs : List A) (i : ℕ) (f : A → A) (d : A)
      → i < length xs
      → get_or (modify xs i f) i d ≡ f (get_or xs i d)
  get_or-modify [] i f d h = absurd (omega arith)
  get_or-modify (x ∷ xs) zero f d h = refl
  get_or-modify (x ∷ xs) (suc i) f d h = get_or-modify xs i f d (omega arith)

  pub get_or-modify_ne :
      (xs : List A) (i j : ℕ) (f : A → A) (d : A)
      → i ≢ j
      → get_or (modify xs i f) j d ≡ get_or xs j d
  get_or-modify_ne [] i j f d h = refl
  get_or-modify_ne (x ∷ xs) zero zero f d h = absurd (h refl)
  get_or-modify_ne (x ∷ xs) zero (suc j) f d h = refl
  get_or-modify_ne (x ∷ xs) (suc i) zero f d h = refl
  get_or-modify_ne (x ∷ xs) (suc i) (suc j) f d h = get_or-modify_ne xs i j f d (λ e. h (ap suc e))

-- A predicate on each item and its index, counted from `i`.
abbrev pub AllAt {ℓ κ} : {A : Type ℓ} → (ℕ → A → Type κ) → ℕ → List A → Type κ
AllAt P i [] = Unit
AllAt P i (x ∷ xs) = P i x × AllAt P (suc i) xs

pub AllAt-imp {ℓ κ μ} :
    {A : Type ℓ} (P : ℕ → A → Type κ) (Q : ℕ → A → Type μ) (i : ℕ) (xs : List A)
    → ((j : ℕ) (x : A) → i ≤ j → P j x → Q j x)
    → AllAt P i xs
    → AllAt Q i xs
AllAt-imp P Q i [] f h = tt
AllAt-imp P Q i (x ∷ xs) f (p, h) =
    (f i x (omega arith) p, AllAt-imp P Q (suc i) xs (λ j y k. f j y (omega arith)) h)

-- Changing the item at index `k`, which is `d` places behind the first one.
pub AllAt-modify {ℓ κ μ} :
    {A : Type ℓ} (P : ℕ → A → Type κ) (Q : ℕ → A → Type μ) (f : A → A) (k d i : ℕ) (xs : List A)
    → k ≡ i + d
    → ((x : A) → P k x → Q k (f x))
    → ((j : ℕ) (x : A) → j ≢ k → P j x → Q j x)
    → AllAt P i xs
    → AllAt Q i (modify xs d f)
AllAt-modify P Q f k d i [] e at other h = tt
AllAt-modify P Q f k zero i (x ∷ xs) e at other (p, h) =
    let same : k ≡ i = omega arith in
    (
      subst (λ j. Q j (f x)) same (at x (subst (λ j. P j x) (sym same) p)),
      AllAt-imp P Q (suc i) xs (λ j y l. other j y (omega arith)) h,
    )
AllAt-modify P Q f k (suc d) i (x ∷ xs) e at other (p, h) =
    (other i x (omega arith) p, AllAt-modify P Q f k d (suc i) xs (omega arith) at other h)
