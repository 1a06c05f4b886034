-- ===== src/Memory/Returns.antt =====
-- What holds of the value of a piece of code, if it returns one.
use xnetty.Prelude.{◌≡◌, refl, Bool, true, false, if◌then◌else◌}
use xnetty.Memory.{Outcome, ok, out_of_range, bad_alloc, fault, diverge, ◌>>=◌}

abbrev pub Returns {ℓ κ} : {A : Type ℓ} → (A → Type κ) → Outcome A → Type κ
Returns P (ok a) = P a
Returns P _ = Unit

pub Returns->>= {ℓ κ μ ν} :
    {A : Type ℓ} {B : Type κ} (P : A → Type μ) (Q : B → Type ν) (o : Outcome A) (f : A → Outcome B)
    → Returns P o
    → ((a : A) → P a → Returns Q (f a))
    → Returns Q (o >>= f)
Returns->>= P Q (ok a) f h k = k a h
Returns->>= P Q out_of_range f h k = tt
Returns->>= P Q bad_alloc f h k = tt
Returns->>= P Q fault f h k = tt
Returns->>= P Q diverge f h k = tt

pub Returns-any {ℓ} : {A : Type ℓ} (o : Outcome A) → Returns (λ a. Unit {0}) o
Returns-any (ok a) = tt
Returns-any out_of_range = tt
Returns-any bad_alloc = tt
Returns-any fault = tt
Returns-any diverge = tt

pub Returns-if {ℓ κ} :
    {A : Type ℓ} (P : A → Type κ) (b : Bool) (x y : Outcome A)
    → (b ≡ true → Returns P x)
    → (b ≡ false → Returns P y)
    → Returns P (if b then x else y)
Returns-if P true x y h k = h refl
Returns-if P false x y h k = k refl

pub Returns-imp {ℓ κ μ} :
    {A : Type ℓ} (P : A → Type κ) (Q : A → Type μ) (o : Outcome A)
    → ((a : A) → P a → Q a)
    → Returns P o
    → Returns Q o
Returns-imp P Q (ok a) f h = f a h
Returns-imp P Q out_of_range f h = tt
Returns-imp P Q bad_alloc f h = tt
Returns-imp P Q fault f h = tt
Returns-imp P Q diverge f h = tt

-- The code ends with a value of which `P` holds.
abbrev pub Ends {ℓ κ} : {A : Type ℓ} → (A → Type κ) → Outcome A → Type (ℓ ⊔ κ)
Ends {A = A} P o = (a : A) × (o ≡ ok a) × P a

pub Ends->>= {ℓ κ μ ν} :
    {A : Type ℓ} {B : Type κ} (P : A → Type μ) (Q : B → Type ν) (o : Outcome A) (f : A → Outcome B)
    → Ends P o
    → ((a : A) → P a → Ends Q (f a))
    → Ends Q (o >>= f)
Ends->>= P Q o f (a, e, p) k = rw e (k a p)
