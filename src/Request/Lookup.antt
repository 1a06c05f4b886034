-- ===== src/Request/Lookup.antt =====
-- Headers are found whatever the case of their names.
use xnetty.Prelude.{
  ◌≡◌, ◌↔◌, refl, sym, ap, ap₂, ◌∙◌, inl, inr, [], ◌∷◌, Bool, true, none, some, if◌then◌else◌,
  arith, Bool-cases, Option-cases,
}
use xnetty.Prelude.Text.{Text, text_eq, text_eq_iff}
use xnetty.Response.{HeaderList}
use xnetty.Request.{to_lower, eq_fold, find_exact, find_fold, find_header}

-- A text in lower case.
unfoldable pub fold : Text → Text
fold [] = []
fold (x ∷ xs) = to_lower x ∷ fold xs

eq_fold_iff : (xs ys : Text) → (eq_fold xs ys ≡ true) ↔ (fold xs ≡ fold ys)
unfolding eq_fold fold
eq_fold_iff [] [] = ground arith
eq_fold_iff [] (y ∷ ys) = ground arith
eq_fold_iff (x ∷ xs) [] = ground arith
eq_fold_iff (x ∷ xs) (y ∷ ys) = ground (arith, eq_fold_iff xs ys)

same_fold : (k a b : Text) → fold a ≡ fold b → eq_fold k a ≡ eq_fold k b
same_fold k a b e = ground (arith, eq_fold_iff k a, eq_fold_iff k b)

find_fold-same :
    (a b : Text) (headers : HeaderList)
    → fold a ≡ fold b
    → find_fold a headers ≡ find_fold b headers
unfolding find_fold
find_fold-same a b [] e = refl
find_fold-same a b ((k, v) ∷ headers) e =
    ap₂ (λ (t : Bool) o. if t then some v else o) (same_fold k a b e) (find_fold-same a b headers e)

-- No two headers have names that differ by case at most.
abbrev pub FoldUnique : HeaderList → Type 0
FoldUnique [] = Unit
FoldUnique ((k, v) ∷ headers) = (find_fold k headers ≡ none) × FoldUnique headers

find_exact-fold :
    (key v : Text) (headers : HeaderList)
    → FoldUnique headers
    → find_exact key headers ≡ some v
    → find_fold key headers ≡ some v
unfolding find_exact find_fold
find_exact-fold key v [] u e = ground arith
find_exact-fold key v ((k, w) ∷ headers) u e = elim (Bool-cases (text_eq k key)) [
  | inl t ↦
      let same : k ≡ key = (text_eq_iff k key).0 t in
      let f : eq_fold k key ≡ true = (eq_fold_iff k key).1 (ap fold same) in rw f (rw t at e)
  | inr t ↦
      let later = find_exact-fold key v headers u.1 (rw t at e) in
      elim (Bool-cases (eq_fold k key)) [
        | inl f ↦
            let clash : find_fold k headers ≡ some v =
              find_fold-same k key headers ((eq_fold_iff k key).0 f) ∙ later in
            absurd (let n = u.0 in ground arith)
        | inr f ↦ rw f later
      ]
]

find_header-fold :
    (key : Text) (headers : HeaderList)
    → FoldUnique headers
    → find_header key headers ≡ find_fold key headers
unfolding find_header
find_header-fold key headers u = elim (Option-cases (find_exact key headers)) [
  | inl n ↦ rw n refl
  | inr (v, e) ↦ rw (e, find_exact-fold key v headers u e) refl
]

-- Where no two headers have names that differ by case at most, `header` finds the same for keys that
-- differ by case.
pub find_header-caseless :
    (a b : Text) (headers : HeaderList)
    → FoldUnique headers
    → fold a ≡ fold b
    → find_header a headers ≡ find_header b headers
find_header-caseless a b headers u e =
    find_header-fold a headers u ∙ find_fold-same a b headers e ∙ sym (find_header-fold b headers u)
