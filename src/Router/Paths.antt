-- ===== src/Router/Paths.antt =====
-- Normalising a path and splitting it into segments.
use xnetty.Prelude.{
  ℕ, ◌≡◌, ◌≢◌, refl, sym, ap, ◌∙◌, List, [], ◌∷◌, ◌++◌, Bool, true, false, ◌&&◌, length, arith, ltb,
  ◌==◌, if◌then◌else◌, Bool-cases, inl, inr,
}
use xnetty.Prelude.Preds.{All, All-append}
use xnetty.Prelude.Text.{Text, is_empty}
use xnetty.Router.{squeeze, drop_last_slash, normalize_path, split_from, split_path}

abbrev pub NoSlash : Text → Type 0
NoSlash = All (λ c. c ≢ b'/')

abbrev pub IsSegment : Text → Type 0
IsSegment seg = (seg ≢ []) × NoSlash seg

-- A segment in front of the others, unless it is empty.
abbrev cons_segment : Text → List Text → List Text
cons_segment [] segs = segs
cons_segment (x ∷ seg) segs = (x ∷ seg) ∷ segs

split_from-nil : (seg : Text) → split_from seg [] ≡ cons_segment seg []
unfolding split_from
split_from-nil [] = refl
split_from-nil (x ∷ seg) = refl

split_from-slash :
    (seg : Text) (c : ℕ) (path : Text)
    → (c == b'/') ≡ true
    → split_from seg (c ∷ path) ≡ cons_segment seg (split_from [] path)
unfolding split_from
split_from-slash [] c path t = rw t
split_from-slash (x ∷ seg) c path t = rw t

split_from-other :
    (seg : Text) (c : ℕ) (path : Text)
    → (c == b'/') ≡ false
    → split_from seg (c ∷ path) ≡ split_from (seg ++ (c ∷ [])) path
unfolding split_from
split_from-other seg c path t = rw t

cons_segment-All :
    (seg : Text) (segs : List Text)
    → NoSlash seg
    → All IsSegment segs
    → All IsSegment (cons_segment seg segs)
cons_segment-All [] segs h k = k
cons_segment-All (x ∷ seg) segs h k = ((λ e. cc, h), k)

split_from-IsSegment : (seg path : Text) → NoSlash seg → All IsSegment (split_from seg path)
split_from-IsSegment seg [] h = rw (split_from-nil seg) (cons_segment-All seg [] h tt)
split_from-IsSegment seg (c ∷ path) h = elim (Bool-cases (c == b'/')) [
  | inl t ↦
      rw (split_from-slash seg c path t)
        (cons_segment-All seg (split_from [] path) h (split_from-IsSegment [] path tt))
  | inr t ↦ rw (split_from-other seg c path t) (
      split_from-IsSegment (seg ++ (c ∷ [])) path
        (All-append (λ d. d ≢ b'/') seg (c ∷ []) h (ground arith, tt)))
]

-- Every segment of a path is not empty and holds no slash.
pub split_path-IsSegment : (path : Text) → All IsSegment (split_path path)
unfolding split_path
split_path-IsSegment path = split_from-IsSegment [] path tt

-- No two slashes in a row, and none at the front if a slash stands before.
abbrev Squeezed : Bool → Text → Type 0
Squeezed last [] = Unit
Squeezed last (c ∷ path) = ((c == b'/' && last) ≡ false) × Squeezed (c == b'/') path

squeeze-Squeezed : (last : Bool) (path : Text) → Squeezed last (squeeze last path)
unfolding squeeze
squeeze-Squeezed last [] = tt
squeeze-Squeezed last (c ∷ path) = elim (Bool-cases (c == b'/' && last)) [
  | inl t ↦ ground (arith, squeeze-Squeezed (c == b'/') path)
  | inr t ↦ rw t (t, squeeze-Squeezed (c == b'/') path)
]

squeeze_of_Squeezed : (last : Bool) (path : Text) → Squeezed last path → squeeze last path ≡ path
unfolding squeeze
squeeze_of_Squeezed last [] h = refl
squeeze_of_Squeezed last (c ∷ path) (p, h) = rw (p, squeeze_of_Squeezed (c == b'/') path h)

drop_last_slash-Squeezed :
    (last : Bool) (path : Text) → Squeezed last path → Squeezed last (drop_last_slash path)
unfolding drop_last_slash
drop_last_slash-Squeezed last [] h = tt
drop_last_slash-Squeezed last (c ∷ path) (p, h) = elim (Bool-cases (is_empty path && c == b'/')) [
  | inl t ↦ rw t tt
  | inr t ↦ rw t (p, drop_last_slash-Squeezed (c == b'/') path h)
]

drop_last_slash_twice :
    (last : Bool) (path : Text)
    → Squeezed last path
    → drop_last_slash (drop_last_slash path) ≡ drop_last_slash path
unfolding drop_last_slash
drop_last_slash_twice last [] h = refl
drop_last_slash_twice last (c ∷ []) (p, h) = ground arith
drop_last_slash_twice last (c ∷ d ∷ path) (p, (q, h)) =
    elim (Bool-cases (is_empty path && d == b'/')) [
      | inl t ↦ rw t (ground arith)
      | inr t ↦
          rw t (ap (λ l. c ∷ l) (rw t at (drop_last_slash_twice (c == b'/') (d ∷ path) (q, h))))
    ]

split-squeeze :
    (last : Bool) (seg path : Text)
    → (last ≡ true → seg ≡ [])
    → split_from seg (squeeze last path) ≡ split_from seg path
unfolding squeeze
split-squeeze last seg [] h = refl
split-squeeze last seg (c ∷ path) h = elim (Bool-cases (c == b'/')) [
  | inl t ↦
      let ih : split_from [] (squeeze true path) ≡ split_from [] path =
        split-squeeze true [] path (λ e. refl) in
      rw (t, split_from-slash seg c path t) (slash last h t ih)
  | inr t ↦
      rw (t, split_from-other seg c (squeeze false path) t, split_from-other seg c path t)
        (split-squeeze false (seg ++ (c ∷ [])) path (λ e. cc))
]
  where
    slash :
        (l : Bool)
        → (l ≡ true → seg ≡ [])
        → (c == b'/') ≡ true
        → split_from [] (squeeze true path) ≡ split_from [] path
        → split_from seg (if true && l then squeeze true path else c ∷ squeeze true path)
          ≡ cons_segment seg (split_from [] path)
    slash true k t ih = rw (k refl) ih
    slash false k t ih = split_from-slash seg c (squeeze true path) t ∙ ap (cons_segment seg) ih

split-drop_last_slash :
    (seg path : Text) → split_from seg (drop_last_slash path) ≡ split_from seg path
unfolding drop_last_slash
split-drop_last_slash seg [] = refl
split-drop_last_slash seg (c ∷ []) = elim (Bool-cases (c == b'/')) [
  | inl t ↦ rw (t, split_from-slash seg c [] t, split_from-nil seg, split_from-nil [])
  | inr t ↦ rw t
]
split-drop_last_slash seg (c ∷ d ∷ path) = elim (Bool-cases (c == b'/')) [
  | inl t ↦
      split_from-slash seg c _ t
      ∙ ap (cons_segment seg) (split-drop_last_slash [] (d ∷ path))
      ∙ sym (split_from-slash seg c (d ∷ path) t)
  | inr t ↦
      split_from-other seg c _ t
      ∙ split-drop_last_slash (seg ++ (c ∷ [])) (d ∷ path)
      ∙ sym (split_from-other seg c (d ∷ path) t)
]

-- Normalising a path does not change its segments.
pub split-normalize : (path : Text) → split_path (normalize_path path) ≡ split_path path
unfolding split_path normalize_path
split-normalize path = elim (Bool-cases (ltb 1 (length (squeeze false path)))) [
  | inl t ↦
      rw t (split-drop_last_slash [] (squeeze false path) ∙ split-squeeze false [] path (λ e. refl))
  | inr t ↦ rw t (split-squeeze false [] path (λ e. refl))
]

normalize_fixed :
    (path : Text)
    → squeeze false path ≡ path
    → drop_last_slash path ≡ path
    → normalize_path path ≡ path
unfolding normalize_path
normalize_fixed path s d = rw s (ground arith)

-- Normalising a path a second time changes nothing.
pub normalize_idempotent :
    (path : Text) → normalize_path (normalize_path path) ≡ normalize_path path
unfolding normalize_path
normalize_idempotent path = elim (Bool-cases (ltb 1 (length out))) [
  | inl t ↦ rw t (
      normalize_fixed (drop_last_slash out)
        (squeeze_of_Squeezed false _ (drop_last_slash-Squeezed false out squeezed))
        (drop_last_slash_twice false out squeezed))
  | inr t ↦ rw (t, squeeze_of_Squeezed false out squeezed, t)
]
  where
    out : Text
    out = squeeze false path

    squeezed : Squeezed false out
    squeezed = squeeze-Squeezed false path
