-- ===== src/Topics/Sets.antt =====
-- Who is in a set after an insertion or a removal.
use xnetty.Prelude.{
  ℕ, ◌≡◌, refl, sym, ap, ◌∙◌, inl, inr, List, [], ◌∷◌, true, false, not, ◌&&◌, ◌||◌, Option, none,
  some, ◌==◌, ==_iff, arith, Bool-cases,
}
use xnetty.Prelude.Text.{Text, text_eq, text_eq_iff}
use xnetty.Topics.{has, has_text, insert, erase, erase_text, is_sender, receivers}

pub has-erase : (i s : ℕ) (xs : List ℕ) → has i (erase s xs) ≡ not (s == i) && has i xs
unfolding has erase
has-erase i s [] = ground arith
has-erase i s (x ∷ xs) = let h = has-erase i s xs in ground arith

pub has-insert : (i s : ℕ) (xs : List ℕ) → has i (insert s xs) ≡ (s == i) || has i xs
unfolding has insert
has-insert i s xs = elim (Bool-cases (has s xs)) [
  | inl t ↦ elim (Bool-cases (s == i)) [
    | inl e ↦
        let same : has i xs ≡ true = ap (λ j. has j xs) (sym ((==_iff s i).0 e)) ∙ t in
        rw (t, e) same
    | inr e ↦ rw (t, e) refl
  ]
  | inr t ↦ rw t refl
]

pub has_text-erase_text :
    (n name : Text) (xs : List Text)
    → has_text n (erase_text name xs) ≡ not (text_eq name n) && has_text n xs
unfolding has_text erase_text
has_text-erase_text n name [] = elim (Bool-cases (text_eq name n)) [
  | inl t ↦ rw t refl
  | inr t ↦ rw t refl
]
has_text-erase_text n name (x ∷ xs) =
    let h = has_text-erase_text n name xs in
    elim (Bool-cases (text_eq x name)) [
      | inl t ↦
          let same : text_eq x n ≡ text_eq name n =
            ap (λ y. text_eq y n) ((text_eq_iff x name).0 t) in
          elim (Bool-cases (text_eq name n)) [
            | inl e ↦ rw (t, e) (h ∙ rw e refl)
            | inr e ↦ rw (t, e, same ∙ e) (h ∙ rw e refl)
          ]
      | inr t ↦ elim (Bool-cases (text_eq name n)) [
        | inl e ↦
            let differs : text_eq x n ≡ false =
              ap (text_eq x) (sym ((text_eq_iff name n).0 e)) ∙ t in
            rw (t, e, differs) (h ∙ rw e refl)
        | inr e ↦ rw (t, e) (ap (λ b. text_eq x n || b) (h ∙ rw e refl))
      ]
    ]

pub has-receivers :
    (i : ℕ) (sender : Option ℕ) (xs : List ℕ)
    → has i (receivers sender xs) ≡ not (is_sender sender i) && has i xs
unfolding has receivers
has-receivers i none [] = ground arith
has-receivers i (some s) [] = ground arith
has-receivers i none (x ∷ xs) = let h = has-receivers i none xs in ground arith
has-receivers i (some s) (x ∷ xs) = let h = has-receivers i (some s) xs in ground arith
