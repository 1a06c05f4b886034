-- ===== src/Topics/Leaving.antt =====
-- `freeSubscriber` takes a subscriber out of every topic.
use xnetty.Prelude.{
  ℕ, suc, ◌≡◌, refl, sym, ap, ◌∙◌, inl, inr, List, [], ◌∷◌, Bool, true, false, not, ◌&&◌, ◌||◌,
  Option, none, some, ◌==◌, ==_refl, if◌then◌else◌, arith, length, Bool-cases, Option-cases,
}
use xnetty.Prelude.Text.{Text, text_eq, text_eq_iff, text_eq_refl}
use xnetty.Topics.{
  TopicTree, has, has_text, erase, erase_text, members_of, set_topic, leave, leave_all,
}
use xnetty.Topics.Sets.{has-erase, has_text-erase_text}

-- No name twice: `topics` of a subscriber is a set.
abbrev pub Distinct : List Text → Type 0
Distinct [] = Unit
Distinct (x ∷ xs) = (has_text x xs ≡ false) × Distinct xs

-- What a topic is left with: a topic with one subscriber is removed whole.
abbrev left_with : ℕ → List ℕ → Option (List ℕ)
left_with s ms = if length ms == 1 then none else some (erase s ms)

has-left_with :
    (i s : ℕ) (ms : List ℕ)
    → has s ms ≡ true
    → has i (members_of (left_with s ms)) ≡ has i (erase s ms)
unfolding has erase
has-left_with i s [] h = refl
has-left_with i s (x ∷ []) h = let e : (x == s) ≡ true = ground arith in rw e refl
has-left_with i s (x ∷ y ∷ ms) h =
    let more : (suc (suc (length ms)) == 1) ≡ false = ground arith in rw more refl

leave-members :
    (i s : ℕ) (x n : Text) (t : TopicTree)
    → has s (members_of (t.topics x)) ≡ true
    → has i (members_of ((leave s x t).topics n))
      ≡ not (s == i && text_eq x n) && has i (members_of (t.topics n))
unfolding leave set_topic has
leave-members i s x n t h = elim (Option-cases (t.topics x)) [
  | inl e ↦ absurd (let k = rw e at h in ground arith)
  | inr (ms, e) ↦
      let member : has s ms ≡ true = rw e at h in
      let gone = has-left_with i s ms member ∙ has-erase i s ms in
      elim (Bool-cases (text_eq x n)) [
        | inl q ↦
            let was : has i ms ≡ has i (members_of (t.topics n)) =
              ap (λ o. has i (members_of o)) (sym e)
              ∙ ap (λ m. has i (members_of (t.topics m))) ((text_eq_iff x n).0 q) in
            elim (Bool-cases (s == i)) [
              | inl f ↦ rw (leave, e, q, f) (gone ∙ rw f refl)
              | inr f ↦ rw (leave, e, q, f) (gone ∙ rw f was)
            ]
        | inr q ↦ elim (Bool-cases (s == i)) [
          | inl f ↦ rw (leave, e, q, f) refl
          | inr f ↦ rw (leave, e, q, f) refl
        ]
      ]
]

leave-topics_of :
    (s : ℕ) (x : Text) (t : TopicTree) (i : ℕ) → (leave s x t).topics_of i ≡ t.topics_of i
unfolding leave set_topic
leave-topics_of s x t i = elim (Option-cases (t.topics x)) [
  | inl e ↦ rw (leave, e) refl
  | inr (ms, e) ↦ rw (leave, e) refl
]

pub leave_all-topics_of :
    (s : ℕ) (names : List Text) (t : TopicTree) (i : ℕ)
    → (leave_all s names t).topics_of i ≡ t.topics_of i
unfolding leave_all
leave_all-topics_of s [] t i = refl
leave_all-topics_of s (x ∷ xs) t i =
    leave_all-topics_of s xs (leave s x t) i ∙ leave-topics_of s x t i

absent_ne :
    (x n : Text) (xs : List Text)
    → has_text x xs ≡ false
    → has_text n xs ≡ true
    → text_eq x n ≡ false
absent_ne x n xs a h = elim (Bool-cases (text_eq x n)) [
  | inl q ↦ absurd (
      let k : has_text x xs ≡ true = ap (λ y. has_text y xs) ((text_eq_iff x n).0 q) ∙ h in
      ground arith)
  | inr q ↦ q
]

two_leave : (a b c m : Bool) → not (a && c) && (not (a && b) && m) ≡ not (a && (b || c)) && m
two_leave true true true m = refl
two_leave true true false m = refl
two_leave true false true m = refl
two_leave true false false m = refl
two_leave false b c m = refl

-- A subscriber leaves the topics that are named, in all of which it is; the others are left alone.
pub leave_all-members :
    (s : ℕ) (names : List Text) (t : TopicTree) (i : ℕ) (n : Text)
    → Distinct names
    → ((k : Text) → has_text k names ≡ true → has s (members_of (t.topics k)) ≡ true)
    → has i (members_of ((leave_all s names t).topics n))
      ≡ not (s == i && has_text n names) && has i (members_of (t.topics n))
unfolding leave_all has_text
leave_all-members s [] t i n d h = elim (Bool-cases (s == i)) [
  | inl e ↦ rw e refl
  | inr e ↦ rw e refl
]
leave_all-members s (x ∷ xs) t i n (new, d) h =
    let first : has s (members_of (t.topics x)) ≡ true = h x (rw (text_eq_refl x) refl) in
    let still : (k : Text)
        → has_text k xs ≡ true
        → has s (members_of ((leave s x t).topics k)) ≡ true =
      λ k later.
        let ne = absent_ne x k xs new later in
        leave-members s s x k t first ∙ rw (==_refl s, ne) (h k (rw ne later)) in
    leave_all-members s xs (leave s x t) i n d still
    ∙ ap (λ b. not (s == i && has_text n xs) && b) (leave-members i s x n t first)
    ∙ two_leave (s == i) (text_eq x n) (has_text n xs) (has i (members_of (t.topics n)))

pub Distinct-erase_text :
    (name : Text) (xs : List Text) → Distinct xs → Distinct (erase_text name xs)
unfolding erase_text
Distinct-erase_text name [] d = tt
Distinct-erase_text name (x ∷ xs) (new, d) = elim (Bool-cases (text_eq x name)) [
  | inl q ↦ rw q (Distinct-erase_text name xs d)
  | inr q ↦
      let gone : has_text x (erase_text name xs) ≡ false =
        has_text-erase_text x name xs
        ∙ elim (Bool-cases (text_eq name x)) [ inl f ↦ rw f refl | inr f ↦ rw f new ] in
      rw q (gone, Distinct-erase_text name xs d)
]
