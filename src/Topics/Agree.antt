-- ===== src/Topics/Agree.antt =====
-- What it means that both sides of a subscription agree, and that subscribing and unsubscribing keep it.
use xnetty.Prelude.{
  ℕ, ◌≡◌, refl, sym, ap, ap₂, ◌∙◌, inl, inr, List, [], ◌∷◌, Bool, true, false, not, ◌&&◌, ◌||◌,
  some, ◌==◌, ==_iff, if◌then◌else◌, Bool-cases,
}
use xnetty.Prelude.Text.{Text, text_eq, text_eq_iff}
use xnetty.Topics.{
  TopicTree, has, has_text, insert, erase, erase_text, members_of, kept, set_topic, set_subscriber,
  Command, freeing, subscribing, unsubscribing,
}
use xnetty.Topics.Leaving.{Distinct, Distinct-erase_text}
use xnetty.Topics.Sets.{has-erase, has-insert, has_text-erase_text}

-- Who wants what, as the commands say.
abbrev pub Wants : Type 0
Wants = ℕ → Text → Bool

unfoldable pub wish : Command → Wants → Wants
wish (subscribing s name) f = λ i n. (s == i && text_eq name n) || f i n
wish (freeing s) f = λ i n. not (s == i) && f i n
wish (unsubscribing s name) f = λ i n. not (s == i && text_eq name n) && f i n

unfoldable pub wishes : List Command → Wants → Wants
wishes [] f = f
wishes (c ∷ commands) f = wishes commands (wish c f)

-- Both sides of the tree say who is subscribed to what.
pub record Agrees (t : TopicTree) (f : Wants) : Type 0 where
  pub names : (i : ℕ) (n : Text) → has_text n (t.topics_of i) ≡ f i n
  pub distinct : (i : ℕ) → Distinct (t.topics_of i)
  pub members : (i : ℕ) (n : Text) → has i (members_of (t.topics n)) ≡ f i n

members-kept : (i : ℕ) (ms : List ℕ) → has i (members_of (kept ms)) ≡ has i ms
members-kept i [] = refl
members-kept i (x ∷ xs) = refl

-- Another wish for what is wanted, or against what is not, changes nothing.
wished :
    (f : Wants) (s i : ℕ) (name n : Text)
    → f s name ≡ true
    → (s == i && text_eq name n) || f i n ≡ f i n
wished f s i name n h = elim (Bool-cases (s == i)) [
  | inl e ↦ elim (Bool-cases (text_eq name n)) [
    | inl x ↦
        let now : f i n ≡ true =
          ap₂ f (sym ((==_iff s i).0 e)) (sym ((text_eq_iff name n).0 x)) ∙ h in
        rw (e, x, now) refl
    | inr x ↦ rw (e, x) refl
  ]
  | inr e ↦ rw e refl
]

unwished :
    (f : Wants) (s i : ℕ) (name n : Text)
    → f s name ≡ false
    → not (s == i && text_eq name n) && f i n ≡ f i n
unwished f s i name n h = elim (Bool-cases (s == i)) [
  | inl e ↦ elim (Bool-cases (text_eq name n)) [
    | inl x ↦
        let now : f i n ≡ false =
          ap₂ f (sym ((==_iff s i).0 e)) (sym ((text_eq_iff name n).0 x)) ∙ h in
        rw (e, x, now) refl
    | inr x ↦ rw (e, x) refl
  ]
  | inr e ↦ rw e refl
]

module _ (t : TopicTree) (f : Wants) (a : Agrees t f) (s : ℕ) (name : Text) where
  here_members :
      (i : ℕ) (n : Text) → text_eq name n ≡ true → has i (members_of (t.topics name)) ≡ f i n
  here_members i n x =
      ap (λ m. has i (members_of (t.topics m))) ((text_eq_iff name n).0 x) ∙ a.members i n

  here_names : (i : ℕ) (n : Text) → (s == i) ≡ true → has_text n (t.topics_of s) ≡ f i n
  here_names i n e = ap (λ j. has_text n (t.topics_of j)) ((==_iff s i).0 e) ∙ a.names i n

  pub subscribe-again :
      has_text name (t.topics_of s) ≡ true
      → Agrees (set_topic name (some (members_of (t.topics name))) t) (wish (subscribing s name) f)
  unfolding wish set_topic
  subscribe-again old =
      let now : f s name ≡ true = sym (a.names s name) ∙ old in
      record {
        distinct = a.distinct;
        names = λ i n. a.names i n ∙ sym (wished f s i name n now);
        members = λ i n.
            let same : has i (
                  members_of
                    (if text_eq name n then some (members_of (t.topics name)) else t.topics n))
                ≡ f i n =
              elim (Bool-cases (text_eq name n)) [
                | inl x ↦ rw x (here_members i n x)
                | inr x ↦ rw x (a.members i n)
              ] in
            same ∙ sym (wished f s i name n now);
      }

  pub subscribe-first :
      has_text name (t.topics_of s) ≡ false
      → Agrees
          (set_topic name
            (some (insert s (members_of (t.topics name))))
            (set_subscriber s (name ∷ t.topics_of s) t))
          (wish (subscribing s name) f)
  unfolding wish set_topic set_subscriber has_text
  subscribe-first new = record {
    distinct = λ i. elim (Bool-cases (s == i)) [
      | inl e ↦ rw e (new, a.distinct s)
      | inr e ↦ rw e (a.distinct i)
    ];
    names = λ i n. elim (Bool-cases (s == i)) [
      | inl e ↦ elim (Bool-cases (text_eq name n)) [
        | inl x ↦ rw (e, x) refl
        | inr x ↦ rw (e, x) (here_names i n e)
      ]
      | inr e ↦ rw e (a.names i n)
    ];
    members = λ i n. elim (Bool-cases (text_eq name n)) [
      | inl x ↦
          let added = has-insert i s (members_of (t.topics name)) in
          elim (Bool-cases (s == i)) [
            | inl e ↦ rw (x, e) (added ∙ rw e refl)
            | inr e ↦ rw (x, e) (added ∙ rw e (here_members i n x))
          ]
      | inr x ↦ elim (Bool-cases (s == i)) [
        | inl e ↦ rw (x, e) (a.members i n)
        | inr e ↦ rw (x, e) (a.members i n)
      ]
    ];
  }

  pub unsubscribe-none : f s name ≡ false → Agrees t (wish (unsubscribing s name) f)
  unfolding wish
  unsubscribe-none free = record {
    distinct = a.distinct;
    names = λ i n. a.names i n ∙ sym (unwished f s i name n free);
    members = λ i n. a.members i n ∙ sym (unwished f s i name n free);
  }

  pub unsubscribe-one :
      (ms : List ℕ)
      → t.topics name ≡ some ms
      → Agrees
          (set_topic name
            (kept (erase s ms))
            (set_subscriber s (erase_text name (t.topics_of s)) t))
          (wish (unsubscribing s name) f)
  unfolding wish set_topic set_subscriber
  unsubscribe-one ms found = record {
    distinct = λ i. elim (Bool-cases (s == i)) [
      | inl e ↦ rw e (Distinct-erase_text name (t.topics_of s) (a.distinct s))
      | inr e ↦ rw e (a.distinct i)
    ];
    names = λ i n. elim (Bool-cases (s == i)) [
      | inl e ↦
          let gone = has_text-erase_text n name (t.topics_of s) in
          elim (Bool-cases (text_eq name n)) [
            | inl x ↦ rw (e, x) (gone ∙ rw x refl)
            | inr x ↦ rw (e, x) (gone ∙ rw x (here_names i n e))
          ]
      | inr e ↦ rw e (a.names i n)
    ];
    members = λ i n. elim (Bool-cases (text_eq name n)) [
      | inl x ↦
          let gone = members-kept i (erase s ms) ∙ has-erase i s ms in
          let was : has i ms ≡ f i n =
            ap (λ o. has i (members_of o)) (sym found) ∙ here_members i n x in
          elim (Bool-cases (s == i)) [
            | inl e ↦ rw (x, e) (gone ∙ rw e refl)
            | inr e ↦ rw (x, e) (gone ∙ rw e was)
          ]
      | inr x ↦ elim (Bool-cases (s == i)) [
        | inl e ↦ rw (x, e) (a.members i n)
        | inr e ↦ rw (x, e) (a.members i n)
      ]
    ];
  }
