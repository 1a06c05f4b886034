-- ===== src/Topics/Links.antt =====
-- Messages reach who is subscribed.
use xnetty.Prelude.{
  ℕ, ◌≡◌, refl, subst, sym, ap, ◌∙◌, inl, inr, List, [], ◌∷◌, Bool, true, false, not, ◌&&◌, Option,
  ◌==◌, ==_iff, Bool-cases, Option-cases,
}
use xnetty.Prelude.Text.{Text}
use xnetty.Topics.{
  TopicTree, create, has, has_text, members_of, set_subscriber, subscribe, unsubscribe, is_sender,
  publish, free_subscriber, Command, freeing, subscribing, unsubscribing, apply, run,
}
use xnetty.Topics.Leaving.{Distinct, leave_all-members, leave_all-topics_of}
use xnetty.Topics.Sets.{has-receivers}
use xnetty.Topics.Agree.{
  Wants, wish, wishes, Agrees, subscribe-again, subscribe-first, unsubscribe-none, unsubscribe-one,
}

never : (b : Bool) → not b && b ≡ false
never true = refl
never false = refl

pub free-Agrees :
    (s : ℕ) (t : TopicTree) (f : Wants)
    → Agrees t f
    → Agrees (free_subscriber s t) (wish (freeing s) f)
unfolding free_subscriber set_subscriber wish has_text
free-Agrees s t f a =
    let names = t.topics_of s in
    let member : (k : Text) → has_text k names ≡ true → has s (members_of (t.topics k)) ≡ true =
      λ k h. a.members s k ∙ sym (a.names s k) ∙ h in
    record {
      distinct = λ i. elim (Bool-cases (s == i)) [
        | inl e ↦ rw e tt
        | inr e ↦ rw e (subst Distinct (sym (leave_all-topics_of s names t i)) (a.distinct i))
      ];
      names = λ i n. elim (Bool-cases (s == i)) [
        | inl e ↦ rw e refl
        | inr e ↦ rw e (ap (has_text n) (leave_all-topics_of s names t i) ∙ a.names i n)
      ];
      members = λ i n.
          let gone = leave_all-members s names t i n (a.distinct s) member in
          elim (Bool-cases (s == i)) [
            | inl e ↦
                let same : has_text n names ≡ has i (members_of (t.topics n)) =
                  ap (λ j. has_text n (t.topics_of j)) ((==_iff s i).0 e)
                  ∙ a.names i n
                  ∙ sym (a.members i n) in
                rw e (gone ∙ rw (e, same) (never (has i (members_of (t.topics n)))))
            | inr e ↦ rw e (gone ∙ rw e (a.members i n))
          ];
    }

pub apply-Agrees :
    (c : Command) (t : TopicTree) (f : Wants) → Agrees t f → Agrees (apply c t) (wish c f)
unfolding apply subscribe unsubscribe has
apply-Agrees (subscribing s name) t f a = elim (Bool-cases (has_text name (t.topics_of s))) [
  | inl old ↦ rw (old, apply, subscribe) (subscribe-again t f a s name old)
  | inr new ↦ rw (new, apply, subscribe) (subscribe-first t f a s name new)
]
apply-Agrees (freeing s) t f a = free-Agrees s t f a
apply-Agrees (unsubscribing s name) t f a = elim (Option-cases (t.topics name)) [
  | inl e ↦
      let free : f s name ≡ false = sym (a.members s name) ∙ rw e refl in
      rw (e, apply, unsubscribe) (unsubscribe-none t f a s name free)
  | inr (ms, e) ↦ elim (Bool-cases (has_text name (t.topics_of s))) [
    | inl old ↦ rw (e, old, apply, unsubscribe) (unsubscribe-one t f a s name ms e)
    | inr new ↦
        rw (e, new, apply, unsubscribe) (unsubscribe-none t f a s name (sym (a.names s name) ∙ new))
  ]
]

run-Agrees :
    (commands : List Command) (t : TopicTree) (f : Wants)
    → Agrees t f
    → Agrees (run commands t) (wishes commands f)
unfolding run wishes
run-Agrees [] t f a = a
run-Agrees (c ∷ commands) t f a = run-Agrees commands (apply c t) (wish c f) (apply-Agrees c t f a)

abbrev pub nobody : Wants
nobody i n = false

pub create-Agrees : Agrees create nobody
unfolding create has has_text
create-Agrees = record { distinct = λ i. tt; names = λ i n. refl; members = λ i n. refl }

-- After any subscriptions made and ended and any subscribers removed, a message to a topic reaches
-- exactly the subscribers that subscribed to it and have neither ended this subscription nor been
-- removed since, the sender left out.
pub run-receivers :
    (commands : List Command) (sender : Option ℕ) (name : Text) (i : ℕ)
    → has i (publish sender name (run commands create)).1
      ≡ not (is_sender sender i) && wishes commands nobody i name
unfolding publish
run-receivers commands sender name i =
    let a = run-Agrees commands create nobody create-Agrees in
    has-receivers i sender (members_of ((run commands create).topics name))
    ∙ ap (λ b. not (is_sender sender i) && b) (a.members i name)
