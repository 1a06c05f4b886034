-- ===== src/Topics.antt =====
-- The class `TopicTree` (include/xnetty/websocket/topic_tree.h, src/websocket/topic_tree.cpp): who is
-- subscribed to what, known on both sides, and the delivery of messages. A subscriber is a number, and
-- a topic is known by its name, which no other topic has. Every operation runs under the lock.
pub mod Sets
pub mod Leaving
pub mod Agree
pub mod Links
mod Tests
use xnetty.Prelude.{
  ℕ, List, [], ◌∷◌, Bool, true, false, not, ◌&&◌, ◌||◌, Option, none, some, ◌==◌, if◌then◌else◌,
  length,
}
use xnetty.Prelude.Text.{Text, text_eq}

unfoldable pub has : ℕ → List ℕ → Bool
has s [] = false
has s (x ∷ xs) = x == s || has s xs

unfoldable pub has_text : Text → List Text → Bool
has_text t [] = false
has_text t (x ∷ xs) = text_eq x t || has_text t xs

-- `insert` and `erase` of the sets.
unfoldable pub insert : ℕ → List ℕ → List ℕ
insert s xs = if has s xs then xs else s ∷ xs

unfoldable pub erase : ℕ → List ℕ → List ℕ
erase s [] = []
erase s (x ∷ xs) = let rest = erase s xs in if x == s then rest else x ∷ rest

unfoldable pub erase_text : Text → List Text → List Text
erase_text t [] = []
erase_text t (x ∷ xs) = let rest = erase_text t xs in if text_eq x t then rest else x ∷ rest

-- `topics` of the tree by name, with the subscribers of each, and `topics` of every subscriber.
pub record TopicTree : Type 0 where
  pub topics : Text → Option (List ℕ)
  pub topics_of : ℕ → List Text

unfoldable pub create : TopicTree
create = record { topics = λ name. none; topics_of = λ s. [] }

abbrev pub members_of : Option (List ℕ) → List ℕ
members_of none = []
members_of (some ms) = ms

unfoldable pub set_topic : Text → Option (List ℕ) → TopicTree → TopicTree
set_topic name ms t = record t { topics = λ n. if text_eq name n then ms else t.topics n }

unfoldable pub set_subscriber : ℕ → List Text → TopicTree → TopicTree
set_subscriber s names t = record t { topics_of = λ i. if s == i then names else t.topics_of i }

-- With whether there was no subscription yet; the topic is made in any case.
unfoldable pub subscribe : ℕ → Text → TopicTree → Bool × TopicTree
subscribe s name t =
    let ms = members_of (t.topics name) in
    if has_text name (t.topics_of s)
    then (false, set_topic name (some ms) t)
    else (true, set_topic name (some (insert s ms)) (set_subscriber s (name ∷ t.topics_of s) t))

abbrev pub no_members : List ℕ → Bool
no_members [] = true
no_members (_ ∷ _) = false

abbrev no_names : List Text → Bool
no_names [] = true
no_names (_ ∷ _) = false

-- A topic without subscribers is removed.
abbrev pub kept : List ℕ → Option (List ℕ)
kept ms = if no_members ms then none else some ms

-- The result is whether there was a subscription, whether it was the last one of this subscriber, and
-- how many subscribers the topic has left; `none` stands for -1.
unfoldable pub unsubscribe : ℕ → Text → TopicTree → (Bool × Bool × Option ℕ) × TopicTree
unsubscribe s name t = elim (t.topics name) [
  | none ↦ ((false, false, none), t)
  | some ms ↦
      let names = erase_text name (t.topics_of s) in
      let left = erase s ms in
      if has_text name (t.topics_of s)
      then (
        (true, no_names names, some (length left)),
        set_topic name (kept left) (set_subscriber s names t),
      )
      else ((false, false, none), t)
]

-- The loop of `freeSubscriber`: a topic with one subscriber is removed, of any other it is erased.
unfoldable pub leave : ℕ → Text → TopicTree → TopicTree
leave s name t = elim (t.topics name) [
  | none ↦ t
  | some ms ↦ set_topic name (if length ms == 1 then none else some (erase s ms)) t
]

unfoldable pub leave_all : ℕ → List Text → TopicTree → TopicTree
leave_all s [] t = t
leave_all s (name ∷ names) t = leave_all s names (leave s name t)

unfoldable pub free_subscriber : ℕ → TopicTree → TopicTree
free_subscriber s t = set_subscriber s [] (leave_all s (t.topics_of s) t)

-- The sender may be null.
abbrev pub is_sender : Option ℕ → ℕ → Bool
is_sender none s = false
is_sender (some i) s = i == s

-- The subscribers that `publish` calls, and whether there is one.
unfoldable pub receivers : Option ℕ → List ℕ → List ℕ
receivers sender [] = []
receivers sender (s ∷ ms) =
    let rest = receivers sender ms in if is_sender sender s then rest else s ∷ rest

unfoldable pub publish : Option ℕ → Text → TopicTree → Bool × List ℕ
publish sender name t =
    let called = receivers sender (members_of (t.topics name)) in (not (no_members called), called)

-- Subscriptions made and ended, and subscribers removed.
pub data Command : Type 0 where
  subscribing unsubscribing : ℕ → Text → Command
  freeing : ℕ → Command

unfoldable pub apply : Command → TopicTree → TopicTree
apply (subscribing s name) t = (subscribe s name t).1
apply (unsubscribing s name) t = (unsubscribe s name t).1
apply (freeing s) t = free_subscriber s t

unfoldable pub run : List Command → TopicTree → TopicTree
run [] t = t
run (c ∷ commands) t = run commands (apply c t)
