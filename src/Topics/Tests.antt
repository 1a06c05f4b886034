-- ===== src/Topics/Tests.antt =====
-- Subscriptions and a message, and the theorem at a concrete input.
use xnetty.Prelude.{◌≡◌, refl, List, [], ◌∷◌, true, not, ◌&&◌, some, none}
use xnetty.Prelude.Text.{codes, text_eq}
use xnetty.Topics.{
  create, has, has_text, insert, erase, erase_text, set_topic, set_subscriber, subscribe,
  unsubscribe, leave, leave_all, free_subscriber, receivers, is_sender, publish, Command, freeing,
  subscribing, unsubscribing, apply, run,
}
use xnetty.Topics.Agree.{wish, wishes}
use xnetty.Topics.Links.{nobody, run-receivers}

all_open : Unit {0}
unfolding text_eq create has has_text insert erase erase_text set_topic set_subscriber subscribe
    unsubscribe leave leave_all free_subscriber receivers publish apply run wish wishes
all_open = tt

abbrev commands : List Command
commands =
    subscribing 1 (codes "a")
    ∷ subscribing 2 (codes "a")
    ∷ subscribing 3 (codes "a")
    ∷ unsubscribing 2 (codes "a")
    ∷ freeing 4
    ∷ subscribing 2 (codes "b")
    ∷ []

published : publish (some 1) (codes "a") (run commands create) ≡ (true, 3 ∷ [])
unfolding all_open
published = refl

freed : publish none (codes "a") (free_subscriber 3 (run commands create)) ≡ (true, 1 ∷ [])
unfolding all_open
freed = refl

last_one : (unsubscribe 2 (codes "b") (run commands create)).0 ≡ (true, true, some 0)
unfolding all_open
last_one = refl

run-receivers_example :
    has 2 (publish (some 1) (codes "a") (run commands create)).1
    ≡ not (is_sender (some 1) 2) && wishes commands nobody 2 (codes "a")
run-receivers_example = run-receivers commands (some 1) (codes "a") 2
