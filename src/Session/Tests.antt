-- ===== src/Session/Tests.antt =====
-- A session at work, and the theorems at concrete inputs.
use xnetty.Prelude.{◌≡◌, inl, refl, List, [], ◌∷◌, false, none, some, arith}
use xnetty.Timer.{TimerWheel, add_timer}
use xnetty.Topics.{TopicTree, create, has, members_of, apply, subscribing}
use xnetty.Topics.Agree.{wish}
use xnetty.Topics.Links.{nobody, create-Agrees, apply-Agrees}
use xnetty.WebSocket.{WebSocketFrame, text, close}
use xnetty.Session.{
  Session, Timeout, send_ping, timeout, closing, run, step, schedule_ping, cancel_timers, frame,
  ping, pong, on_open, on_message, on_close, cancel_ping, cancel_pong, on_timeout, open_first,
  answer, channel_read, channel_inactive, send, close_with,
}
use xnetty.Session.Timers.{IsOneTimer, run-IsOneTimer, cancel_timers-first}
use xnetty.Session.Replies.{reads, all_of, replies, told, run-replies}
use xnetty.Session.Ended.{step-ends, ends}
use xnetty.Prelude.Text.{Text, codes}

abbrev wheel : TimerWheel Timeout
wheel = record {
  num_slots = 4;
  tick_ms = 10;
  current_tick = 0;
  next_id = 0;
  slots = [] ∷ [] ∷ [] ∷ [] ∷ [];
}

abbrev fresh : Session
fresh = record {
  opened = false;
  waiting_pong = false;
  ping_timer_id = 0;
  pong_timer_id = 0;
  sub = none;
  wheel = wheel;
  tree = create;
  written = [];
  calls = [];
  activity = 0;
  shut = false;
}

abbrev frames : List WebSocketFrame
frames = frame text (1 ∷ []) ∷ frame ping (2 ∷ []) ∷ frame close (3 ∷ []) ∷ []

all_open : Unit {0}
unfolding cancel_ping cancel_pong cancel_timers schedule_ping on_timeout open_first answer
    channel_read channel_inactive send close_with step run
all_open = tt

answered : (run 0 50 (reads frames) fresh).written ≡ frame pong (2 ∷ []) ∷ frame close (3 ∷ []) ∷ []
unfolding all_open
answered = refl

called :
    (run 0 50 (reads frames) fresh).calls ≡ on_open ∷ on_message (1 ∷ []) ∷ on_close (3 ∷ []) ∷ []
unfolding all_open
called = refl

pinged : (run 20 50 (timeout send_ping ∷ timeout send_ping ∷ []) fresh).written ≡ frame ping [] ∷ []
unfolding all_open
pinged = refl

run-replies_example :
    let s' = run 20 50 (reads frames) fresh in
    (s'.written ≡ all_of replies frames) × (s'.calls ≡ on_open ∷ all_of told frames)
run-replies_example =
    run-replies 20 50 (frame text (1 ∷ [])) (frame ping (2 ∷ []) ∷ frame close (3 ∷ []) ∷ []) fresh
      refl

run-IsOneTimer_example : IsOneTimer (run 20 50 (timeout send_ping ∷ reads frames) fresh)
run-IsOneTimer_example =
    run-IsOneTimer 20 50 (timeout send_ping ∷ reads frames) fresh (inl (refl, refl))

cancel_timers-first_example :
    (cancel_timers (schedule_ping 20 50 fresh)).wheel ≡ (add_timer wheel 20 (some send_ping)).0
cancel_timers-first_example = cancel_timers-first 20 50 fresh refl refl refl (λ e. ground arith)

-- Subscriber 3 has subscribed to the topic "a".
abbrev tree : TopicTree
tree = apply (subscribing 3 (codes "a")) create

step-ends_example :
    let s' = step 20 50 (closing 1000 []) (record fresh { sub = some 3; tree = tree }) in
    (s'.sub ≡ none) × ((n : Text) → has 3 (members_of (s'.tree.topics n)) ≡ false)
unfolding ends
step-ends_example =
    step-ends 20 50 3 (closing 1000 []) (wish (subscribing 3 (codes "a")) nobody)
      (record fresh { sub = some 3; tree = tree })
      (apply-Agrees (subscribing 3 (codes "a")) create nobody create-Agrees) refl refl
