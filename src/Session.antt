-- ===== src/Session.antt =====
-- One WebSocket connection: the classes `WebSocketHandler` (include/xnetty/websocket/websocket_handler.h,
-- src/websocket/websocket_handler.cpp) and `WebSocket` (include/xnetty/websocket/web_socket.h,
-- src/websocket/web_socket.cpp), with the timers of its loop and the tree of topics. The application's
-- callbacks are recorded; what they do through the `WebSocket` is a list of events that follow.
pub mod Timers
pub mod Replies
pub mod Ended
mod Tests
use xnetty.Prelude.{
  ℕ, ◌+◌, ◌/◌, ◌%◌, List, [], ◌∷◌, ◌++◌, Bool, true, false, Option, none, some, ◌==◌, if◌then◌else◌,
}
use xnetty.Prelude.Text.{Text}
use xnetty.Timer.{TimerWheel, add_timer, cancel_timer}
use xnetty.Topics.{TopicTree, subscribe, unsubscribe, free_subscriber}
use xnetty.WebSocket.{WebSocketFrame, text, close}

abbrev pub binary : ℕ
binary = 2

abbrev pub ping : ℕ
ping = 9

abbrev pub pong : ℕ
pong = 10

-- What the loop's timers of this connection do; `other` are the timers of other ones.
pub data Timeout : Type 0 where
  send_ping close_late : Timeout
  other : ℕ → Timeout

-- The callbacks of the application; `onClose` gets the code 0.
pub data Call : Type 0 where
  on_open : Call
  on_message on_binary on_close : List ℕ → Call

-- The fields of `WsState`, and around it: the wheel of the loop, the tree of topics, the frames that
-- were written, the callbacks that were called, how often `signalActivity` was called, and whether
-- `Context::close` was.
pub record Session : Type 0 where
  pub opened : Bool
  pub waiting_pong : Bool
  pub ping_timer_id : ℕ
  pub pong_timer_id : ℕ
  pub sub : Option ℕ
  pub wheel : TimerWheel Timeout
  pub tree : TopicTree
  pub written : List WebSocketFrame
  pub calls : List Call
  pub activity : ℕ
  pub shut : Bool

abbrev pub frame : ℕ → List ℕ → WebSocketFrame
frame opcode payload = record {
  opcode = opcode;
  fin = true;
  mask = false;
  masking_key = 0 ∷ 0 ∷ 0 ∷ 0 ∷ [];
  payload = payload;
}

abbrev pub write : WebSocketFrame → Session → Session
write f s = record s { written = s.written ++ (f ∷ []) }

abbrev pub call : Call → Session → Session
call c s = record s { calls = s.calls ++ (c ∷ []) }

abbrev pub signal_activity : Session → Session
signal_activity s = record s { activity = s.activity + 1 }

-- An id of 0 counts as no timer.
unfoldable pub cancel_ping : Session → Session
cancel_ping s =
    if s.ping_timer_id == 0
    then s
    else record s { wheel = cancel_timer s.wheel s.ping_timer_id; ping_timer_id = 0 }

unfoldable pub cancel_pong : Session → Session
cancel_pong s =
    if s.pong_timer_id == 0
    then s
    else record s { wheel = cancel_timer s.wheel s.pong_timer_id; pong_timer_id = 0 }

unfoldable pub cancel_timers : Session → Session
cancel_timers s = record (cancel_pong (cancel_ping s)) { waiting_pong = false }

abbrev started : Session → TimerWheel Timeout × ℕ → Session
started s (wheel, id) = record s { wheel = wheel; ping_timer_id = id }

abbrev awaited : Session → TimerWheel Timeout × ℕ → Session
awaited s (wheel, id) = record s { wheel = wheel; pong_timer_id = id }

-- `sTopicTree.freeSubscriber(std::move(sub_))`
abbrev pub free_sub : Option ℕ → Session → Session
free_sub none s = s
free_sub (some i) s = record s { tree = free_subscriber i s.tree; sub = none }

-- `WebSocket::subscribe`; `fresh` is the subscriber that is made if there is none.
abbrev sub_or : ℕ → Option ℕ → ℕ
sub_or fresh none = fresh
sub_or fresh (some i) = i

unfoldable pub subscribe_to : ℕ → Text → Session → Session
subscribe_to fresh topic s = record s {
  sub = some (sub_or fresh s.sub);
  tree = (subscribe (sub_or fresh s.sub) topic s.tree).1;
}

abbrev pub unsubscribe_sub : Option ℕ → Text → Session → Session
unsubscribe_sub none topic s = s
unsubscribe_sub (some i) topic s = record s { tree = (unsubscribe i topic s.tree).1 }

unfoldable pub unsubscribe_from : Text → Session → Session
unsubscribe_from topic s = unsubscribe_sub s.sub topic s

-- `WebSocket::close`
unfoldable pub close_with : ℕ → List ℕ → Session → Session
close_with code reason s =
    write (frame close ((code / 256) % 256 ∷ code % 256 ∷ reason)) (free_sub s.sub s)

-- `true` for a text message.
unfoldable pub send : Bool → List ℕ → Session → Session
send is_text payload s = write (frame (if is_text then text else binary) payload) s

-- `read_other` is a message that is no frame, which is passed on.
pub data Event : Type 0 where
  read : WebSocketFrame → Event
  read_other : Event
  timeout : Timeout → Event
  inactive : Event
  sending : Bool → List ℕ → Event
  closing : ℕ → List ℕ → Event
  subscribing : ℕ → Text → Event
  unsubscribing : Text → Event

-- With the two times of the handler, in milliseconds.
module _ (ping_interval pong_timeout : ℕ) where
  unfoldable pub schedule_ping : Session → Session
  schedule_ping s =
      let s' = cancel_timers s in
      if ping_interval == 0
      then s'
      else started s' (add_timer s'.wheel ping_interval (some send_ping))

  -- The callbacks of the two timers.
  unfoldable pub on_timeout : Timeout → Session → Session
  on_timeout send_ping s =
      let s' : Session = record (signal_activity (write (frame ping []) s)) {
        waiting_pong = true;
        ping_timer_id = 0;
      } in
      if s.waiting_pong then s else awaited s' (add_timer s'.wheel pong_timeout (some close_late))
  on_timeout close_late s = record s { shut = true }
  on_timeout (other n) s = s

  -- `channelRead` behind the first message of a connection.
  unfoldable pub open_first : Session → Session
  open_first s = if s.opened then s else schedule_ping (call on_open (record s { opened = true }))

  unfoldable pub answer : WebSocketFrame → Session → Session
  answer f s =
      if f.opcode == pong
      then schedule_ping (cancel_timers s)
      else if f.opcode == ping
      then schedule_ping (write (frame pong f.payload) s)
      else if f.opcode == text
      then schedule_ping (call (on_message f.payload) s)
      else if f.opcode == binary
      then schedule_ping (call (on_binary f.payload) s)
      else if f.opcode == close
      then (let s' = free_sub s.sub (cancel_timers s) in
          call (on_close f.payload) (write (frame close f.payload) s'))
      else s

  unfoldable pub channel_read : WebSocketFrame → Session → Session
  channel_read f s = answer f (signal_activity (open_first s))

  unfoldable pub channel_inactive : Session → Session
  channel_inactive s = let s' = cancel_timers s in free_sub s'.sub s'

  unfoldable pub step : Event → Session → Session
  step (read f) s = channel_read f s
  step read_other s = open_first s
  step (timeout t) s = on_timeout t s
  step inactive s = channel_inactive s
  step (sending is_text payload) s = send is_text payload s
  step (closing code reason) s = close_with code reason s
  step (subscribing fresh topic) s = subscribe_to fresh topic s
  step (unsubscribing topic) s = unsubscribe_from topic s

  unfoldable pub run : List Event → Session → Session
  run [] s = s
  run (e ∷ events) s = run events (step e s)
