-- ===== src/Session/Replies.antt =====
-- What a session answers, and the end of its subscriptions.
use xnetty.Prelude.{
  ℕ, ◌≡◌, refl, sym, ap, ◌∙◌, inl, inr, List, [], ◌∷◌, ◌++◌, append_assoc, append-nil, true, false,
  Option, none, some, ◌==◌, ==_iff, if◌then◌else◌, Bool-cases,
}
use xnetty.WebSocket.{WebSocketFrame, text, close}
use xnetty.Session.{
  Session, Event, read, run, step, schedule_ping, cancel_timers, answer, open_first, channel_read,
  free_sub, binary, ping, pong, frame, Call, call, signal_activity, on_open, on_message, on_binary,
  on_close,
}
use xnetty.Session.Timers.{cancel_timers_lem, schedule_ping_lem}

-- The frames that are written for a frame that came, and the calls of the application.
pub replies : WebSocketFrame → List WebSocketFrame
replies f =
    if f.opcode == ping
    then frame pong f.payload ∷ []
    else if f.opcode == close
    then frame close f.payload ∷ []
    else []

pub told : WebSocketFrame → List Call
told f =
    if f.opcode == text
    then on_message f.payload ∷ []
    else if f.opcode == binary
    then on_binary f.payload ∷ []
    else if f.opcode == close
    then on_close f.payload ∷ []
    else []

abbrev pub reads : List WebSocketFrame → List Event
reads [] = []
reads (f ∷ fs) = read f ∷ reads fs

abbrev pub all_of {ℓ} : {A : Type ℓ} → (WebSocketFrame → List A) → List WebSocketFrame → List A
all_of g [] = []
all_of g (f ∷ fs) = g f ++ all_of g fs

-- Of two sessions: what the second one has written and called on top of the first one.
abbrev More : List WebSocketFrame → List Call → Session → Session → Type 0
More fs cs s s' =
    (s'.written ≡ s.written ++ fs) × (s'.calls ≡ s.calls ++ cs) × (s'.opened ≡ s.opened)

module _ (ping_interval pong_timeout : ℕ) where
  scheduled :
      (fs : List WebSocketFrame) (cs : List Call) (s t : Session)
      → More fs cs s t
      → More fs cs s (schedule_ping ping_interval pong_timeout t)
  scheduled fs cs s t (w, c, o) =
      let l = schedule_ping_lem ping_interval pong_timeout t in (l.2 ∙ w, l.3 ∙ c, l.4 ∙ o)

  freed :
      (o : Option ℕ) (fs : List WebSocketFrame) (cs : List Call) (s t : Session)
      → More fs cs s t
      → More fs cs s (free_sub o t)
  freed none fs cs s t m = m
  freed (some i) fs cs s t m = m

  cancelled : (s : Session) → More [] [] s (cancel_timers s)
  cancelled s =
      let l = cancel_timers_lem s in
      (l.3 ∙ sym (append-nil s.written), l.4 ∙ sym (append-nil s.calls), l.5)

  answer-More :
      (f : WebSocketFrame) (s : Session)
      → More (replies f) (told f) s (answer ping_interval pong_timeout f s)
  unfolding answer replies told
  answer-More f s = elim (Bool-cases (f.opcode == pong)) [
    | inl a ↦
        let o : f.opcode ≡ pong = (==_iff f.opcode pong).0 a in
        rw o (scheduled [] [] s (cancel_timers s) (cancelled s))
    | inr a ↦ elim (Bool-cases (f.opcode == ping)) [
      | inl b ↦
          let o : f.opcode ≡ ping = (==_iff f.opcode ping).0 b in
          rw o (scheduled (frame pong f.payload ∷ []) [] s _ (refl, sym (append-nil s.calls), refl))
      | inr b ↦ elim (Bool-cases (f.opcode == text)) [
        | inl c ↦
            let o : f.opcode ≡ text = (==_iff f.opcode text).0 c in
            rw o (
              scheduled [] (on_message f.payload ∷ []) s _ (sym (append-nil s.written), refl, refl))
        | inr c ↦ elim (Bool-cases (f.opcode == binary)) [
          | inl d ↦
              let o : f.opcode ≡ binary = (==_iff f.opcode binary).0 d in
              rw o (
                scheduled [] (on_binary f.payload ∷ []) s _
                  (sym (append-nil s.written), refl, refl))
          | inr d ↦ elim (Bool-cases (f.opcode == close)) [
            | inl e ↦
                let o : f.opcode ≡ close = (==_iff f.opcode close).0 e in
                let m = freed s.sub [] [] s (cancel_timers s) (cancelled s) in
                rw o (
                  ap (λ l. l ++ (frame close f.payload ∷ [])) (m.0 ∙ append-nil s.written),
                  ap (λ l. l ++ (on_close f.payload ∷ [])) (m.1 ∙ append-nil s.calls),
                  m.2,
                )
            | inr e ↦
                rw (answer, a, b, c, d, e)
                  (sym (append-nil s.written), sym (append-nil s.calls), refl)
          ]
        ]
      ]
    ]
  ]

  channel_read-More :
      (f : WebSocketFrame) (s : Session)
      → s.opened ≡ true
      → More (replies f) (told f) s (channel_read ping_interval pong_timeout f s)
  unfolding channel_read open_first
  channel_read-More f s o = rw o (answer-More f _)

  -- What a session that was opened writes and calls for frames that come.
  run-More :
      (fs : List WebSocketFrame) (s : Session)
      → s.opened ≡ true
      → More (all_of replies fs) (all_of told fs) s (run ping_interval pong_timeout (reads fs) s)
  unfolding run step
  run-More [] s o = (sym (append-nil s.written), sym (append-nil s.calls), refl)
  run-More (f ∷ fs) s o =
      let (w, c, p) = channel_read-More f s o in
      let (w', c', p') = run-More fs (channel_read ping_interval pong_timeout f s) (p ∙ o) in
      (
        w'
            ∙ ap (λ l. l ++ all_of replies fs) w
            ∙ append_assoc s.written (replies f) (all_of replies fs),
        c' ∙ ap (λ l. l ++ all_of told fs) c ∙ append_assoc s.calls (told f) (all_of told fs),
        p' ∙ p,
      )

  opened-More :
      (f : WebSocketFrame) (s : Session)
      → s.opened ≡ false
      → let s' = channel_read ping_interval pong_timeout f s in
        (s'.written ≡ s.written ++ replies f)
        × (s'.calls ≡ (s.calls ++ (on_open ∷ [])) ++ told f)
        × (s'.opened ≡ true)
  unfolding channel_read open_first
  opened-More f s o =
      let l =
        schedule_ping_lem ping_interval pong_timeout (call on_open (record s { opened = true })) in
      let m = answer-More f (
        signal_activity
          (schedule_ping ping_interval pong_timeout (call on_open (record s { opened = true })))) in
      rw o (m.0 ∙ ap (λ x. x ++ replies f) l.2, m.1 ∙ ap (λ x. x ++ told f) l.3, m.2 ∙ l.4)

  -- A new session that frames come to answers, in their order, every ping by a pong and every close
  -- by a close, with their payloads, and writes nothing else; it calls `onOpen` once and first, and then
  -- `onMessage`, `onBinary` and `onClose` for the text, binary and close frames, in their order.
  pub run-replies :
      (f : WebSocketFrame) (fs : List WebSocketFrame) (s : Session)
      → s.opened ≡ false
      → let s' = run ping_interval pong_timeout (reads (f ∷ fs)) s in
        (s'.written ≡ s.written ++ all_of replies (f ∷ fs))
        × (s'.calls ≡ s.calls ++ (on_open ∷ all_of told (f ∷ fs)))
  unfolding run step
  run-replies f fs s o =
      let (w, c, p) = opened-More f s o in
      let (w', c', p') = run-More fs (channel_read ping_interval pong_timeout f s) p in
      (
        w'
            ∙ ap (λ l. l ++ all_of replies fs) w
            ∙ append_assoc s.written (replies f) (all_of replies fs),
        c'
            ∙ ap (λ l. l ++ all_of told fs) c
            ∙ append_assoc (s.calls ++ (on_open ∷ [])) (told f) (all_of told fs)
            ∙ append_assoc s.calls (on_open ∷ []) (told f ++ all_of told fs),
      )
