-- ===== src/Session/Timers.antt =====
-- The timers of a session.
use xnetty.Prelude.{
  ℕ, ◌≡◌, ◌≢◌, refl, ap, ◌⊎◌, inl, inr, ◌∙◌, List, [], ◌∷◌, true, false, Option, none, some, ◌==◌,
  if_elim, Bool-cases, arith,
}
use xnetty.Prelude.Text.{Text}
use xnetty.Timer.{add_timer}
use xnetty.Timer.Ticks.{add_timer-id}
use xnetty.WebSocket.{WebSocketFrame, text, close}
use xnetty.Session.{
  Session, Timeout, send_ping, close_late, other, Event, read, read_other, timeout, inactive,
  sending, closing, subscribing, unsubscribing, cancel_ping, cancel_pong, cancel_timers, free_sub,
  subscribe_to, unsubscribe_sub, unsubscribe_from, close_with, send, schedule_ping, on_timeout,
  open_first, answer, channel_read, channel_inactive, step, run, binary, ping, pong,
}

-- Nothing that `cancel_timers` looks at.
pub cancel_timers_lem :
    (s : Session)
    → ((cancel_timers s).ping_timer_id ≡ 0)
      × ((cancel_timers s).pong_timer_id ≡ 0)
      × ((cancel_timers s).waiting_pong ≡ false)
      × ((cancel_timers s).written ≡ s.written)
      × ((cancel_timers s).calls ≡ s.calls)
      × ((cancel_timers s).opened ≡ s.opened)
      × ((cancel_timers s).sub ≡ s.sub)
      × ((cancel_timers s).tree ≡ s.tree)
unfolding cancel_timers cancel_ping cancel_pong
cancel_timers_lem s = elim (Bool-cases (s.ping_timer_id == 0)) [
  | inl e ↦ elim (Bool-cases (s.pong_timer_id == 0)) [
    | inl f ↦
        rw (cancel_timers, e, f) (ground arith, ground arith, refl, refl, refl, refl, refl, refl)
    | inr f ↦ rw (cancel_timers, e, f) (ground arith, refl, refl, refl, refl, refl, refl, refl)
  ]
  | inr e ↦ elim (Bool-cases (s.pong_timer_id == 0)) [
    | inl f ↦ rw (cancel_timers, e, f) (refl, ground arith, refl, refl, refl, refl, refl, refl)
    | inr f ↦ rw (cancel_timers, e, f) (refl, refl, refl, refl, refl, refl, refl, refl)
  ]
]

cancel_timers-wheel :
    (s : Session) → s.ping_timer_id ≡ 0 → s.pong_timer_id ≡ 0 → (cancel_timers s).wheel ≡ s.wheel
unfolding cancel_timers cancel_ping cancel_pong
cancel_timers-wheel s p q =
    let no_ping : (s.ping_timer_id == 0) ≡ true = ground arith in
    let no_pong : (s.pong_timer_id == 0) ≡ true = ground arith in
    rw (cancel_timers, no_ping, no_pong) refl

-- One timer is stored at most, and it is that of the answer exactly while one is waited for.
abbrev pub IsOneTimer : Session → Type 0
IsOneTimer s =
    ((s.waiting_pong ≡ false) × (s.pong_timer_id ≡ 0))
    ⊎ ((s.waiting_pong ≡ true) × (s.ping_timer_id ≡ 0))

module _ (ping_interval pong_timeout : ℕ) where
  -- `schedule_ping` changes the timers alone, and waits for no answer.
  pub schedule_ping_lem :
      (s : Session)
      → let s' = schedule_ping ping_interval pong_timeout s in
        (s'.pong_timer_id ≡ 0)
        × (s'.waiting_pong ≡ false)
        × (s'.written ≡ s.written)
        × (s'.calls ≡ s.calls)
        × (s'.opened ≡ s.opened)
        × (s'.sub ≡ s.sub)
        × (s'.tree ≡ s.tree)
  unfolding schedule_ping
  schedule_ping_lem s =
      let (a, b, c, d, e, f, g, h) = cancel_timers_lem s in
      elim (Bool-cases (ping_interval == 0)) [
        | inl z ↦ rw (schedule_ping, z) (b, c, d, e, f, g, h)
        | inr z ↦ rw (schedule_ping, z) (b, c, d, e, f, g, h)
      ]

  schedule_ping-IsOneTimer : (s : Session) → IsOneTimer (schedule_ping ping_interval pong_timeout s)
  schedule_ping-IsOneTimer s = let l = schedule_ping_lem s in inl (l.1, l.0)

  free_sub-IsOneTimer : (o : Option ℕ) (s : Session) → IsOneTimer s → IsOneTimer (free_sub o s)
  free_sub-IsOneTimer none s h = h
  free_sub-IsOneTimer (some i) s h = h

  cancel_timers-IsOneTimer : (s : Session) → IsOneTimer (cancel_timers s)
  cancel_timers-IsOneTimer s = let l = cancel_timers_lem s in inl (l.2, l.1)

  on_timeout-IsOneTimer :
      (t : Timeout) (s : Session)
      → IsOneTimer s
      → IsOneTimer (on_timeout ping_interval pong_timeout t s)
  unfolding on_timeout
  on_timeout-IsOneTimer send_ping s h =
      if_elim IsOneTimer s.waiting_pong _ _ (λ t. h) (λ f. inr (refl, refl))
  on_timeout-IsOneTimer close_late s h = h
  on_timeout-IsOneTimer (other n) s h = h

  answer-IsOneTimer :
      (f : WebSocketFrame) (s : Session)
      → IsOneTimer s
      → IsOneTimer (answer ping_interval pong_timeout f s)
  unfolding answer
  answer-IsOneTimer f s h =
      if_elim IsOneTimer (f.opcode == pong) _ _ (λ t. schedule_ping-IsOneTimer _)
        (λ a.
          if_elim IsOneTimer (f.opcode == ping) _ _ (λ t. schedule_ping-IsOneTimer _)
            (λ b.
              if_elim IsOneTimer (f.opcode == text) _ _ (λ t. schedule_ping-IsOneTimer _)
                (λ c.
                  if_elim IsOneTimer (f.opcode == binary) _ _ (λ t. schedule_ping-IsOneTimer _)
                    (λ d.
                      if_elim IsOneTimer (f.opcode == close) _ _
                        (λ t.
                          free_sub-IsOneTimer s.sub (cancel_timers s) (cancel_timers-IsOneTimer s))
                        (λ e. h)))))

  open_first-IsOneTimer :
      (s : Session) → IsOneTimer s → IsOneTimer (open_first ping_interval pong_timeout s)
  unfolding open_first
  open_first-IsOneTimer s h =
      if_elim IsOneTimer s.opened _ _ (λ t. h) (λ f. schedule_ping-IsOneTimer _)

  unsubscribe-IsOneTimer :
      (o : Option ℕ) (topic : Text) (s : Session)
      → IsOneTimer s
      → IsOneTimer (unsubscribe_sub o topic s)
  unsubscribe-IsOneTimer none topic s h = h
  unsubscribe-IsOneTimer (some i) topic s h = h

  step-IsOneTimer :
      (e : Event) (s : Session) → IsOneTimer s → IsOneTimer (step ping_interval pong_timeout e s)
  unfolding step channel_read channel_inactive send close_with subscribe_to unsubscribe_from
  step-IsOneTimer (read f) s h = answer-IsOneTimer f _ (open_first-IsOneTimer s h)
  step-IsOneTimer read_other s h = open_first-IsOneTimer s h
  step-IsOneTimer (timeout t) s h = on_timeout-IsOneTimer t s h
  step-IsOneTimer inactive s h = free_sub-IsOneTimer _ _ (cancel_timers-IsOneTimer s)
  step-IsOneTimer (sending is_text payload) s h = h
  step-IsOneTimer (closing code reason) s h = free_sub-IsOneTimer s.sub s h
  step-IsOneTimer (subscribing fresh topic) s h = h
  step-IsOneTimer (unsubscribing topic) s h = unsubscribe-IsOneTimer s.sub topic s h

  -- Whatever happens to a session in which one timer at most is stored: one at most is stored at the
  -- end, that of the answer while an answer is waited for, and that of the next ping otherwise.
  pub run-IsOneTimer :
      (events : List Event) (s : Session)
      → ((s.waiting_pong ≡ false) × (s.pong_timer_id ≡ 0))
        ⊎ ((s.waiting_pong ≡ true) × (s.ping_timer_id ≡ 0))
      → IsOneTimer (run ping_interval pong_timeout events s)
  unfolding run
  run-IsOneTimer [] s h = h
  run-IsOneTimer (e ∷ events) s h = run-IsOneTimer events _ (step-IsOneTimer e s h)

  -- The first timer of a loop has the id 0: a ping timer that is the first one of the wheel is not
  -- canceled by `cancelTimers`.
  pub cancel_timers-first :
      (s : Session)
      → s.ping_timer_id ≡ 0
      → s.pong_timer_id ≡ 0
      → s.wheel.next_id ≡ 0
      → ping_interval ≢ 0
      → (cancel_timers (schedule_ping ping_interval pong_timeout s)).wheel
        ≡ (add_timer s.wheel ping_interval (some send_ping)).0
  unfolding schedule_ping
  cancel_timers-first s p q n ne =
      let t = schedule_ping ping_interval pong_timeout s in
      let some_interval : (ping_interval == 0) ≡ false = ground arith in
      let same : (cancel_timers s).wheel ≡ s.wheel = cancel_timers-wheel s p q in
      let made : t.wheel ≡ (add_timer s.wheel ping_interval (some send_ping)).0 =
        rw some_interval (ap (λ w. (add_timer w ping_interval (some send_ping)).0) same) in
      let id : t.ping_timer_id ≡ 0 = rw some_interval (
        add_timer-id (cancel_timers s).wheel ping_interval (some send_ping)
        ∙ ap (λ w. w.next_id) same
        ∙ n) in
      cancel_timers-wheel t id (schedule_ping_lem s).0 ∙ made
