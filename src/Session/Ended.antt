-- ===== src/Session/Ended.antt =====
-- The end of a session's subscriptions.
use xnetty.Prelude.{
  ℕ, ◌≡◌, refl, sym, subst, ◌∙◌, inl, inr, Bool, true, false, Option, none, some, ◌==◌, ==_iff,
  Bool-cases, arith,
}
use xnetty.Prelude.Text.{Text}
use xnetty.Topics.{has, members_of}
use xnetty.Topics.Agree.{Wants, wish, Agrees}
use xnetty.Topics.Links.{free-Agrees}
use xnetty.WebSocket.{close}
use xnetty.Session.{
  Session, Event, read, read_other, timeout, inactive, sending, closing, subscribing, unsubscribing,
  step, cancel_timers, answer, open_first, channel_read, channel_inactive, close_with, free_sub,
  call, signal_activity, on_open,
}
use xnetty.Session.Timers.{cancel_timers_lem, schedule_ping_lem}

-- The events that end the subscriptions of a session.
unfoldable pub ends : Event → Bool
ends (read f) = f.opcode == close
ends inactive = true
ends (closing code reason) = true
ends _ = false

abbrev Left : ℕ → Session → Type 0
Left i s = (s.sub ≡ none) × ((n : Text) → has i (members_of (s.tree.topics n)) ≡ false)

free_sub-Left :
    (i : ℕ) (o : Option ℕ) (f : Wants) (s : Session)
    → o ≡ some i
    → Agrees s.tree f
    → Left i (free_sub o s)
unfolding wish
free_sub-Left i none f s e a = absurd (ground arith)
free_sub-Left i (some j) f s e a =
    let same : j ≡ i = ground arith in
    (
      refl,
      λ n.
          (free-Agrees j s.tree f a).members i n
          ∙ (let own : (j == i) ≡ true = (==_iff j i).1 same in rw own refl),
    )

module _ (ping_interval pong_timeout : ℕ) where
  opened_first :
      (s : Session)
      → ((open_first ping_interval pong_timeout s).sub ≡ s.sub)
        × ((open_first ping_interval pong_timeout s).tree ≡ s.tree)
  unfolding open_first
  opened_first s = elim (Bool-cases s.opened) [
    | inl o ↦ rw (open_first, o) (refl, refl)
    | inr o ↦
        let l =
          schedule_ping_lem ping_interval pong_timeout
            (call on_open (record s { opened = true })) in
        rw (open_first, o) (l.5, l.6)
  ]

  -- In a tree whose two sides agree: a close frame, the end of the connection, and a close by the
  -- application take the session's subscriber out of every topic, and the session has none then.
  pub step-ends :
      (i : ℕ) (e : Event) (f : Wants) (s : Session)
      → Agrees s.tree f
      → s.sub ≡ some i
      → ends e ≡ true
      → let s' = step ping_interval pong_timeout e s in
        (s'.sub ≡ none) × ((n : Text) → has i (members_of (s'.tree.topics n)) ≡ false)
  unfolding step ends channel_read channel_inactive close_with answer
  step-ends i (read g) f s a e c =
      let o : g.opcode ≡ close = (==_iff g.opcode close).0 c in
      let s1 = signal_activity (open_first ping_interval pong_timeout s) in
      let (same_sub, same_tree) = opened_first s in
      let l = cancel_timers_lem s1 in
      rw o (
        free_sub-Left i s1.sub f (cancel_timers s1) (same_sub ∙ e)
          (subst (λ t. Agrees t f) (sym (l.7 ∙ same_tree)) a))
  step-ends i read_other f s a e c = absurd (ground arith)
  step-ends i (timeout t) f s a e c = absurd (ground arith)
  step-ends i inactive f s a e c =
      let l = cancel_timers_lem s in
      free_sub-Left i (cancel_timers s).sub f (cancel_timers s) (l.6 ∙ e)
        (subst (λ t. Agrees t f) (sym l.7) a)
  step-ends i (sending b p) f s a e c = absurd (ground arith)
  step-ends i (closing code reason) f s a e c = free_sub-Left i s.sub f s e a
  step-ends i (subscribing k n) f s a e c = absurd (ground arith)
  step-ends i (unsubscribing n) f s a e c = absurd (ground arith)
