-- ===== src/Loop/Order.antt =====
-- Functors are called in the order in which they were queued, each once.
use xnetty.Prelude.{
  ◌≡◌, ◌≢◌, refl, sym, ap, ◌∙◌, ◌⊎◌, inl, inr, List, [], ◌∷◌, ◌++◌, append_assoc, append-nil, Bool,
  true, false, not, ◌&&◌, ◌||◌, Option, none, some, Bool-cases, arith, ◌==◌, ==_iff, if_elim,
}
use xnetty.Memory.Returns.{Ends, Ends->>=}
use xnetty.Loop.{
  EventLoop, wakeup, wake, stored, queue_in_loop, queue_all, call_all, finished,
  do_pending_functors, Event, queue, pending, step, run,
}
use xnetty.Loop.Queue.{next}
use xnetty.Loop.Ring.{IsValid, contents}
use xnetty.Loop.Refine.{push_lem, push_full, pop_all_lem}

module _ {ℓ} {F : Type ℓ} where
  -- `waiting` are functors that were taken out of the ring and are still to be called.
  abbrev pub Settled : List (Option F) → EventLoop F → Type ℓ
  Settled waiting s =
      (s.disturbed ≡ true)
      ⊎ ((s.pending_functors ≡ []) × (s.ran ++ (waiting ++ contents none s.lf_buffer) ≡ s.queued))

  pub record IsInOrder (waiting : List (Option F)) (s : EventLoop F) : Type ℓ where
    pub valid : IsValid s.lf_buffer
    pub settled : Settled waiting s

  wake-IsInOrder :
      (w : List (Option F)) (b : Bool) (s : EventLoop F)
      → IsInOrder w s
      → IsInOrder w (wake b s) × ((wake b s).ran ≡ s.ran)
  unfolding wake wakeup
  wake-IsInOrder w b s h =
      if_elim (λ s'. IsInOrder w s' × (s'.ran ≡ s.ran))
        ((not b || s.calling_pending_functors) && not s.wakeup_sent) _ _
        (λ t. (record { valid = h.valid; settled = h.settled }, refl)) (λ f. (h, refl))

  abbrev Keeps : List (Option F) → EventLoop F → EventLoop F → Type ℓ
  Keeps w s s' = IsInOrder w s' × (s'.ran ≡ s.ran)

  settle_put :
      {P : Type ℓ} {D : Type 0} (ran w xs xs' all : List (Option F)) (cb : Option F)
      → xs' ≡ xs ++ (cb ∷ [])
      → D ⊎ (P × (ran ++ (w ++ xs) ≡ all))
      → D ⊎ (P × (ran ++ (w ++ xs') ≡ all ++ (cb ∷ [])))
  settle_put ran w xs xs' all cb c (inl d) = inl d
  settle_put ran w xs xs' all cb c (inr (p, e)) = inr (
    p,
    ap (λ t. ran ++ (w ++ t)) c
        ∙ ap (λ t. ran ++ t) (sym (append_assoc w xs (cb ∷ [])))
        ∙ sym (append_assoc ran (w ++ xs) (cb ∷ []))
        ∙ ap (λ t. t ++ (cb ∷ [])) e,
  )

  queue_in_loop-IsInOrder :
      (left : Option F) (w : List (Option F)) (b : Bool) (cb : Option F) (s : EventLoop F)
      → IsInOrder w s
      → Ends (Keeps w s) (queue_in_loop left b cb s)
  unfolding queue_in_loop stored
  queue_in_loop-IsInOrder left w b cb s h =
      elim (Bool-cases (next s.lf_buffer.size_mask s.lf_buffer.tail == s.lf_buffer.head)) [
        | inl e ↦
            let f =
              push_full none cb s.lf_buffer
                ((==_iff (next s.lf_buffer.size_mask s.lf_buffer.tail) s.lf_buffer.head).0 e) in
            let s' : EventLoop F = record s {
              pending_functors = s.pending_functors ++ (left ∷ []);
              queued = s.queued ++ (cb ∷ []);
              disturbed = true;
            } in
            (
              wake b s',
              rw f refl,
              wake-IsInOrder w b s' record { valid = h.valid; settled = inl refl },
            )
        | inr e ↦
            let ne : next s.lf_buffer.size_mask s.lf_buffer.tail ≢ s.lf_buffer.head =
              λ k. ground arith in
            let (q, f, v, m, c) = push_lem none cb s.lf_buffer h.valid ne in
            let s' : EventLoop F = record s { lf_buffer = q; queued = s.queued ++ (cb ∷ []) } in
            (
              wake b s',
              rw f refl,
              wake-IsInOrder w b s' record {
                valid = v;
                settled =
                    settle_put s.ran w (contents none s.lf_buffer) (contents none q) s.queued cb c
                      h.settled;
              },
            )
      ]

  queue_all-IsInOrder :
      (left : Option F) (w cbs : List (Option F)) (s : EventLoop F)
      → IsInOrder w s
      → Ends (Keeps w s) (queue_all left cbs s)
  unfolding queue_all
  queue_all-IsInOrder left w [] s h = (s, refl, (h, refl))
  queue_all-IsInOrder left w (cb ∷ cbs) s h =
      Ends->>= (Keeps w s) (Keeps w s) (queue_in_loop left true cb s) _
        (queue_in_loop-IsInOrder left w true cb s h)
        (λ s' k.
          let (t, e, (h', r)) = queue_all-IsInOrder left w cbs s' k.0 in (t, e, (h', r ∙ k.1)))

module _ {ℓ} {F : Type ℓ} (left : Option F) (react : F → List (Option F) × Bool) where
  -- All of `fs` were called, unless something was thrown.
  abbrev Called : List (Option F) → EventLoop F → Bool × EventLoop F → Type ℓ
  Called fs s (b, s') = IsInOrder [] s' × ((s'.disturbed ≡ true) ⊎ (s'.ran ≡ s.ran ++ fs))

  move :
      {D : Type 0} {P : Type ℓ} (ran fs xs all : List (Option F)) (f : Option F)
      → D ⊎ (P × (ran ++ ((f ∷ fs) ++ xs) ≡ all))
      → D ⊎ (P × ((ran ++ (f ∷ [])) ++ (fs ++ xs) ≡ all))
  move ran fs xs all f (inl d) = inl d
  move ran fs xs all f (inr (p, e)) = inr (p, append_assoc ran (f ∷ []) (fs ++ xs) ∙ e)

  call_all-IsInOrder :
      (fs : List (Option F)) (s : EventLoop F)
      → IsInOrder fs s
      → Ends (Called fs s) (call_all left react fs s)
  unfolding call_all
  call_all-IsInOrder [] s h = (_, refl, (h, inr (sym (append-nil s.ran))))
  call_all-IsInOrder (none ∷ fs) s h =
      (_, refl, (record { valid = h.valid; settled = inl refl }, inl refl))
  call_all-IsInOrder (some f ∷ fs) s h =
      let s1 : EventLoop F = record s { ran = s.ran ++ (some f ∷ []) } in
      let h1 : IsInOrder fs s1 = record {
        valid = h.valid;
        settled = move s.ran fs (contents none s.lf_buffer) s.queued (some f) h.settled;
      } in
      Ends->>= (Keeps fs s1) (Called (some f ∷ fs) s) (queue_all left (react f).0 s1) _
        (queue_all-IsInOrder left fs (react f).0 s1 h1)
        (λ s' k.
          if_elim (Ends (Called (some f ∷ fs) s)) (react f).1 _ _
            (λ t. (_, refl, (record { valid = k.0.valid; settled = inl refl }, inl refl)))
            (λ t.
              let (r, e, (h', c)) = call_all-IsInOrder fs s' k.0 in
              (r, e, (h', further r s' c k.1))))
    where
      further :
          (r : Bool × EventLoop F) (s' : EventLoop F)
          → (r.1.disturbed ≡ true) ⊎ (r.1.ran ≡ s'.ran ++ fs)
          → s'.ran ≡ s.ran ++ (some f ∷ [])
          → (r.1.disturbed ≡ true) ⊎ (r.1.ran ≡ s.ran ++ (some f ∷ fs))
      further r s' (inl d) g = inl d
      further r s' (inr e) g = inr (e ∙ ap (λ t. t ++ fs) g ∙ append_assoc s.ran (some f ∷ []) fs)

  finished-IsInOrder :
      (r : Bool × EventLoop F) → IsInOrder [] r.1 → IsInOrder [] (finished left react r)
  unfolding finished
  finished-IsInOrder (true, s) h = record { valid = h.valid; settled = h.settled }
  finished-IsInOrder (false, s) h = h

  finished-ran :
      (r : Bool × EventLoop F)
      → ((finished left react r).ran ≡ r.1.ran)
        × ((finished left react r).disturbed ≡ r.1.disturbed)
  unfolding finished
  finished-ran (true, s) = (refl, refl)
  finished-ran (false, s) = (refl, refl)

  taken_out :
      {D : Type 0} (ran xs none_left waiting all : List (Option F))
      → none_left ≡ []
      → D ⊎ ((waiting ≡ []) × (ran ++ xs ≡ all))
      → D ⊎ ((◌≡◌ {A = List (Option F)} [] []) × (ran ++ ((xs ++ waiting) ++ none_left) ≡ all))
  taken_out ran xs none_left waiting all n (inl d) = inl d
  taken_out ran xs none_left waiting all n (inr (p, e)) =
      inr (refl, rw (n, p, append-nil (xs ++ []), append-nil xs) e)

  pub do_pending_functors-IsInOrder :
      (s : EventLoop F)
      → IsInOrder [] s
      → Ends
          (λ s'.
            IsInOrder [] s' × ((s.disturbed ≡ true) ⊎ (s'.disturbed ≡ true) ⊎ (s'.ran ≡ s.queued)))
          (do_pending_functors left react s)
  unfolding do_pending_functors
  do_pending_functors-IsInOrder s h =
      let (q, f, v, m, c) = pop_all_lem none s.lf_buffer h.valid in
      let fs = contents none s.lf_buffer ++ s.pending_functors in
      let s1 : EventLoop F = record s {
        lf_buffer = q;
        pending_functors = [];
        calling_pending_functors = true;
        wakeup_sent = false;
      } in
      let h1 : IsInOrder fs s1 = record {
        valid = v;
        settled =
            taken_out s.ran (contents none s.lf_buffer) (contents none q) s.pending_functors
              s.queued c h.settled;
      } in
      let (r, e, (h', k)) = call_all-IsInOrder fs s1 h1 in
      (finished left react r, rw (f, e) refl, (finished-IsInOrder r h', all_called r h.settled k))
    where
      all_called :
          (r : Bool × EventLoop F)
          → Settled [] s
          → (r.1.disturbed ≡ true)
            ⊎ (r.1.ran ≡ s.ran ++ (contents none s.lf_buffer ++ s.pending_functors))
          → (s.disturbed ≡ true)
            ⊎ ((finished left react r).disturbed ≡ true)
            ⊎ ((finished left react r).ran ≡ s.queued)
      all_called r (inl d) k = inl d
      all_called r (inr (p, e)) (inl d) = inr (inl ((finished-ran r).1 ∙ d))
      all_called r (inr (p, e)) (inr g) =
          inr (inr ((finished-ran r).0 ∙ g ∙ rw (p, append-nil (contents none s.lf_buffer)) e))

  step-IsInOrder :
      (e : Event F) (s : EventLoop F) → IsInOrder [] s → Ends (IsInOrder []) (step left react e s)
  unfolding step
  step-IsInOrder (queue b cb) s h =
      let (s', e, (h', r)) = queue_in_loop-IsInOrder left [] b cb s h in (s', e, h')
  step-IsInOrder pending s h =
      let (s', e, (h', r)) = do_pending_functors-IsInOrder s h in (s', e, h')

  pub run-IsInOrder :
      (events : List (Event F)) (s : EventLoop F)
      → IsInOrder [] s
      → Ends (IsInOrder []) (run left react events s)
  unfolding run
  run-IsInOrder [] s h = (s, refl, h)
  run-IsInOrder (e ∷ events) s h =
      Ends->>= (IsInOrder []) (IsInOrder []) (step left react e s) _ (step-IsInOrder e s h)
        (λ s' h'. run-IsInOrder events s' h')
