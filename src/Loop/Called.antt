-- ===== src/Loop/Called.antt =====
-- What becomes of the functors that an event loop is given.
use xnetty.Prelude.{
  ℕ, ◌^◌, ◌≡◌, ◌≤◌, refl, sym, subst, ◌⊎◌, inl, inr, List, [], ◌∷◌, ◌++◌, Bool, not, ◌&&◌, ◌||◌,
  true, false, Option, none, some, arith, ltb, if◌then◌else◌, if_elim, ap, ◌∙◌, append_assoc,
  append-nil,
}
use mathlib.Core.List.{map}
use xnetty.Memory.{ok, ◌>>=◌}
use xnetty.Memory.Returns.{Ends}
use xnetty.Loop.{
  EventLoop, Event, queue, pending, create, new_loop, run, queue_in_loop, queue_all, call_all,
  finished, do_pending_functors, wake, wakeup, stored,
}
use xnetty.Loop.Queue.{next}
use xnetty.Loop.Ring.{IsValid, contents}
use xnetty.Loop.Order.{IsInOrder, run-IsInOrder, do_pending_functors-IsInOrder}
use xnetty.Loop.Refine.{push_full, pop_all_lem}
use xnetty.Loop.Create.{create-IsValid}

module _ {ℓ} {F : Type ℓ} where
  create-IsInOrder : (size : ℕ) → size ≤ 2 ^ 63 → Ends (IsInOrder {F = F} []) (create size)
  unfolding create
  create-IsInOrder size h =
      let bound : (if ltb size 64 then 64 else size) ≤ 2 ^ 63 =
        if_elim (λ n. n ≤ 2 ^ 63) (ltb size 64) 64 size (λ t. omega arith) (λ f. h) in
      let (k, c, (q, e, (m, v, n))) =
        create-IsValid {T = Option F} none (if ltb size 64 then 64 else size) bound in
      (new_loop q, rw e refl, record { valid = v; settled = inr (refl, n) })

  abbrev AllEvents : (Event F → Type 0) → List (Event F) → Type 0
  AllEvents P [] = Unit
  AllEvents P (e ∷ events) = P e × AllEvents P events

  -- One thread alone queues functors, as the ring asks for: that of the loop, or another one while the
  -- functors themselves queue nothing.
  abbrev pub FromLoop : Event F → Type 0
  FromLoop (queue in_loop cb) = in_loop ≡ true
  FromLoop pending = Unit

  abbrev pub FromOther : Event F → Type 0
  FromOther (queue in_loop cb) = in_loop ≡ false
  FromOther pending = Unit

  abbrev pub OneProducer : (F → List (Option F) × Bool) → List (Event F) → Type ℓ
  OneProducer react events =
      AllEvents FromLoop events ⊎ (AllEvents FromOther events × ((f : F) → (react f).0 ≡ []))

  -- One thread queues functors in a new loop: that of the loop, or another one while the functors
  -- queue nothing. The loop calls them in rounds, and at the end once more. Unless the ring has refused
  -- a functor or one has thrown, those that were called and those that are in the ring are those that
  -- were queued, in their order and each once, and the last round calls all that were queued before it.
  pub run-calls_in_order :
      (left : Option F) (react : F → List (Option F) × Bool) (events : List (Event F)) (size : ℕ)
      → size ≤ 2 ^ 63
      → OneProducer react events
      → Ends
          (λ (before, after).
            ((after.disturbed ≡ true) ⊎ (after.ran ++ contents none after.lf_buffer ≡ after.queued))
            × ((before.disturbed ≡ true) ⊎ (after.disturbed ≡ true) ⊎ (after.ran ≡ before.queued)))
          (do
            s ← create size
            before ← run left react events s
            after ← do_pending_functors left react before
            ok (before, after))
  run-calls_in_order left react events size h alone =
      let (s, e, i) = create-IsInOrder size h in
      let (s', e', i') = run-IsInOrder left react events s i in
      let (t, f, (j, k)) = do_pending_functors-IsInOrder left react s' i' in
      ((s', t), rw (e, e', f) refl, (in_order t j.settled, k))
    where
      in_order :
          (t : EventLoop F)
          → (t.disturbed ≡ true)
            ⊎ ((t.pending_functors ≡ []) × (t.ran ++ ([] ++ contents none t.lf_buffer) ≡ t.queued))
          → (t.disturbed ≡ true) ⊎ (t.ran ++ contents none t.lf_buffer ≡ t.queued)
      in_order t (inl d) = inl d
      in_order t (inr (p, e)) = inr e

  wake_fields :
      (b : Bool) (s : EventLoop F)
      → ((wake b s).lf_buffer ≡ s.lf_buffer)
        × ((wake b s).pending_functors ≡ s.pending_functors)
        × ((wake b s).ran ≡ s.ran)
  unfolding wake wakeup
  wake_fields b s =
      if_elim
        (λ (t : EventLoop F).
          (t.lf_buffer ≡ s.lf_buffer) × (t.pending_functors ≡ s.pending_functors) × (t.ran ≡ s.ran))
        ((not b || s.calling_pending_functors) && not s.wakeup_sent) _ _ (λ t. (refl, refl, refl))
        (λ f. (refl, refl, refl))

  -- Functors that neither throw nor queue others are called up to an empty one.
  call_all-empty :
      (react : F → List (Option F) × Bool) (fs : List F) (s : EventLoop F)
      → ((f : F) → react f ≡ ([], false))
      → call_all none react (map some fs ++ (none ∷ [])) s
        ≡ ok (false, record s { ran = s.ran ++ map some fs; disturbed = true })
  unfolding call_all queue_all
  call_all-empty react [] s h = rw (append-nil s.ran) refl
  call_all-empty react (f ∷ fs) s h =
      rw
        (
          h f,
          call_all-empty react fs (record s { ran = s.ran ++ (some f ∷ []) }) h,
          append_assoc s.ran (some f ∷ []) (map some fs),
        )
        refl

  abbrev Aborted : List (Option F) → EventLoop F → Type ℓ
  Aborted called t =
      (t.ran ≡ called)
      × (contents none t.lf_buffer ≡ [])
      × (t.pending_functors ≡ [])
      × (t.calling_pending_functors ≡ true)

  do_pending-empty :
      (react : F → List (Option F) × Bool) (fs : List F) (s : EventLoop F)
      → ((f : F) → react f ≡ ([], false))
      → IsValid s.lf_buffer
      → contents none s.lf_buffer ≡ map some fs
      → s.pending_functors ≡ none ∷ []
      → Ends (Aborted (s.ran ++ map some fs)) (do_pending_functors none react s)
  unfolding do_pending_functors finished
  do_pending-empty react fs s h v c p =
      let (q, f, v', m, n) = pop_all_lem none s.lf_buffer v in
      let s1 : EventLoop F = record s {
        lf_buffer = q;
        pending_functors = [];
        calling_pending_functors = true;
        wakeup_sent = false;
      } in
      (
        record s1 { ran = s.ran ++ map some fs; disturbed = true },
        rw (f, c, p, call_all-empty react fs s1 h) refl,
        (refl, n, refl, refl),
      )

  -- A functor that is queued when the ring is full is lost if a `std::function` is empty after it was
  -- moved from, and the functors that the ring holds neither throw nor queue others: `doPendingFunctors`
  -- calls those of the ring, and throws at the empty functor that was kept in place of the one that was
  -- queued. Then nothing is left to be called, and the loop still counts as calling functors.
  pub queue_in_loop-loses :
      (react : F → List (Option F) × Bool) (in_loop : Bool) (cb : F) (fs : List F) (s : EventLoop F)
      → ((f : F) → react f ≡ ([], false))
      → IsValid s.lf_buffer
      → next s.lf_buffer.size_mask s.lf_buffer.tail ≡ s.lf_buffer.head
      → contents none s.lf_buffer ≡ map some fs
      → s.pending_functors ≡ []
      → Ends
          (λ (t : EventLoop F).
            (t.ran ≡ s.ran ++ map some fs)
            × (contents none t.lf_buffer ≡ [])
            × (t.pending_functors ≡ [])
            × (t.calling_pending_functors ≡ true))
          (do s' ← queue_in_loop none in_loop (some cb) s; do_pending_functors none react s')
  unfolding queue_in_loop stored
  queue_in_loop-loses react in_loop cb fs s h v full c p =
      let s1 : EventLoop F = record s {
        pending_functors = s.pending_functors ++ (none ∷ []);
        queued = s.queued ++ (some cb ∷ []);
        disturbed = true;
      } in
      let (e, g, r) = wake_fields in_loop s1 in
      let (t, k, a) =
        do_pending-empty react fs (wake in_loop s1) h (subst IsValid (sym e) v)
          (ap (contents none) e ∙ c) (g ∙ ap (λ l. l ++ (none ∷ [])) p) in
      (
        t,
        rw (push_full none (some cb) s.lf_buffer full) k,
        (a.0 ∙ ap (λ l. l ++ map some fs) r, a.1, a.2, a.3),
      )
