-- ===== src/Pipeline/Chains.antt =====
-- An event that handlers pass on: which handlers it reaches, in which order, and where it ends.
use xnetty.Prelude.{
  ℕ, zero, suc, ◌+◌, ◌-◌, ◌≤◌, ◌<◌, ◌≡◌, refl, sym, ap, subst, ◌∙◌, inl, inr, List, [], ◌∷◌, Bool,
  true, false, some, if◌then◌else◌, length, drop, get_elem?, arith, Bool-cases, ◌==◌,
}
use xnetty.Prelude.Slices.{drop-drop}
use xnetty.Pipeline.{
  HandlerContext, HandlerEntry, ChannelPipeline, Event, read, write, flush, Call, on,
}
use xnetty.Pipeline.Fire.{
  first_inbound, for_all_inbound, for_next_inbound, for_prev_outbound, fire_read_from,
  fire_write_from,
}
use xnetty.Pipeline.Context.{fire_write, fire_flush}
use xnetty.Pipeline.Indices.{IsEntry, AreEntries}

module _ {H M : Type 0} (forwards : H → Bool) where
  -- A handler that forwards calls `ctx->fireRead` once, with the same message.
  abbrev pub follow : (ℕ → List (Call H M)) → List (Call H M) → List (Call H M)
  follow go (on event h i ∷ calls) = on event h i ∷ (if forwards h then go (i + 1) else [])
  follow go calls = []

  -- The calls that one read makes in the end, from position `start` on.
  pub read_chain : ℕ → M → ChannelPipeline H → ℕ → List (Call H M)
  read_chain zero msg p start = []
  read_chain (suc fuel) msg p start = follow (read_chain fuel msg p) (fire_read_from start msg p)

  -- The calls up to the first handler that does not forward, that one included.
  pub up_to_kept : List (Call H M) → List (Call H M)
  up_to_kept (on event h i ∷ calls) =
      let rest = up_to_kept calls in on event h i ∷ (if forwards h then rest else [])
  up_to_kept calls = []

module _ {H : Type 0} where
  drop_next :
      (k : ℕ) (p q : ChannelPipeline H) (e : HandlerEntry H) → drop k p ≡ e ∷ q → drop (k + 1) p ≡ q
  drop_next k p q e h = sym (drop-drop k 1 (k + 1) p refl) ∙ ap (drop 1) h

module _ {H M : Type 0} (is_inbound is_outbound forwards : H → Bool) where
  read_chain-from :
      (q : ChannelPipeline H) (fuel k : ℕ) (msg : M) (p : ChannelPipeline H)
      → drop k p ≡ q
      → AreEntries is_inbound is_outbound k q
      → length q ≤ fuel
      → read_chain forwards fuel msg p k ≡ up_to_kept forwards (for_all_inbound (read msg) q)
  unfolding read_chain up_to_kept for_all_inbound fire_read_from for_next_inbound first_inbound
  read_chain-from [] zero k msg p d v h = refl
  read_chain-from [] (suc fuel) k msg p d v h = rw d refl
  read_chain-from (e ∷ q) zero k msg p d v h = absurd (omega arith)
  read_chain-from (e ∷ q) (suc fuel) k msg p d v h =
      let go = read_chain forwards fuel msg p in
      let d' = drop_next k p q e d in
      ap (λ l. follow forwards go (first_inbound (read msg) l)) d ∙ elim (Bool-cases e.inbound) [
        | inl t ↦
            rw (t, v.0.index)
              (ap (λ l. on (read msg) e.handler k ∷ (if forwards e.handler then l else []))
                (read_chain-from q fuel (k + 1) msg p d' v.1 (omega arith)))
        | inr t ↦ rw t (
            ap (λ l. follow forwards go (first_inbound (read msg) l)) (sym d')
            ∙ read_chain-from q (suc fuel) (k + 1) msg p d' v.1 (omega arith))
      ]

  -- A message that is read reaches the inbound handlers one after the other, in their order and each
  -- with its own context, up to the first that does not pass it on.
  pub read_chain-order :
      (fuel : ℕ) (msg : M) (p : ChannelPipeline H)
      → AreEntries is_inbound is_outbound 0 p
      → length p ≤ fuel
      → read_chain forwards fuel msg p 0 ≡ up_to_kept forwards (for_all_inbound (read msg) p)
  read_chain-order fuel msg p v h = read_chain-from p fuel 0 msg p refl v h

module _ {H : Type 0} (is_inbound is_outbound : H → Bool) where
  some-eq : (x y : HandlerEntry H) → some x ≡ some y → x ≡ y
  some-eq x y e = cc

  get_elem-IsEntry :
      (p : ChannelPipeline H) (i k : ℕ) (e : HandlerEntry H)
      → get_elem? p k ≡ some e
      → AreEntries is_inbound is_outbound i p
      → IsEntry is_inbound is_outbound (i + k) e
  get_elem-IsEntry [] i k e g v = ground arith
  get_elem-IsEntry (x ∷ p) i zero e g v =
      let z : i ≡ i + 0 = omega arith in
      subst (λ j. IsEntry is_inbound is_outbound j e) z
        (subst (IsEntry is_inbound is_outbound i) (some-eq x e g) v.0)
  get_elem-IsEntry (x ∷ p) i (suc k) e g v =
      let z : i + 1 + k ≡ i + suc k = omega arith in
      subst (λ j. IsEntry is_inbound is_outbound j e) z (get_elem-IsEntry p (i + 1) k e g v.1)

  -- `fireFlush` from the context of an outbound handler calls this same handler again, wherever it
  -- stands in the pipeline, and no handler in front of it.
  pub fire_flush_self :
      (M : Type 0) (p : ChannelPipeline H) (i : ℕ) (e : HandlerEntry H)
      → AreEntries is_inbound is_outbound 0 p
      → get_elem? p i ≡ some e
      → e.outbound ≡ true
      → fire_flush {M = M} e.ctx p ≡ some (on flush e.handler i ∷ [])
  unfolding fire_flush for_prev_outbound
  fire_flush_self M p i e v g o =
      let at = get_elem-IsEntry p 0 i e g v in
      let k : e.ctx.index ≡ i = at.index ∙ omega arith in
      let k' : i + 1 ≡ suc i = omega arith in
      rw (k, k') (rw (g, for_prev_outbound) (rw (o, k) refl))

-- No outbound handler stands in front of position `n`.
abbrev pub NoneBefore : {H : Type 0} → ℕ → ChannelPipeline H → Type 0
NoneBefore {H} n p =
    (j : ℕ) → j < n → (e : HandlerEntry H) × (get_elem? p j ≡ some e) × (e.outbound ≡ false)

module _ {H M : Type 0} where
  for_prev_outbound-none :
      (event : Event M) (n : ℕ) (p : ChannelPipeline H)
      → NoneBefore n p
      → for_prev_outbound event n p ≡ some []
  unfolding for_prev_outbound
  for_prev_outbound-none event zero p h = refl
  for_prev_outbound-none event (suc n) p h =
      let (e, g, o) = h n (omega arith) in
      rw (g, for_prev_outbound) (rw o (for_prev_outbound-none event n p (λ j l. h j (omega arith))))

  -- A message that a handler writes when no outbound handler stands in front of it, and it is not the
  -- first, is dropped: no handler is called, and nothing goes to the connection.
  pub fire_write_dropped :
      (is_buf overflows : M → Bool) (msg : M) (c : HandlerContext H) (p : ChannelPipeline H)
      → 0 < c.index
      → NoneBefore c.index p
      → fire_write is_buf overflows msg c p ≡ some []
  unfolding fire_write fire_write_from
  fire_write_dropped is_buf overflows msg c p first h =
      let t : (c.index == 0) ≡ false = ground arith in
      let n : c.index - 1 + 1 ≡ c.index = omega arith in
      rw (t, n) (for_prev_outbound-none (write msg) c.index p h)
