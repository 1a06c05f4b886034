-- ===== src/Codec/Fired.antt =====
-- What `channelRead` has passed on when it ends, however it ends: an exception in a later round takes
-- back nothing of what earlier rounds did (src/http/http_codec.cpp).
use xnetty.Prelude.{
  ℕ, zero, suc, ◌≡◌, refl, ap, List, [], ◌∷◌, ◌++◌, Bool-cases, inl, inr, Option, none, some, ◌==◌,
  if◌then◌else◌, length, drop,
}
use xnetty.Memory.{Outcome, ok, out_of_range, bad_alloc, fault, diverge, ◌>>=◌, Allocator, load}
use xnetty.Memory.Returns.{Returns, Returns->>=}
use xnetty.Buffer.{readable_bytes, write_bytes}
use xnetty.Codec.{Parser, CodecState, Action, pass_on}
use xnetty.Codec.Read.{
  Message, bytes, not_bytes, is_letter, continue_with, advance, Round, ends, continues, consumed,
  round, loop, loop_all, read_bytes, channel_read,
}

-- The actions of a round, and behind them those of the rounds that follow.
unfoldable pub fired_round : (CodecState → List Action) → Outcome Round → List Action
fired_round go (ok (ends st out)) = out
fired_round go (ok (continues st out)) = out ++ go st
fired_round go _ = []

unfoldable pub fired_behind {ℓ} : {A : Type ℓ} → (A → List Action) → Outcome A → List Action
fired_behind go (ok a) = go a
fired_behind go _ = []

module _ (m : Allocator) (parser : Parser) (max_header max_body : ℕ) where
  unfoldable pub fired_loop : ℕ → Option ℕ → List ℕ → CodecState → List Action
  fired_loop zero own raw st = []
  fired_loop (suc fuel) own raw st =
      fired_round
        (fired_loop fuel (advance (consumed m parser max_header max_body raw) own)
          (drop (consumed m parser max_header max_body raw) raw))
        (round m parser max_header max_body own raw st)

  unfoldable pub fired_bytes : List ℕ → CodecState → List Action
  fired_bytes raw st =
      if readable_bytes st.leftover == 0
      then (if is_letter raw then fired_loop (suc (length raw)) none raw st else pass_on ∷ [])
      else fired_behind
          (λ b.
            fired_behind
              (λ whole.
                fired_loop (suc (length whole)) (some b.reader_index) whole
                  (record st { leftover = b }))
              (load b.block b.reader_index (readable_bytes b)))
          (write_bytes m st.leftover raw)

  unfoldable pub fired : Message → CodecState → List Action
  fired not_bytes st = pass_on ∷ []
  fired (bytes []) st = pass_on ∷ []
  fired (bytes (c ∷ raw)) st = fired_bytes (c ∷ raw) st

  continue_with-fired :
      (go : CodecState → Outcome (CodecState × List Action)) (go' : CodecState → List Action)
      → ((st : CodecState) → Returns (λ r. r.1 ≡ go' st) (go st))
      → (o : Outcome Round) → Returns (λ r. r.1 ≡ fired_round go' o) (o >>= continue_with go)
  unfolding fired_round
  continue_with-fired go go' h (ok (ends st out)) = refl
  continue_with-fired go go' h (ok (continues st out)) =
      Returns->>= (λ r. r.1 ≡ go' st) (λ r. r.1 ≡ out ++ go' st) (go st)
        (λ rest. ok (rest.0, out ++ rest.1)) (h st) (λ rest e. ap (λ l. out ++ l) e)
  continue_with-fired go go' h out_of_range = tt
  continue_with-fired go go' h bad_alloc = tt
  continue_with-fired go go' h fault = tt
  continue_with-fired go go' h diverge = tt

  loop-fired :
      (fuel : ℕ) (own : Option ℕ) (raw : List ℕ) (st : CodecState)
      → Returns
          (λ r. r.1 ≡ fired_loop fuel own raw st)
          (loop m parser max_header max_body fuel own raw st)
  unfolding loop fired_loop
  loop-fired zero own raw st = tt
  loop-fired (suc fuel) own raw st =
      continue_with-fired _ _ (loop-fired fuel _ _) (round m parser max_header max_body own raw st)

  fired_behind-Returns {ℓ} :
      {A : Type ℓ} (o : Outcome A) (go : A → List Action)
      (f : A → Outcome (CodecState × List Action))
      → ((a : A) → Returns (λ r. r.1 ≡ go a) (f a))
      → Returns (λ r. r.1 ≡ fired_behind go o) (o >>= f)
  unfolding fired_behind
  fired_behind-Returns (ok a) go f h = h a
  fired_behind-Returns out_of_range go f h = tt
  fired_behind-Returns bad_alloc go f h = tt
  fired_behind-Returns fault go f h = tt
  fired_behind-Returns diverge go f h = tt

  read_bytes-fired :
      (raw : List ℕ) (st : CodecState)
      → Returns (λ r. r.1 ≡ fired_bytes raw st) (read_bytes m parser max_header max_body raw st)
  unfolding read_bytes fired_bytes loop_all
  read_bytes-fired raw st = elim (Bool-cases (readable_bytes st.leftover == 0)) [
    | inl t ↦ elim (Bool-cases (is_letter raw)) [
      | inl l ↦ rw (t, l) (loop-fired (suc (length raw)) none raw st)
      | inr l ↦ rw (t, l) refl
    ]
    | inr t ↦ rw t (
        fired_behind-Returns (write_bytes m st.leftover raw) _ _ (λ b.
          fired_behind-Returns (load b.block b.reader_index (readable_bytes b)) _ _ (λ whole.
            loop-fired (suc (length whole)) (some b.reader_index) whole
              (record st { leftover = b }))))
  ]

  -- Where `channelRead` returns, these are its actions.
  pub channel_read-fired :
      (msg : Message) (st : CodecState)
      → Returns (λ r. r.1 ≡ fired msg st) (channel_read m parser max_header max_body msg st)
  unfolding channel_read fired
  channel_read-fired not_bytes st = refl
  channel_read-fired (bytes []) st = refl
  channel_read-fired (bytes (c ∷ raw)) st = read_bytes-fired (c ∷ raw) st
