-- ===== src/Codec/Limits.antt =====
-- The limit on bodies of `HttpServerCodec`.
use xnetty.Prelude.{
  ℕ, zero, suc, ◌≤◌, ◌<◌, ◌^◌, arith, lt→ltb, ltb, true, ◌≡◌, sym, ap, ◌∙◌, inl, inr, List, [], ◌∷◌,
  Bool, false, Option, none, some, leb, ◌==◌, Bool-cases, length,
}
use xnetty.Prelude.Preds.{All, All-append}
use xnetty.Prelude.Text.{Text}
use xnetty.Prelude.Decimal.{digits}
use xnetty.Memory.{Outcome, ok, out_of_range, bad_alloc, fault, diverge, ◌>>=◌, Allocator, load}
use xnetty.Memory.Returns.{Returns, Returns->>=, Returns-any, Returns-if}
use xnetty.Buffer.{ByteBuf, readable_bytes, write_bytes}
use xnetty.Request.{HttpRequest, find_header, or_empty, header, has_connection_close}
use xnetty.Codec.{
  Parser, ParseCtx, CodecState, Action, pass_on, fire_request, write_and_flush, set_conn_keep_alive,
  signal_activity, run, too_large,
}
use xnetty.Codec.Read.{
  Message, bytes, not_bytes, is_letter, Round, ends, continues, start, keep, consumed, filled,
  finish, complete, round, channel_read,
}
use xnetty.Codec.Decimals.{body_len-digits, digits_nonempty}
use xnetty.Codec.Fired.{
  fired_round, fired_behind, fired_loop, fired_bytes, fired, channel_read-fired,
}
use xnetty.Codec.Headers.{content_length_key, Found, header-Found}

-- Of a request that is passed on: a number of 64 bits that its `Content-Length` gives in decimal is not
-- above the limit.
abbrev pub Within : ℕ → Action → Type 0
Within max_body (fire_request r) =
    (n : ℕ)
    → or_empty (find_header content_length_key r.headers) ≡ digits n
    → n < 2 ^ 64
    → n ≤ max_body
Within max_body pass_on = Unit
Within max_body (write_and_flush _) = Unit
Within max_body (set_conn_keep_alive _) = Unit
Within max_body signal_activity = Unit

true_ne_false : ¬ (true ≡ false)
true_ne_false e = ground (arith, e)

-- What the test of the code says of a decimal.
allowed_length :
    (max_body n : ℕ) (cl : Text)
    → 0 < max_body
    → too_large max_body cl ≡ false
    → cl ≡ digits n
    → n < 2 ^ 64
    → n ≤ max_body
unfolding too_large
allowed_length max_body n cl pos low e small =
    let reads = body_len-digits n small in
    elim (Bool-cases (ltb max_body n)) [
      | inl t ↦
          let above : too_large max_body (digits n) ≡ true =
            rw (lt→ltb 0 max_body pos, digits_nonempty n, reads) t in
          let below : too_large max_body (digits n) ≡ false =
            ap (too_large max_body) (sym e) ∙ low in
          absurd (true_ne_false (sym above ∙ below))
      | inr t ↦ ground arith
    ]

abbrev WithinRound : ℕ → Round → Type 0
WithinRound max_body (ends st out) = All (Within max_body) out
WithinRound max_body (continues st out) = All (Within max_body) out

module _ (m : Allocator) (parser : Parser) (max_header max_body : ℕ) (limited : 0 < max_body) where
  finish-Within :
      (raw : List ℕ) (b : ByteBuf) (close : Bool) (cl : Text) (r : HttpRequest)
      → cl ≡ or_empty (find_header content_length_key r.headers)
      → WithinRound max_body (finish m parser max_header max_body raw b close cl r)
  unfolding finish
  finish-Within raw b close cl r e = elim (Bool-cases (too_large max_body cl)) [
    | inl t ↦ rw t (tt, (tt, (tt, tt)))
    | inr t ↦
        let low : Within max_body (fire_request r) =
          λ n same small. allowed_length max_body n cl limited t (e ∙ same) small in
        elim (Bool-cases (leb (length raw) (consumed m parser max_header max_body raw))) [
          | inl l ↦ rw (t, l) (tt, (tt, (low, tt)))
          | inr l ↦ rw (t, l) (tt, (tt, (low, tt)))
        ]
  ]

  complete-Within :
      (raw : List ℕ) (p : ParseCtx) (b : ByteBuf)
      → Returns (WithinRound max_body) (complete m parser max_header max_body raw p b)
  unfolding complete
  complete-Within raw p b =
      let r = filled m parser max_header max_body raw p in
      let W = WithinRound max_body in
      Returns->>= (λ c. Unit {0}) W (has_connection_close r)
        (λ close. header content_length_key r >>= λ h.
          ok (finish m parser max_header max_body raw b close h.0 h.1))
        (Returns-any (has_connection_close r))
        (λ close u.
          Returns->>= (Found content_length_key r) W (header content_length_key r)
            (λ h. ok (finish m parser max_header max_body raw b close h.0 h.1))
            (header-Found content_length_key r)
            (λ h found. finish-Within raw b close h.0 h.1 found.1))

  round-Within :
      (own : Option ℕ) (raw : List ℕ) (st : CodecState)
      → Returns (WithinRound max_body) (round m parser max_header max_body own raw st)
  unfolding round
  round-Within own raw st =
      Returns->>= (λ p. Unit {0}) (WithinRound max_body)
        (run raw (parser.events raw) (start m parser max_header max_body st.request)) _
        (Returns-any (run raw (parser.events raw) (start m parser max_header max_body st.request)))
        (λ p u.
          Returns-if (WithinRound max_body) p.header_too_large _ _ (λ t. (tt, tt))
            (λ t.
              Returns-if (WithinRound max_body) p.msg_complete _ _
                (λ c. complete-Within raw p st.leftover)
                (λ c.
                  Returns->>= (λ b. Unit {0}) (WithinRound max_body)
                    (keep m parser max_header max_body own raw st.leftover) _
                    (Returns-any (keep m parser max_header max_body own raw st.leftover))
                    (λ b h. tt))))

  fired_round-Within :
      (go : CodecState → List Action) (o : Outcome Round)
      → ((st : CodecState) → All (Within max_body) (go st))
      → Returns (WithinRound max_body) o
      → All (Within max_body) (fired_round go o)
  unfolding fired_round
  fired_round-Within go (ok (ends st out)) h w = w
  fired_round-Within go (ok (continues st out)) h w =
      All-append (Within max_body) out (go st) w (h st)
  fired_round-Within go out_of_range h w = tt
  fired_round-Within go bad_alloc h w = tt
  fired_round-Within go fault h w = tt
  fired_round-Within go diverge h w = tt

  fired_loop-Within :
      (fuel : ℕ) (own : Option ℕ) (raw : List ℕ) (st : CodecState)
      → All (Within max_body) (fired_loop m parser max_header max_body fuel own raw st)
  unfolding fired_loop
  fired_loop-Within zero own raw st = tt
  fired_loop-Within (suc fuel) own raw st =
      fired_round-Within _ (round m parser max_header max_body own raw st)
        (fired_loop-Within fuel _ _) (round-Within own raw st)

  fired_behind-Within {ℓ} :
      {A : Type ℓ} (go : A → List Action) (o : Outcome A)
      → ((a : A) → All (Within max_body) (go a))
      → All (Within max_body) (fired_behind go o)
  unfolding fired_behind
  fired_behind-Within go (ok a) h = h a
  fired_behind-Within go out_of_range h = tt
  fired_behind-Within go bad_alloc h = tt
  fired_behind-Within go fault h = tt
  fired_behind-Within go diverge h = tt

  fired_bytes-Within :
      (raw : List ℕ) (st : CodecState)
      → All (Within max_body) (fired_bytes m parser max_header max_body raw st)
  unfolding fired_bytes
  fired_bytes-Within raw st = elim (Bool-cases (readable_bytes st.leftover == 0)) [
    | inl t ↦ elim (Bool-cases (is_letter raw)) [
      | inl l ↦ rw (t, l) (fired_loop-Within (suc (length raw)) none raw st)
      | inr l ↦ rw (t, l) (tt, tt)
    ]
    | inr t ↦ rw t (
        fired_behind-Within _ (write_bytes m st.leftover raw) (λ b.
          fired_behind-Within _ (load b.block b.reader_index (readable_bytes b)) (λ whole.
            fired_loop-Within (suc (length whole)) (some b.reader_index) whole
              (record st { leftover = b }))))
  ]

  fired-Within :
      (msg : Message) (st : CodecState)
      → All (Within max_body) (fired m parser max_header max_body msg st)
  unfolding fired
  fired-Within not_bytes st = (tt, tt)
  fired-Within (bytes []) st = (tt, tt)
  fired-Within (bytes (c ∷ raw)) st = fired_bytes-Within (c ∷ raw) st

  -- With a limit on bodies that is not 0, `channelRead` passes on no request whose `Content-Length` is
  -- the decimal of a number of 64 bits above the limit, whatever bytes come, however they are cut,
  -- whatever the parser makes of them, and however `channelRead` ends: an exception takes back nothing
  -- that was passed on before, which `fired` counts in; where `channelRead` returns, its actions are
  -- those of `fired`.
  pub channel_read-Within :
      (msg : Message) (st : CodecState)
      → All (Within max_body) (fired m parser max_header max_body msg st)
        × Returns
            (λ r. r.1 ≡ fired m parser max_header max_body msg st)
            (channel_read m parser max_header max_body msg st)
  channel_read-Within msg st =
      (fired-Within msg st, channel_read-fired m parser max_header max_body msg st)
