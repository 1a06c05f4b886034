-- ===== src/Codec/Parts.antt =====
-- A message that comes in parts.
use xnetty.Prelude.{
  ℕ, ◌+◌, ◌^◌, ◌≤◌, ◌<◌, ◌≡◌, refl, sym, ap, ◌∙◌, List, [], ◌∷◌, ◌++◌, true, false, ◌⊎◌, inl, inr,
  none, some, ◌==◌, arith, length,
}
use xnetty.Memory.{Outcome, ok, out_of_range, bad_alloc, fault, diverge, ◌>>=◌, Allocator, add_size}
use xnetty.Memory.Returns.{Returns}
use xnetty.Buffer.{ByteBuf, readable_bytes, write_bytes}
use xnetty.Buffer.Inv.{IsValid, contents, length-contents}
use xnetty.Buffer.Write.{Appends, write_bytes-Appends, write_bytes-writer_index}
use xnetty.Buffer.Read.{load-contents}
use xnetty.Codec.{Parser, ParseCtx, CodecState, Action, run}
use xnetty.Codec.Read.{
  bytes, is_letter, start, keep, round, loop, loop_all, read_bytes, channel_read,
}

letter_nonempty : (raw : List ℕ) → is_letter raw ≡ true → 0 < length raw
letter_nonempty [] l = absurd (ground arith)
letter_nonempty (c ∷ raw) l = omega arith

module _ (m : Allocator) (parser : Parser) (max_header max_body : ℕ) where
  readable :
      {b : ByteBuf} {xs : List ℕ} → IsValid b → contents b ≡ xs → readable_bytes b ≡ length xs
  readable v e = sym (length-contents v) ∙ ap length e

  letter_read :
      (raw : List ℕ) (st : CodecState)
      → is_letter raw ≡ true
      → readable_bytes st.leftover ≡ 0
      → channel_read m parser max_header max_body (bytes raw) st
        ≡ loop_all m parser max_header max_body none raw st
  unfolding channel_read read_bytes
  letter_read [] st l e = absurd (ground arith)
  letter_read (c ∷ raw) st l e = rw (e, l) refl

  -- Bytes that hold no complete message are kept.
  kept :
      {p : ParseCtx} {b : ByteBuf} (raw : List ℕ) (st : CodecState)
      → readable_bytes st.leftover ≡ 0
      → run raw (parser.events raw) (start m parser max_header max_body st.request) ≡ ok p
      → p.header_too_large ≡ false
      → p.msg_complete ≡ false
      → write_bytes m st.leftover raw ≡ ok b
      → loop_all m parser max_header max_body none raw st
        ≡ ok (record { request = p.req; leftover = b }, [])
  unfolding loop_all loop round keep
  kept raw st e parsed small unfinished w = rw (parsed, small, unfinished, e, w) refl

  refused :
      {p : ParseCtx} (raw : List ℕ) (st : CodecState)
      → readable_bytes st.leftover ≡ 0
      → run raw (parser.events raw) (start m parser max_header max_body st.request) ≡ ok p
      → p.header_too_large ≡ false
      → p.msg_complete ≡ false
      → write_bytes m st.leftover raw ≡ bad_alloc
      → loop_all m parser max_header max_body none raw st ≡ bad_alloc
  unfolding loop_all loop round keep
  refused raw st e parsed small unfinished w = rw (parsed, small, unfinished, e, w) refl

  refused_later :
      (raw : List ℕ) (st : CodecState)
      → 0 < length raw
      → 0 < readable_bytes st.leftover
      → write_bytes m st.leftover raw ≡ bad_alloc
      → channel_read m parser max_header max_body (bytes raw) st ≡ bad_alloc
  unfolding channel_read read_bytes
  refused_later [] st l h w = absurd (omega arith)
  refused_later (c ∷ raw) st l h w =
      let some_left : (readable_bytes st.leftover == 0) ≡ false = ground arith in
      rw (some_left, w) refl

  same_outcome : (o : Outcome (CodecState × List Action)) → (o >>= λ r. ok (r.0, r.1)) ≡ o
  same_outcome (ok r) = refl
  same_outcome out_of_range = refl
  same_outcome bad_alloc = refl
  same_outcome fault = refl
  same_outcome diverge = refl

  -- Both parts were parsed as one, or memory was refused.
  abbrev pub Joined : ParseCtx → List ℕ → List ℕ → Outcome (CodecState × List Action) → Type 0
  Joined p raw more o =
      (o ≡ bad_alloc)
      ⊎ ((c : ByteBuf) × (contents c ≡ raw ++ more)
          × (o
              ≡ loop_all m parser max_header max_body (some c.reader_index) (raw ++ more)
                  (record { request = p.req; leftover = c })))

  later_read :
      {b : ByteBuf} {whole : List ℕ} (raw : List ℕ) (st : CodecState)
      → 0 < length raw
      → 0 < readable_bytes st.leftover
      → IsValid b
      → contents b ≡ whole
      → write_bytes m st.leftover raw ≡ ok b
      → channel_read m parser max_header max_body (bytes raw) st
        ≡ loop_all m parser max_header max_body
            (some b.reader_index)
            whole
            (record st { leftover = b })
  unfolding channel_read read_bytes
  later_read [] st l h v e w = absurd (omega arith)
  later_read {b} {whole} (c ∷ raw) st l h v e w =
      let some_left : (readable_bytes st.leftover == 0) ≡ false = ground arith in
      rw (some_left, w, load-contents v, e) refl

  -- Two reads, one after the other, and the actions of both.
  unfoldable pub read_twice : List ℕ → List ℕ → CodecState → Outcome (CodecState × List Action)
  read_twice raw more st = do
    first ← channel_read m parser max_header max_body (bytes raw) st
    second ← channel_read m parser max_header max_body (bytes more) first.0
    ok (second.0, first.1 ++ second.1)

  -- The second read, where the first part is in `leftover`.
  second_read :
      (p : ParseCtx) (b : ByteBuf) (raw more : List ℕ)
      → IsValid b
      → contents b ≡ raw
      → 0 < length raw
      → 0 < length more
      → (o : Outcome ByteBuf) → write_bytes m b more ≡ o
      → Appends m b more o
      → Joined p raw more (
          channel_read m parser max_header max_body
            (bytes more)
            (record { request = p.req; leftover = b }))
  second_read p b raw more v e l l' (ok c) w (vc, ec) =
      let whole : contents c ≡ raw ++ more = ec ∙ ap (λ t. t ++ more) e in
      let size : 0 < readable_bytes b = let s = readable v e in omega arith in
      inr (c, whole, later_read more (record { request = p.req; leftover = b }) l' size vc whole w)
  second_read p b raw more v e l l' bad_alloc w h =
      let size : 0 < readable_bytes b = let s = readable v e in omega arith in
      inl (refused_later more (record { request = p.req; leftover = b }) l' size w)
  second_read p b raw more v e l l' out_of_range w h = absurd h
  second_read p b raw more v e l l' fault w h = absurd h
  second_read p b raw more v e l l' diverge w h = absurd h

  first_read :
      (st : CodecState) (p : ParseCtx) (raw more : List ℕ)
      → IsValid st.leftover
      → contents st.leftover ≡ []
      → is_letter raw ≡ true
      → 0 < length more
      → run raw (parser.events raw) (start m parser max_header max_body st.request) ≡ ok p
      → p.header_too_large ≡ false
      → p.msg_complete ≡ false
      → st.leftover.writer_index + length raw + length more ≤ 2 ^ 63
      → (o : Outcome ByteBuf) → write_bytes m st.leftover raw ≡ o
      → Appends m st.leftover raw o
      → Returns (λ b. b.writer_index ≡ add_size st.leftover.writer_index (length raw)) o
      → Joined p raw more (read_twice raw more st)
  unfolding read_twice
  first_read st p raw more v none_left l l' parsed small unfinished room (ok b) w (vb, eb) at =
      let empty_left = readable v none_left in
      let held : contents b ≡ raw = eb ∙ ap (λ t. t ++ raw) none_left in
      let room' : b.writer_index + length more ≤ 2 ^ 63 = omega arith in
      rw
        (
          letter_read raw st l empty_left,
          kept raw st empty_left parsed small unfinished w,
          same_outcome (
              channel_read m parser max_header max_body (bytes more)
                (record { request = p.req; leftover = b })),
        )
        (second_read p b raw more vb held (letter_nonempty raw l) l' (write_bytes m b more) refl
          (write_bytes-Appends m more vb room'))
  first_read st p raw more v none_left l l' parsed small unfinished room bad_alloc w h at =
      let empty_left = readable v none_left in
      rw (letter_read raw st l empty_left, refused raw st empty_left parsed small unfinished w)
        (inl refl)
  first_read st p raw more v none_left l l' parsed small unfinished room out_of_range w h at =
      absurd h
  first_read st p raw more v none_left l l' parsed small unfinished room fault w h at = absurd h
  first_read st p raw more v none_left l l' parsed small unfinished room diverge w h at = absurd h

  -- Where nothing was left over, and the first bytes begin with a capital letter and hold neither a
  -- complete message nor a header section above the limit: two reads, of these bytes and of more that
  -- are at least one, pass on nothing for the first bytes and do what the loop does with both parts as
  -- one, or a `realloc` that was refused throws `std::bad_alloc`. The bytes are at most 2^63 with the
  -- writer index.
  pub channel_read-parts :
      (st : CodecState) (p : ParseCtx) (raw more : List ℕ)
      → IsValid st.leftover
      → contents st.leftover ≡ []
      → is_letter raw ≡ true
      → 0 < length more
      → run raw (parser.events raw) (start m parser max_header max_body st.request) ≡ ok p
      → p.header_too_large ≡ false
      → p.msg_complete ≡ false
      → st.leftover.writer_index + length raw + length more ≤ 2 ^ 63
      → Joined p raw more (read_twice raw more st)
  channel_read-parts st p raw more v none_left l l' parsed small unfinished room =
      first_read st p raw more v none_left l l' parsed small unfinished room
        (write_bytes m st.leftover raw) refl (write_bytes-Appends m raw v (omega arith))
        (write_bytes-writer_index m st.leftover raw v)
