-- ===== src/Worker/Lost.antt =====
-- Bytes of a response that are never sent.
use xnetty.Prelude.{
  ℕ, ◌+◌, ◌<◌, ◌≡◌, refl, sym, subst, ap, ap₂, ◌∙◌, inl, inr, List, [], ◌∷◌, ◌++◌, true, false,
  ◌&&◌, ltb, lt→ltb, ◌==◌, arith, length, length-append, take, Bool-cases,
}
use xnetty.Memory.{Allocator}
use xnetty.Memory.Returns.{Returns, Returns->>=}
use xnetty.Buffer.{readable_bytes, write_bytes, clear}
use xnetty.Buffer.Inv.{IsValid, contents, length-contents}
use xnetty.Buffer.Write.{write_bytes-Returns}
use xnetty.Worker.{Connection, WriteResult, wrote, close, take_written, enable_writing, update}
use xnetty.Worker.Stream.{cleared-contents, flush_write_buf-IsStream}
use xnetty.Worker.Io.{
  send, flush, write_frame, acts, written, flush_write_buf, is_overflow, after_write, on_write, act,
}

written_closed :
    (n : ℕ) (c : Connection)
    → c.keep_alive ≡ false
    → ((written n c).closed ≡ true) × ((written n c).sent ≡ c.sent ++ take n (contents c.write_buf))
unfolding written take_written enable_writing update
written_closed n c k = elim (Bool-cases (ltb 0 (readable_bytes (take_written n c).write_buf))) [
  | inl e ↦ elim (Bool-cases c.fd_open) [
    | inl o ↦ rw (written, k, e, o) (refl, refl)
    | inr o ↦ rw (written, k, e, o) (refl, refl)
  ]
  | inr e ↦ rw (written, k, e) (refl, refl)
]

on_write_closed :
    (now : ℕ) (results : List WriteResult) (c : Connection)
    → c.closed ≡ true
    → on_write now results c ≡ c
unfolding on_write
on_write_closed now results c k = rw (on_write, k) refl

written_shut :
    (n : ℕ) (c : Connection)
    → c.closed ≡ true
    → ((written n c).closed ≡ true) × ((written n c).sent ≡ c.sent ++ take n (contents c.write_buf))
unfolding written take_written enable_writing update
written_shut n c k = elim (Bool-cases c.keep_alive) [
  | inr a ↦ written_closed n c a
  | inl a ↦ elim (Bool-cases (ltb 0 (readable_bytes (take_written n c).write_buf))) [
    | inl e ↦ elim (Bool-cases c.fd_open) [
      | inl o ↦ rw (written, a, e, o) (k, refl)
      | inr o ↦ rw (written, a, e, o) (k, refl)
    ]
    | inr e ↦ rw (written, a, e) (k, refl)
  ]
]

close_fields :
    (c : Connection)
    → ((close c).closed ≡ true) × ((close c).sent ≡ c.sent) × ((close c).write_buf ≡ c.write_buf)
unfolding close
close_fields c = ground arith

-- A connection that counts as closed still writes what a flush asks for, and no more than this.
flush_closed :
    (now later n : ℕ) (results : List WriteResult) (c : Connection)
    → c.closed ≡ true
    → 0 < n
    → 0 < readable_bytes c.write_buf
    → ((flush_write_buf now (wrote n) c).closed ≡ true)
      × ((on_write later results (flush_write_buf now (wrote n) c)).sent
          ≡ c.sent ++ take n (contents c.write_buf))
unfolding flush_write_buf
flush_closed now later n results c k pos some_left =
    let waits : (readable_bytes c.write_buf == 0) ≡ false = ground arith in
    let some_taken : (n == 0) ≡ false = ground arith in
    let c' : Connection = record c { last_write = now } in
    let same : flush_write_buf now (wrote n) c ≡ written n c' = rw (waits, some_taken) refl in
    let (shut, taken) = written_shut n c' k in
    (
      ap (λ d. d.closed) same ∙ shut,
      ap (λ d. (on_write later results d).sent) same
          ∙ ap (λ d. d.sent) (on_write_closed later results (written n c') shut)
          ∙ taken,
    )

module _ (m : Allocator) where
  -- Where the write buffer is valid and the water mark is not 0: if `writeAndFlush` of more bytes than
  -- the mark returns, it has closed the connection, and the flush behind that has written the `n` bytes,
  -- one at least, that the socket took of those that waited and the new ones. `onWrite` sends no more
  -- of them, whatever the socket would take.
  pub send_too_long :
      (now later n : ℕ) (bytes : List ℕ) (r : WriteResult) (results : List WriteResult)
      (c : Connection)
      → IsValid c.write_buf
      → 0 < c.water_mark
      → c.water_mark < length bytes
      → 0 < n
      → Returns
          (λ c'.
            (c'.closed ≡ true)
            × ((on_write later results c').sent ≡ c.sent ++ take n (contents c.write_buf ++ bytes)))
          (acts m (send now bytes r ∷ flush now (wrote n) ∷ []) c)
  unfolding acts act after_write is_overflow
  send_too_long now later n bytes r results c v pos long some_taken =
      let P : Connection → Type 0 = λ c'.
        (c'.closed ≡ true)
        × ((on_write later results c').sent ≡ c.sent ++ take n (contents c.write_buf ++ bytes)) in
      Returns->>=
        (λ c1.
          (c1.closed ≡ true)
          × (c1.sent ≡ c.sent)
          × (contents c1.write_buf ≡ contents c.write_buf ++ bytes)
          × (0 < readable_bytes c1.write_buf))
        P (act m (send now bytes r) c) _
        (Returns->>= (λ b. IsValid b × (contents b ≡ contents c.write_buf ++ bytes)) _
          (write_bytes m c.write_buf bytes) _ (write_bytes-Returns m c.write_buf bytes v)
          (λ b h.
            let (vb, e) = h in
            let size : length (contents b) ≡ length (contents c.write_buf) + length bytes =
              ap length e ∙ length-append (contents c.write_buf) bytes in
            let more : c.water_mark < readable_bytes b =
              let l = length-contents vb in omega arith in
            let over : ltb 0 c.water_mark && ltb c.water_mark (readable_bytes b) ≡ true =
              rw (lt→ltb 0 c.water_mark pos) (lt→ltb c.water_mark (readable_bytes b) more) in
            let d : Connection = record c { write_buf = b; produced = c.produced ++ bytes } in
            let (k, t, w) = close_fields d in
            rw over
              (k, t, ap contents w ∙ e, subst (λ x. 0 < readable_bytes x) (sym w) (omega arith))))
        (λ c1 h.
          let (k, t, e, some_left) = h in
          let (shut, taken) = flush_closed now later n results c1 k some_taken some_left in
          (shut, taken ∙ ap₂ (λ x y. x ++ take n y) t e))

  -- Where the write buffer is valid and `WebSocketCodec::write` returns, it has thrown away what waited
  -- in the buffer: behind what was sent before there is the new frame alone, sent or waiting.
  pub write_frame-discards :
      (now : ℕ) (bytes : List ℕ) (r : WriteResult) (c : Connection)
      → IsValid c.write_buf
      → Returns
          (λ c'. c'.sent ++ contents c'.write_buf ≡ c.sent ++ bytes)
          (act m (write_frame now bytes r) c)
  unfolding act
  write_frame-discards now bytes r c v =
      let (cv, none_left) = cleared-contents c.write_buf v in
      Returns->>= (λ b. IsValid b × (contents b ≡ contents (clear c.write_buf) ++ bytes)) _
        (write_bytes m (clear c.write_buf) bytes) _
        (write_bytes-Returns m (clear c.write_buf) bytes cv)
        (λ b h.
          (flush_write_buf-IsStream (c.sent ++ bytes) (c.produced ++ bytes) now r
            (record c { write_buf = b; produced = c.produced ++ bytes })
            (record {
              valid = h.0;
              whole = ap (λ l. c.sent ++ l) (h.1 ∙ ap (λ l. l ++ bytes) none_left);
              made = refl;
            })).whole)

-- Where a connection is not kept alive and `writev` takes a part of the bytes, the connection counts
-- as closed, and `onWrite` sends none of the rest when the socket can be written.
pub flush_truncated :
    (now later n : ℕ) (results : List WriteResult) (c : Connection)
    → c.keep_alive ≡ false
    → 0 < n
    → n < readable_bytes c.write_buf
    → ((on_write later results (flush_write_buf now (wrote n) c)).sent
        ≡ c.sent ++ take n (contents c.write_buf))
      × ((flush_write_buf now (wrote n) c).closed ≡ true)
unfolding flush_write_buf
flush_truncated now later n results c k pos less =
    let some_left : (readable_bytes c.write_buf == 0) ≡ false = ground arith in
    let some_taken : (n == 0) ≡ false = ground arith in
    let c' : Connection = record c { last_write = now } in
    let same : flush_write_buf now (wrote n) c ≡ written n c' = rw (some_left, some_taken) refl in
    let (shut, taken) = written_closed n c' k in
    (
      ap (λ d. (on_write later results d).sent) same
          ∙ ap (λ d. d.sent) (on_write_closed later results (written n c') shut)
          ∙ taken,
      ap (λ d. d.closed) same ∙ shut,
    )
