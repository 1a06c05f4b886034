-- ===== src/Response/Serialize.antt =====
-- `serialize` and `serializeHeaders` append the text of the response to the buffer.
use mathlib.Core.Path.{fun_ext}
use xnetty.Prelude.{ℕ, ◌+◌, ◌^◌, ◌≤◌, ◌≡◌, refl, sym, ap, ◌∙◌, ◌++◌, length, length-append, arith}
use xnetty.Prelude.Splice.{splice}
use xnetty.Prelude.Text.{Text}
use xnetty.Memory.{Outcome, ok, ◌>>=◌, >>=-assoc, Allocator, add_size, store-ok}
use xnetty.Buffer.{ByteBuf, ensure_writable}
use xnetty.Buffer.Inv.{IsValid}
use xnetty.Buffer.Growth.{ensure_writable-MakesRoom}
use xnetty.Buffer.Write.{Appends, append_at, after_room, set_writer_index-ok}
use xnetty.Response.{
  HttpResponse, head_size, put_head, put_body, finish, serialize, serialize_headers,
}
use xnetty.Response.Wire.{wire, wire_head}
use xnetty.Response.Sizes.{head_size-length}
use xnetty.Response.Writes.{Writes-then, Writes-head, Writes-body}

-- `append_at` in the form in which the text was written.
finish-append_at :
    (m : Allocator) (b : ByteBuf) (src : Text)
    → IsValid b
    → b.writer_index + length src ≤ b.capacity
    → finish b (splice (b.writer_index + 0) src b.block, 0 + length src) ≡ append_at m b src
unfolding append_at
finish-append_at m b src v room =
    let e : b.writer_index + 0 ≡ b.writer_index = omega arith in
    let e' : 0 + length src ≡ length src = omega arith in
    let small : add_size b.writer_index (length src) ≤ b.capacity = omega arith in
    rw (e, e')
      (set_writer_index-ok (record b { block = splice b.writer_index src b.block }) _ small
        ∙ sym (
            ap
              (λ o. o >>= λ block'.
                ok (record b {
                  block = block';
                  writer_index = add_size b.writer_index (length src);
                }))
              (store-ok b.block b.writer_index src (omega arith))))

module _ (m : Allocator) where
  writing : HttpResponse → ByteBuf → Outcome ByteBuf
  writing r b' = do
    s ← put_head b'.writer_index (length (wire r)) r (b'.block, 0)
    s' ← put_body b'.writer_index r s
    finish b' s'

  writing-append_at :
      (r : HttpResponse) (b' : ByteBuf)
      → IsValid b'
      → b'.writer_index + length (wire r) ≤ b'.capacity
      → writing r b' ≡ append_at m b' (wire r)
  unfolding writing wire
  writing-append_at r b' v room =
      let n = length (wire_head r ++ r.body) in
      >>=-assoc (put_head b'.writer_index n r (b'.block, 0)) (put_body b'.writer_index r)
        (finish b')
      ∙ ap (λ o. o >>= finish b')
          (Writes-then b'.writer_index n (put_head b'.writer_index n r) (put_body b'.writer_index r)
            (wire_head r) r.body (Writes-head b'.writer_index n r) (Writes-body b'.writer_index n r)
            b'.block 0 (omega arith) (omega arith))
      ∙ finish-append_at m b' (wire_head r ++ r.body) v room

  -- `serialize` on a valid buffer appends the status line, the headers that were set and those that
  -- the response adds, the empty line and the body, or throws when `realloc` refuses; the size that
  -- it computes beforehand is enough, and it never leaves the block.
  pub serialize-Appends :
      {b : ByteBuf} (r : HttpResponse)
      → IsValid b
      → b.writer_index + length (wire r) ≤ 2 ^ 63
      → Appends m b (wire r) (serialize m r b)
  unfolding serialize writing wire
  serialize-Appends {b} r v h =
      let total : add_size (head_size r) (length r.body) ≡ length (wire r) =
        let e = head_size-length r in
        let l = length-append (wire_head r) r.body in
        let w : length (wire r) ≡ length (wire_head r ++ r.body) = refl in omega arith in
      rw total (
        after_room m b (wire r) (writing r) (ensure_writable m b (length (wire r))) v
          (writing-append_at r) (ensure_writable-MakesRoom m (length (wire r)) v h))

abbrev pub with_size : ℕ → Outcome ByteBuf → Outcome (ByteBuf × ℕ)
with_size n o = do b ← o; ok (b, n)

module _ (m : Allocator) where
  writing_head : HttpResponse → ByteBuf → Outcome ByteBuf
  writing_head r b' = put_head b'.writer_index (length (wire_head r)) r (b'.block, 0) >>= finish b'

  writing_head-append_at :
      (r : HttpResponse) (b' : ByteBuf)
      → IsValid b'
      → b'.writer_index + length (wire_head r) ≤ b'.capacity
      → writing_head r b' ≡ append_at m b' (wire_head r)
  unfolding writing_head
  writing_head-append_at r b' v room =
      ap (λ o. o >>= finish b')
        (Writes-head b'.writer_index (length (wire_head r)) r b'.block 0 (omega arith)
          (omega arith))
      ∙ finish-append_at m b' (wire_head r) v room

  -- `serializeHeaders` appends the same without the body, and returns its size.
  pub serialize_headers-Appends :
      {b : ByteBuf} (r : HttpResponse)
      → IsValid b
      → b.writer_index + length (wire_head r) ≤ 2 ^ 63
      → (o : Outcome ByteBuf) × (serialize_headers m r b ≡ with_size (length (wire_head r)) o)
        × Appends m b (wire_head r) o
  unfolding serialize_headers writing_head
  serialize_headers-Appends {b} r v h =
      let total : head_size r ≡ length (wire_head r) = let e = head_size-length r in omega arith in
      let room = ensure_writable m b (length (wire_head r)) in
      (
        room >>= writing_head r,
        rw total (
            ap (λ f. room >>= f)
              (fun_ext (λ b'.
                >>=-assoc (put_head b'.writer_index (length (wire_head r)) r (b'.block, 0))
                  (finish b') (λ b''. ok (b'', length (wire_head r)))))
            ∙ >>=-assoc room (writing_head r) (λ b''. ok (b'', length (wire_head r)))),
        after_room m b (wire_head r) (writing_head r) room v (writing_head-append_at r)
            (ensure_writable-MakesRoom m (length (wire_head r)) v h),
      )
