-- ===== src/Buffer/Read.antt =====
-- Reading, skipping and comparing.
use xnetty.Prelude.{
  ℕ, ◌+◌, ◌≤◌, ◌<◌, ◌≡◌, ◌↔◌, refl, sym, ap, ◌∙◌, subst, List, [], ◌∷◌, Bool, true, false, arith,
  length, take, drop, length-take, ltb, leb, ltb→lt, Bool-cases, inl, inr, ==_iff, ◌==◌,
}
use xnetty.Prelude.Slices.{take-drop-take, drop-drop, drop-take, drop-all}
use xnetty.Memory.{Outcome, ok, out_of_range, add_size, load, load-ok}
use xnetty.Buffer.{ByteBuf, check_readable, read_bytes, readable_bytes, discard, equal, same_bytes}
use xnetty.Buffer.Inv.{IsValid, contents, readable_bytes-eq, length-contents}

abbrev pub skip : ByteBuf → ℕ → ByteBuf
skip b n = record b { reader_index = b.reader_index + n }

-- Moving the reader index forward drops bytes from the front.
pub skip_lem :
    {b : ByteBuf} (n : ℕ)
    → IsValid b
    → b.reader_index + n ≤ b.writer_index
    → IsValid (skip b n) × (contents (skip b n) ≡ drop n (contents b))
skip_lem {b} n v h = (
  record { sized = v.sized; small = v.small; ordered = h; within = v.within },
  sym (drop-drop b.reader_index n (b.reader_index + n) (take b.writer_index b.block) refl),
)

-- What a read may give: the front bytes, which leave the buffer; or the exception, if there are not
-- enough.
abbrev pub Reads : ByteBuf → ℕ → Outcome (List ℕ × ByteBuf) → Type 0
Reads b len (ok (out, b')) =
    (len ≤ length (contents b))
    × (out ≡ take len (contents b))
    × IsValid b'
    × (contents b' ≡ drop len (contents b))
Reads b len out_of_range = length (contents b) < len
Reads b len _ = ⊥

-- `readBytes`, `readString` and `readStringView` give the first `len` readable bytes and drop them,
-- and throw exactly if there are fewer; they never read outside of the block.
pub read_bytes-Reads : {b : ByteBuf} (len : ℕ) → IsValid b → Reads b len (read_bytes b len)
unfolding read_bytes check_readable
read_bytes-Reads {b} len v = elim (Bool-cases (ltb (readable_bytes b) len)) [
  | inl t ↦ rw t (omega (arith, ltb→lt _ _ t, length-contents v))
  | inr t ↦
      let enough : len ≤ readable_bytes b = ground arith in
      let fits : b.reader_index + len ≤ b.writer_index = omega (arith, readable_bytes-eq v) in
      let (valid, rest) = skip_lem len v fits in
      let same : add_size b.reader_index len ≡ b.reader_index + len = omega arith in
      rw (t, load-ok b.block b.reader_index len (omega arith), same)
        (
          omega (arith, length-contents v),
          sym (take-drop-take len b.reader_index b.writer_index b.block fits),
          valid,
          rest,
        )
]

-- `discard` drops `len` bytes from the front, or all if there are fewer.
pub discard_lem :
    {b : ByteBuf} (len : ℕ)
    → IsValid b
    → IsValid (discard b len) × (contents (discard b len) ≡ drop len (contents b))
unfolding discard
discard_lem {b} len v = elim (Bool-cases (leb (readable_bytes b) len)) [
  | inl t ↦ rw t (
    record { sized = v.sized; small = v.small; ordered = omega arith; within = v.within },
    drop-all b.writer_index (take b.writer_index b.block)
          (omega (arith, length-take b.writer_index b.block))
        ∙ sym (drop-all len (contents b) (ground (arith, length-contents v))),
  )
  | inr t ↦
      let same : add_size b.reader_index len ≡ b.reader_index + len =
        ground (arith, readable_bytes-eq v) in
      rw (t, same) (skip_lem len v (ground (arith, readable_bytes-eq v)))
]

same_bytes_iff : (xs ys : List ℕ) → (same_bytes xs ys ≡ true) ↔ (xs ≡ ys)
same_bytes_iff [] [] = ground arith
same_bytes_iff [] (y ∷ ys) = ground arith
same_bytes_iff (x ∷ xs) [] = ground arith
same_bytes_iff (x ∷ xs) (y ∷ ys) = ground (arith, same_bytes_iff xs ys)

-- Loading all that is readable gives the contents.
pub load-contents :
    {b : ByteBuf} → IsValid b → load b.block b.reader_index (readable_bytes b) ≡ ok (contents b)
load-contents {b} v =
    load-ok b.block b.reader_index (readable_bytes b) (omega (arith, readable_bytes-eq v))
    ∙ ap ok (
        sym (
          drop-take b.reader_index b.writer_index (readable_bytes b) b.block (readable_bytes-eq v)
            v.ordered))

-- `operator==` on valid buffers decides whether their readable bytes are the same.
pub equal_lem :
    {a b : ByteBuf}
    → IsValid a
    → IsValid b
    → (r : Bool) × (equal a b ≡ ok r) × ((r ≡ true) ↔ (contents a ≡ contents b))
unfolding equal
equal_lem {a} {b} va vb = elim (Bool-cases (readable_bytes a == readable_bytes b)) [
  | inl t ↦
      let n : ℕ = readable_bytes a in
      let same : readable_bytes a ≡ readable_bytes b = (==_iff _ _).0 t in
      let other : load b.block b.reader_index (readable_bytes a) ≡ ok (contents b) =
        subst (λ k. load b.block b.reader_index k ≡ ok (contents b)) (sym same)
          (load-contents vb) in
      (
        same_bytes (contents a) (contents b),
        rw (t, load-contents va, other),
        same_bytes_iff (contents a) (contents b),
      )
  | inr t ↦ (
    false,
    rw t,
    (λ e. cc, λ e. absurd (ground (arith, ap length e, length-contents va, length-contents vb))),
  )
]
