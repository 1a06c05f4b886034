-- ===== src/Buffer/Copies.antt =====
-- Constructors, copies and slices.
use xnetty.Prelude.{
  ℕ, ◌+◌, ◌^◌, ◌≤◌, ◌<◌, ◌≡◌, refl, sym, ap, ◌∙◌, List, [], ◌++◌, none, some, arith, length, take,
  drop, length-take, length-drop, ltb, ltb→lt, Bool-cases, Option-cases, inl, inr, le→ltb_false,
}
use xnetty.Prelude.Slices.{take-append, take-all, nil_of_length}
use xnetty.Memory.{
  Outcome, ok, out_of_range, fault, Allocator, add_size, load, load-ok, length-front, store_front,
  store-fault, load-fault,
}
use xnetty.Buffer.{ByteBuf, malloc_unchecked, allocate, wrap, copy, slice}
use xnetty.Buffer.Inv.{IsValid, contents, window}

module _ (m : Allocator) where
  unchecked-some : {n : ℕ} {b : List ℕ} → m.malloc n ≡ some b → malloc_unchecked m n ≡ b
  unchecked-some e = rw (e, malloc_unchecked)

  unchecked-none : {n : ℕ} → m.malloc n ≡ none → malloc_unchecked m n ≡ []
  unchecked-none e = rw (e, malloc_unchecked)

  -- A constructed buffer is valid and empty, if the allocator gave a block.
  pub allocate-IsValid :
      (n : ℕ) {b : List ℕ}
      → m.malloc n ≡ some b
      → IsValid (allocate m n)
        × (contents (allocate m n) ≡ [])
        × ((allocate m n).capacity ≡ n)
        × ((allocate m n).reader_index ≡ 0)
  unfolding allocate
  allocate-IsValid n {b} e =
      let (sz, small) = m.malloc_size n b e in
      elim (Bool-cases (ltb 0 n)) [
        | inl t ↦
            rw (t, unchecked-some e)
              (
                record { sized = sz; small = small; ordered = omega arith; within = omega arith },
                refl,
                refl,
                refl,
              )
        | inr t ↦ rw t (omega arith, refl, ground arith, refl)
      ]

  -- What a copy may leave. `fault` stands for a copy into the null pointer.
  abbrev pub Copies : List ℕ → ℕ → Outcome ByteBuf → Type 0
  Copies src n (ok b') = IsValid b' × (contents b' ≡ src)
  Copies src n fault = m.malloc n ≡ none
  Copies src n _ = ⊥

  -- `wrap` and `copyOf` make a valid buffer of the bytes; only a failed `malloc`, which they do not
  -- test, makes them write outside of a block.
  pub wrap-Copies : (src : List ℕ) → Copies src (length src) (wrap m src)
  unfolding wrap
  wrap-Copies src = elim (Bool-cases (ltb 0 (length src))) [
    | inl t ↦ elim (Option-cases (m.malloc (length src))) [
      | inl n ↦ rw (t, unchecked-none n, store-fault [] 0 src (ground arith)) n
      | inr (b, e) ↦
          let (sz, small) = m.malloc_size (length src) b e in
          rw (t, unchecked-some e, store_front b src (omega arith))
            (
              record {
                sized = length-front b src (omega arith) ∙ sz;
                small = small;
                ordered = omega arith;
                within = omega arith;
              },
              take-append (length src) src _ refl,
            )
    ]
    | inr t ↦ rw t (omega arith, take-all 0 src (ground arith))
  ]

  -- The copy constructor copies the readable bytes and both indices, if the allocator gives a block.
  pub copy_lem :
      {b : ByteBuf} {blk : List ℕ}
      → IsValid b
      → m.malloc b.capacity ≡ some blk
      → (b' : ByteBuf) × (copy m b ≡ ok b')
        × IsValid b'
        × (contents b' ≡ contents b)
        × (b'.reader_index ≡ b.reader_index)
        × (b'.capacity ≡ b.capacity)
  unfolding copy
  copy_lem {b} {blk} v e = elim (Bool-cases (ltb 0 b.capacity)) [
    | inl t ↦
        let (sz, small) = m.malloc_size b.capacity blk e in
        (
          record b { block = written ++ drop (length written) blk },
          rw (t, whole, unchecked-some e, store_front blk written (omega (arith, len))),
          record {
            sized = length-front blk written (omega (arith, len)) ∙ sz;
            small = small;
            ordered = v.ordered;
            within = v.within;
          },
          ap (drop b.reader_index) (take-append b.writer_index written _ (sym len)),
          refl,
          refl,
        )
    | inr t ↦
        let z : b.capacity ≡ 0 = ground arith in
        (
          record b { block = []; capacity = 0 },
          rw t,
          record { sized = refl; small = omega arith; ordered = v.ordered; within = omega arith },
          ap (window b.reader_index b.writer_index) (sym (nil_of_length b.block (omega arith))),
          refl,
          sym z,
        )
  ]
    where
      written : List ℕ
      written = take b.writer_index b.block

      len : length written ≡ b.writer_index
      len = omega (arith, length-take b.writer_index b.block)

      whole : load b.block 0 b.writer_index ≡ ok written
      whole = load-ok b.block 0 b.writer_index (omega arith)

  -- What `slice` may give.
  abbrev pub Slices : ByteBuf → ℕ → ℕ → Outcome ByteBuf → Type 0
  Slices b index len (ok s) =
      (index + len ≤ b.writer_index) × IsValid s × (contents s ≡ take len (drop index b.block))
  Slices b index len out_of_range = b.writer_index < index + len
  Slices b index len _ = ⊥

  -- `slice` copies `len` bytes from `index` on if they lie before the writer index, and throws if they
  -- do not, when the allocator gives a block and the sum does not wrap.
  pub slice-Slices :
      {b : ByteBuf} (index len : ℕ) {blk : List ℕ}
      → IsValid b
      → m.malloc len ≡ some blk
      → index + len < 2 ^ 64
      → Slices b index len (slice m b index len)
  unfolding slice
  slice-Slices {b} index len v e h = rw same (elim (Bool-cases (ltb b.writer_index (index + len))) [
    | inl t ↦ rw t (ltb→lt _ _ t)
    | inr t ↦
        let fits : index + len ≤ b.writer_index = ground arith in
        let (va, _, cap, zero_read) = allocate-IsValid len e in
        let n : length bytes ≡ len =
          omega (arith, length-take len (drop index b.block), length-drop index b.block) in
        rw
          (
            t,
            load-ok b.block index len (omega arith),
            store_front (allocate m len).block bytes (omega arith),
          )
          (
            fits,
            record {
              sized = length-front (allocate m len).block bytes (omega arith) ∙ va.sized;
              small = va.small;
              ordered = omega arith;
              within = omega arith;
            },
            ap (λ r. drop r (take len (bytes ++ drop (length bytes) (allocate m len).block)))
                  zero_read
                ∙ take-append len bytes _ (sym n),
          )
  ])
    where
      same : add_size index len ≡ index + len
      same = omega arith

      bytes : List ℕ
      bytes = take len (drop index b.block)

  -- The guard of `slice` adds in `size_t`: a sum that wraps to a small number passes it, and the
  -- copy reads outside of the block.
  pub slice_overflow :
      {b : ByteBuf} (index len : ℕ)
      → IsValid b
      → 2 ^ 64 ≤ index + len
      → index + len ≤ 2 ^ 64 + b.writer_index
      → slice m b index len ≡ fault
  unfolding slice
  slice_overflow {b} index len v lo hi =
      let low : add_size index len ≤ b.writer_index = omega arith in
      rw (
        le→ltb_false b.writer_index (add_size index len) low,
        load-fault b.block index len (omega arith),
      )
