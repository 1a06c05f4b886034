-- ===== src/Buffer/Shape.antt =====
-- The operations that move the bytes to another block: `shrink`, `trim`, `slice`, copies.
use xnetty.Prelude.{
  ℕ, ◌+◌, ◌-◌, ◌*◌, ◌%◌, ◌≤◌, ◌<◌, ◌≡◌, ◌⊎◌, refl, sym, ap, ◌∙◌, List, ◌++◌, some, arith, length,
  take, drop, ltb, ltb→lt, Bool-cases, Option-cases, inl, inr, ◌&&◌, min, lt→ltb,
}
use xnetty.Prelude.Slices.{take-append, take-min}
use xnetty.Memory.{ok, Allocator, add_size, size_mod, length-front, store_front}
use xnetty.Buffer.{ByteBuf, readable_bytes, trim, compact, shrink}
use xnetty.Buffer.Inv.{IsValid, contents, readable_bytes-eq, length-contents}
use xnetty.Buffer.Read.{load-contents}

compact_lem :
    {b : ByteBuf}
    → IsValid b
    → (b' : ByteBuf) × (compact b ≡ ok b')
      × IsValid b'
      × (contents b' ≡ contents b)
      × (b'.reader_index ≡ 0)
      × (b'.writer_index ≡ readable_bytes b)
      × (b'.capacity ≡ b.capacity)
unfolding compact
compact_lem {b} v = elim (Bool-cases (ltb 0 b.reader_index)) [
  | inl t ↦ (
    record b {
      block = contents b ++ drop (length (contents b)) b.block;
      reader_index = 0;
      writer_index = readable_bytes b;
    },
    rw (t, load-contents v, store_front b.block (contents b) fits),
    record {
      sized = length-front b.block (contents b) fits ∙ v.sized;
      small = v.small;
      ordered = omega arith;
      within = omega (arith, readable_bytes-eq v);
    },
    take-append (readable_bytes b) (contents b) _ (sym (length-contents v)),
    refl,
    refl,
    refl,
  )
  | inr t ↦
      let z : b.reader_index ≡ 0 = ground arith in
      (b, rw t, v, refl, z, omega (arith, readable_bytes-eq v), refl)
]
  where
    fits : length (contents b) ≤ length b.block
    fits = omega (arith, length-contents v, readable_bytes-eq v)

module _ (m : Allocator) where
  -- `shrink` keeps the readable bytes, whether or not a smaller block is made; the result starts at
  -- index 0 and has no larger capacity.
  pub shrink_lem :
      {b : ByteBuf}
      → IsValid b
      → (b' : ByteBuf) × (shrink m b ≡ ok b')
        × IsValid b'
        × (contents b' ≡ contents b)
        × (b'.reader_index ≡ 0)
        × (b'.capacity ≤ b.capacity)
  unfolding shrink
  shrink_lem {b} v =
      let (c, e, vc, same, z, w, cap) = compact_lem v in
      let waste : ℕ = (c.capacity + size_mod - readable_bytes b) % size_mod in
      elim (Bool-cases (ltb 1024 waste && ltb (readable_bytes b * 2 % size_mod) waste)) [
        | inl t ↦ elim (Option-cases (m.realloc c.block (add_size (readable_bytes b) 64))) [
          | inl n ↦ (c, rw (e, t, n), vc, same, z, omega arith)
          | inr (block', r) ↦
              let (sz, small) = m.realloc_size c.block (add_size (readable_bytes b) 64) block' r in
              let room : add_size (readable_bytes b) 64 ≡ readable_bytes b + 64 =
                omega (arith, readable_bytes-eq v) in
              let less : 1024 < waste = ltb→lt _ _ (ground arith) in
              let kept : take c.writer_index block' ≡ take c.writer_index c.block =
                m.realloc_keeps c.block (add_size (readable_bytes b) 64) c.writer_index block' r
                  (omega arith) (omega arith) in
              (
                record c { block = block'; capacity = add_size (readable_bytes b) 64 },
                rw (e, t, r),
                record { sized = sz; small = small; ordered = vc.ordered; within = omega arith },
                ap (drop c.reader_index) kept ∙ same,
                z,
                omega (arith, readable_bytes-eq v),
              )
        ]
        | inr t ↦ (c, rw (e, t), vc, same, z, omega arith)
      ]

  -- On a buffer that starts at index 0, `trim` keeps the first `max_cap` readable bytes.
  pub trim_lem :
      {b : ByteBuf} (max_cap : ℕ)
      → IsValid b
      → b.reader_index ≡ 0
      → IsValid (trim m b max_cap)
        × ((contents (trim m b max_cap) ≡ contents b)
            ⊎ (contents (trim m b max_cap) ≡ take max_cap (contents b)))
  unfolding trim
  trim_lem {b} max_cap v z = elim (Bool-cases (ltb max_cap b.capacity)) [
    | inl t ↦ elim (Option-cases (m.realloc b.block max_cap)) [
      | inl n ↦ rw (t, n) (v, inl refl)
      | inr (block', e) ↦
          let (sz, small) = m.realloc_size b.block max_cap block' e in
          let k : ℕ = min (readable_bytes b) max_cap in
          let kept : take k block' ≡ take k b.block =
            m.realloc_keeps b.block max_cap k block' e (omega (arith, readable_bytes-eq v))
              (omega arith) in
          rw (t, e)
            (
              record { sized = sz; small = small; ordered = omega arith; within = omega arith },
              inr (kept ∙ front),
            )
    ]
    | inr t ↦ rw t (v, inl refl)
  ]
    where
      front : take (min (readable_bytes b) max_cap) b.block ≡ take max_cap (contents b)
      front = sym (
          ap (λ r. take max_cap (drop r (take b.writer_index b.block))) z
          ∙ take-min max_cap b.writer_index (min (readable_bytes b) max_cap) b.block
              (omega (arith, readable_bytes-eq v)))

  -- `trim` does not move the readable bytes to the front: what is readable afterwards are the bytes
  -- from index 0 on, the ones that were read before among them.
  pub trim_stale :
      {b : ByteBuf} (max_cap : ℕ) {block' : List ℕ}
      → IsValid b
      → max_cap < b.capacity
      → m.realloc b.block max_cap ≡ some block'
      → contents (trim m b max_cap) ≡ take (min (readable_bytes b) max_cap) b.block
  unfolding trim
  trim_stale {b} max_cap {block'} v h e =
      rw (lt→ltb max_cap b.capacity h, e)
        (m.realloc_keeps b.block max_cap (min (readable_bytes b) max_cap) block' e
          (omega (arith, readable_bytes-eq v)) (omega arith))
