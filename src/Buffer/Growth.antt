-- ===== src/Buffer/Growth.antt =====
-- `ensureWritable` and `expand`: the loop ends, and the bytes stay.
use native.Mathlib.Nat.{pow-suc, pow-zero}
use xnetty.Prelude.{
  ℕ, refl, subst, sym, zero, suc, ◌+◌, ◌*◌, ◌%◌, ◌^◌, ◌≤◌, ◌<◌, ◌≡◌, inl, inr, arith, max, none,
  Bool-cases, Option-cases, take, ltb, ltb→lt, ◌==◌, if◌then◌else◌,
}
use xnetty.Memory.{Outcome, ok, bad_alloc, Allocator, add_size, size_mod}
use xnetty.Buffer.{ByteBuf, grow, expand, ensure_writable, reserve}
use xnetty.Buffer.Inv.{IsValid}

-- The doubling loop ends with room for what is needed, and overshoots it by less than a factor of 2.
pub grow_lem :
    (rounds c need : ℕ)
    → need ≤ c * 2 ^ rounds
    → need ≤ 2 ^ 63
    → (n : ℕ) × (grow rounds c need ≡ ok n) × (need ≤ n) × (n ≤ max c (2 * need))
unfolding grow
grow_lem zero c need h small =
    let h' : need ≤ c = omega (arith, pow-zero 2) in (c, ground arith, h', omega arith)
grow_lem (suc rounds) c need h small = elim (Bool-cases (ltb c need)) [
  | inl t ↦
      let lt = ltb→lt c need t in
      let same : c * 2 % size_mod ≡ c * 2 = omega arith in
      let h1 : need ≤ c * (2 ^ rounds * 2) = rw pow-suc at h in
      let h' : need ≤ c * 2 * 2 ^ rounds = omega arith in
      let (n, e, room, bound) = grow_lem rounds (c * 2) need (omega arith) small in
      (n, rw t (subst (λ k. grow rounds k need ≡ ok n) (sym same) e), room, omega arith)
  | inr t ↦ (c, rw t, ground arith, omega arith)
]

module _ (m : Allocator) where
  -- What `ensureWritable` and `reserve` leave: a valid buffer with the same bytes and room for the
  -- capacity that is asked for; or the exception, if the allocator refused.
  abbrev pub MakesRoom : ByteBuf → ℕ → Outcome ByteBuf → Type 0
  MakesRoom b need (ok b') =
      IsValid b'
      × (b'.reader_index ≡ b.reader_index)
      × (b'.writer_index ≡ b.writer_index)
      × (take b.writer_index b'.block ≡ take b.writer_index b.block)
      × (need ≤ b'.capacity)
      × (b.capacity ≤ b'.capacity)
  MakesRoom b need bad_alloc =
      (b.capacity < need) × ((n : ℕ) × (need ≤ n) × (m.realloc b.block n ≡ none))
  MakesRoom b need _ = ⊥

  expand-MakesRoom :
      {b : ByteBuf} (n need : ℕ)
      → IsValid b
      → b.capacity < need
      → need ≤ n
      → MakesRoom b need (expand m b n)
  unfolding expand
  expand-MakesRoom {b} n need v h k = elim (Option-cases (m.realloc b.block n)) [
    | inl e ↦ rw (e, expand) (h, (n, k, e))
    | inr (block', e) ↦
        let (sz, small) = m.realloc_size b.block n block' e in
        rw (e, expand)
          (
            record { sized = sz; small = small; ordered = v.ordered; within = omega arith },
            refl,
            refl,
            m.realloc_keeps b.block n b.writer_index block' e (omega arith) (omega arith),
            k,
            omega arith,
          )
  ]

  MakesRoom-self :
      {b : ByteBuf} (need : ℕ) → IsValid b → need ≤ b.capacity → MakesRoom b need (ok b)
  MakesRoom-self need v h = (v, refl, refl, refl, h, omega arith)

  -- `reserve` gives the capacity that is asked for.
  pub reserve-MakesRoom : {b : ByteBuf} (n : ℕ) → IsValid b → MakesRoom b n (reserve m b n)
  unfolding reserve
  reserve-MakesRoom {b} n v = elim (Bool-cases (ltb b.capacity n)) [
    | inl t ↦ rw t (expand-MakesRoom n n v (ltb→lt _ _ t) (omega arith))
    | inr t ↦ rw t (MakesRoom-self n v (ground arith))
  ]

  -- In a valid buffer whose writer index and `len` make at most 2^63 together, `ensureWritable` does not
  -- loop for ever: it makes room for `len` more bytes and keeps the bytes that are there, or it throws
  -- `std::bad_alloc`.
  pub ensure_writable-MakesRoom :
      {b : ByteBuf} (len : ℕ)
      → IsValid b
      → b.writer_index + len ≤ 2 ^ 63
      → MakesRoom b (b.writer_index + len) (ensure_writable m b len)
  unfolding ensure_writable
  ensure_writable-MakesRoom {b} len v h = rw no_wrap (elim (Bool-cases (ltb b.capacity need)) [
    | inl t ↦
        let lt = ltb→lt _ _ t in
        let (n, e, room, bound) = grow_lem 64 start need (grind arith) h in
        rw (t, e) (expand-MakesRoom n need v lt room)
    | inr t ↦ rw t (MakesRoom-self need v (ground arith))
  ])
    where
      need : ℕ
      need = b.writer_index + len

      no_wrap : add_size b.writer_index len ≡ need
      no_wrap = omega arith

      start : ℕ
      start = if b.capacity * 2 % size_mod == 0 then 64 else b.capacity * 2 % size_mod
