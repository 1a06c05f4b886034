-- ===== src/Buffer/Write.antt =====
-- `writeBytes` and `writeByte` append, whatever the allocator does.
use xnetty.Prelude.{
  ℕ, ◌+◌, ◌^◌, ◌≤◌, ◌<◌, ◌≡◌, refl, sym, subst, ap, ap₂, ◌∙◌, List, [], ◌∷◌, ◌++◌, none, arith,
  length, take, drop, length-append, length-take, length-drop,
}
use xnetty.Memory.{
  Outcome, ok, out_of_range, bad_alloc, fault, diverge, ◌>>=◌, Allocator, add_size, store, store-ok,
}
use xnetty.Prelude.{false, ltb, le→ltb_false}
use xnetty.Prelude.{leb, leb→le, Bool-cases, Option-cases, inl, inr}
use xnetty.Memory.{store-fault}
use xnetty.Memory.Returns.{Returns, Returns->>=, Returns-any, Returns-if}
use xnetty.Buffer.{ensure_writable, expand, ByteBuf, write_bytes, write_byte, set_writer_index}
use xnetty.Buffer.Inv.{IsValid, contents, window, window-write}
use xnetty.Buffer.Growth.{MakesRoom, ensure_writable-MakesRoom}

module _ (m : Allocator) where
  -- What a write may leave: the bytes appended, or the exception if the allocator refused.
  abbrev pub Appends : ByteBuf → List ℕ → Outcome ByteBuf → Type 0
  Appends b src (ok b') = IsValid b' × (contents b' ≡ contents b ++ src)
  Appends b src bad_alloc =
      (b.capacity < b.writer_index + length src) × ((n : ℕ) × (m.realloc b.block n ≡ none))
  Appends b src _ = ⊥

  -- What `writeBytes` does once there is room.
  unfoldable pub append_at : ByteBuf → List ℕ → Outcome ByteBuf
  append_at b' src = do
    block' ← store b'.block b'.writer_index src
    ok (record b' { block = block'; writer_index = add_size b'.writer_index (length src) })

  length-splice :
      (block src : List ℕ) (w : ℕ)
      → w + length src ≤ length block
      → length (take w block ++ (src ++ drop (w + length src) block)) ≡ length block
  length-splice block src w h = omega (
    arith,
    length-append (take w block) (src ++ drop (w + length src) block),
    length-append src (drop (w + length src) block),
    length-take w block,
    length-drop (w + length src) block,
  )

  append_at-Appends :
      (b b' : ByteBuf) (src : List ℕ)
      → IsValid b
      → MakesRoom m b (b.writer_index + length src) (ok b')
      → Appends b src (append_at b' src)
  unfolding append_at
  append_at-Appends b b' src v (v', re, we, keep, room, more) =
      rw (store-ok b'.block b'.writer_index src fits) (
        record {
          sized = length-splice b'.block src b'.writer_index fits ∙ v'.sized;
          small = v'.small;
          ordered = omega arith;
          within = omega arith;
        },
        window-write b'.reader_index b'.writer_index _ b'.block src
              (drop (b'.writer_index + length src) b'.block) v'.ordered (omega arith) (omega arith)
            ∙ ap (λ l. l ++ src) same,
      )
    where
      fits : b'.writer_index + length src ≤ length b'.block
      fits = omega arith

      same : contents b' ≡ contents b
      same = ap₂ (λ r w. window r w b'.block) re we ∙ ap (drop b.reader_index) keep

  -- The same for any code that writes `src` once there is room for it.
  pub after_room :
      (b : ByteBuf) (src : List ℕ) (go : ByteBuf → Outcome ByteBuf) (o : Outcome ByteBuf)
      → IsValid b
      → ((b' : ByteBuf)
          → IsValid b'
          → b'.writer_index + length src ≤ b'.capacity
          → go b' ≡ append_at b' src)
      → MakesRoom m b (b.writer_index + length src) o
      → Appends b src (o >>= go)
  after_room b src go (ok b') v same h =
      subst (Appends b src) (sym (same b' h.0 (let we = h.2 in let room = h.4 in omega arith)))
        (append_at-Appends b b' src v h)
  after_room b src go bad_alloc v same (short, (n, _, e)) = (short, (n, e))
  after_room b src go out_of_range v same h = absurd h
  after_room b src go fault v same h = absurd h
  after_room b src go diverge v same h = absurd h

  -- `writeBytes` on a valid buffer appends the bytes, or throws when `realloc` refuses; it never
  -- leaves the block, and it ends.
  pub write_bytes-Appends :
      {b : ByteBuf} (src : List ℕ)
      → IsValid b
      → b.writer_index + length src ≤ 2 ^ 63
      → Appends b src (write_bytes m b src)
  unfolding write_bytes append_at
  write_bytes-Appends {b} src v h =
      after_room b src (λ b'. append_at b' src) _ v (λ b' _ _. refl)
        (ensure_writable-MakesRoom m (length src) v h)

  ensure_writable-bounded :
      (b : ByteBuf) (len : ℕ)
      → IsValid b
      → Returns
          (λ b'. (length b'.block < 2 ^ 63) × (b'.writer_index ≡ b.writer_index))
          (ensure_writable m b len)
  unfolding ensure_writable expand
  ensure_writable-bounded b len v =
      let P : ByteBuf → Type 0 =
        λ b'. (length b'.block < 2 ^ 63) × (b'.writer_index ≡ b.writer_index) in
      Returns-if P (ltb b.capacity (add_size b.writer_index len)) _ (ok b)
        (λ t.
          Returns->>= (λ n. Unit {0}) P _ (expand m b) (Returns-any _)
            (λ n u. elim (Option-cases (m.realloc b.block n)) [
              | inl e ↦ rw (expand, e) tt
              | inr (block', e) ↦
                  let (sz, small) = m.realloc_size b.block n block' e in
                  rw (expand, e) (omega arith, refl)
            ]))
        (λ f. (omega arith, refl))

  Appends-Returns :
      (b : ByteBuf) (src : List ℕ) (o : Outcome ByteBuf)
      → Appends b src o
      → Returns (λ b'. IsValid b' × (contents b' ≡ contents b ++ src)) o
  Appends-Returns b src (ok b') h = h
  Appends-Returns b src bad_alloc h = tt
  Appends-Returns b src out_of_range h = tt
  Appends-Returns b src fault h = tt
  Appends-Returns b src diverge h = tt

  -- `writeBytes` moves the writer index alone.
  pub write_bytes-writer_index :
      (b : ByteBuf) (src : List ℕ)
      → IsValid b
      → Returns (λ b'. b'.writer_index ≡ add_size b.writer_index (length src)) (write_bytes m b src)
  unfolding write_bytes
  write_bytes-writer_index b src v =
      Returns->>= (λ b'. (length b'.block < 2 ^ 63) × (b'.writer_index ≡ b.writer_index))
        (λ b'. b'.writer_index ≡ add_size b.writer_index (length src))
        (ensure_writable m b (length src)) _ (ensure_writable-bounded b (length src) v)
        (λ b' h.
          Returns->>= (λ block. Unit {0})
            (λ c. c.writer_index ≡ add_size b.writer_index (length src))
            (store b'.block b'.writer_index src)
            (λ block.
              ok
                (record b' { block = block; writer_index = add_size b'.writer_index (length src) }))
            (Returns-any (store b'.block b'.writer_index src))
            (λ block u. ap (λ w. add_size w (length src)) h.1))

  -- Whatever the number of bytes: if `writeBytes` returns, they were appended.
  pub write_bytes-Returns :
      (b : ByteBuf) (src : List ℕ)
      → IsValid b
      → Returns (λ b'. IsValid b' × (contents b' ≡ contents b ++ src)) (write_bytes m b src)
  unfolding write_bytes
  write_bytes-Returns b src v = elim (Bool-cases (leb (b.writer_index + length src) (2 ^ 63))) [
    | inl t ↦ Appends-Returns b src (write_bytes m b src) (write_bytes-Appends src v (leb→le _ _ t))
    | inr t ↦
        Returns->>= (λ b'. (length b'.block < 2 ^ 63) × (b'.writer_index ≡ b.writer_index))
          (λ b'. IsValid b' × (contents b' ≡ contents b ++ src)) (ensure_writable m b (length src))
          _ (ensure_writable-bounded b (length src) v)
          (λ b' h.
            rw (store-fault b'.block b'.writer_index src (let (small, same) = h in ground arith))
              tt)
  ]

  pub write_byte-eq-write_bytes :
      (b : ByteBuf) (x : ℕ) → write_byte m b x ≡ write_bytes m b (x ∷ [])
  unfolding write_byte write_bytes
  write_byte-eq-write_bytes b x = refl

pub set_writer_index-ok :
    (b : ByteBuf) (index : ℕ)
    → index ≤ b.capacity
    → set_writer_index b index ≡ ok (record b { writer_index = index })
unfolding set_writer_index
set_writer_index-ok b index h =
    let t : ltb b.capacity index ≡ false = le→ltb_false b.capacity index h in rw t refl
