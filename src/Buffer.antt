-- ===== src/Buffer.antt =====
-- The class `ByteBuf` (include/xnetty/buffer/byte_buf.h, src/buffer/byte_buf.cpp). A method returns
-- the new object, beside its result where it has one; one that throws leaves the object as it was.
pub mod Inv
pub mod Growth
pub mod Write
pub mod Read
pub mod Shape
pub mod Copies
mod Tests
use xnetty.Prelude.{
  ℕ, zero, suc, ◌+◌, ◌-◌, ◌*◌, ◌%◌, List, [], ◌∷◌, Bool, true, false, none, some, length, leb, ltb,
  ◌==◌, if◌then◌else◌, ◌&&◌, min,
}
use xnetty.Memory.{
  Outcome, ok, out_of_range, bad_alloc, fault, diverge, ◌>>=◌, Allocator, add_size, size_mod, store,
  load,
}

-- `block` is what `data_` points to.
pub record ByteBuf : Type 0 where
  pub block : List ℕ
  pub capacity : ℕ
  pub reader_index : ℕ
  pub writer_index : ℕ

-- The default constructor, and an object that was moved from.
abbrev pub empty : ByteBuf
empty = record { block = []; capacity = 0; reader_index = 0; writer_index = 0 }

-- `size_t` subtraction: it wraps.
unfoldable pub readable_bytes : ByteBuf → ℕ
readable_bytes b = (b.writer_index + size_mod - b.reader_index) % size_mod

pub writable_bytes : ByteBuf → ℕ
writable_bytes b = (b.capacity + size_mod - b.writer_index) % size_mod

pub check_readable : ByteBuf → ℕ → Outcome ByteBuf
check_readable b needed = if ltb (readable_bytes b) needed then out_of_range else ok b

pub read_bytes : ByteBuf → ℕ → Outcome (List ℕ × ByteBuf)
read_bytes b len = do
  b' ← check_readable b len
  bytes ← load b'.block b'.reader_index len
  ok (bytes, record b' { reader_index = add_size b'.reader_index len })

abbrev first_byte : List ℕ → Outcome ℕ
first_byte [] = fault
first_byte (x ∷ xs) = ok x

pub read_byte : ByteBuf → Outcome (ℕ × ByteBuf)
read_byte b = do
  b' ← check_readable b 1
  bytes ← load b'.block b'.reader_index 1
  x ← first_byte bytes
  ok (x, record b' { reader_index = add_size b'.reader_index 1 })

pub set_reader_index : ByteBuf → ℕ → Outcome ByteBuf
set_reader_index b index =
    if ltb b.writer_index index then out_of_range else ok (record b { reader_index = index })

unfoldable pub set_writer_index : ByteBuf → ℕ → Outcome ByteBuf
set_writer_index b index =
    if ltb b.capacity index then out_of_range else ok (record b { writer_index = index })

unfoldable pub clear : ByteBuf → ByteBuf
clear b = record b { reader_index = 0; writer_index = 0 }

unfoldable pub discard : ByteBuf → ℕ → ByteBuf
discard b len =
    if leb (readable_bytes b) len
    then record b { reader_index = b.writer_index }
    else record b { reader_index = add_size b.reader_index len }

-- `memcmp` over the readable bytes of both.
abbrev same_bytes : List ℕ → List ℕ → Bool
same_bytes [] [] = true
same_bytes (x ∷ xs) (y ∷ ys) = x == y && same_bytes xs ys
same_bytes [] (_ ∷ _) = false
same_bytes (_ ∷ _) [] = false

pub equal : ByteBuf → ByteBuf → Outcome Bool
equal a b =
    if readable_bytes a == readable_bytes b
    then (do
      xs ← load a.block a.reader_index (readable_bytes a)
      ys ← load b.block b.reader_index (readable_bytes a)
      ok (same_bytes xs ys))
    else ok false

pub swap : ByteBuf → ByteBuf → ByteBuf × ByteBuf
swap a b = (b, a)

-- The move constructor: the new object, and what is left of the old one.
pub move : ByteBuf → ByteBuf × ByteBuf
move other = (other, empty)

-- The move assignment; `same` tells that both sides are one object.
pub move_assign : Bool → ByteBuf → ByteBuf → ByteBuf × ByteBuf
move_assign same this other = if same then (this, this) else (other, empty)

-- The loop of `ensureWritable`. 64 rounds shift any number out of the word, and at 0 the loop goes
-- on for ever: no more are needed.
unfoldable pub grow : ℕ → ℕ → ℕ → Outcome ℕ
grow zero new_cap need = if ltb new_cap need then diverge else ok new_cap
grow (suc rounds) new_cap need =
    let rest = grow rounds (new_cap * 2 % size_mod) need in
    if ltb new_cap need then rest else ok new_cap

-- The first half of `shrink`: `memmove` of the readable bytes to the front.
pub compact : ByteBuf → Outcome ByteBuf
compact b =
    if ltb 0 b.reader_index
    then (do
      bytes ← load b.block b.reader_index (readable_bytes b)
      block' ← store b.block 0 bytes
      ok (record b { block = block'; reader_index = 0; writer_index = readable_bytes b }))
    else ok b

module _ (m : Allocator) where
  -- `data_` is null after a failed `malloc`, which the code does not test.
  abbrev malloc_unchecked : ℕ → List ℕ
  malloc_unchecked n = elim (m.malloc n) [ none ↦ [] | some b ↦ b ]

  pub allocate : ℕ → ByteBuf
  allocate n =
      if ltb 0 n
      then record { block = malloc_unchecked n; capacity = n; reader_index = 0; writer_index = 0 }
      else empty

  pub wrap : List ℕ → Outcome ByteBuf
  wrap src =
      if ltb 0 (length src)
      then (do
        b ← store (malloc_unchecked (length src)) 0 src
        ok (record {
          block = b;
          capacity = length src;
          reader_index = 0;
          writer_index = length src;
        }))
      else ok empty

  -- The copy constructor.
  pub copy : ByteBuf → Outcome ByteBuf
  copy other =
      if ltb 0 other.capacity
      then (do
        bytes ← load other.block 0 other.writer_index
        b ← store (malloc_unchecked other.capacity) 0 bytes
        ok (record other { block = b }))
      else ok (record other { block = []; capacity = 0 })

  -- The copy assignment: a copy, exchanged with this object; `same` tells that both are one object.
  pub assign : Bool → ByteBuf → ByteBuf → Outcome ByteBuf
  assign same this other = if same then ok this else (do tmp ← copy other; ok (swap this tmp).0)

  unfoldable pub expand : ByteBuf → ℕ → Outcome ByteBuf
  expand b new_capacity = elim (m.realloc b.block new_capacity) [
    | none ↦ bad_alloc
    | some block' ↦ ok (record b { block = block'; capacity = new_capacity })
  ]

  pub reserve : ByteBuf → ℕ → Outcome ByteBuf
  reserve b new_capacity = if ltb b.capacity new_capacity then expand b new_capacity else ok b

  unfoldable pub ensure_writable : ByteBuf → ℕ → Outcome ByteBuf
  ensure_writable b len =
      let need = add_size b.writer_index len in
      if ltb b.capacity need
      then (let doubled = b.capacity * 2 % size_mod in
          do new_cap ← grow 64 (if doubled == 0 then 64 else doubled) need; expand b new_cap)
      else ok b

  unfoldable pub write_bytes : ByteBuf → List ℕ → Outcome ByteBuf
  write_bytes b src = do
    b' ← ensure_writable b (length src)
    block' ← store b'.block b'.writer_index src
    ok (record b' { block = block'; writer_index = add_size b'.writer_index (length src) })

  pub write_byte : ByteBuf → ℕ → Outcome ByteBuf
  write_byte b x = do
    b' ← ensure_writable b 1
    block' ← store b'.block b'.writer_index (x ∷ [])
    ok (record b' { block = block'; writer_index = add_size b'.writer_index 1 })

  pub slice : ByteBuf → ℕ → ℕ → Outcome ByteBuf
  slice b index len = if ltb b.writer_index (add_size index len) then out_of_range else (do
    bytes ← load b.block index len
    block' ← store (allocate len).block 0 bytes
    ok (record (allocate len) { block = block'; writer_index = len }))

  pub trim : ByteBuf → ℕ → ByteBuf
  trim b max_cap =
      if ltb max_cap b.capacity
      then elim (m.realloc b.block max_cap) [
        | none ↦ b
        | some block' ↦ record {
          block = block';
          capacity = max_cap;
          reader_index = 0;
          writer_index = min (readable_bytes b) max_cap;
        }
      ]
      else b

  pub shrink : ByteBuf → Outcome ByteBuf
  shrink b = do
    let readable = readable_bytes b
    b' ← compact b
    let waste = (b'.capacity + size_mod - readable) % size_mod
    if ltb 1024 waste && ltb (readable * 2 % size_mod) waste
        then elim (m.realloc b'.block (add_size readable 64)) [
          | none ↦ ok b'
          | some block' ↦ ok (record b' { block = block'; capacity = add_size readable 64 })
        ]
        else ok b'
