-- ===== src/Buffer/Inv.antt =====
-- The representation invariant of a `ByteBuf`, and the bytes that it stands for.
use xnetty.Prelude.{
  ℕ, ◌+◌, ◌-◌, ◌^◌, ◌≤◌, ◌<◌, ◌≡◌, List, ◌++◌, ◌∙◌, ap, arith, length, take, drop, length-take,
  length-append, append_assoc, length-drop,
}
use xnetty.Prelude.Slices.{take-append, drop-append_le}
use xnetty.Buffer.{ByteBuf, readable_bytes}

pub record IsValid (b : ByteBuf) : Type 0 where
  pub sized : length b.block ≡ b.capacity
  pub small : b.capacity < 2 ^ 63
  pub ordered : b.reader_index ≤ b.writer_index
  pub within : b.writer_index ≤ b.capacity

-- The readable bytes: those from the reader index up to the writer index.
abbrev pub window : ℕ → ℕ → List ℕ → List ℕ
window r w block = drop r (take w block)

abbrev pub contents : ByteBuf → List ℕ
contents b = window b.reader_index b.writer_index b.block

-- `readableBytes` does not wrap on a valid buffer.
pub readable_bytes-eq :
    {b : ByteBuf} → IsValid b → readable_bytes b ≡ b.writer_index - b.reader_index
unfolding readable_bytes
readable_bytes-eq v = omega arith

pub length-window :
    (r w : ℕ) (block : List ℕ) → w ≤ length block → length (window r w block) ≡ w - r
length-window r w block h = omega (arith, length-drop r (take w block), length-take w block)

pub length-contents : {b : ByteBuf} → IsValid b → length (contents b) ≡ readable_bytes b
length-contents {b} v =
    omega (
      arith,
      length-window b.reader_index b.writer_index b.block (omega arith),
      readable_bytes-eq v,
    )

-- Writing at the writer index extends the window by what is written.
pub window-write :
    (r w k : ℕ) (block src rest : List ℕ)
    → r ≤ w
    → w ≤ length block
    → k ≡ w + length src
    → window r k (take w block ++ (src ++ rest)) ≡ window r w block ++ src
window-write r w k block src rest hr hw hk = rw (← append_assoc (take w block) src rest) (
    ap (drop r) (take-append k (take w block ++ src) rest whole)
    ∙ drop-append_le r (take w block) src (omega (arith, length-take w block)))
  where
    whole : k ≡ length (take w block ++ src)
    whole = omega (arith, length-append (take w block) src, length-take w block)

-- A block that agrees with another on its first `w` bytes has the same window.
pub window-eq :
    (r w : ℕ) (block block' : List ℕ)
    → take w block' ≡ take w block
    → window r w block' ≡ window r w block
window-eq r w block block' h = ap (drop r) h
