-- ===== src/WebSocket/Encode.antt =====
-- The frames that `encodeFrame` writes, and the header that `channelRead` reads from them.
use Prim.Native.Nat.{bit_and, bit_or}
use xnetty.Prelude.{
  ℕ, suc, ◌+◌, ◌%◌, ◌^◌, ◌≤◌, ◌<◌, ◌≡◌, refl, sym, ap, ◌∙◌, subst, inl, inr, List, ◌∷◌, ◌++◌,
  append_assoc, Bool, false, not, Option, some, arith, ltb, ◌==◌, if◌then◌else◌, Bool-cases, length,
  length-append, get_or,
}
use xnetty.Prelude.Preds.{All}
use xnetty.WebSocket.{
  WebSocketFrame, unmask, length_bytes, encode_frame, Header, length_field, with_length,
  read_header, payload_of,
}
use xnetty.WebSocket.Bits.{opcode_bits, fin_bit}
use xnetty.WebSocket.Sizes.{size_known, second_byte, length_bytes_bound}
use xnetty.WebSocket.Masks.{IsByte, length-unmask, cut, cut_front}

-- The header that the frame has.
pub header_len : WebSocketFrame → ℕ
header_len f = 1 + length (length_bytes (length f.payload) f.mask) + (if f.mask then 4 else 0)

unfoldable pub header_of : WebSocketFrame → Header
header_of f = record {
  fin = f.fin;
  opcode = f.opcode;
  masked = f.mask;
  payload_len = length f.payload;
  header_len = header_len f;
}

-- A frame whose fields fit the wire.
pub record IsFrame (f : WebSocketFrame) : Type 0 where
  pub opcode_bound : f.opcode < 16
  pub key_length : length f.masking_key ≡ 4
  pub key_bytes : All IsByte f.masking_key
  pub payload_bytes : All IsByte f.payload
  pub size : length f.payload < 2 ^ 63

with_length-some :
    (raw : List ℕ) (payload_len field_end : ℕ) (fin masked : Bool) (opcode total : ℕ)
    → not (bit_and (get_or raw 1 0) 0x80 == 0) ≡ masked
    → not (bit_and (get_or raw 0 0) 0x80 == 0) ≡ fin
    → bit_and (get_or raw 0 0) 0x0f ≡ opcode
    → total ≡ field_end + (if masked then 4 else 0)
    → total + payload_len ≤ length raw
    → total + payload_len < 2 ^ 64
    → with_length raw (some (payload_len, field_end))
      ≡ some (record {
        fin = fin;
        opcode = opcode;
        masked = masked;
        payload_len = payload_len;
        header_len = total;
      })
with_length-some raw p e fin masked op total m f o t room small =
    let t' : (if masked then e + 4 else e) ≡ total = ground arith in
    let a : ltb (length raw) total ≡ false = ground arith in
    let b : ltb (length raw) ((total + p) % 2 ^ 64) ≡ false = ground arith in
    rw (m, t', a, b, f, o) refl

-- The bytes behind the length, of the frame and of what follows it.
abbrev body_bytes : WebSocketFrame → List ℕ
body_bytes f = if f.mask then f.masking_key ++ unmask f.masking_key 0 f.payload else f.payload

length-body :
    (f : WebSocketFrame)
    → IsFrame f
    → length (body_bytes f) ≡ (if f.mask then 4 else 0) + length f.payload
length-body f v = elim (Bool-cases f.mask) [
  | inl t ↦ rw (t, length-append, length-unmask, v.key_length) refl
  | inr t ↦ rw t (omega arith)
]

-- A frame is as long as its header and its payload.
pub length-encode_frame :
    (f : WebSocketFrame) → IsFrame f → length (encode_frame f) ≡ header_len f + length f.payload
unfolding encode_frame header_len
length-encode_frame f v =
    let e = length-append (length_bytes (length f.payload) f.mask) (body_bytes f) in
    let e' = length-body f v in omega arith

pub header_len_bounds : (f : WebSocketFrame) → (2 ≤ header_len f) × (header_len f ≤ 14)
unfolding header_len
header_len_bounds f = let (a, b) = length_bytes_bound (length f.payload) f.mask in ground arith

abbrev first_byte : WebSocketFrame → ℕ
first_byte f = bit_or (if f.fin then 0x80 else 0) f.opcode

shape :
    (f : WebSocketFrame) (rest : List ℕ)
    → encode_frame f ++ rest
      ≡ first_byte f ∷ (length_bytes (length f.payload) f.mask ++ (body_bytes f ++ rest))
unfolding encode_frame
shape f rest =
    ap (λ l. first_byte f ∷ l)
      (append_assoc (length_bytes (length f.payload) f.mask) (body_bytes f) rest)

pub read_header-some :
    (raw : List ℕ) (payload_len field_end : ℕ) (o : Option Header)
    → 2 ≤ length raw
    → length_field raw ≡ some (payload_len, field_end)
    → with_length raw (some (payload_len, field_end)) ≡ o
    → read_header raw ≡ o
unfolding read_header
read_header-some raw p e o h l w = let t : ltb (length raw) 2 ≡ false = ground arith in rw (t, l) w

-- `channelRead` finds in the bytes that `encodeFrame` wrote, whatever follows them, the fields of the
-- frame, its length, and where the payload begins, for a frame whose fields fit the wire.
pub read_header-encode_frame :
    (f : WebSocketFrame) (rest : List ℕ)
    → IsFrame f
    → read_header (encode_frame f ++ rest) ≡ some (header_of f)
unfolding header_of header_len
read_header-encode_frame f rest v =
    let n = length f.payload in
    let lb = length_bytes n f.mask in
    let tail = body_bytes f ++ rest in
    let raw = first_byte f ∷ (lb ++ tail) in
    let e1 : length raw ≡ suc (length lb + length tail) = ap suc (length-append lb tail) in
    let e2 : length tail ≡ length (body_bytes f) + length rest =
      length-append (body_bytes f) rest in
    let e3 = length-body f v in
    let (low, high) = header_len_bounds f in
    let (some_bytes, few) = length_bytes_bound n f.mask in
    let w =
      with_length-some raw n (1 + length lb) f.fin f.mask f.opcode
        (1 + length lb + (if f.mask then 4 else 0)) (second_byte (first_byte f) n f.mask tail)
        (fin_bit f.fin f.opcode v.opcode_bound) (opcode_bits f.fin f.opcode v.opcode_bound) refl
        (omega arith) (ground arith) in
    subst (λ l. read_header l ≡ some (header_of f)) (sym (shape f rest))
      (read_header-some raw n (1 + length lb) _ (omega arith)
        (size_known (first_byte f) n f.mask tail v.size) w)

-- With that header, `channelRead` takes the payload out of those bytes and unmasks it to what was
-- written, with and without a mask.
pub payload_of-encode_frame :
    (f : WebSocketFrame) (rest : List ℕ)
    → IsFrame f
    → payload_of (encode_frame f ++ rest) (header_of f) ≡ f.payload
unfolding payload_of header_of header_len
payload_of-encode_frame f rest v =
    let lb = length_bytes (length f.payload) f.mask in
    ap (λ l. cut f.mask (length f.payload) (1 + length lb + (if f.mask then 4 else 0)) l)
      (shape f rest)
    ∙ cut_front (first_byte f ∷ lb) f.masking_key f.payload rest f.mask _ (omega arith) v.key_length
        v.key_bytes v.payload_bytes
