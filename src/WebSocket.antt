-- ===== src/WebSocket.antt =====
-- The class `WebSocketCodec` (include/xnetty/websocket/websocket_codec.h,
-- src/websocket/websocket_codec.cpp). A `ByteBuf` stands here by its readable bytes: `writeBytes`
-- appends, `discard` drops from the front, `clear` empties.
pub mod Bits
pub mod Sizes
pub mod Masks
pub mod Encode
pub mod Loop
pub mod Resume
pub mod Stream
pub mod Fragments
pub mod Close
pub mod Utf8
mod Tests
use Prim.Native.Nat.{bit_and, bit_or, bit_xor}
use xnetty.Prelude.{
  ℕ, zero, suc, ◌+◌, ◌-◌, ◌*◌, ◌/◌, ◌%◌, ◌^◌, List, [], ◌∷◌, ◌++◌, Bool, true, false, not, ◌&&◌,
  ◌||◌, Option, none, some, leb, ltb, ◌==◌, if◌then◌else◌, length, get_or, take, drop,
}

-- `WebSocketOpcode`. The cast of a byte to it can give any number below 16.
abbrev pub continuation : ℕ
continuation = 0

abbrev pub text : ℕ
text = 1

abbrev pub close : ℕ
close = 8

pub record WebSocketFrame : Type 0 where
  pub opcode : ℕ
  pub fin : Bool
  pub mask : Bool
  pub masking_key : List ℕ
  pub payload : List ℕ

-- The loop `payload[i] ^= key[i % 4]`, from index `i` on.
pub unmask : List ℕ → ℕ → List ℕ → List ℕ
unmask key i [] = []
unmask key i (x ∷ payload) = bit_xor x (get_or key (i % 4) 0) ∷ unmask key (i + 1) payload

-- The second byte and the length fields behind it.
pub length_bytes : ℕ → Bool → List ℕ
length_bytes size mask =
    let m = if mask then 0x80 else 0 in
    if ltb size 126
    then bit_or size m ∷ []
    else if leb size 0xffff
    then bit_or 126 m ∷ (size / 2 ^ 8) % 256 ∷ size % 256 ∷ []
    else bit_or 127 m
      ∷ (size / 2 ^ 56) % 256
      ∷ (size / 2 ^ 48) % 256
      ∷ (size / 2 ^ 40) % 256
      ∷ (size / 2 ^ 32) % 256
      ∷ (size / 2 ^ 24) % 256
      ∷ (size / 2 ^ 16) % 256
      ∷ (size / 2 ^ 8) % 256
      ∷ size % 256
      ∷ []

pub encode_frame : WebSocketFrame → List ℕ
encode_frame f =
    bit_or (if f.fin then 0x80 else 0) f.opcode
    ∷ (length_bytes (length f.payload) f.mask
        ++ (if f.mask then f.masking_key ++ unmask f.masking_key 0 f.payload else f.payload))

-- The eight length bytes of a long frame; `<<` drops the bits above the word, and its low bits are
-- zero, so that `|` adds.
pub big_endian : ℕ → List ℕ → ℕ
big_endian acc [] = acc
big_endian acc (b ∷ bytes) = big_endian (acc * 256 % 2 ^ 64 + b) bytes

-- What `channelRead` reads before the payload. `header_len` counts the mask.
pub record Header : Type 0 where
  pub fin : Bool
  pub opcode : ℕ
  pub masked : Bool
  pub payload_len : ℕ
  pub header_len : ℕ

-- The payload length and where it ends, or `none` if the bytes have not all come.
pub length_field : List ℕ → Option (ℕ × ℕ)
length_field raw =
    let len7 = bit_and (get_or raw 1 0) 0x7f in
    if len7 == 126
    then (if ltb (length raw) 4 then none else some (get_or raw 2 0 * 256 + get_or raw 3 0, 4))
    else if len7 == 127
    then (if ltb (length raw) 10 then none else some (big_endian 0 (take 8 (drop 2 raw)), 10))
    else some (len7, 2)

abbrev with_length : List ℕ → Option (ℕ × ℕ) → Option Header
with_length raw none = none
with_length raw (some (payload_len, field_end)) =
    let masked = not (bit_and (get_or raw 1 0) 0x80 == 0) in
    let header_len = if masked then field_end + 4 else field_end in
    if ltb (length raw) header_len
    then none
    else if ltb (length raw) ((header_len + payload_len) % 2 ^ 64)
    then none
    else some (record {
      fin = not (bit_and (get_or raw 0 0) 0x80 == 0);
      opcode = bit_and (get_or raw 0 0) 0x0f;
      masked = masked;
      payload_len = payload_len;
      header_len = header_len;
    })

-- `none` if the frame has not all come.
pub read_header : List ℕ → Option Header
read_header raw = if ltb (length raw) 2 then none else with_length raw (length_field raw)

pub payload_of : List ℕ → Header → List ℕ
payload_of raw h =
    let body = take h.payload_len (drop h.header_len raw) in
    if h.masked then unmask (take 4 (drop (h.header_len - 4) raw)) 0 body else body

-- The loop of `isValidUtf8`, over the bytes from index `i` on.
pub utf8_from : ℕ → List ℕ → Bool
utf8_from zero s = true
utf8_from (suc fuel) s =
    let s0 = get_or s 0 0 in
    let s1 = get_or s 1 0 in
    let s2 = get_or s 2 0 in
    let s3 = get_or s 3 0 in
    let after1 = utf8_from fuel (drop 1 s) in
    let after2 = utf8_from fuel (drop 2 s) in
    let after3 = utf8_from fuel (drop 3 s) in
    let after4 = utf8_from fuel (drop 4 s) in
    if length s == 0
    then true
    else if bit_and s0 0x80 == 0
    then after1
    else if bit_and s0 0xe0 == 0xc0
    then (if leb (length s) 1 || not (bit_and s1 0xc0 == 0x80) then false else after2)
    else if bit_and s0 0xf0 == 0xe0
    then (if leb (length s) 2 || (not (bit_and s1 0xc0 == 0x80) || not (bit_and s2 0xc0 == 0x80))
        then false
        else if s0 == 0xe0 && bit_and s1 0xe0 == 0x80
        then false
        else if s0 == 0xed && bit_and s1 0xe0 == 0xa0
        then false
        else after3)
    else if bit_and s0 0xf8 == 0xf0
    then (if leb (length s) 3
          || (not (bit_and s1 0xc0 == 0x80)
              || (not (bit_and s2 0xc0 == 0x80) || not (bit_and s3 0xc0 == 0x80)))
        then false
        else if s0 == 0xf0 && bit_and s1 0xf0 == 0x80
        then false
        else if ltb 0xf4 s0 || (s0 == 0xf4 && ltb 0x8f s1)
        then false
        else after4)
    else false

-- Each round passes a byte at least, so that the length is enough fuel.
pub is_valid_utf8 : List ℕ → Bool
is_valid_utf8 s = utf8_from (length s) s

pub record CodecState : Type 0 where
  pub leftover : List ℕ
  pub fragment_payload : List ℕ
  pub fragment_opcode : ℕ

abbrev pub fresh : CodecState
fresh = record { leftover = []; fragment_payload = []; fragment_opcode = text }

-- One round of the loop of `channelRead`: it waits for more bytes, stops at a frame that it refuses,
-- throws `std::length_error`, takes a fragment of so many bytes, or passes a frame on; after a close
-- frame it stops.
pub data Round : Type 0 where
  wait refuse throw_length : Round
  fragment : CodecState → ℕ → Round
  frame : WebSocketFrame → CodecState → ℕ → Round
  last_frame : WebSocketFrame → CodecState → Round

abbrev pass_on : Header → ℕ → List ℕ → CodecState → Round
pass_on h opcode payload st =
    let f : WebSocketFrame = record {
      opcode = opcode;
      fin = true;
      mask = h.masked;
      masking_key = 0 ∷ 0 ∷ 0 ∷ 0 ∷ [];
      payload = payload;
    } in
    if opcode == close then last_frame f st else frame f st (h.header_len + h.payload_len)

pub take_frame : CodecState → Header → List ℕ → Round
take_frame st h payload =
    let whole = st.fragment_payload ++ payload in
    let consumed = h.header_len + h.payload_len in
    if leb close h.opcode && not h.fin
    then refuse
    else if h.opcode == text && not (is_valid_utf8 payload)
    then refuse
    else if h.opcode == continuation
    then (if h.fin
        then pass_on h st.fragment_opcode whole (record st { fragment_payload = [] })
        else fragment (record st { fragment_payload = whole }) consumed)
    else if not h.fin
    then fragment (record st { fragment_opcode = h.opcode; fragment_payload = payload }) consumed
    else pass_on h h.opcode payload st

-- No string is longer than 2^63 - 1: `std::string(data, n)` throws.
abbrev with_header : CodecState → List ℕ → Option Header → Round
with_header st raw none = wait
with_header st raw (some h) =
    if leb (2 ^ 63) h.payload_len then throw_length else take_frame st h (payload_of raw h)

pub read_round : CodecState → List ℕ → Round
read_round st raw = with_header st raw (read_header raw)

-- What a read leaves: the codec's state, the bytes left in the buffer, and the frames that were
-- passed on, in order.
pub record ReadResult : Type 0 where
  pub state : CodecState
  pub buf : List ℕ
  pub frames : List WebSocketFrame

abbrev also : WebSocketFrame → ReadResult → ReadResult
also f r = record r { frames = f ∷ r.frames }

-- What a round leaves to do; `go` is the rest of the loop.
pub after_round : (CodecState → List ℕ → ReadResult) → CodecState → List ℕ → Round → ReadResult
after_round go st raw wait = record {
  state = record st { leftover = st.leftover ++ raw };
  buf = [];
  frames = [];
}
after_round go st raw refuse = record { state = st; buf = raw; frames = [] }
after_round go st raw throw_length = record { state = st; buf = raw; frames = [] }
after_round go st raw (fragment st' n) = go st' (drop n raw)
after_round go st raw (frame f st' n) = also f (go st' (drop n raw))
after_round go st raw (last_frame f st') = record { state = st'; buf = raw; frames = f ∷ [] }

-- The loop. Each round discards two bytes at least.
pub read_loop : ℕ → CodecState → List ℕ → ReadResult
read_loop zero st raw = record { state = st; buf = raw; frames = [] }
read_loop (suc fuel) st raw =
    if length raw == 0
    then record { state = st; buf = []; frames = [] }
    else after_round (read_loop fuel) st raw (read_round st raw)

-- `channelRead` on a buffer that is not empty (one that is empty is passed on as it is).
pub channel_read : CodecState → List ℕ → ReadResult
channel_read st bytes =
    let raw = st.leftover ++ bytes in read_loop (length raw) (record st { leftover = [] }) raw
