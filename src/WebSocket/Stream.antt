-- ===== src/WebSocket/Stream.antt =====
-- Frames written by `encodeFrame` one behind the other, and read by `channelRead`.
use xnetty.Prelude.{
  drop, ℕ, zero, suc, ◌+◌, ◌≤◌, ◌^◌, ◌≡◌, ◌≢◌, refl, sym, ap, ◌∙◌, inl, inr, List, [], ◌∷◌, ◌++◌,
  append_assoc, Bool, true, false, not, ◌&&◌, arith, leb, ◌==◌, Bool-cases, ==_iff, length,
  length-append,
}
use xnetty.Prelude.Slices.{drop-append}
use xnetty.Prelude.Preds.{All}
use xnetty.WebSocket.{
  Round, WebSocketFrame, text, close, continuation, encode_frame, is_valid_utf8, CodecState, frame,
  take_frame, with_header, read_round, ReadResult, also, after_round, read_loop, channel_read,
}
use xnetty.WebSocket.Encode.{
  IsFrame, header_of, header_len, length-encode_frame, header_len_bounds, read_header-encode_frame,
  payload_of-encode_frame,
}
use xnetty.WebSocket.Loop.{read_loop-enough}

-- A whole message: not a fragment, not a close frame, and text only if it is UTF-8.
pub record IsMessage (f : WebSocketFrame) : Type 0 where
  pub fits : IsFrame f
  pub final : f.fin ≡ true
  pub not_continuation : f.opcode ≢ continuation
  pub not_close : f.opcode ≢ close
  pub utf8 : f.opcode ≡ text → is_valid_utf8 f.payload ≡ true

-- The frame that the other handlers see: `channelRead` does not keep the masking key.
abbrev pub received : WebSocketFrame → WebSocketFrame
received f = record f { fin = true; masking_key = 0 ∷ 0 ∷ 0 ∷ 0 ∷ [] }

pub and_false : (b : Bool) → (b && false) ≡ false
and_false true = refl
and_false false = refl

take_frame-message :
    (st : CodecState) (f : WebSocketFrame)
    → IsMessage f
    → take_frame st (header_of f) f.payload
      ≡ frame (received f) st (header_len f + length f.payload)
unfolding take_frame header_of
take_frame-message st f v =
    let t0 : (f.opcode == continuation) ≡ false = ground (arith, v.not_continuation) in
    let t8 : (f.opcode == close) ≡ false = ground (arith, v.not_close) in
    let af : (leb close f.opcode && not true) ≡ false = and_false _ in
    elim (Bool-cases (f.opcode == text)) [
      | inl t ↦ rw (v.final, t, v.utf8 ((==_iff _ _).0 t), t0, t8) (rw af refl)
      | inr t ↦ rw (v.final, t, t0, t8) (rw af refl)
    ]

pub read_round-encode_frame :
    (st : CodecState) (f : WebSocketFrame) (rest : List ℕ)
    → IsFrame f
    → read_round st (encode_frame f ++ rest) ≡ take_frame st (header_of f) f.payload
unfolding read_round header_of
read_round-encode_frame st f rest v =
    let t : leb (2 ^ 63) (length f.payload) ≡ false = let s = v.size in ground arith in
    ap (with_header st (encode_frame f ++ rest)) (read_header-encode_frame f rest v)
    ∙ (rw t refl ∙ ap (take_frame st (header_of f)) (payload_of-encode_frame f rest v))

-- Frames written one behind the other.
unfoldable pub stream : List WebSocketFrame → List ℕ
stream [] = []
stream (f ∷ fs) = encode_frame f ++ stream fs

unfoldable pub all_received : List WebSocketFrame → ReadResult → ReadResult
all_received [] r = r
all_received (f ∷ fs) r = also (received f) (all_received fs r)

-- What the loop makes of a frame that was written, from what the round makes of it.
pub read_loop-frame :
    (fuel : ℕ) (st : CodecState) (f : WebSocketFrame) (rest : List ℕ) (r : Round)
    → IsFrame f
    → take_frame st (header_of f) f.payload ≡ r
    → read_loop (suc fuel) st (encode_frame f ++ rest)
      ≡ after_round (read_loop fuel) st (encode_frame f ++ rest) r
unfolding read_loop
read_loop-frame fuel st f rest r v e =
    let l = length-encode_frame f v in
    let l' = length-append (encode_frame f) rest in
    let (low, high) = header_len_bounds f in
    let t : (length (encode_frame f ++ rest) == 0) ≡ false = ground arith in
    rw t (
      ap (after_round (read_loop fuel) st (encode_frame f ++ rest))
        (read_round-encode_frame st f rest v ∙ e))

-- Such a frame is passed over as a whole.
pub drop-encode_frame :
    (f : WebSocketFrame) (rest : List ℕ)
    → IsFrame f
    → drop (header_len f + length f.payload) (encode_frame f ++ rest) ≡ rest
drop-encode_frame f rest v =
    drop-append (header_len f + length f.payload) (encode_frame f) rest
      (sym (length-encode_frame f v))

read_loop-message :
    (fuel : ℕ) (st : CodecState) (f : WebSocketFrame) (rest : List ℕ)
    → IsMessage f
    → read_loop (suc fuel) st (encode_frame f ++ rest) ≡ also (received f) (read_loop fuel st rest)
unfolding after_round
read_loop-message fuel st f rest v =
    read_loop-frame fuel st f rest _ v.fits (take_frame-message st f v)
    ∙ ap (λ l. also (received f) (read_loop fuel st l)) (drop-encode_frame f rest v.fits)

pub read_loop-stream :
    (fuel : ℕ) (st : CodecState) (fs : List WebSocketFrame) (rest : List ℕ)
    → All IsMessage fs
    → length (stream fs ++ rest) ≤ fuel
    → read_loop fuel st (stream fs ++ rest) ≡ all_received fs (read_loop (length rest) st rest)
unfolding stream all_received
read_loop-stream fuel st [] rest v h = read_loop-enough fuel (length rest) st rest h (omega arith)
read_loop-stream zero st (f ∷ fs) rest v h =
    let e = length-encode_frame f v.0.fits in
    let (low, high) = header_len_bounds f in
    let e1 = length-append (encode_frame f ++ stream fs) rest in
    let e2 = length-append (encode_frame f) (stream fs) in absurd (omega arith)
read_loop-stream (suc fuel) st (f ∷ fs) rest v h =
    let e = length-encode_frame f v.0.fits in
    let (low, high) = header_len_bounds f in
    let e1 = length-append (encode_frame f ++ stream fs) rest in
    let e2 = length-append (encode_frame f) (stream fs) in
    let e3 = length-append (stream fs) rest in
    ap (read_loop (suc fuel) st) (append_assoc (encode_frame f) (stream fs) rest)
    ∙ read_loop-message fuel st f (stream fs ++ rest) v.0
    ∙ ap (also (received f)) (read_loop-stream fuel st fs rest v.1 (omega arith))

-- `channelRead` passes on the frames of whole messages that `encodeFrame` wrote, in the order in
-- which they were written and with their opcodes and payloads, and then goes on with the bytes
-- behind them, for a state that holds no bytes of an unfinished frame.
pub channel_read-stream :
    (st : CodecState) (fs : List WebSocketFrame) (rest : List ℕ)
    → st.leftover ≡ []
    → All IsMessage fs
    → channel_read st (stream fs ++ rest) ≡ all_received fs (channel_read st rest)
unfolding channel_read
channel_read-stream st fs rest e v = rw e (read_loop-stream _ _ fs rest v (omega arith))
