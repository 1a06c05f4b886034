-- ===== src/WebSocket/Fragments.antt =====
-- A message in several frames.
use xnetty.Prelude.{
  ℕ, zero, suc, ◌+◌, ◌≤◌, ◌≡◌, ◌≢◌, refl, sym, ap, ◌∙◌, inl, inr, List, [], ◌∷◌, ◌++◌, append_assoc,
  true, false, arith, leb, ◌==◌, Bool-cases, ==_iff, length, length-append,
}
use xnetty.Prelude.Preds.{All}
use xnetty.WebSocket.{
  WebSocketFrame, text, close, continuation, encode_frame, is_valid_utf8, CodecState, frame,
  take_frame, also, after_round, read_loop, channel_read,
}
use xnetty.WebSocket.Encode.{IsFrame, header_of, header_len, length-encode_frame, header_len_bounds}
use xnetty.WebSocket.Loop.{read_loop-enough}
use xnetty.Prelude.{◌<◌}
use xnetty.WebSocket.{WebSocketFrame, fragment}
use xnetty.WebSocket.Stream.{stream, read_loop-frame, drop-encode_frame}

-- The frames of a fragmented message: the first, those in between, and the last.
pub record IsFirst (f : WebSocketFrame) : Type 0 where
  pub fits : IsFrame f
  pub not_final : f.fin ≡ false
  pub not_continuation : f.opcode ≢ continuation
  pub not_control : f.opcode < close
  pub utf8 : f.opcode ≡ text → is_valid_utf8 f.payload ≡ true

pub record IsMiddle (f : WebSocketFrame) : Type 0 where
  pub fits : IsFrame f
  pub not_final : f.fin ≡ false
  pub is_continuation : f.opcode ≡ continuation

pub record IsLast (f : WebSocketFrame) : Type 0 where
  pub fits : IsFrame f
  pub final : f.fin ≡ true
  pub is_continuation : f.opcode ≡ continuation

unfoldable pub payloads : List WebSocketFrame → List ℕ
payloads [] = []
payloads (f ∷ fs) = f.payload ++ payloads fs

-- The message that the fragments carry.
unfoldable pub joined : ℕ → List ℕ → WebSocketFrame → WebSocketFrame
joined opcode payload last = record {
  opcode = opcode;
  fin = true;
  mask = last.mask;
  masking_key = 0 ∷ 0 ∷ 0 ∷ 0 ∷ [];
  payload = payload;
}

take_frame-first :
    (st : CodecState) (f : WebSocketFrame)
    → IsFirst f
    → take_frame st (header_of f) f.payload
      ≡ fragment
          (record st { fragment_opcode = f.opcode; fragment_payload = f.payload })
          (header_len f + length f.payload)
unfolding take_frame header_of
take_frame-first st f v =
    let t0 : (f.opcode == continuation) ≡ false = ground (arith, v.not_continuation) in
    let tc : leb close f.opcode ≡ false = let l = v.not_control in ground arith in
    elim (Bool-cases (f.opcode == text)) [
      | inl t ↦ rw (tc, v.not_final, t, v.utf8 ((==_iff _ _).0 t), t0) refl
      | inr t ↦ rw (tc, v.not_final, t, t0) refl
    ]

take_frame-middle :
    (st : CodecState) (f : WebSocketFrame)
    → IsMiddle f
    → take_frame st (header_of f) f.payload
      ≡ fragment
          (record st { fragment_payload = st.fragment_payload ++ f.payload })
          (header_len f + length f.payload)
unfolding take_frame header_of
take_frame-middle st f v = rw (v.not_final, v.is_continuation) refl

take_frame-last :
    (st : CodecState) (f : WebSocketFrame)
    → IsLast f
    → st.fragment_opcode < close
    → take_frame st (header_of f) f.payload
      ≡ frame
          (joined st.fragment_opcode (st.fragment_payload ++ f.payload) f)
          (record st { fragment_payload = [] })
          (header_len f + length f.payload)
unfolding take_frame header_of joined
take_frame-last st f v l =
    let t : (st.fragment_opcode == close) ≡ false = ground arith in
    rw (v.final, v.is_continuation, t) refl

-- A frame that was written has two bytes at least.
pub shorter :
    (f : WebSocketFrame) (rest : List ℕ)
    → IsFrame f
    → 2 + length rest ≤ length (encode_frame f ++ rest)
shorter f rest v =
    let l = length-encode_frame f v in
    let l' = length-append (encode_frame f) rest in
    let (low, high) = header_len_bounds f in omega arith

read_loop-last :
    (fuel : ℕ) (st : CodecState) (last : WebSocketFrame) (rest : List ℕ)
    → IsLast last
    → st.fragment_opcode < close
    → length (encode_frame last ++ rest) ≤ fuel
    → read_loop fuel st (encode_frame last ++ rest)
      ≡ also
          (joined st.fragment_opcode (st.fragment_payload ++ last.payload) last)
          (read_loop (length rest) (record st { fragment_payload = [] }) rest)
unfolding after_round
read_loop-last zero st last rest v o h = let s = shorter last rest v.fits in absurd (omega arith)
read_loop-last (suc fuel) st last rest v o h =
    let st' : CodecState = record st { fragment_payload = [] } in
    let s = shorter last rest v.fits in
    let message = joined st.fragment_opcode (st.fragment_payload ++ last.payload) last in
    read_loop-frame fuel st last rest _ v.fits (take_frame-last st last v o)
    ∙ ap (λ l. also message (read_loop fuel st' l)) (drop-encode_frame last rest v.fits)
    ∙ ap (also message) (read_loop-enough fuel (length rest) st' rest (omega arith) (omega arith))

read_loop-middle :
    (fuel : ℕ) (st : CodecState) (fs : List WebSocketFrame) (last : WebSocketFrame) (rest : List ℕ)
    → All IsMiddle fs
    → IsLast last
    → st.fragment_opcode < close
    → length (stream fs ++ (encode_frame last ++ rest)) ≤ fuel
    → read_loop fuel st (stream fs ++ (encode_frame last ++ rest))
      ≡ also
          (joined st.fragment_opcode (st.fragment_payload ++ (payloads fs ++ last.payload)) last)
          (read_loop (length rest) (record st { fragment_payload = [] }) rest)
unfolding after_round stream payloads
read_loop-middle fuel st [] last rest vs v o h = read_loop-last fuel st last rest v o h
read_loop-middle zero st (f ∷ fs) last rest vs v o h =
    let e = append_assoc (encode_frame f) (stream fs) (encode_frame last ++ rest) in
    let s = shorter f (stream fs ++ (encode_frame last ++ rest)) vs.0.fits in
    let e' = ap length e in absurd (omega arith)
read_loop-middle (suc fuel) st (f ∷ fs) last rest vs v o h =
    let behind = stream fs ++ (encode_frame last ++ rest) in
    let e = append_assoc (encode_frame f) (stream fs) (encode_frame last ++ rest) in
    let s = shorter f behind vs.0.fits in
    let e' = ap length e in
    let st' : CodecState = record st { fragment_payload = st.fragment_payload ++ f.payload } in
    let a = append_assoc (st.fragment_payload) f.payload (payloads fs ++ last.payload) in
    let b = append_assoc f.payload (payloads fs) last.payload in
    ap (read_loop (suc fuel) st) e
    ∙ read_loop-frame fuel st f behind _ vs.0.fits (take_frame-middle st f vs.0)
    ∙ ap (read_loop fuel st') (drop-encode_frame f behind vs.0.fits)
    ∙ read_loop-middle fuel st' fs last rest vs.1 v o (omega arith)
    ∙ ap
        (λ l.
          also (joined st.fragment_opcode l last)
            (read_loop (length rest) (record st { fragment_payload = [] }) rest))
        (a ∙ ap (λ l. st.fragment_payload ++ l) (sym b))

read_loop-first :
    (fuel : ℕ) (st : CodecState) (f : WebSocketFrame) (fs : List WebSocketFrame)
    (last : WebSocketFrame) (rest : List ℕ)
    → IsFirst f
    → All IsMiddle fs
    → IsLast last
    → length (encode_frame f ++ (stream fs ++ (encode_frame last ++ rest))) ≤ fuel
    → read_loop fuel st (encode_frame f ++ (stream fs ++ (encode_frame last ++ rest)))
      ≡ also (joined f.opcode (f.payload ++ (payloads fs ++ last.payload)) last) (
          read_loop
            (length rest)
            (record st { fragment_opcode = f.opcode; fragment_payload = [] })
            rest)
unfolding after_round
read_loop-first zero st f fs last rest vf vs v h =
    let s = shorter f (stream fs ++ (encode_frame last ++ rest)) vf.fits in absurd (omega arith)
read_loop-first (suc fuel) st f fs last rest vf vs v h =
    let behind = stream fs ++ (encode_frame last ++ rest) in
    let s = shorter f behind vf.fits in
    let st' : CodecState = record st { fragment_opcode = f.opcode; fragment_payload = f.payload } in
    read_loop-frame fuel st f behind _ vf.fits (take_frame-first st f vf)
    ∙ ap (read_loop fuel st') (drop-encode_frame f behind vf.fits)
    ∙ read_loop-middle fuel st' fs last rest vs v vf.not_control (omega arith)

-- `channelRead` puts a message that was written in fragments together: it passes on one frame with
-- the opcode of the first fragment and the payloads of all, in order, and goes on with the bytes
-- behind the last with no fragment left, for a state that holds no bytes of an unfinished frame.
pub channel_read-fragments :
    (st : CodecState) (f : WebSocketFrame) (fs : List WebSocketFrame) (last : WebSocketFrame)
    (rest : List ℕ)
    → st.leftover ≡ []
    → IsFirst f
    → All IsMiddle fs
    → IsLast last
    → channel_read st (encode_frame f ++ (stream fs ++ (encode_frame last ++ rest)))
      ≡ also
          (joined f.opcode (f.payload ++ (payloads fs ++ last.payload)) last)
          (channel_read (record st { fragment_opcode = f.opcode; fragment_payload = [] }) rest)
unfolding channel_read
channel_read-fragments st f fs last rest e vf vs v =
    rw e (read_loop-first _ (record st { leftover = [] }) f fs last rest vf vs v (omega arith))
