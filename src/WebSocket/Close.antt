-- ===== src/WebSocket/Close.antt =====
-- A close frame ends what is passed on.
use xnetty.Prelude.{ℕ, zero, suc, ◌≤◌, ◌≡◌, refl, ap, ◌∙◌, List, [], ◌∷◌, ◌++◌, true, arith, length}
use xnetty.Prelude.Preds.{All}
use xnetty.WebSocket.{
  WebSocketFrame, close, encode_frame, CodecState, take_frame, after_round, read_loop, channel_read,
}
use xnetty.WebSocket.Encode.{IsFrame, header_of}
use xnetty.WebSocket.{WebSocketFrame, last_frame}
use xnetty.WebSocket.Stream.{
  IsMessage, received, stream, all_received, read_loop-frame, read_loop-stream,
}
use xnetty.WebSocket.Fragments.{shorter}

take_frame-close :
    (st : CodecState) (f : WebSocketFrame)
    → f.fin ≡ true
    → f.opcode ≡ close
    → take_frame st (header_of f) f.payload ≡ last_frame (received f) st
unfolding take_frame header_of
take_frame-close st f fin op = rw (fin, op) refl

read_loop-close :
    (fuel : ℕ) (st : CodecState) (f : WebSocketFrame) (rest : List ℕ)
    → IsFrame f
    → f.fin ≡ true
    → f.opcode ≡ close
    → length (encode_frame f ++ rest) ≤ fuel
    → read_loop fuel st (encode_frame f ++ rest)
      ≡ record { state = st; buf = encode_frame f ++ rest; frames = received f ∷ [] }
unfolding after_round
read_loop-close zero st f rest v fin op h = let s = shorter f rest v in absurd (omega arith)
read_loop-close (suc fuel) st f rest v fin op h =
    read_loop-frame fuel st f rest _ v (take_frame-close st f fin op)

-- A close frame is the last that `channelRead` passes on: the messages that were written before it
-- are passed on, then the close frame, and nothing of the bytes behind it, which stay in the buffer
-- with the close frame itself; for a state that holds no bytes of an unfinished frame.
pub channel_read-close :
    (st : CodecState) (fs : List WebSocketFrame) (f : WebSocketFrame) (rest : List ℕ)
    → st.leftover ≡ []
    → All IsMessage fs
    → IsFrame f
    → f.fin ≡ true
    → f.opcode ≡ close
    → channel_read st (stream fs ++ (encode_frame f ++ rest))
      ≡ all_received fs (record {
        state = record st { leftover = [] };
        buf = encode_frame f ++ rest;
        frames = received f ∷ [];
      })
unfolding channel_read
channel_read-close st fs f rest e vs v fin op = rw e (
    read_loop-stream _ (record st { leftover = [] }) fs (encode_frame f ++ rest) vs (omega arith)
    ∙ ap (all_received fs)
        (read_loop-close _ (record st { leftover = [] }) f rest v fin op (omega arith)))
