-- ===== src/WebSocket/Tests.antt =====
-- Runs of the codec, and its theorems at concrete inputs.
use xnetty.Prelude.{
  none, Bool, List, length, ℕ, ◌^◌, ◌<◌, ◌≡◌, refl, [], ◌∷◌, ◌++◌, true, false, arith,
}
use xnetty.WebSocket.{
  WebSocketFrame, unmask, length_bytes, encode_frame, big_endian, length_field, read_header,
  payload_of, utf8_from, is_valid_utf8, fresh, take_frame, read_round, after_round, read_loop,
  channel_read,
}
use xnetty.WebSocket.Encode.{IsFrame}
use xnetty.WebSocket.Stream.{IsMessage, stream, all_received, channel_read-stream}
use xnetty.Prelude.Preds.{All}
use xnetty.WebSocket.Masks.{IsByte}
use xnetty.WebSocket.Fragments.{IsFirst, IsMiddle, IsLast}
use xnetty.WebSocket.Resume.{channel_read-resumes}

-- What a run computes with.
all_open : Unit {0}
unfolding unmask length_bytes encode_frame big_endian length_field read_header payload_of utf8_from
    is_valid_utf8 take_frame read_round after_round read_loop channel_read stream all_received
all_open = tt

-- "Hello" as RFC 6455 masks it.
abbrev hello : WebSocketFrame
hello = record {
  opcode = 1;
  fin = true;
  mask = true;
  masking_key = 0x37 ∷ 0xfa ∷ 0x21 ∷ 0x3d ∷ [];
  payload = 0x48 ∷ 0x65 ∷ 0x6c ∷ 0x6c ∷ 0x6f ∷ [];
}

abbrev ping : WebSocketFrame
ping = record {
  opcode = 9;
  fin = true;
  mask = false;
  masking_key = 0 ∷ 0 ∷ 0 ∷ 0 ∷ [];
  payload = 7 ∷ [];
}

hello_bytes :
    encode_frame hello
    ≡ 0x81 ∷ 0x85 ∷ 0x37 ∷ 0xfa ∷ 0x21 ∷ 0x3d ∷ 0x7f ∷ 0x9f ∷ 0x4d ∷ 0x51 ∷ 0x58 ∷ []
unfolding all_open
hello_bytes = refl

-- "Hel" and "lo", in two fragments, come as one message.
fragments :
    (channel_read fresh (0x01 ∷ 0x03 ∷ 0x48 ∷ 0x65 ∷ 0x6c ∷ 0x80 ∷ 0x02 ∷ 0x6c ∷ 0x6f ∷ [])).frames
    ≡ record hello { mask = false; masking_key = 0 ∷ 0 ∷ 0 ∷ 0 ∷ [] } ∷ []
unfolding all_open
fragments = refl

-- A frame whose bytes come in two reads is passed on by the second.
two_reads : (channel_read (channel_read fresh (0x89 ∷ [])).state (0x01 ∷ 7 ∷ [])).frames ≡ ping ∷ []
unfolding all_open
two_reads = refl

-- The two halves of a character in two fragments: the first is refused, though the message is UTF-8,
-- and what follows is never looked at.
split_character : (channel_read fresh (0x01 ∷ 0x01 ∷ 0xc3 ∷ 0x80 ∷ 0x01 ∷ 0xa9 ∷ [])).frames ≡ []
unfolding all_open
split_character = refl

-- A byte that is no UTF-8 in the last fragment of a text is passed on.
unchecked_fragment :
    (channel_read fresh (0x01 ∷ 0x01 ∷ 0x48 ∷ 0x80 ∷ 0x01 ∷ 0xff ∷ [])).frames
    ≡ record ping { opcode = 1; payload = 0x48 ∷ 0xff ∷ [] } ∷ []
unfolding all_open
unchecked_fragment = refl

hello-IsFrame : IsFrame hello
hello-IsFrame = record {
  opcode_bound = omega arith;
  key_length = refl;
  key_bytes = (omega arith, (omega arith, (omega arith, (omega arith, tt))));
  payload_bytes = (omega arith, (omega arith, (omega arith, (omega arith, (omega arith, tt)))));
  size = omega arith;
}

hello-IsMessage : IsMessage hello
unfolding all_open
hello-IsMessage = record {
  fits = hello-IsFrame;
  final = refl;
  not_continuation = λ e. omega arith;
  not_close = λ e. omega arith;
  utf8 = λ e. refl;
}

ping-IsMessage : IsMessage ping
ping-IsMessage = record {
  fits = record {
    opcode_bound = omega arith;
    key_length = refl;
    key_bytes = (omega arith, (omega arith, (omega arith, (omega arith, tt))));
    payload_bytes = (omega arith, tt);
    size = omega arith;
  };
  final = refl;
  not_continuation = λ e. omega arith;
  not_close = λ e. omega arith;
  utf8 = λ e. absurd (omega arith);
}

channel_read-stream_example :
    channel_read fresh (stream (hello ∷ ping ∷ []) ++ (0x89 ∷ []))
    ≡ all_received (hello ∷ ping ∷ []) (channel_read fresh (0x89 ∷ []))
channel_read-stream_example =
    channel_read-stream fresh (hello ∷ ping ∷ []) (0x89 ∷ []) refl
      (hello-IsMessage, (ping-IsMessage, tt))

-- "Hel", "lo" and nothing, in three fragments.
abbrev part : ℕ → Bool → List ℕ → WebSocketFrame
part opcode fin payload = record ping { opcode = opcode; fin = fin; payload = payload }

abbrev part1 : WebSocketFrame
part1 = part 1 false (0x48 ∷ 0x65 ∷ 0x6c ∷ [])

abbrev part2 : WebSocketFrame
part2 = part 0 false (0x6c ∷ 0x6f ∷ [])

abbrev part3 : WebSocketFrame
part3 = part 0 true []

abbrev goodbye : WebSocketFrame
goodbye = part 8 true (3 ∷ [])

part-IsFrame :
    (opcode : ℕ) (fin : Bool) (payload : List ℕ)
    → opcode < 16
    → All IsByte payload
    → length payload < 2 ^ 63
    → IsFrame (part opcode fin payload)
part-IsFrame opcode fin payload o b l = record {
  opcode_bound = o;
  key_length = refl;
  key_bytes = (omega arith, (omega arith, (omega arith, (omega arith, tt))));
  payload_bytes = b;
  size = l;
}

part1-IsFirst : IsFirst part1
unfolding all_open
part1-IsFirst = record {
  fits =
      part-IsFrame 1 false _ (omega arith) (omega arith, (omega arith, (omega arith, tt)))
        (omega arith);
  not_final = refl;
  not_continuation = λ e. omega arith;
  not_control = omega arith;
  utf8 = λ e. refl;
}

part2-IsMiddle : IsMiddle part2
part2-IsMiddle = record {
  fits = part-IsFrame 0 false _ (omega arith) (omega arith, (omega arith, tt)) (omega arith);
  not_final = refl;
  is_continuation = refl;
}

part3-IsLast : IsLast part3
part3-IsLast = record {
  fits = part-IsFrame 0 true [] (omega arith) tt (omega arith);
  final = refl;
  is_continuation = refl;
}

one_byte : read_header (0x89 ∷ []) ≡ none
unfolding all_open
one_byte = refl

channel_read-resumes_example :
    ((channel_read fresh (0x89 ∷ [])).frames ≡ [])
    × (channel_read (channel_read fresh (0x89 ∷ [])).state (0x01 ∷ 7 ∷ [])
        ≡ channel_read fresh ((0x89 ∷ []) ++ (0x01 ∷ 7 ∷ [])))
channel_read-resumes_example = channel_read-resumes fresh (0x89 ∷ []) (0x01 ∷ 7 ∷ []) one_byte
