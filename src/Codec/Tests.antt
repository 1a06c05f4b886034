-- ===== src/Codec/Tests.antt =====
-- Runs of the codec with a parser that takes any bytes for one message, and the theorems at concrete
-- inputs.
use xnetty.Prelude.{◌≡◌, refl, true, [], ◌∷◌, none, some, length, arith}
use xnetty.Prelude.Text.{Text, codes, text_eq}
use xnetty.Memory.{load, ◌>>=◌}
use xnetty.Memory.Plain.{plain}
use xnetty.Memory.Returns.{Returns}
use xnetty.Buffer.{empty, readable_bytes, clear}
use xnetty.Request
use xnetty.Request.{
  find_char, parse_path, set_uri, set_raw_data, cut_headers, ensure_headers_parsed, to_lower,
  eq_fold, find_exact, find_fold, find_header, header, has_connection_close, parsed_close,
  raw_close, lower_eq,
}
use xnetty.Codec.{
  Parser, CodecState, create, url, header_field, header_value, headers_complete, message_complete,
  post, on_url, on_hf, on_hv, on_hc, on_event, run, set_value_len, method_of, is_digit, number,
  skip_space, magnitude, signed, stoul, body_len, too_large, set_conn_keep_alive, signal_activity,
  write_and_flush, body_answer, header_answer,
}
use xnetty.Codec.Read.{
  bytes, start, keep, consumed, filled, finish, complete, round, loop, loop_all, read_bytes,
  channel_read,
}
use xnetty.Codec.Fired.{fired}
use xnetty.Codec.Limits.{Within, channel_read-Within}
use xnetty.Prelude.{if◌then◌else◌, ltb, arith, length}
use xnetty.Memory.{store}
use xnetty.Buffer.{write_bytes, ensure_writable, expand, grow}
use xnetty.Buffer.Inv.{IsValid}
use xnetty.Codec.{ParseCtx}
use xnetty.Codec.Parts.{Joined, read_twice, channel_read-parts}
use xnetty.Prelude.Preds.{All}

all_open : Unit {0}
unfolding write_bytes ensure_writable expand grow store text_eq load readable_bytes clear
    Request.create find_char parse_path set_uri set_raw_data cut_headers ensure_headers_parsed
    to_lower eq_fold find_exact find_fold find_header header has_connection_close parsed_close
    raw_close lower_eq create on_url on_hf on_hv on_hc on_event run set_value_len method_of is_digit
    number skip_space magnitude signed stoul body_len too_large start keep consumed filled finish
    complete round loop loop_all read_bytes channel_read
all_open = tt

abbrev one_message : Parser
one_message = record {
  events = λ raw.
      url 5 1
      ∷ header_field 17 14
      ∷ header_value 33 1
      ∷ headers_complete post 1 1
      ∷ message_complete
      ∷ [];
  error_pos = λ raw. none;
}

abbrev small : Text
small = codes "POST / HTTP/1.1\r\nContent-Length: 2\r\n\r\n12"

abbrev big : Text
big = codes "POST / HTTP/1.1\r\nContent-Length: 9\r\n\r\n123456789"

abbrev refused_state : CodecState
refused_state = record {
  request = record Request.create {
    headers = (codes "Content-Length", codes "9") ∷ [];
    headers_parsed = true;
  };
  leftover = empty;
}

stoul-space : stoul (codes " +12a") ≡ some 12
unfolding all_open
stoul-space = refl

stoul-sign : stoul (codes "-1") ≡ some 18446744073709551615
unfolding all_open
stoul-sign = refl

stoul-none : stoul (codes "x1") ≡ none
unfolding all_open
stoul-none = refl

channel_read-small :
    Returns (λ r. r.0 ≡ create) (channel_read plain one_message 0 4 (bytes small) create)
unfolding all_open
channel_read-small = refl

channel_read-big :
    Returns
      (λ r. r.1 ≡ set_conn_keep_alive true ∷ signal_activity ∷ write_and_flush body_answer ∷ [])
      (channel_read plain one_message 0 4 (bytes big) create >>= λ r.
        channel_read plain one_message 0 4 (bytes small) r.0)
unfolding all_open
channel_read-big = refl

channel_read-header :
    Returns
      (λ r. r.1 ≡ write_and_flush header_answer ∷ [])
      (channel_read plain one_message 33 0 (bytes small) create)
unfolding all_open
channel_read-header = refl

channel_read-Within_example :
    All (Within 4) (fired plain one_message 0 4 (bytes small) create)
    × Returns
        (λ r. r.1 ≡ fired plain one_message 0 4 (bytes small) create)
        (channel_read plain one_message 0 4 (bytes small) create)
channel_read-Within_example =
    channel_read-Within plain one_message 0 4 (omega arith) (bytes small) create

abbrev until_complete : Parser
until_complete = record {
  events = λ raw. if ltb (length raw) 39 then url 5 1 ∷ [] else one_message.events raw;
  error_pos = λ raw. none;
}

abbrev head_part : Text
head_part = codes "POST / HTTP/1.1\r\n"

abbrev rest_part : Text
rest_part = codes "Content-Length: 2\r\n\r\n12"

abbrev head_parsed : ParseCtx
head_parsed = record (start plain until_complete 0 0 Request.create) {
  req = set_uri (codes "/") Request.create;
  max_offset = 6;
}

empty-IsValid : IsValid empty
empty-IsValid = record {
  sized = refl;
  small = omega arith;
  ordered = omega arith;
  within = omega arith;
}

channel_read-parts_example :
    Joined plain until_complete 0 0 head_parsed head_part rest_part
      (read_twice plain until_complete 0 0 head_part rest_part create)
unfolding all_open
channel_read-parts_example =
    channel_read-parts plain until_complete 0 0 create head_parsed head_part rest_part empty-IsValid
      refl refl (omega arith) refl refl refl (omega arith)
