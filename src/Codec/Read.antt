-- ===== src/Codec/Read.antt =====
-- `channelRead` of `HttpServerCodec`: the bytes that came, behind those that were left over, are cut
-- into requests.
use xnetty.Prelude.{
  ℕ, zero, suc, ◌+◌, List, [], ◌∷◌, ◌++◌, Bool, false, not, ◌&&◌, Option, none, some, leb, ltb,
  ◌==◌, if◌then◌else◌, length, drop, min,
}
use xnetty.Prelude.Text.{Text, codes}
use xnetty.Memory.{Outcome, ok, fault, diverge, ◌>>=◌, Allocator, load}
use xnetty.Buffer.{ByteBuf, clear, readable_bytes, write_bytes}
use xnetty.Request.{HttpRequest, set_raw_data, has_connection_close, header}
use xnetty.Request
use xnetty.Codec.{
  Parser, ParseCtx, CodecState, Action, pass_on, fire_request, write_and_flush, set_conn_keep_alive,
  signal_activity, header_answer, body_answer, run, no_entries, too_large,
}

pub data Message : Type 0 where
  bytes : List ℕ → Message
  not_bytes : Message

pub data Round : Type 0 where
  ends continues : CodecState → List Action → Round

-- Whether `memcpy` of `n` bytes to `dest` would overlap its source; `own` is where the source begins
-- in the same block, if it does.
abbrev overlaps : Option ℕ → ℕ → ℕ → Bool
overlaps none dest n = false
overlaps (some off) dest n = ltb dest (off + n) && ltb off (dest + n)

abbrev pub advance : ℕ → Option ℕ → Option ℕ
advance n none = none
advance n (some off) = some (off + n)

abbrev from_leftover : ByteBuf → Option ℕ
from_leftover b = if readable_bytes b == 0 then none else some b.reader_index

abbrev or_number : Option ℕ → ℕ → ℕ
or_number none n = n
or_number (some i) n = i

abbrev pub is_letter : List ℕ → Bool
is_letter [] = false
is_letter (c ∷ _) = leb b'A' c && leb c b'Z'

-- The rest of the loop behind a round.
abbrev pub continue_with :
    (CodecState → Outcome (CodecState × List Action)) → Round → Outcome (CodecState × List Action)
continue_with go (ends st out) = ok (st, out)
continue_with go (continues st out) = do rest ← go st; ok (rest.0, out ++ rest.1)

module _ (m : Allocator) (parser : Parser) (max_header max_body : ℕ) where
  unfoldable pub start : HttpRequest → ParseCtx
  start r = record {
    req = r;
    header_end_offset = 0;
    header_offsets = [];
    msg_complete = false;
    header_too_large = false;
    max_header_size = max_header;
    max_offset = 0;
  }

  -- The bytes of a message that is not complete are kept, unless they are in `leftover` already.
  unfoldable pub keep : Option ℕ → List ℕ → ByteBuf → Outcome ByteBuf
  keep own raw b =
      if readable_bytes b == 0
      then (if overlaps own b.writer_index (length raw) then fault else write_bytes m b raw)
      else ok b

  abbrev pub stop_of : List ℕ → ℕ
  stop_of raw = or_number (parser.error_pos raw) (length raw)

  unfoldable pub consumed : List ℕ → ℕ
  consumed raw = if stop_of raw == 0 then length raw else stop_of raw

  unfoldable pub filled : List ℕ → ParseCtx → HttpRequest
  filled raw p =
      if no_entries p.header_offsets && p.header_end_offset == 0
      then p.req
      else set_raw_data raw (min (consumed raw) (stop_of raw)) p.header_offsets p.header_end_offset
          p.req

  unfoldable pub finish : List ℕ → ByteBuf → Bool → Text → HttpRequest → Round
  finish raw b close cl r =
      let told : List Action = set_conn_keep_alive (not close) ∷ signal_activity ∷ [] in
      let next : CodecState = record { request = Request.create; leftover = clear b } in
      if too_large max_body cl
      then ends (record { request = r; leftover = clear b })
          (told ++ (write_and_flush body_answer ∷ []))
      else if leb (length raw) (consumed raw)
      then ends next (told ++ (fire_request r ∷ []))
      else continues next (told ++ (fire_request r ∷ []))

  -- What follows on a complete message: its request is passed on, unless its body is too large.
  unfoldable pub complete : List ℕ → ParseCtx → ByteBuf → Outcome Round
  complete raw p b = do
    close ← has_connection_close (filled raw p)
    h ← header (codes "Content-Length") (filled raw p)
    ok (finish raw b close h.0 h.1)

  -- One round of the loop.
  unfoldable pub round : Option ℕ → List ℕ → CodecState → Outcome Round
  round own raw st = do
    p ← run raw (parser.events raw) (start st.request)
    if p.header_too_large
        then ok (
            ends (record { request = p.req; leftover = clear st.leftover })
              (write_and_flush header_answer ∷ []))
        else if p.msg_complete
        then complete raw p st.leftover
        else (do
          b ← keep own raw st.leftover
          ok (ends (record { request = p.req; leftover = b }) []))

  unfoldable pub loop : ℕ → Option ℕ → List ℕ → CodecState → Outcome (CodecState × List Action)
  loop zero own raw st = diverge
  loop (suc fuel) own raw st = do
    x ← round own raw st
    continue_with (loop fuel (advance (consumed raw) own) (drop (consumed raw) raw)) x

  -- A round passes a byte at least, and the last one ends with no byte left.
  unfoldable pub loop_all : Option ℕ → List ℕ → CodecState → Outcome (CodecState × List Action)
  loop_all own raw st = loop (suc (length raw)) own raw st

  unfoldable pub read_bytes : List ℕ → CodecState → Outcome (CodecState × List Action)
  read_bytes raw st =
      if readable_bytes st.leftover == 0
      then (if is_letter raw then loop_all none raw st else ok (st, pass_on ∷ []))
      else (do
        b ← write_bytes m st.leftover raw
        whole ← load b.block b.reader_index (readable_bytes b)
        loop_all (some b.reader_index) whole (record st { leftover = b }))

  unfoldable pub channel_read : Message → CodecState → Outcome (CodecState × List Action)
  channel_read not_bytes st = ok (st, pass_on ∷ [])
  channel_read (bytes []) st = ok (st, pass_on ∷ [])
  channel_read (bytes (c ∷ raw)) st = read_bytes (c ∷ raw) st
