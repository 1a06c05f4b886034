-- ===== src/Codec.antt =====
-- The class `HttpServerCodec` (include/xnetty/http/http_codec.h, src/http/http_codec.cpp). llhttp is a
-- parameter: for some bytes, the callbacks that `llhttp_execute` makes on a parser that was reset, were
-- none of them to stop it, and the position that it is stopped at. What goes out, to the next handler
-- or to the context, is a list of actions. The context is never null, since `state` reads it first.
pub mod Read
pub mod Headers
pub mod Decimals
pub mod Fired
pub mod Limits
pub mod Refused
pub mod Parts
pub mod Write
mod Tests
use Prim.Native.String.{String}
use xnetty.Request
use xnetty.Response
use xnetty.Prelude.{
  ℕ, zero, suc, ◌+◌, ◌-◌, ◌*◌, ◌%◌, ◌^◌, ◌≤◌, List, [], ◌∷◌, ◌++◌, Bool, true, false, not, ◌&&◌,
  ◌||◌, Option, none, some, leb, ltb, ◌==◌, if◌then◌else◌, length, drop, max, min,
}
use xnetty.Prelude.Text.{Text, codes, is_empty}
use xnetty.Memory.{Outcome, ok, diverge, ◌>>=◌, Allocator, size_mod, load}
use xnetty.Buffer.{ByteBuf, clear, empty, readable_bytes, write_bytes}
use xnetty.Response.{HttpStatus, HttpResponse, set_status, set_content_type, set_content}
use xnetty.Router.{HttpMethod}
use xnetty.Request.{
  HttpVersion, HttpRequest, HeaderEntry, http_1_0, http_1_1, set_uri, set_raw_data,
  has_connection_close, header,
}

-- Of the methods of llhttp those that the code names.
pub data Verb : Type 0 where
  get post put delete patch head options other : Verb

-- The callbacks: a part of the bytes by its offset and length, and the numbers of the version.
pub data Event : Type 0 where
  url header_field header_value : ℕ → ℕ → Event
  headers_complete : Verb → ℕ → ℕ → Event
  message_complete : Event

-- `error_pos` is `llhttp_get_error_pos` after the callback of a complete message has stopped the parser.
pub record Parser : Type 0 where
  pub events : List ℕ → List Event
  pub error_pos : List ℕ → Option ℕ

pub record ParseCtx : Type 0 where
  pub req : HttpRequest
  pub header_end_offset : ℕ
  pub header_offsets : List HeaderEntry
  pub msg_complete : Bool
  pub header_too_large : Bool
  pub max_header_size : ℕ
  pub max_offset : ℕ

abbrev reach : ℕ → ParseCtx → ParseCtx
reach end p = if ltb p.max_offset end then record p { max_offset = end } else p

pub on_url : List ℕ → ℕ → ℕ → ParseCtx → Outcome ParseCtx
on_url raw at len p = do
  u ← load raw at len
  ok (reach (at + len) (record p { req = set_uri u p.req }))

pub on_hf : ℕ → ℕ → ParseCtx → ParseCtx
on_hf at len p = reach (at + len) (record p {
  header_offsets = p.header_offsets ++ (record { offset = at; key_len = len; value_len = 0 } ∷ []);
})

-- `headerOffsets.back().valueLen = len`
set_value_len : ℕ → List HeaderEntry → List HeaderEntry
set_value_len len [] = []
set_value_len len (e ∷ []) = record e { value_len = len } ∷ []
set_value_len len (e ∷ f ∷ entries) = e ∷ set_value_len len (f ∷ entries)

abbrev no_entries : List HeaderEntry → Bool
no_entries [] = true
no_entries (_ ∷ _) = false

pub on_hv : ℕ → ℕ → ParseCtx → ParseCtx
on_hv at len p =
    if no_entries p.header_offsets
    then p
    else reach (at + len) (record p { header_offsets = set_value_len len p.header_offsets })

-- The `switch` of `on_hc`.
pub method_of : Verb → HttpMethod → HttpMethod
method_of get old = HttpMethod.get
method_of post old = HttpMethod.post
method_of put old = HttpMethod.put
method_of delete old = HttpMethod.delete
method_of patch old = HttpMethod.patch
method_of head old = HttpMethod.head
method_of options old = HttpMethod.options
method_of other old = old

-- With whether the parser is stopped.
pub on_hc : Verb → ℕ → ℕ → ParseCtx → Bool × ParseCtx
on_hc verb major minor p =
    if ltb 0 p.max_header_size && ltb p.max_header_size p.max_offset
    then (true, record p { header_end_offset = p.max_offset; header_too_large = true })
    else (
      false,
      record p {
        header_end_offset = p.max_offset;
        req = record p.req {
          method = method_of verb p.req.method;
          version = if major == 1 && minor == 1 then http_1_1 else http_1_0;
        };
      },
    )

pub on_event : List ℕ → Event → ParseCtx → Outcome (Bool × ParseCtx)
on_event raw (url at len) p = do p' ← on_url raw at len p; ok (false, p')
on_event raw (header_field at len) p = ok (false, on_hf at len p)
on_event raw (header_value at len) p = ok (false, on_hv at len p)
on_event raw (headers_complete verb major minor) p = ok (on_hc verb major minor p)
on_event raw message_complete p = ok (true, record p { msg_complete = true })

-- The callbacks one after the other, up to the first that stops the parser.
pub run : List ℕ → List Event → ParseCtx → Outcome ParseCtx
run raw [] p = ok p
run raw (e ∷ events) p = do r ← on_event raw e p; if r.0 then ok r.1 else run raw events r.1

-- `std::stoul` in base 10; `none` is an exception.
is_digit : ℕ → Bool
is_digit c = leb b'0' c && leb c b'9'

number : ℕ → Text → ℕ
number n [] = n
number n (c ∷ s) = let more = number (n * 10 + (c - b'0')) s in if is_digit c then more else n

skip_space : Text → Text
skip_space [] = []
skip_space (c ∷ s) =
    let rest = skip_space s in if c == 32 || (leb 9 c && leb c 13) then rest else c ∷ s

magnitude : Text → Option ℕ
magnitude [] = none
magnitude (c ∷ s) =
    if is_digit c
    then (if ltb (number 0 (c ∷ s)) size_mod then some (number 0 (c ∷ s)) else none)
    else none

abbrev negated : Option ℕ → Option ℕ
negated none = none
negated (some n) = some ((size_mod - n) % size_mod)

signed : Text → Option ℕ
signed [] = none
signed (c ∷ s) =
    if c == b'-'
    then negated (magnitude s)
    else if c == b'+'
    then magnitude s
    else magnitude (c ∷ s)

pub stoul : Text → Option ℕ
stoul s = signed (skip_space s)

abbrev or_zero : Option ℕ → ℕ
or_zero none = 0
or_zero (some n) = n

-- The length that a `Content-Length` announces, 0 where it is no number.
pub body_len : Text → ℕ
body_len cl = or_zero (stoul cl)

pub too_large : ℕ → Text → Bool
too_large max_body cl = ltb 0 max_body && not (is_empty cl) && ltb max_body (body_len cl)

pub data Action : Type 0 where
  pass_on : Action
  fire_request : HttpRequest → Action
  write_and_flush : HttpResponse → Action
  set_conn_keep_alive : Bool → Action
  signal_activity : Action

abbrev answer : ℕ → String → String → HttpResponse
answer code reason content = set_content (codes content) (
    set_content_type (codes "text/plain")
      (set_status (record { code = code; reason = codes reason }) Response.create))

abbrev pub header_answer : HttpResponse
header_answer = answer 431 "Request Header Fields Too Large" "Header Too Large"

abbrev pub body_answer : HttpResponse
body_answer = answer 413 "Payload Too Large" "Body Too Large"

-- `CodecState`: the parser is reset before every use.
pub record CodecState : Type 0 where
  pub request : HttpRequest
  pub leftover : ByteBuf

pub create : CodecState
create = record { request = Request.create; leftover = empty }
