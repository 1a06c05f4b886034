-- ===== src/Request.antt =====
-- The class `HttpRequest` (include/xnetty/http/http_request.h, src/http/http_request.cpp): a request
-- whose headers, query and body are cut out of the raw bytes when they are first asked for. Where the
-- code caches, a function returns the request too. A lookup that finds nothing gives an empty string.
pub mod Lookup
pub mod Query
pub mod Raw
mod Tests
use Prim.Native.Nat.{bit_or}
use xnetty.Prelude.{
  ℕ, zero, suc, ◌+◌, ◌-◌, ◌≤◌, List, [], ◌∷◌, ◌++◌, Bool, true, false, not, ◌&&◌, ◌||◌, Option,
  none, some, leb, ltb, ◌==◌, if◌then◌else◌, length, get_or, take, drop,
}
use xnetty.Prelude.Text.{Text, codes, text_eq, is_empty}
use xnetty.Memory.{Outcome, ok, ◌>>=◌, add_size, load}
use xnetty.Response.{HeaderList}
use xnetty.Router.{HttpMethod, Params, set_param}

pub data HttpVersion : Type 0 where
  http_1_0 http_1_1 http_2_0 unknown_version : HttpVersion

pub record HeaderEntry : Type 0 where
  pub offset : ℕ
  pub key_len : ℕ
  pub value_len : ℕ

-- `raw_data` is what `rawData_` points to, up to the end of its allocation; `none` is null.
pub record HttpRequest : Type 0 where
  pub method : HttpMethod
  pub version : HttpVersion
  pub uri : Text
  pub path : Text
  pub raw_data : Option (List ℕ)
  pub raw_data_len : ℕ
  pub header_offsets : List HeaderEntry
  pub header_end : ℕ
  pub headers_parsed : Bool
  pub query_parsed : Bool
  pub body_parsed : Bool
  pub headers : HeaderList
  pub queries : Params
  pub body : Text
  pub params : Params
  pub content_length : ℕ

unfoldable pub create : HttpRequest
create = record {
  method = HttpMethod.unknown;
  version = http_1_1;
  uri = [];
  path = [];
  raw_data = none;
  raw_data_len = 0;
  header_offsets = [];
  header_end = 0;
  headers_parsed = false;
  query_parsed = false;
  body_parsed = false;
  headers = [];
  queries = [];
  body = [];
  params = [];
  content_length = 0;
}

abbrev or_length : Option ℕ → Text → ℕ
or_length none s = length s
or_length (some i) s = i

abbrev one_more : Option ℕ → Option ℕ
one_more none = none
one_more (some i) = some (suc i)

-- `s.find(c)`
unfoldable pub find_char : ℕ → Text → Option ℕ
find_char c [] = none
find_char c (x ∷ s) = if x == c then some 0 else one_more (find_char c s)

-- `parsePath`: the uri up to the question mark.
unfoldable pub parse_path : Text → Text
parse_path uri = take (or_length (find_char b'?' uri) uri) uri

unfoldable pub set_uri : Text → HttpRequest → HttpRequest
set_uri u r = record r { uri = u; path = parse_path u }

unfoldable pub set_raw_data : List ℕ → ℕ → List HeaderEntry → ℕ → HttpRequest → HttpRequest
set_raw_data bytes total offsets header_end r = record r {
  raw_data = some bytes;
  raw_data_len = total;
  header_offsets = offsets;
  header_end = header_end;
  headers_parsed = false;
  query_parsed = false;
  body_parsed = false;
}

-- The loop of `ensureHeadersParsed`: the key, and the value two bytes behind it.
unfoldable pub cut_headers : List ℕ → List HeaderEntry → Outcome HeaderList
cut_headers raw [] = ok []
cut_headers raw (e ∷ entries) = do
  key ← load raw e.offset e.key_len
  value ← load raw (e.offset + e.key_len + 2) e.value_len
  rest ← cut_headers raw entries
  ok ((key, value) ∷ rest)

abbrev pub with_headers : HttpRequest → Option (List ℕ) → Outcome HttpRequest
with_headers r none = ok (record r { headers_parsed = true })
with_headers r (some raw) = do
  more ← cut_headers raw r.header_offsets
  ok (record r { headers_parsed = true; headers = r.headers ++ more })

unfoldable pub ensure_headers_parsed : HttpRequest → Outcome HttpRequest
ensure_headers_parsed r = if r.headers_parsed then ok r else with_headers r r.raw_data

-- `std::tolower` in the "C" locale.
unfoldable pub to_lower : ℕ → ℕ
to_lower c = if leb b'A' c && leb c b'Z' then c + 32 else c

-- The comparison of `header` and `hasHeader`: equal lengths, and equal in lower case.
unfoldable pub eq_fold : Text → Text → Bool
eq_fold [] [] = true
eq_fold (x ∷ xs) (y ∷ ys) = to_lower x == to_lower y && eq_fold xs ys
eq_fold [] (_ ∷ _) = false
eq_fold (_ ∷ _) [] = false

-- The first of the two loops of `header`, and the second.
unfoldable pub find_exact : Text → HeaderList → Option Text
find_exact key [] = none
find_exact key ((k, v) ∷ headers) = if text_eq k key then some v else find_exact key headers

unfoldable pub find_fold : Text → HeaderList → Option Text
find_fold key [] = none
find_fold key ((k, v) ∷ headers) = if eq_fold k key then some v else find_fold key headers

abbrev or_else : Option Text → Option Text → Option Text
or_else none o = o
or_else (some v) o = some v

unfoldable pub find_header : Text → HeaderList → Option Text
find_header key headers = or_else (find_exact key headers) (find_fold key headers)

abbrev pub or_empty : Option Text → Text
or_empty none = []
or_empty (some v) = v

abbrev is_some : Option Text → Bool
is_some none = false
is_some (some v) = true

unfoldable pub header : Text → HttpRequest → Outcome (Text × HttpRequest)
header key r = do r' ← ensure_headers_parsed r; ok (or_empty (find_header key r'.headers), r')

pub has_header : Text → HttpRequest → Outcome (Bool × HttpRequest)
has_header key r = do r' ← ensure_headers_parsed r; ok (is_some (find_header key r'.headers), r')

-- `setHeader` does not parse the headers first, and marks them as parsed only if it adds one.
set_in : Text → Text → HeaderList → Option HeaderList
set_in key value [] = none
set_in key value ((k, v) ∷ headers) =
    if text_eq k key
    then some ((k, value) ∷ headers)
    else elim (set_in key value headers) [ none ↦ none | some hs ↦ some ((k, v) ∷ hs) ]

abbrev with_header : Text → Text → HttpRequest → Option HeaderList → HttpRequest
with_header key value r none = record r {
  headers = r.headers ++ ((key, value) ∷ []);
  headers_parsed = true;
}
with_header key value r (some hs) = record r { headers = hs }

pub set_header : Text → Text → HttpRequest → HttpRequest
set_header key value r = with_header key value r (set_in key value r.headers)

-- The loop of `ensureQueryParsed` over the text from `start` on; each round passes a byte at least.
pub parse_pairs : ℕ → Text → Params → Params
parse_pairs zero qs queries = queries
parse_pairs (suc fuel) qs queries =
    let amp = or_length (find_char b'&' qs) qs in
    let eq = or_length (find_char b'=' qs) qs in
    let queries' =
      if ltb eq amp
      then set_param (take eq qs) (take (amp - eq - 1) (drop (eq + 1) qs)) queries
      else queries in
    let rest = parse_pairs fuel (drop (amp + 1) qs) queries' in
    if is_empty qs then queries else rest

abbrev parse_after : Option ℕ → Text → Params → Params
parse_after none uri queries = queries
parse_after (some qpos) uri queries =
    let qs = drop (qpos + 1) uri in parse_pairs (length qs) qs queries

pub ensure_query_parsed : HttpRequest → HttpRequest
ensure_query_parsed r = if r.query_parsed then r else record r {
  query_parsed = true;
  queries = parse_after (find_char b'?' r.uri) r.uri r.queries;
}

pub lookup : Text → Params → Option Text
lookup key [] = none
lookup key ((k, v) ∷ ps) = if text_eq k key then some v else lookup key ps

pub query : Text → HttpRequest → Text × HttpRequest
query key r = let r' = ensure_query_parsed r in (or_empty (lookup key r'.queries), r')

pub has_query : Text → HttpRequest → Bool × HttpRequest
has_query key r = let r' = ensure_query_parsed r in (is_some (lookup key r'.queries), r')

pub param : Text → HttpRequest → Text
param key r = or_empty (lookup key r.params)

abbrev cut_body : HttpRequest → Option (List ℕ) → Outcome Text
cut_body r none = ok r.body
cut_body r (some raw) =
    if r.header_end == 0
    then ok r.body
    else if ltb 0 r.content_length && leb (add_size r.header_end r.content_length) r.raw_data_len
    then load raw r.header_end r.content_length
    else if ltb r.header_end r.raw_data_len
    then load raw r.header_end (r.raw_data_len - r.header_end)
    else ok r.body

pub ensure_body_parsed : HttpRequest → Outcome HttpRequest
ensure_body_parsed r =
    if r.body_parsed
    then ok r
    else (do b ← cut_body r r.raw_data; ok (record r { body_parsed = true; body = b }))

pub get_body : HttpRequest → Outcome (Text × HttpRequest)
get_body r = do r' ← ensure_body_parsed r; ok (r'.body, r')

pub set_body : Text → HttpRequest → Outcome HttpRequest
set_body b r = do
  r' ← ensure_body_parsed r
  ok (record r' { body = b; body_parsed = true; content_length = length b })

-- `c | 32`
abbrev low : ℕ → ℕ
low c = bit_or c 32

-- The test of a parsed header by `hasConnectionClose`: ten letters that begin with c, and a value
-- that begins with "cl".
unfoldable pub parsed_close : HeaderList → Bool
parsed_close [] = false
parsed_close ((k, v) ∷ headers) =
    (length k == 10
      && low (get_or k 0 0) == b'c'
      && leb 4 (length v)
      && low (get_or v 0 0) == b'c'
      && low (get_or v 1 0) == b'l')
    || parsed_close headers

-- The comparison with a word in lower case.
unfoldable pub lower_eq : Text → Text → Bool
lower_eq [] [] = true
lower_eq (x ∷ xs) (y ∷ ys) = low x == y && lower_eq xs ys
lower_eq [] (_ ∷ _) = false
lower_eq (_ ∷ _) [] = false

-- The loop over the entries of a request whose headers are not parsed; the first `Connection` header
-- decides. The bytes are loaded at once here, and in the code one by one up to the first that differs.
unfoldable pub raw_close : List ℕ → List HeaderEntry → Outcome Bool
raw_close raw [] = ok false
raw_close raw (e ∷ entries) =
    if e.key_len == 10
    then (do
      k ← load raw e.offset 10
      if lower_eq k (codes "connection")
          then (if leb 4 e.value_len
              then (do v ← load raw (e.offset + 12) 4; ok (lower_eq v (codes "clos")))
              else ok false)
          else raw_close raw entries)
    else raw_close raw entries

abbrev close_of : List HeaderEntry → Option (List ℕ) → Outcome Bool
close_of entries none = raw_close [] entries
close_of entries (some raw) = raw_close raw entries

unfoldable pub has_connection_close : HttpRequest → Outcome Bool
has_connection_close r =
    if r.headers_parsed then ok (parsed_close r.headers) else close_of r.header_offsets r.raw_data
