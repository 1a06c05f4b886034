-- ===== src/Request/Tests.antt =====
-- Runs of requests, and the theorems at concrete inputs.
use xnetty.Prelude.{◌≡◌, refl, true, false, [], ◌∷◌, ◌++◌, some, length, arith}
use xnetty.Prelude.Text.{Text, codes, text_eq}
use xnetty.Memory.{ok, load}
use xnetty.Response.{HeaderList}
use xnetty.Response.Wire.{line, lines}
use xnetty.Router.{Params, set_param, erase_param}
use xnetty.Request.{
  HttpRequest, create, find_char, parse_path, set_uri, set_raw_data, cut_headers,
  ensure_headers_parsed, to_lower, eq_fold, find_exact, find_fold, find_header, header,
  has_connection_close, parsed_close, raw_close, lower_eq, parse_pairs, ensure_query_parsed, lookup,
  query, set_header, ensure_body_parsed, get_body,
}
use xnetty.Request.Lookup.{fold}
use xnetty.Request.Query.{pair, render, IsPlainPair, last_of, set_uri-query}
use xnetty.Request.Raw.{entries_at}

all_open : Unit {0}
unfolding text_eq load line lines create find_char parse_path set_uri set_raw_data cut_headers
    ensure_headers_parsed to_lower eq_fold find_exact find_fold find_header header
    has_connection_close parsed_close raw_close lower_eq parse_pairs ensure_query_parsed lookup
    query set_header ensure_body_parsed get_body fold pair render IsPlainPair last_of set_param
    erase_param
all_open = tt

abbrev two_headers : HeaderList
two_headers = (codes "Host", codes "here") ∷ (codes "Connection", codes "Close") ∷ []

abbrev start : Text
start = codes "GET / HTTP/1.1\r\n"

abbrev bytes : Text
bytes = start ++ (lines two_headers ++ codes "\r\nbody")

abbrev raw_request : HttpRequest
raw_request = set_raw_data bytes (length bytes) (entries_at (length start) two_headers) 46 create

connection_found : find_header (codes "CONNECTION") two_headers ≡ some (codes "Close")
unfolding all_open
connection_found = refl

abbrev two_pairs : Params
two_pairs = (codes "a", codes "1=2") ∷ (codes "b", []) ∷ []

rendered : render two_pairs ≡ codes "a=1=2&b="
unfolding all_open
rendered = refl

set_uri-query_example :
    ((set_uri (codes "/p" ++ (b'?' ∷ render two_pairs)) create).path ≡ codes "/p")
    × ((query (codes "a") (set_uri (codes "/p" ++ (b'?' ∷ render two_pairs)) create)).0
        ≡ codes "1=2")
unfolding all_open
set_uri-query_example =
    set_uri-query (codes "/p") two_pairs create (codes "a") (ground arith) (ground arith) refl

raw-Close : has_connection_close raw_request ≡ ok true
unfolding all_open
raw-Close = refl

abbrev like_close : HeaderList
like_close = (codes "Cell-Count", codes "clay") ∷ []

like_close_raw :
    has_connection_close (set_raw_data (lines like_close) 18 (entries_at 0 like_close) 16 create)
    ≡ ok false
unfolding all_open
like_close_raw = refl

like_close_parsed : parsed_close like_close ≡ true
unfolding all_open
like_close_parsed = refl
