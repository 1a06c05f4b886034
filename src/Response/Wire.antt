-- ===== src/Response/Wire.antt =====
-- The text of a response, and that `serialize` appends it to the buffer.
use xnetty.Prelude.{
  ◌≡◌, refl, sym, ap, ◌∙◌, [], ◌∷◌, ◌++◌, append_assoc, not, ◌&&◌, ltb, if◌then◌else◌, length,
}
use xnetty.Prelude.Text.{Text, codes}
use xnetty.Prelude.Decimal.{digits}
use xnetty.Response.{HeaderList, HttpResponse, crlf, colon_space}

-- A header as a line.
unfoldable pub line : Text × Text → Text
line (k, v) = k ++ (colon_space ++ (v ++ crlf))

unfoldable pub lines : HeaderList → Text
lines [] = []
lines (h ∷ headers) = line h ++ lines headers

-- The headers that a response adds to those that were set: a length and a type if there is a body,
-- and what becomes of the connection.
unfoldable pub length_header : HttpResponse → HeaderList
length_header r =
    if not r.content_length_set && ltb 0 (length r.body)
    then (codes "Content-Length", digits (length r.body)) ∷ []
    else []

unfoldable pub type_header : HttpResponse → HeaderList
type_header r =
    if not r.content_type_set && ltb 0 (length r.body)
    then (codes "Content-Type", codes "text/plain") ∷ []
    else []

unfoldable pub connection_header : HttpResponse → HeaderList
connection_header r =
    if not r.connection_set
    then (codes "Connection", if r.keep_alive then codes "keep-alive" else codes "close") ∷ []
    else []

-- All header lines, in order.
unfoldable pub sent_headers : HttpResponse → HeaderList
sent_headers r = r.headers ++ (length_header r ++ (type_header r ++ connection_header r))

unfoldable pub wire_head : HttpResponse → Text
wire_head r = r.status_line ++ (lines (sent_headers r) ++ crlf)

unfoldable pub wire : HttpResponse → Text
wire r = wire_head r ++ r.body

pub lines-append : (xs ys : HeaderList) → lines (xs ++ ys) ≡ lines xs ++ lines ys
unfolding lines
lines-append [] ys = refl
lines-append (x ∷ xs) ys =
    ap (λ l. line x ++ l) (lines-append xs ys) ∙ sym (append_assoc (line x) (lines xs) (lines ys))
