-- ===== src/Response.antt =====
-- The class `HttpResponse` (include/xnetty/http/http_response.h, src/http/http_response.cpp), with
-- `HttpStatus` (include/xnetty/http/http_status.h): a status line, headers and a body, and how they
-- are written to a `ByteBuf`. Strings are lists of bytes.
pub mod Sizes
pub mod Wire
pub mod Writes
pub mod Serialize
pub mod Headers
mod Tests
use Prim.Native.String.{String}
use xnetty.Prelude.{
  ℕ, zero, suc, ◌+◌, ◌-◌, ◌/◌, ◌%◌, List, [], ◌∷◌, ◌++◌, Bool, true, false, not, ◌&&◌, ◌||◌, leb,
  ltb, ◌==◌, if◌then◌else◌, length,
}
use xnetty.Prelude.Text.{Text, codes, text_eq}
use xnetty.Prelude.Decimal.{digits}
use xnetty.Memory.{Outcome, ok, fault, ◌>>=◌, Allocator, add_size, size_mod, store}
use xnetty.Buffer.{ByteBuf, empty, ensure_writable, set_writer_index, allocate}

pub record HttpStatus : Type 0 where
  pub code : ℕ
  pub reason : Text

-- `std::vector<std::pair<std::string, std::string>>`
abbrev pub HeaderList : Type 0
HeaderList = List (Text × Text)

pub record HttpResponse : Type 0 where
  pub status : HttpStatus
  pub headers : HeaderList
  pub body : Text
  pub status_line : Text
  pub keep_alive : Bool
  pub content_length_set : Bool
  pub content_type_set : Bool
  pub connection_set : Bool

abbrev pub crlf : Text
crlf = 13 ∷ 10 ∷ []

abbrev pub colon_space : Text
colon_space = b':' ∷ 32 ∷ []

abbrev pub status_ok : HttpStatus
status_ok = record { code = 200; reason = codes "OK" }

-- The constructor.
pub create : HttpResponse
create = record {
  status = status_ok;
  headers = [];
  body = [];
  status_line = codes "HTTP/1.1 200 OK" ++ crlf;
  keep_alive = true;
  content_length_set = false;
  content_type_set = false;
  connection_set = false;
}

pub set_status : HttpStatus → HttpResponse → HttpResponse
set_status s r = record r {
  status = s;
  status_line = codes "HTTP/1.1 " ++ (digits s.code ++ (32 ∷ (s.reason ++ crlf)));
}

-- The loop of the setters: the first header of this name gets the value, or a new one is added.
pub put_header : Text → Text → HeaderList → HeaderList
put_header key value [] = (key, value) ∷ []
put_header key value ((k, v) ∷ headers) =
    if text_eq k key then (k, value) ∷ headers else (k, v) ∷ put_header key value headers

pub set_header : Text → Text → HttpResponse → HttpResponse
set_header key value r = record r {
  headers = put_header key value r.headers;
  connection_set = r.connection_set || text_eq key (codes "Connection");
}

has_header_in : Text → HeaderList → Bool
has_header_in key [] = false
has_header_in key ((k, v) ∷ headers) = text_eq k key || has_header_in key headers

pub has_header : Text → HttpResponse → Bool
has_header key r = has_header_in key r.headers

pub set_content_type : Text → HttpResponse → HttpResponse
set_content_type type r = record r {
  headers = put_header (codes "Content-Type") type r.headers;
  content_type_set = true;
}

pub set_content_length : ℕ → HttpResponse → HttpResponse
set_content_length len r = record r {
  headers = put_header (codes "Content-Length") (digits len) r.headers;
  content_length_set = true;
}

pub set_content : Text → HttpResponse → HttpResponse
set_content body r = record r { body = body }

pub set_keep_alive : Bool → HttpResponse → HttpResponse
set_keep_alive ka r = record r { keep_alive = ka }

-- The loop that adds up the sizes of the headers.
pub headers_size : HeaderList → ℕ
headers_size [] = 0
headers_size ((k, v) ∷ headers) = length k + 4 + length v + headers_size headers

-- The loop `do { total += 1; n /= 10; } while (n > 0)`, with a round for every digit at least.
pub digit_count : ℕ → ℕ → ℕ
digit_count zero n = 0
digit_count (suc fuel) n =
    let rest = digit_count fuel (n / 10) in 1 + (if ltb 0 (n / 10) then rest else 0)

-- What `serializeHeaders` and `serialize` ask the buffer for; `size_t` wraps.
pub head_size : HttpResponse → ℕ
head_size r =
    let n = length r.body in
    let length_line =
      if not r.content_length_set && ltb 0 n then 16 + digit_count (suc n) n + 2 else 0 in
    let type_line = if not r.content_type_set && ltb 0 n then 26 else 0 in
    let last_lines = if r.connection_set then 2 else if r.keep_alive then 26 else 21 in
    (length r.status_line + headers_size r.headers + length_line + type_line + last_lines)
    % size_mod

-- `p` points into the block at the writer index `w`: `memcpy(p + off, src)`, then `off` moves on.
abbrev pub put : ℕ → Text → List ℕ × ℕ → Outcome (List ℕ × ℕ)
put w src (block, off) = do block' ← store block (w + off) src; ok (block', off + length src)

-- The loop over the headers.
pub put_headers : ℕ → HeaderList → List ℕ × ℕ → Outcome (List ℕ × ℕ)
put_headers w [] s = ok s
put_headers w ((k, v) ∷ headers) s = do
  s1 ← put w k s
  s2 ← put w colon_space s1
  s3 ← put w v s2
  s4 ← put w crlf s3
  put_headers w headers s4

-- `std::to_chars(p + off, p + total, n)`; too little room leaves the bytes unspecified.
abbrev put_chars : ℕ → ℕ → ℕ → List ℕ × ℕ → Outcome (List ℕ × ℕ)
put_chars w total n (block, off) =
    if leb (off + length (digits n)) total then put w (digits n) (block, off) else fault

pub put_length : ℕ → ℕ → HttpResponse → List ℕ × ℕ → Outcome (List ℕ × ℕ)
put_length w total r s =
    if not r.content_length_set && ltb 0 (length r.body)
    then (do
      s1 ← put w (codes "Content-Length: ") s
      s2 ← put_chars w total (length r.body) s1
      put w crlf s2)
    else ok s

pub put_type : ℕ → HttpResponse → List ℕ × ℕ → Outcome (List ℕ × ℕ)
put_type w r s =
    if not r.content_type_set && ltb 0 (length r.body)
    then put w (codes "Content-Type: text/plain" ++ crlf) s
    else ok s

pub put_connection : ℕ → HttpResponse → List ℕ × ℕ → Outcome (List ℕ × ℕ)
put_connection w r s =
    if not r.connection_set
    then (if r.keep_alive
        then put w (codes "Connection: keep-alive" ++ (crlf ++ crlf)) s
        else put w (codes "Connection: close" ++ (crlf ++ crlf)) s)
    else put w crlf s

-- What both write before the body.
pub put_head : ℕ → ℕ → HttpResponse → List ℕ × ℕ → Outcome (List ℕ × ℕ)
put_head w total r s = do
  s1 ← put w r.status_line s
  s2 ← put_headers w r.headers s1
  s3 ← put_length w total r s2
  s4 ← put_type w r s3
  put_connection w r s4

pub put_body : ℕ → HttpResponse → List ℕ × ℕ → Outcome (List ℕ × ℕ)
put_body w r s = if ltb 0 (length r.body) then put w r.body s else ok s

-- The end of both: the writer index moves over what was written.
abbrev finish : ByteBuf → List ℕ × ℕ → Outcome ByteBuf
finish b (block, off) = set_writer_index (record b { block = block }) (add_size b.writer_index off)

module _ (m : Allocator) where
  -- Without the body; the code returns the size too.
  pub serialize_headers : HttpResponse → ByteBuf → Outcome (ByteBuf × ℕ)
  serialize_headers r b = do
    let total = head_size r
    b' ← ensure_writable m b total
    s ← put_head b'.writer_index total r (b'.block, 0)
    b'' ← finish b' s
    ok (b'', total)

  pub serialize : HttpResponse → ByteBuf → Outcome ByteBuf
  serialize r b = do
    let total = add_size (head_size r) (length r.body)
    b' ← ensure_writable m b total
    s ← put_head b'.writer_index total r (b'.block, 0)
    s' ← put_body b'.writer_index r s
    finish b' s'

  pub to_byte_buf : HttpResponse → Outcome ByteBuf
  to_byte_buf r = serialize r (allocate m 512)
