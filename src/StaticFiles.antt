-- ===== src/StaticFiles.antt =====
-- The class `StaticFileHandler` (include/xnetty/http/static_file_handler.h,
-- src/http/static_file_handler.cpp). The file system is the parameter `Files`; it stands still while a
-- request is answered.
pub mod Confined
mod Tests
use Prim.Native.String.{String}
use xnetty.Prelude.{
  ℕ, ◌+◌, List, [], ◌∷◌, ◌++◌, Bool, true, false, not, ◌&&◌, ◌||◌, Option, none, some, ltb, ◌==◌,
  if◌then◌else◌, length, min,
}
use xnetty.Prelude.Text.{Text, codes, text_eq, is_empty}
use xnetty.Response
use xnetty.Response.{
  HttpStatus, HttpResponse, status_ok, set_status, set_content_type, set_content,
  set_content_length,
}

-- What `stat` tells.
pub record Stat : Type 0 where
  pub is_dir : Bool
  pub size : ℕ

-- `realpath`, `stat` and `open`, which gives the results of the calls of `read` that follow with a
-- buffer of some size; a call that reads nothing or fails is an empty one.
pub record Files : Type 0 where
  pub realpath : Text → Option Text
  pub stat : Text → Option Stat
  pub open_file : Text → Option (ℕ → List (List ℕ))

pub record StaticFileHandler : Type 0 where
  pub doc_root : Text
  pub real_doc_root : Text
  pub max_file_size : ℕ

-- The bytes of a C string end in front of the first byte 0.
unfoldable pub c_str : Text → Text
c_str [] = []
c_str (x ∷ xs) = let rest = c_str xs in if x == 0 then [] else x ∷ rest

-- `s.back() == '/'`, for a string that is not empty.
unfoldable pub ends_in_slash : Text → Bool
ends_in_slash [] = false
ends_in_slash (x ∷ []) = x == b'/'
ends_in_slash (x ∷ y ∷ xs) = ends_in_slash (y ∷ xs)

unfoldable pub slashed : Text → Text
slashed t = if ends_in_slash t then t else t ++ (b'/' ∷ [])

-- `substr(0, i)` and `substr(i + 1)`, where `i` is `rfind('/')`.
abbrev pub split_more : ℕ → Text → Option (Text × Text) → Option (Text × Text)
split_more x xs (some (before, behind)) = some (x ∷ before, behind)
split_more x xs none = if x == b'/' then some ([], xs) else none

unfoldable pub split_last : Text → Option (Text × Text)
split_last [] = none
split_last (x ∷ xs) = split_more x xs (split_last xs)

-- `compare(0, prefix.size(), prefix) == 0`
unfoldable pub begins_with : Text → Text → Bool
begins_with [] s = true
begins_with (x ∷ xs) [] = false
begins_with (x ∷ xs) (y ∷ ys) = x == y && begins_with xs ys

-- `substr(rfind('.'))`
abbrev ext_more : ℕ → Text → Option Text → Option Text
ext_more x xs (some e) = some e
ext_more x xs none = if x == b'.' then some (x ∷ xs) else none

unfoldable pub last_dot : Text → Option Text
last_dot [] = none
last_dot (x ∷ xs) = ext_more x xs (last_dot xs)

abbrev pub or_empty : Option Text → Text
or_empty none = []
or_empty (some e) = e

unfoldable pub ext_of : Text → Text
ext_of path = or_empty (last_dot path)

unfoldable pub get_mime_type : Text → Text
get_mime_type ext =
    if text_eq ext (codes ".html") || text_eq ext (codes ".htm")
    then codes "text/html"
    else if text_eq ext (codes ".css")
    then codes "text/css"
    else if text_eq ext (codes ".js")
    then codes "application/javascript"
    else if text_eq ext (codes ".json")
    then codes "application/json"
    else if text_eq ext (codes ".png")
    then codes "image/png"
    else if text_eq ext (codes ".jpg") || text_eq ext (codes ".jpeg")
    then codes "image/jpeg"
    else if text_eq ext (codes ".gif")
    then codes "image/gif"
    else if text_eq ext (codes ".svg")
    then codes "image/svg+xml"
    else if text_eq ext (codes ".ico")
    then codes "image/x-icon"
    else if text_eq ext (codes ".txt")
    then codes "text/plain"
    else if text_eq ext (codes ".pdf")
    then codes "application/pdf"
    else if text_eq ext (codes ".woff2")
    then codes "font/woff2"
    else if text_eq ext (codes ".woff")
    then codes "font/woff"
    else codes "application/octet-stream"

-- What a request makes the handler do with its context.
pub data Output : Type 0 where
  write_and_flush : HttpResponse → Output
  write_headers : HttpResponse → Output
  write_body : List ℕ → Output

-- A path that was opened, and what was done with the context.
abbrev pub Answer : Type 0
Answer = Option Text × List Output

abbrev pub refusal : ℕ → String → String → Answer
refusal code reason text = (
  none,
  write_and_flush (
        set_content (codes text) (
          set_content_type (codes "text/plain")
            (set_status (record { code = code; reason = codes reason }) Response.create)))
      ∷ [],
)

unfoldable pub body_chunks : List (List ℕ) → List Output
body_chunks [] = []
body_chunks ([] ∷ more) = []
body_chunks ((x ∷ xs) ∷ more) = write_body (x ∷ xs) ∷ body_chunks more

-- The answer with the contents of a file.
unfoldable pub serve : Text → ℕ → (ℕ → List (List ℕ)) → Answer
serve path size read = (
  some path,
  write_headers (
        set_content_length size
          (set_content_type (get_mime_type (ext_of path)) (set_status status_ok Response.create)))
      ∷ body_chunks (read (min 65536 size)),
)

abbrev pub is_dir_at : Option Stat → Bool
is_dir_at none = false
is_dir_at (some st) = st.is_dir

unfoldable pub raw_path : StaticFileHandler → Text → Text
raw_path h [] = h.doc_root
raw_path h (x ∷ uri) = h.doc_root ++ (if x == b'/' then uri else x ∷ uri)

module _ (fs : Files) where
  -- The constructor.
  unfoldable pub create : Text → ℕ → StaticFileHandler
  create doc_root max_file_size =
      let root = if is_empty doc_root then [] else slashed doc_root in
      record {
        doc_root = root;
        real_doc_root = real_root root (fs.realpath (c_str root));
        max_file_size = max_file_size;
      }
    where
      real_root : Text → Option Text → Text
      real_root root (some r) = slashed r
      real_root root none = root

  -- The canonical path, or where there is none, the name in the canonical directory.
  abbrev in_parent : Text → Option Text → Option Text
  in_parent base none = none
  in_parent base (some parent) = some (parent ++ (b'/' ∷ base))

  abbrev from_parent : Option (Text × Text) → Option Text
  from_parent none = none
  from_parent (some (parent, base)) = in_parent base (fs.realpath (c_str parent))

  abbrev or_from_parent : Text → Option Text → Option Text
  or_from_parent raw (some r) = some r
  or_from_parent raw none = from_parent (split_last raw)

  unfoldable pub resolve : Text → Option Text
  resolve raw = or_from_parent raw (fs.realpath (c_str raw))

  module _ (h : StaticFileHandler) where
    -- An empty string stands for a path that is refused.
    unfoldable pub within : Option Text → Text
    within none = []
    within (some resolved) =
        if not (begins_with h.real_doc_root (slashed resolved))
        then []
        else if is_dir_at (fs.stat (c_str resolved))
        then resolved ++ (b'/' ∷ [])
        else resolved

    unfoldable pub sanitize_path : Text → Text
    sanitize_path uri =
        if is_empty uri then h.doc_root ++ codes "index.html" else within (resolve (raw_path h uri))

    abbrev opened : Text → ℕ → Option (ℕ → List (List ℕ)) → Answer
    opened path size none = refusal 403 "Forbidden" "Forbidden"
    opened path size (some read) = serve path size read

    -- `onRequest` with what `stat` told of the path.
    unfoldable pub serve_file : Text → Option Stat → Answer
    serve_file path none = refusal 404 "Not Found" "Not Found"
    serve_file path (some st) =
        if ltb h.max_file_size st.size
        then refusal 413 "Payload Too Large" "File Too Large"
        else opened path st.size (fs.open_file (c_str path))

    unfoldable pub serve_path : Text → Option Stat → Answer
    serve_path path none = refusal 404 "Not Found" "Not Found"
    serve_path path (some st) =
        if st.is_dir
        then serve_file (path ++ codes "index.html") (fs.stat (c_str (path ++ codes "index.html")))
        else serve_file path (some st)

    unfoldable pub on_request : Text → Answer
    on_request uri = serve_path (sanitize_path uri) (fs.stat (c_str (sanitize_path uri)))
