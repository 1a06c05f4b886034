-- ===== src/Request/Raw.antt =====
-- Headers that are cut out of the raw bytes.
use xnetty.Prelude.{
  ℕ, ◌+◌, ◌≡◌, refl, sym, ap, ap₂, ◌∙◌, List, [], ◌∷◌, ◌++◌, append_assoc, true, arith, length,
  take, length-append,
}
use xnetty.Prelude.Slices.{take-append, drop-append}
use xnetty.Prelude.Text.{Text}
use xnetty.Memory.{ok, load, load-ok}
use xnetty.Response.{HeaderList, colon_space, crlf}
use xnetty.Response.Wire.{line, lines}
use xnetty.Request.{HttpRequest, HeaderEntry, set_raw_data, cut_headers, ensure_headers_parsed}

load-middle :
    (pre mid post : Text) (i n : ℕ)
    → i ≡ length pre
    → n ≡ length mid
    → load (pre ++ (mid ++ post)) i n ≡ ok mid
load-middle pre mid post i n e f =
    let whole = length-append pre (mid ++ post) in
    let rest = length-append mid post in
    load-ok (pre ++ (mid ++ post)) i n (omega arith)
    ∙ ap (λ t. ok (take n t)) (drop-append i pre (mid ++ post) e)
    ∙ ap ok (take-append n mid post f)

-- Where the headers of a block that begins at `base` stand.
abbrev pub entries_at : ℕ → HeaderList → List HeaderEntry
entries_at base [] = []
entries_at base ((k, v) ∷ headers) =
    record { offset = base; key_len = length k; value_len = length v }
    ∷ entries_at (base + length (line (k, v))) headers

-- The bytes around a header, cut before its name, before its value and behind its line.
key_split :
    (pre k v rest post : Text)
    → pre ++ ((line (k, v) ++ rest) ++ post)
      ≡ pre ++ (k ++ (colon_space ++ (v ++ (crlf ++ (rest ++ post)))))
unfolding line
key_split pre k v rest post = simp append_assoc

value_split :
    (pre k v rest post : Text)
    → pre ++ ((line (k, v) ++ rest) ++ post)
      ≡ (pre ++ (k ++ colon_space)) ++ (v ++ (crlf ++ (rest ++ post)))
unfolding line
value_split pre k v rest post = simp append_assoc

line_split :
    (pre k v rest post : Text)
    → pre ++ ((line (k, v) ++ rest) ++ post) ≡ (pre ++ line (k, v)) ++ (rest ++ post)
line_split pre k v rest post = simp append_assoc

cut_headers-lines :
    (pre : Text) (headers : HeaderList) (post : Text)
    → cut_headers (pre ++ (lines headers ++ post)) (entries_at (length pre) headers) ≡ ok headers
unfolding cut_headers lines
cut_headers-lines pre [] post = refl
cut_headers-lines pre ((k, v) ∷ headers) post =
    let rest = lines headers in
    let key : load (pre ++ ((line (k, v) ++ rest) ++ post)) (length pre) (length k) ≡ ok k =
      ap (λ t. load t (length pre) (length k)) (key_split pre k v rest post)
      ∙ load-middle pre k (colon_space ++ (v ++ (crlf ++ (rest ++ post)))) _ _ refl refl in
    let value : load (pre ++ ((line (k, v) ++ rest) ++ post)) (length pre + length k + 2) (length v)
        ≡ ok v =
      ap (λ t. load t (length pre + length k + 2) (length v)) (value_split pre k v rest post)
      ∙ load-middle (pre ++ (k ++ colon_space)) v (crlf ++ (rest ++ post)) _ _
          (omega (arith, length-append pre (k ++ colon_space), length-append k colon_space)) refl in
    let later : cut_headers (pre ++ ((line (k, v) ++ rest) ++ post))
          (entries_at (length pre + length (line (k, v))) headers)
        ≡ ok headers =
      ap₂ (λ t n. cut_headers t (entries_at n headers)) (line_split pre k v rest post)
        (sym (length-append pre (line (k, v))))
      ∙ cut_headers-lines (pre ++ line (k, v)) headers post in
    rw (key, value, later) refl

-- Of raw bytes in which the header lines stand one behind the other, each name and value with a colon
-- and a space between them, and entries that say where each one is, the first lookup makes the list
-- of these headers, behind those that were set before.
pub ensure_headers_parsed-lines :
    (pre : Text) (headers : HeaderList) (post : Text) (total header_end : ℕ) (r : HttpRequest)
    → ensure_headers_parsed (
        set_raw_data
          (pre ++ (lines headers ++ post))
          total
          (entries_at (length pre) headers)
          header_end
          r)
      ≡ ok
          (record (set_raw_data
            (pre ++ (lines headers ++ post))
            total
            (entries_at (length pre) headers)
            header_end
            r) { headers_parsed = true; headers = r.headers ++ headers })
unfolding ensure_headers_parsed set_raw_data
ensure_headers_parsed-lines pre headers post total header_end r =
    rw (cut_headers-lines pre headers post) refl
