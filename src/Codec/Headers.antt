-- ===== src/Codec/Headers.antt =====
-- What the callbacks and the lookup of `Content-Length` do to the headers of a request.
use xnetty.Prelude.{
  ℕ, ◌+◌, ◌≡◌, refl, sym, subst, inl, inr, List, [], ◌∷◌, ◌++◌, append-nil, true, false, ◌&&◌,
  Option, none, some, ltb, if◌then◌else◌, Bool-cases, arith,
}
use xnetty.Prelude.Text.{Text, codes, text_eq}
use xnetty.Memory.{ok, load}
use xnetty.Memory.Returns.{Returns, Returns->>=, Returns-any, Returns-if}
use xnetty.Response.{HeaderList}
use xnetty.Request.{
  HttpRequest, set_uri, cut_headers, ensure_headers_parsed, find_exact, find_header, or_empty,
  with_headers, header,
}
use xnetty.Codec.{
  Verb, reach, set_value_len, Event, url, header_field, header_value, headers_complete,
  message_complete, ParseCtx, on_url, on_hf, on_hv, on_hc, on_event, run, no_entries,
}

abbrev pub content_length_key : Text
content_length_key = codes "Content-Length"

-- The headers begin with these.
abbrev pub Extends : HeaderList → HeaderList → Type 0
Extends hs hs' = (more : HeaderList) × (hs' ≡ hs ++ more)

Extends-self : (hs : HeaderList) → Extends hs hs
Extends-self hs = ([], sym (append-nil hs))

reach-headers : (end : ℕ) (p : ParseCtx) → (reach end p).req.headers ≡ p.req.headers
reach-headers end p = elim (Bool-cases (ltb p.max_offset end)) [
  | inl t ↦ rw t refl
  | inr t ↦ rw t refl
]

on_url-headers :
    (raw : List ℕ) (at len : ℕ) (p : ParseCtx)
    → Returns (λ p'. p'.req.headers ≡ p.req.headers) (on_url raw at len p)
unfolding on_url set_uri
on_url-headers raw at len p =
    Returns->>= (λ u. Unit {0}) (λ p'. p'.req.headers ≡ p.req.headers) (load raw at len)
      (λ u. ok (reach (at + len) (record p { req = set_uri u p.req })))
      (Returns-any (load raw at len))
      (λ u h. reach-headers (at + len) (record p { req = set_uri u p.req }))

on_hv-headers : (at len : ℕ) (p : ParseCtx) → (on_hv at len p).req.headers ≡ p.req.headers
unfolding on_hv
on_hv-headers at len p = elim (Bool-cases (no_entries p.header_offsets)) [
  | inl t ↦ rw t refl
  | inr t ↦
      rw t (
        reach-headers (at + len) (record p { header_offsets = set_value_len len p.header_offsets }))
]

on_hc-headers :
    (verb : Verb) (major minor : ℕ) (p : ParseCtx)
    → (on_hc verb major minor p).1.req.headers ≡ p.req.headers
unfolding on_hc
on_hc-headers verb major minor p =
    elim (Bool-cases (ltb 0 p.max_header_size && ltb p.max_header_size p.max_offset)) [
      | inl t ↦ rw t refl
      | inr t ↦ rw t refl
    ]

on_event-headers :
    (raw : List ℕ) (e : Event) (p : ParseCtx)
    → Returns (λ r. r.1.req.headers ≡ p.req.headers) (on_event raw e p)
unfolding on_event on_hf
on_event-headers raw (url at len) p =
    Returns->>= (λ p'. p'.req.headers ≡ p.req.headers) (λ r. r.1.req.headers ≡ p.req.headers)
      (on_url raw at len p) (λ p'. ok (false, p')) (on_url-headers raw at len p) (λ p' same. same)
on_event-headers raw (header_field at len) p = reach-headers (at + len) _
on_event-headers raw (header_value at len) p = on_hv-headers at len p
on_event-headers raw (headers_complete verb major minor) p = on_hc-headers verb major minor p
on_event-headers raw message_complete p = refl

-- The callbacks leave the headers of the request alone.
pub run-headers :
    (raw : List ℕ) (es : List Event) (p : ParseCtx)
    → Returns (λ p'. p'.req.headers ≡ p.req.headers) (run raw es p)
unfolding run
run-headers raw [] p = refl
run-headers raw (e ∷ es) p =
    let Same : ParseCtx → Type 0 = λ p'. p'.req.headers ≡ p.req.headers in
    Returns->>= (λ r. Same r.1) Same (on_event raw e p)
      (λ r. if r.0 then ok r.1 else run raw es r.1) (on_event-headers raw e p)
      (λ r same.
        Returns-if Same r.0 (ok r.1) (run raw es r.1) (λ t. same)
          (λ t.
            subst (λ hs. Returns (λ p'. p'.req.headers ≡ hs) (run raw es r.1)) same
              (run-headers raw es r.1)))

with_headers-Extends :
    (r : HttpRequest) (raw : Option (List ℕ))
    → Returns (λ r'. Extends r.headers r'.headers) (with_headers r raw)
with_headers-Extends r none = Extends-self r.headers
with_headers-Extends r (some raw) =
    Returns->>= (λ hs. Unit {0}) (λ r'. Extends r.headers r'.headers)
      (cut_headers raw r.header_offsets)
      (λ more. ok (record r { headers_parsed = true; headers = r.headers ++ more }))
      (Returns-any (cut_headers raw r.header_offsets)) (λ more h. (more, refl))

ensure_headers_parsed-Extends :
    (r : HttpRequest) → Returns (λ r'. Extends r.headers r'.headers) (ensure_headers_parsed r)
unfolding ensure_headers_parsed
ensure_headers_parsed-Extends r =
    Returns-if (λ r'. Extends r.headers r'.headers) r.headers_parsed (ok r)
      (with_headers r r.raw_data) (λ t. Extends-self r.headers)
      (λ t. with_headers-Extends r r.raw_data)

-- What `header` gives: it is found in the headers that were there and those that were appended.
abbrev pub Found : Text → HttpRequest → Text × HttpRequest → Type 0
Found key r (v, r') = Extends r.headers r'.headers × (v ≡ or_empty (find_header key r'.headers))

pub header-Found : (key : Text) (r : HttpRequest) → Returns (Found key r) (header key r)
unfolding header
header-Found key r =
    Returns->>= (λ r'. Extends r.headers r'.headers) (Found key r) (ensure_headers_parsed r)
      (λ r'. ok (or_empty (find_header key r'.headers), r')) (ensure_headers_parsed-Extends r)
      (λ r' more. (more, refl))

pub find_exact-Extends :
    (key v : Text) (hs more : HeaderList)
    → find_exact key hs ≡ some v
    → find_exact key (hs ++ more) ≡ some v
unfolding find_exact
find_exact-Extends key v [] more e = absurd (ground arith)
find_exact-Extends key v ((k, w) ∷ hs) more e = elim (Bool-cases (text_eq k key)) [
  | inl t ↦ rw t (rw t at e)
  | inr t ↦ rw t (find_exact-Extends key v hs more (rw t at e))
]
