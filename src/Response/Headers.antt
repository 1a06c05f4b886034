-- ===== src/Response/Headers.antt =====
-- The header list: the setters keep one header of each name, but what is sent may have two.
use xnetty.Prelude.{
  ℕ, ◌+◌, ◌≤◌, ◌<◌, ◌≡◌, refl, ◌∙◌, inl, inr, Option, none, some, [], ◌∷◌, ◌++◌, true, false, not,
  ◌&&◌, ltb, if◌then◌else◌, length, arith, max, Bool-cases,
}
use xnetty.Prelude.Text.{Text, codes, text_eq, text_eq_iff}
use xnetty.Response.{HeaderList, HttpResponse, put_header, set_header}
use xnetty.Response.Wire.{length_header, type_header, connection_header, sent_headers}

-- How many headers have this name.
unfoldable pub count : Text → HeaderList → ℕ
count key [] = 0
count key ((k, v) ∷ headers) = (if text_eq k key then 1 else 0) + count key headers

-- The value of the first header of this name.
unfoldable pub find : Text → HeaderList → Option Text
find key [] = none
find key ((k, v) ∷ headers) = if text_eq k key then some v else find key headers

count-append :
    (key : Text) (xs ys : HeaderList) → count key (xs ++ ys) ≡ count key xs + count key ys
unfolding count
count-append key [] ys = omega arith
count-append key ((k, v) ∷ xs) ys = omega (arith, count-append key xs ys)

count-put_header :
    (key name value : Text) (headers : HeaderList)
    → count key (put_header name value headers)
      ≡ (if text_eq name key then max 1 (count key headers) else count key headers)
unfolding count put_header
count-put_header key name value [] = ground arith
count-put_header key name value ((k, v) ∷ headers) = ground (
  arith,
  text_eq_iff k name,
  text_eq_iff k key,
  text_eq_iff name key,
  count-put_header key name value headers,
)

find-put_header :
    (key name value : Text) (headers : HeaderList)
    → find key (put_header name value headers)
      ≡ (if text_eq name key then some value else find key headers)
unfolding find put_header
find-put_header key name value [] = ground arith
find-put_header key name value ((k, v) ∷ headers) = ground (
  arith,
  text_eq_iff k name,
  text_eq_iff k key,
  text_eq_iff name key,
  find-put_header key name value headers,
)

-- `setHeader` gives the header of this name the value and leaves the others as they were, and there
-- are as many headers of each name as before, or one if there was none of the name that is set.
pub set_header_lem :
    (key name value : Text) (r : HttpResponse)
    → (find key (set_header name value r).headers
        ≡ (if text_eq name key then some value else find key r.headers))
      × (count key (set_header name value r).headers
          ≡ (if text_eq name key then max 1 (count key r.headers) else count key r.headers))
unfolding set_header
set_header_lem key name value r =
    (find-put_header key name value r.headers, count-put_header key name value r.headers)

added_length : (r : HttpResponse) → count (codes "Content-Type") (length_header r) ≡ 0
unfolding length_header count text_eq
added_length r = elim (Bool-cases (not r.content_length_set && ltb 0 (length r.body))) [
  | inl t ↦ rw t refl
  | inr t ↦ rw t refl
]

added_connection : (r : HttpResponse) → count (codes "Content-Type") (connection_header r) ≡ 0
unfolding connection_header count text_eq
added_connection r = elim (Bool-cases r.connection_set) [ inl t ↦ rw t refl | inr t ↦ rw t refl ]

added_type :
    (r : HttpResponse)
    → 0 < length r.body
    → r.content_type_set ≡ false
    → count (codes "Content-Type") (type_header r) ≡ 1
unfolding type_header count text_eq
added_type r body unset = let t : ltb 0 (length r.body) ≡ true = ground arith in rw (unset, t) refl

-- A type that was set by `setHeader` and not by `setContentType` is not seen when the response is
-- written: a response with a body and one such header is sent with two.
pub content_type_twice :
    (type : Text) (r : HttpResponse)
    → 0 < length r.body
    → r.content_type_set ≡ false
    → count (codes "Content-Type") r.headers ≤ 1
    → count (codes "Content-Type") (sent_headers (set_header (codes "Content-Type") type r)) ≡ 2
unfolding set_header sent_headers
content_type_twice type r body unset single =
    let name = codes "Content-Type" in
    let r' = set_header name type r in
    let same : text_eq name name ≡ true = (text_eq_iff name name).1 refl in
    let put : count name (put_header name type r.headers) ≡ max 1 (count name r.headers) =
      count-put_header name name type r.headers ∙ (rw same refl) in
    omega (
      arith,
      put,
      added_length r',
      added_type r' body unset,
      added_connection r',
      count-append name r'.headers (length_header r' ++ (type_header r' ++ connection_header r')),
      count-append name (length_header r') (type_header r' ++ connection_header r'),
      count-append name (type_header r') (connection_header r'),
    )
