-- ===== src/Response/Sizes.antt =====
-- The size that `serialize` computes beforehand is that of what it writes.
use Prim.Native.Nat.{ℕ, zero, suc}
use xnetty.Prelude.{
  ◌+◌, ◌/◌, ◌%◌, ◌≡◌, refl, ap, inl, inr, [], ◌∷◌, ◌++◌, append-nil, true, false, not, ◌&&◌, ltb,
  if◌then◌else◌, length, length-append, arith, Bool-cases,
}
use xnetty.Prelude.Decimal.{digits, digits_from}
use xnetty.Memory.{size_mod}
use xnetty.Response.{HeaderList, HttpResponse, crlf, headers_size, digit_count, head_size}
use xnetty.Response.Wire.{
  line, lines, lines-append, length_header, type_header, connection_header, sent_headers, wire_head,
}

-- The loop counts the digits.
digit_count-length : (fuel n : ℕ) → digit_count fuel n ≡ length (digits_from fuel n)
unfolding digit_count digits_from
digit_count-length zero n = refl
digit_count-length (suc fuel) n =
    let ih = digit_count-length fuel (n / 10) in
    let l = length-append (digits_from fuel (n / 10)) ((b'0' + n % 10) ∷ []) in
    elim (Bool-cases (ltb n 10)) [
      | inl t ↦ let u : ltb 0 (n / 10) ≡ false = ground arith in rw (t, u) refl
      | inr t ↦ let u : ltb 0 (n / 10) ≡ true = ground arith in rw (t, u) (omega arith)
    ]

headers_size-length : (headers : HeaderList) → headers_size headers ≡ length (lines headers)
unfolding headers_size lines line
headers_size-length [] = refl
headers_size-length ((k, v) ∷ headers) = omega (
  arith,
  headers_size-length headers,
  length-append (line (k, v)) (lines headers),
  length-append k (b':' ∷ 32 ∷ (v ++ crlf)),
  length-append v crlf,
)

length_size :
    (r : HttpResponse)
    → (if not r.content_length_set && ltb 0 (length r.body)
        then 16 + digit_count (suc (length r.body)) (length r.body) + 2
        else 0)
      ≡ length (lines (length_header r))
unfolding length_header lines line digits
length_size r = elim (Bool-cases (not r.content_length_set && ltb 0 (length r.body))) [
  | inl t ↦ rw t (
      omega (
        arith,
        digit_count-length (suc (length r.body)) (length r.body),
        length-append (digits_from (suc (length r.body)) (length r.body)) crlf,
        ap length (append-nil (digits_from (suc (length r.body)) (length r.body) ++ crlf)),
      ))
  | inr t ↦ rw t refl
]

type_size :
    (r : HttpResponse)
    → (if not r.content_type_set && ltb 0 (length r.body) then 26 else 0)
      ≡ length (lines (type_header r))
unfolding type_header lines line
type_size r = elim (Bool-cases (not r.content_type_set && ltb 0 (length r.body))) [
  | inl t ↦ rw t refl
  | inr t ↦ rw t refl
]

connection_size :
    (r : HttpResponse)
    → (if r.connection_set then 2 else if r.keep_alive then 26 else 21)
      ≡ length (lines (connection_header r)) + 2
unfolding connection_header lines line
connection_size r = elim (Bool-cases r.connection_set) [
  | inl t ↦ rw t refl
  | inr t ↦ elim (Bool-cases r.keep_alive) [ inl u ↦ rw (t, u) refl | inr u ↦ rw (t, u) refl ]
]

pub head_size-length : (r : HttpResponse) → head_size r ≡ length (wire_head r) % size_mod
unfolding head_size wire_head sent_headers
head_size-length r =
    let h = lines r.headers in
    let n = lines (length_header r) in
    let t = lines (type_header r) in
    let c = lines (connection_header r) in
    let split : lines (sent_headers r) ≡ h ++ (n ++ (t ++ c)) = simp (lines-append) in
    ap (λ k. k % size_mod)
      (omega (
        arith,
        headers_size-length r.headers,
        length_size r,
        type_size r,
        connection_size r,
        ap length split,
        length-append h (n ++ (t ++ c)),
        length-append n (t ++ c),
        length-append t c,
        length-append (lines (sent_headers r)) crlf,
        length-append r.status_line (lines (sent_headers r) ++ crlf),
      ))
