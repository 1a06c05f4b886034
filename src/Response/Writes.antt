-- ===== src/Response/Writes.antt =====
-- What each part of `serialize` writes.
use xnetty.Prelude.{
  ℕ, ◌+◌, ◌≤◌, ◌≡◌, sym, ap, ap₂, subst, ◌∙◌, inl, inr, List, [], ◌∷◌, ◌++◌, append-nil,
  append_assoc, Bool, true, false, not, ◌&&◌, leb, ltb, if◌then◌else◌, length, length-append, take,
  drop, arith, Bool-cases,
}
use xnetty.Prelude.Splice.{splice, length-splice, splice-splice}
use xnetty.Prelude.Slices.{take-append-drop, nil_of_length}
use xnetty.Prelude.Text.{Text, codes}
use xnetty.Prelude.Decimal.{digits}
use xnetty.Memory.{Outcome, ok, ◌>>=◌, store-ok}
use xnetty.Response.{
  HeaderList, HttpResponse, crlf, colon_space, put, put_headers, put_length, put_type,
  put_connection, put_head, put_body, put_chars,
}
use xnetty.Response.Wire.{
  line, lines, lines-append, length_header, type_header, connection_header, sent_headers, wire_head,
}

-- The state after `src` was written at the offset.
abbrev pub wrote : ℕ → List ℕ × ℕ → Text → List ℕ × ℕ
wrote w (block, off) src = (splice (w + off) src block, off + length src)

-- The code writes `src`, wherever the offset stands, if that is within `total` bytes and these are
-- within the block.
abbrev pub Writes : ℕ → ℕ → (List ℕ × ℕ → Outcome (List ℕ × ℕ)) → Text → Type 0
Writes w total f src =
    (block : List ℕ) (off : ℕ)
    → off + length src ≤ total
    → w + total ≤ length block
    → f (block, off) ≡ ok (wrote w (block, off) src)

module _ (w total : ℕ) where
  Writes-put : (src : Text) → Writes w total (put w src) src
  Writes-put src block off h k =
      ap (λ o. o >>= λ block'. ok (block', off + length src))
        (store-ok block (w + off) src (omega arith))

  Writes-ok : Writes w total (λ s. ok s) []
  Writes-ok block off h k =
      let e : w + off + 0 ≡ w + off = omega arith in
      let e' : off ≡ off + 0 = omega arith in
      ap₂ (λ x y. ok (x, y))
        (sym (take-append-drop (w + off) block)
          ∙ ap (λ n. take (w + off) block ++ drop n block) (sym e))
        e'

  pub Writes-then :
      (f g : List ℕ × ℕ → Outcome (List ℕ × ℕ)) (a b : Text)
      → Writes w total f a
      → Writes w total g b
      → Writes w total (λ s. f s >>= g) (a ++ b)
  Writes-then f g a b wf wg block off h k =
      let l = length-append a b in
      let l' = length-splice (w + off) a block (omega arith) in
      ap (λ o. o >>= g) (wf block off (omega arith) k)
      ∙ wg (splice (w + off) a block) (off + length a) (omega arith) (omega arith)
      ∙ ap₂ (λ x y. ok (x, y))
          (splice-splice (w + off) (w + (off + length a)) a b block (omega arith) (omega arith))
          (omega arith)

  Writes-eq :
      (f : List ℕ × ℕ → Outcome (List ℕ × ℕ)) (a b : Text)
      → a ≡ b
      → Writes w total f a
      → Writes w total f b
  Writes-eq f a b e wf = subst (Writes w total f) e wf

  Writes-if :
      (c : Bool) (f g : List ℕ × ℕ → Outcome (List ℕ × ℕ)) (a b : Text)
      → Writes w total f a
      → Writes w total g b
      → Writes w total (λ s. if c then f s else g s) (if c then a else b)
  Writes-if true f g a b wf wg = wf
  Writes-if false f g a b wf wg = wg

  Writes-chars : (n : ℕ) → Writes w total (put_chars w total n) (digits n)
  Writes-chars n block off h k =
      let t : leb (off + length (digits n)) total ≡ true = ground arith in
      rw t (Writes-put (digits n) block off h k)

  line-lines :
      (k v : Text) (headers : HeaderList)
      → k ++ (colon_space ++ (v ++ (crlf ++ lines headers))) ≡ lines ((k, v) ∷ headers)
  unfolding lines line
  line-lines k v headers = sym (
      append_assoc k (colon_space ++ (v ++ crlf)) (lines headers)
      ∙ ap (λ l. k ++ l)
          (append_assoc colon_space (v ++ crlf) (lines headers)
            ∙ ap (λ l. colon_space ++ l) (append_assoc v crlf (lines headers))))

  Writes-headers : (headers : HeaderList) → Writes w total (put_headers w headers) (lines headers)
  unfolding put_headers lines
  Writes-headers [] = Writes-ok
  Writes-headers ((k, v) ∷ headers) =
      Writes-eq (put_headers w ((k, v) ∷ headers)) _ _ (line-lines k v headers) (
        Writes-then (put w k) _ k (colon_space ++ (v ++ (crlf ++ lines headers))) (Writes-put k) (
          Writes-then (put w colon_space) _ colon_space (v ++ (crlf ++ lines headers))
            (Writes-put colon_space)
            (Writes-then (put w v) _ v (crlf ++ lines headers) (Writes-put v) (
              Writes-then (put w crlf) _ crlf (lines headers) (Writes-put crlf)
                (Writes-headers headers)))))

  abbrev length_line : ℕ → List ℕ × ℕ → Outcome (List ℕ × ℕ)
  length_line n s = do
    s1 ← put w (codes "Content-Length: ") s
    s2 ← put_chars w total n s1
    put w crlf s2

  Writes-length_line :
      (n : ℕ) → Writes w total (length_line n) (lines ((codes "Content-Length", digits n) ∷ []))
  unfolding lines line
  Writes-length_line n =
      Writes-eq (length_line n) (codes "Content-Length: " ++ (digits n ++ crlf)) _
        (sym (append-nil _))
        (Writes-then (put w (codes "Content-Length: ")) (λ s. put_chars w total n s >>= put w crlf)
          (codes "Content-Length: ") (digits n ++ crlf) (Writes-put (codes "Content-Length: "))
          (Writes-then (put_chars w total n) (put w crlf) (digits n) crlf (Writes-chars n)
            (Writes-put crlf)))

  Writes-length :
      (r : HttpResponse) → Writes w total (put_length w total r) (lines (length_header r))
  unfolding put_length length_header lines
  Writes-length r = elim (Bool-cases (not r.content_length_set && ltb 0 (length r.body))) [
    | inl t ↦ rw t (Writes-length_line (length r.body))
    | inr t ↦ rw t Writes-ok
  ]

  Writes-type : (r : HttpResponse) → Writes w total (put_type w r) (lines (type_header r))
  unfolding put_type type_header lines line
  Writes-type r = elim (Bool-cases (not r.content_type_set && ltb 0 (length r.body))) [
    | inl t ↦ rw t (Writes-put (codes "Content-Type: text/plain" ++ crlf))
    | inr t ↦ rw t Writes-ok
  ]

  Writes-connection :
      (r : HttpResponse) → Writes w total (put_connection w r) (lines (connection_header r) ++ crlf)
  unfolding put_connection connection_header lines line
  Writes-connection r = elim (Bool-cases r.connection_set) [
    | inl t ↦ rw t (Writes-put crlf)
    | inr t ↦ elim (Bool-cases r.keep_alive) [
      | inl u ↦ rw (t, u) (Writes-put (codes "Connection: keep-alive" ++ (crlf ++ crlf)))
      | inr u ↦ rw (t, u) (Writes-put (codes "Connection: close" ++ (crlf ++ crlf)))
    ]
  ]

  sent_lines :
      (r : HttpResponse)
      → r.status_line
          ++ (lines r.headers
              ++ (lines (length_header r)
                  ++ (lines (type_header r) ++ (lines (connection_header r) ++ crlf))))
        ≡ wire_head r
  unfolding wire_head sent_headers
  sent_lines r = simp (lines-append, append_assoc)

  pub Writes-head : (r : HttpResponse) → Writes w total (put_head w total r) (wire_head r)
  unfolding put_head
  Writes-head r =
      let c = lines (connection_header r) ++ crlf in
      let t = lines (type_header r) ++ c in
      let n = lines (length_header r) ++ t in
      Writes-eq (put_head w total r) _ _ (sent_lines r) (
        Writes-then (put w r.status_line) _ r.status_line (lines r.headers ++ n)
          (Writes-put r.status_line)
          (Writes-then (put_headers w r.headers) _ (lines r.headers) n (Writes-headers r.headers) (
            Writes-then (put_length w total r) _ (lines (length_header r)) t (Writes-length r) (
              Writes-then (put_type w r) _ (lines (type_header r)) c (Writes-type r)
                (Writes-connection r)))))

  pub Writes-body : (r : HttpResponse) → Writes w total (put_body w r) r.body
  unfolding put_body
  Writes-body r = elim (Bool-cases (ltb 0 (length r.body))) [
    | inl t ↦ rw t (Writes-put r.body)
    | inr t ↦
        let e = nil_of_length r.body (ground arith) in
        rw t (Writes-eq (λ s. ok s) [] r.body (sym e) Writes-ok)
  ]
