-- ===== src/StaticFiles/Confined.antt =====
-- Which files a `StaticFileHandler` opens.
use xnetty.Prelude.{
  ℕ, ◌≡◌, ◌≢◌, ◌≤◌, refl, sym, subst, ap, ◌∙◌, ◌⊎◌, inl, inr, List, [], ◌∷◌, ◌++◌, append_assoc,
  Bool, true, false, Option, none, some, Option-cases, Bool-cases, arith, ltb, le→ltb_false,
  if◌then◌else◌, if_elim,
}
use xnetty.Prelude.Text.{Text, codes}
use xnetty.StaticFiles.{
  Stat, Files, StaticFileHandler, c_str, slashed, begins_with, Answer, serve, or_empty, is_dir_at,
  raw_path, resolve, within, sanitize_path, serve_file, serve_path, on_request, ends_in_slash,
  create,
}

begins_with-append : (r s t : Text) → begins_with r s ≡ true → begins_with r (s ++ t) ≡ true
unfolding begins_with
begins_with-append [] s t h = refl
begins_with-append (x ∷ r) [] t h = ground arith
begins_with-append (x ∷ r) (y ∷ s) t h = ground (arith, begins_with-append r s t)

-- What begins a string with a slash at the end begins any longer one.
begins_with-slashed :
    (r d t : Text)
    → begins_with r (slashed d) ≡ true
    → begins_with r (slashed (d ++ (b'/' ∷ t))) ≡ true
unfolding slashed
begins_with-slashed r d t h =
    let longer : begins_with r (d ++ (b'/' ∷ t)) ≡ true = elim (Bool-cases (ends_in_slash d)) [
      | inl e ↦
          let plain : begins_with r d ≡ true = rw e at h in begins_with-append r d (b'/' ∷ t) plain
      | inr e ↦
          let more : begins_with r (d ++ (b'/' ∷ [])) ≡ true = rw e at h in
          subst (λ l. begins_with r l ≡ true) (append_assoc d (b'/' ∷ []) t)
            (begins_with-append r (d ++ (b'/' ∷ [])) t more)
    ] in
    if_elim (λ l. begins_with r l ≡ true) (ends_in_slash (d ++ (b'/' ∷ t))) _ _ (λ e. longer)
      (λ e. begins_with-append r (d ++ (b'/' ∷ t)) (b'/' ∷ []) longer)

module _ (fs : Files) (h : StaticFileHandler) where
  -- What was opened is the path that was given, which `stat` knows, and it is not too large.
  Allowed : Text → Type 0
  Allowed p = (st : Stat) × (fs.stat (c_str p) ≡ some st) × (st.size ≤ h.max_file_size)

  serve_file-opens :
      (path p : Text) (o : Option Stat)
      → fs.stat (c_str path) ≡ o
      → (serve_file fs h path o).0 ≡ some p
      → (p ≡ path) × Allowed p
  unfolding serve_file serve Allowed
  serve_file-opens path p none e f = absurd (ground arith)
  serve_file-opens path p (some st) e f = elim (Bool-cases (ltb h.max_file_size st.size)) [
    | inl t ↦ let g : none ≡ some p = rw t at f in absurd (ground arith)
    | inr t ↦ elim (Option-cases (fs.open_file (c_str path))) [
      | inl n ↦ let g : none ≡ some p = rw (t, n) at f in absurd (ground arith)
      | inr (read, m) ↦
          let g : some path ≡ some p = rw (t, m) at f in
          let same : path ≡ p = ap or_empty g in
          (sym same, subst Allowed same (st, e, ground arith))
    ]
  ]

  if_cases :
      (p : Text) (b : Bool) (x y : Answer)
      → (if b then x else y).0 ≡ some p
      → ((b ≡ true) × (x.0 ≡ some p)) ⊎ ((b ≡ false) × (y.0 ≡ some p))
  if_cases p true x y e = inl (refl, e)
  if_cases p false x y e = inr (refl, e)

  serve_path-opens :
      (path p : Text) (o : Option Stat)
      → fs.stat (c_str path) ≡ o
      → (serve_path fs h path o).0 ≡ some p
      → (((p ≡ path ++ codes "index.html") × (is_dir_at o ≡ true))
          ⊎ ((p ≡ path) × (is_dir_at o ≡ false)))
        × Allowed p
  unfolding serve_path
  serve_path-opens path p none e f = absurd (ground arith)
  serve_path-opens path p (some st) e f = elim (if_cases p st.is_dir _ _ f) [
    | inl (t, g) ↦
        let index = path ++ codes "index.html" in
        let (k, a) = serve_file-opens index p (fs.stat (c_str index)) refl g in (inl (k, t), a)
    | inr (t, g) ↦ let (k, a) = serve_file-opens path p (some st) e g in (inr (k, t), a)
  ]

  unknown_refused : (path p : Text) → (serve_path fs h path none).0 ≡ some p → ⊥
  unfolding serve_path
  unknown_refused path p e = ground arith

  -- A path that is not refused lies in the root, and has a slash behind it if it is a directory.
  within-cases :
      (r : Text)
      → (within fs h (some r) ≡ [])
        ⊎ ((begins_with h.real_doc_root (slashed r) ≡ true)
            × ((within fs h (some r) ≡ r ++ (b'/' ∷ []))
                ⊎ ((within fs h (some r) ≡ r) × (is_dir_at (fs.stat (c_str r)) ≡ false))))
  unfolding within
  within-cases r = elim (Bool-cases (begins_with h.real_doc_root (slashed r))) [
    | inl b ↦ elim (Bool-cases (is_dir_at (fs.stat (c_str r)))) [
      | inl d ↦ rw (within, b, d) (inr (refl, inl refl))
      | inr d ↦ rw (within, b, d) (inr (refl, inr (refl, refl)))
    ]
    | inr b ↦ inl (rw (within, b) refl)
  ]

  -- The paths that a canonical path `r` is opened under.
  abbrev Under : Text → Text → Type 0
  Under r p = (p ≡ r) ⊎ (p ≡ r ++ codes "/") ⊎ (p ≡ r ++ codes "/index.html")

  -- What is opened for a path that `resolve` gave.
  resolved-opens :
      (r p : Text)
      → fs.stat [] ≡ none
      → (serve_path fs h (within fs h (some r)) (fs.stat (c_str (within fs h (some r))))).0 ≡ some p
      → (begins_with h.real_doc_root (slashed p) ≡ true) × Under r p × Allowed p
  unfolding c_str
  resolved-opens r p no_name e =
      let at : (q : Text)
          → within fs h (some r) ≡ q
          → (serve_path fs h q (fs.stat (c_str q))).0 ≡ some p =
        λ q w. subst (λ q. (serve_path fs h q (fs.stat (c_str q))).0 ≡ some p) w e in
      elim (within-cases r) [
        | inl w ↦ absurd (
            unknown_refused [] p (subst (λ o. (serve_path fs h [] o).0 ≡ some p) no_name (at [] w)))
        | inr (b, inl w) ↦
            let (cases, a) = serve_path-opens (r ++ codes "/") p _ refl (at (r ++ codes "/") w) in
            elim cases [
              | inl (k, t) ↦
                  let longer : p ≡ r ++ codes "/index.html" =
                    k ∙ append_assoc r (codes "/") (codes "index.html") in
                  (
                    subst (λ q. begins_with h.real_doc_root (slashed q) ≡ true) (sym longer)
                        (begins_with-slashed h.real_doc_root r (codes "index.html") b),
                    inr (inr longer),
                    a,
                  )
              | inr (k, t) ↦ (
                subst (λ q. begins_with h.real_doc_root (slashed q) ≡ true) (sym k)
                    (begins_with-slashed h.real_doc_root r [] b),
                inr (inl k),
                a,
              )
            ]
        | inr (b, inr (w, d)) ↦
            let (cases, a) = serve_path-opens r p _ refl (at r w) in
            elim cases [
              | inl (k, t) ↦ absurd (ground arith)
              | inr (k, t) ↦
                  (subst (λ q. begins_with h.real_doc_root (slashed q) ≡ true) (sym k) b, inl k, a)
            ]
      ]

  -- Where the file system knows no file with an empty path: the path `p` of a file that is opened for
  -- a request whose path is not empty is what `resolve` gave, or the `index.html` in it (or it has a
  -- slash behind it). With a slash behind it, `p` begins with the real root; and the size of the file
  -- is not larger than the limit.
  pub on_request-confined :
      (uri p : Text)
      → uri ≢ []
      → fs.stat [] ≡ none
      → (on_request fs h uri).0 ≡ some p
      → (r : Text) × (resolve fs (raw_path h uri) ≡ some r)
        × (begins_with h.real_doc_root (slashed p) ≡ true)
        × ((p ≡ r) ⊎ (p ≡ r ++ codes "/") ⊎ (p ≡ r ++ codes "/index.html"))
        × ((st : Stat) × (fs.stat (c_str p) ≡ some st) × (st.size ≤ h.max_file_size))
  unfolding on_request sanitize_path within c_str Allowed
  on_request-confined [] p ne no_name f = absurd (ne refl)
  on_request-confined (x ∷ uri) p ne no_name f =
      elim (Option-cases (resolve fs (raw_path h (x ∷ uri)))) [
        | inl e ↦
            let g : (serve_path fs h [] (fs.stat [])).0 ≡ some p = rw e at f in
            absurd (unknown_refused [] p (subst (λ o. (serve_path fs h [] o).0 ≡ some p) no_name g))
        | inr (r, e) ↦
            let g : (serve_path fs h (within fs h (some r))
                  (fs.stat (c_str (within fs h (some r))))).0
                ≡ some p =
              subst
                (λ o.
                  (serve_path fs h (within fs h o) (fs.stat (c_str (within fs h o)))).0 ≡ some p)
                e f in
            let (b, u, a) = resolved-opens r p no_name g in (r, e, b, u, a)
      ]

-- A handler that is made for an empty root, which has no canonical path, opens whatever file the path
-- of a request leads to from the directory of the process, within the limit on sizes.
pub empty_root-opens :
    (fs : Files) (max : ℕ) (uri r : Text) (st : Stat) (read : ℕ → List (List ℕ))
    → fs.realpath [] ≡ none
    → fs.realpath (c_str uri) ≡ some r
    → fs.stat (c_str r) ≡ some st
    → st.is_dir ≡ false
    → st.size ≤ max
    → fs.open_file (c_str r) ≡ some read
    → (on_request fs (create fs [] max) (b'/' ∷ uri)).0 ≡ some r
unfolding create c_str on_request sanitize_path within resolve raw_path begins_with serve_path
    serve_file serve
empty_root-opens fs max uri r st read no_root canonical known file small opens =
    let h = create fs [] max in
    let at_r : within fs h (some r) ≡ r = rw (no_root, known, file) refl in
    let path : sanitize_path fs h (b'/' ∷ uri) ≡ r = rw canonical at_r in
    let fits : ltb max st.size ≡ false = le→ltb_false max st.size small in
    let served : (serve_path fs h r (some st)).0 ≡ some r = rw (file, fits, opens) refl in
    subst (λ q. (serve_path fs h q (fs.stat (c_str q))).0 ≡ some r) (sym path)
      (subst (λ o. (serve_path fs h r o).0 ≡ some r) (sym known) served)
