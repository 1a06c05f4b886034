-- ===== src/Request/Query.antt =====
-- A query string is cut into the pairs that it was put together from.
use xnetty.Prelude.{
  ℕ, zero, suc, ◌+◌, ◌-◌, ◌≤◌, ◌<◌, ◌≡◌, ◌≢◌, refl, sym, ap, ap₂, ◌∙◌, [], ◌∷◌, ◌++◌, append-nil,
  append_assoc, Bool-cases, inl, inr, Option, if◌then◌else◌, false, none, some, lt→ltb, ◌==◌, arith,
  length, take, drop, length-append,
}
use xnetty.Prelude.Slices.{take-append, drop-append, drop-drop}
use xnetty.Prelude.Preds.{All, All-append}
use xnetty.Prelude.Text.{Text, is_empty, text_eq, text_eq_iff}
use xnetty.Router.{Params, set_param, erase_param}
use xnetty.Request.{
  HttpRequest, or_length, one_more, find_char, parse_path, set_uri, parse_pairs,
  ensure_query_parsed, lookup, query, or_empty,
}

-- The byte does not occur in the text.
abbrev pub Without : ℕ → Text → Type 0
Without c = All (λ x. x ≢ c)

pub find_char_at :
    (c : ℕ) (xs ys : Text) → Without c xs → find_char c (xs ++ (c ∷ ys)) ≡ some (length xs)
unfolding find_char
find_char_at c [] ys h = ground arith
find_char_at c (x ∷ xs) ys (n, h) =
    let no : (x == c) ≡ false = ground arith in rw no (ap one_more (find_char_at c xs ys h))

pub find_char-none : (c : ℕ) (xs : Text) → Without c xs → find_char c xs ≡ none
unfolding find_char
find_char-none c [] h = refl
find_char-none c (x ∷ xs) (n, h) =
    let no : (x == c) ≡ false = ground arith in rw no (ap one_more (find_char-none c xs h))

-- A key and its value, as in a query string.
unfoldable pub pair : Text → Text → Text
pair k v = k ++ (b'=' ∷ v)

-- Pairs as a query string.
unfoldable pub render : Params → Text
render [] = []
render ((k, v) ∷ []) = pair k v
render ((k, v) ∷ p ∷ ps) = pair k v ++ (b'&' ∷ render (p ∷ ps))

-- Keys hold neither `=` nor `&`, and values hold no `&`.
unfoldable pub IsPlainPair : Text × Text → Type 0
IsPlainPair (k, v) = Without b'=' k × Without b'&' k × Without b'&' v

-- The pairs stored one after the other: of two with one key the later one stays.
abbrev pub set_all : Params → Params → Params
set_all [] queries = queries
set_all ((k, v) ∷ ps) queries = set_all ps (set_param k v queries)

pair-Without : (k v : Text) → IsPlainPair (k, v) → Without b'&' (pair k v)
unfolding pair IsPlainPair
pair-Without k v (_, a, b) = All-append (λ x. x ≢ b'&') k (b'=' ∷ v) a (ground arith, b)

length-pair : (k v : Text) → length (pair k v) ≡ length k + suc (length v)
unfolding pair
length-pair k v = length-append k (b'=' ∷ v)

round :
    (fuel : ℕ) (qs : Text) (amp eq : ℕ) (queries : Params)
    → or_length (find_char b'&' qs) qs ≡ amp
    → or_length (find_char b'=' qs) qs ≡ eq
    → is_empty qs ≡ false
    → eq < amp
    → parse_pairs (suc fuel) qs queries
      ≡ parse_pairs fuel
          (drop (amp + 1) qs)
          (set_param (take eq qs) (take (amp - eq - 1) (drop (eq + 1) qs)) queries)
unfolding parse_pairs
round fuel qs amp eq queries a e n l = rw (n, a, e, lt→ltb eq amp l) refl

pair_split : (k v tail : Text) → pair k v ++ tail ≡ k ++ (b'=' ∷ (v ++ tail))
unfolding pair
pair_split k v tail = append_assoc k (b'=' ∷ v) tail

not_empty : (k tail : Text) → is_empty (k ++ (b'=' ∷ tail)) ≡ false
not_empty [] tail = refl
not_empty (x ∷ k) tail = refl

-- A round over a text that begins with a pair, which ends where `tail` begins.
round-pair :
    (fuel : ℕ) (k v tail : Text) (queries : Params)
    → IsPlainPair (k, v)
    → or_length (find_char b'&' (pair k v ++ tail)) (pair k v ++ tail) ≡ length (pair k v)
    → parse_pairs (suc fuel) (pair k v ++ tail) queries
      ≡ parse_pairs fuel (drop 1 tail) (set_param k v queries)
unfolding IsPlainPair
round-pair fuel k v tail queries (nk, _, _) a =
    let n = length k in
    let whole = pair k v ++ tail in
    let split = pair_split k v tail in
    let measured = length-pair k v in
    let at_eq : or_length (find_char b'=' whole) whole ≡ n =
      rw (split, find_char_at b'=' k (v ++ tail) nk) refl in
    let key : take n whole ≡ k = ap (take n) split ∙ take-append n k (b'=' ∷ (v ++ tail)) refl in
    let cut : drop (n + 1) whole ≡ v ++ tail =
      sym (drop-drop n 1 (n + 1) whole refl)
      ∙ ap (λ t. drop 1 (drop n t)) split
      ∙ ap (drop 1) (drop-append n k (b'=' ∷ (v ++ tail)) refl) in
    let value : take (length (pair k v) - n - 1) (drop (n + 1) whole) ≡ v =
      ap (take (length (pair k v) - n - 1)) cut
      ∙ take-append (length (pair k v) - n - 1) v tail (omega arith) in
    let behind : drop (length (pair k v) + 1) whole ≡ drop 1 tail =
      sym (drop-drop (length (pair k v)) 1 (length (pair k v) + 1) whole refl)
      ∙ ap (drop 1) (drop-append (length (pair k v)) (pair k v) tail refl) in
    round fuel whole (length (pair k v)) n queries a at_eq
      (ap is_empty split ∙ not_empty k (v ++ tail)) (omega arith)
    ∙ ap₂ (parse_pairs fuel) behind (ap₂ (λ x y. set_param x y queries) key value)

render_rest :
    (k v : Text) (p : Text × Text) (ps : Params)
    → render ((k, v) ∷ p ∷ ps) ≡ pair k v ++ (b'&' ∷ render (p ∷ ps))
unfolding render
render_rest k v p ps = refl

length-render_one : (k v : Text) → length (render ((k, v) ∷ [])) ≡ length k + suc (length v)
unfolding render
length-render_one k v = length-pair k v

length-render-rest :
    (k v : Text) (p : Text × Text) (ps : Params)
    → length (render ((k, v) ∷ p ∷ ps)) ≡ length k + suc (length v) + suc (length (render (p ∷ ps)))
unfolding render
length-render-rest k v p ps =
    let m = length-pair k v in
    let n = length-append (pair k v) (b'&' ∷ render (p ∷ ps)) in omega arith

parse_pairs-nil : (fuel : ℕ) (queries : Params) → parse_pairs fuel [] queries ≡ queries
unfolding parse_pairs
parse_pairs-nil zero queries = refl
parse_pairs-nil (suc fuel) queries = refl

last_pair :
    (fuel : ℕ) (k v : Text) (queries : Params)
    → IsPlainPair (k, v)
    → parse_pairs (suc fuel) (pair k v) queries ≡ set_param k v queries
last_pair fuel k v queries p =
    let whole = pair k v in
    let ends : or_length (find_char b'&' (whole ++ [])) (whole ++ []) ≡ length whole =
      rw (append-nil whole, find_char-none b'&' whole (pair-Without k v p)) refl in
    ap (λ t. parse_pairs (suc fuel) t queries) (sym (append-nil whole))
    ∙ round-pair fuel k v [] queries p ends
    ∙ parse_pairs-nil fuel (set_param k v queries)

first_pair :
    (fuel : ℕ) (k v tail : Text) (queries : Params)
    → IsPlainPair (k, v)
    → parse_pairs (suc fuel) (pair k v ++ (b'&' ∷ tail)) queries
      ≡ parse_pairs fuel tail (set_param k v queries)
first_pair fuel k v tail queries p =
    round-pair fuel k v (b'&' ∷ tail) queries p
      (rw (find_char_at b'&' (pair k v) tail (pair-Without k v p)) refl)

-- Parsing stores the pairs that the query string was put together from; the length of the string is
-- enough fuel.
pub parse_pairs-render :
    (fuel : ℕ) (ps queries : Params)
    → All IsPlainPair ps
    → length (render ps) ≤ fuel
    → parse_pairs fuel (render ps) queries ≡ set_all ps queries
unfolding render
parse_pairs-render fuel [] queries h l = parse_pairs-nil fuel queries
parse_pairs-render zero ((k, v) ∷ []) queries h l =
    absurd (let m = length-render_one k v in omega arith)
parse_pairs-render zero ((k, v) ∷ p ∷ ps) queries h l =
    absurd (let m = length-render-rest k v p ps in omega arith)
parse_pairs-render (suc fuel) ((k, v) ∷ []) queries (p, h) l = last_pair fuel k v queries p
parse_pairs-render (suc fuel) ((k, v) ∷ p ∷ ps) queries (q, h) l =
    ap (λ t. parse_pairs (suc fuel) t queries) (render_rest k v p ps)
    ∙ first_pair fuel k v (render (p ∷ ps)) queries q
    ∙ parse_pairs-render fuel (p ∷ ps) (set_param k v queries) h
        (let m = length-render-rest k v p ps in omega arith)

-- The value of the last pair with the key, or else what was there before.
unfoldable pub last_of : Text → Params → Option Text → Option Text
last_of key [] before = before
last_of key ((k, v) ∷ ps) before = last_of key ps (if text_eq k key then some v else before)

lookup-erase_param :
    (key k : Text) (queries : Params)
    → text_eq k key ≡ false
    → lookup key (erase_param k queries) ≡ lookup key queries
unfolding lookup erase_param
lookup-erase_param key k [] h = refl
lookup-erase_param key k ((x, v) ∷ queries) h =
    let rest = lookup-erase_param key k queries h in
    elim (Bool-cases (text_eq x k)) [
      | inl t ↦
          let same : x ≡ k = (text_eq_iff x k).0 t in
          let other : text_eq x key ≡ false = ap (λ y. text_eq y key) same ∙ h in rw (t, other) rest
      | inr t ↦ elim (Bool-cases (text_eq x key)) [
        | inl u ↦ rw (t, u) refl
        | inr u ↦ rw (t, u) rest
      ]
    ]

lookup-set_param :
    (key k v : Text) (queries : Params)
    → lookup key (set_param k v queries) ≡ (if text_eq k key then some v else lookup key queries)
unfolding lookup set_param
lookup-set_param key k v queries = elim (Bool-cases (text_eq k key)) [
  | inl t ↦ rw t refl
  | inr t ↦ rw t (lookup-erase_param key k queries t)
]

lookup-set_all :
    (key : Text) (ps queries : Params)
    → lookup key (set_all ps queries) ≡ last_of key ps (lookup key queries)
unfolding last_of
lookup-set_all key [] queries = refl
lookup-set_all key ((k, v) ∷ ps) queries =
    lookup-set_all key ps (set_param k v queries)
    ∙ ap (last_of key ps) (lookup-set_param key k v queries)

-- Where the query string of a request was not parsed before, and `setUri` gives it a path without a
-- question mark, a question mark, and pairs put together by `&`, of which the keys hold neither `=` nor
-- `&` and the values no `&`: the path of the request is this path, and `query` gives the value of the
-- last pair with the key; for a key that no pair has, what was among the queries before, or else an
-- empty string.
pub set_uri-query :
    (path : Text) (ps : Params) (r : HttpRequest) (key : Text)
    → Without b'?' path
    → All IsPlainPair ps
    → r.query_parsed ≡ false
    → ((set_uri (path ++ (b'?' ∷ render ps)) r).path ≡ path)
      × ((query key (set_uri (path ++ (b'?' ∷ render ps)) r)).0
          ≡ or_empty (last_of key ps (lookup key r.queries)))
unfolding set_uri parse_path ensure_query_parsed query
set_uri-query path ps r key no_mark plain fresh =
    let at = find_char_at b'?' path (render ps) no_mark in
    let behind : drop (length path + 1) (path ++ (b'?' ∷ render ps)) ≡ render ps =
      sym (drop-drop (length path) 1 (length path + 1) (path ++ (b'?' ∷ render ps)) refl)
      ∙ ap (drop 1) (drop-append (length path) path (b'?' ∷ render ps) refl) in
    (
      rw at (take-append (length path) path (b'?' ∷ render ps) refl),
      rw (fresh, at, behind)
          (ap (λ q. or_empty (lookup key q))
              (parse_pairs-render (length (render ps)) ps r.queries plain (omega arith))
            ∙ ap or_empty (lookup-set_all key ps r.queries)),
    )
