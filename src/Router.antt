-- ===== src/Router.antt =====
-- The class `Router` (include/xnetty/http/router.h, src/http/router.cpp). A handler is a value of any
-- type `H`: the router only stores it and hands the request to it. A string is the list of its bytes.
pub mod Paths
pub mod Tree
pub mod Routes
pub mod Insert
pub mod Answers
mod Tests
use Prim.Native.Nat.{bit_and}
use xnetty.Prelude.{
  ℕ, zero, suc, ◌+◌, ◌-◌, ◌^◌, List, [], ◌∷◌, ◌++◌, Bool, true, false, not, ◌&&◌, ◌||◌, Option,
  none, some, leb, ltb, ◌==◌, if◌then◌else◌, length, set, get_or, drop,
}
use xnetty.Prelude.Text.{Text, text_eq, is_empty}

pub data HttpMethod : Type 0 where
  get post put delete head options patch unknown : HttpMethod

-- `methodToMask`, with the constants `kMaskGET` to `kMaskDELETE`.
pub method_to_mask : HttpMethod → ℕ
method_to_mask HttpMethod.get = 1
method_to_mask HttpMethod.post = 2
method_to_mask HttpMethod.put = 4
method_to_mask HttpMethod.patch = 8
method_to_mask HttpMethod.delete = 16
method_to_mask _ = 0

-- The `switch` that picks the place of a method in the array of handlers.
pub method_index : HttpMethod → ℕ
method_index HttpMethod.get = 0
method_index HttpMethod.post = 1
method_index HttpMethod.put = 2
method_index HttpMethod.patch = 3
method_index HttpMethod.delete = 4
method_index _ = 0

pub is_param_name : ℕ → Bool
is_param_name c =
    (leb b'0' c && leb c b'9')
    || ((leb b'A' c && leb c b'Z') || ((leb b'a' c && leb c b'z') || (c == b'_' || c == b'-')))

-- The loop of `normalizePath`; `last_slash` tells that the byte before was a slash.
pub squeeze : Bool → Text → Text
squeeze last_slash [] = []
squeeze last_slash (c ∷ path) =
    let rest = squeeze (c == b'/') path in if c == b'/' && last_slash then rest else c ∷ rest

-- A text without its last byte, if that is a slash.
pub drop_last_slash : Text → Text
drop_last_slash [] = []
drop_last_slash (c ∷ path) = if is_empty path && c == b'/' then [] else c ∷ drop_last_slash path

pub normalize_path : Text → Text
normalize_path path =
    let out = squeeze false path in if ltb 1 (length out) then drop_last_slash out else out

-- The loop of `splitPath`: `seg` is the part of the segment at hand that was already passed.
pub split_from : Text → Text → List Text
split_from seg [] = if is_empty seg then [] else seg ∷ []
split_from seg (c ∷ path) =
    let rest = split_from (if c == b'/' then [] else seg ++ (c ∷ [])) path in
    if c == b'/' && not (is_empty seg) then seg ∷ rest else rest

pub split_path : Text → List Text
split_path path = split_from [] path

abbrev pub starts_with_colon : Text → Bool
starts_with_colon [] = false
starts_with_colon (c ∷ seg) = c == b':'

pub has_param : List Text → Bool
has_param [] = false
has_param (seg ∷ segs) = starts_with_colon seg || has_param segs

abbrev no_segments : List Text → Bool
no_segments [] = true
no_segments (_ ∷ _) = false

pub all_param_name : Text → Bool
all_param_name [] = true
all_param_name (c ∷ seg) = is_param_name c && all_param_name seg

-- What `addRoute` looks for in the tree for a segment: the key, and whether it is a parameter.
pub node_key : Text → Text × Bool
node_key seg =
    if starts_with_colon seg && all_param_name (drop 1 seg)
    then (drop 1 seg, true)
    else (seg, false)

-- The five handlers of a path, one for each method.
abbrev pub Handlers : Type 0 → Type 0
Handlers H = List (Option H)

abbrev pub no_handlers : (H : Type 0) → Handlers H
no_handlers H = none ∷ none ∷ none ∷ none ∷ none ∷ []

mutual
  pub data Node (H : Type 0) : Type 0 where
    node : Text → Bool → Text → Handlers H → Children H → Node H

  pub data Children (H : Type 0) : Type 0 where
    nil : Children H
    cons : Node H → Children H → Children H

-- `params`: a map from names to segments.
abbrev pub Params : Type 0
Params = List (Text × Text)

unfoldable pub erase_param : Text → Params → Params
erase_param name [] = []
erase_param name ((k, v) ∷ ps) =
    let rest = erase_param name ps in if text_eq k name then rest else (k, v) ∷ rest

unfoldable pub set_param : Text → Text → Params → Params
set_param name v ps = (name, v) ∷ erase_param name ps

module _ {H : Type 0} where
  abbrev pub is_some : Option H → Bool
  is_some none = false
  is_some (some h) = true

  abbrev pub handlers_of : Node H → Handlers H
  handlers_of (node _ _ _ hs _) = hs

  abbrev pub is_child : Text → Bool → Node H → Bool
  is_child seg is_param (node s p _ _ _) = (if p then is_param else not is_param) && text_eq s seg

  -- `methodMask`: the loop over `i`, from the handlers that are left.
  mask_from : ℕ → Handlers H → ℕ
  mask_from i [] = 0
  mask_from i (h ∷ hs) = (if is_some h then 2 ^ i else 0) + mask_from (i + 1) hs

  pub method_mask : Handlers H → ℕ
  method_mask hs = mask_from 0 hs

  -- `handlerFor`: the first handler whose bit is in the mask.
  handler_from : ℕ → ℕ → Handlers H → Option H
  handler_from i mask [] = none
  handler_from i mask (none ∷ hs) = handler_from (i + 1) mask hs
  handler_from i mask (some h ∷ hs) =
      let rest = handler_from (i + 1) mask hs in if bit_and mask (2 ^ i) == 0 then rest else some h

  pub handler_for : ℕ → Handlers H → Option H
  handler_for mask hs = handler_from 0 mask hs

  -- `findOrCreate`, and what is done to the child that it gives.
  pub update_child : Text → Bool → (Node H → Node H) → Children H → Children H
  update_child seg is_param f nil =
      cons (f (node seg is_param (if is_param then seg else []) (no_handlers H) nil)) nil
  update_child seg is_param f (cons c cs) =
      if is_child seg is_param c then cons (f c) cs else cons c (update_child seg is_param f cs)

  abbrev set_param_name : Text → Bool → Node H → Node H
  set_param_name key false n = n
  set_param_name key true (node s p _ hs cs) = node s p key hs cs

  -- The second half of `addRoute`: down the tree, and the handler stored at the end.
  pub insert : List Text → ℕ → Option H → Node H → Node H
  insert [] idx h (node s p name hs cs) = node s p name (set hs idx h) cs
  insert (seg ∷ segs) idx h (node s p name hs cs) =
      let (key, is_param) = node_key seg in
      node s p name hs
        (update_child key is_param (λ c. insert segs idx h (set_param_name key is_param c)) cs)

-- The static routes by path, and the root of the tree.
pub record Router (H : Type 0) : Type 0 where
  pub static_routes : List (Text × Handlers H)
  pub root : Node H

module _ {H : Type 0} where
  abbrev pub empty : Router H
  empty = record { static_routes = []; root = node [] false [] (no_handlers H) nil }

  pub find_static : Text → List (Text × Handlers H) → Option (Handlers H)
  find_static path [] = none
  find_static path ((p, hs) ∷ routes) = if text_eq p path then some hs else find_static path routes

  -- `staticRoutes_[norm][idx] = handler`
  pub set_static : Text → ℕ → Option H → List (Text × Handlers H) → List (Text × Handlers H)
  set_static path idx h [] = (path, set (no_handlers H) idx h) ∷ []
  set_static path idx h ((p, hs) ∷ routes) =
      if text_eq p path then (p, set hs idx h) ∷ routes else (p, hs) ∷ set_static path idx h routes

  -- A handler that is an empty `std::function` is `none`.
  pub add_route : HttpMethod → Text → Option H → Router H → Router H
  add_route method path h r =
      let norm = normalize_path path in
      let segs = split_path norm in
      if not (has_param segs) && not (no_segments segs)
      then record r { static_routes = set_static norm (method_index method) h r.static_routes }
      else record r { root = insert segs (method_index method) h r.root }

  -- The two loops of `matchNode` over the children; `go` is the call for a child. The result is
  -- whether a handler was found, and `params`.
  pub try_static : (Node H → Params → Bool × Params) → Text → Children H → Params → Bool × Params
  try_static go seg nil ps = (false, ps)
  try_static go seg (cons c cs) ps =
      let (found, ps') = go c ps in
      if is_child seg false c
      then (if found then (true, ps') else try_static go seg cs ps')
      else try_static go seg cs ps

  abbrev param_name : Node H → Text
  param_name (node _ _ name _ _) = name

  abbrev is_param_node : Node H → Bool
  is_param_node (node _ p _ _ _) = p

  pub try_params : (Node H → Params → Bool × Params) → Text → Children H → Params → Bool × Params
  try_params go seg nil ps = (false, ps)
  try_params go seg (cons c cs) ps =
      let (found, ps') = go c (set_param (param_name c) seg ps) in
      if is_param_node c
      then (if found then (true, ps') else try_params go seg cs (erase_param (param_name c) ps'))
      else try_params go seg cs ps

  pub match_node : List Text → ℕ → Node H → Params → Bool × Params
  match_node [] mask n ps = (is_some (handler_for mask (handlers_of n)), ps)
  match_node (seg ∷ segs) mask (node _ _ _ _ cs) ps =
      let (found, ps') = try_static (match_node segs mask) seg cs ps in
      if found then (true, ps') else try_params (match_node segs mask) seg cs ps'

  -- One step of the walk that looks the handler up again: the first static child of this segment,
  -- or else the first parameter.
  pub first_child : (Node H → Bool) → Children H → Option (Node H)
  first_child test nil = none
  first_child test (cons c cs) = if test c then some c else first_child test cs

  abbrev or_else : Option (Node H) → Option (Node H) → Option (Node H)
  or_else none o = o
  or_else (some c) o = some c

  pub step_to : Text → Node H → Option (Node H)
  step_to seg (node _ _ _ _ cs) =
      or_else (first_child (is_child seg false) cs) (first_child is_param_node cs)

  -- The walk, with whether it found a child for every segment, and the node where it stopped.
  pub walk : List Text → Node H → Bool × Node H
  walk [] cur = (true, cur)
  walk (seg ∷ segs) cur = elim (step_to seg cur) [ none ↦ (false, cur) | some c ↦ walk segs c ]

-- What `onRequest` does: it calls a handler, answers with a status, or does nothing.
pub data Reply (H : Type 0) : Type 0 where
  handled : H → Params → Reply H
  method_not_allowed not_found no_reply : Reply H

-- `uri.resize(qpos)`
pub cut_query : Text → Text
cut_query [] = []
cut_query (c ∷ uri) = if c == b'?' then [] else c ∷ cut_query uri

module _ {H : Type 0} where
  abbrev any_handler : Handlers H → Bool
  any_handler [] = false
  any_handler (h ∷ hs) = is_some h || any_handler hs

  -- The answer from the array of a static path.
  pub reply_static : ℕ → Handlers H → Reply H
  reply_static idx hs = elim (get_or hs idx none) [
    | some h ↦ handled h []
    | none ↦ if any_handler hs then method_not_allowed else not_found
  ]

  -- The answer from the tree.
  pub reply_tree : ℕ → List Text → Node H → Reply H
  reply_tree mask segs root =
      let (matched, params) = match_node segs mask root [] in
      let (exists, last) = walk segs root in
      if matched
      then elim (handler_for mask (handlers_of last)) [
        | none ↦ no_reply
        | some h ↦ handled h params
      ]
      else if exists && not (method_mask (handlers_of last) == 0)
      then method_not_allowed
      else not_found

  -- The table first, then the tree.
  abbrev pub reply_for : HttpMethod → List Text → Node H → Option (Handlers H) → Reply H
  reply_for method segs root (some hs) = reply_static (method_index method) hs
  reply_for method segs root none = reply_tree (method_to_mask method) segs root

  pub on_request : Router H → HttpMethod → Text → Reply H
  on_request r method uri =
      let norm = normalize_path (cut_query uri) in
      if method_to_mask method == 0
      then method_not_allowed
      else reply_for method (split_path norm) r.root (find_static norm r.static_routes)
