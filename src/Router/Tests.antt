-- ===== src/Router/Tests.antt =====
-- Runs of the router, and its theorems at concrete inputs.
use xnetty.Prelude.{ℕ, ◌≡◌, ◌↔◌, refl, [], ◌∷◌, true, false, some, none, inl, inr}
use xnetty.Prelude.Preds.{All}
use xnetty.Prelude.Text.{Text, text_eq}
use xnetty.Router.{
  HttpMethod, method_to_mask, method_index, is_param_name, squeeze, drop_last_slash, normalize_path,
  split_from, split_path, has_param, all_param_name, node_key, Node, node, nil, cons, erase_param,
  set_param, handler_from, handler_for, mask_from, method_mask, update_child, insert, Router, empty,
  find_static, set_static, add_route, try_static, try_params, match_node, first_child, step_to,
  walk, handled, method_not_allowed, no_reply, cut_query, reply_static, reply_tree, on_request,
}
use xnetty.Router.Paths.{IsSegment, split_path-IsSegment}
use xnetty.Router.Tree.{Accepts, match_node_iff}
use xnetty.Router.Insert.{FiveNode}
use xnetty.Router.Answers.{add_route-match_node}
use xnetty.Router.Routes.{add_route-on_request_static}

-- What a run computes with.
all_open : Unit {0}
unfolding method_to_mask method_index is_param_name squeeze drop_last_slash normalize_path
    split_from split_path has_param all_param_name node_key erase_param set_param handler_from
    handler_for mask_from method_mask update_child insert find_static set_static add_route
    try_static try_params match_node first_child step_to walk cut_query reply_static reply_tree
    on_request text_eq
all_open = tt

-- "/a/:p/x"
abbrev first_pattern : Text
first_pattern = b'/' ∷ b'a' ∷ b'/' ∷ b':' ∷ b'p' ∷ b'/' ∷ b'x' ∷ []

-- "/:q/b/:r"
abbrev second_pattern : Text
second_pattern = b'/' ∷ b':' ∷ b'q' ∷ b'/' ∷ b'b' ∷ b'/' ∷ b':' ∷ b'r' ∷ []

-- "/a/b/c"
abbrev asked : Text
asked = b'/' ∷ b'a' ∷ b'/' ∷ b'b' ∷ b'/' ∷ b'c' ∷ []

-- "/s//t/?u"
abbrev sloppy : Text
sloppy = b'/' ∷ b's' ∷ b'/' ∷ b'/' ∷ b't' ∷ b'/' ∷ b'?' ∷ b'u' ∷ []

-- "/s/t"
abbrev tidy : Text
tidy = b'/' ∷ b's' ∷ b'/' ∷ b't' ∷ []

abbrev one : Router ℕ
one = empty

-- With both patterns registered the search accepts the request, but the walk takes the static child
-- "a" first and ends nowhere: nobody answers.
backtracked :
    on_request
      (add_route HttpMethod.get second_pattern
        (some 2)
        (add_route HttpMethod.get first_pattern (some 1) one))
      HttpMethod.get
      asked
    ≡ no_reply
unfolding all_open
backtracked = refl

alone :
    on_request (add_route {H = ℕ} HttpMethod.get second_pattern (some 2) empty) HttpMethod.get asked
    ≡ handled 2 ((b'r' ∷ [], b'c' ∷ []) ∷ (b'q' ∷ [], b'a' ∷ []) ∷ [])
unfolding all_open
alone = refl

wrong_method :
    on_request
      (add_route {H = ℕ} HttpMethod.get second_pattern (some 2) empty)
      HttpMethod.post
      asked
    ≡ method_not_allowed
unfolding all_open
wrong_method = refl

split_path-IsSegment_example : All IsSegment (split_path sloppy)
split_path-IsSegment_example = split_path-IsSegment sloppy

-- One parameter below the root, with a handler for GET.
abbrev leaf : Node ℕ
leaf = node (b'q' ∷ []) true (b'q' ∷ []) (some 5 ∷ none ∷ none ∷ none ∷ none ∷ []) nil

abbrev small_tree : Node ℕ
small_tree = node [] false [] (none ∷ none ∷ none ∷ none ∷ none ∷ []) (cons leaf nil)

match_node_iff_example :
    ((match_node ((b'a' ∷ []) ∷ []) 1 small_tree []).0 ≡ true)
    ↔ Accepts ((b'a' ∷ []) ∷ []) 1 small_tree
match_node_iff_example = match_node_iff ((b'a' ∷ []) ∷ []) 1 small_tree []

add_route-match_node_example :
    (match_node
      (split_path (normalize_path (cut_query asked)))
      (method_to_mask HttpMethod.get)
      (add_route {H = ℕ} HttpMethod.get second_pattern (some 2) empty).root
      []).0
    ≡ true
unfolding all_open FiveNode
add_route-match_node_example =
    add_route-match_node HttpMethod.get second_pattern asked 2 one (refl, tt) refl refl
      (inl refl, (inr (refl, refl), (inl refl, tt)))

add_route-on_request_static_example :
    on_request (add_route {H = ℕ} HttpMethod.get tidy (some 3) empty) HttpMethod.get sloppy
    ≡ handled 3 []
unfolding all_open
add_route-on_request_static_example =
    add_route-on_request_static HttpMethod.get tidy sloppy 3 empty tt (refl, refl) refl refl
