-- ===== src/Router/Answers.antt =====
-- The search for a route with parameters that was added.
use xnetty.Prelude.{◌≡◌, [], true, Option, some}
use xnetty.Prelude.Text.{Text}
use xnetty.Router.{
  HttpMethod, Router, method_to_mask, method_index, insert, add_route, has_param, split_path,
  normalize_path, cut_query, match_node,
}
use xnetty.Router.Tree.{match_node_iff}
use xnetty.Router.Insert.{IsRoutable, MatchesPattern, FiveNode, insert-Accepts}

module _ {H : Type 0} where
  add_tree :
      (m : HttpMethod) (path : Text) (h : Option H) (r : Router H)
      → has_param (split_path (normalize_path path)) ≡ true
      → add_route m path h r
        ≡ record r { root = insert (split_path (normalize_path path)) (method_index m) h r.root }
  unfolding add_route
  add_tree m path h r e = rw e

  -- In a router whose nodes have five places for handlers: after a route with parameters and a handler
  -- that is not empty was added for one of the five methods with a place, `matchNode` finds a handler of this method for every request whose segments fit
  -- the pattern, however both paths are written and whatever routes were there. It need not be the
  -- handler that was added.
  pub add_route-match_node :
      (m : HttpMethod) (path uri : Text) (h : H) (r : Router H)
      → FiveNode r.root
      → IsRoutable m
      → has_param (split_path (normalize_path path)) ≡ true
      → MatchesPattern
          (split_path (normalize_path path))
          (split_path (normalize_path (cut_query uri)))
      → (match_node
          (split_path (normalize_path (cut_query uri)))
          (method_to_mask m)
          (add_route m path (some h) r).root
          []).0
        ≡ true
  add_route-match_node m path uri h r v k e fit = rw (add_tree m path (some h) r e) (
      (match_node_iff (split_path (normalize_path (cut_query uri))) (method_to_mask m)
          (insert (split_path (normalize_path path)) (method_index m) (some h) r.root) []).1
        (insert-Accepts m h (split_path (normalize_path path))
          (split_path (normalize_path (cut_query uri))) r.root k v fit))
