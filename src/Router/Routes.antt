-- ===== src/Router/Routes.antt =====
-- Registering a route and asking for it: the table of static routes.
use xnetty.Prelude.{
  ℕ, ◌≡◌, ◌≢◌, ◌<◌, refl, sym, ◌∙◌, List, [], ◌∷◌, false, Option, none, some, length, arith, ◌==◌,
  if◌then◌else◌, Bool-cases, inl, inr, set, length-set, get_or-set_self,
}
use xnetty.Prelude.Preds.{All}
use xnetty.Prelude.Text.{Text, text_eq, text_eq_iff, text_eq_refl, text_eq-false, ne_of_text_eq}
use xnetty.Router.{
  HttpMethod, Handlers, no_handlers, Router, handled, method_to_mask, method_index, find_static,
  set_static, add_route, has_param, no_segments, split_path, normalize_path, cut_query, on_request,
  reply_static,
}

-- A path that `addRoute` stores in the table.
abbrev pub IsStatic : Text → Type 0
IsStatic path =
    (has_param (split_path (normalize_path path)) ≡ false)
    × (no_segments (split_path (normalize_path path)) ≡ false)

method_index-lt : (m : HttpMethod) → method_index m < 5
unfolding method_index
method_index-lt HttpMethod.get = omega arith
method_index-lt HttpMethod.post = omega arith
method_index-lt _ = omega arith

module _ {H : Type 0} where
  abbrev stored : Option (Handlers H) → Handlers H
  stored none = no_handlers H
  stored (some hs) = hs

  find-set_static :
      (p q : Text) (idx : ℕ) (h : Option H) (routes : List (Text × Handlers H))
      → find_static q (set_static p idx h routes) ≡ (
          if text_eq p q
          then some (set (stored (find_static p routes)) idx h)
          else find_static q routes)
  unfolding find_static set_static
  find-set_static p q idx h [] = refl
  find-set_static p q idx h ((k, hs) ∷ routes) = elim (Bool-cases (text_eq k p)) [
    | inl t ↦ let same : k ≡ p = (text_eq_iff k p).0 t in rw (t, same) (ground arith)
    | inr t ↦ rw t (elim (Bool-cases (text_eq k q)) [
      | inl u ↦
          let same : k ≡ q = (text_eq_iff k q).0 u in
          let no : text_eq p q ≡ false =
            text_eq-false p q (λ e. ne_of_text_eq k p t (same ∙ sym e)) in
          rw (u, no)
      | inr u ↦ rw u (find-set_static p q idx h routes)
    ])
  ]

  -- Every path has an array of five handlers.
  abbrev pub HasFive : List (Text × Handlers H) → Type 0
  HasFive = All (λ r. length r.1 ≡ 5)

  stored-five :
      (p : Text) (routes : List (Text × Handlers H))
      → HasFive routes
      → length (stored (find_static p routes)) ≡ 5
  unfolding find_static
  stored-five p [] h = refl
  stored-five p ((k, hs) ∷ routes) (e, h) = ground (arith, stored-five p routes h)

  set_static-HasFive :
      (p : Text) (idx : ℕ) (h : Option H) (routes : List (Text × Handlers H))
      → HasFive routes
      → HasFive (set_static p idx h routes)
  unfolding set_static
  set_static-HasFive p idx h [] v = (length-set (no_handlers H) idx h, tt)
  set_static-HasFive p idx h ((k, hs) ∷ routes) (e, v) = elim (Bool-cases (text_eq k p)) [
    | inl t ↦ rw t (length-set hs idx h ∙ e, v)
    | inr t ↦ rw t (e, set_static-HasFive p idx h routes v)
  ]

  add_static :
      (m : HttpMethod) (path : Text) (h : Option H) (r : Router H)
      → IsStatic path
      → add_route m path h r ≡ record r {
        static_routes = set_static (normalize_path path) (method_index m) h r.static_routes;
      }
  unfolding add_route
  add_static m path h r (a, b) = rw (a, b)

  reply_static-set :
      (idx : ℕ) (h : H) (hs : Handlers H)
      → idx < length hs
      → reply_static idx (set hs idx (some h)) ≡ handled h []
  unfolding reply_static
  reply_static-set idx h hs l = rw (get_or-set_self hs idx (some h) none l, reply_static)

  -- Where every path of the table has five places for handlers: a route without parameters that was
  -- added, with a handler that is not empty and for one of the five methods with a place, answers every
  -- request of this method whose path is the same up to repeated slashes, a slash at the end and a
  -- query: its handler is called, without parameters, whatever routes were there.
  pub add_route-on_request_static :
      (m : HttpMethod) (path uri : Text) (h : H) (r : Router H)
      → HasFive r.static_routes
      → IsStatic path
      → (method_to_mask m == 0) ≡ false
      → normalize_path (cut_query uri) ≡ normalize_path path
      → on_request (add_route m path (some h) r) m uri ≡ handled h []
  unfolding on_request
  add_route-on_request_static m path uri h r v st known same =
      rw
        (
          add_static m path (some h) r st,
          same,
          known,
          find-set_static (normalize_path path) (normalize_path path) (method_index m) (some h)
              r.static_routes,
          text_eq_refl (normalize_path path),
        )
        (reply_static-set (method_index m) h _
          (omega (arith, stored-five (normalize_path path) r.static_routes v, method_index-lt m)))

  -- It changes the answer for no other path.
  pub add_route-on_request_other :
      (m m' : HttpMethod) (path uri : Text) (h : Option H) (r : Router H)
      → IsStatic path
      → normalize_path (cut_query uri) ≢ normalize_path path
      → on_request (add_route m path h r) m' uri ≡ on_request r m' uri
  unfolding on_request
  add_route-on_request_other m m' path uri h r st ne = rw (
    add_static m path h r st,
    find-set_static (normalize_path path) (normalize_path (cut_query uri)) (method_index m) h
        r.static_routes,
    text_eq-false (normalize_path path) (normalize_path (cut_query uri)) (λ e. ne (sym e)),
  )
