-- ===== src/Router/Tree.antt =====
-- The search of the route tree: what it accepts, and where it agrees with the walk that looks the
-- handler up again.
use xnetty.Prelude.{
  ℕ, ◌≡◌, ◌↔◌, ◌⊎◌, sym, ap, subst, ◌∙◌, List, [], ◌∷◌, Bool, true, false, some, arith,
  if◌then◌else◌, Bool-cases, Option-cases, inl, inr,
}
use xnetty.Prelude.Text.{Text}
use xnetty.Router.{
  Node, node, Children, nil, cons, Params, handlers_of, is_child, is_param_node, param_name,
  is_some, handler_for, try_static, try_params, match_node, first_child, step_to, walk, reply_tree,
  handled, set_param, erase_param,
}

module _ {H : Type 0} where
  abbrev pub AnyChild : (Node H → Type 0) → Children H → Type 0
  AnyChild P nil = ⊥
  AnyChild P (cons c cs) = P c ⊎ AnyChild P cs

  abbrev pub children_of : Node H → Children H
  children_of (node _ _ _ _ cs) = cs

  -- Some path down the tree fits the segments and ends at a handler for the method: each segment is
  -- the child's own, or the child is a parameter.
  abbrev pub Accepts : List Text → ℕ → Node H → Type 0
  Accepts [] mask n = is_some (handler_for mask (handlers_of n)) ≡ true
  Accepts (seg ∷ segs) mask n =
      AnyChild
        (λ c. ((is_child seg false c ≡ true) ⊎ (is_param_node c ≡ true)) × Accepts segs mask c)
        (children_of n)

  module _ (go : Node H → Params → Bool × Params) (P : Node H → Type 0)
      (sound : (c : Node H) (ps : Params) → (go c ps).0 ≡ true → P c)
      (complete : (c : Node H) (ps : Params) → P c → (go c ps).0 ≡ true) where
    try_static_sound :
        (seg : Text) (cs : Children H) (ps : Params)
        → (try_static go seg cs ps).0 ≡ true
        → AnyChild (λ c. (is_child seg false c ≡ true) × P c) cs
    unfolding try_static
    try_static_sound seg nil ps h = cc
    try_static_sound seg (cons c cs) ps h = elim (Bool-cases (is_child seg false c)) [
      | inl t ↦ elim (Bool-cases (go c ps).0) [
        | inl f ↦ inl (t, sound c ps f)
        | inr f ↦ inr (try_static_sound seg cs (go c ps).1 (rw (t, f) at h))
      ]
      | inr t ↦ inr (try_static_sound seg cs ps (rw t at h))
    ]

    try_static_complete :
        (seg : Text) (cs : Children H) (ps : Params)
        → AnyChild (λ c. (is_child seg false c ≡ true) × P c) cs
        → (try_static go seg cs ps).0 ≡ true
    unfolding try_static
    try_static_complete seg nil ps h = absurd h
    try_static_complete seg (cons c cs) ps (inl (t, p)) = rw (t, complete c ps p)
    try_static_complete seg (cons c cs) ps (inr h) =
        ground (arith, try_static_complete seg cs ps h, try_static_complete seg cs (go c ps).1 h)

    try_params_sound :
        (seg : Text) (cs : Children H) (ps : Params)
        → (try_params go seg cs ps).0 ≡ true
        → AnyChild (λ c. (is_param_node c ≡ true) × P c) cs
    unfolding try_params
    try_params_sound seg nil ps h = cc
    try_params_sound seg (cons c cs) ps h = elim (Bool-cases (is_param_node c)) [
      | inl t ↦ elim (Bool-cases (go c (set_param (param_name c) seg ps)).0) [
        | inl f ↦ inl (t, sound c _ f)
        | inr f ↦ inr (try_params_sound seg cs _ (rw (t, f) at h))
      ]
      | inr t ↦ inr (try_params_sound seg cs ps (rw t at h))
    ]

    try_params_complete :
        (seg : Text) (cs : Children H) (ps : Params)
        → AnyChild (λ c. (is_param_node c ≡ true) × P c) cs
        → (try_params go seg cs ps).0 ≡ true
    unfolding try_params
    try_params_complete seg nil ps h = absurd h
    try_params_complete seg (cons c cs) ps (inl (t, p)) =
        rw (t, complete c (set_param (param_name c) seg ps) p)
    try_params_complete seg (cons c cs) ps (inr h) = ground (
      arith,
      try_params_complete seg cs ps h,
      try_params_complete seg cs
          (erase_param (param_name c) (go c (set_param (param_name c) seg ps)).1) h,
    )

  pub AnyChild-imp :
      (P Q : Node H → Type 0) (cs : Children H)
      → ((c : Node H) → P c → Q c)
      → AnyChild P cs
      → AnyChild Q cs
  AnyChild-imp P Q nil f h = h
  AnyChild-imp P Q (cons c cs) f (inl p) = inl (f c p)
  AnyChild-imp P Q (cons c cs) f (inr h) = inr (AnyChild-imp P Q cs f h)

  AnyChild-split :
      (P Q R : Node H → Type 0) (cs : Children H)
      → AnyChild (λ c. (P c ⊎ Q c) × R c) cs
      → AnyChild (λ c. P c × R c) cs ⊎ AnyChild (λ c. Q c × R c) cs
  AnyChild-split P Q R nil h = absurd h
  AnyChild-split P Q R (cons c cs) (inl (inl p, r)) = inl (inl (p, r))
  AnyChild-split P Q R (cons c cs) (inl (inr q, r)) = inr (inl (q, r))
  AnyChild-split P Q R (cons c cs) (inr h) = elim (AnyChild-split P Q R cs h) [
    | inl a ↦ inl (inr a)
    | inr b ↦ inr (inr b)
  ]

  module _ (go : Node H → Params → Bool × Params) (P : Node H → Type 0)
      (iff : (c : Node H) (ps : Params) → ((go c ps).0 ≡ true) ↔ P c) where
    abbrev try_both : Text → Children H → Params → Bool × Params
    try_both seg cs ps =
        let (found, ps') = try_static go seg cs ps in
        if found then (true, ps') else try_params go seg cs ps'

    try_both_sound :
        (seg : Text) (cs : Children H) (ps : Params)
        → (try_both seg cs ps).0 ≡ true
        → AnyChild (λ c. ((is_child seg false c ≡ true) ⊎ (is_param_node c ≡ true)) × P c) cs
    try_both_sound seg cs ps h = elim (Bool-cases (try_static go seg cs ps).0) [
      | inl t ↦
          AnyChild-imp _ _ cs (λ c f. (inl f.0, f.1))
            (try_static_sound go P (λ c qs. (iff c qs).0) (λ c qs. (iff c qs).1) seg cs ps t)
      | inr t ↦
          AnyChild-imp _ _ cs (λ c f. (inr f.0, f.1))
            (try_params_sound go P (λ c qs. (iff c qs).0) (λ c qs. (iff c qs).1) seg cs
              (try_static go seg cs ps).1 (rw t at h))
    ]

    try_both_complete :
        (seg : Text) (cs : Children H) (ps : Params)
        → AnyChild (λ c. ((is_child seg false c ≡ true) ⊎ (is_param_node c ≡ true)) × P c) cs
        → (try_both seg cs ps).0 ≡ true
    try_both_complete seg cs ps h = elim (AnyChild-split _ _ _ cs h) [
      | inl a ↦
          rw (try_static_complete go P (λ c qs. (iff c qs).0) (λ c qs. (iff c qs).1) seg cs ps a)
      | inr b ↦ ground (
        arith,
        try_params_complete go P (λ c qs. (iff c qs).0) (λ c qs. (iff c qs).1) seg cs
            (try_static go seg cs ps).1 b,
      )
    ]

  -- The backtracking search finds a handler exactly if some path down the tree fits.
  pub match_node_iff :
      (segs : List Text) (mask : ℕ) (n : Node H) (ps : Params)
      → ((match_node segs mask n ps).0 ≡ true) ↔ Accepts segs mask n
  unfolding match_node
  match_node_iff [] mask n ps = (λ h. h, λ h. h)
  match_node_iff (seg ∷ segs) mask (node s p name hs cs) ps =
      let iff : (c : Node H) (qs : Params)
          → ((match_node segs mask c qs).0 ≡ true) ↔ Accepts segs mask c =
        λ c qs. match_node_iff segs mask c qs in
      (
        try_both_sound (match_node segs mask) (Accepts segs mask) iff seg cs ps,
        try_both_complete (match_node segs mask) (Accepts segs mask) iff seg cs ps,
      )

  first_child-AnyChild :
      (test : Node H → Bool) (P : Node H → Type 0) (cs : Children H) {c : Node H}
      → first_child test cs ≡ some c
      → P c
      → AnyChild (λ d. (test d ≡ true) × P d) cs
  unfolding first_child
  first_child-AnyChild test P nil e p = cc
  first_child-AnyChild test P (cons d cs) {c} e p = elim (Bool-cases (test d)) [
    | inl t ↦ let same : some d ≡ some c = rw t at e in inl (t, subst P (sym (cc)) p)
    | inr t ↦ inr (first_child-AnyChild test P cs (rw t at e) p)
  ]

  step_to-AnyChild :
      (seg : Text) (P : Node H → Type 0) (n : Node H) {c : Node H}
      → step_to seg n ≡ some c
      → P c
      → AnyChild
          (λ d. ((is_child seg false d ≡ true) ⊎ (is_param_node d ≡ true)) × P d)
          (children_of n)
  unfolding step_to
  step_to-AnyChild seg P (node s q name hs cs) {c} e p =
      elim (Option-cases (first_child (is_child seg false) cs)) [
        | inl none_static ↦
            AnyChild-imp _ _ cs (λ d f. (inr f.0, f.1))
              (first_child-AnyChild is_param_node P cs (rw none_static at e) p)
        | inr (d, found) ↦
            AnyChild-imp _ _ cs (λ x f. (inl f.0, f.1))
              (first_child-AnyChild (is_child seg false) P cs (found ∙ (rw found at e)) p)
      ]

  -- If the walk ends at a node with a handler for the method, the search accepts the segments.
  pub walk-Accepts :
      (segs : List Text) (mask : ℕ) (n last : Node H) (h : H)
      → walk segs n ≡ (true, last)
      → handler_for mask (handlers_of last) ≡ some h
      → Accepts segs mask n
  unfolding walk
  walk-Accepts [] mask n last h e f =
      let same : n ≡ last = ap (λ r. r.1) e in
      rw (ap (λ k. handler_for mask (handlers_of k)) same ∙ f)
  walk-Accepts (seg ∷ segs) mask n last h e f = elim (Option-cases (step_to seg n)) [
    | inl stuck ↦
        let no_end : (false, n) ≡ (true, last) = rw (stuck, walk) at e in absurd (cc no_end)
    | inr (c, found) ↦
        step_to-AnyChild seg (Accepts segs mask) n found
          (walk-Accepts segs mask c last h (rw (found, walk) at e) f)
  ]

  -- If the walk of a request ends at a node with a handler for its method, that handler gets it.
  pub reply_tree-walk :
      (mask : ℕ) (segs : List Text) (root last : Node H) (h : H)
      → walk segs root ≡ (true, last)
      → handler_for mask (handlers_of last) ≡ some h
      → reply_tree mask segs root ≡ handled h (match_node segs mask root []).1
  unfolding reply_tree
  reply_tree-walk mask segs root last h e f =
      rw ((match_node_iff segs mask root []).1 (walk-Accepts segs mask root last h e f), e, f)
