-- ===== src/Router/Insert.antt =====
-- Registering a route with parameters, and the tree.
use xnetty.Prelude.{
  ℕ, ◌≡◌, ◌⊎◌, refl, ap, ◌∙◌, List, [], ◌∷◌, Bool, true, false, Option, some, length, arith, ◌==◌,
  if◌then◌else◌, Bool-cases, inl, inr, set, length-set,
}
use xnetty.Prelude.Text.{Text, text_eq_refl}
use xnetty.Router.{
  HttpMethod, Node, node, Children, nil, cons, Handlers, no_handlers, method_to_mask, method_index,
  handler_from, handler_for, is_some, is_child, is_param_node, update_child, set_param_name, insert,
  node_key,
}
use xnetty.Router.Tree.{AnyChild-imp, AnyChild, Accepts}

-- The segments of a request fit those of a pattern.
abbrev pub MatchesPattern : List Text → List Text → Type 0
MatchesPattern [] [] = Unit
MatchesPattern [] (_ ∷ _) = ⊥
MatchesPattern (_ ∷ _) [] = ⊥
MatchesPattern (p ∷ ps) (s ∷ ss) =
    (((node_key p).1 ≡ true) ⊎ (((node_key p).1 ≡ false) × ((node_key p).0 ≡ s)))
    × MatchesPattern ps ss

-- The methods that a router knows.
abbrev pub IsRoutable : HttpMethod → Type 0
IsRoutable m = (method_to_mask m == 0) ≡ false

module _ {H : Type 0} where
  unfoldable mutual
    -- Every node has an array of five handlers.
    pub FiveNode : Node H → Type 0
    FiveNode (node _ _ _ hs cs) = (length hs ≡ 5) × FiveChildren cs

    pub FiveChildren : Children H → Type 0
    FiveChildren nil = Unit
    FiveChildren (cons c cs) = FiveNode c × FiveChildren cs

  Five-cases :
      (hs : Handlers H) → length hs ≡ 5 → (a b c d e : Option H) × (hs ≡ a ∷ b ∷ c ∷ d ∷ e ∷ [])
  Five-cases [] l = absurd (omega arith)
  Five-cases (a ∷ []) l = absurd (omega arith)
  Five-cases (a ∷ b ∷ []) l = absurd (omega arith)
  Five-cases (a ∷ b ∷ c ∷ []) l = absurd (omega arith)
  Five-cases (a ∷ b ∷ c ∷ d ∷ []) l = absurd (omega arith)
  Five-cases (a ∷ b ∷ c ∷ d ∷ e ∷ []) l = (a, b, c, d, e, refl)
  Five-cases (a ∷ b ∷ c ∷ d ∷ e ∷ x ∷ hs) l = absurd (omega arith)

  handler_for-five :
      (m : HttpMethod) (h : H) (a b c d e : Option H)
      → IsRoutable m
      → handler_for (method_to_mask m) (set (a ∷ b ∷ c ∷ d ∷ e ∷ []) (method_index m) (some h))
        ≡ some h
  unfolding handler_for handler_from method_to_mask method_index
  handler_for-five HttpMethod.get h a b c d e k = refl
  handler_for-five HttpMethod.post h a b c d e k = ground arith
  handler_for-five HttpMethod.put h a b c d e k = ground arith
  handler_for-five HttpMethod.patch h a b c d e k = ground arith
  handler_for-five HttpMethod.delete h a b c d e k = ground arith
  handler_for-five HttpMethod.head h a b c d e k = cc
  handler_for-five HttpMethod.options h a b c d e k = cc
  handler_for-five HttpMethod.unknown h a b c d e k = cc

  handler_for-set :
      (m : HttpMethod) (h : H) (hs : Handlers H)
      → IsRoutable m
      → length hs ≡ 5
      → handler_for (method_to_mask m) (set hs (method_index m) (some h)) ≡ some h
  handler_for-set m h hs k l =
      let (a, b, c, d, e, same) = Five-cases hs l in
      ap (λ x. handler_for (method_to_mask m) (set x (method_index m) (some h))) same
      ∙ handler_for-five m h a b c d e k

  -- The child that `findOrCreate` gives fits the key, whether it was there or not.
  update_child-AnyChild :
      (key : Text) (is_param : Bool) (f : Node H → Node H) (P : Node H → Type 0) (cs : Children H)
      → FiveChildren cs
      → ((c : Node H)
          → FiveNode c
          → is_child key is_param c ≡ true
          → (is_child key is_param (f c) ≡ true) × P (f c))
      → AnyChild (λ c. (is_child key is_param c ≡ true) × P c) (update_child key is_param f cs)
  unfolding update_child FiveNode
  update_child-AnyChild key is_param f P nil v g = inl (
      g (node key is_param (if is_param then key else []) (no_handlers H) nil) (refl, tt)
        (self is_param))
    where
      self :
          (q : Bool)
          → is_child key q (node key q (if q then key else []) (no_handlers H) nil) ≡ true
      self true = text_eq_refl key
      self false = text_eq_refl key
  update_child-AnyChild key is_param f P (cons c cs) (v, vs) g =
      elim (Bool-cases (is_child key is_param c)) [
        | inl t ↦ rw t (inl (g c v t))
        | inr t ↦ rw t (inr (update_child-AnyChild key is_param f P cs vs g))
      ]

  is_child-insert :
      (k : Text) (q : Bool) (segs : List Text) (idx : ℕ) (h : Option H) (n : Node H)
      → is_child k q (insert segs idx h n) ≡ is_child k q n
  unfolding insert
  is_child-insert k q [] idx h (node s p name hs cs) = refl
  is_child-insert k q (seg ∷ segs) idx h (node s p name hs cs) = refl

  is_child-set_param_name :
      (k : Text) (q : Bool) (key : Text) (is_param : Bool) (n : Node H)
      → is_child k q (set_param_name key is_param n) ≡ is_child k q n
  is_child-set_param_name k q key true (node s p name hs cs) = refl
  is_child-set_param_name k q key false n = refl

  set_param_name-Five :
      (key : Text) (is_param : Bool) (n : Node H)
      → FiveNode n
      → FiveNode (set_param_name key is_param n)
  unfolding FiveNode
  set_param_name-Five key true (node s p name hs cs) v = v
  set_param_name-Five key false n v = v

  update_child-Five :
      (key : Text) (is_param : Bool) (f : Node H → Node H) (cs : Children H)
      → ((c : Node H) → FiveNode c → FiveNode (f c))
      → FiveChildren cs
      → FiveChildren (update_child key is_param f cs)
  unfolding FiveNode update_child
  update_child-Five key is_param f nil g v =
      (g (node key is_param (if is_param then key else []) (no_handlers H) nil) (refl, tt), tt)
  update_child-Five key is_param f (cons c cs) g (v, vs) =
      elim (Bool-cases (is_child key is_param c)) [
        | inl t ↦ rw t (g c v, vs)
        | inr t ↦ rw t (v, update_child-Five key is_param f cs g vs)
      ]

  -- Adding a route keeps the arrays.
  pub insert-Five :
      (segs : List Text) (idx : ℕ) (h : Option H) (n : Node H)
      → FiveNode n
      → FiveNode (insert segs idx h n)
  unfolding insert FiveNode
  insert-Five [] idx h (node s p name hs cs) v = (length-set hs idx h ∙ v.0, v.1)
  insert-Five (seg ∷ segs) idx h (node s p name hs cs) v =
      let (key, is_param) = node_key seg in
      (
        v.0,
        update_child-Five key is_param (λ c. insert segs idx h (set_param_name key is_param c)) cs
            (λ c w.
              insert-Five segs idx h (set_param_name key is_param c)
                (set_param_name-Five key is_param c w))
            v.1,
      )

  fits_child :
      (key : Text) (is_param : Bool) (s : Text) (c : Node H)
      → ((is_param ≡ true) ⊎ ((is_param ≡ false) × (key ≡ s)))
      → is_child key is_param c ≡ true
      → (is_child s false c ≡ true) ⊎ (is_param_node c ≡ true)
  fits_child key true s (node k true name hs cs) h t = inr refl
  fits_child key true s (node k false name hs cs) h t = cc
  fits_child key false s (node k p name hs cs) (inl e) t = cc
  fits_child key false s (node k p name hs cs) (inr (_, e)) t = inl (rw (← e) t)

  -- After a pattern was added, the tree accepts every request that fits it.
  pub insert-Accepts :
      (m : HttpMethod) (h : H) (pat segs : List Text) (n : Node H)
      → IsRoutable m
      → FiveNode n
      → MatchesPattern pat segs
      → Accepts segs (method_to_mask m) (insert pat (method_index m) (some h) n)
  unfolding insert
  insert-Accepts m h [] [] (node s p name hs cs) k v fit =
      unfold FiveNode in ap is_some (handler_for-set m h hs k v.0)
  insert-Accepts m h [] (_ ∷ _) n k v fit = absurd fit
  insert-Accepts m h (_ ∷ _) [] n k v fit = absurd fit
  insert-Accepts m h (q ∷ pat) (seg ∷ segs) (node s p name hs cs) k v (here, fit) =
      AnyChild-imp _ _ _ (λ c f. (fits_child key is_param seg c here f.0, f.1))
        (update_child-AnyChild key is_param below (Accepts segs (method_to_mask m)) cs
          (unfold FiveNode in v.1)
          (λ c w t. (
            is_child-insert key is_param pat (method_index m) (some h)
                  (set_param_name key is_param c)
                ∙ is_child-set_param_name key is_param key is_param c
                ∙ t,
            insert-Accepts m h pat segs (set_param_name key is_param c) k
                (set_param_name-Five key is_param c w) fit,
          )))
    where
      key : Text
      key = (node_key q).0

      is_param : Bool
      is_param = (node_key q).1

      below : Node H → Node H
      below c = insert pat (method_index m) (some h) (set_param_name key is_param c)
