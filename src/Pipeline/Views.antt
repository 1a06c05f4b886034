-- ===== src/Pipeline/Views.antt =====
-- The pipeline as a list of named handlers, and the operations as list operations.
use xnetty.Prelude.{
  ℕ, zero, suc, ◌+◌, ◌≡◌, refl, ap, ap₂, ◌∙◌, inl, inr, List, [], ◌∷◌, ◌++◌, Bool, Option, none,
  some, if◌then◌else◌, length, take, drop, arith, Bool-cases,
}
use xnetty.Prelude.Slices.{take-all, drop-all}
use xnetty.Prelude.Text.{Text, text_eq}
use xnetty.Pipeline.{ChannelPipeline}
use xnetty.Pipeline.Manage.{
  set_indices, find_name, add_entry, new_entry, add_at, next, add_first, add_last, add_before,
  add_after, replace, remove_from, remove, clear, set_context, Command, first, last, before, after,
  swap_for, remove_name, clear_all, bind, run,
}

module _ {H : Type 0} where
  -- What a caller sees of the pipeline: the handlers and their names, in order.
  unfoldable pub view : ChannelPipeline H → List (Text × H)
  view [] = []
  view (e ∷ p) = (e.name, e.handler) ∷ view p

  unfoldable pub insert_before : Text → (Text × H) → List (Text × H) → List (Text × H)
  insert_before base x [] = []
  insert_before base x (y ∷ ys) =
      if text_eq y.0 base then x ∷ y ∷ ys else y ∷ insert_before base x ys

  unfoldable pub insert_after : Text → (Text × H) → List (Text × H) → List (Text × H)
  insert_after base x [] = []
  insert_after base x (y ∷ ys) = if text_eq y.0 base then y ∷ x ∷ ys else y ∷ insert_after base x ys

  unfoldable pub replace_first : Text → (Text × H) → List (Text × H) → List (Text × H)
  replace_first old x [] = []
  replace_first old x (y ∷ ys) = if text_eq y.0 old then x ∷ ys else y ∷ replace_first old x ys

  unfoldable pub remove_first : Text → List (Text × H) → List (Text × H)
  remove_first name [] = []
  remove_first name (y ∷ ys) = if text_eq y.0 name then ys else y ∷ remove_first name ys

  -- What each operation promises.
  abbrev pub effect : Command H → List (Text × H) → List (Text × H)
  effect (first name handler) v = (name, handler) ∷ v
  effect (last name handler) v = v ++ ((name, handler) ∷ [])
  effect (before base name handler) v = insert_before base (name, handler) v
  effect (after base name handler) v = insert_after base (name, handler) v
  effect (swap_for old name handler) v = replace_first old (name, handler) v
  effect (remove_name name) v = remove_first name v
  effect clear_all v = []
  effect bind v = v

  view-append : (xs ys : ChannelPipeline H) → view (xs ++ ys) ≡ view xs ++ view ys
  unfolding view
  view-append [] ys = refl
  view-append (e ∷ xs) ys = ap (λ l. (e.name, e.handler) ∷ l) (view-append xs ys)

  view-take : (n : ℕ) (p : ChannelPipeline H) → view (take n p) ≡ take n (view p)
  unfolding view
  view-take zero p = refl
  view-take (suc n) [] = refl
  view-take (suc n) (e ∷ p) = ap (λ l. (e.name, e.handler) ∷ l) (view-take n p)

  view-drop : (n : ℕ) (p : ChannelPipeline H) → view (drop n p) ≡ drop n (view p)
  unfolding view
  view-drop zero p = refl
  view-drop (suc n) [] = refl
  view-drop (suc n) (e ∷ p) = view-drop n p

  length-view : (p : ChannelPipeline H) → length (view p) ≡ length p
  unfolding view
  length-view [] = refl
  length-view (e ∷ p) = ap suc (length-view p)

  view-set_indices : (i : ℕ) (p : ChannelPipeline H) → view (set_indices i p) ≡ view p
  unfolding view set_indices
  view-set_indices i [] = refl
  view-set_indices i (e ∷ p) = ap (λ l. (e.name, e.handler) ∷ l) (view-set_indices (i + 1) p)

  view-set_context : (p : ChannelPipeline H) → view (set_context p) ≡ view p
  unfolding view set_context
  view-set_context [] = refl
  view-set_context (e ∷ p) = ap (λ l. (e.name, e.handler) ∷ l) (view-set_context p)

  -- An item put at a position, if there is one.
  abbrev put_at : Option ℕ → (Text × H) → List (Text × H) → List (Text × H)
  put_at none x v = v
  put_at (some i) x v = take i v ++ (x ∷ drop i v)

  put_at-next :
      (o : Option ℕ) (x y : Text × H) (v : List (Text × H))
      → put_at (next o) x (y ∷ v) ≡ y ∷ put_at o x v
  put_at-next none x y v = refl
  put_at-next (some i) x y v = let e : i + 1 ≡ suc i = omega arith in rw e refl

  put_at-before :
      (base : Text) (x : Text × H) (p : ChannelPipeline H)
      → put_at (find_name base p) x (view p) ≡ insert_before base x (view p)
  unfolding view insert_before find_name
  put_at-before base x [] = refl
  put_at-before base x (e ∷ p) = elim (Bool-cases (text_eq e.name base)) [
    | inl t ↦ rw t refl
    | inr t ↦ rw t (
        put_at-next (find_name base p) x (e.name, e.handler) (view p)
        ∙ ap (λ l. (e.name, e.handler) ∷ l) (put_at-before base x p))
  ]

  put_at-after :
      (base : Text) (x : Text × H) (p : ChannelPipeline H)
      → put_at (next (find_name base p)) x (view p) ≡ insert_after base x (view p)
  unfolding view insert_after find_name
  put_at-after base x [] = refl
  put_at-after base x (e ∷ p) = elim (Bool-cases (text_eq e.name base)) [
    | inl t ↦ let one : 0 + 1 ≡ suc zero = omega arith in rw t refl
    | inr t ↦ rw t (
        put_at-next (next (find_name base p)) x (e.name, e.handler) (view p)
        ∙ ap (λ l. (e.name, e.handler) ∷ l) (put_at-after base x p))
  ]

  view-remove_from :
      (i : ℕ) (name : Text) (p : ChannelPipeline H)
      → view (remove_from i name p).0 ≡ remove_first name (view p)
  unfolding view remove_first remove_from
  view-remove_from i name [] = refl
  view-remove_from i name (e ∷ p) = elim (Bool-cases (text_eq e.name name)) [
    | inl t ↦ rw t (view-set_indices i p)
    | inr t ↦ rw t (ap (λ l. (e.name, e.handler) ∷ l) (view-remove_from (i + 1) name p))
  ]

module _ {H : Type 0} (is_inbound is_outbound : H → Bool) where
  view-add_entry :
      (p : ChannelPipeline H) (i : ℕ) (name : Text) (handler : H)
      → view (add_entry is_inbound is_outbound p i name handler)
        ≡ put_at (some i) (name, handler) (view p)
  unfolding add_entry view
  view-add_entry p i name handler =
      view-append (take i p)
        (new_entry is_inbound is_outbound i name handler ∷ set_indices (i + 1) (drop i p))
      ∙ ap₂ (λ a b. a ++ ((name, handler) ∷ b)) (view-take i p)
          (view-set_indices (i + 1) (drop i p) ∙ view-drop i p)

  view-add_at :
      (o : Option ℕ) (name : Text) (handler : H) (p : ChannelPipeline H)
      → view (add_at is_inbound is_outbound o name handler p).0 ≡ put_at o (name, handler) (view p)
  view-add_at none name handler p = refl
  view-add_at (some i) name handler p = view-add_entry p i name handler

  view-replace :
      (old name : Text) (handler : H) (p : ChannelPipeline H)
      → view (replace is_inbound is_outbound old name handler p).0
        ≡ replace_first old (name, handler) (view p)
  unfolding view replace_first replace
  view-replace old name handler [] = refl
  view-replace old name handler (e ∷ p) = elim (Bool-cases (text_eq e.name old)) [
    | inl t ↦ rw t refl
    | inr t ↦ rw t (ap (λ l. (e.name, e.handler) ∷ l) (view-replace old name handler p))
  ]

  -- Each operation does to the list of named handlers what it promises: it adds at either end, or
  -- next to the first handler of a name, puts one in the place of the first of a name, or removes
  -- that; where no handler has the name, nothing changes.
  pub run-effect :
      (c : Command H) (p : ChannelPipeline H)
      → view (run is_inbound is_outbound c p).0 ≡ effect c (view p)
  unfolding run add_first add_last add_before add_after remove clear view
  run-effect (first name handler) p = view-add_entry p 0 name handler
  run-effect (last name handler) p =
      view-add_entry p (length p) name handler
      ∙ ap₂ (λ a b. a ++ ((name, handler) ∷ b))
          (take-all (length p) (view p) (omega (arith, length-view p)))
          (drop-all (length p) (view p) (omega (arith, length-view p)))
  run-effect (before base name handler) p =
      view-add_at (find_name base p) name handler p ∙ put_at-before base (name, handler) p
  run-effect (after base name handler) p =
      view-add_at (next (find_name base p)) name handler p ∙ put_at-after base (name, handler) p
  run-effect (swap_for old name handler) p = view-replace old name handler p
  run-effect (remove_name name) p = view-remove_from 0 name p
  run-effect clear_all p = refl
  run-effect bind p = view-set_context p
