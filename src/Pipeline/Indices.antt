-- ===== src/Pipeline/Indices.antt =====
-- Every context knows the position of its entry, after any sequence of operations.
use xnetty.Prelude.{
  ℕ, zero, suc, ◌+◌, ◌≤◌, ◌<◌, ◌≡◌, refl, subst, inl, inr, List, [], ◌∷◌, ◌++◌, Bool, false, Option,
  none, some, length, take, drop, length-take, arith, Bool-cases,
}
use xnetty.Prelude.Text.{Text, text_eq}
use xnetty.Pipeline.{HandlerEntry, ChannelPipeline}
use xnetty.Pipeline.Manage.{
  set_indices, find_name, add_entry, new_entry, add_at, next, add_first, add_last, add_before,
  add_after, replace, remove_from, remove, clear, set_context, Command, first, last, before, after,
  swap_for, remove_name, clear_all, bind, run,
}

module _ {H : Type 0} (is_inbound is_outbound : H → Bool) where
  -- The entry at position `i` agrees with its context and with what its handler is.
  pub record IsEntry (i : ℕ) (e : HandlerEntry H) : Type 0 where
    pub index : e.ctx.index ≡ i
    pub same_handler : e.ctx.handler ≡ e.handler
    pub same_name : e.ctx.name ≡ e.name
    pub in_list : e.ctx.removed ≡ false
    pub inbound_kind : e.inbound ≡ is_inbound e.handler
    pub outbound_kind : e.outbound ≡ is_outbound e.handler

  abbrev pub AreEntries : ℕ → List (HandlerEntry H) → Type 0
  AreEntries i [] = Unit
  AreEntries i (e ∷ entries) = IsEntry i e × AreEntries (i + 1) entries

  pub AreEntries-at :
      (i j : ℕ) (entries : List (HandlerEntry H))
      → i ≡ j
      → AreEntries i entries
      → AreEntries j entries
  AreEntries-at i j entries e v = subst (λ k. AreEntries k entries) e v

  set_indices-AreEntries :
      (i j : ℕ) (entries : List (HandlerEntry H))
      → AreEntries j entries
      → AreEntries i (set_indices i entries)
  unfolding set_indices
  set_indices-AreEntries i j [] v = tt
  set_indices-AreEntries i j (e ∷ entries) v = (
    record {
      index = refl;
      same_handler = v.0.same_handler;
      same_name = v.0.same_name;
      in_list = v.0.in_list;
      inbound_kind = v.0.inbound_kind;
      outbound_kind = v.0.outbound_kind;
    },
    set_indices-AreEntries (i + 1) (j + 1) entries v.1,
  )

  take-AreEntries :
      (n i : ℕ) (entries : List (HandlerEntry H))
      → AreEntries i entries
      → AreEntries i (take n entries)
  take-AreEntries zero i entries v = tt
  take-AreEntries (suc n) i [] v = tt
  take-AreEntries (suc n) i (e ∷ entries) v = (v.0, take-AreEntries n (i + 1) entries v.1)

  pub drop-AreEntries :
      (n i : ℕ) (entries : List (HandlerEntry H))
      → AreEntries i entries
      → AreEntries (i + n) (drop n entries)
  drop-AreEntries zero i entries v = AreEntries-at i (i + 0) entries (omega arith) v
  drop-AreEntries (suc n) i [] v = tt
  drop-AreEntries (suc n) i (e ∷ entries) v =
      AreEntries-at (i + 1 + n) (i + suc n) (drop n entries) (omega arith)
        (drop-AreEntries n (i + 1) entries v.1)

  append-AreEntries :
      (i : ℕ) (xs ys : List (HandlerEntry H))
      → AreEntries i xs
      → AreEntries (i + length xs) ys
      → AreEntries i (xs ++ ys)
  append-AreEntries i [] ys vx vy = AreEntries-at (i + 0) i ys (omega arith) vy
  append-AreEntries i (e ∷ xs) ys vx vy = (
    vx.0,
    append-AreEntries (i + 1) xs ys vx.1 (AreEntries-at _ (i + 1 + length xs) ys (omega arith) vy),
  )

  add_entry-AreEntries :
      (p : ChannelPipeline H) (i : ℕ) (name : Text) (handler : H)
      → AreEntries 0 p
      → i ≤ length p
      → AreEntries 0 (add_entry is_inbound is_outbound p i name handler)
  unfolding add_entry
  add_entry-AreEntries p i name handler v h =
      let l = length-take i p in
      let rest = new_entry is_inbound is_outbound i name handler ∷ set_indices (i + 1) (drop i p) in
      append-AreEntries 0 (take i p) rest (take-AreEntries i 0 p v) (
        AreEntries-at i (0 + length (take i p)) rest (omega arith) (
          record {
            index = refl;
            same_handler = refl;
            same_name = refl;
            in_list = refl;
            inbound_kind = refl;
            outbound_kind = refl;
          },
          set_indices-AreEntries (i + 1) (0 + i) (drop i p) (drop-AreEntries i 0 p v),
        ))

  abbrev IsBelow : ℕ → Option ℕ → Type 0
  IsBelow n none = Unit
  IsBelow n (some i) = i < n

  next-IsBelow : (n : ℕ) (o : Option ℕ) → IsBelow n o → IsBelow (suc n) (next o)
  next-IsBelow n none h = tt
  next-IsBelow n (some i) h = omega arith

  find_name-IsBelow : (name : Text) (p : ChannelPipeline H) → IsBelow (length p) (find_name name p)
  unfolding find_name
  find_name-IsBelow name [] = tt
  find_name-IsBelow name (e ∷ p) = elim (Bool-cases (text_eq e.name name)) [
    | inl t ↦ rw t (omega arith)
    | inr t ↦ rw t (next-IsBelow (length p) (find_name name p) (find_name-IsBelow name p))
  ]

  add_at-AreEntries :
      (o : Option ℕ) (name : Text) (handler : H) (p : ChannelPipeline H)
      → AreEntries 0 p
      → IsBelow (suc (length p)) o
      → AreEntries 0 (add_at is_inbound is_outbound o name handler p).0
  add_at-AreEntries none name handler p v h = v
  add_at-AreEntries (some i) name handler p v h =
      add_entry-AreEntries p i name handler v (omega arith)

  weaken : (n : ℕ) (o : Option ℕ) → IsBelow n o → IsBelow (suc n) o
  weaken n none h = tt
  weaken n (some i) h = omega arith

  replace-AreEntries :
      (i : ℕ) (old name : Text) (handler : H) (p : ChannelPipeline H)
      → AreEntries i p
      → AreEntries i (replace is_inbound is_outbound old name handler p).0
  unfolding replace
  replace-AreEntries i old name handler [] v = tt
  replace-AreEntries i old name handler (e ∷ p) v = elim (Bool-cases (text_eq e.name old)) [
    | inl t ↦ rw t (
      record {
        index = v.0.index;
        same_handler = refl;
        same_name = refl;
        in_list = refl;
        inbound_kind = refl;
        outbound_kind = refl;
      },
      v.1,
    )
    | inr t ↦ rw t (v.0, replace-AreEntries (i + 1) old name handler p v.1)
  ]

  remove_from-AreEntries :
      (i : ℕ) (name : Text) (p : ChannelPipeline H)
      → AreEntries i p
      → AreEntries i (remove_from i name p).0
  unfolding remove_from
  remove_from-AreEntries i name [] v = tt
  remove_from-AreEntries i name (e ∷ p) v = elim (Bool-cases (text_eq e.name name)) [
    | inl t ↦ rw t (set_indices-AreEntries i (i + 1) p v.1)
    | inr t ↦ rw t (v.0, remove_from-AreEntries (i + 1) name p v.1)
  ]

  set_context-AreEntries :
      (i : ℕ) (p : ChannelPipeline H) → AreEntries i p → AreEntries i (set_context p)
  unfolding set_context
  set_context-AreEntries i [] v = tt
  set_context-AreEntries i (e ∷ p) v = (
    record {
      index = v.0.index;
      same_handler = v.0.same_handler;
      same_name = v.0.same_name;
      in_list = v.0.in_list;
      inbound_kind = v.0.inbound_kind;
      outbound_kind = v.0.outbound_kind;
    },
    set_context-AreEntries (i + 1) p v.1,
  )

  -- Whatever is done to the pipeline, each context knows the position of its entry and agrees with it
  -- on the handler and the name, no context of an entry is marked removed, and the entry knows which
  -- kinds of events its handler takes.
  pub run-AreEntries :
      (c : Command H) (p : ChannelPipeline H)
      → AreEntries 0 p
      → AreEntries 0 (run is_inbound is_outbound c p).0
  unfolding run add_first add_last add_before add_after remove clear
  run-AreEntries (first name handler) p v = add_entry-AreEntries p 0 name handler v (omega arith)
  run-AreEntries (last name handler) p v =
      add_entry-AreEntries p (length p) name handler v (omega arith)
  run-AreEntries (before base name handler) p v =
      add_at-AreEntries (find_name base p) name handler p v (weaken _ _ (find_name-IsBelow base p))
  run-AreEntries (after base name handler) p v =
      add_at-AreEntries (next (find_name base p)) name handler p v
        (next-IsBelow _ _ (find_name-IsBelow base p))
  run-AreEntries (swap_for old name handler) p v = replace-AreEntries 0 old name handler p v
  run-AreEntries (remove_name name) p v = remove_from-AreEntries 0 name p v
  run-AreEntries clear_all p v = tt
  run-AreEntries bind p v = set_context-AreEntries 0 p v
