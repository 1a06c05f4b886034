-- ===== src/Pipeline/Manage.antt =====
-- How handlers are added, replaced and removed: the new pipeline, and the calls that are made.
use xnetty.Prelude.{
  ℕ, ◌+◌, ◌-◌, List, [], ◌∷◌, ◌++◌, Bool, true, false, Option, none, some, if◌then◌else◌, length,
  take, drop, get_elem?,
}
use xnetty.Prelude.Text.{Text, text_eq}
use xnetty.Pipeline.{HandlerEntry, ChannelPipeline, Lifecycle, attached, added, removed}

abbrev pub next : Option ℕ → Option ℕ
next none = none
next (some i) = some (i + 1)

module _ {H : Type 0} where
  abbrev pub set_index : ℕ → HandlerEntry H → HandlerEntry H
  set_index i e = record e { ctx = record e.ctx { index = i } }

  -- The loop `handlers[i].ctx->setIndex(i)`, over the entries from position `i` on.
  unfoldable pub set_indices : ℕ → List (HandlerEntry H) → List (HandlerEntry H)
  set_indices i [] = []
  set_indices i (e ∷ entries) = set_index i e ∷ set_indices (i + 1) entries

  -- The position of the first entry of this name.
  unfoldable pub find_name : Text → ChannelPipeline H → Option ℕ
  find_name name [] = none
  find_name name (e ∷ entries) =
      if text_eq e.name name then some 0 else next (find_name name entries)

  -- `callHandlerAdded`
  abbrev pub call_added : Option (HandlerEntry H) → List (Lifecycle H)
  call_added none = []
  call_added (some e) = added e.handler ∷ []

  -- The entries that are passed before the one that is replaced stay as they are.
  abbrev pub behind :
      HandlerEntry H
      → ChannelPipeline H × List (Lifecycle H)
      → ChannelPipeline H × List (Lifecycle H)
  behind e (p, calls) = (e ∷ p, calls)

  -- The loop of `remove`, from position `i` on; the entries behind the one that goes move up.
  unfoldable pub remove_from : ℕ → Text → ChannelPipeline H → ChannelPipeline H × List (Lifecycle H)
  remove_from i name [] = ([], [])
  remove_from i name (e ∷ entries) =
      if text_eq e.name name
      then (set_indices i entries, removed e.handler ∷ [])
      else behind e (remove_from (i + 1) name entries)

  unfoldable pub remove : Text → ChannelPipeline H → ChannelPipeline H × List (Lifecycle H)
  remove name p = remove_from 0 name p

  unfoldable pub removed_all : ChannelPipeline H → List (Lifecycle H)
  removed_all [] = []
  removed_all (e ∷ entries) = removed e.handler ∷ removed_all entries

  unfoldable pub clear : ChannelPipeline H → ChannelPipeline H × List (Lifecycle H)
  clear p = ([], removed_all p)

  -- `setContext`
  unfoldable pub set_context : ChannelPipeline H → ChannelPipeline H
  set_context [] = []
  set_context (e ∷ entries) = record e { ctx = record e.ctx { bound = true } } ∷ set_context entries

module _ {H : Type 0} (is_inbound is_outbound : H → Bool) where
  abbrev pub new_entry : ℕ → Text → H → HandlerEntry H
  new_entry index name handler = record {
    name = name;
    handler = handler;
    inbound = is_inbound handler;
    outbound = is_outbound handler;
    ctx = record { index = index; name = name; handler = handler; removed = false; bound = false };
  }

  unfoldable pub add_entry : ChannelPipeline H → ℕ → Text → H → ChannelPipeline H
  add_entry p index name handler =
      take index p ++ (new_entry index name handler ∷ set_indices (index + 1) (drop index p))

  unfoldable pub add_first : Text → H → ChannelPipeline H → ChannelPipeline H × List (Lifecycle H)
  add_first name handler p =
      let p' = add_entry p 0 name handler in (p', attached handler ∷ call_added (get_elem? p' 0))

  unfoldable pub add_last : Text → H → ChannelPipeline H → ChannelPipeline H × List (Lifecycle H)
  add_last name handler p =
      let p' = add_entry p (length p) name handler in
      (p', attached handler ∷ call_added (get_elem? p' (length p' - 1)))

  abbrev pub add_at :
      Option ℕ → Text → H → ChannelPipeline H → ChannelPipeline H × List (Lifecycle H)
  add_at none name handler p = (p, [])
  add_at (some i) name handler p =
      let p' = add_entry p i name handler in (p', call_added (get_elem? p' i))

  unfoldable pub add_before :
      Text → Text → H → ChannelPipeline H → ChannelPipeline H × List (Lifecycle H)
  add_before base name handler p = add_at (find_name base p) name handler p

  unfoldable pub add_after :
      Text → Text → H → ChannelPipeline H → ChannelPipeline H × List (Lifecycle H)
  add_after base name handler p = add_at (next (find_name base p)) name handler p

  -- `setRemoved(true)` is undone by `setRemoved(false)` before any other function is called.
  abbrev pub replaced : Text → H → HandlerEntry H → HandlerEntry H
  replaced name handler e = record {
    name = name;
    handler = handler;
    inbound = is_inbound handler;
    outbound = is_outbound handler;
    ctx = record e.ctx { name = name; handler = handler; removed = false };
  }

  unfoldable pub replace :
      Text → Text → H → ChannelPipeline H → ChannelPipeline H × List (Lifecycle H)
  replace old name handler [] = ([], [])
  replace old name handler (e ∷ entries) =
      if text_eq e.name old
      then (
        replaced name handler e ∷ entries,
        removed e.handler ∷ attached handler ∷ added handler ∷ [],
      )
      else behind e (replace old name handler entries)

-- The operations on the list, as the functions of the class are called.
pub data Command (H : Type 0) : Type 0 where
  first last : Text → H → Command H
  before after swap_for : Text → Text → H → Command H
  remove_name : Text → Command H
  clear_all bind : Command H

module _ {H : Type 0} (is_inbound is_outbound : H → Bool) where
  unfoldable pub run : Command H → ChannelPipeline H → ChannelPipeline H × List (Lifecycle H)
  run (first name handler) p = add_first is_inbound is_outbound name handler p
  run (last name handler) p = add_last is_inbound is_outbound name handler p
  run (before base name handler) p = add_before is_inbound is_outbound base name handler p
  run (after base name handler) p = add_after is_inbound is_outbound base name handler p
  run (swap_for old name handler) p = replace is_inbound is_outbound old name handler p
  run (remove_name name) p = remove name p
  run clear_all p = clear p
  run bind p = (set_context p, [])
