-- ===== src/Pipeline/Tests.antt =====
-- Runs of a pipeline, and its theorems at concrete inputs.
use xnetty.Prelude.{ℕ, ◌≡◌, refl, Bool, not, [], ◌∷◌, ◌==◌, arith}
use xnetty.Prelude.Text.{Text, codes, text_eq}
use xnetty.Pipeline.{HandlerEntry, ChannelPipeline, added}
use xnetty.Pipeline.Manage.{
  set_indices, find_name, add_entry, add_first, add_last, add_before, add_after, replace,
  remove_from, remove, clear, removed_all, set_context, before, after, remove_name, run, new_entry,
}
use xnetty.Pipeline.Indices.{AreEntries, run-AreEntries}
use xnetty.Pipeline.Views.{
  view, effect, insert_before, insert_after, replace_first, remove_first, run-effect,
}
use xnetty.Pipeline.Chains.{NoneBefore}

all_open : Unit {0}
unfolding text_eq set_indices find_name add_entry add_first add_last add_before add_after replace
    remove_from remove clear removed_all set_context run view insert_before insert_after
    replace_first remove_first
all_open = tt

-- 1 takes what is read, 2 takes what is written, and 3 takes both.
abbrev is_in : ℕ → Bool
is_in h = not (h == 2)

abbrev is_out : ℕ → Bool
is_out h = not (h == 1)

abbrev entry : ℕ → Text → ℕ → HandlerEntry ℕ
entry i name h = new_entry is_in is_out i name h

abbrev two : ChannelPipeline ℕ
two = entry 0 (codes "codec") 3 ∷ entry 1 (codes "app") 1 ∷ []

abbrev three : ChannelPipeline ℕ
three = entry 0 (codes "codec") 3 ∷ entry 1 (codes "zip") 2 ∷ entry 2 (codes "app") 1 ∷ []

two_valid : AreEntries is_in is_out 0 two
two_valid = (
  record {
    index = refl;
    same_handler = refl;
    same_name = refl;
    in_list = refl;
    inbound_kind = refl;
    outbound_kind = refl;
  },
  (
    record {
      index = refl;
      same_handler = refl;
      same_name = refl;
      in_list = refl;
      inbound_kind = refl;
      outbound_kind = refl;
    },
    tt,
  ),
)

put_between : run is_in is_out (before (codes "app") (codes "zip") 2) two ≡ (three, added 2 ∷ [])
unfolding all_open
put_between = refl

taken_out : (run is_in is_out (remove_name (codes "zip")) three).0 ≡ two
unfolding all_open
taken_out = refl

run-AreEntries_example :
    AreEntries is_in is_out 0 (run is_in is_out (before (codes "app") (codes "zip") 2) two).0
run-AreEntries_example =
    run-AreEntries is_in is_out (before (codes "app") (codes "zip") 2) two two_valid

run-effect_example :
    view (run is_in is_out (after (codes "codec") (codes "zip") 2) two).0
    ≡ effect (after (codes "codec") (codes "zip") 2) (view two)
run-effect_example = run-effect is_in is_out (after (codes "codec") (codes "zip") 2) two

-- A pipeline whose first handler only reads.
abbrev readers : ChannelPipeline ℕ
readers = entry 0 (codes "log") 1 ∷ entry 1 (codes "app") 1 ∷ []

readers_below : NoneBefore 1 readers
readers_below ℕ.zero h = (entry 0 (codes "log") 1, refl, refl)
readers_below (ℕ.suc j) h = absurd (omega arith)
