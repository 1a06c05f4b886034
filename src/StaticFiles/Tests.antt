-- ===== src/StaticFiles/Tests.antt =====
-- A small file system, and the theorems at concrete inputs.
use xnetty.Prelude.{
  ◌≡◌, ◌≤◌, ◌⊎◌, refl, [], ◌∷◌, ◌++◌, true, false, none, some, arith, if◌then◌else◌,
}
use xnetty.Prelude.Text.{Text, codes, text_eq}
use xnetty.StaticFiles.{
  Stat, Files, StaticFileHandler, c_str, ends_in_slash, slashed, split_last, begins_with, raw_path,
  resolve, within, sanitize_path, serve, serve_file, serve_path, on_request, create, body_chunks,
  ext_of, last_dot, get_mime_type,
}
use xnetty.StaticFiles.Confined.{on_request-confined, empty_root-opens}

all_open : Unit {0}
unfolding text_eq c_str ends_in_slash slashed split_last begins_with raw_path resolve within
    sanitize_path serve serve_file serve_path on_request create last_dot ext_of get_mime_type
    body_chunks
all_open = tt

abbrev page : Text
page = codes "/www/a.css"

-- The file /www/a.css, and a secret one beside the root.
abbrev files : Files
files = record {
  realpath = λ p.
      if text_eq p (codes "/www/")
      then some (codes "/www")
      else if text_eq p page
      then some page
      else if text_eq p (codes "/www/../etc/key")
      then some (codes "/etc/key")
      else if text_eq p (codes "etc/key")
      then some (codes "/etc/key")
      else none;
  stat = λ p.
      if text_eq p page
      then some (record { is_dir = false; size = 3 })
      else if text_eq p (codes "/etc/key")
      then some (record { is_dir = false; size = 3 })
      else none;
  open_file = λ p. if text_eq p [] then none else some (λ n. (1 ∷ 2 ∷ 3 ∷ []) ∷ [] ∷ []);
}

abbrev handler : StaticFileHandler
handler = record { doc_root = codes "/www/"; real_doc_root = codes "/www/"; max_file_size = 10 }

handler_made : create files (codes "/www") 10 ≡ handler
unfolding all_open
handler_made = refl

page_opened : (on_request files handler (codes "/a.css")).0 ≡ some page
unfolding all_open
page_opened = refl

key_refused : (on_request files handler (codes "/../etc/key")).0 ≡ none
unfolding all_open
key_refused = refl

css_type : get_mime_type (ext_of page) ≡ codes "text/css"
unfolding all_open
css_type = refl

on_request-confined_example :
    (r : Text) × (resolve files (raw_path handler (codes "/a.css")) ≡ some r)
    × (begins_with (codes "/www/") (slashed page) ≡ true)
    × ((page ≡ r) ⊎ (page ≡ r ++ codes "/") ⊎ (page ≡ r ++ codes "/index.html"))
    × ((st : Stat) × (files.stat (c_str page) ≡ some st) × (st.size ≤ 10))
unfolding all_open
on_request-confined_example =
    on_request-confined files handler (codes "/a.css") page (λ e. ground arith) refl refl

empty_root-opens_example :
    (on_request files (create files [] 10) (codes "/etc/key")).0 ≡ some (codes "/etc/key")
unfolding all_open
empty_root-opens_example =
    empty_root-opens files 10 (codes "etc/key") (codes "/etc/key")
      (record { is_dir = false; size = 3 }) (λ n. (1 ∷ 2 ∷ 3 ∷ []) ∷ [] ∷ []) refl refl refl refl
      (omega arith) refl
