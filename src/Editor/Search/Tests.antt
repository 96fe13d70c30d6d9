-- ===== src/Editor/Search/Tests.antt =====
-- A search for one letter, in a workspace of two files in a folder.
use syncode.Base.{
  ℕ, suc, ◌≤◌, ◌==◌, ◌≡◌, refl, true, false, Option, none, some, List, [], ◌∷◌, arith, JsString,
  units, str_eq, take, map, filter_by, trim, trim_start, trim_end, if◌then◌else◌,
}
use syncode.Crdt.Tree.Op.{RoomEntry}
use syncode.Project.Path.{join, last_index_of}
use syncode.Project.Entry.{find_folder, get_project_entry_path, path_from}
use syncode.Base.Assoc.{includes}
use syncode.Base.Counting.{times}
use syncode.Editor.Layout.{entry_path_from, get_entry_path, get_entry_path-get_project_entry_path}
use syncode.Editor.Search.{
  max_search_matches, SearchOptions, SearchMatch, RegExps, RegExpMatch, create_search_pattern,
  match_at, escape_regexp, split_lines, join_lines, search_line, search_lines, search_entries,
  find_workspace_matches, parts_from, highlight_search_line, preserve_case, replace_all_in_text,
  replace_in_line, replace_match_in_text, add_search_match, group_from, group_search_matches,
}
use syncode.Editor.Search.Found.{all_matches, find_workspace_matches-take}
use syncode.Editor.Search.Parts.{parts_text, marked, match_texts, highlight_search_line-text}
use syncode.Editor.Search.Grouped.{group_ids, matches_of, in_file, group_search_matches-filter}

-- The places of a letter.
abbrev letter_matches : ℕ → ℕ → JsString → List RegExpMatch
letter_matches i k [] = []
letter_matches i k (c ∷ s) =
    let rest = letter_matches (suc i) k s in
    if c == k then record { index = i; text = c ∷ [] } ∷ rest else rest

-- Regular expressions of a single letter.
abbrev first_unit : JsString → Option ℕ
first_unit [] = none
first_unit (c ∷ s) = some c

abbrev letters : RegExps ℕ
letters = record {
  new_regexp = λ source flags. first_unit source;
  match_all = letter_matches 0;
  replace = λ k value s. s;
  replace_with = λ k value s. s;
  upper = λ s. s;
  lower = λ s. s;
}

abbrev plain : SearchOptions
plain = record { match_case = true; whole_word = false; is_regex = false; preserve_case = false }

abbrev folder : RoomEntry
folder = record { id = units "d"; name = units "src"; parent_id = none; is_folder = true }

abbrev file : RoomEntry
file = record {
  id = units "f";
  name = units "a.c";
  parent_id = some (units "d");
  is_folder = false;
}

abbrev entries : List RoomEntry
entries = folder ∷ file ∷ []

abbrev content : JsString → JsString
content id = units "xax"

-- What a run of the search unfolds.
search_run : Unit {0}
unfolding create_search_pattern escape_regexp split_lines join_lines search_line search_lines
    search_entries find_workspace_matches parts_from highlight_search_line preserve_case
    replace_all_in_text replace_in_line replace_match_in_text add_search_match group_from
    group_search_matches trim trim_start trim_end entry_path_from get_entry_path join last_index_of
    find_folder get_project_entry_path path_from includes str_eq
search_run = tt

abbrev found : List SearchMatch
found =
    map (match_at (units "f") (units "src/a.c") 1 (units "xax"))
      (letter_matches 0 120 (units "xax"))

-- A folder inside itself.
abbrev looped : List RoomEntry
looped = record folder { parent_id = some (units "d") } ∷ file ∷ []

run_tests_search :
    (find_workspace_matches letters entries (units " x") (some content) plain ≡ some found)
    × (find_workspace_matches letters looped (units " x") (some content) plain ≡ none)
    × (map (λ (m : SearchMatch). m.column) found ≡ 1 ∷ 3 ∷ [])
    × (map (λ (m : SearchMatch). m.path) found ≡ units "src/a.c" ∷ units "src/a.c" ∷ [])
    × (replace_match_in_text letters (units "xax") (units "x") (units "yy") plain 1 3
        ≡ units "xayy")
unfolding search_run
run_tests_search = (refl, refl, refl, refl, refl)

find_workspace_matches-take_example :
    find_workspace_matches letters entries (units " x") (some content) plain
    ≡ some
        (take max_search_matches (all_matches letters 120 content (λ e. units "src/a.c") entries))
unfolding search_run
find_workspace_matches-take_example =
    find_workspace_matches-take letters entries (units " x") content plain 120
      (λ e. units "src/a.c") refl ((λ q. ground arith), ((λ q. refl), tt))

highlight_search_line-text_example :
    (parts_text (highlight_search_line letters (units "xax") (units "x") plain) ≡ units "xax")
    × (marked (highlight_search_line letters (units "xax") (units "x") plain)
        ≡ match_texts (letter_matches 0 120 (units "xax")))
unfolding search_run
highlight_search_line-text_example =
    highlight_search_line-text letters (units "xax") (units "x") plain 120 refl (omega arith)
      (omega arith, refl, (omega arith, refl, omega arith))

group_search_matches-filter_example :
    ((x : JsString) → times x (group_ids (group_search_matches found)) ≤ 1)
    × ((id : JsString) → matches_of id (group_search_matches found) ≡ filter_by (in_file id) found)
group_search_matches-filter_example = group_search_matches-filter found

get_entry_path-get_project_entry_path_example : get_entry_path file entries ≡ some (units "src/a.c")
unfolding search_run
get_entry_path-get_project_entry_path_example =
    get_entry_path-get_project_entry_path file entries (units "src/a.c") refl
