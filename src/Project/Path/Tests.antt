-- ===== src/Project/Path/Tests.antt =====
-- Paths on small inputs.
use syncode.Base.{
  ◌⊎◌, ◌++◌, ◌≤◌, ◌≡◌, refl, true, false, none, some, [], ◌∷◌, JsString, units, any, length, str_eq,
}
use syncode.Base.Assoc.{includes}
use syncode.Crdt.Tree.Op.{RoomEntry}
use syncode.Project.Ignore.{get_ignored_directory_path, find_index, is_ignored_segment}
use syncode.Project.Ignore.First.{EndsIgnored, get_ignored_directory_path_lem}
use syncode.Project.Path.{
  slash, starts_with, split, join, normalize_import_path, is_shared_project_path, is_unsafe_segment,
  is_dot_segment, contains_control_character, has_control_character, extension_of, last_index_of,
}
use syncode.Project.Path.Safe.{
  is_path_unit, normalize_import_path_lem, is_shared_project_path-normalize,
}
use syncode.Project.Entry.{path_from, path_fuel, has_ended, path_fuel_lem}

-- What a run on paths unfolds.
paths : Unit {0}
unfolding split join normalize_import_path is_shared_project_path is_unsafe_segment
    contains_control_character has_control_character extension_of last_index_of str_eq includes
paths = tt

-- `toLowerCase` on a text without capitals.
abbrev same_text : JsString → JsString
same_text s = s

abbrev main_file : JsString
main_file = units "src/main.c"

run_tests_paths :
    (normalize_import_path (units "src/../main.c") ≡ none)
    × (is_shared_project_path same_text (units "src/main.o") ≡ false)
    × (is_shared_project_path same_text (units "bin/main.c") ≡ false)
unfolding paths
run_tests_paths = (refl, refl, refl)

normalize_import_path_lem_example :
    (main_file ≡ main_file)
    × (any is_path_unit main_file ≡ false)
    × (any is_dot_segment (split main_file) ≡ false)
    × (length main_file ≤ 512)
unfolding paths
normalize_import_path_lem_example = normalize_import_path_lem main_file main_file refl

is_shared_project_path-normalize_example : normalize_import_path main_file ≡ some main_file
unfolding paths
is_shared_project_path-normalize_example =
    is_shared_project_path-normalize same_text main_file refl refl

abbrev folder : RoomEntry
folder = record {
  id = units "d";
  name = units "src";
  parent_id = some (units "d");
  is_folder = true;
}

path_fuel_lem_example :
    has_ended
      (path_from (path_fuel (folder ∷ [])) (folder ∷ []) (folder.id ∷ []) folder.parent_id [])
    ≡ true
path_fuel_lem_example = path_fuel_lem folder (folder ∷ []) []

abbrev ignored_file : JsString
ignored_file = units "src/dist/a/build/b.js"

run_tests_ignored : get_ignored_directory_path same_text ignored_file ≡ some (units "src/dist")
unfolding paths get_ignored_directory_path find_index
run_tests_ignored = refl

get_ignored_directory_path_lem_example :
    ((get_ignored_directory_path same_text ignored_file ≡ none)
      × (any (is_ignored_segment same_text) (split ignored_file) ≡ false))
    ⊎ ((ignored : JsString) × (rest : JsString) × (get_ignored_directory_path same_text ignored_file
          ≡ some ignored)
        × EndsIgnored same_text ignored_file ignored
        × (ignored_file ≡ ignored ++ rest)
        × ((rest ≡ []) ⊎ (starts_with slash rest ≡ true)))
get_ignored_directory_path_lem_example = get_ignored_directory_path_lem same_text ignored_file
