-- ===== src/Project/Import/Tests.antt =====
-- A folder with a source file, the same file again, and a picture.
use syncode.Base.{
  ◌≤◌, ◌≡◌, refl, true, some, none, inl, inr, List, [], ◌∷◌, JsString, units, decimal,
  decimal_digits, length, map, str_eq, All,
}
use syncode.Base.Assoc.{includes}
use syncode.Base.Counting.{times}
use syncode.Crdt.Document.{to_snapshot, from_text, code_points, push_values}
use syncode.Project.Path.{
  normalize_import_path, split, join, last_index_of, contains_control_character, is_unsafe_segment,
}
use syncode.Project.Ignore.{
  find_index, get_ignored_directory_path, get_import_ignore_reason, get_ignored_directory_reason,
  get_ignored_sensitive_file_reason, get_ignored_binary_file_reason,
}
use syncode.Project.Import.{
  max_import_total_bytes, max_import_file_count, LocalFile, FolderFileSource, ImportedFileContent,
  SkippedFile, ImportFileCandidate, ImportSnapshot, Platform, unreadable_file, read_all,
  validate_text_file, inspect_source, inspect_sources, inspect_folder_files,
  read_selected_import_files, validate_project_import_totals, create_import_snapshot, prepare_files,
  prepare_project_import,
}
use syncode.Project.Import.Offered.{IsOffered, path_keys, inspect_folder_files-IsOffered}
use syncode.Crdt.Compression.{compress_crdt_snapshot}
use syncode.Project.Import.Selected.{chosen, selected_of, Reads, read_selected_import_files-Reads}
use syncode.Project.Import.Limits.{
  content_bytes_of, snapshot_keys, safe_paths, snapshot_paths, prepare_project_import-limits,
}

abbrev same_case : JsString → JsString
same_case s = s

abbrev small_file : LocalFile
small_file = record { size = 1; bytes = some (120 ∷ []) }

abbrev source : JsString → FolderFileSource
source path = record { path = path; file = small_file }

abbrev folder : List FolderFileSource
folder = source (units "a.c") ∷ source (units "a.c") ∷ source (units "b.png") ∷ []

abbrev offered : List ImportFileCandidate
offered = (inspect_folder_files same_case (λ bytes. true) folder []).candidates

abbrev contents : List ImportedFileContent
contents = record { path = units "a.c"; content = units "x" } ∷ []

abbrev platform : Platform
platform = record {
  lower = same_case;
  stringify = λ snapshot. units "{}";
  compression = record {
    has_compression_stream = true;
    byte_length = length;
    gzip = λ text. some (units "z");
  };
  random_id = decimal;
}

abbrev snapshots : List ImportSnapshot
snapshots =
    record { path = units "a.c"; id = units "0"; compressed_snapshot = units "gzip:v1:z" } ∷ []

-- What a run of an import unfolds.
import_run : Unit {0}
unfolding normalize_import_path split join last_index_of contains_control_character
    is_unsafe_segment find_index get_ignored_directory_path get_import_ignore_reason
    get_ignored_directory_reason get_ignored_sensitive_file_reason get_ignored_binary_file_reason
    validate_text_file inspect_source inspect_sources inspect_folder_files
    read_selected_import_files validate_project_import_totals create_import_snapshot prepare_files
    prepare_project_import read_all compress_crdt_snapshot includes str_eq to_snapshot from_text
    code_points push_values decimal decimal_digits
import_run = tt

run_tests_import :
    (map (λ (c : ImportFileCandidate). c.path) offered ≡ units "a.c" ∷ [])
    × (map
          (λ (s : SkippedFile). s.reason)
          (inspect_folder_files same_case (λ bytes. true) folder []).skipped
        ≡ units "Duplicate path" ∷ units "Binary file" ∷ [])
    × (prepare_project_import platform (units "s") contents ≡ inr snapshots)
unfolding import_run
run_tests_import = (refl, refl, refl)

inspect_folder_files-IsOffered_example :
    (length offered ≤ max_import_file_count)
    × All (IsOffered same_case (λ bytes. true)) offered
    × ((x : JsString) → times x (path_keys same_case (λ bytes. true) offered) ≤ 1)
inspect_folder_files-IsOffered_example =
    inspect_folder_files-IsOffered same_case (λ bytes. true) folder []

abbrev choice : List ImportFileCandidate
choice = chosen (λ c. true) offered

run_tests_read :
    (read_selected_import_files (λ file. some (units "x")) choice ≡ inr contents)
    × (read_selected_import_files (λ file. none) choice ≡ inl unreadable_file)
unfolding import_run
run_tests_read = (refl, refl)

read_selected_import_files-Reads_example :
    Reads same_case
      (λ bytes. true)
      (λ file. some (units "x"))
      (selected_of choice)
      (read_selected_import_files (λ file. some (units "x")) choice)
read_selected_import_files-Reads_example =
    read_selected_import_files-Reads same_case (λ bytes. true) folder [] (λ c. true)
      (λ file. some (units "x"))

prepare_project_import-limits_example :
    (1 ≤ length contents)
    × (length contents ≤ max_import_file_count)
    × (content_bytes_of platform (units "s") contents ≤ max_import_total_bytes)
    × (snapshot_paths platform (units "s") snapshots ≡ safe_paths platform (units "s") contents)
    × ((x : JsString) → times x (snapshot_keys platform (units "s") snapshots) ≤ 1)
unfolding import_run
prepare_project_import-limits_example =
    prepare_project_import-limits platform (units "s") contents snapshots refl
