-- ===== src/Project/Import.antt =====
-- import/folderImport.ts: which files of a folder are offered for an import, and what an import may
-- hold. The browser's files and decoders are parameters.
pub mod Offered
pub mod Limits
pub mod Selected
mod Tests
use syncode.Base.{
  ℕ, zero, suc, ◌+◌, ◌*◌, Bool, true, false, ◌||◌, Option, none, some, List, [], ◌∷◌, ◌++◌,
  JsString, units, str_eq, ltb, leb, ◌==◌, if◌then◌else◌, length, take, any, filter_by, map, inl,
  inr, ◌⊎◌,
}
use syncode.Base.Assoc.{includes}
use syncode.Crdt.Document.{CrdtSnapshot, from_text, to_snapshot}
use syncode.Crdt.Compression.{
  CompressionPlatform, CompressionError, Compressed, compress_crdt_snapshot,
}
use syncode.Project.Path.{normalize_import_path}
use syncode.Project.Ignore.{get_ignored_directory_path, get_import_ignore_reason}

abbrev pub max_import_total_bytes : ℕ
max_import_total_bytes = 1048576

abbrev pub max_import_file_count : ℕ
max_import_file_count = 500

abbrev pub max_import_file_bytes : ℕ
max_import_file_bytes = 65536

abbrev pub max_import_file_compressed_bytes : ℕ
max_import_file_compressed_bytes = 1048576

abbrev pub max_import_total_snapshot_bytes : ℕ
max_import_total_snapshot_bytes = 201326592

abbrev pub max_import_total_compressed_bytes : ℕ
max_import_total_compressed_bytes = 10485760

abbrev pub max_scanned_entries : ℕ
max_scanned_entries = 5000

-- A file of the browser: its bytes, if they can be read.
pub record LocalFile : Type 0 where
  pub size : ℕ
  pub bytes : Option (List ℕ)

pub record ImportFileCandidate : Type 0 where
  pub path : JsString
  pub file : LocalFile
  pub size : ℕ
  pub selected : Bool

pub record ImportedFileContent : Type 0 where
  pub path : JsString
  pub content : JsString

pub record ImportSnapshot : Type 0 where
  pub path : JsString
  pub id : JsString
  pub compressed_snapshot : JsString

pub record SkippedFile : Type 0 where
  pub path : JsString
  pub reason : JsString

pub record FolderInspection : Type 0 where
  pub candidates : List ImportFileCandidate
  pub skipped : List SkippedFile

pub record FolderFileSource : Type 0 where
  pub path : JsString
  pub file : LocalFile

-- Either a candidate, or the path and reason of what is skipped, with its ignored directory.
pub data InspectedSource : Type 0 where
  candidate : ImportFileCandidate → InspectedSource
  skipped : (path reason : JsString) (ignored_directory : Option JsString) → InspectedSource

-- Whether bytes are UTF-8 text.
abbrev pub validate_bytes : (List ℕ → Bool) → Option (List ℕ) → Option JsString
validate_bytes is_utf8 none = some (units "File is not valid UTF-8 text")
validate_bytes is_utf8 (some bytes) =
    if any (λ b. b == 0) bytes
    then some (units "Binary file")
    else if is_utf8 bytes
    then none
    else some (units "File is not valid UTF-8 text")

unfoldable pub validate_text_file : (List ℕ → Bool) → LocalFile → Option JsString
validate_text_file is_utf8 file = validate_bytes is_utf8 file.bytes

abbrev pub new_candidate : JsString → LocalFile → ImportFileCandidate
new_candidate path file = record { path = path; file = file; size = file.size; selected = true }

-- `toLocaleLowerCase('en-US')` and `toLowerCase` are `lower`.
module _ (lower : JsString → JsString) (is_utf8 : List ℕ → Bool) where
  abbrev pub checked_text : JsString → LocalFile → Option JsString → InspectedSource
  checked_text path file none = candidate (new_candidate path file)
  checked_text path file (some reason) = skipped path reason none

  -- What follows the ignore rules.
  abbrev pub checked_size : JsString → LocalFile → ℕ → Option JsString → InspectedSource
  checked_size path file count (some reason) =
      skipped path reason (get_ignored_directory_path lower path)
  checked_size path file count none =
      if ltb max_import_file_bytes file.size
      then skipped path (units "File exceeds the 64 KB per-file limit") none
      else if leb max_import_file_count count
      then skipped path (units "Folder exceeds the 500-file limit") none
      else checked_text path file (validate_text_file is_utf8 file)

  abbrev pub checked_path :
      FolderFileSource → List JsString → ℕ → Option JsString → InspectedSource × List JsString
  checked_path source seen count none =
      (skipped (take 512 source.path) (units "Unsafe file path") none, seen)
  checked_path source seen count (some path) =
      let key = lower path in
      if includes key seen then (skipped path (units "Duplicate path") none, seen) else (
        checked_size path source.file count (get_import_ignore_reason lower path false),
        key ∷ seen,
      )

  -- The second component is `seenPaths` after the call.
  unfoldable pub inspect_source :
      FolderFileSource → List JsString → ℕ → InspectedSource × List JsString
  inspect_source source seen count =
      checked_path source seen count (normalize_import_path source.path)

  -- The four variables of the loop.
  pub record Inspecting : Type 0 where
    pub candidates : List ImportFileCandidate
    pub skipped_files : List SkippedFile
    pub seen : List JsString
    pub seen_skipped : List JsString

  -- `ignoredDirectory ?? path`.
  abbrev pub skipped_path : JsString → Option JsString → JsString
  skipped_path path none = path
  skipped_path path (some directory) = directory

  abbrev pub add_inspected : InspectedSource → List JsString → Inspecting → Inspecting
  add_inspected (candidate c) seen s = record s { candidates = s.candidates ++ c ∷ []; seen = seen }
  add_inspected (skipped path reason directory) seen s =
      let shown = skipped_path path directory in
      let key = lower shown in
      if includes key s.seen_skipped then record s { seen = seen } else record s {
        seen = seen;
        skipped_files = s.skipped_files ++ record { path = shown; reason = reason } ∷ [];
        seen_skipped = key ∷ s.seen_skipped;
      }

  unfoldable pub inspect_sources : List FolderFileSource → Inspecting → Inspecting
  inspect_sources [] s = s
  inspect_sources (source ∷ sources) s =
      let (inspected, seen) = inspect_source source s.seen (length s.candidates) in
      inspect_sources sources (add_inspected inspected seen s)

  abbrev pub limit_note : List FolderFileSource → List SkippedFile
  limit_note files =
      if ltb max_scanned_entries (length files)
      then record {
        path = units "Additional folder contents";
        reason = units "Preview limited to 5000 entries";
      }
        ∷ []
      else []

  unfoldable pub inspect_folder_files : List FolderFileSource → List SkippedFile → FolderInspection
  inspect_folder_files files initially_skipped =
      let s = inspect_sources (take max_scanned_entries files) (record {
        candidates = [];
        skipped_files = initially_skipped;
        seen = [];
        seen_skipped = map (λ (f : SkippedFile). lower f.path) initially_skipped;
      }) in
      record { candidates = s.candidates; skipped = s.skipped_files ++ limit_note files }

-- The errors of this file.
pub data ImportError : Type 0 where
  nothing_selected : ImportError
  too_many_files : ImportError
  file_too_large : ImportError
  total_too_large : ImportError
  unsafe_path : ImportError
  invalid_content : ImportError
  compressed_too_large : ImportError
  duplicate_paths : ImportError
  snapshots_too_large : ImportError
  compressed_total_too_large : ImportError
  unreadable_file : ImportError
  not_compressed : CompressionError → ImportError

abbrev pub total_size : List ImportFileCandidate → ℕ
total_size [] = 0
total_size (c ∷ cs) = c.size + total_size cs

abbrev pub add_content :
    JsString
    → Option JsString
    → Option (List ImportedFileContent)
    → Option (List ImportedFileContent)
add_content path none contents = none
add_content path (some content) none = none
add_content path (some content) (some contents) =
    some (record { path = path; content = content } ∷ contents)

-- `Promise.all` over the files; `text` reads a file, or gives none when its promise is rejected.
unfoldable pub read_all :
    (LocalFile → Option JsString) → List ImportFileCandidate → Option (List ImportedFileContent)
read_all text [] = some []
read_all text (c ∷ cs) = add_content c.path (text c.file) (read_all text cs)

abbrev pub read_or_error :
    Option (List ImportedFileContent) → ImportError ⊎ List ImportedFileContent
read_or_error none = inl unreadable_file
read_or_error (some contents) = inr contents

unfoldable pub read_selected_import_files :
    (LocalFile → Option JsString)
    → List ImportFileCandidate
    → ImportError ⊎ List ImportedFileContent
read_selected_import_files text candidates =
    let selected = filter_by (λ (c : ImportFileCandidate). c.selected) candidates in
    if length selected == 0
    then inl nothing_selected
    else if ltb max_import_file_count (length selected)
    then inl too_many_files
    else if any (λ (c : ImportFileCandidate). ltb max_import_file_bytes c.size) selected
    then inl file_too_large
    else if ltb max_import_total_bytes (total_size selected)
    then inl total_too_large
    else read_or_error (read_all text selected)

pub record Prepared : Type 0 where
  pub file : ImportSnapshot
  pub path : JsString
  pub content_bytes : ℕ
  pub snapshot_bytes : ℕ
  pub compressed_bytes : ℕ

pub record Totals : Type 0 where
  pub content_bytes : ℕ
  pub snapshot_bytes : ℕ
  pub compressed_bytes : ℕ

unfoldable pub validate_project_import_totals : Totals → Option ImportError
validate_project_import_totals t =
    if ltb max_import_total_bytes t.content_bytes
    then some total_too_large
    else if ltb max_import_total_snapshot_bytes t.snapshot_bytes
    then some snapshots_too_large
    else if ltb max_import_total_compressed_bytes t.compressed_bytes
    then some compressed_total_too_large
    else none

abbrev pub add_totals : Totals → Prepared → Totals
add_totals t p = record {
  content_bytes = t.content_bytes + p.content_bytes;
  snapshot_bytes = t.snapshot_bytes + p.snapshot_bytes;
  compressed_bytes = t.compressed_bytes + p.compressed_bytes;
}

-- The platform: the case of letters, `JSON.stringify` of a snapshot, the compression with the
-- length of a text in UTF-8, and the n-th random id.
pub record Platform : Type 0 where
  pub lower : JsString → JsString
  pub stringify : CrdtSnapshot → JsString
  pub compression : CompressionPlatform
  pub random_id : ℕ → JsString

module _ (platform : Platform) (site_id : JsString) where
  abbrev pub compressed_file :
      JsString → ImportedFileContent → ℕ → Compressed → ImportError ⊎ Prepared
  compressed_file path file n c =
      if ltb max_import_file_compressed_bytes c.compressed_bytes
      then inl compressed_too_large
      else inr (record {
        file = record { path = path; id = platform.random_id n; compressed_snapshot = c.value };
        path = path;
        content_bytes = platform.compression.byte_length file.content;
        snapshot_bytes = c.snapshot_bytes;
        compressed_bytes = c.compressed_bytes;
      })

  abbrev pub after_compression :
      JsString → ImportedFileContent → ℕ → CompressionError ⊎ Compressed → ImportError ⊎ Prepared
  after_compression path file n (inl error) = inl (not_compressed error)
  after_compression path file n (inr c) = compressed_file path file n c

  abbrev pub snapshot_at : ImportedFileContent → ℕ → Option JsString → ImportError ⊎ Prepared
  snapshot_at file n none = inl unsafe_path
  snapshot_at file n (some path) =
      if ltb max_import_file_bytes (platform.compression.byte_length file.content)
        || any (λ c. c == 0) file.content
      then inl invalid_content
      else after_compression path file n (
          compress_crdt_snapshot platform.compression
            (platform.stringify (to_snapshot (from_text site_id file.content))))

  unfoldable pub create_import_snapshot : ImportedFileContent → ℕ → ImportError ⊎ Prepared
  create_import_snapshot file n = snapshot_at file n (normalize_import_path file.path)

  -- The loop, with `seenPaths`, the totals and the result so far; `next` is the loop over the other
  -- files.
  abbrev pub Loop : Type 0
  Loop = List JsString → Totals → List ImportSnapshot → ImportError ⊎ List ImportSnapshot

  abbrev pub within_totals :
      Loop
      → List JsString
      → Totals
      → List ImportSnapshot
      → Option ImportError
      → ImportError ⊎ List ImportSnapshot
  within_totals next seen totals result (some error) = inl error
  within_totals next seen totals result none = next seen totals result

  abbrev pub add_prepared :
      Loop
      → List JsString
      → Totals
      → List ImportSnapshot
      → ImportError ⊎ Prepared
      → ImportError ⊎ List ImportSnapshot
  add_prepared next seen totals result (inl error) = inl error
  add_prepared next seen totals result (inr p) =
      let key = platform.lower p.path in
      let totals' = add_totals totals p in
      if includes key seen
      then inl duplicate_paths
      else within_totals next (key ∷ seen) totals' (result ++ p.file ∷ [])
          (validate_project_import_totals totals')

  unfoldable pub prepare_files : List ImportedFileContent → Loop
  prepare_files [] seen totals result = inr result
  prepare_files (file ∷ files) seen totals result =
      add_prepared (prepare_files files) seen totals result
        (create_import_snapshot file (length result))

  unfoldable pub prepare_project_import :
      List ImportedFileContent → ImportError ⊎ List ImportSnapshot
  prepare_project_import files =
      if length files == 0 || ltb max_import_file_count (length files)
      then inl too_many_files
      else prepare_files files []
          (record { content_bytes = 0; snapshot_bytes = 0; compressed_bytes = 0 }) []
