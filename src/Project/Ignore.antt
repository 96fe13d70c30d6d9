-- ===== src/Project/Ignore.antt =====
-- import/ignoreRules.ts: what an import of a folder leaves out. `toLowerCase` is the parameter
-- `lower`.
pub mod First
use mathlib.Core.List.{append_assoc, append-nil}
use mathlib.Core.Option
use syncode.Base.{
  ℕ, zero, suc, ◌≡◌, refl, sym, ap, subst, ◌∙◌, ◌⊎◌, inl, inr, Bool, true, false, not, ◌&&◌, ◌||◌,
  Option, none, some, List, [], ◌∷◌, ◌++◌, arith, JsString, units, str_eq, if◌then◌else◌,
  Option-cases, Bool-cases, length, any, take, drop, map, ◌==◌,
}
use syncode.Base.Assoc.{includes}
use syncode.Project.Path.{slash, split, join, starts_with, last_index_of}
use syncode.Project.Path.Safe.{join-split, split-cons}

abbrev pub ignored_directories : List JsString
ignored_directories =
    units ".git"
    ∷ units "node_modules"
    ∷ units "bower_components"
    ∷ units ".next"
    ∷ units ".nuxt"
    ∷ units ".vite"
    ∷ units "build"
    ∷ units "dist"
    ∷ units "out"
    ∷ units "target"
    ∷ units "bin"
    ∷ units "obj"
    ∷ units "coverage"
    ∷ []

abbrev pub ignored_files : List JsString
ignored_files = units ".ds_store" ∷ units "thumbs.db" ∷ units "desktop.ini" ∷ []

abbrev pub private_file_extensions : List JsString
private_file_extensions =
    units ".pem"
    ∷ units ".key"
    ∷ units ".p12"
    ∷ units ".pfx"
    ∷ units ".crt"
    ∷ units ".cer"
    ∷ units ".der"
    ∷ units ".ppk"
    ∷ units ".keystore"
    ∷ units ".jks"
    ∷ []

abbrev pub binary_file_extensions : List JsString
binary_file_extensions =
    units ".7z"
    ∷ units ".avi"
    ∷ units ".bin"
    ∷ units ".bmp"
    ∷ units ".class"
    ∷ units ".dll"
    ∷ units ".doc"
    ∷ units ".docx"
    ∷ units ".eot"
    ∷ units ".exe"
    ∷ units ".gif"
    ∷ units ".gz"
    ∷ units ".ico"
    ∷ units ".jpeg"
    ∷ units ".jpg"
    ∷ units ".mp3"
    ∷ units ".mp4"
    ∷ units ".pdf"
    ∷ units ".png"
    ∷ units ".so"
    ∷ units ".tar"
    ∷ units ".ttf"
    ∷ units ".wasm"
    ∷ units ".webp"
    ∷ units ".woff"
    ∷ units ".woff2"
    ∷ units ".xls"
    ∷ units ".xlsx"
    ∷ units ".zip"
    ∷ []

-- `findIndex`, with `none` for -1.
unfoldable pub find_index : (JsString → Bool) → List JsString → Option ℕ
find_index test [] = none
find_index test (s ∷ ss) = if test s then some 0 else Option.map suc (find_index test ss)

-- `segments.slice(0, index + 1).join('/')`.
abbrev pub path_to : Option ℕ → List JsString → Option JsString
path_to none segments = none
path_to (some index) segments = some (join (take (suc index) segments))

-- `at(-1) ?? ''`.
abbrev pub last_of : List JsString → JsString
last_of [] = []
last_of (s ∷ []) = s
last_of (s ∷ t ∷ ss) = last_of (t ∷ ss)

abbrev pub starts_with_text : JsString → JsString → Bool
starts_with_text [] s = true
starts_with_text (k ∷ ks) [] = false
starts_with_text (k ∷ ks) (c ∷ s) = c == k && starts_with_text ks s

-- `index > 0 ? name.slice(index) : ''`.
abbrev pub dot_extension : Option ℕ → JsString → JsString
dot_extension none name = []
dot_extension (some zero) name = []
dot_extension (some (suc i)) name = drop (suc i) name

-- `a ?? b`.
abbrev pub or_else : Option JsString → Option JsString → Option JsString
or_else none b = b
or_else (some a) b = some a

unfoldable pub get_ignored_directory_reason : JsString → Bool → Option JsString
get_ignored_directory_reason name is_directory =
    if is_directory && includes name ignored_directories
    then some (units "Generated or dependency folder")
    else none

unfoldable pub get_ignored_sensitive_file_reason : JsString → Option JsString
get_ignored_sensitive_file_reason name =
    let extension = dot_extension (last_index_of 46 name) name in
    if includes name ignored_files
    then some (units "Operating system file")
    else if starts_with_text (units ".env") name
    then some (units "Environment file may contain secrets")
    else if str_eq name (units ".npmrc") || str_eq name (units ".pypirc")
    then some (units "Package credentials may be present")
    else if starts_with_text (units "id_rsa") name || starts_with_text (units "id_ed25519") name
    then some (units "Private key")
    else if includes extension private_file_extensions
    then some (units "Private key or certificate")
    else none

unfoldable pub get_ignored_binary_file_reason : JsString → Bool → Option JsString
get_ignored_binary_file_reason name true = none
get_ignored_binary_file_reason name false =
    if includes (dot_extension (last_index_of 46 name) name) binary_file_extensions
    then some (units "Binary file")
    else none

module _ (lower : JsString → JsString) where
  abbrev pub is_ignored_segment : JsString → Bool
  is_ignored_segment s = includes (lower s) ignored_directories

  unfoldable pub get_ignored_directory_path : JsString → Option JsString
  get_ignored_directory_path path =
      let segments = split path in path_to (find_index is_ignored_segment segments) segments

  -- `ignoredPath && ignoredPath !== path`, where an empty path is not there.
  abbrev pub is_inside : Option JsString → JsString → Bool
  is_inside none path = false
  is_inside (some ignored) path = not (length ignored == 0) && not (str_eq ignored path)

  unfoldable pub get_import_ignore_reason : JsString → Bool → Option JsString
  get_import_ignore_reason path is_directory =
      let name = last_of (map lower (split path)) in
      if is_inside (get_ignored_directory_path path) path
      then some (units "Inside an ignored generated or dependency folder")
      else or_else (get_ignored_directory_reason name is_directory) (
          or_else (get_ignored_sensitive_file_reason name)
            (get_ignored_binary_file_reason name is_directory))
