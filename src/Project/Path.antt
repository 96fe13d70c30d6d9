-- ===== src/Project/Path.antt =====
-- import/pathSafety.ts and crdt/projectPathRules.ts: which paths a folder may bring in, and which
-- files a room shares. `toLowerCase` is the parameter `lower`.
pub mod Safe
mod Tests
use syncode.Base.{
  ℕ, zero, suc, ◌+◌, Bool, true, false, not, ◌&&◌, ◌||◌, Option, none, some, List, [], ◌∷◌, ◌++◌,
  JsString, units, str_eq, ltb, leb, ◌==◌, if◌then◌else◌, length, any, drop,
}
use syncode.Base.Assoc.{includes}

abbrev pub slash : ℕ
slash = 47

abbrev pub add_unit : ℕ → List JsString → List JsString
add_unit c [] = (c ∷ []) ∷ []
add_unit c (s ∷ ss) = (c ∷ s) ∷ ss

-- `split('/')`.
unfoldable pub split : JsString → List JsString
split [] = [] ∷ []
split (c ∷ s) = let rest = split s in if c == slash then [] ∷ rest else add_unit c rest

-- `join('/')`.
unfoldable pub join : List JsString → JsString
join [] = []
join (s ∷ []) = s
join (s ∷ t ∷ ss) = s ++ slash ∷ join (t ∷ ss)

abbrev pub starts_with : ℕ → JsString → Bool
starts_with k [] = false
starts_with k (c ∷ s) = c == k

abbrev pub is_letter : ℕ → Bool
is_letter c = (leb 65 c && leb c 90) || (leb 97 c && leb c 122)

-- `/^[a-zA-Z]:/`.
abbrev pub has_drive : JsString → Bool
has_drive [] = false
has_drive (c ∷ s) = is_letter c && starts_with 58 s

-- `/[:*?"<>|]/`, and with the two slashes `/[\\/:*?"<>|]/`.
abbrev pub is_forbidden : ℕ → Bool
is_forbidden c = c == 58 || c == 42 || c == 63 || c == 34 || c == 60 || c == 62 || c == 124

abbrev pub is_invalid_unit : ℕ → Bool
is_invalid_unit c = c == 92 || c == slash || is_forbidden c

-- The code looks at whole characters; the unit that it tests of a pair is no control character.
unfoldable pub contains_control_character : JsString → Bool
contains_control_character value = any (λ c. leb c 31 || c == 127) value

-- An empty segment, or one that stands for a folder.
abbrev pub is_dot_segment : JsString → Bool
is_dot_segment s = length s == 0 || str_eq s (units ".") || str_eq s (units "..")

unfoldable pub is_unsafe_segment : JsString → Bool
is_unsafe_segment s =
    is_dot_segment s || ltb 128 (length s) || any is_invalid_unit s || contains_control_character s

unfoldable pub normalize_import_path : JsString → Option JsString
normalize_import_path path =
    let segments = split path in
    if length path == 0
      || ltb 512 (length path)
      || starts_with slash path
      || starts_with 92 path
      || has_drive path
    then none
    else if ltb 32 (length segments) || any is_unsafe_segment segments
    then none
    else some (join segments)

unfoldable pub has_control_character : JsString → Bool
has_control_character path = any (λ c. ltb c 32 || c == 127) path

abbrev pub generated_directories : List JsString
generated_directories =
    units ".git"
    ∷ units ".next"
    ∷ units ".nuxt"
    ∷ units ".venv"
    ∷ units "__pycache__"
    ∷ units "bin"
    ∷ units "build"
    ∷ units "coverage"
    ∷ units "dist"
    ∷ units "node_modules"
    ∷ units "obj"
    ∷ units "out"
    ∷ units "packages"
    ∷ units "target"
    ∷ units "vendor"
    ∷ units "venv"
    ∷ []

abbrev pub generated_extensions : List JsString
generated_extensions =
    units ".class"
    ∷ units ".dll"
    ∷ units ".exe"
    ∷ units ".o"
    ∷ units ".obj"
    ∷ units ".pdb"
    ∷ units ".pyc"
    ∷ units ".so"
    ∷ []

-- `lastIndexOf`, with `none` for -1.
unfoldable pub last_index_of : ℕ → JsString → Option ℕ
last_index_of k [] = none
last_index_of k (c ∷ s) = elim (last_index_of k s) [
  | some i ↦ some (suc i)
  | none ↦ if c == k then some 0 else none
]

-- `slice(lastIndexOf('/') + 1)`.
abbrev pub after_slash : Option ℕ → JsString → JsString
after_slash none path = path
after_slash (some i) path = drop (suc i) path

module _ (lower : JsString → JsString) where
  -- `dot > 0 ? name.slice(dot).toLowerCase() : ''`.
  abbrev pub extension_at : Option ℕ → JsString → JsString
  extension_at none name = []
  extension_at (some zero) name = []
  extension_at (some (suc i)) name = lower (drop (suc i) name)

  unfoldable pub extension_of : JsString → JsString
  extension_of path =
      let name = after_slash (last_index_of slash path) path in
      extension_at (last_index_of 46 name) name

  unfoldable pub is_shared_project_path : JsString → Bool
  is_shared_project_path path =
      let segments = split path in
      if length path == 0
        || ltb 512 (length path)
        || starts_with slash path
        || any (λ c. c == 92) path
        || has_control_character path
      then false
      else if ltb 32 (length segments) || any (λ s. is_dot_segment s || any is_forbidden s) segments
      then false
      else not (any (λ s. includes (lower s) generated_directories) segments)
        && not (includes (extension_of path) generated_extensions)
