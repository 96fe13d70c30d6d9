-- ===== src/Editor/Search.antt =====
-- components/editor/workspaceSearch.ts: a text search over the files. Regular expressions, the case
-- of letters and the provider's contents are parameters.
pub mod Found
pub mod Parts
pub mod Grouped
mod Tests
use mathlib.Core.Option
use syncode.Base.{
  ℕ, zero, suc, ◌+◌, ◌-◌, Bool, true, false, not, Option, none, some, List, [], ◌∷◌, ◌++◌, JsString,
  units, str_eq, ltb, leb, ◌==◌, if◌then◌else◌, trim, length, get_elem?, take, drop, any,
}
use syncode.Crdt.Tree.Op.{RoomEntry}
use syncode.Project.Path.{add_unit, last_index_of, slash}
use syncode.Editor.Layout.{get_entry_path}
use syncode.Editor.Groups.{set_at}

abbrev pub max_search_matches : ℕ
max_search_matches = 500

pub record SearchOptions : Type 0 where
  pub match_case : Bool
  pub whole_word : Bool
  pub is_regex : Bool
  pub preserve_case : Bool

pub record SearchMatch : Type 0 where
  pub file_id : JsString
  pub path : JsString
  pub line : ℕ
  pub column : ℕ
  pub text : JsString

pub record SearchFileGroup : Type 0 where
  pub file_id : JsString
  pub path : JsString
  pub name : JsString
  pub parent_path : JsString
  pub matches : List SearchMatch

-- A result of `matchAll`: `match.index` and `match[0]`.
pub record RegExpMatch : Type 0 where
  pub index : ℕ
  pub text : JsString

pub record TextPart : Type 0 where
  pub text : JsString
  pub is_match : Bool

-- The platform's regular expressions: `new RegExp` fails on a bad pattern; `replace` takes a text
-- with its `$` patterns, `replace_with` a function of what matched.
pub record RegExps (R : Type 0) : Type 0 where
  pub new_regexp : JsString → JsString → Option R
  pub match_all : R → JsString → List RegExpMatch
  pub replace : R → JsString → JsString → JsString
  pub replace_with : R → (JsString → JsString) → JsString → JsString
  pub upper : JsString → JsString
  pub lower : JsString → JsString

-- `/[.*+?^${}()|[\]\\]/`.
abbrev pub is_special : ℕ → Bool
is_special c = any (λ k. c == k) (units ".*+?^${}()|[]\\")

unfoldable pub escape_regexp : JsString → JsString
escape_regexp [] = []
escape_regexp (c ∷ s) =
    let rest = escape_regexp s in if is_special c then 92 ∷ c ∷ rest else c ∷ rest

-- `split('\n')`.
unfoldable pub split_lines : JsString → List JsString
split_lines [] = [] ∷ []
split_lines (c ∷ s) = let rest = split_lines s in if c == 10 then [] ∷ rest else add_unit c rest

unfoldable pub join_lines : List JsString → JsString
join_lines [] = []
join_lines (s ∷ []) = s
join_lines (s ∷ t ∷ ss) = s ++ 10 ∷ join_lines (t ∷ ss)

-- `slice(from, to)` of a text.
abbrev pub slice_text : ℕ → ℕ → JsString → JsString
slice_text from to s = take (to - from) (drop from s)

abbrev pub match_at : JsString → JsString → ℕ → JsString → RegExpMatch → SearchMatch
match_at file_id path line text m = record {
  file_id = file_id;
  path = path;
  line = line;
  column = suc m.index;
  text = trim text;
}

-- The accumulated matches, and whether the search has returned.
abbrev pub Progress : Type 0
Progress = List SearchMatch × Bool

-- The entries that follow, unless the result has been returned.
abbrev pub continue : (List SearchMatch → Option Progress) → Option Progress → Option Progress
continue next none = none
continue next (some (found, true)) = some (found, true)
continue next (some (found, false)) = next found

module _ {R : Type 0} (re : RegExps R) where
  abbrev pub pattern_of : JsString → SearchOptions → Option R
  pattern_of source options =
      let body = if options.is_regex then source else escape_regexp source in
      let wrapped = if options.whole_word then units "\\b(?:" ++ (body ++ units ")\\b") else body in
      re.new_regexp wrapped (if options.match_case then units "g" else units "gi")

  unfoldable pub create_search_pattern : JsString → SearchOptions → Option R
  create_search_pattern query options =
      let source = trim query in if length source == 0 then none else pattern_of source options

  -- The loops over the lines of a file and the matches of a line; the result is returned as soon as
  -- it is full.
  unfoldable pub search_line :
      JsString → JsString → ℕ → JsString → List RegExpMatch → List SearchMatch → Progress
  search_line file_id path line text [] found = (found, false)
  search_line file_id path line text (m ∷ ms) found =
      let found' = found ++ match_at file_id path line text m ∷ [] in
      let further = search_line file_id path line text ms found' in
      if leb max_search_matches (length found') then (found', true) else further

  unfoldable pub search_lines :
      R → JsString → JsString → ℕ → List JsString → List SearchMatch → Progress
  search_lines pattern file_id path line [] found = (found, false)
  search_lines pattern file_id path line (text ∷ lines) found =
      let (found', is_done) =
        search_line file_id path line text (re.match_all pattern text) found in
      let further = search_lines pattern file_id path (suc line) lines found' in
      if is_done then (found', true) else further

  -- The lines of an entry, with its path: `none` when the loop that looks for the path does not end.
  abbrev pub search_entry :
      R → (JsString → JsString) → RoomEntry → List SearchMatch → Option JsString → Option Progress
  search_entry pattern content e found none = none
  search_entry pattern content e found (some path) =
      some (search_lines pattern e.id path 1 (split_lines (content e.id)) found)

  unfoldable pub search_entries :
      R
      → (JsString → JsString)
      → List RoomEntry
      → List RoomEntry
      → List SearchMatch
      → Option Progress
  search_entries pattern content all [] found = some (found, false)
  search_entries pattern content all (e ∷ es) found =
      continue (search_entries pattern content all es) (
        if e.is_folder
        then some (found, false)
        else search_entry pattern content e found (get_entry_path e all))

  -- `provider` is the content of its files, or null. `none` stands for a search that does not end.
  abbrev pub found_by :
      List RoomEntry → Option R → Option (JsString → JsString) → Option (List SearchMatch)
  found_by entries none content = some []
  found_by entries (some pattern) none = some []
  found_by entries (some pattern) (some content) =
      Option.map (λ (p : Progress). p.0) (search_entries pattern content entries entries [])

  unfoldable pub find_workspace_matches :
      List RoomEntry
      → JsString
      → Option (JsString → JsString)
      → SearchOptions
      → Option (List SearchMatch)
  find_workspace_matches entries query content options =
      found_by entries (create_search_pattern query options) content

  -- The loop of `highlightSearchLine` from a cursor on.
  unfoldable pub parts_from : JsString → ℕ → List RegExpMatch → List TextPart
  parts_from text cursor [] =
      if ltb cursor (length text)
      then record { text = drop cursor text; is_match = false } ∷ []
      else []
  parts_from text cursor (m ∷ ms) =
      let rest =
        record { text = m.text; is_match = true } ∷ parts_from text (m.index + length m.text) ms in
      if ltb cursor m.index
      then record { text = slice_text cursor m.index text; is_match = false } ∷ rest
      else rest

  abbrev pub parts_or_text : JsString → List TextPart → List TextPart
  parts_or_text text [] = record { text = text; is_match = false } ∷ []
  parts_or_text text (p ∷ ps) = p ∷ ps

  abbrev pub parts_by : JsString → Option R → List TextPart
  parts_by text none = record { text = text; is_match = false } ∷ []
  parts_by [] (some pattern) = record { text = []; is_match = false } ∷ []
  parts_by (c ∷ s) (some pattern) =
      parts_or_text (c ∷ s) (parts_from (c ∷ s) 0 (re.match_all pattern (c ∷ s)))

  unfoldable pub highlight_search_line : JsString → JsString → SearchOptions → List TextPart
  highlight_search_line text query options = parts_by text (create_search_pattern query options)

  unfoldable pub preserve_case : JsString → JsString → JsString
  preserve_case matched [] = []
  preserve_case matched (c ∷ s) =
      if str_eq matched (re.upper matched)
      then re.upper (c ∷ s)
      else if str_eq matched (re.lower matched)
      then re.lower (c ∷ s)
      else re.upper (c ∷ []) ++ re.lower s

  abbrev pub replace_by : JsString → JsString → SearchOptions → Option R → JsString
  replace_by content replacement options none = content
  replace_by content replacement options (some pattern) =
      if options.preserve_case
      then re.replace_with pattern (λ matched. preserve_case matched replacement) content
      else re.replace pattern replacement content

  unfoldable pub replace_all_in_text : JsString → JsString → JsString → SearchOptions → JsString
  replace_all_in_text content query replacement options =
      replace_by content replacement options (create_search_pattern query options)

  -- The line with the match at the column replaced, or with all its matches replaced.
  unfoldable pub replace_in_line :
      JsString → JsString → SearchOptions → JsString → ℕ → List RegExpMatch → JsString
  replace_in_line query replacement options line column [] =
      replace_all_in_text line query replacement options
  replace_in_line query replacement options line column (m ∷ ms) =
      let value = if options.preserve_case then preserve_case m.text replacement else replacement in
      let further = replace_in_line query replacement options line column ms in
      if suc m.index == column
      then take m.index line ++ (value ++ drop (m.index + length m.text) line)
      else further

  abbrev pub replace_line :
      JsString → JsString → JsString → SearchOptions → ℕ → ℕ → Option JsString → Option R → JsString
  replace_line content query replacement options index column none pattern = content
  replace_line content query replacement options index column (some line) none = content
  replace_line content query replacement options index column (some line) (some pattern) =
      join_lines (
        set_at index
          (replace_in_line query replacement options line column (re.match_all pattern line))
          (split_lines content))

  -- A line number of 0 names no line.
  unfoldable pub replace_match_in_text :
      JsString → JsString → JsString → SearchOptions → ℕ → ℕ → JsString
  replace_match_in_text content query replacement options zero column = content
  replace_match_in_text content query replacement options (suc index) column =
      replace_line content query replacement options index column
        (get_elem? (split_lines content) index) (create_search_pattern query options)

-- `path.slice(slash + 1)` and `path.slice(0, slash)`.
abbrev pub name_at : Option ℕ → JsString → JsString
name_at none path = path
name_at (some i) path = drop (suc i) path

abbrev pub parent_at : Option ℕ → JsString → JsString
parent_at none path = []
parent_at (some i) path = take i path

abbrev pub new_search_group : SearchMatch → SearchFileGroup
new_search_group m = record {
  file_id = m.file_id;
  path = m.path;
  name = name_at (last_index_of slash m.path) m.path;
  parent_path = parent_at (last_index_of slash m.path) m.path;
  matches = m ∷ [];
}

-- The match in the group of its file, which the map finds, or in a new group at the end.
unfoldable pub add_search_match : SearchMatch → List SearchFileGroup → List SearchFileGroup
add_search_match m [] = new_search_group m ∷ []
add_search_match m (g ∷ gs) =
    let rest = add_search_match m gs in
    if str_eq g.file_id m.file_id then record g { matches = g.matches ++ m ∷ [] } ∷ gs else g ∷ rest

unfoldable pub group_from : List SearchFileGroup → List SearchMatch → List SearchFileGroup
group_from groups [] = groups
group_from groups (m ∷ ms) = group_from (add_search_match m groups) ms

unfoldable pub group_search_matches : List SearchMatch → List SearchFileGroup
group_search_matches ms = group_from [] ms
