-- ===== src/Project/Entry.antt =====
-- `getProjectEntryPath` of crdt/projectPathRules.ts: the walk from an entry up to the top.
use syncode.Base.{
  ℕ, zero, suc, ◌+◌, ◌≤◌, ◌<◌, ◌≡◌, refl, ap, inl, inr, Bool, true, false, ◌&&◌, Option, none, some,
  List, [], ◌∷◌, arith, JsString, str_eq, str_eq_iff, str_eq_refl, ◌==◌, if◌then◌else◌, Bool-cases,
  Option-cases, length,
}
use syncode.Base.Assoc.{includes}
use syncode.Crdt.Tree.Op.{RoomEntry}
use syncode.Project.Path.{join}

-- `entries.find((item) => item.id === id && item.isFolder)`.
unfoldable pub find_folder : JsString → List RoomEntry → Option RoomEntry
find_folder id [] = none
find_folder id (e ∷ es) = if str_eq e.id id && e.is_folder then some e else find_folder id es

-- The `while` loop; it also ends at an empty parent id. The outer `none` is the end of the fuel, the
-- inner one the `null` of the source.
unfoldable pub path_from :
    ℕ
    → List RoomEntry
    → List JsString
    → Option JsString
    → List JsString
    → Option (Option (List JsString))
path_from zero entries visited parent_id segments = none
path_from (suc fuel) entries visited none segments = some (some segments)
path_from (suc fuel) entries visited (some p) segments = elim (length p == 0) [
  | true ↦ some (some segments)
  | false ↦ elim (includes p visited) [
    | true ↦ some none
    | false ↦ elim (find_folder p entries) [
      | none ↦ some none
      | some parent ↦ path_from fuel entries (p ∷ visited) parent.parent_id (parent.name ∷ segments)
    ]
  ]
]

abbrev pub joined : Option (Option (List JsString)) → Option JsString
joined none = none
joined (some none) = none
joined (some (some segments)) = some (join segments)

-- Each round meets a folder that it has not met.
abbrev pub path_fuel : List RoomEntry → ℕ
path_fuel entries = suc (length entries)

unfoldable pub get_project_entry_path : RoomEntry → List RoomEntry → Option JsString
get_project_entry_path entry entries =
    joined (path_from (path_fuel entries) entries (entry.id ∷ []) entry.parent_id (entry.name ∷ []))

abbrev pub has_ended : Option (Option (List JsString)) → Bool
has_ended none = false
has_ended (some o) = true

-- The entries that the walk has not met.
abbrev unmet : List JsString → List RoomEntry → ℕ
unmet seen [] = 0
unmet seen (e ∷ es) = (if includes e.id seen then 0 else 1) + unmet seen es

unmet_le : (seen : List JsString) (es : List RoomEntry) → unmet seen es ≤ length es
unmet_le seen [] = omega arith
unmet_le seen (e ∷ es) = ground (arith, unmet_le seen es)

unmet-cons :
    (p : JsString) (seen : List JsString) (es : List RoomEntry)
    → unmet (p ∷ seen) es ≤ unmet seen es
unfolding includes
unmet-cons p seen [] = omega arith
unmet-cons p seen (e ∷ es) = ground (arith, unmet-cons p seen es)

unmet-found :
    (p : JsString) (seen : List JsString) (es : List RoomEntry) (e : RoomEntry)
    → includes p seen ≡ false
    → find_folder p es ≡ some e
    → unmet (p ∷ seen) es < unmet seen es
unfolding includes find_folder
unmet-found p seen [] e n h = ground arith
unmet-found p seen (x ∷ es) e n h = elim (Bool-cases (str_eq x.id p)) [
  | inl same ↦
      let q = (str_eq_iff x.id p).0 same in
      ground (
        arith,
        ap (λ z. includes z seen) q,
        ap (λ z. str_eq p z) q,
        str_eq_refl p,
        unmet-cons p seen es,
      )
  | inr other ↦ ground (arith, unmet-found p seen es e n)
]

-- The walk ends within its fuel, on every list of entries.
pub path_from_lem :
    (fuel : ℕ) (entries : List RoomEntry) (visited : List JsString) (parent_id : Option JsString)
    (segments : List JsString)
    → unmet visited entries < fuel
    → has_ended (path_from fuel entries visited parent_id segments) ≡ true
unfolding path_from
path_from_lem zero entries visited parent_id segments lt = absurd (omega arith)
path_from_lem (suc fuel) entries visited none segments lt = refl
path_from_lem (suc fuel) entries visited (some p) segments lt = elim (Bool-cases (length p == 0)) [
  | inl top ↦ ground arith
  | inr below ↦ elim (Bool-cases (includes p visited)) [
    | inl met ↦ ground arith
    | inr new ↦ elim (Option-cases (find_folder p entries)) [
      | inl missing ↦ ground (arith, missing)
      | inr (e, found) ↦ ground (
        arith,
        found,
        path_from_lem fuel entries (p ∷ visited) e.parent_id (e.name ∷ segments)
            (omega (arith, unmet-found p visited entries e new found, lt)),
      )
    ]
  ]
]

-- So the path of an entry is found, or refused for a missing folder or a cycle.
pub path_fuel_lem :
    (entry : RoomEntry) (entries : List RoomEntry) (segments : List JsString)
    → has_ended (path_from (path_fuel entries) entries (entry.id ∷ []) entry.parent_id segments)
      ≡ true
path_fuel_lem entry entries segments =
    path_from_lem (path_fuel entries) entries (entry.id ∷ []) entry.parent_id segments
      (omega (arith, unmet_le (entry.id ∷ []) entries))
