-- ===== src/Editor/Layout.antt =====
-- `getEntryPath` of components/editor/editorLayoutStorage.ts: the path of an entry, as the editor
-- shows it. The loop takes fuel: it has no guard against a cycle of folders.
use syncode.Base.{
  ℕ, zero, suc, ◌≡◌, refl, ap, ◌∙◌, inl, inr, Bool-cases, true, false, Option, none, some,
  Option-cases, List, [], ◌∷◌, arith, JsString, ◌==◌, length,
}
use syncode.Base.Assoc.{includes}
use syncode.Crdt.Tree.Op.{RoomEntry}
use syncode.Project.Path.{join}
use syncode.Project.Entry.{find_folder, path_from, path_fuel, joined, get_project_entry_path}

-- One round, with the parent that it finds; `none` at the end of the fuel.
unfoldable pub entry_path_from :
    ℕ → List RoomEntry → Option JsString → List JsString → Option (List JsString)
entry_path_from zero entries parent_id path = none
entry_path_from (suc fuel) entries none path = some path
entry_path_from (suc fuel) entries (some p) path = elim (length p == 0) [
  | true ↦ some path
  | false ↦ elim (find_folder p entries) [
    | none ↦ some path
    | some parent ↦ entry_path_from fuel entries parent.parent_id (parent.name ∷ path)
  ]
]

abbrev pub joined_path : Option (List JsString) → Option JsString
joined_path none = none
joined_path (some path) = some (join path)

unfoldable pub get_entry_path : RoomEntry → List RoomEntry → Option JsString
get_entry_path entry entries =
    joined_path (entry_path_from (path_fuel entries) entries entry.parent_id (entry.name ∷ []))

entry_path_from-path_from :
    (fuel : ℕ) (entries : List RoomEntry) (visited : List JsString) (parent_id : Option JsString)
    (segments out : List JsString)
    → path_from fuel entries visited parent_id segments ≡ some (some out)
    → entry_path_from fuel entries parent_id segments ≡ some out
unfolding path_from entry_path_from
entry_path_from-path_from zero entries visited parent_id segments out h = ground arith
entry_path_from-path_from (suc fuel) entries visited none segments out h = ground arith
entry_path_from-path_from (suc fuel) entries visited (some p) segments out h =
    elim (Bool-cases (length p == 0)) [
      | inl top ↦ ground arith
      | inr below ↦ elim (Bool-cases (includes p visited)) [
        | inl met ↦ ground arith
        | inr new ↦ elim (Option-cases (find_folder p entries)) [
          | inl missing ↦ ground (arith, missing)
          | inr (e, found) ↦ ground (
            arith,
            found,
            entry_path_from-path_from fuel entries (p ∷ visited) e.parent_id (e.name ∷ segments)
                out,
          )
        ]
      ]
    ]

-- Where the walk that sharing uses finds a path, up to the top and without a cycle, the editor's
-- loop ends and shows the same path.
pub get_entry_path-get_project_entry_path :
    (entry : RoomEntry) (entries : List RoomEntry) (path : JsString)
    → get_project_entry_path entry entries ≡ some path
    → get_entry_path entry entries ≡ some path
unfolding get_project_entry_path get_entry_path
get_entry_path-get_project_entry_path entry entries path h =
    walked (path_from (path_fuel entries) entries (entry.id ∷ []) entry.parent_id (entry.name ∷ []))
      refl h
  where
    walked :
        (o : Option (Option (List JsString)))
        → path_from (path_fuel entries) entries (entry.id ∷ []) entry.parent_id (entry.name ∷ [])
          ≡ o
        → joined o ≡ some path
        → get_entry_path entry entries ≡ some path
    walked none e j = ground arith
    walked (some none) e j = ground arith
    walked (some (some out)) e j =
        ap joined_path (
          entry_path_from-path_from (path_fuel entries) entries (entry.id ∷ []) entry.parent_id
            (entry.name ∷ []) out e)
        ∙ j
