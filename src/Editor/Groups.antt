-- ===== src/Editor/Groups.antt =====
-- components/editor/editorGroups.ts: groups of open files beside each other. A width is a
-- floating-point number: its type and its operations are parameters.
pub mod Counts
pub mod Active
pub mod Invariant
pub mod Places
pub mod Remove
pub mod Steps
mod Tests
use mathlib.Core.Option
use syncode.Base.{
  ℕ, zero, suc, ◌-◌, ◌==◌, leb, min, Bool, true, false, ◌||◌, not, Option, none, some, List, [],
  ◌∷◌, ◌++◌, JsString, units, str_eq, if◌then◌else◌, map, length, get_elem?, insert_at, filter_by,
  any,
}
use syncode.Base.Assoc.{includes}

-- Arithmetic on widths, with the least width of a group, and whether it fits twice.
pub record WidthOps (W : Type 0) : Type 0 where
  pub add : W → W → W
  pub sub : W → W → W
  pub half : W → W
  pub smaller : W → W → W
  pub larger : W → W → W
  pub least : W
  pub fits_twice : W → Bool

pub record EditorGroupState (W : Type 0) : Type 0 where
  pub id : JsString
  pub file_ids : List JsString
  pub active_file_id : JsString
  pub width : W

-- "group-1".
abbrev pub first_group_id : JsString
first_group_id = units "group-1"

-- INITIAL_EDITOR_GROUP, with the full width.
abbrev pub initial_editor_group : {W : Type 0} → W → EditorGroupState W
initial_editor_group full = record {
  id = first_group_id;
  file_ids = [];
  active_file_id = [];
  width = full;
}

-- `array[index] = value` within the array.
abbrev pub set_at {ℓ} : {A : Type ℓ} → ℕ → A → List A → List A
set_at i v [] = []
set_at zero v (x ∷ xs) = v ∷ xs
set_at (suc i) v (x ∷ xs) = x ∷ set_at i v xs

-- `array.at(-1) ?? ''`.
abbrev pub last_or_empty : List JsString → JsString
last_or_empty [] = []
last_or_empty (x ∷ []) = x
last_or_empty (x ∷ y ∷ ys) = last_or_empty (y ∷ ys)

abbrev pub string_or_empty : Option JsString → JsString
string_or_empty none = []
string_or_empty (some s) = s

-- `array.indexOf(id)`.
unfoldable pub index_of : JsString → List JsString → Option ℕ
index_of id [] = none
index_of id (x ∷ xs) =
    let rest = Option.map suc (index_of id xs) in if str_eq x id then some 0 else rest

abbrev pub without : JsString → List JsString → List JsString
without id xs = filter_by (λ x. not (str_eq x id)) xs

-- The loop that pushes the files that are not there yet.
unfoldable pub merge_files : List JsString → List JsString → List JsString
merge_files merged [] = merged
merge_files merged (f ∷ fs) =
    merge_files (if includes f merged then merged else merged ++ f ∷ []) fs

-- `a || b` of strings.
abbrev pub or_string : JsString → JsString → JsString
or_string [] b = b
or_string (x ∷ a) b = x ∷ a

abbrev pub target_index : ℕ → ℕ
target_index zero = 1
target_index (suc i) = i

module _ {W : Type 0} where
  abbrev pub ids : List (EditorGroupState W) → List JsString
  ids gs = map (λ (g : EditorGroupState W). g.id) gs

  abbrev pub shift : Option (ℕ × EditorGroupState W) → Option (ℕ × EditorGroupState W)
  shift none = none
  shift (some (i, g)) = some (suc i, g)

  -- `groups[groups.findIndex((group) => group.id === id)]`, with the index.
  unfoldable pub find_group : JsString → List (EditorGroupState W) → Option (ℕ × EditorGroupState W)
  find_group id [] = none
  find_group id (g ∷ gs) =
      let rest = shift (find_group id gs) in if str_eq g.id id then some (0, g) else rest

  abbrev pub others : JsString → List (EditorGroupState W) → List (EditorGroupState W)
  others id gs = filter_by (λ (g : EditorGroupState W). not (str_eq g.id id)) gs

  -- The file in the group that opens it.
  abbrev pub show_file : JsString → EditorGroupState W → EditorGroupState W
  show_file file g = record g {
    file_ids = if includes file g.file_ids then g.file_ids else g.file_ids ++ file ∷ [];
    active_file_id = file;
  }

  -- The file in every other group.
  abbrev pub hide_file : JsString → EditorGroupState W → EditorGroupState W
  hide_file file g =
      let file_ids = without file g.file_ids in
      record g {
        file_ids = file_ids;
        active_file_id =
            if str_eq g.active_file_id file then last_or_empty file_ids else g.active_file_id;
      }

  unfoldable pub open_editor_group_file :
      List (EditorGroupState W) → JsString → JsString → List (EditorGroupState W)
  open_editor_group_file gs group_id file =
      if includes group_id (ids gs)
      then map
          (λ (g : EditorGroupState W).
            if str_eq g.id group_id then show_file file g else hide_file file g)
          gs
      else gs

  -- One group with the file's index in it.
  abbrev pub close_at : JsString → Option ℕ → EditorGroupState W → EditorGroupState W
  close_at file none g = g
  close_at file (some index) g =
      let file_ids = without file g.file_ids in
      let next = string_or_empty (get_elem? file_ids (min index (length file_ids - 1))) in
      record g {
        file_ids = file_ids;
        active_file_id = if str_eq g.active_file_id file then next else g.active_file_id;
      }

  unfoldable pub close_file : JsString → EditorGroupState W → EditorGroupState W
  close_file file g = close_at file (index_of file g.file_ids) g

  unfoldable pub close_editor_group_file :
      List (EditorGroupState W) → JsString → JsString → List (EditorGroupState W)
  close_editor_group_file gs group_id file =
      map (λ (g : EditorGroupState W). if str_eq g.id group_id then close_file file g else g) gs

  unfoldable pub prune_group : List JsString → EditorGroupState W → EditorGroupState W
  prune_group valid g =
      let file_ids = filter_by (λ id. includes id valid) g.file_ids in
      record g {
        file_ids = file_ids;
        active_file_id =
            if includes g.active_file_id valid then g.active_file_id else last_or_empty file_ids;
      }

  unfoldable pub prune_editor_group_files :
      List (EditorGroupState W) → List JsString → List (EditorGroupState W)
  prune_editor_group_files gs valid = map (prune_group valid) gs

  abbrev pub first_id : List (EditorGroupState W) → JsString
  first_id [] = []
  first_id (g ∷ gs) = g.id

  module _ (ops : WidthOps W) where
    -- The groups with the found one split, or as they are.
    abbrev pub split_found :
        List (EditorGroupState W)
        → JsString
        → Option (ℕ × EditorGroupState W)
        → List (EditorGroupState W)
    split_found gs new_group_id none = gs
    split_found gs new_group_id (some (index, target)) =
        let width = ops.half target.width in
        let new : EditorGroupState W = record {
          id = new_group_id;
          file_ids = [];
          active_file_id = [];
          width = width;
        } in
        if ops.fits_twice target.width
        then insert_at (suc index) new (set_at index (record target { width = width }) gs)
        else gs

    unfoldable pub split_editor_group :
        List (EditorGroupState W) → JsString → JsString → List (EditorGroupState W)
    split_editor_group gs group_id new_group_id =
        split_found gs new_group_id (find_group group_id gs)

    abbrev pub merge_groups : EditorGroupState W → EditorGroupState W → EditorGroupState W
    merge_groups target removed = record target {
      file_ids = merge_files target.file_ids removed.file_ids;
      active_file_id = or_string target.active_file_id removed.active_file_id;
      width = ops.add target.width removed.width;
    }

    -- `next` with the merged group in place of the target.
    abbrev pub put_merged :
        EditorGroupState W
        → Option (ℕ × EditorGroupState W)
        → List (EditorGroupState W)
        → List (EditorGroupState W)
    put_merged merged none next = next
    put_merged merged (some (index, g)) next = set_at index merged next

    -- The target is there, since there are two groups or more.
    abbrev pub merge_into :
        JsString
        → List (EditorGroupState W)
        → EditorGroupState W
        → Option (EditorGroupState W)
        → List (EditorGroupState W) × JsString
    merge_into group_id gs removed none = (gs, [])
    merge_into group_id gs removed (some target) =
        let next = others group_id gs in
        (put_merged (merge_groups target removed) (find_group target.id next) next, target.id)

    abbrev pub remove_found :
        JsString
        → List (EditorGroupState W)
        → Option (ℕ × EditorGroupState W)
        → List (EditorGroupState W) × JsString
    remove_found group_id gs none = (gs, first_id gs)
    remove_found group_id gs (some (index, removed)) =
        merge_into group_id gs removed (get_elem? gs (target_index index))

    unfoldable pub remove_editor_group :
        List (EditorGroupState W) → JsString → List (EditorGroupState W) × JsString
    remove_editor_group gs group_id =
        if leb (length gs) 1
        then (gs, first_id gs)
        else remove_found group_id gs (find_group group_id gs)

    abbrev pub resize_pair :
        W
        → List (EditorGroupState W)
        → ℕ
        → EditorGroupState W
        → Option (EditorGroupState W)
        → List (EditorGroupState W)
    resize_pair delta gs left_index left none = gs
    resize_pair delta gs left_index left (some right) =
        let both = ops.add left.width right.width in
        let next_left =
          ops.larger ops.least (ops.smaller (ops.sub both ops.least) (ops.add left.width delta)) in
        set_at (suc left_index) (record right { width = ops.sub both next_left })
          (set_at left_index (record left { width = next_left }) gs)

    abbrev pub resize_found :
        W → List (EditorGroupState W) → Option (ℕ × EditorGroupState W) → List (EditorGroupState W)
    resize_found delta gs none = gs
    resize_found delta gs (some (left_index, left)) =
        resize_pair delta gs left_index left (get_elem? gs (suc left_index))

    unfoldable pub resize_editor_group_boundary :
        List (EditorGroupState W) → JsString → W → List (EditorGroupState W)
    resize_editor_group_boundary gs left_group_id delta =
        resize_found delta gs (find_group left_group_id gs)
