-- ===== src/Editor/Groups/Steps.antt =====
-- The editor groups after any operations.
use syncode.Base.{◌≡◌, refl, inr, List, [], ◌∷◌, JsString, arith}
use syncode.Editor.Groups.{
  EditorGroupState, WidthOps, ids, initial_editor_group, split_editor_group, open_editor_group_file,
  close_editor_group_file, prune_editor_group_files, remove_editor_group,
  resize_editor_group_boundary,
}
use syncode.Base.Counting.{times}
use syncode.Editor.Groups.Invariant.{IsValid, open-IsValid, close-IsValid, prune-IsValid}
use syncode.Editor.Groups.Places.{split-IsValid, resize-IsValid}
use syncode.Editor.Groups.Remove.{remove_editor_group-IsValid}

module _ {W : Type 0} (ops : WidthOps W) (full : W) where
  -- What the editor does with its groups, from one group on. A split takes a new id.
  pub data Reachable : List (EditorGroupState W) → Type 0 where
    initial : Reachable (initial_editor_group full ∷ [])
    split :
        (gs : List (EditorGroupState W)) (group_id new_group_id : JsString)
        → Reachable gs
        → times new_group_id (ids gs) ≡ 0
        → Reachable (split_editor_group ops gs group_id new_group_id)
    open_file :
        (gs : List (EditorGroupState W)) (group_id file : JsString)
        → Reachable gs
        → Reachable (open_editor_group_file gs group_id file)
    close_one :
        (gs : List (EditorGroupState W)) (group_id file : JsString)
        → Reachable gs
        → Reachable (close_editor_group_file gs group_id file)
    prune :
        (gs : List (EditorGroupState W)) (valid : List JsString)
        → Reachable gs
        → Reachable (prune_editor_group_files gs valid)
    remove_group :
        (gs : List (EditorGroupState W)) (group_id : JsString)
        → Reachable gs
        → Reachable (remove_editor_group ops gs group_id).0
    resize :
        (gs : List (EditorGroupState W)) (left_group_id : JsString) (delta : W)
        → Reachable gs
        → Reachable (resize_editor_group_boundary ops gs left_group_id delta)

  initial-IsValid : IsValid (initial_editor_group full ∷ [])
  initial-IsValid = record {
    nonempty = omega arith;
    unique = λ x. ground arith;
    once = λ x. omega arith;
    active = (inr (refl, refl), tt);
  }

  -- From the initial group on, whatever is split off with a new id, opened, closed, pruned, removed
  -- or resized: there is a group, no two groups have one id, no file is open twice, and each group
  -- shows one of its files, or has none and shows the empty name.
  pub Reachable-IsValid : (gs : List (EditorGroupState W)) → Reachable gs → IsValid gs
  Reachable-IsValid _ initial = initial-IsValid
  Reachable-IsValid _ (split gs group_id new_group_id r fresh) =
      split-IsValid ops gs group_id new_group_id fresh (Reachable-IsValid gs r)
  Reachable-IsValid _ (open_file gs group_id file r) =
      open-IsValid gs group_id file (Reachable-IsValid gs r)
  Reachable-IsValid _ (close_one gs group_id file r) =
      close-IsValid gs group_id file (Reachable-IsValid gs r)
  Reachable-IsValid _ (prune gs valid r) = prune-IsValid gs valid (Reachable-IsValid gs r)
  Reachable-IsValid _ (remove_group gs group_id r) =
      (remove_editor_group-IsValid ops gs group_id (Reachable-IsValid gs r)).0
  Reachable-IsValid _ (resize gs left_group_id delta r) =
      resize-IsValid ops gs left_group_id delta (Reachable-IsValid gs r)
