-- ===== src/Crdt/Tree/Visible/Parents.antt =====
-- The parents of the visible tree.
use syncode.Base.{
  ◌≡◌, subst, inl, inr, true, Option, none, some, List, [], ◌∷◌, arith, JsString, str_eq,
  Bool-cases,
}
use syncode.Base.Assoc.{Assoc, get, get-put, includes}
use syncode.Crdt.Id.{CrdtId}
use syncode.Crdt.Tree.Op.{RoomEntry}
use syncode.Crdt.Tree.Registers.{Registers}
use syncode.Crdt.Tree.Visible.{
  is_folder_entry, checked_parent, detach_parents, detach_invalid_parents, detach, finish, follow,
  break_loop, break_parent_cycles, materialize, walk_fuel,
}

module _ (entries : Assoc RoomEntry) where
  -- What is not at the top stands in a folder.
  abbrev pub AreFolders : Assoc (Option JsString) → Type 0
  AreFolders parents =
      (k p : JsString) → get k parents ≡ some (some p) → is_folder_entry (get p entries) ≡ true

  checked_parent_lem :
      (o : Option JsString) (p : JsString)
      → checked_parent entries o ≡ some p
      → is_folder_entry (get p entries) ≡ true
  unfolding checked_parent
  checked_parent_lem none p h = ground arith
  checked_parent_lem (some q) p h = elim (Bool-cases (is_folder_entry (get q entries))) [
    | inl folder ↦
        let e : q ≡ p = ground arith in subst (λ z. is_folder_entry (get z entries) ≡ true) e folder
    | inr other ↦ ground arith
  ]

  detach_parents-AreFolders : (m : Assoc (Option JsString)) → AreFolders (detach_parents entries m)
  unfolding detach_parents get
  detach_parents-AreFolders [] k p h = ground arith
  detach_parents-AreFolders ((j, o) ∷ m) k p h = elim (Bool-cases (str_eq j k)) [
    | inl same ↦ checked_parent_lem o p (ground arith)
    | inr other ↦ detach_parents-AreFolders m k p (ground arith)
  ]

  detach-AreFolders :
      (cut : Option JsString) (m : Assoc (Option JsString))
      → AreFolders m
      → AreFolders (detach cut m)
  detach-AreFolders none m f k p h = f k p h
  detach-AreFolders (some id) m f k p h = ground (arith, get-put id k none m, f k p)

  finish-AreFolders :
      (walk : Option (List JsString × Option JsString)) (complete : List JsString)
      (m : Assoc (Option JsString))
      → AreFolders m
      → AreFolders (finish walk complete m).1
  finish-AreFolders none complete m f = f
  finish-AreFolders (some (path, cut)) complete m f = detach-AreFolders cut m f

  break_loop-AreFolders :
      (versions : Assoc CrdtId) (starts complete : List JsString) (m : Assoc (Option JsString))
      → AreFolders m
      → AreFolders (break_loop versions starts complete m)
  unfolding break_loop
  break_loop-AreFolders versions [] complete m f = f
  break_loop-AreFolders versions (start ∷ starts) complete m f =
      elim (Bool-cases (includes start complete)) [
        | inl done ↦ rw done (break_loop-AreFolders versions starts complete m f)
        | inr fresh ↦
            let walk = follow (walk_fuel m) m versions complete [] (some start) in
            rw fresh (
              break_loop-AreFolders versions starts (finish walk complete m).0
                (finish walk complete m).1 (finish-AreFolders walk complete m f))
      ]

-- In the visible tree every parent is a visible folder.
pub materialize-AreFolders :
    (r : Registers) → AreFolders (materialize r).entries (materialize r).parents
unfolding materialize break_parent_cycles detach_invalid_parents
materialize-AreFolders r = break_loop-AreFolders _ _ _ _ _ (detach_parents-AreFolders _ _)
