-- ===== src/Crdt/Tree/Compact.antt =====
-- `toSnapshot`: at most four operations for each entry carry the registers.
use syncode.Base.{
  Ordering, Bool, true, false, Option, none, some, List, [], ◌∷◌, ◌++◌, JsString, if◌then◌else◌,
  sort,
}
use syncode.Base.Assoc.{Assoc, get, has}
use syncode.Crdt.Id.{CrdtId, newer, compare_crdt_ids}
use syncode.Crdt.Tree.Op.{
  RoomEntry, TreeOp, create, rename, move, delete, op_id, Result, ok, ◌>>=◌, clone_operation,
}
use syncode.Crdt.Tree.Registers.{EntryRegister, Registers}

-- `compareCrdtIds(a, b) !== 0`.
unfoldable pub differs : CrdtId → CrdtId → Bool
differs a b = elim (compare_crdt_ids a b) [ Ordering.eq ↦ false | _ ↦ true ]

abbrev pub rename_part : JsString → CrdtId → Option (EntryRegister JsString) → List TreeOp
rename_part k i none = []
rename_part k i (some r) = if differs r.op_id i then rename r.op_id k r.value ∷ [] else []

abbrev pub move_part : JsString → CrdtId → Option (EntryRegister (Option JsString)) → List TreeOp
move_part k i none = []
move_part k i (some r) = if differs r.op_id i then move r.op_id k r.value ∷ [] else []

abbrev pub delete_part : JsString → Option (EntryRegister (Unit {0})) → List TreeOp
delete_part k none = []
delete_part k (some r) = delete r.op_id k ∷ []

-- The loop of `compactEntryOperations` over the creations.
unfoldable pub compact_entries : Registers → Assoc (EntryRegister RoomEntry) → List TreeOp
compact_entries r [] = []
compact_entries r ((k, c) ∷ rest) =
    (create c.op_id c.value
      ∷ (rename_part k c.op_id (get k r.names)
          ++ (move_part k c.op_id (get k r.parents) ++ delete_part k (get k r.deleted))))
    ++ compact_entries r rest

-- The three loops of `compactOrphanOperations`.
unfoldable pub orphan_names : Registers → Assoc (EntryRegister JsString) → List TreeOp
orphan_names r [] = []
orphan_names r ((k, n) ∷ rest) =
    let more = orphan_names r rest in
    if has k r.creates then more else rename n.op_id k n.value ∷ more

unfoldable pub orphan_parents : Registers → Assoc (EntryRegister (Option JsString)) → List TreeOp
orphan_parents r [] = []
orphan_parents r ((k, p) ∷ rest) =
    let more = orphan_parents r rest in
    if has k r.creates then more else move p.op_id k p.value ∷ more

unfoldable pub orphan_deletions : Registers → Assoc (EntryRegister (Unit {0})) → List TreeOp
orphan_deletions r [] = []
orphan_deletions r ((k, d) ∷ rest) =
    let more = orphan_deletions r rest in if has k r.creates then more else delete d.op_id k ∷ more

unfoldable pub compact : Registers → List TreeOp
compact r =
    compact_entries r r.creates
    ++ (orphan_names r r.names ++ (orphan_parents r r.parents ++ orphan_deletions r r.deleted))

-- `map(cloneOperation)`.
unfoldable pub clone_all : List TreeOp → Result (List TreeOp)
clone_all [] = ok []
clone_all (op ∷ ops) = do o ← clone_operation op; os ← clone_all ops; ok (o ∷ os)

-- The operations of the snapshot, in the order of their ids.
unfoldable pub snapshot_operations : Registers → Result (List TreeOp)
snapshot_operations r = do
  ops ← clone_all (compact r)
  ok (sort (λ a b. newer (op_id b) (op_id a)) ops)
