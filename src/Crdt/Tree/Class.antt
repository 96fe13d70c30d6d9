-- ===== src/Crdt/Tree/Class.antt =====
-- Class `ProjectTree`. A method returns the new state with its result, also when it throws.
-- `toLowerCase` is the parameter `lower`, since it is a table over all of Unicode.
pub mod Laws
use syncode.Base.{
  ℕ, zero, suc, max, Bool, true, false, not, ◌&&◌, ◌||◌, Option, none, some, List, [], ◌∷◌,
  JsString, units, str_eq, str_lt, ltb, ◌==◌, if◌then◌else◌, length, any, sort,
}
use syncode.Base.Assoc.{Assoc, get, put, remove, values}
use syncode.Crdt.Id.{CrdtId, crdt_id_to_string}
use syncode.Crdt.Tree.Op.{
  RoomEntry, TreeOp, create, rename, move, delete, op_id, TreeError, conflicting_id, name_taken,
  invalid_site, Result, ok, err, ◌>>=◌, ◌>>◌, reject, clone_operation, same_value, same_parent,
}
use syncode.Crdt.Tree.Registers.{build_registers}
use syncode.Crdt.Tree.Compact.{clone_all, snapshot_operations}
use syncode.Crdt.Tree.Visible
use syncode.Crdt.Document.{next_id}

pub record ProjectTree : Type 0 where
  pub site_id : JsString
  pub clock : ℕ
  pub operations : Assoc TreeOp

unfoldable pub new_tree : JsString → Result ProjectTree
new_tree site_id = do
  reject (length site_id == 0 || ltb 128 (length site_id)) invalid_site
  ok (record { site_id = site_id; clock = 0; operations = [] })

abbrev pub op_key : TreeOp → JsString
op_key op = crdt_id_to_string (some (op_id op))

abbrev pub add_cloned : TreeOp → Option TreeOp → ProjectTree → Result ProjectTree
add_cloned op none t = ok (record t {
  operations = put (op_key op) op t.operations;
  clock = max t.clock (op_id op).counter;
})
add_cloned op (some current) t = if same_value current op then ok t else err conflicting_id

unfoldable pub apply_operation : TreeOp → ProjectTree → Result ProjectTree
apply_operation input t = do
  op ← clone_operation input
  add_cloned op (get (op_key op) t.operations) t

unfoldable pub remove_operation : CrdtId → ProjectTree → ProjectTree
remove_operation i t = record t { operations = remove (crdt_id_to_string (some i)) t.operations }

unfoldable pub get_entries : ProjectTree → List RoomEntry
get_entries t = Visible.get_entries (build_registers (values t.operations))

unfoldable pub to_snapshot : ProjectTree → Result (List TreeOp)
to_snapshot t = snapshot_operations (build_registers (values t.operations))

-- `this.applyOperation(operation); return operation`, after the clock has moved.
abbrev pub commit : TreeOp → ProjectTree → Result ProjectTree → ProjectTree × Result TreeOp
commit op t (ok t') = (t', ok op)
commit op t (err e) = (t, err e)

-- `makeOperation` and `applyOperation`; `make` gets the new id.
unfoldable pub perform : (CrdtId → TreeOp) → ProjectTree → ProjectTree × Result TreeOp
perform make t =
    let op = make (next_id t.site_id t.clock) in
    let ticked = record t { clock = suc t.clock } in commit op ticked (apply_operation op ticked)

unfoldable pub rename_entry : JsString → JsString → ProjectTree → ProjectTree × Result TreeOp
rename_entry entry_id name = perform (λ i. rename i entry_id name)

unfoldable pub move_entry : JsString → Option JsString → ProjectTree → ProjectTree × Result TreeOp
move_entry entry_id parent_id = perform (λ i. move i entry_id parent_id)

unfoldable pub delete_entry : JsString → ProjectTree → ProjectTree × Result TreeOp
delete_entry entry_id = perform (λ i. delete i entry_id)

module _ (lower : JsString → JsString) where
  unfoldable pub is_name_taken : RoomEntry → List RoomEntry → Bool
  is_name_taken entry = any (λ current.
      same_parent current.parent_id entry.parent_id
      && str_eq (lower current.name) (lower entry.name))

  unfoldable pub create_entry : RoomEntry → ProjectTree → ProjectTree × Result TreeOp
  create_entry entry t =
      if is_name_taken entry (get_entries t)
      then (t, err name_taken)
      else perform (λ i. create i entry) t

-- The loop of `fromEntries`, from the counter `n` on.
unfoldable pub seed_entries : ℕ → List RoomEntry → ProjectTree → Result ProjectTree
seed_entries n [] t = ok t
seed_entries n (e ∷ es) t = do
  t' ← apply_operation (create (next_id (units "syncode-seed") n) e) t
  seed_entries (suc n) es t'

unfoldable pub from_entries : JsString → List RoomEntry → Result ProjectTree
from_entries site_id entries = do
  t ← new_tree site_id
  seed_entries 0 (sort (λ a b. str_lt a.id b.id) entries) t

-- `seen.get(key) ?? existingOperations.get(key)`.
abbrev pub seen_or : Option TreeOp → Option TreeOp → Option TreeOp
seen_or none o = o
seen_or (some op) o = some op

abbrev pub clashes : Option TreeOp → TreeOp → Bool
clashes none op = false
clashes (some existing) op = not (same_value existing op)

unfoldable pub validate_batch : List TreeOp → Assoc TreeOp → Assoc TreeOp → Result (Unit {0})
validate_batch [] seen existing = ok tt
validate_batch (op ∷ ops) seen existing = do
  reject (clashes (seen_or (get (op_key op) seen) (get (op_key op) existing)) op) conflicting_id
  validate_batch ops (put (op_key op) op seen) existing

-- A loop that stops at the first operation that throws, and keeps what it has applied.

unfoldable pub apply_all : List TreeOp → ProjectTree → ProjectTree × Result (Unit {0})
apply_all [] t = (t, ok tt)
apply_all (op ∷ ops) t = elim (apply_operation op t) [
  | ok t' ↦ apply_all ops t'
  | err e ↦ (t, err e)
]

abbrev pub after_check :
    Result (Unit {0}) → List TreeOp → ProjectTree → ProjectTree × Result (Unit {0})
after_check (ok u) ops t = apply_all ops t
after_check (err e) ops t = (t, err e)

abbrev pub after_clone : Result (List TreeOp) → ProjectTree → ProjectTree × Result (Unit {0})
after_clone (ok ops) t = after_check (validate_batch ops [] t.operations) ops t
after_clone (err e) t = (t, err e)

-- The snapshot is the array of operations that `JSON.parse` gives back.
unfoldable pub from_snapshot : List TreeOp → ProjectTree → ProjectTree × Result (Unit {0})
from_snapshot incoming t = after_clone (clone_all incoming) t

-- `validatePendingProjectTreeOperations`: the operations that the tree accepts one after the other.
unfoldable pub accepted : List TreeOp → ProjectTree → List TreeOp
accepted [] t = []
accepted (op ∷ ops) t = elim (apply_operation op t) [
  | ok t' ↦ op ∷ accepted ops t'
  | err e ↦ accepted ops t
]
