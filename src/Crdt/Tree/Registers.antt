-- ===== src/Crdt/Tree/Registers.antt =====
-- `buildRegisters`: for each entry the newest operation on its creation, name, parent and deletion.
pub mod Order
use syncode.Base.{Bool, true, false, Option, none, some, List, [], ◌∷◌, JsString, if◌then◌else◌}
use syncode.Base.Assoc.{Assoc, get, put}
use syncode.Crdt.Id.{CrdtId, newer}
use syncode.Crdt.Tree.Op.{RoomEntry, TreeOp, create, rename, move, delete}

pub record EntryRegister (T : Type 0) : Type 0 where
  pub op_id : CrdtId
  pub value : T

abbrev pub register : {T : Type 0} → CrdtId → T → EntryRegister T
register i v = record { op_id = i; value = v }

pub record Registers : Type 0 where
  pub creates : Assoc (EntryRegister RoomEntry)
  pub names : Assoc (EntryRegister JsString)
  pub parents : Assoc (EntryRegister (Option JsString))
  pub deleted : Assoc (EntryRegister (Unit {0}))

abbrev pub no_registers : Registers
no_registers = record { creates = []; names = []; parents = []; deleted = [] }

unfoldable pub select_register :
    {T : Type 0} → Option (EntryRegister T) → EntryRegister T → EntryRegister T
select_register none candidate = candidate
select_register (some current) candidate =
    if newer candidate.op_id current.op_id then candidate else current

-- `map.set(id, selectRegister(map.get(id), candidate))`.
unfoldable pub offer :
    {T : Type 0} → JsString → EntryRegister T → Assoc (EntryRegister T) → Assoc (EntryRegister T)
offer k r m = put k (select_register (get k m) r) m

unfoldable pub add_operation : TreeOp → Registers → Registers
add_operation (create i entry) r = record r {
  creates = offer entry.id (register i entry) r.creates;
  names = offer entry.id (register i entry.name) r.names;
  parents = offer entry.id (register i entry.parent_id) r.parents;
}
add_operation (rename i entry_id name) r = record r {
  names = offer entry_id (register i name) r.names;
}
add_operation (move i entry_id parent_id) r = record r {
  parents = offer entry_id (register i parent_id) r.parents;
}
add_operation (delete i entry_id) r = record r {
  deleted = offer entry_id (register i tt) r.deleted;
}

unfoldable pub add_operations : List TreeOp → Registers → Registers
add_operations [] r = r
add_operations (op ∷ ops) r = add_operations ops (add_operation op r)

unfoldable pub build_registers : List TreeOp → Registers
build_registers ops = add_operations ops no_registers
