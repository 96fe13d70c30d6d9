-- ===== src/Crdt/Tree/Op.antt =====
-- The operations on the file tree and their validation. An operation here has the types that the
-- `typeof` tests of the source ask for; a thrown error is `err`.
use Prim.Native.Nat.{◌^◌}
use syncode.Base.{
  ℕ, ◌-◌, Bool, true, false, not, ◌&&◌, ◌||◌, Option, none, some, JsString, units, str_eq, ltb, leb,
  ◌==◌, length, any, trim,
}
use syncode.Crdt.Id.{CrdtId}

pub record RoomEntry : Type 0 where
  pub id : JsString
  pub name : JsString
  pub parent_id : Option JsString
  pub is_folder : Bool

pub data TreeOp : Type 0 where
  create : CrdtId → RoomEntry → TreeOp
  rename : CrdtId → JsString → JsString → TreeOp
  move : CrdtId → JsString → Option JsString → TreeOp
  delete : CrdtId → JsString → TreeOp

abbrev pub op_id : TreeOp → CrdtId
op_id (create i e) = i
op_id (rename i e n) = i
op_id (move i e p) = i
op_id (delete i e) = i

pub data TreeError : Type 0 where
  invalid_id invalid_name invalid_create invalid_rename invalid_move invalid_delete : TreeError
  conflicting_id name_taken invalid_site : TreeError

infixl 5 ◌>>◌ ◌>>=◌
-- What a call gives back: its value, or what it throws.
pub data Result {κ} (V : Type κ) : Type κ where
  ok : (value : V) → Result V
  err : (thrown : TreeError) → Result V

-- A throw leaves the rest of the block undone.
abbrev pub ◌>>=◌ {κ μ} : {V : Type κ} {W : Type μ} (m : Result V) (next : V → Result W) → Result W
ok value >>= next = next value
err thrown >>= next = err thrown

abbrev pub ◌>>◌ {μ} : {W : Type μ} (test : Result (Unit {0})) (next : Result W) → Result W
test >> next = test >>= λ _. next

-- `if (test) throw …`.
abbrev pub reject : Bool → TreeError → Result (Unit {0})
reject true e = err e
reject false e = ok tt

-- `Number.isSafeInteger`.
abbrev pub max_safe_integer : ℕ
max_safe_integer = 2 ^ 53 - 1

unfoldable pub validate_id : CrdtId → Result (Unit {0})
validate_id id =
    reject
      (length id.site_id == 0
        || ltb 128 (length id.site_id)
        || not (leb id.counter max_safe_integer)
        || ltb id.counter 1)
      invalid_id

abbrev pub is_control : ℕ → Bool
is_control c = ltb c 32 || c == 127

-- `/[\\/:*?"<>|]/`.
abbrev pub is_reserved : ℕ → Bool
is_reserved c =
    c == 92 || c == 47 || c == 58 || c == 42 || c == 63 || c == 34 || c == 60 || c == 62 || c == 124

unfoldable pub is_bad_name : JsString → Bool
unfolding trim
is_bad_name name =
    let trimmed = trim name in
    ltb (length trimmed) 1
    || ltb 128 (length trimmed)
    || str_eq trimmed (units ".")
    || str_eq trimmed (units "..")
    || any is_reserved name
    || any is_control name

unfoldable pub validate_name : JsString → Result (Unit {0})
validate_name name = reject (is_bad_name name) invalid_name

unfoldable pub clone_create : CrdtId → RoomEntry → Result TreeOp
clone_create i entry = do
  reject (length entry.id == 0 || ltb 128 (length entry.id)) invalid_create
  validate_name entry.name
  ok (create i (record entry { name = trim entry.name }))

unfoldable pub clone_rename : CrdtId → JsString → JsString → Result TreeOp
clone_rename i entry_id name = do
  reject (length entry_id == 0) invalid_rename
  validate_name name
  ok (rename i entry_id (trim name))

unfoldable pub clone_move : CrdtId → JsString → Option JsString → Result TreeOp
clone_move i entry_id parent_id = do
  reject (length entry_id == 0) invalid_move
  ok (move i entry_id parent_id)

unfoldable pub clone_delete : CrdtId → JsString → Result TreeOp
clone_delete i entry_id = do reject (length entry_id == 0) invalid_delete; ok (delete i entry_id)

abbrev pub clone_kind : TreeOp → Result TreeOp
clone_kind (create i entry) = clone_create i entry
clone_kind (rename i entry_id name) = clone_rename i entry_id name
clone_kind (move i entry_id parent_id) = clone_move i entry_id parent_id
clone_kind (delete i entry_id) = clone_delete i entry_id

unfoldable pub clone_operation : TreeOp → Result TreeOp
clone_operation op = do validate_id (op_id op); clone_kind op

abbrev pub same_parent : Option JsString → Option JsString → Bool
same_parent none none = true
same_parent none (some q) = false
same_parent (some p) none = false
same_parent (some p) (some q) = str_eq p q

abbrev pub same_flag : Bool → Bool → Bool
same_flag true b = b
same_flag false b = not b

-- The equality of the two texts that `operationValue` prints: the kind and the fields, not the id
-- of the operation.
unfoldable pub same_value : TreeOp → TreeOp → Bool
same_value (create i a) (create j b) =
    str_eq a.id b.id
    && str_eq a.name b.name
    && same_parent a.parent_id b.parent_id
    && same_flag a.is_folder b.is_folder
same_value (rename i e n) (rename j f m) = str_eq e f && str_eq n m
same_value (move i e p) (move j f q) = str_eq e f && same_parent p q
same_value (delete i e) (delete j f) = str_eq e f
same_value _ _ = false
