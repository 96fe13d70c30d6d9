-- ===== src/Crdt/Tree/Tests.antt =====
-- The file tree on small inputs: a folder and a file of site "a", renamed by site "b".
use mathlib.Core.List.{Mem, forall_mem-cons, not-mem-nil}
use mathlib.Core.List.Perm
use syncode.Base.{
  ◌≡◌, ◌≢◌, refl, sym, ap, arith, none, some, List, [], ◌∷◌, Option, JsString, units, str_eq, true,
  false,
}
use syncode.Base.Assoc.{Assoc, get, put}
use syncode.Crdt.Id.{CrdtId, crdt_id_to_string}
use syncode.Crdt.Id.Key.{crdt_id_to_string-injective}
use syncode.Crdt.Document.{next_id}
use syncode.Crdt.Tree.Op.{
  RoomEntry, TreeOp, create, move, rename, op_id, Result, ok, err, ◌>>=◌, clone_operation,
  clone_create, clone_rename, validate_id, validate_name, is_bad_name,
}
use syncode.Crdt.Tree.Registers.{Registers, build_registers}
use syncode.Crdt.Tree.Visible.{below_deleted, follow, walk_fuel, materialize}
use syncode.Crdt.Tree.Visible.Walks.{is_some, walk_fuel_lem}
use syncode.Crdt.Tree.Visible.Acyclic.{materialize-Climbs}
use syncode.Crdt.Tree.Visible.Climbs.{Climbs}
use syncode.Crdt.Tree.Visible.Parents.{AreFolders, materialize-AreFolders}
use syncode.Crdt.Tree.Registers.Order.{IsCoherent, Same, build_registers-perm}
use syncode.Crdt.Tree.Class.{ProjectTree, apply_operation, perform}
use syncode.Crdt.Tree.Class.Laws.{
  IsKept, apply_operation-IsKept, apply_operation_twice, perform_lem, Performs,
}

abbrev site_a : JsString
site_a = units "a"

abbrev site_b : JsString
site_b = units "b"

abbrev folder : RoomEntry
folder = record { id = units "d"; name = units "src"; parent_id = none; is_folder = true }

abbrev file : RoomEntry
file = record { id = units "f"; name = units "m.c"; parent_id = some folder.id; is_folder = false }

abbrev add_folder : TreeOp
add_folder = create (next_id site_a 0) folder

abbrev add_file : TreeOp
add_file = create (next_id site_a 1) file

abbrev rename_file : TreeOp
rename_file = rename (next_id site_b 2) file.id (units "n.c")

-- What a run of the tree unfolds.
tree : Unit {0}
unfolding apply_operation clone_operation clone_create clone_rename validate_id validate_name
    is_bad_name str_eq get put crdt_id_to_string
tree = tt

abbrev empty : ProjectTree
empty = record { site_id = site_a; clock = 0; operations = [] }

abbrev after : Result ProjectTree → ProjectTree
after (ok t) = t
after (err e) = empty

abbrev full : ProjectTree
full =
    after (
      apply_operation add_folder empty >>= apply_operation add_file >>= apply_operation rename_file)

abbrev with_file : ProjectTree
with_file = after (apply_operation add_folder empty >>= apply_operation add_file)

abbrev with_folder : ProjectTree
with_folder = after (apply_operation add_folder empty)

full-IsKept : IsKept full
unfolding tree
full-IsKept =
    apply_operation-IsKept rename_file with_file full
      (apply_operation-IsKept add_file with_folder with_file
        (apply_operation-IsKept add_folder empty with_folder (record { all = tt }) refl) refl)
      refl

abbrev two_ops : List TreeOp
two_ops = rename_file ∷ add_file ∷ []

one_of :
    (a b : TreeOp) (p : TreeOp → Type 0)
    → ((c : TreeOp) → IsProp (p c))
    → p a
    → p b
    → (c : TreeOp) → Mem c (a ∷ b ∷ [])
    → p c
one_of a b p prop pa pb =
    (forall_mem-cons {p = p} prop).1
      (pa, (forall_mem-cons {p = p} prop).1 (pb, λ c m. absurd (not-mem-nil m)))

two_ops-IsCoherent : IsCoherent two_ops
two_ops-IsCoherent x y m n =
    one_of rename_file add_file (λ a. op_id a ≡ op_id y → a ≡ y) (λ a. hlevel)
      (one_of rename_file add_file (λ b. op_id rename_file ≡ op_id b → rename_file ≡ b)
        (λ b. hlevel) (λ _. refl) (λ e. absurd (sites e)) y n)
      (one_of rename_file add_file (λ b. op_id add_file ≡ op_id b → add_file ≡ b) (λ b. hlevel)
        (λ e. absurd (sites (sym e))) (λ _. refl) y n)
      x m
  where
    sites : op_id rename_file ≢ op_id add_file
    sites e = omega (arith, ap (λ (i : CrdtId). i.counter) e)

-- Two entries, each the parent of the other.
abbrev looped : Assoc (Option JsString)
looped = (file.id, some folder.id) ∷ (folder.id, some file.id) ∷ []

abbrev registers : Registers
registers = build_registers (add_folder ∷ two_ops)

crdt_id_to_string-injective_example : next_id site_a 1 ≡ next_id site_a 1
crdt_id_to_string-injective_example =
    crdt_id_to_string-injective (next_id site_a 1) (next_id site_a 1) refl

build_registers-perm_example :
    Same (build_registers two_ops) (build_registers (add_file ∷ rename_file ∷ []))
build_registers-perm_example =
    build_registers-perm two_ops (add_file ∷ rename_file ∷ []) two_ops-IsCoherent (Perm.swap _ _ _)

apply_operation_twice_example : apply_operation rename_file full ≡ ok full
unfolding tree
apply_operation_twice_example = apply_operation_twice rename_file with_file full refl

perform_lem_example :
    let op = rename (next_id site_a 3) file.id (units "x") in
    Performs op full (clone_operation op) (perform (λ i. rename i file.id (units "x")) full)
    × IsKept (perform (λ i. rename i file.id (units "x")) full).0
unfolding tree
perform_lem_example = perform_lem (λ i. rename i file.id (units "x")) full (λ i. refl) full-IsKept

walk_fuel_lem_example :
    (is_some (below_deleted (walk_fuel looped) looped [] [] (some file.id)) ≡ true)
    × (is_some (follow (walk_fuel looped) looped [] [] [] (some file.id)) ≡ true)
walk_fuel_lem_example = walk_fuel_lem looped [] [] [] [] (some file.id)

materialize-AreFolders_example :
    AreFolders (materialize registers).entries (materialize registers).parents
materialize-AreFolders_example = materialize-AreFolders registers

-- Two replicas have each moved one folder into the other.
abbrev other_folder : RoomEntry
other_folder = record { id = units "e"; name = units "lib"; parent_id = none; is_folder = true }

abbrev crossed : Registers
crossed = build_registers (
    add_folder
    ∷ create (next_id site_a 1) other_folder
    ∷ move (next_id site_a 2) folder.id (some other_folder.id)
    ∷ move (next_id site_b 2) other_folder.id (some folder.id)
    ∷ [])

materialize-Climbs_example : Climbs (materialize crossed).parents (some (units "d"))
materialize-Climbs_example = materialize-Climbs crossed (units "d")
