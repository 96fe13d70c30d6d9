-- ===== src/Crdt/Document/Tests.antt =====
-- The text document on small inputs: "hi" typed at site "a", with one insertion and one deletion
-- from site "b".
use mathlib.Core.List.Perm
use syncode.Base.{◌≡◌, refl, none, some, List, [], ◌∷◌, ◌||◌, JsString, units, str_eq, str_lt}
use syncode.Crdt.Id.{CrdtId, id_eq, newer, crdt_ids_equal}
use syncode.Crdt.Document.{
  CrdtChar, CrdtOp, CrdtDocument, insert, delete, create_char, next_id, from_text, to_snapshot,
  from_snapshot, local_insert, local_delete, apply_op, insert_char, has_char, to_visible_string,
  integrate_remote_insert, integrate_remote_delete, scan, origin_pos, find_char_index, mark_deleted,
  mark_at,
}
use syncode.Crdt.Document.Forest.{nil, node, flatten, place, graft, plant}
use syncode.Crdt.Document.Forest.Present.{present}
use syncode.Crdt.Document.Forest.Plant.{insert_char-plant}
use syncode.Crdt.Document.Convergence.{deliver, deliver-perm, Ready}
use syncode.Crdt.Document.Local.{local_insert-after}
use syncode.Crdt.Document.Invariant.{Inv, apply_op-Inv, local_insert-apply_op, apply_op_twice}
use syncode.Crdt.Document.Gone.{is_gone}
use syncode.Crdt.Document.Snapshot.{from_snapshot-Inv}
use syncode.Crdt.Document.Text.{from_text-Inv}

-- What a run of the document unfolds.
document : Unit {0}
unfolding from_text to_visible_string has_char find_char_index id_eq str_eq str_lt present flatten
    apply_op integrate_remote_insert integrate_remote_delete insert_char scan origin_pos newer
    crdt_ids_equal mark_deleted mark_at deliver local_insert local_delete to_snapshot
document = tt

abbrev site_a : JsString
site_a = units "a"

abbrev site_b : JsString
site_b = units "b"

abbrev start : CrdtDocument
start = from_text site_a (units "hi")

abbrev h_char : CrdtChar
h_char = create_char (next_id site_a 0) (units "h") none

abbrev i_char : CrdtChar
i_char = create_char (next_id site_a 1) (units "i") (some h_char.id)

abbrev x_char : CrdtChar
x_char = create_char (next_id site_b 2) (units "x") (some h_char.id)

abbrev edits : List CrdtOp
edits = insert x_char ∷ delete i_char.id ∷ []

start-Inv : Inv start
start-Inv = (from_text-Inv site_a (units "hi")).0

abbrev run_tests : List JsString
run_tests =
    to_visible_string start
    ∷ to_visible_string (deliver edits start)
    ∷ to_visible_string (local_insert (some i_char.id) (units "!") start).0
    ∷ to_visible_string (local_delete h_char.id start).0
    ∷ []

run_tests_lem : run_tests ≡ units "hi" ∷ units "hx" ∷ units "hi!" ∷ units "i" ∷ []
unfolding document
run_tests_lem = refl

deliver-perm_example : deliver edits start ≡ deliver (delete i_char.id ∷ insert x_char ∷ []) start
unfolding document
deliver-perm_example =
    deliver-perm edits (delete i_char.id ∷ insert x_char ∷ []) start start-Inv.formed
      ((refl, refl), (refl, tt)) (refl, ((refl, refl), tt)) (Perm.swap _ _ _)

insert_char-plant_example :
    insert_char x_char (h_char ∷ i_char ∷ []) ≡ h_char ∷ x_char ∷ i_char ∷ []
unfolding document plant graft place
insert_char-plant_example =
    insert_char-plant x_char (node h_char (node i_char nil nil) nil) (refl, (refl, tt))
      (refl, (refl, tt, tt), tt) refl

local_insert-after_example :
    (local_insert (some h_char.id) (units "o") start).0.chars
    ≡ h_char ∷ create_char (next_id site_a 2) (units "o") (some h_char.id) ∷ i_char ∷ []
unfolding document
local_insert-after_example =
    local_insert-after start [] (i_char ∷ []) h_char (units "o") start-Inv.formed start-Inv.bounds
      refl

apply_op-Inv_example : Inv (apply_op (insert x_char) start)
unfolding document
apply_op-Inv_example = apply_op-Inv (insert x_char) start start-Inv (refl, refl)

local_insert-apply_op_example :
    Ready (local_insert (some h_char.id) (units "o") start).1 start
    × ((local_insert (some h_char.id) (units "o") start).0
        ≡ apply_op (local_insert (some h_char.id) (units "o") start).1 start)
unfolding document
local_insert-apply_op_example =
    local_insert-apply_op start (some h_char.id) (units "o") start-Inv refl

apply_op_twice_example :
    apply_op (insert x_char) (apply_op (insert x_char) start) ≡ apply_op (insert x_char) start
unfolding document
apply_op_twice_example = apply_op_twice (insert x_char) start start-Inv (refl, refl)

from_text-Inv_example :
    Inv (from_text site_a (units "hi"))
    × (to_visible_string (from_text site_a (units "hi")) ≡ units "hi")
from_text-Inv_example = from_text-Inv site_a (units "hi")

abbrev peer : CrdtDocument
peer = from_text site_b (units "yo")

peer-Inv : Inv peer
peer-Inv = (from_text-Inv site_b (units "yo")).0

from_snapshot-Inv_example :
    Inv (from_snapshot (to_snapshot peer) start)
    × ((id : CrdtId)
        → has_char id (from_snapshot (to_snapshot peer) start).chars
          ≡ (has_char id (to_snapshot peer).chars || has_char id start.chars))
    × ((id : CrdtId)
        → is_gone id (from_snapshot (to_snapshot peer) start).chars
          ≡ (is_gone id (to_snapshot peer).chars || is_gone id start.chars))
unfolding to_snapshot
from_snapshot-Inv_example =
    from_snapshot-Inv (to_snapshot peer) start peer-Inv.formed peer-Inv.bounds start-Inv
