-- ===== src/Crdt/Pending/Tests.antt =====
-- The buffer on small inputs: site "a" types "x" and "y", and deletes "x"; the operations arrive in
-- the opposite order.
use mathlib.Core.List.{Perm}
use mathlib.Core.List.Perm
use mathlib.Core.Option
use syncode.Base.{◌≡◌, refl, none, some, List, [], ◌∷◌, units, str_eq, str_lt}
use syncode.Base.Assoc.{get, has, put, remove}
use syncode.Crdt.Id.{crdt_id_to_string, id_eq, newer, crdt_ids_equal}
use syncode.Crdt.Document.{
  CrdtChar, CrdtOp, CrdtDocument, insert, delete, create_char, new_document, next_id, apply_op,
  has_char, find_char_index, to_visible_string, integrate_remote_insert, integrate_remote_delete,
  insert_char, scan, origin_pos, mark_deleted, mark_at,
}
use syncode.Crdt.Document.Convergence.{deliver}
use syncode.Crdt.Document.Forest.{nil, flatten}
use syncode.Crdt.Pending.{
  PendingBuffer, new_buffer, process, process_all, process_insert, process_delete, is_insert_ready,
  is_origin_there, integrate_and_drain, drain, drain_deletes, drain_inserts, integrate_inserts,
  integrate_deletes, size,
}
use syncode.Crdt.Pending.Eventual.{process_all-deliver}
use syncode.Crdt.Pending.Rounds.{
  process_pending, pending_fuel, process_ready_inserts, process_ready_deletes, insert_round,
  delete_round, filter_inserts, filter_deletes,
}
use syncode.Crdt.Pending.Rounds.Ends.{process_pending-ends}

-- What a run of the buffer unfolds.
buffer : Unit {0}
unfolding process_all process process_insert process_delete is_insert_ready is_origin_there
    integrate_and_drain drain drain_deletes drain_inserts integrate_inserts integrate_deletes size
    get put remove crdt_id_to_string id_eq newer crdt_ids_equal has_char find_char_index
    to_visible_string integrate_remote_insert integrate_remote_delete insert_char scan origin_pos
    mark_deleted mark_at deliver apply_op str_eq str_lt flatten
buffer = tt

abbrev x_char : CrdtChar
x_char = create_char (next_id (units "a") 0) (units "x") none

abbrev y_char : CrdtChar
y_char = create_char (next_id (units "a") 1) (units "y") (some x_char.id)

abbrev sent : List CrdtOp
sent = insert x_char ∷ insert y_char ∷ delete x_char.id ∷ []

abbrev received : List CrdtOp
received = delete x_char.id ∷ insert y_char ∷ insert x_char ∷ []

abbrev replica : CrdtDocument
replica = new_document (units "b")

run_tests_buffer :
    (size (process_all (delete x_char.id ∷ insert y_char ∷ []) (new_buffer replica)) ≡ 2)
    × (to_visible_string (process_all received (new_buffer replica)).doc ≡ units "y")
unfolding buffer
run_tests_buffer = (refl, refl)

reversed : Perm received sent
reversed =
    Perm.trans (Perm.swap _ _ _) (Perm.trans (Perm.cons _ (Perm.swap _ _ _)) (Perm.swap _ _ _))

process_all-deliver_example :
    ((process_all received (new_buffer replica)).doc ≡ deliver sent replica)
    × (size (process_all received (new_buffer replica)) ≡ 0)
unfolding buffer
process_all-deliver_example =
    process_all-deliver received sent replica
      (record { forest = nil; reads = refl; rooted = tt; distinct = tt })
      ((refl, tt), ((refl, refl), (refl, tt))) reversed

-- The document gets "x" from a snapshot while "y" and the deletion of "x" wait for it.
abbrev overtaken : PendingBuffer
overtaken = record (process_all (delete x_char.id ∷ insert y_char ∷ []) (new_buffer replica)) {
  doc = integrate_remote_insert x_char replica;
}

run_tests_rounds :
    Option.map (λ b. to_visible_string b.doc) (process_pending (pending_fuel overtaken) overtaken)
    ≡ some (units "y")
unfolding buffer process_pending process_ready_inserts process_ready_deletes insert_round
    delete_round filter_inserts filter_deletes
run_tests_rounds = refl

process_pending-ends_example :
    (b : PendingBuffer) × (process_pending (pending_fuel overtaken) overtaken ≡ some b)
unfolding buffer has
process_pending-ends_example = process_pending-ends overtaken (refl, tt) (refl, tt)
