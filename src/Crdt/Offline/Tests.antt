-- ===== src/Crdt/Offline/Tests.antt =====
-- The queue of one room with operations on two files.
use mathlib.Core.List.{Perm}
use syncode.Base.{
  ◌≡◌, refl, true, false, [], ◌∷◌, ◌++◌, JsString, units, str_eq, str_lt, decimal, decimal_digits,
  map, sort, List, take, drop, filter_by,
}
use syncode.Base.Assoc.{put, remove, has, values}
use syncode.Crdt.Document.{CrdtOp, delete, next_id}
use syncode.Crdt.Offline.{
  QueuedTextOp, Outcome, Sender, Store, confirmed, failed, make_key, queue_offline_text_op, before,
  list_offline_text_ops, remove_offline_text_op, clear_offline_text_ops, send_op, replay,
  replay_offline_text_ops,
}
use syncode.Crdt.Offline.Replay.{
  IsOrdered, confirmed_count, left_over, sent_op, replay_offline_text_ops-list,
}

abbrev room : JsString
room = units "r"

abbrev op : CrdtOp
op = delete (next_id (units "a") 0)

abbrev next_op : CrdtOp
next_op = delete (next_id (units "a") 1)

-- A page that has just been loaded, without a connection.
abbrev loaded : Store → Sender
loaded store = record { is_connected = false; offline_op_seq = 0; store = store; confirmed = [] }

abbrev store : Store
store =
    (send_op room true true (units "f") next_op
      (send_op room true true (units "g") op (loaded []))).store

-- What a run of the queue unfolds.
queue : Unit {0}
unfolding make_key queue_offline_text_op before list_offline_text_ops remove_offline_text_op
    clear_offline_text_ops send_op replay replay_offline_text_ops put remove has str_eq str_lt
    decimal decimal_digits sort
queue = tt

-- By file first; and a page that is loaded again before the connection is back numbers its
-- operations from 1 again, so that its first one replaces the queued one of the same file.
run_tests_queue :
    (map sent_op (list_offline_text_ops room store) ≡ (units "f", next_op) ∷ (units "g", op) ∷ [])
    × (clear_offline_text_ops room store ≡ [])
    × (map sent_op (
          list_offline_text_ops room
            (send_op room true true (units "g") next_op (loaded store)).store)
        ≡ (units "f", next_op) ∷ (units "g", next_op) ∷ [])
unfolding queue
run_tests_queue = (refl, refl, refl)

-- The call for the first operation returns and its removal fails; the second call fails.
abbrev outcomes : List Outcome
outcomes = confirmed false ∷ failed ∷ []

replay_offline_text_ops-list_example :
    let qs = list_offline_text_ops room store in
    let r = replay_offline_text_ops room true outcomes store in
    IsOrdered qs
    × Perm qs (filter_by (λ (q : QueuedTextOp). str_eq q.room_id room) (values store))
    × (r.0 ≡ map sent_op (take (confirmed_count outcomes) qs))
    × (list_offline_text_ops room r.1 ≡ left_over outcomes qs ++ drop (confirmed_count outcomes) qs)
unfolding queue
replay_offline_text_ops-list_example =
    replay_offline_text_ops-list room outcomes store (refl, (refl, tt)) (refl, (refl, tt))
