-- ===== src/Crdt/Offline.antt =====
-- crdt/offlineTextOpQueue.ts, and `sendOp` and `replayOfflineTextOps` of
-- providers/SignalRCrdtProvider.ts: text operations that wait for a connection. The object store
-- of IndexedDB is an association list by key; the connection's answers are parameters.
pub mod Listed
pub mod Replay
mod Tests
use syncode.Base.{
  ℕ, zero, suc, ◌-◌, Bool, true, false, not, List, [], ◌∷◌, ◌++◌, JsString, units, str_eq, str_lt,
  decimal, ltb, if◌then◌else◌, length, filter_by, sort,
}
use syncode.Base.Assoc.{Assoc, put, remove, values}
use syncode.Crdt.Document.{CrdtOp}

pub record QueuedTextOp : Type 0 where
  pub key : JsString
  pub room_id : JsString
  pub file_id : JsString
  pub seq : ℕ
  pub op : CrdtOp

-- The object store, with the key of each record.
abbrev pub Store : Type 0
Store = Assoc QueuedTextOp

abbrev repeat : ℕ → ℕ → JsString
repeat zero c = []
repeat (suc n) c = c ∷ repeat n c

-- `padStart(12, '0')`.
abbrev pub pad_start : JsString → JsString
pad_start s = repeat (12 - length s) 48 ++ s

unfoldable pub make_key : JsString → JsString → ℕ → JsString
make_key room_id file_id seq =
    room_id ++ (units ":" ++ (file_id ++ (units ":" ++ pad_start (decimal seq))))

unfoldable pub queue_offline_text_op : JsString → JsString → CrdtOp → ℕ → Store → Store
queue_offline_text_op room_id file_id op seq store =
    let key = make_key room_id file_id seq in
    put key (record { key = key; room_id = room_id; file_id = file_id; seq = seq; op = op }) store

-- The comparison of `sort`.
unfoldable pub before : QueuedTextOp → QueuedTextOp → Bool
before a b = if str_eq a.file_id b.file_id then ltb a.seq b.seq else str_lt a.file_id b.file_id

unfoldable pub list_offline_text_ops : JsString → Store → List QueuedTextOp
list_offline_text_ops room_id store =
    sort before (filter_by (λ (q : QueuedTextOp). str_eq q.room_id room_id) (values store))

unfoldable pub remove_offline_text_op : JsString → Store → Store
remove_offline_text_op key store = remove key store

unfoldable pub clear_offline_text_ops : JsString → Store → Store
clear_offline_text_ops room_id store =
    filter_by (λ (e : JsString × QueuedTextOp). not (str_eq e.1.room_id room_id)) store

-- The part of the provider that sends: its connection, its counter and the store, with the
-- operations whose call of the server has returned.
pub record Sender : Type 0 where
  pub is_connected : Bool
  pub offline_op_seq : ℕ
  pub store : Store
  pub confirmed : List (JsString × CrdtOp)

-- `sendOp`. `is_confirmed` says whether the call of the server returns, `is_stored` whether the
-- browser stores the record; both failures are ignored.
unfoldable pub send_op : JsString → Bool → Bool → JsString → CrdtOp → Sender → Sender
send_op room_id is_confirmed is_stored file_id op s =
    let seq = suc s.offline_op_seq in
    if s.is_connected
    then (if is_confirmed then record s { confirmed = s.confirmed ++ (file_id, op) ∷ [] } else s)
    else record s {
      offline_op_seq = seq;
      store = if is_stored then queue_offline_text_op room_id file_id op seq s.store else s.store;
    }

-- What happens at one operation of a replay. A call that fails may have reached the server all the
-- same, before the connection was lost. A removal that fails is ignored.
pub data Outcome : Type 0 where
  disconnected : Outcome
  failed : Outcome
  confirmed : (is_removed : Bool) → Outcome

-- The loop, with the operations whose call has returned, and the store; without an outcome the
-- connection is gone.
unfoldable pub replay : List Outcome → List QueuedTextOp → Store → List (JsString × CrdtOp) × Store
replay outcomes [] store = ([], store)
replay [] (q ∷ qs) store = ([], store)
replay (disconnected ∷ os) (q ∷ qs) store = ([], store)
replay (failed ∷ os) (q ∷ qs) store = ([], store)
replay (confirmed is_removed ∷ os) (q ∷ qs) store =
    let (sent, store') =
      replay os qs (if is_removed then remove_offline_text_op q.key store else store) in
    ((q.file_id, q.op) ∷ sent, store')

-- A reading of the queue that fails gives no operations.
abbrev pub listed_ops : Bool → JsString → Store → List QueuedTextOp
listed_ops false room_id store = []
listed_ops true room_id store = list_offline_text_ops room_id store

unfoldable pub replay_offline_text_ops :
    JsString → Bool → List Outcome → Store → List (JsString × CrdtOp) × Store
replay_offline_text_ops room_id is_listed outcomes store =
    replay outcomes (listed_ops is_listed room_id store) store
