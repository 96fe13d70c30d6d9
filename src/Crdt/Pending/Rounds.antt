-- ===== src/Crdt/Pending/Rounds.antt =====
-- `processPending` of client/src/crdt/PendingBuffer.ts: after a change of the document from outside the buffer,
-- rounds over all that waits, until one makes no progress.
pub mod Shrinks
pub mod Ends
use syncode.Base.{
  ℕ, zero, suc, ◌==◌, Bool, true, false, ◌||◌, Option, none, some, List, [], ◌∷◌, JsString,
  if◌then◌else◌, length,
}
use syncode.Base.Assoc.{Assoc, put, remove}
use syncode.Crdt.Id.{CrdtId}
use syncode.Crdt.Document.{CrdtChar, has_char, integrate_remote_delete}
use syncode.Crdt.Pending.{PendingBuffer, size, is_insert_ready, integrate_and_drain}

-- An empty list leaves the map.
abbrev pub replace_pending : {A : Type 0} → JsString → List A → Assoc (List A) → Assoc (List A)
replace_pending key [] m = remove key m
replace_pending key (x ∷ xs) m = put key (x ∷ xs) m

-- The `filter` over the insertions of a key: what remains, the buffer, and whether there was
-- progress.
unfoldable pub filter_inserts : List CrdtChar → PendingBuffer → List CrdtChar × PendingBuffer × Bool
filter_inserts [] b = ([], b, false)
filter_inserts (c ∷ cs) b =
    let is_ready = is_insert_ready c b.doc in
    let b' = if is_ready then integrate_and_drain c b else b in
    let (remaining, b'', progressed) = filter_inserts cs b' in
    (if is_ready then remaining else c ∷ remaining, b'', is_ready || progressed)

-- The loop over the entries that `Array.from` has copied.
unfoldable pub insert_round : Assoc (List CrdtChar) → PendingBuffer → PendingBuffer × Bool
insert_round [] b = (b, false)
insert_round ((key, cs) ∷ entries) b =
    let (remaining, b', progressed) = filter_inserts cs b in
    let (b'', later) =
      insert_round entries
        (record b' { pending_inserts = replace_pending key remaining b'.pending_inserts }) in
    (b'', progressed || later)

unfoldable pub process_ready_inserts : PendingBuffer → PendingBuffer × Bool
process_ready_inserts b = insert_round b.pending_inserts b

unfoldable pub filter_deletes : List CrdtId → PendingBuffer → List CrdtId × PendingBuffer × Bool
filter_deletes [] b = ([], b, false)
filter_deletes (id ∷ ids) b =
    let is_there = has_char id b.doc.chars in
    let b' = if is_there then record b { doc = integrate_remote_delete id b.doc } else b in
    let (remaining, b'', progressed) = filter_deletes ids b' in
    (if is_there then remaining else id ∷ remaining, b'', is_there || progressed)

unfoldable pub delete_round : Assoc (List CrdtId) → PendingBuffer → PendingBuffer × Bool
delete_round [] b = (b, false)
delete_round ((key, ids) ∷ entries) b =
    let (remaining, b', progressed) = filter_deletes ids b in
    let (b'', later) =
      delete_round entries
        (record b' { pending_deletes = replace_pending key remaining b'.pending_deletes }) in
    (b'', progressed || later)

unfoldable pub process_ready_deletes : PendingBuffer → PendingBuffer × Bool
process_ready_deletes b = delete_round b.pending_deletes b

unfoldable pub process_pending : ℕ → PendingBuffer → Option PendingBuffer
process_pending zero b = none
process_pending (suc fuel) b =
    let (b', inserted) = process_ready_inserts b in
    let (b'', deleted) = process_ready_deletes b' in
    let further = process_pending fuel b'' in if deleted || inserted then further else some b''

-- A round for each operation that waits, and one more.
abbrev pub pending_fuel : PendingBuffer → ℕ
pending_fuel b = suc (size b)
