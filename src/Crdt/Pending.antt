-- ===== src/Crdt/Pending.antt =====
-- crdt/PendingBuffer.ts: remote operations wait for the character that they name. The buffer owns
-- its document; the recursion of `drain` takes fuel.
pub mod Run
pub mod Waiting
pub mod Settles
pub mod Drain
pub mod Process
pub mod Eventual
pub mod Rounds
mod Tests
use syncode.Base.{
  ℕ, zero, suc, ◌+◌, Bool, true, Option, none, some, List, [], ◌∷◌, ◌++◌, JsString, if◌then◌else◌,
  length,
}
use syncode.Base.Assoc.{Assoc, get, put, remove}
use syncode.Crdt.Id.{CrdtId, crdt_id_to_string}
use syncode.Crdt.Document.{
  CrdtChar, CrdtOp, CrdtDocument, insert, delete, has_char, integrate_remote_insert,
  integrate_remote_delete,
}

pub record PendingBuffer : Type 0 where
  pub doc : CrdtDocument
  pub pending_inserts : Assoc (List CrdtChar)
  pub pending_deletes : Assoc (List CrdtId)

abbrev pub new_buffer : CrdtDocument → PendingBuffer
new_buffer doc = record { doc = doc; pending_inserts = []; pending_deletes = [] }

-- `map.get(key)`, with an empty array for a missing key.
abbrev pub listed : {A : Type 0} → Option (List A) → List A
listed none = []
listed (some xs) = xs

abbrev pub push : {A : Type 0} → JsString → A → Assoc (List A) → Assoc (List A)
push key x m = put key (listed (get key m) ++ x ∷ []) m

abbrev pub count : {A : Type 0} → Assoc (List A) → ℕ
count [] = 0
count ((k, xs) ∷ m) = length xs + count m

unfoldable pub size : PendingBuffer → ℕ
size b = count b.pending_inserts + count b.pending_deletes

unfoldable pub is_origin_there : Option CrdtId → CrdtDocument → Bool
is_origin_there none d = true
is_origin_there (some id) d = has_char id d.chars

unfoldable pub is_insert_ready : CrdtChar → CrdtDocument → Bool
is_insert_ready c d = is_origin_there c.origin_id d

unfoldable pub integrate_deletes : List CrdtId → CrdtDocument → CrdtDocument
integrate_deletes [] d = d
integrate_deletes (id ∷ ids) d = integrate_deletes ids (integrate_remote_delete id d)

-- The first half of `drain`: the deletions under the key.
abbrev pub deletes_at : JsString → Option (List CrdtId) → PendingBuffer → PendingBuffer
deletes_at key none b = b
deletes_at key (some ids) b = record b {
  doc = integrate_deletes ids b.doc;
  pending_deletes = remove key b.pending_deletes;
}

unfoldable pub drain_deletes : JsString → PendingBuffer → PendingBuffer
drain_deletes key b = deletes_at key (get key b.pending_deletes) b

-- The loop over the insertions under the key; `next` is `drain`.
unfoldable pub integrate_inserts :
    (CrdtId → PendingBuffer → PendingBuffer) → List CrdtChar → PendingBuffer → PendingBuffer
integrate_inserts next [] b = b
integrate_inserts next (c ∷ cs) b =
    integrate_inserts next cs (next c.id (record b { doc = integrate_remote_insert c b.doc }))

abbrev pub inserts_at :
    (CrdtId → PendingBuffer → PendingBuffer)
    → JsString
    → Option (List CrdtChar)
    → PendingBuffer
    → PendingBuffer
inserts_at next key none b = b
inserts_at next key (some cs) b =
    integrate_inserts next cs (record b { pending_inserts = remove key b.pending_inserts })

unfoldable pub drain_inserts :
    (CrdtId → PendingBuffer → PendingBuffer) → JsString → PendingBuffer → PendingBuffer
drain_inserts next key b = inserts_at next key (get key b.pending_inserts) b

unfoldable pub drain : ℕ → CrdtId → PendingBuffer → PendingBuffer
drain zero id b = b
drain (suc fuel) id b =
    let key = crdt_id_to_string (some id) in drain_inserts (drain fuel) key (drain_deletes key b)

-- Each call below another one has removed a key.
abbrev pub drain_fuel : PendingBuffer → ℕ
drain_fuel b = suc (length b.pending_inserts)

-- `integrateRemoteInsert` and the `drain` that follows it.
unfoldable pub integrate_and_drain : CrdtChar → PendingBuffer → PendingBuffer
integrate_and_drain c b =
    drain (drain_fuel b) c.id (record b { doc = integrate_remote_insert c b.doc })

unfoldable pub process_insert : CrdtChar → PendingBuffer → PendingBuffer
process_insert c b =
    if is_insert_ready c b.doc
    then integrate_and_drain c b
    else record b { pending_inserts = push (crdt_id_to_string c.origin_id) c b.pending_inserts }

unfoldable pub process_delete : CrdtId → PendingBuffer → PendingBuffer
process_delete id b =
    if has_char id b.doc.chars
    then record b { doc = integrate_remote_delete id b.doc }
    else record b { pending_deletes = push (crdt_id_to_string (some id)) id b.pending_deletes }

unfoldable pub process : CrdtOp → PendingBuffer → PendingBuffer
process (insert c) b = process_insert c b
process (delete id) b = process_delete id b

-- The operations that a sender delivers, one after the other.
unfoldable pub process_all : List CrdtOp → PendingBuffer → PendingBuffer
process_all [] b = b
process_all (op ∷ ops) b = process_all ops (process op b)
