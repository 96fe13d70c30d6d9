-- ===== src/Crdt/Offline/Replay.antt =====
-- About what a replay sends and what it leaves in the queue.
use mathlib.Core.List.{Perm}
use syncode.Base.{
  ℕ, zero, suc, ◌≤◌, ◌≡◌, refl, sym, ap, ◌∙◌, ◌⊎◌, inl, inr, take, drop, snoc, str_lt, true, false,
  Bool-cases, List, [], ◌∷◌, ◌++◌, arith, JsString, str_eq, str_eq_iff, str_eq_refl, str_lt_total,
  map, All, filter_by, sort,
}
use syncode.Base.Assoc.{remove, values}
use syncode.Base.Sorting.{Sorted, sort-Sorted, sort-Perm}
use syncode.Crdt.Document.{CrdtOp}
use syncode.Crdt.Pending.Waiting.{UniqueKeys, UniqueKeys-remove}
use syncode.Crdt.Offline.{
  QueuedTextOp, Store, before, list_offline_text_ops, remove_offline_text_op, Outcome, disconnected,
  failed, confirmed, replay, replay_offline_text_ops,
}
use syncode.Crdt.Offline.Listed.{
  before_asym, before_trans, KeysMatch, list-without, KeysMatch-remove,
}

-- The calls of the server that return before the replay stops.
abbrev pub confirmed_count : List Outcome → ℕ
confirmed_count [] = 0
confirmed_count (disconnected ∷ os) = 0
confirmed_count (failed ∷ os) = 0
confirmed_count (confirmed is_removed ∷ os) = suc (confirmed_count os)

-- The operations among them whose removal from the store fails.
abbrev pub left_over : List Outcome → List QueuedTextOp → List QueuedTextOp
left_over [] qs = []
left_over (o ∷ os) [] = []
left_over (disconnected ∷ os) (q ∷ qs) = []
left_over (failed ∷ os) (q ∷ qs) = []
left_over (confirmed true ∷ os) (q ∷ qs) = left_over os qs
left_over (confirmed false ∷ os) (q ∷ qs) = q ∷ left_over os qs

abbrev pub sent_op : QueuedTextOp → JsString × CrdtOp
sent_op q = (q.file_id, q.op)

-- By file, and by number in a file.
abbrev pub Precedes : QueuedTextOp → QueuedTextOp → Type 0
Precedes a b = (str_lt a.file_id b.file_id ≡ true) ⊎ ((a.file_id ≡ b.file_id) × (a.seq ≤ b.seq))

abbrev pub IsOrdered : List QueuedTextOp → Type 0
IsOrdered [] = Unit
IsOrdered (q ∷ qs) = All (Precedes q) qs × IsOrdered qs

before-Precedes : (a b : QueuedTextOp) → before b a ≡ false → Precedes a b
unfolding before
before-Precedes a b h = elim (Bool-cases (str_lt a.file_id b.file_id)) [
  | inl less ↦ inl less
  | inr not_less ↦
      let same : a.file_id ≡ b.file_id =
        ground (arith, str_eq_iff b.file_id a.file_id, str_lt_total a.file_id b.file_id) in
      inr (same, ground (arith, str_eq_refl b.file_id))
]

All-Precedes :
    (q : QueuedTextOp) (qs : List QueuedTextOp)
    → All (λ z. before z q ≡ false) qs
    → All (Precedes q) qs
All-Precedes q [] a = tt
All-Precedes q (r ∷ qs) a = (before-Precedes q r a.0, All-Precedes q qs a.1)

Sorted-IsOrdered :
    (qs : List QueuedTextOp) → Sorted before before_asym before_trans qs → IsOrdered qs
Sorted-IsOrdered [] s = tt
Sorted-IsOrdered (q ∷ qs) s = (All-Precedes q qs s.0, Sorted-IsOrdered qs s.1)

-- What a replay sends and leaves.
record Replayed (room_id : JsString) (os : List Outcome) (kept qs : List QueuedTextOp)
    (r : List (JsString × CrdtOp) × Store) : Type 0 where
  sent : r.0 ≡ map sent_op (take (confirmed_count os) qs)
  queued :
      list_offline_text_ops room_id r.1 ≡ kept ++ (left_over os qs ++ drop (confirmed_count os) qs)

none_left_over : (os : List Outcome) → left_over os [] ≡ []
none_left_over [] = refl
none_left_over (o ∷ os) = refl

take_none : (n : ℕ) → take {A = QueuedTextOp} n [] ≡ []
take_none zero = refl
take_none (suc n) = refl

drop_none : (n : ℕ) → drop {A = QueuedTextOp} n [] ≡ []
drop_none zero = refl
drop_none (suc n) = refl

Replayed-stop :
    (room_id : JsString) (os : List Outcome) (kept qs : List QueuedTextOp) (m : Store)
    → list_offline_text_ops room_id m ≡ kept ++ qs
    → left_over os qs ≡ []
    → confirmed_count os ≡ 0
    → Replayed room_id os kept qs ([], m)
Replayed-stop room_id os kept qs m e none_left stops = record {
  sent = rw stops refl;
  queued = rw (none_left, stops) e;
}

replay-Replayed :
    (room_id : JsString) (os : List Outcome) (kept qs : List QueuedTextOp) (m : Store)
    → KeysMatch m
    → UniqueKeys m
    → list_offline_text_ops room_id m ≡ kept ++ qs
    → Replayed room_id os kept qs (replay os qs m)
unfolding replay remove_offline_text_op
replay-Replayed room_id os kept [] m h u e = record {
  sent = ap (map sent_op) (sym (take_none (confirmed_count os)));
  queued = rw (none_left_over os, drop_none (confirmed_count os)) e;
}
replay-Replayed room_id [] kept (q ∷ qs) m h u e =
    Replayed-stop room_id [] kept (q ∷ qs) m e refl refl
replay-Replayed room_id (disconnected ∷ os) kept (q ∷ qs) m h u e =
    Replayed-stop room_id (disconnected ∷ os) kept (q ∷ qs) m e refl refl
replay-Replayed room_id (failed ∷ os) kept (q ∷ qs) m h u e =
    Replayed-stop room_id (failed ∷ os) kept (q ∷ qs) m e refl refl
replay-Replayed room_id (confirmed false ∷ os) kept (q ∷ qs) m h u e =
    let rest = replay-Replayed room_id os (kept ++ q ∷ []) qs m h u (e ∙ sym (snoc kept qs q)) in
    record {
      sent = ap (◌∷◌ (sent_op q)) rest.sent;
      queued = rest.queued ∙ snoc kept (left_over os qs ++ drop (confirmed_count os) qs) q;
    }
replay-Replayed room_id (confirmed true ∷ os) kept (q ∷ qs) m h u e =
    let rest =
      replay-Replayed room_id os kept qs (remove q.key m) (KeysMatch-remove q.key m h)
        (UniqueKeys-remove q.key m u) (list-without room_id m kept q qs h u e) in
    record { sent = ap (◌∷◌ (sent_op q)) rest.sent; queued = rest.queued }

-- In a store that has each operation under its own key, the list of a room has its operations,
-- ordered by file and number. Of it a replay sends the first ones, as many as calls return before
-- one fails or the connection is gone. What the queue lists afterwards are those of them whose
-- removal failed, and then, in their order, the others, so that an operation whose call failed or
-- was not made stays in the queue.
pub replay_offline_text_ops-list :
    (room_id : JsString) (os : List Outcome) (m : Store)
    → KeysMatch m
    → UniqueKeys m
    → let qs = list_offline_text_ops room_id m in
      let r = replay_offline_text_ops room_id true os m in
      IsOrdered qs
      × Perm qs (filter_by (λ (q : QueuedTextOp). str_eq q.room_id room_id) (values m))
      × (r.0 ≡ map sent_op (take (confirmed_count os) qs))
      × (list_offline_text_ops room_id r.1 ≡ left_over os qs ++ drop (confirmed_count os) qs)
unfolding replay_offline_text_ops list_offline_text_ops
replay_offline_text_ops-list room_id os m h u =
    let here = filter_by (λ (q : QueuedTextOp). str_eq q.room_id room_id) (values m) in
    let r = replay-Replayed room_id os [] (list_offline_text_ops room_id m) m h u refl in
    (
      Sorted-IsOrdered (sort before here) (sort-Sorted before before_asym before_trans here),
      sort-Perm before before_asym before_trans here,
      r.sent,
      r.queued,
    )
