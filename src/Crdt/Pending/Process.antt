-- ===== src/Crdt/Pending/Process.antt =====
-- `process`: an operation is integrated, with all that waited for it, or it waits itself.
use mathlib.Core.List.{perm_middle}
use mathlib.Core.List.Perm
use syncode.Base.{
  ◌≡◌, refl, ap, ◌∙◌, inl, inr, true, false, Option, none, some, List, [], ◌∷◌, arith, Bool-cases,
}
use syncode.Crdt.Id.{CrdtId, crdt_id_to_string, id_eq_refl}
use syncode.Crdt.Document.{
  CrdtChar, CrdtOp, CrdtDocument, insert, delete, has_char, apply_op, integrate_remote_insert,
  integrate_remote_delete,
}
use syncode.Crdt.Document.Convergence.{OriginReady, has_char-apply_op}
use syncode.Crdt.Pending.{
  PendingBuffer, is_origin_there, is_insert_ready, drain_fuel, integrate_and_drain, process,
  process_insert, process_delete, process_all, push,
}
use syncode.Crdt.Pending.Run.{
  Run-trans, Run-frame, Run-perm, Run-step, Run-none, Run-IsWellFormed, Run-IsFresh, IsFresh-new,
  IsFresh-middle,
}
use syncode.Crdt.Pending.Waiting.{UniqueKeys-put, AllWait-map, AllWait-push, ops_of, ops_of-push}
use syncode.Crdt.Pending.Settles.{waiting, IsBlocked, Good, Settles, unblock, nothing}
use syncode.Crdt.Pending.Drain.{drain-Settles}

insert_ready-Settles :
    (c : CrdtChar) (b : PendingBuffer)
    → Good (insert c ∷ []) b
    → IsBlocked b
    → OriginReady c.origin_id b.doc.chars
    → Settles (insert c ∷ []) b (integrate_and_drain c b)
unfolding integrate_and_drain apply_op
insert_ready-Settles c b g k o =
    let b1 = record b { doc = integrate_remote_insert c b.doc } in
    let new = IsFresh-new c (waiting b) b.doc g.fresh in
    let first = Run-step (insert c) b.doc (waiting b) (new, o) in
    let g1 : Good [] b1 = record {
      formed = Run-IsWellFormed g.formed first;
      fresh = Run-IsFresh g.formed g.fresh first;
      inserts = g.inserts;
      deletes = g.deletes;
    } in
    let there : has_char c.id b1.doc.chars ≡ true =
      has_char-apply_op (insert c) b.doc c.id g.formed (new, o) ∙ rw (id_eq_refl c.id) refl in
    let (s, _) =
      drain-Settles (drain_fuel b) c.id b1 g1 there (unblock c b g.formed (new, o) k)
        (omega arith) in
    record {
      order = _;
      run = Run-trans first s.run;
      blocked = s.blocked;
      inserts = s.inserts;
      deletes = s.deletes;
    }

insert_waits-Settles :
    (c : CrdtChar) (id : CrdtId) (b : PendingBuffer)
    → Good (insert c ∷ []) b
    → IsBlocked b
    → c.origin_id ≡ some id
    → has_char id b.doc.chars ≡ false
    → Settles
        (insert c ∷ [])
        b
        (record b { pending_inserts = push (crdt_id_to_string c.origin_id) c b.pending_inserts })
insert_waits-Settles c id b g k e h =
    let key = crdt_id_to_string c.origin_id in
    let b' = record b { pending_inserts = push key c b.pending_inserts } in
    record {
      order = [];
      run =
          Run-perm
            (Perm.append_right (ops_of delete b.pending_deletes)
              (ops_of-push insert key c b.pending_inserts))
            (Run-none b.doc (waiting b'));
      blocked =
          (AllWait-push _ _ key c b.pending_inserts (id, e, ap crdt_id_to_string e, h) k.0, k.1);
      inserts = UniqueKeys-put key _ b.pending_inserts g.inserts;
      deletes = g.deletes;
    }

delete_ready-Settles :
    (id : CrdtId) (b : PendingBuffer)
    → Good (delete id ∷ []) b
    → IsBlocked b
    → has_char id b.doc.chars ≡ true
    → Settles (delete id ∷ []) b (record b { doc = integrate_remote_delete id b.doc })
unfolding apply_op
delete_ready-Settles id b g k h =
    let still : (o : CrdtId)
        → has_char o b.doc.chars ≡ false
        → has_char o (integrate_remote_delete id b.doc).chars ≡ false =
      λ o p. has_char-apply_op (delete id) b.doc o g.formed h ∙ p in
    record {
      order = _;
      run = Run-step (delete id) b.doc (waiting b) h;
      blocked = (
        AllWait-map _ _ _ b.pending_inserts still k.0,
        AllWait-map _ _ _ b.pending_deletes still k.1,
      );
      inserts = g.inserts;
      deletes = g.deletes;
    }

delete_waits-Settles :
    (id : CrdtId) (b : PendingBuffer)
    → Good (delete id ∷ []) b
    → IsBlocked b
    → has_char id b.doc.chars ≡ false
    → Settles
        (delete id ∷ [])
        b
        (record b { pending_deletes = push (crdt_id_to_string (some id)) id b.pending_deletes })
delete_waits-Settles id b g k h =
    let key = crdt_id_to_string (some id) in
    let b' = record b { pending_deletes = push key id b.pending_deletes } in
    record {
      order = [];
      run =
          Run-perm
            (Perm.trans
              (Perm.append_left (ops_of insert b.pending_inserts)
                (ops_of-push delete key id b.pending_deletes))
              (perm_middle (ops_of insert b.pending_inserts) (ops_of delete b.pending_deletes)))
            (Run-none b.doc (waiting b'));
      blocked = (k.0, AllWait-push _ _ key id b.pending_deletes (id, refl, refl, h) k.1);
      inserts = g.inserts;
      deletes = UniqueKeys-put key _ b.pending_deletes g.deletes;
    }

is_origin_there_lem :
    (o : Option CrdtId) (d : CrdtDocument) → is_origin_there o d ≡ true → OriginReady o d.chars
unfolding is_origin_there
is_origin_there_lem none d h = tt
is_origin_there_lem (some id) d h = h

origin_missing :
    (o : Option CrdtId) (d : CrdtDocument)
    → is_origin_there o d ≡ false
    → (id : CrdtId) × (o ≡ some id) × (has_char id d.chars ≡ false)
unfolding is_origin_there
origin_missing none d h = ground arith
origin_missing (some id) d h = (id, refl, h)

process_insert-Settles :
    (c : CrdtChar) (b : PendingBuffer)
    → Good (insert c ∷ []) b
    → IsBlocked b
    → Settles (insert c ∷ []) b (process_insert c b)
unfolding process_insert is_insert_ready
process_insert-Settles c b g k = elim (Bool-cases (is_origin_there c.origin_id b.doc)) [
  | inl there ↦
      rw there (insert_ready-Settles c b g k (is_origin_there_lem c.origin_id b.doc there))
  | inr missing ↦
      let (id, e, h) = origin_missing c.origin_id b.doc missing in
      rw missing (insert_waits-Settles c id b g k e h)
]

-- One operation.
pub process-Settles :
    (op : CrdtOp) (b : PendingBuffer)
    → Good (op ∷ []) b
    → IsBlocked b
    → Settles (op ∷ []) b (process op b)
unfolding process process_delete
process-Settles (insert c) b g k = process_insert-Settles c b g k
process-Settles (delete id) b g k = elim (Bool-cases (has_char id b.doc.chars)) [
  | inl there ↦ rw there (delete_ready-Settles id b g k there)
  | inr missing ↦ rw missing (delete_waits-Settles id b g k missing)
]

-- All operations, one after the other.
pub process_all-Settles :
    (ops : List CrdtOp) (b : PendingBuffer)
    → Good ops b
    → IsBlocked b
    → Settles ops b (process_all ops b)
unfolding process_all
process_all-Settles [] b g k = nothing b g.inserts g.deletes k
process_all-Settles (op ∷ ops) b g k =
    let single : Good (op ∷ []) b = record {
      formed = g.formed;
      fresh = IsFresh-middle (op ∷ []) ops (waiting b) b.doc g.fresh;
      inserts = g.inserts;
      deletes = g.deletes;
    } in
    let s = process-Settles op b single k in
    let first = Run-perm (perm_middle ops (waiting b)) (Run-frame ops s.run) in
    let b1 = process op b in
    let g1 : Good ops b1 = record {
      formed = Run-IsWellFormed g.formed s.run;
      fresh = Run-IsFresh g.formed g.fresh first;
      inserts = s.inserts;
      deletes = s.deletes;
    } in
    let t = process_all-Settles ops b1 g1 s.blocked in
    record {
      order = _;
      run = Run-trans first t.run;
      blocked = t.blocked;
      inserts = t.inserts;
      deletes = t.deletes;
    }
