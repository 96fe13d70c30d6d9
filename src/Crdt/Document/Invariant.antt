-- ===== src/Crdt/Document/Invariant.antt =====
-- The invariant of a document, kept by every operation, and the agreement of author and replicas.
use syncode.Base.{
  ℕ, zero, suc, ◌≤◌, max, ◌≡◌, refl, sym, ap, subst, ◌∙◌, true, false, Option, List, [], ◌∷◌, arith,
  JsString, map, insert_at,
}
use syncode.Crdt.Id.{CrdtId, id_eq_refl}
use syncode.Crdt.Document.{
  CrdtChar, CrdtOp, CrdtDocument, insert, delete, insert_char, mark_deleted, has_char, apply_op,
  integrate_remote_insert, local_insert, local_delete, create_char, next_id,
}
use syncode.Crdt.Document.Forest.Present.{has_char-present}
use syncode.Crdt.Document.Forest.Plant.{IsWellFormed}
use syncode.Crdt.Document.Deletion.{tick, mark_deleted-map, mark_deleted-IsWellFormed}
use syncode.Crdt.Document.Convergence.{
  Ready, OriginReady, apply_op-insert, apply_op-delete, apply_op-IsWellFormed, has_char-apply_op,
}
use syncode.Crdt.Document.Local.{ClockBounds, ClockBounds-absent}

-- The characters read a forest in preorder, and the clock has seen every counter.
pub record Inv (d : CrdtDocument) : Type 0 where
  pub formed : IsWellFormed d.chars
  pub bounds : ClockBounds d.clock d.chars

pub ClockBounds-mono : (k l : ℕ) (cs : List CrdtChar) → k ≤ l → ClockBounds k cs → ClockBounds l cs
ClockBounds-mono k l [] h b = tt
ClockBounds-mono k l (c ∷ cs) h b = (omega arith, ClockBounds-mono k l cs h b.1)

ClockBounds-insert_at :
    (k i : ℕ) (c : CrdtChar) (cs : List CrdtChar)
    → c.id.counter ≤ k
    → ClockBounds k cs
    → ClockBounds k (insert_at i c cs)
ClockBounds-insert_at k zero c cs h b = (h, b)
ClockBounds-insert_at k (suc i) c [] h b = (h, tt)
ClockBounds-insert_at k (suc i) c (x ∷ cs) h b = (b.0, ClockBounds-insert_at k i c cs h b.1)

ClockBounds-insert_char :
    (k l : ℕ) (c : CrdtChar) (cs : List CrdtChar)
    → ClockBounds k cs
    → k ≤ l
    → c.id.counter ≤ l
    → ClockBounds l (insert_char c cs)
unfolding insert_char
ClockBounds-insert_char k l c cs b h h' =
    ClockBounds-insert_at l _ c cs h' (ClockBounds-mono k l cs h b)

ClockBounds-tick :
    (k : ℕ) (id : CrdtId) (cs : List CrdtChar) → ClockBounds k cs → ClockBounds k (map (tick id) cs)
ClockBounds-tick k id [] b = tt
ClockBounds-tick k id (c ∷ cs) b = (b.0, ClockBounds-tick k id cs b.1)

ClockBounds-mark_deleted :
    (k : ℕ) (id : CrdtId) (cs : List CrdtChar)
    → IsWellFormed cs
    → ClockBounds k cs
    → ClockBounds k (mark_deleted id cs)
ClockBounds-mark_deleted k id cs w b =
    rw (mark_deleted-map id cs w.distinct) (ClockBounds-tick k id cs b)

apply_op-ClockBounds :
    (op : CrdtOp) (d : CrdtDocument)
    → Inv d
    → Ready op d
    → ClockBounds (apply_op op d).clock (apply_op op d).chars
apply_op-ClockBounds (insert c) d v r = rw (apply_op-insert d c r.0) (
    ClockBounds-insert_char d.clock (max d.clock c.id.counter) c d.chars v.bounds (omega arith)
      (omega arith))
apply_op-ClockBounds (delete id) d v r =
    rw (apply_op-delete d id) (ClockBounds-mark_deleted d.clock id d.chars v.formed v.bounds)

-- Integration of an operation that is ready keeps the invariant: the characters read a forest with
-- distinct ids in preorder, and the clock has seen every counter.
pub apply_op-Inv : (op : CrdtOp) (d : CrdtDocument) → Inv d → Ready op d → Inv (apply_op op d)
apply_op-Inv op d v r = record {
  formed = apply_op-IsWellFormed op d v.formed r;
  bounds = apply_op-ClockBounds op d v r;
}

-- Under the invariant, with an origin that is there, the operation of a local insertion is ready at
-- the author, and delivering it would have had the same effect there.
pub local_insert-apply_op :
    (d : CrdtDocument) (o : Option CrdtId) (v : JsString)
    → Inv d
    → OriginReady o d.chars
    → Ready (local_insert o v d).1 d × ((local_insert o v d).0 ≡ apply_op (local_insert o v d).1 d)
unfolding local_insert
local_insert-apply_op d o v i r =
    let new = create_char (next_id d.site_id d.clock) v o in
    let fresh : has_char new.id d.chars ≡ false =
      has_char-present new.id d.chars
      ∙ ClockBounds-absent d.clock new.id d.chars i.bounds (omega arith) in
    ((fresh, r), ground (arith, apply_op-insert d new fresh))

pub local_delete-apply_op :
    (d : CrdtDocument) (id : CrdtId) → (local_delete id d).0 ≡ apply_op (local_delete id d).1 d
unfolding local_delete
local_delete-apply_op d id = sym (apply_op-delete d id)

-- The user's own edits keep the invariant.
pub local-Inv :
    (d : CrdtDocument) (o : Option CrdtId) (v : JsString) (id : CrdtId)
    → Inv d
    → OriginReady o d.chars
    → has_char id d.chars ≡ true
    → Inv (local_insert o v d).0 × Inv (local_delete id d).0
unfolding local_delete
local-Inv d o v id i r h =
    let (ready, same) = local_insert-apply_op d o v i r in
    (
      subst Inv (sym same) (apply_op-Inv (local_insert o v d).1 d i ready),
      subst Inv (sym (local_delete-apply_op d id)) (apply_op-Inv (delete id) d i h),
    )

tick_twice :
    (id : CrdtId) (cs : List CrdtChar) → map (tick id) (map (tick id) cs) ≡ map (tick id) cs
tick_twice id [] = refl
tick_twice id (c ∷ cs) = ground (arith, tick_twice id cs)

-- Under the invariant, a second delivery of an operation that was ready changes nothing.
pub apply_op_twice :
    (op : CrdtOp) (d : CrdtDocument)
    → Inv d
    → Ready op d
    → apply_op op (apply_op op d) ≡ apply_op op d
unfolding apply_op integrate_remote_insert
apply_op_twice (insert c) d v r = ground (
  arith,
  id_eq_refl c.id,
  has_char-apply_op (insert c) d c.id v.formed r,
  apply_op-insert d c r.0,
)
apply_op_twice (delete id) d v r =
    rw (apply_op-delete d id, apply_op-delete (record d { chars = mark_deleted id d.chars }) id)
      (ap (λ cs. record d { chars = cs })
        (mark_deleted-map id _ (mark_deleted-IsWellFormed id d.chars v.formed).distinct
          ∙ ap (map (tick id)) (mark_deleted-map id d.chars v.formed.distinct)
          ∙ tick_twice id d.chars
          ∙ sym (mark_deleted-map id d.chars v.formed.distinct)))
