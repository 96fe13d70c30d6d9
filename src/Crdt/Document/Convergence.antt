-- ===== src/Crdt/Document/Convergence.antt =====
-- Delivery of operations in different orders.
use mathlib.Core.List.{Perm, append_of_mem, perm_inv_core, mem-cons_self}
use mathlib.Core.List.Perm
use mathlib.Core.Logic.{∥∥₁_elim}
use syncode.Base.{
  max, ◌≡◌, refl, sym, ap, subst, ◌∙◌, ◌≢◌, true, false, ◌||◌, Bool, Option, none, some, List, [],
  ◌∷◌, ◌++◌, arith,
}
use syncode.Crdt.Id.{CrdtId, id_eq, id_eq_iff, id_eq_refl}
use syncode.Crdt.Document.{
  CrdtChar, CrdtOp, CrdtDocument, insert, delete, insert_char, mark_deleted, has_char, apply_op,
  integrate_remote_insert, integrate_remote_delete,
}
use syncode.Crdt.Document.Forest.Present.{present, has_char-present}
use syncode.Crdt.Document.Forest.Refine.{Outer}
use syncode.Crdt.Document.Forest.Plant.{
  IsWellFormed, insert_char-IsWellFormed, insert_char_comm, present-insert_char,
}
use syncode.Crdt.Document.Deletion.{
  mark_deleted-IsWellFormed, present-mark_deleted, mark_deleted-insert_char, mark_deleted_comm,
}

-- The operation can be integrated: a new character behind one that is there, or a deletion of one
-- that is there.
abbrev pub OriginReady : Option CrdtId → List CrdtChar → Type 0
OriginReady none cs = Unit
OriginReady (some o) cs = has_char o cs ≡ true

abbrev pub Ready : CrdtOp → CrdtDocument → Type 0
Ready (insert c) d = (has_char c.id d.chars ≡ false) × OriginReady c.origin_id d.chars
Ready (delete id) d = has_char id d.chars ≡ true

unfoldable pub deliver : List CrdtOp → CrdtDocument → CrdtDocument
deliver [] d = d
deliver (op ∷ ops) d = deliver ops (apply_op op d)

-- Every operation is ready when its turn comes: the order respects causality.
abbrev pub IsCausal : List CrdtOp → CrdtDocument → Type 0
IsCausal [] d = Unit
IsCausal (op ∷ ops) d = Ready op d × IsCausal ops (apply_op op d)

pub OriginReady-Outer : (o : Option CrdtId) (cs : List CrdtChar) → OriginReady o cs → Outer o cs
OriginReady-Outer none cs h = tt
OriginReady-Outer (some o) cs h = ground (arith, has_char-present o cs)

pub Outer-OriginReady : (o : Option CrdtId) (cs : List CrdtChar) → Outer o cs → OriginReady o cs
Outer-OriginReady none cs h = tt
Outer-OriginReady (some o) cs h = ground (arith, has_char-present o cs)

module _ (d : CrdtDocument) where
  -- What a ready operation does.
  pub apply_op-insert :
      (c : CrdtChar)
      → has_char c.id d.chars ≡ false
      → apply_op (insert c) d
        ≡ record d { clock = max d.clock c.id.counter; chars = insert_char c d.chars }
  unfolding apply_op integrate_remote_insert
  apply_op-insert c h = ground arith

  pub apply_op-delete :
      (id : CrdtId) → apply_op (delete id) d ≡ record d { chars = mark_deleted id d.chars }
  unfolding apply_op integrate_remote_delete
  apply_op-delete id = refl

abbrev fresh_of :
    (c : CrdtChar) (d : CrdtDocument) → has_char c.id d.chars ≡ false → present c.id d.chars ≡ false
fresh_of c d h = sym (has_char-present c.id d.chars) ∙ h

-- Integration keeps the document well formed.
pub apply_op-IsWellFormed :
    (op : CrdtOp) (d : CrdtDocument)
    → IsWellFormed d.chars
    → Ready op d
    → IsWellFormed (apply_op op d).chars
apply_op-IsWellFormed (insert c) d w r = rw (apply_op-insert d c r.0) (
    insert_char-IsWellFormed c d.chars w (fresh_of c d r.0)
      (OriginReady-Outer c.origin_id d.chars r.1))
apply_op-IsWellFormed (delete id) d w r =
    rw (apply_op-delete d id) (mark_deleted-IsWellFormed id d.chars w)

abbrev pub added : CrdtOp → CrdtId → Bool
added (insert c) id = id_eq c.id id
added (delete j) id = false

-- The ids that are present afterwards.
pub has_char-apply_op :
    (op : CrdtOp) (d : CrdtDocument) (id : CrdtId)
    → IsWellFormed d.chars
    → Ready op d
    → has_char id (apply_op op d).chars ≡ (added op id || has_char id d.chars)
has_char-apply_op (insert c) d id w r =
    rw
      (
        apply_op-insert d c r.0,
        has_char-present id (insert_char c d.chars),
        has_char-present id d.chars,
      )
      (present-insert_char id c d.chars)
has_char-apply_op (delete j) d id w r =
    rw
      (
        apply_op-delete d j,
        has_char-present id (mark_deleted j d.chars),
        has_char-present id d.chars,
      )
      (present-mark_deleted j d.chars w id)

pub OriginReady-apply_op :
    (op : CrdtOp) (d : CrdtDocument) (o : Option CrdtId)
    → IsWellFormed d.chars
    → Ready op d
    → OriginReady o d.chars
    → OriginReady o (apply_op op d).chars
OriginReady-apply_op op d none w r h = tt
OriginReady-apply_op op d (some o) w r h = ground (arith, has_char-apply_op op d o w r)

-- An operation that was ready stays so, unless it was delivered itself.
Ready-apply_op :
    (x y : CrdtOp) (d : CrdtDocument)
    → IsWellFormed d.chars
    → Ready x d
    → Ready y d
    → Ready x (apply_op y d)
    → Ready y (apply_op x d)
Ready-apply_op x (delete j) d w rx ry again = ground (arith, has_char-apply_op x d j w rx)
Ready-apply_op (insert c) (insert e) d w rx ry again = (
  ground (
    arith,
    has_char-apply_op (insert c) d e.id w rx,
    has_char-apply_op (insert e) d c.id w ry,
    id_eq_iff c.id e.id,
    id_eq_refl e.id,
  ),
  OriginReady-apply_op (insert c) d e.origin_id w rx ry.1,
)
Ready-apply_op (delete i) (insert e) d w rx ry again = (
  ground (arith, has_char-apply_op (delete i) d e.id w rx),
  OriginReady-apply_op (delete i) d e.origin_id w rx ry.1,
)

-- So an operation that is delivered later, and could be delivered now, can be delivered next.
fresh_before :
    (p q : List CrdtOp) (c : CrdtChar) (d : CrdtDocument)
    → IsWellFormed d.chars
    → IsCausal (p ++ insert c ∷ q) d
    → has_char c.id d.chars ≡ false
fresh_before [] q c d w h = h.0.0
fresh_before (x ∷ p) q c d w h = ground (
  arith,
  has_char-apply_op x d c.id w h.0,
  fresh_before p q c (apply_op x d) (apply_op-IsWellFormed x d w h.0) h.1,
)

Ready-later :
    (p q : List CrdtOp) (a x : CrdtOp) (d : CrdtDocument)
    → IsWellFormed d.chars
    → Ready x d
    → Ready a d
    → IsCausal (p ++ a ∷ q) (apply_op x d)
    → Ready a (apply_op x d)
Ready-later p q (insert c) x d w rx ra h = (
  fresh_before p q c (apply_op x d) (apply_op-IsWellFormed x d w rx) h,
  OriginReady-apply_op x d c.origin_id w rx ra.1,
)
Ready-later p q (delete i) x d w rx ra h = ground (arith, has_char-apply_op x d i w rx)

-- A deletion names a character that is there, an insertion a new one.
delete_insert_comm :
    (i : CrdtId) (e : CrdtChar) (d : CrdtDocument)
    → IsWellFormed d.chars
    → Ready (delete i) d
    → Ready (insert e) d
    → apply_op (delete i) (apply_op (insert e) d) ≡ apply_op (insert e) (apply_op (delete i) d)
delete_insert_comm i e d w ri re =
    let fresh : has_char e.id (apply_op (delete i) d).chars ≡ false =
      ground (arith, has_char-apply_op (delete i) d e.id w ri) in
    ground (
      arith,
      id_eq_iff e.id i,
      apply_op-insert d e re.0,
      apply_op-delete d i,
      apply_op-delete (apply_op (insert e) d) i,
      apply_op-insert (apply_op (delete i) d) e fresh,
      mark_deleted-insert_char i e d.chars w (fresh_of e d re.0)
          (OriginReady-Outer e.origin_id d.chars re.1),
    )

-- Two operations that are ready together may be delivered in either order.
pub apply_op_comm :
    (x y : CrdtOp) (d : CrdtDocument)
    → IsWellFormed d.chars
    → Ready x d
    → Ready y d
    → Ready x (apply_op y d)
    → apply_op x (apply_op y d) ≡ apply_op y (apply_op x d)
apply_op_comm (insert c) (insert e) d w rx ry again =
    let again' = Ready-apply_op (insert c) (insert e) d w rx ry again in
    let ne : c.id ≢ e.id =
      λ q. ground (arith, has_char-apply_op (insert e) d c.id w ry, id_eq_iff e.id c.id) in
    ground (
      arith,
      apply_op-insert d c rx.0,
      apply_op-insert d e ry.0,
      apply_op-insert (apply_op (insert e) d) c again.0,
      apply_op-insert (apply_op (insert c) d) e again'.0,
      insert_char_comm c e d.chars w (fresh_of c d rx.0) (fresh_of e d ry.0) ne
          (OriginReady-Outer c.origin_id d.chars rx.1) (OriginReady-Outer e.origin_id d.chars ry.1),
    )
apply_op_comm (insert c) (delete j) d w rx ry again = sym (delete_insert_comm j c d w ry rx)
apply_op_comm (delete i) (insert e) d w rx ry again = delete_insert_comm i e d w rx ry
apply_op_comm (delete i) (delete j) d w rx ry again =
    rw
      (
        apply_op-delete d i,
        apply_op-delete d j,
        apply_op-delete (record d { chars = mark_deleted j d.chars }) i,
        apply_op-delete (record d { chars = mark_deleted i d.chars }) j,
      )
      (ap (λ cs. record d { chars = cs }) (mark_deleted_comm i j d.chars w))

-- A delivered operation may be taken from the middle of a causal order to its front.
deliver_front :
    (p q : List CrdtOp) (a : CrdtOp) (d : CrdtDocument)
    → IsWellFormed d.chars
    → Ready a d
    → IsCausal (p ++ a ∷ q) d
    → (deliver (p ++ a ∷ q) d ≡ deliver (p ++ q) (apply_op a d)) × IsCausal (p ++ q) (apply_op a d)
unfolding deliver
deliver_front [] q a d w ra c = (refl, c.1)
deliver_front (x ∷ p) q a d w ra c =
    let ra' = Ready-later p q a x d w c.0 ra c.1 in
    let (same, causal) =
      deliver_front p q a (apply_op x d) (apply_op-IsWellFormed x d w c.0) ra' c.1 in
    let swap = apply_op_comm a x d w ra c.0 ra' in
    (
      same ∙ ap (deliver (p ++ q)) swap,
      (Ready-apply_op a x d w ra c.0 ra', subst (IsCausal (p ++ q)) swap causal),
    )

CrdtDocument-set : IsSet CrdtDocument
CrdtDocument-set = hlevel

-- Replicas that start from the same well-formed document and receive the same operations, each in an
-- order that respects causality, end in the same state, the clock included.
pub deliver-perm :
    (ops ops' : List CrdtOp) (d : CrdtDocument)
    → IsWellFormed d.chars
    → IsCausal ops d
    → IsCausal ops' d
    → Perm ops ops'
    → deliver ops d ≡ deliver ops' d
unfolding deliver
deliver-perm [] ops' d w c c' p = rw (← Perm.nil-eq p)
deliver-perm (a ∷ ops) ops' d w c c' p =
    ∥∥₁_elim (append_of_mem (Perm.subset p a mem-cons_self)) (CrdtDocument-set _ _) λ (l, r, e).
      let p' = subst (λ x. Perm (a ∷ ops) x) e p in
      let (same, causal) = deliver_front l r a d w c.0 (subst (λ x. IsCausal x d) e c') in
      deliver-perm ops (l ++ r) (apply_op a d) (apply_op-IsWellFormed a d w c.0) c.1 causal
        (perm_inv_core a [] l ops r p')
      ∙ sym same
      ∙ ap (λ x. deliver x d) (sym e)
