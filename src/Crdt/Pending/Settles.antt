-- ===== src/Crdt/Pending/Settles.antt =====
-- States of the buffer between two operations, and what one step does to them.

use syncode.Base.{
  ◌≤◌, ◌≡◌, refl, sym, subst, ◌∙◌, ◌⊎◌, inl, inr, true, false, some, List, [], ◌∷◌, ◌++◌,
  Bool-cases, length, map, All,
}
use syncode.Crdt.Id.{CrdtId, id_eq, id_eq_iff}
use syncode.Crdt.Document.{
  CrdtChar, CrdtOp, CrdtDocument, insert, delete, has_char, apply_op, integrate_remote_insert,
  integrate_remote_delete,
}
use syncode.Crdt.Document.Forest.Plant.{IsWellFormed}
use syncode.Crdt.Document.Convergence.{OriginReady, Ready, has_char-apply_op}
use syncode.Crdt.Pending.{PendingBuffer, integrate_deletes}
use syncode.Crdt.Pending.Run.{
  Run, Run-trans, Run-step, Run-IsWellFormed, Run-OriginReady, IsFresh, Run-none,
}
use syncode.Crdt.Pending.Waiting.{UniqueKeys, AllWait, AllWait-map, ops_of}

abbrev pub waiting : PendingBuffer → List CrdtOp
waiting b = ops_of insert b.pending_inserts ++ ops_of delete b.pending_deletes

-- A property of every id that something waits for.
abbrev pub Awaited : (CrdtId → Type 0) → PendingBuffer → Type 0
Awaited P b =
    AllWait (λ (c : CrdtChar). c.origin_id) P b.pending_inserts × AllWait some P b.pending_deletes

-- Nothing that waits could be integrated.
abbrev pub IsBlocked : PendingBuffer → Type 0
IsBlocked b = Awaited (λ o. has_char o b.doc.chars ≡ false) b

-- The same, but for what waits for one id.
abbrev pub IsBlockedBut : CrdtId → PendingBuffer → Type 0
IsBlockedBut id b = Awaited (λ o. (has_char o b.doc.chars ≡ false) ⊎ (o ≡ id)) b

-- The buffer with operations that are under way.
pub record Good (todo : List CrdtOp) (b : PendingBuffer) : Type 0 where
  pub formed : IsWellFormed b.doc.chars
  pub fresh : IsFresh (todo ++ waiting b) b.doc
  pub inserts : UniqueKeys b.pending_inserts
  pub deletes : UniqueKeys b.pending_deletes

-- From `b` to `b'`, with the operations under way either integrated or waiting.
pub record Settles (todo : List CrdtOp) (b b' : PendingBuffer) : Type 0 where
  pub order : List CrdtOp
  pub run : Run b.doc (todo ++ waiting b) order b'.doc (waiting b')
  pub blocked : IsBlocked b'
  pub inserts : UniqueKeys b'.pending_inserts
  pub deletes : UniqueKeys b'.pending_deletes

abbrev pub IsShorter : PendingBuffer → PendingBuffer → Type 0
IsShorter b b' = length b'.pending_inserts ≤ length b.pending_inserts

pub deletes-Run :
    (id : CrdtId) (ids : List CrdtId) (rest : List CrdtOp) (d : CrdtDocument)
    → IsWellFormed d.chars
    → has_char id d.chars ≡ true
    → All (λ i. some i ≡ some id) ids
    → Run d (map delete ids ++ rest) (map delete ids) (integrate_deletes ids d) rest
      × ((o : CrdtId) → has_char o (integrate_deletes ids d).chars ≡ has_char o d.chars)
unfolding integrate_deletes apply_op
deletes-Run id [] rest d w h a = (Run-none d rest, λ o. refl)
deletes-Run id (i ∷ ids) rest d w h a =
    let ready : Ready (delete i) d = subst (λ z. OriginReady z d.chars) (sym a.0) h in
    let first = Run-step (delete i) d (map delete ids ++ rest) ready in
    let kept = λ (o : CrdtId). has_char-apply_op (delete i) d o w ready in
    let (others, kept') =
      deletes-Run id ids rest (integrate_remote_delete i d) (Run-IsWellFormed w first) (kept id ∙ h)
        a.1 in
    (Run-trans first others, λ o. kept' o ∙ kept o)

pub nothing :
    (b : PendingBuffer)
    → UniqueKeys b.pending_inserts
    → UniqueKeys b.pending_deletes
    → IsBlocked b
    → Settles [] b b
nothing b u v k = record {
  order = [];
  run = Run-none b.doc (waiting b);
  blocked = k;
  inserts = u;
  deletes = v;
}

-- A new character unblocks what waits for it, and nothing else.
pub unblock :
    (c : CrdtChar) (b : PendingBuffer)
    → IsWellFormed b.doc.chars
    → Ready (insert c) b.doc
    → IsBlocked b
    → IsBlockedBut c.id (record b { doc = integrate_remote_insert c b.doc })
unfolding apply_op
unblock c b w r k = (
  AllWait-map _ _ _ b.pending_inserts at_most k.0,
  AllWait-map _ _ _ b.pending_deletes at_most k.1,
)
  where
    at_most :
        (o : CrdtId)
        → has_char o b.doc.chars ≡ false
        → (has_char o (integrate_remote_insert c b.doc).chars ≡ false) ⊎ (o ≡ c.id)
    at_most o h = elim (Bool-cases (id_eq c.id o)) [
      | inl same ↦ inr (sym ((id_eq_iff c.id o).0 same))
      | inr other ↦ inl (has_char-apply_op (insert c) b.doc o w r ∙ rw (other, h) refl)
    ]

pub still_ready :
    {d e : CrdtDocument} {todo ts rest : List CrdtOp} (cs : List CrdtChar)
    → IsWellFormed d.chars
    → Run d todo ts e rest
    → All (λ c. OriginReady c.origin_id d.chars) cs
    → All (λ c. OriginReady c.origin_id e.chars) cs
still_ready [] w r a = tt
still_ready (c ∷ cs) w r a = (Run-OriginReady c.origin_id w r a.0, still_ready cs w r a.1)
