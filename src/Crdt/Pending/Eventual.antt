-- ===== src/Crdt/Pending/Eventual.antt =====
-- Whatever the order of delivery, every operation is integrated, as in a causal order.
use mathlib.Core.List.{
  Perm, Mem, mem-append, mem-append_right, mem-cons_self, mem-cons_of_mem, eq-or-mem_of_mem-cons,
  not-mem-nil, append-nil,
}
use mathlib.Core.List.Perm
use mathlib.Core.Logic.Or
use mathlib.Core.Bool.{Bool-set, true≢false}
use syncode.Base.{
  suc, ◌≡◌, refl, sym, ap, subst, ◌∙◌, inl, inr, Bool, true, false, Option, none, some, List, [],
  ◌∷◌, ◌++◌, arith, Bool-cases, map, length, length-append, JsString, All, All-append,
}
use syncode.Base.Assoc.{Assoc}
use syncode.Crdt.Id.{CrdtId, id_eq, id_eq_iff, id_eq_refl}
use syncode.Crdt.Document.{CrdtChar, CrdtOp, CrdtDocument, insert, delete, has_char, apply_op}
use syncode.Crdt.Document.Forest.Plant.{IsWellFormed}
use syncode.Crdt.Document.Convergence.{
  OriginReady, Ready, IsCausal, deliver, deliver-perm, has_char-apply_op, apply_op-IsWellFormed,
}
use syncode.Crdt.Pending.{PendingBuffer, is_origin_there, process_all, new_buffer, size, count}
use syncode.Crdt.Pending.Run.{IsFresh, IsFresh-perm, IsCausal-IsFresh, OriginReady-deliver}
use syncode.Crdt.Pending.Waiting.{Waits, AllWait, ops_of}
use syncode.Crdt.Pending.Settles.{waiting, IsBlocked, Good, Settles}
use syncode.Crdt.Pending.Process.{process_all-Settles}

-- What the buffer tests before it integrates an operation.
abbrev can_integrate : CrdtOp → CrdtDocument → Bool
can_integrate (insert c) d = is_origin_there c.origin_id d
can_integrate (delete id) d = has_char id d.chars

module _ (d : CrdtDocument) where
  abbrev Missing : CrdtId → Type 0
  Missing o = has_char o d.chars ≡ false

  abbrev Stuck : CrdtOp → Type 0
  Stuck x = can_integrate x d ≡ false

  module _ {V : Type 0} (target : V → Option CrdtId) (op : V → CrdtOp)
      (stuck : (v : V) (id : CrdtId) → target v ≡ some id → Missing id → Stuck (op v)) where
    listed-Stuck :
        (k : JsString) (vs : List V) → All (Waits target Missing k) vs → All Stuck (map op vs)
    listed-Stuck k [] h = tt
    listed-Stuck k (v ∷ vs) h = let (id, t, _, p) = h.0 in (stuck v id t p, listed-Stuck k vs h.1)

    ops_of-Stuck : (m : Assoc (List V)) → AllWait target Missing m → All Stuck (ops_of op m)
    ops_of-Stuck [] h = tt
    ops_of-Stuck ((k, vs) ∷ m) h =
        All-append Stuck (map op vs) (ops_of op m) (listed-Stuck k vs h.0) (ops_of-Stuck m h.1)

waiting-Stuck : (b : PendingBuffer) → IsBlocked b → All (Stuck b.doc) (waiting b)
unfolding is_origin_there
waiting-Stuck b k =
    All-append (Stuck b.doc) (ops_of insert b.pending_inserts) (ops_of delete b.pending_deletes)
      (ops_of-Stuck b.doc (λ (c : CrdtChar). c.origin_id) insert stuck_insert b.pending_inserts k.0)
      (ops_of-Stuck b.doc some delete stuck_delete b.pending_deletes k.1)
  where
    stuck_insert :
        (c : CrdtChar) (id : CrdtId)
        → c.origin_id ≡ some id
        → Missing b.doc id
        → Stuck b.doc (insert c)
    stuck_insert c id e h = subst (λ o. is_origin_there o b.doc ≡ false) (sym e) h

    stuck_delete : (i id : CrdtId) → some i ≡ some id → Missing b.doc id → Stuck b.doc (delete i)
    stuck_delete i id e h = subst (λ o. is_origin_there o b.doc ≡ false) (sym e) h

All-mem :
    (d : CrdtDocument) (xs : List CrdtOp) (x : CrdtOp) → All (Stuck d) xs → Mem x xs → Stuck d x
All-mem d [] x a m = absurd (not-mem-nil m)
All-mem d (y ∷ xs) x a m =
    Or.elim (Bool-set _ _) (eq-or-mem_of_mem-cons m) (λ e. subst (Stuck d) (sym e) a.0)
      (All-mem d xs x a.1)

-- A delivered insertion is there.
delivered-there :
    (ts : List CrdtOp) (d : CrdtDocument) (c : CrdtChar)
    → IsWellFormed d.chars
    → IsCausal ts d
    → Mem (insert c) ts
    → has_char c.id (deliver ts d).chars ≡ true
unfolding deliver
delivered-there [] d c w a m = absurd (not-mem-nil m)
delivered-there (x ∷ ts) d c w a m =
    let w' = apply_op-IsWellFormed x d w a.0 in
    Or.elim (Bool-set _ _) (eq-or-mem_of_mem-cons m)
      (λ e.
        OriginReady-deliver ts (apply_op x d) (some c.id) w' a.1
          (has_char-apply_op x d c.id w a.0 ∙ rw (← e, id_eq_refl c.id) refl))
      (delivered-there ts (apply_op x d) c w' a.1)

-- A causal order reaches only what the document `d` has, if `d` has what could be integrated.
module _ (d : CrdtDocument) where
  can_mono :
      (x : CrdtOp) (e : CrdtDocument)
      → Ready x e
      → ((id : CrdtId) → has_char id e.chars ≡ true → has_char id d.chars ≡ true)
      → can_integrate x d ≡ true
  unfolding is_origin_there
  can_mono (delete id) e r h = h id r
  can_mono (insert c) e r h = origin c.origin_id r.1
    where
      origin : (o : Option CrdtId) → OriginReady o e.chars → is_origin_there o d ≡ true
      origin none p = refl
      origin (some id) p = h id p

  caught_up :
      (ops : List CrdtOp) (e : CrdtDocument)
      → IsWellFormed e.chars
      → IsCausal ops e
      → ((c : CrdtChar)
          → Mem (insert c) ops
          → can_integrate (insert c) d ≡ true
          → has_char c.id d.chars ≡ true)
      → ((id : CrdtId) → has_char id e.chars ≡ true → has_char id d.chars ≡ true)
      → (x : CrdtOp) → Mem x ops
      → can_integrate x d ≡ true
  caught_up [] e w a done h x m = absurd (not-mem-nil m)
  caught_up (y ∷ ops) e w a done h x m =
      let first = can_mono y e a.0 h in
      Or.elim (Bool-set _ _) (eq-or-mem_of_mem-cons m)
        (λ q. subst (λ z. can_integrate z d ≡ true) (sym q) first)
        (caught_up ops (apply_op y e) (apply_op-IsWellFormed y e w a.0) a.1
          (λ c k. done c (mem-cons_of_mem y k))
          (step y a.0 (λ c q. done c (subst (λ z. Mem z (y ∷ ops)) q mem-cons_self)) first) x)
    where
      step :
          (z : CrdtOp)
          → Ready z e
          → ((c : CrdtChar)
              → z ≡ insert c
              → can_integrate (insert c) d ≡ true
              → has_char c.id d.chars ≡ true)
          → can_integrate z d ≡ true
          → (id : CrdtId) → has_char id (apply_op z e).chars ≡ true
          → has_char id d.chars ≡ true
      step (insert c) r f can id p = elim (Bool-cases (id_eq c.id id)) [
        | inl same ↦
            subst (λ z. has_char z d.chars ≡ true) ((id_eq_iff c.id id).0 same) (f c refl can)
        | inr other ↦ h id (ground (arith, has_char-apply_op (insert c) e id w r))
      ]
      step (delete i) r f can id p = h id (sym (has_char-apply_op (delete i) e id w r) ∙ p)

module _ {V : Type 0} (op : V → CrdtOp) where
  length-map : (ws : List V) → length (map op ws) ≡ length ws
  length-map [] = refl
  length-map (w ∷ ws) = ap suc (length-map ws)

  count-ops_of : (m : Assoc (List V)) → count m ≡ length (ops_of op m)
  count-ops_of [] = refl
  count-ops_of ((k, vs) ∷ m) =
      omega (arith, count-ops_of m, length-append (map op vs) (ops_of op m), length-map vs)

module _ (d : CrdtDocument) where
  new_buffer-Good :
      (ops : List CrdtOp) → IsWellFormed d.chars → IsFresh ops d → Good ops (new_buffer d)
  new_buffer-Good ops w f = record {
    formed = w;
    fresh = subst (λ z. IsFresh z d) (sym (append-nil ops)) f;
    inserts = tt;
    deletes = tt;
  }

-- Nothing of a causal order is left waiting.
nothing_waits :
    (ops ops' : List CrdtOp) (d : CrdtDocument) (b : PendingBuffer)
    → IsWellFormed d.chars
    → IsCausal ops' d
    → Perm ops ops'
    → Settles ops (new_buffer d) b
    → waiting b ≡ []
nothing_waits ops ops' d b w a p s = none_left (waiting b) refl
  where
    all : Perm (s.order ++ waiting b) ops'
    all = Perm.trans (subst (λ z. Perm (s.order ++ waiting b) z) (append-nil ops) s.run.perm) p

    stuck : All (Stuck b.doc) (waiting b)
    stuck = waiting-Stuck b s.blocked

    there :
        (c : CrdtChar)
        → Mem (insert c) ops'
        → can_integrate (insert c) b.doc ≡ true
        → has_char c.id b.doc.chars ≡ true
    there c m can =
        Or.elim (Bool-set _ _) (mem-append.0 (Perm.subset (Perm.symm all) (insert c) m))
          (λ k.
            subst (λ z. has_char c.id z.chars ≡ true) (sym s.run.doc)
              (delivered-there s.order d c w s.run.causal k))
          (λ k. absurd (true≢false (sym can ∙ All-mem b.doc (waiting b) (insert c) stuck k)))

    kept : (id : CrdtId) → has_char id d.chars ≡ true → has_char id b.doc.chars ≡ true
    kept id h =
        subst (λ z. has_char id z.chars ≡ true) (sym s.run.doc)
          (OriginReady-deliver s.order d (some id) w s.run.causal h)

    none_left : (xs : List CrdtOp) → waiting b ≡ xs → waiting b ≡ []
    none_left [] e = e
    none_left (x ∷ xs) e =
        let here = subst (λ z. Mem x z) (sym e) mem-cons_self in
        let can =
          caught_up b.doc ops' d w a there kept x
            (Perm.subset all x (mem-append_right s.order here)) in
        absurd (true≢false (sym can ∙ All-mem b.doc (waiting b) x stuck here))

-- A buffer over a well-formed document that gets operations in any order at all ends as after their
-- delivery in a causal order, if they have one; and nothing is left in the buffer.
pub process_all-deliver :
    (ops ops' : List CrdtOp) (d : CrdtDocument)
    → IsWellFormed d.chars
    → IsCausal ops' d
    → Perm ops ops'
    → ((process_all ops (new_buffer d)).doc ≡ deliver ops' d)
      × (size (process_all ops (new_buffer d)) ≡ 0)
unfolding size
process_all-deliver ops ops' d w a p =
    let fresh = IsFresh-perm ops' ops d (Perm.symm p) (IsCausal-IsFresh ops' d w a) in
    let b = process_all ops (new_buffer d) in
    let s = process_all-Settles ops (new_buffer d) (new_buffer-Good d ops w fresh) (tt, tt) in
    let empty = nothing_waits ops ops' d b w a p s in
    let order : Perm s.order ops' =
      Perm.trans
        (subst (λ z. Perm s.order z) (append-nil ops)
          (subst (λ z. Perm z (ops ++ [])) (ap (λ z. s.order ++ z) empty ∙ append-nil s.order)
            s.run.perm))
        p in
    (
      s.run.doc ∙ deliver-perm s.order ops' d w s.run.causal a order,
      omega (
        arith,
        count-ops_of insert b.pending_inserts,
        count-ops_of delete b.pending_deletes,
        length-append (ops_of insert b.pending_inserts) (ops_of delete b.pending_deletes),
        ap length empty,
      ),
    )
