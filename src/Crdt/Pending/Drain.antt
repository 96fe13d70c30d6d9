-- ===== src/Crdt/Pending/Drain.antt =====
-- `drain` delivers what waits for a new character, and all that follows from it.
use mathlib.Core.List.{Perm, append_assoc}
use mathlib.Core.List.Perm
use syncode.Base.{
  ℕ, zero, suc, ◌<◌, ◌≡◌, ◌≢◌, refl, sym, ap, subst, ◌∙◌, ◌⊎◌, inl, inr, true, false, Option, none,
  some, List, [], ◌∷◌, ◌++◌, arith, JsString, Option-cases, length, map, All,
}
use syncode.Base.Assoc.{Assoc, get, remove}
use syncode.Crdt.Id.{CrdtId, crdt_id_to_string, id_eq_refl}
use syncode.Crdt.Document.{
  CrdtChar, CrdtOp, CrdtDocument, insert, delete, has_char, apply_op, integrate_remote_insert,
}
use syncode.Crdt.Document.Convergence.{OriginReady, has_char-apply_op}
use syncode.Crdt.Pending.{
  PendingBuffer, listed, integrate_deletes, deletes_at, inserts_at, drain_deletes,
  integrate_inserts, drain_inserts, drain,
}
use syncode.Crdt.Pending.Run.{
  Run, Run-trans, Run-frame, Run-perm, Run-step, Run-IsWellFormed, Run-IsFresh, IsFresh-append,
  IsFresh-new,
}
use syncode.Crdt.Pending.Waiting.{
  UniqueKeys, UniqueKeys-remove, AllWait-remove, remove-none, listed-target, ops_of, ops_of-listed,
  length-remove, length-remove_lt,
}
use syncode.Crdt.Pending.Settles.{
  waiting, IsBlocked, IsBlockedBut, Good, Settles, IsShorter, deletes-Run, nothing, unblock,
  still_ready,
}

-- What is asked of the recursive call.
abbrev DrainSettles : (CrdtId → PendingBuffer → PendingBuffer) → ℕ → Type 0
DrainSettles next n =
    (id : CrdtId) (b : PendingBuffer)
    → Good [] b
    → has_char id b.doc.chars ≡ true
    → IsBlockedBut id b
    → length b.pending_inserts < n
    → Settles [] b (next id b) × IsShorter b (next id b)

integrate_inserts-Settles :
    (next : CrdtId → PendingBuffer → PendingBuffer) (n : ℕ)
    → DrainSettles next n
    → (cs : List CrdtChar) (b : PendingBuffer) → Good (map insert cs) b
    → All (λ c. OriginReady c.origin_id b.doc.chars) cs
    → IsBlocked b
    → (cs ≡ []) ⊎ (length b.pending_inserts < n)
    → Settles (map insert cs) b (integrate_inserts next cs b)
      × IsShorter b (integrate_inserts next cs b)
unfolding integrate_inserts apply_op
integrate_inserts-Settles next n spec [] b g a k lt = (nothing b g.inserts g.deletes k, omega arith)
integrate_inserts-Settles next n spec (c ∷ cs) b g a k (inl e) = ground arith
integrate_inserts-Settles next n spec (c ∷ cs) b g a k (inr lt) =
    let rest = map insert cs ++ waiting b in
    let b1 = record b { doc = integrate_remote_insert c b.doc } in
    let new = IsFresh-new c rest b.doc g.fresh in
    let first = Run-step (insert c) b.doc rest (new, a.0) in
    let w1 = Run-IsWellFormed g.formed first in
    let fresh1 = Run-IsFresh g.formed g.fresh first in
    let g1 : Good [] b1 = record {
      formed = w1;
      fresh = IsFresh-append (map insert cs) (waiting b) b1.doc fresh1;
      inserts = g.inserts;
      deletes = g.deletes;
    } in
    let (s, short) =
      spec c.id b1 g1
        (has_char-apply_op (insert c) b.doc c.id g.formed (new, a.0) ∙ rw (id_eq_refl c.id) refl)
        (unblock c b g.formed (new, a.0) k) lt in
    let second = Run-frame (map insert cs) s.run in
    let both = Run-trans first second in
    let b2 = next c.id b1 in
    let g2 : Good (map insert cs) b2 = record {
      formed = Run-IsWellFormed w1 s.run;
      fresh = Run-IsFresh w1 fresh1 second;
      inserts = s.inserts;
      deletes = s.deletes;
    } in
    let (t, shorter) =
      integrate_inserts-Settles next n spec cs b2 g2 (still_ready cs g.formed both a.1) s.blocked
        (inr (omega (arith, short, lt))) in
    (
      record {
        order = _;
        run = Run-trans both t.run;
        blocked = t.blocked;
        inserts = t.inserts;
        deletes = t.deletes;
      },
      omega (arith, short, shorter),
    )

drain_deletes_lem :
    (key : JsString) (b : PendingBuffer)
    → drain_deletes key b ≡ record b {
      doc = integrate_deletes (listed (get key b.pending_deletes)) b.doc;
      pending_deletes = remove key b.pending_deletes;
    }
unfolding drain_deletes integrate_deletes
drain_deletes_lem key b = go (get key b.pending_deletes) refl
  where
    go :
        (o : Option (List CrdtId))
        → get key b.pending_deletes ≡ o
        → deletes_at key o b ≡ record b {
          doc = integrate_deletes (listed o) b.doc;
          pending_deletes = remove key b.pending_deletes;
        }
    go none h = rw (remove-none key b.pending_deletes h) refl
    go (some ids) h = refl

drain_inserts_lem :
    (next : CrdtId → PendingBuffer → PendingBuffer) (key : JsString) (b : PendingBuffer)
    → drain_inserts next key b
      ≡ integrate_inserts next
          (listed (get key b.pending_inserts))
          (record b { pending_inserts = remove key b.pending_inserts })
unfolding drain_inserts integrate_inserts
drain_inserts_lem next key b = go (get key b.pending_inserts) refl
  where
    go :
        (o : Option (List CrdtChar))
        → get key b.pending_inserts ≡ o
        → inserts_at next key o b
          ≡ integrate_inserts next
              (listed o)
              (record b { pending_inserts = remove key b.pending_inserts })
    go none h = rw (remove-none key b.pending_inserts h) refl
    go (some cs) h = refl

-- The call below has one key less, if there is one.
enough :
    (key : JsString) (m : Assoc (List CrdtChar)) (n : ℕ)
    → length m < suc n
    → (listed (get key m) ≡ []) ⊎ (length (remove key m) < n)
enough key m n lt = elim (Option-cases (get key m)) [
  | inl h ↦ inl (ap listed h)
  | inr (cs, h) ↦ inr (omega (arith, length-remove_lt key m cs h))
]

origins_ready :
    (id : CrdtId) (d : CrdtDocument) (cs : List CrdtChar)
    → has_char id d.chars ≡ true
    → All (λ c. c.origin_id ≡ some id) cs
    → All (λ c. OriginReady c.origin_id d.chars) cs
origins_ready id d [] h a = tt
origins_ready id d (c ∷ cs) h a =
    (subst (λ z. OriginReady z d.chars) (sym a.0) h, origins_ready id d cs h a.1)

regroup :
    (key : JsString) (m : Assoc (List CrdtChar)) (others : List CrdtOp)
    → UniqueKeys m
    → Perm
        (map insert (listed (get key m)) ++ (ops_of insert (remove key m) ++ others))
        (ops_of insert m ++ others)
regroup key m others u =
    subst (λ z. Perm z (ops_of insert m ++ others))
      (append_assoc (map insert (listed (get key m))) (ops_of insert (remove key m)) others)
      (Perm.append_right others (ops_of-listed insert key m u))

pub drain-Settles : (n : ℕ) → DrainSettles (drain n) n
unfolding drain
drain-Settles zero id b g h k lt = absurd (omega arith)
drain-Settles (suc n) id b g h k lt =
    let key = crdt_id_to_string (some id) in
    let ins = b.pending_inserts in
    let dels = b.pending_deletes in
    let cs = listed (get key ins) in
    let ids = listed (get key dels) in
    let d1 = integrate_deletes ids b.doc in
    let b1 : PendingBuffer = record {
      doc = d1;
      pending_inserts = remove key ins;
      pending_deletes = remove key dels;
    } in
    let names = listed-target some _ id dels k.1 in
    let (deleted, kept) =
      deletes-Run id ids (ops_of delete (remove key dels)) b.doc g.formed h names in
    let first =
      Run-perm (Perm.append_left (ops_of insert ins) (ops_of-listed delete key dels g.deletes))
        (Run-frame (ops_of insert ins) deleted) in
    let second : Run b.doc (waiting b) (map delete ids) d1 (map insert cs ++ waiting b1) = record {
      doc = first.doc;
      causal = first.causal;
      perm =
          Perm.trans
            (Perm.append_left (map delete ids)
              (regroup key ins (ops_of delete (remove key dels)) g.inserts))
            first.perm;
    } in
    let still : (o : CrdtId)
        → o ≢ id
        → (has_char o b.doc.chars ≡ false) ⊎ (o ≡ id)
        → has_char o d1.chars ≡ false =
      λ o ne x. elim x [ inl p ↦ kept o ∙ p | inr p ↦ absurd (ne p) ] in
    let g1 : Good (map insert cs) b1 = record {
      formed = Run-IsWellFormed g.formed second;
      fresh = Run-IsFresh g.formed g.fresh second;
      inserts = UniqueKeys-remove key ins g.inserts;
      deletes = UniqueKeys-remove key dels g.deletes;
    } in
    let blocked1 : IsBlocked b1 =
      (AllWait-remove _ _ _ id ins still k.0, AllWait-remove _ _ _ id dels still k.1) in
    let ready = origins_ready id d1 cs (kept id ∙ h) (listed-target _ _ id ins k.0) in
    let (s, short) =
      integrate_inserts-Settles (drain n) n (drain-Settles n) cs b1 g1 ready blocked1
        (enough key ins n lt) in
    rw
      (
        drain_deletes_lem key b,
        drain_inserts_lem (drain n) key (record b { doc = d1; pending_deletes = remove key dels }),
      )
      (
        record {
          order = map delete ids ++ s.order;
          run = Run-trans second s.run;
          blocked = s.blocked;
          inserts = s.inserts;
          deletes = s.deletes;
        },
        omega (arith, short, length-remove key ins),
      )
