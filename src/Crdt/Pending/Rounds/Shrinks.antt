-- ===== src/Crdt/Pending/Rounds/Shrinks.antt =====
-- About the operations of client/src/crdt/PendingBuffer.ts that take out of the two maps, and how
-- much waits under each key after them.
use syncode.Base.{
  ℕ, zero, suc, ◌+◌, ◌≤◌, ◌≡◌, refl, subst, inl, inr, false, Bool-cases, Option, none, some, List,
  [], ◌∷◌, arith, JsString, str_eq, str_eq_iff, str_eq_refl, length, if◌then◌else◌,
}
use syncode.Base.Assoc.{Assoc, get, get-remove, remove, has, has-get}
use syncode.Crdt.Id.{CrdtId, crdt_id_to_string}
use syncode.Crdt.Document.{CrdtChar, CrdtDocument, integrate_remote_insert}
use syncode.Crdt.Pending.{
  PendingBuffer, listed, count, deletes_at, drain_deletes, integrate_inserts, inserts_at,
  drain_inserts, drain, integrate_and_drain, drain_fuel,
}
use syncode.Crdt.Pending.Waiting.{UniqueKeys, UniqueKeys-remove, remove-none}

module _ {V : Type 0} where
  abbrev pub length_at : JsString → Assoc (List V) → ℕ
  length_at k m = length (listed (get k m))

  -- Under no key does more wait in the first map than in the second.
  abbrev pub Within : Assoc (List V) → Assoc (List V) → Type 0
  Within m s = (k : JsString) → length_at k m ≤ length_at k s

  pub remove-Within : (key : JsString) (m : Assoc (List V)) → Within (remove key m) m
  remove-Within key m k = ground (arith, get-remove key k m)

  pub get-absent : (k : JsString) (m : Assoc (List V)) → has k m ≡ false → get k m ≡ none
  get-absent k m h = ground (arith, has-get k m)

  count-remove :
      (k : JsString) (s : Assoc (List V))
      → UniqueKeys s
      → count s ≡ length_at k s + count (remove k s)
  unfolding get remove
  count-remove k [] u = refl
  count-remove k ((j, xs) ∷ s) u = elim (Bool-cases (str_eq j k)) [
    | inl same ↦
        let absent = subst (λ z. has z s ≡ false) ((str_eq_iff j k).0 same) u.0 in
        rw (same, remove-none k s (get-absent k s absent)) refl
    | inr other ↦ rw other (omega (arith, count-remove k s u.1))
  ]

  pub later-Within :
      (k j : JsString) (m s : Assoc (List V)) (xs : List V)
      → length_at j ((k, xs) ∷ m) ≤ length_at j s
      → get j (remove k s) ≡ (if str_eq k j then none else get j s)
      → get k m ≡ none
      → length_at j m ≤ length_at j (remove k s)
  unfolding get
  later-Within k j m s xs q r a = elim (Bool-cases (str_eq k j)) [
    | inl same ↦
        let gone = subst (λ z. get z m ≡ none) ((str_eq_iff k j).0 same) a in rw gone (omega arith)
    | inr other ↦ ground (arith, q, r, other)
  ]

  pub here-Within :
      (k : JsString) (m s : Assoc (List V)) (xs : List V)
      → length_at k ((k, xs) ∷ m) ≤ length_at k s
      → length xs ≤ length_at k s
  unfolding get
  here-Within k m s xs q = ground (arith, str_eq_refl k)

  pub count-Within :
      (m s : Assoc (List V)) → UniqueKeys m → UniqueKeys s → Within m s → count m ≤ count s
  count-Within [] s u v h = omega arith
  count-Within ((k, xs) ∷ m) s u v h =
      let rest =
        count-Within m (remove k s) u.1 (UniqueKeys-remove k s v)
          (λ j. later-Within k j m s xs (h j) (get-remove k j s) (get-absent k m u.0)) in
      omega (arith, here-Within k m s xs (h k), rest, count-remove k s v)

-- The buffer after some of what waited has left it.
pub record Shrinks (b b' : PendingBuffer) : Type 0 where
  pub inserts : Within b'.pending_inserts b.pending_inserts
  pub deletes : Within b'.pending_deletes b.pending_deletes
  pub insert_keys : UniqueKeys b.pending_inserts → UniqueKeys b'.pending_inserts
  pub delete_keys : UniqueKeys b.pending_deletes → UniqueKeys b'.pending_deletes

pub Shrinks-same : (b : PendingBuffer) → Shrinks b b
Shrinks-same b = record {
  inserts = λ k. omega arith;
  deletes = λ k. omega arith;
  insert_keys = λ u. u;
  delete_keys = λ u. u;
}

pub Shrinks-trans : (a b c : PendingBuffer) → Shrinks a b → Shrinks b c → Shrinks a c
Shrinks-trans a b c r s = record {
  inserts = λ k. omega (arith, r.inserts k, s.inserts k);
  deletes = λ k. omega (arith, r.deletes k, s.deletes k);
  insert_keys = λ u. s.insert_keys (r.insert_keys u);
  delete_keys = λ u. s.delete_keys (r.delete_keys u);
}

-- The document may have changed as well.
pub Shrinks-doc :
    (d : CrdtDocument) (b c : PendingBuffer) → Shrinks (record b { doc = d }) c → Shrinks b c
Shrinks-doc d b c s = record {
  inserts = s.inserts;
  deletes = s.deletes;
  insert_keys = s.insert_keys;
  delete_keys = s.delete_keys;
}

deletes_at-Shrinks :
    (key : JsString) (o : Option (List CrdtId)) (b : PendingBuffer) → Shrinks b (deletes_at key o b)
deletes_at-Shrinks key none b = Shrinks-same b
deletes_at-Shrinks key (some ids) b = record {
  inserts = λ k. omega arith;
  deletes = remove-Within key b.pending_deletes;
  insert_keys = λ u. u;
  delete_keys = λ u. UniqueKeys-remove key b.pending_deletes u;
}

integrate_inserts-Shrinks :
    (next : CrdtId → PendingBuffer → PendingBuffer)
    → ((id : CrdtId) (b : PendingBuffer) → Shrinks b (next id b))
    → (cs : List CrdtChar) (b : PendingBuffer) → Shrinks b (integrate_inserts next cs b)
unfolding integrate_inserts
integrate_inserts-Shrinks next h [] b = Shrinks-same b
integrate_inserts-Shrinks next h (c ∷ cs) b =
    let d = integrate_remote_insert c b.doc in
    let b1 = next c.id (record b { doc = d }) in
    Shrinks-trans b b1 _ (Shrinks-doc d b b1 (h c.id (record b { doc = d })))
      (integrate_inserts-Shrinks next h cs b1)

inserts_at-Shrinks :
    (next : CrdtId → PendingBuffer → PendingBuffer)
    → ((id : CrdtId) (b : PendingBuffer) → Shrinks b (next id b))
    → (key : JsString) (o : Option (List CrdtChar)) (b : PendingBuffer)
    → Shrinks b (inserts_at next key o b)
inserts_at-Shrinks next h key none b = Shrinks-same b
inserts_at-Shrinks next h key (some cs) b =
    let b1 = record b { pending_inserts = remove key b.pending_inserts } in
    Shrinks-trans b b1 _
      (record {
        inserts = remove-Within key b.pending_inserts;
        deletes = λ k. omega arith;
        insert_keys = λ u. UniqueKeys-remove key b.pending_inserts u;
        delete_keys = λ u. u;
      })
      (integrate_inserts-Shrinks next h cs b1)

drain-Shrinks : (n : ℕ) (id : CrdtId) (b : PendingBuffer) → Shrinks b (drain n id b)
unfolding drain drain_deletes drain_inserts
drain-Shrinks zero id b = Shrinks-same b
drain-Shrinks (suc n) id b =
    let key = crdt_id_to_string (some id) in
    let b1 = deletes_at key (get key b.pending_deletes) b in
    Shrinks-trans b b1 _ (deletes_at-Shrinks key (get key b.pending_deletes) b)
      (inserts_at-Shrinks (drain n) (drain-Shrinks n) key (get key b1.pending_inserts) b1)

pub integrate_and_drain-Shrinks :
    (c : CrdtChar) (b : PendingBuffer) → Shrinks b (integrate_and_drain c b)
unfolding integrate_and_drain
integrate_and_drain-Shrinks c b =
    let d = integrate_remote_insert c b.doc in
    Shrinks-doc d b _ (drain-Shrinks (drain_fuel b) c.id (record b { doc = d }))
