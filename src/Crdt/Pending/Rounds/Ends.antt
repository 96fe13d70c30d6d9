-- ===== src/Crdt/Pending/Rounds/Ends.antt =====
-- About the rounds of `processPending` of client/src/crdt/PendingBuffer.ts, and how many it makes.
use syncode.Base.{
  ℕ, zero, suc, ◌+◌, ◌≤◌, ◌≡◌, refl, subst, inl, inr, Bool, true, false, ◌||◌, Bool-cases, none,
  some, List, [], ◌∷◌, arith, JsString, str_eq, str_eq_iff, length, if◌then◌else◌,
}
use syncode.Base.Assoc.{Assoc, get, get-put, get-remove, put, has}
use syncode.Crdt.Id.{CrdtId}
use syncode.Crdt.Document.{CrdtChar, has_char, integrate_remote_delete}
use syncode.Crdt.Pending.{PendingBuffer, count, size, is_insert_ready, integrate_and_drain}
use syncode.Crdt.Pending.Rounds.{
  replace_pending, filter_inserts, insert_round, process_ready_inserts, filter_deletes,
  delete_round, process_ready_deletes, process_pending, pending_fuel,
}
use syncode.Crdt.Pending.Rounds.Shrinks.{
  length_at, Within, get-absent, count-Within, here-Within, Shrinks, Shrinks-same, Shrinks-trans,
  Shrinks-doc, integrate_and_drain-Shrinks,
}
use syncode.Crdt.Pending.Waiting.{UniqueKeys, UniqueKeys-remove, UniqueKeys-put}

abbrev one : Bool → ℕ
one true = 1
one false = 0

module _ {V : Type 0} where
  count-put :
      (k : JsString) (v : List V) (s : Assoc (List V))
      → count (put k v s) + length_at k s ≡ length v + count s
  unfolding get put
  count-put k v [] = omega arith
  count-put k v ((i, w) ∷ s) = elim (Bool-cases (str_eq i k)) [
    | inl same ↦ rw same (omega arith)
    | inr other ↦ rw other (omega (arith, count-put k v s))
  ]

  rest-length :
      (k j : JsString) (xs rem : List V) (t s : Assoc (List V))
      → length_at j ((k, xs) ∷ t) ≤ length_at j s
      → get j (put k rem s) ≡ (if str_eq k j then some rem else get j s)
      → get k t ≡ none
      → length_at j t ≤ length_at j (put k rem s)
  unfolding get
  rest-length k j xs rem t s q r a = elim (Bool-cases (str_eq k j)) [
    | inl same ↦
        let gone = subst (λ z. get z t ≡ none) ((str_eq_iff k j).0 same) a in rw gone (omega arith)
    | inr other ↦ ground (arith, q, r, other)
  ]

  rest-Within :
      (k : JsString) (xs rem : List V) (t s : Assoc (List V))
      → has k t ≡ false
      → Within ((k, xs) ∷ t) s
      → Within t (put k rem s)
  rest-Within k xs rem t s a h j =
      rest-length k j xs rem t s (h j) (get-put k j rem s) (get-absent k t a)

  replace-Within :
      (k : JsString) (rem : List V) (m s : Assoc (List V))
      → Within m s
      → Within (replace_pending k rem m) (put k rem s)
  replace-Within k [] m s h j = ground (arith, h j, get-put k j [] s, get-remove k j m)
  replace-Within k (x ∷ xs) m s h j =
      ground (arith, h j, get-put k j (x ∷ xs) s, get-put k j (x ∷ xs) m)

  UniqueKeys-replace :
      (k : JsString) (rem : List V) (m : Assoc (List V))
      → UniqueKeys m
      → UniqueKeys (replace_pending k rem m)
  UniqueKeys-replace k [] m u = UniqueKeys-remove k m u
  UniqueKeys-replace k (x ∷ xs) m u = UniqueKeys-put k (x ∷ xs) m u

-- What a run over the list of a key leaves behind.
record Filtered {A : Type 0} (xs : List A) (b : PendingBuffer) (r : List A × PendingBuffer × Bool)
    : Type 0 where
  pub shrinks : Shrinks b r.1
  pub fewer : one r.2 + length r.0 ≤ length xs

filter_inserts_lem : (cs : List CrdtChar) (b : PendingBuffer) → Filtered cs b (filter_inserts cs b)
unfolding filter_inserts
filter_inserts_lem [] b = record { shrinks = Shrinks-same b; fewer = omega arith }
filter_inserts_lem (c ∷ cs) b = elim (Bool-cases (is_insert_ready c b.doc)) [
  | inl ready ↦
      let b1 = integrate_and_drain c b in
      let rest = filter_inserts_lem cs b1 in
      rw ready (record {
        shrinks = Shrinks-trans b b1 _ (integrate_and_drain-Shrinks c b) rest.shrinks;
        fewer = later (filter_inserts cs b1).2 (length cs) _ rest.fewer;
      })
  | inr waits ↦
      let rest = filter_inserts_lem cs b in
      rw waits (record { shrinks = rest.shrinks; fewer = omega (arith, rest.fewer) })
]
  where
    later : (p : Bool) (n m : ℕ) → one p + m ≤ n → 1 + m ≤ suc n
    later p n m h = omega arith

filter_deletes_lem : (ids : List CrdtId) (b : PendingBuffer) → Filtered ids b (filter_deletes ids b)
unfolding filter_deletes
filter_deletes_lem [] b = record { shrinks = Shrinks-same b; fewer = omega arith }
filter_deletes_lem (id ∷ ids) b = elim (Bool-cases (has_char id b.doc.chars)) [
  | inl there ↦
      let d = integrate_remote_delete id b.doc in
      let rest = filter_deletes_lem ids (record b { doc = d }) in
      rw there
        (record { shrinks = Shrinks-doc d b _ rest.shrinks; fewer = omega (arith, rest.fewer) })
  | inr waits ↦
      let rest = filter_deletes_lem ids b in
      rw waits (record { shrinks = rest.shrinks; fewer = omega (arith, rest.fewer) })
]

one-|| : (p q : Bool) → one (p || q) ≤ one p + one q
one-|| true q = omega arith
one-|| false q = omega arith

-- What the loop over the entries `t` leaves behind, when what waits is bounded by `s`.
insert_round_lem :
    (t s : Assoc (List CrdtChar)) (b : PendingBuffer)
    → UniqueKeys t
    → UniqueKeys s
    → UniqueKeys b.pending_inserts
    → Within t s
    → Within b.pending_inserts s
    → (one (insert_round t b).1 + count (insert_round t b).0.pending_inserts ≤ count s)
      × UniqueKeys (insert_round t b).0.pending_inserts
      × Within (insert_round t b).0.pending_deletes b.pending_deletes
      × (UniqueKeys b.pending_deletes → UniqueKeys (insert_round t b).0.pending_deletes)
unfolding insert_round
insert_round_lem [] s b ut us ub ht hb =
    (omega (arith, count-Within b.pending_inserts s ub us hb), ub, λ k. omega arith, λ u. u)
insert_round_lem ((key, cs) ∷ t) s b ut us ub ht hb =
    let f = filter_inserts cs b in
    let l = filter_inserts_lem cs b in
    let b1 : PendingBuffer = record f.1 {
      pending_inserts = replace_pending key f.0 f.1.pending_inserts;
    } in
    let s1 = put key f.0 s in
    let rest =
      insert_round_lem t s1 b1 ut.1 (UniqueKeys-put key f.0 s us)
        (UniqueKeys-replace key f.0 f.1.pending_inserts (l.shrinks.insert_keys ub))
        (rest-Within key cs f.0 t s ut.0 ht)
        (replace-Within key f.0 f.1.pending_inserts s
          (λ k. omega (arith, l.shrinks.inserts k, hb k))) in
    (
      omega (
        arith,
        rest.0,
        l.fewer,
        one-|| f.2 (insert_round t b1).1,
        count-put key f.0 s,
        here-Within key t s cs (ht key),
      ),
      rest.1,
      λ k. omega (arith, rest.2 k, l.shrinks.deletes k),
      λ u. rest.3 (l.shrinks.delete_keys u),
    )

delete_round_lem :
    (t s : Assoc (List CrdtId)) (b : PendingBuffer)
    → UniqueKeys t
    → UniqueKeys s
    → UniqueKeys b.pending_deletes
    → Within t s
    → Within b.pending_deletes s
    → (one (delete_round t b).1 + count (delete_round t b).0.pending_deletes ≤ count s)
      × UniqueKeys (delete_round t b).0.pending_deletes
      × Within (delete_round t b).0.pending_inserts b.pending_inserts
      × (UniqueKeys b.pending_inserts → UniqueKeys (delete_round t b).0.pending_inserts)
unfolding delete_round
delete_round_lem [] s b ut us ub ht hb =
    (omega (arith, count-Within b.pending_deletes s ub us hb), ub, λ k. omega arith, λ u. u)
delete_round_lem ((key, ids) ∷ t) s b ut us ub ht hb =
    let f = filter_deletes ids b in
    let l = filter_deletes_lem ids b in
    let b1 : PendingBuffer = record f.1 {
      pending_deletes = replace_pending key f.0 f.1.pending_deletes;
    } in
    let s1 = put key f.0 s in
    let rest =
      delete_round_lem t s1 b1 ut.1 (UniqueKeys-put key f.0 s us)
        (UniqueKeys-replace key f.0 f.1.pending_deletes (l.shrinks.delete_keys ub))
        (rest-Within key ids f.0 t s ut.0 ht)
        (replace-Within key f.0 f.1.pending_deletes s
          (λ k. omega (arith, l.shrinks.deletes k, hb k))) in
    (
      omega (
        arith,
        rest.0,
        l.fewer,
        one-|| f.2 (delete_round t b1).1,
        count-put key f.0 s,
        here-Within key t s ids (ht key),
      ),
      rest.1,
      λ k. omega (arith, rest.2 k, l.shrinks.inserts k),
      λ u. rest.3 (l.shrinks.insert_keys u),
    )

-- Enough fuel, more than what waits, gives a result.
enough-process_pending :
    (n : ℕ) (b : PendingBuffer)
    → UniqueKeys b.pending_inserts
    → UniqueKeys b.pending_deletes
    → suc (size b) ≤ n
    → (b' : PendingBuffer) × (process_pending n b ≡ some b')
unfolding process_pending process_ready_inserts process_ready_deletes size
enough-process_pending zero b u v h = ground arith
enough-process_pending (suc n) b u v h =
    let i = process_ready_inserts b in
    let li =
      insert_round_lem b.pending_inserts b.pending_inserts b u u u (λ k. omega arith)
        (λ k. omega arith) in
    let vi = li.3 v in
    let d = process_ready_deletes i.0 in
    let ld =
      delete_round_lem i.0.pending_deletes i.0.pending_deletes i.0 vi vi vi (λ k. omega arith)
        (λ k. omega arith) in
    let fewer = count-Within i.0.pending_deletes b.pending_deletes vi v li.2 in
    let same = count-Within d.0.pending_inserts i.0.pending_inserts (ld.3 li.1) li.1 ld.2 in
    elim (Bool-cases (d.1 || i.1)) [
      | inl progress ↦ rw progress (
          enough-process_pending n d.0 (ld.3 li.1) ld.1
            (omega (arith, h, li.0, ld.0, fewer, same, progress-one d.1 i.1 progress)))
      | inr still ↦ rw still (d.0, refl)
    ]
  where
    progress-one : (p q : Bool) → p || q ≡ true → 1 ≤ one p + one q
    progress-one true q e = omega arith
    progress-one false q e = rw e (omega arith)

-- `processPending` comes to an end: when no key stands twice in either map, the rounds it makes are
-- at most one more than the operations that wait.
pub process_pending-ends :
    (b : PendingBuffer)
    → UniqueKeys b.pending_inserts
    → UniqueKeys b.pending_deletes
    → (b' : PendingBuffer) × (process_pending (pending_fuel b) b ≡ some b')
process_pending-ends b u v = enough-process_pending (pending_fuel b) b u v (omega arith)
