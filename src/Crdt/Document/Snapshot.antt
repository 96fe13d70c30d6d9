-- ===== src/Crdt/Document/Snapshot.antt =====
-- `fromSnapshot`: the merge of a peer's characters.
use syncode.Base.{
  max, ◌≡◌, refl, sym, ap, subst, ◌∙◌, true, false, ◌||◌, Option, none, some, List, [], ◌∷◌, ◌++◌,
  arith, ◌⊎◌, inl, inr, Bool-cases, Option-cases, ◌&&◌,
}
use syncode.Crdt.Id.{CrdtId, id_eq, id_eq_iff}
use syncode.Crdt.Document.{
  CrdtChar, CrdtDocument, CrdtSnapshot, insert, delete, has_char, find_char_index, is_live_at,
  apply_op, merge_char, merge_chars, from_snapshot,
}
use syncode.Crdt.Document.Forest.Present.{present, present-append, has_char-present}
use syncode.Crdt.Document.Gone.{is_gone, is_gone-insert, is_gone-delete, found-gone}
use syncode.Crdt.Document.Forest.Refine.{Outer}
use syncode.Crdt.Document.Forest.Plant.{IsWellFormed}
use syncode.Crdt.Document.Convergence.{OriginReady, has_char-apply_op}
use syncode.Crdt.Document.Local.{ClockBounds, Ordered, IsWellFormed-Ordered}
use syncode.Crdt.Document.Invariant.{Inv, apply_op-Inv, ClockBounds-mono}

module _ (c : CrdtChar) (d : CrdtDocument) where
  merge_char-new : has_char c.id d.chars ≡ false → merge_char c d ≡ apply_op (insert c) d
  unfolding merge_char has_char apply_op
  merge_char-new h = ground arith

  merge_char-old :
      has_char c.id d.chars ≡ true
      → ((merge_char c d ≡ d) × (c.is_deleted ≡ true → is_gone c.id d.chars ≡ true))
        ⊎ ((merge_char c d ≡ apply_op (delete c.id) d) × (c.is_deleted ≡ true))
  unfolding merge_char has_char apply_op
  merge_char-old h = elim (Option-cases (find_char_index c.id d.chars)) [
    | inl missing ↦ ground arith
    | inr (i, found) ↦ elim (Bool-cases (c.is_deleted && is_live_at i d.chars)) [
      | inl stale ↦ inr (ground (arith, found, stale), ground arith)
      | inr fine ↦
          inl (ground (arith, found, fine), λ gone. found-gone c.id i d.chars found (ground arith))
    ]
  ]

  has_char_self :
      (id : CrdtId)
      → has_char c.id d.chars ≡ true
      → has_char id d.chars ≡ (id_eq c.id id || has_char id d.chars)
  has_char_self id h = ground (arith, id_eq_iff c.id id)

-- What one step of the merge establishes.
record Merged (c : CrdtChar) (d e : CrdtDocument) : Type 0 where
  inv : Inv e
  ids : (id : CrdtId) → has_char id e.chars ≡ (id_eq c.id id || has_char id d.chars)
  gone :
      (id : CrdtId) → is_gone id e.chars ≡ ((id_eq c.id id && c.is_deleted) || is_gone id d.chars)

merge_char-Merged :
    (c : CrdtChar) (d : CrdtDocument)
    → Inv d
    → OriginReady c.origin_id d.chars
    → Merged c d (merge_char c d)
merge_char-Merged c d v r = elim (Bool-cases (has_char c.id d.chars)) [
  | inl old ↦ elim (merge_char-old c d old) [
    | inl (same, known) ↦ subst (Merged c d) (sym same) (record {
      inv = v;
      ids = λ id. has_char_self c d id old;
      gone = λ id. ground (arith, known, id_eq_iff c.id id);
    })
    | inr (deleted, marked) ↦ subst (Merged c d) (sym deleted) (record {
      inv = apply_op-Inv (delete c.id) d v old;
      ids = λ id. has_char-apply_op (delete c.id) d id v.formed old ∙ has_char_self c d id old;
      gone = λ id. is_gone-delete id c.id d v.formed.distinct old ∙ ground (arith, marked);
    })
  ]
  | inr new ↦ subst (Merged c d) (sym (merge_char-new c d new)) (record {
    inv = apply_op-Inv (insert c) d v (new, r);
    ids = λ id. has_char-apply_op (insert c) d id v.formed (new, r);
    gone = λ id. is_gone-insert id c d new;
  })
]

-- The merge of a list in which every origin comes before its character.
merge_chars_lem :
    (pre cs : List CrdtChar) (d : CrdtDocument)
    → Inv d
    → Ordered pre cs
    → ((id : CrdtId) → present id pre ≡ true → has_char id d.chars ≡ true)
    → Inv (merge_chars cs d)
      × ((id : CrdtId)
          → has_char id (merge_chars cs d).chars ≡ (present id cs || has_char id d.chars))
      × ((id : CrdtId)
          → is_gone id (merge_chars cs d).chars ≡ (is_gone id cs || is_gone id d.chars))
unfolding merge_chars present is_gone
merge_chars_lem pre [] d v o h = (v, λ id. refl, λ id. refl)
merge_chars_lem pre (c ∷ cs) d v o h =
    let m = merge_char-Merged c d v (origin c.origin_id o.0) in
    let (inv, ids, gone) =
      merge_chars_lem (pre ++ c ∷ []) cs (merge_char c d) m.inv o.1
        λ id p. ground (arith, m.ids id, h id, present-append id pre (c ∷ [])) in
    (inv, λ id. ground (arith, ids id, m.ids id), λ id. ground (arith, gone id, m.gone id))
  where
    origin : (q : Option CrdtId) → Outer q pre → OriginReady q d.chars
    origin none k = tt
    origin (some y) k = h y k

module _ (s : CrdtSnapshot) (d : CrdtDocument) where
  abbrev raised : CrdtDocument
  raised = record d { clock = max d.clock s.clock }

  from_snapshot-empty : d.chars ≡ [] → from_snapshot s d ≡ record raised { chars = s.chars }
  unfolding from_snapshot
  from_snapshot-empty e = ground arith

  from_snapshot-merge :
      (c : CrdtChar) (cs : List CrdtChar)
      → d.chars ≡ c ∷ cs
      → from_snapshot s d ≡ merge_chars s.chars raised
  unfolding from_snapshot
  from_snapshot-merge c cs e = ground arith

  -- What a merge establishes.
  abbrev pub IsMerge : CrdtDocument → Type 0
  IsMerge e =
      Inv e
      × ((id : CrdtId) → has_char id e.chars ≡ (has_char id s.chars || has_char id d.chars))
      × ((id : CrdtId) → is_gone id e.chars ≡ (is_gone id s.chars || is_gone id d.chars))

  module _ (w : IsWellFormed s.chars) (b : ClockBounds s.clock s.chars) (v : Inv d) where
    adopt-IsMerge : d.chars ≡ [] → IsMerge (record raised { chars = s.chars })
    unfolding present is_gone
    adopt-IsMerge e = (
      record {
        formed = w;
        bounds = ClockBounds-mono s.clock (max d.clock s.clock) s.chars (omega arith) b;
      },
      λ id. ground (arith, ap (has_char id) e, has_char-present id []),
      λ id. ground (arith, ap (is_gone id) e),
    )

    merge_chars-IsMerge : IsMerge (merge_chars s.chars raised)
    unfolding present
    merge_chars-IsMerge =
        let bounds =
          ClockBounds-mono d.clock (max d.clock s.clock) d.chars (omega arith) v.bounds in
        let (inv, ids, gone) =
          merge_chars_lem [] s.chars raised (record { formed = v.formed; bounds = bounds })
            (IsWellFormed-Ordered w) (λ id p. cc) in
        (
          inv,
          λ id. ids id ∙ ap (λ t. t || has_char id d.chars) (sym (has_char-present id s.chars)),
          gone,
        )

    by_chars : (cs : List CrdtChar) → d.chars ≡ cs → IsMerge (from_snapshot s d)
    by_chars [] e = subst IsMerge (sym (from_snapshot-empty e)) (adopt-IsMerge e)
    by_chars (c ∷ cs) e = subst IsMerge (sym (from_snapshot-merge c cs e)) merge_chars-IsMerge

-- A merge with the snapshot of a well-formed document keeps the invariant; the result has the ids of
-- both sides and no others, and a character is deleted in it if and only if it is on either side.
pub from_snapshot-Inv :
    (s : CrdtSnapshot) (d : CrdtDocument)
    → IsWellFormed s.chars
    → ClockBounds s.clock s.chars
    → Inv d
    → Inv (from_snapshot s d)
      × ((id : CrdtId)
          → has_char id (from_snapshot s d).chars ≡ (has_char id s.chars || has_char id d.chars))
      × ((id : CrdtId)
          → is_gone id (from_snapshot s d).chars ≡ (is_gone id s.chars || is_gone id d.chars))
from_snapshot-Inv s d w b v = by_chars s d w b v d.chars refl
