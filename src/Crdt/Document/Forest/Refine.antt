-- ===== src/Crdt/Document/Forest/Refine.antt =====
-- `insertChar` when the origin is a given node: the new character settles among its kids.
use syncode.Base.{
  ℕ, ◌≡◌, refl, sym, subst, true, false, Option, none, some, List, [], ◌∷◌, ◌++◌, arith, All,
  length, snoc, length-snoc, drop-length, All-append, All-append_left, All-append_right,
}
use syncode.Crdt.Id.{CrdtId, crdt_ids_equal, id_eq, id_eq_iff, id_eq_refl}
use syncode.Crdt.Document.{CrdtChar, origin_pos, pos_lt, next_pos, find_char_index, insert_char}
use syncode.Crdt.Document.Forest.{Forest, nil, node, flatten, place}
use syncode.Crdt.Document.Forest.Present.{
  present, present-append, Distinct, Distinct-append_right, absent_left, All-of_present, find-at,
  find-before, find-after,
}
use syncode.Crdt.Document.Forest.Scan.{settle, insert_at-scan, Skips, Ends, Siblings, settle-place}

-- Every character has its parent's id as origin.
abbrev pub Rooted : Option CrdtId → Forest → Type 0
Rooted p nil = Unit
Rooted p (node d kids rest) = (d.origin_id ≡ p) × Rooted (some d.id) kids × Rooted p rest

-- An origin outside the part that is looked at: before it, or the start of the document.
abbrev pub Outer : Option CrdtId → List CrdtChar → Type 0
Outer none pre = Unit
Outer (some o) pre = present o pre ≡ true

abbrev pub OuterHead : List CrdtChar → List CrdtChar → Type 0
OuterHead pre [] = Unit
OuterHead pre (x ∷ xs) = Outer x.origin_id pre

pub Outer-append :
    (p : Option CrdtId) (pre mid : List CrdtChar) → Outer p pre → Outer p (pre ++ mid)
Outer-append none pre mid h = tt
Outer-append (some o) pre mid h = ground (arith, present-append o pre mid)

pub OuterHead-append :
    (pre mid post : List CrdtChar) → OuterHead pre post → OuterHead (pre ++ mid) post
OuterHead-append pre mid [] h = tt
OuterHead-append pre mid (x ∷ xs) h = Outer-append x.origin_id pre mid h

-- What follows a subtree: its right siblings, then what followed them.
pub OuterHead-rest :
    (p : Option CrdtId) (f : Forest) (pre mid post : List CrdtChar)
    → Rooted p f
    → Outer p pre
    → OuterHead pre post
    → OuterHead (pre ++ mid) (flatten f ++ post)
unfolding flatten
OuterHead-rest p nil pre mid post r o h = OuterHead-append pre mid post h
OuterHead-rest p (node d kids rest) pre mid post r o h =
    Outer-append d.origin_id pre mid (subst (λ q. Outer q pre) (sym r.0) o)

module _ (doc : List CrdtChar) (new : CrdtChar) (o : CrdtId) (op : Option ℕ)
    (origin : new.origin_id ≡ some o) where
  -- The id stands behind the origin.
  abbrev Inner : CrdtId → Type 0
  Inner y = (id_eq y o ≡ false) × (pos_lt (find_char_index y doc) op ≡ false)

  Skips-kids :
      (y : CrdtId) (f : Forest)
      → Inner y
      → Rooted (some y) f
      → All (λ z. Inner z.id) (flatten f)
      → All (Skips doc new op) (flatten f)
  unfolding flatten origin_pos crdt_ids_equal
  Skips-kids y nil i r a = tt
  Skips-kids y (node d kids rest) i r a = (
    rw (r.0, origin) i,
    All-append (Skips doc new op) (flatten kids) (flatten rest)
        (Skips-kids d.id kids a.0 r.1 (All-append_left _ (flatten kids) (flatten rest) a.1))
        (Skips-kids y rest i r.2 (All-append_right _ (flatten kids) (flatten rest) a.1)),
  )

  Siblings-kids :
      (f : Forest) → Rooted (some o) f → All (λ z. Inner z.id) (flatten f) → Siblings doc new op f
  unfolding flatten origin_pos crdt_ids_equal
  Siblings-kids nil r a = tt
  Siblings-kids (node d kids rest) r a = (
    rw (r.0, origin) (id_eq_refl o),
    Skips-kids d.id kids a.0 r.1 (All-append_left _ (flatten kids) (flatten rest) a.1),
    Siblings-kids rest r.2 (All-append_right _ (flatten kids) (flatten rest) a.1),
  )

-- The characters below `d`, in a document where they follow `d`.
Inner-kids :
    (pre xs ys : List CrdtChar) (d new : CrdtChar) (origin : new.origin_id ≡ some d.id)
    → Distinct (pre ++ d ∷ (xs ++ ys))
    → All (λ z. Inner (pre ++ d ∷ (xs ++ ys)) new d.id (some (length pre)) origin z.id) xs
unfolding present
Inner-kids pre xs ys d new origin dist = All-of_present _ xs λ id p.
    let here : present id (d ∷ (xs ++ ys)) ≡ true = ground (arith, present-append id xs ys) in
    (
      ground (
        arith,
        id_eq_iff id d.id,
        present-append id xs ys,
        Distinct-append_right pre (d ∷ (xs ++ ys)) dist,
      ),
      find-after id pre (d ∷ (xs ++ ys)) (absent_left id pre (d ∷ (xs ++ ys)) dist here) here,
    )

-- What stands before a part ends the scan of that part.
Ends-outer :
    (pre rest post : List CrdtChar) (d new : CrdtChar)
    → new.origin_id ≡ some d.id
    → present d.id pre ≡ false
    → OuterHead pre post
    → Ends (pre ++ rest) new (some (length pre)) post
unfolding origin_pos crdt_ids_equal
Ends-outer pre rest [] d new origin a h = tt
Ends-outer pre rest (x ∷ post) d new origin a h = rw origin (head x.origin_id h)
  where
    head :
        (q : Option CrdtId)
        → Outer q pre
        → (crdt_ids_equal q (some d.id) ≡ false)
          × (pos_lt (origin_pos q (pre ++ rest)) (some (length pre)) ≡ true)
    head none k = (refl, refl)
    head (some y) k = (ground (arith, id_eq_iff y d.id), find-before y pre rest k)

-- The insertion behind the first `length pre` characters.
pub insert_char-settle :
    (pre rest : List CrdtChar) (new : CrdtChar) (op : Option ℕ)
    → origin_pos new.origin_id (pre ++ rest) ≡ op
    → next_pos op ≡ length pre
    → insert_char new (pre ++ rest) ≡ pre ++ settle (pre ++ rest) new op rest
unfolding insert_char
insert_char-settle pre rest new op e n =
    rw (e, n, drop-length pre rest) (insert_at-scan (pre ++ rest) new op pre rest)

-- The origin is `d`: the new character settles among its kids.
pub insert_char-at :
    (pre post : List CrdtChar) (d new : CrdtChar) (kids : Forest)
    → new.origin_id ≡ some d.id
    → Distinct (pre ++ d ∷ (flatten kids ++ post))
    → Rooted (some d.id) kids
    → OuterHead pre post
    → insert_char new (pre ++ d ∷ (flatten kids ++ post))
      ≡ pre ++ d ∷ (flatten (place new kids) ++ post)
unfolding origin_pos present
insert_char-at pre post d new kids origin dist r h =
    let below = flatten kids ++ post in
    let absent : present d.id pre ≡ false =
      absent_left d.id pre (d ∷ below) dist (ground (arith, id_eq_refl d.id)) in
    let found : origin_pos new.origin_id ((pre ++ d ∷ []) ++ below) ≡ some (length pre) =
      rw (origin, snoc pre below d) (find-at d.id pre d below absent refl) in
    let settled =
      settle-place (pre ++ d ∷ below) new (some (length pre)) kids post
        (Siblings-kids (pre ++ d ∷ below) new d.id (some (length pre)) origin kids r
          (Inner-kids pre (flatten kids) post d new origin dist))
        (Ends-outer pre (d ∷ below) post d new origin absent h) in
    cc (
      snoc pre below d,
      snoc pre (flatten (place new kids) ++ post) d,
      insert_char-settle (pre ++ d ∷ []) below new (some (length pre)) found
          (sym (length-snoc pre d)),
      settled,
    )
