-- ===== src/Crdt/Document/Forest/Scan.antt =====
-- The loop of `insertChar`: what it does on a subtree that follows the origin.
use mathlib.Core.List.{append_assoc}
use syncode.Base.{
  ℕ, ◌≡◌, refl, true, false, Option, List, [], ◌∷◌, ◌++◌, arith, if◌then◌else◌, All, length,
  length-snoc, snoc, insert_at, insert_at-append,
}
use syncode.Crdt.Id.{newer, crdt_ids_equal}
use syncode.Crdt.Document.{CrdtChar, scan, origin_pos, pos_lt}
use syncode.Crdt.Document.Forest.{Forest, nil, node, flatten, place}

module _ (doc : List CrdtChar) (new : CrdtChar) (op : Option ℕ) where
  -- The new character among those from the start of the scan on.
  unfoldable pub settle : List CrdtChar → List CrdtChar
  settle [] = new ∷ []
  settle (next ∷ rest) =
      let further = next ∷ settle rest in
      if crdt_ids_equal next.origin_id new.origin_id
      then if newer new.id next.id then new ∷ next ∷ rest else further
      else if pos_lt (origin_pos next.origin_id doc) op
      then new ∷ next ∷ rest
      else further

  -- The splice at the position that the loop finds.
  pub insert_at-scan :
      (pre xs : List CrdtChar)
      → insert_at (scan doc new op xs (length pre)) new (pre ++ xs) ≡ pre ++ settle xs
  unfolding scan settle
  insert_at-scan pre [] = insert_at-append pre [] new
  insert_at-scan pre (x ∷ xs) = ground (
    arith,
    length-snoc pre x,
    snoc pre xs x,
    snoc pre (settle xs) x,
    insert_at-scan (pre ++ x ∷ []) xs,
    insert_at-append pre (x ∷ xs) new,
  )

  -- What the loop passes over without a comparison of ids.
  abbrev pub Skips : CrdtChar → Type 0
  Skips x =
      (crdt_ids_equal x.origin_id new.origin_id ≡ false)
      × (pos_lt (origin_pos x.origin_id doc) op ≡ false)

  -- What ends the loop.
  abbrev pub Ends : List CrdtChar → Type 0
  Ends [] = Unit
  Ends (x ∷ xs) =
      (crdt_ids_equal x.origin_id new.origin_id ≡ false)
      × (pos_lt (origin_pos x.origin_id doc) op ≡ true)

  -- The roots are siblings of the new character, and all below them is passed over.
  abbrev pub Siblings : Forest → Type 0
  Siblings nil = Unit
  Siblings (node d kids rest) =
      (crdt_ids_equal d.origin_id new.origin_id ≡ true) × All Skips (flatten kids) × Siblings rest

  settle-skip : (xs ys : List CrdtChar) → All Skips xs → settle (xs ++ ys) ≡ xs ++ settle ys
  unfolding settle
  settle-skip [] ys h = refl
  settle-skip (x ∷ xs) ys h = ground (arith, settle-skip xs ys h.1)

  pub settle-place :
      (f : Forest) (post : List CrdtChar)
      → Siblings f
      → Ends post
      → settle (flatten f ++ post) ≡ flatten (place new f) ++ post
  unfolding settle place flatten
  settle-place nil [] s e = refl
  settle-place nil (x ∷ xs) s e = ground arith
  settle-place (node d kids rest) post s e = ground (
    arith,
    append_assoc (flatten kids) (flatten rest) post,
    append_assoc (flatten kids) (flatten (place new rest)) post,
    settle-skip (flatten kids) (flatten rest ++ post) s.1,
    settle-place rest post s.2 e,
  )
