-- ===== src/Crdt/Document/Forest/Plant.antt =====
-- Well-formed documents: those that read a forest in preorder. Insertion and deletion keep them.
use syncode.Base.{
  ℕ, ◌≡◌, refl, sym, ap, subst, ◌∙◌, ◌≢◌, false, ◌||◌, Option, none, some, List, [], arith, All,
  All-append,
}
use mathlib.Core.List.{append-nil}
use syncode.Crdt.Id.{CrdtId, id_eq, id_eq_iff, crdt_ids_equal}
use syncode.Crdt.Document.{CrdtChar, insert_char, origin_pos, pos_lt}
use syncode.Crdt.Document.Forest.{Forest, nil, node, flatten, place, graft, plant, plant_comm}
use syncode.Crdt.Document.Forest.Present.{present, Distinct, insert_at-Distinct, present-insert_at}
use syncode.Crdt.Document.Forest.Scan.{Skips, Siblings, settle-place}
use syncode.Crdt.Document.Forest.Refine.{Rooted, Outer, insert_char-settle}
use syncode.Crdt.Document.Forest.Within.{insert_char-within}

pub insert_char-Distinct :
    (c : CrdtChar) (cs : List CrdtChar)
    → present c.id cs ≡ false
    → Distinct cs
    → Distinct (insert_char c cs)
unfolding insert_char
insert_char-Distinct c cs = insert_at-Distinct _ c cs

pub present-insert_char :
    (id : CrdtId) (c : CrdtChar) (cs : List CrdtChar)
    → present id (insert_char c cs) ≡ (id_eq c.id id || present id cs)
unfolding insert_char
present-insert_char id c cs = present-insert_at id _ c cs

-- A scan for the start of the document compares the roots only.
module _ (doc : List CrdtChar) (new : CrdtChar) (origin : new.origin_id ≡ none) where
  Skips-below : (y : CrdtId) (f : Forest) → Rooted (some y) f → All (Skips doc new none) (flatten f)
  unfolding flatten crdt_ids_equal
  Skips-below y nil r = tt
  Skips-below y (node d kids rest) r = (
    rw (r.0, origin) (refl, not_before (origin_pos (some y) doc)),
    All-append (Skips doc new none) (flatten kids) (flatten rest) (Skips-below d.id kids r.1)
        (Skips-below y rest r.2),
  )
    where
      not_before : (q : Option ℕ) → pos_lt q none ≡ false
      not_before none = refl
      not_before (some i) = refl

  Siblings-roots : (f : Forest) → Rooted none f → Siblings doc new none f
  unfolding flatten crdt_ids_equal
  Siblings-roots nil r = tt
  Siblings-roots (node d kids rest) r =
      (rw (r.0, origin), Skips-below d.id kids r.1, Siblings-roots rest r.2)

insert_char-roots :
    (new : CrdtChar) (f : Forest)
    → new.origin_id ≡ none
    → Rooted none f
    → insert_char new (flatten f) ≡ flatten (place new f)
unfolding origin_pos
insert_char-roots new f origin r =
    insert_char-settle [] (flatten f) new none (rw origin) refl
    ∙ simp append-nil at
        (settle-place (flatten f) new none f [] (Siblings-roots (flatten f) new origin f r) tt)

-- On the preorder of a forest with distinct ids, where each character stands below its origin, the
-- insertion of a character whose origin is there plants it in the forest, in front of the first
-- sibling that is older.
pub insert_char-plant :
    (new : CrdtChar) (f : Forest)
    → Distinct (flatten f)
    → Rooted none f
    → Outer new.origin_id (flatten f)
    → insert_char new (flatten f) ≡ flatten (plant new.origin_id new f)
unfolding plant
insert_char-plant new f dist r out = go new.origin_id refl out
  where
    go :
        (q : Option CrdtId)
        → new.origin_id ≡ q
        → Outer q (flatten f)
        → insert_char new (flatten f) ≡ flatten (plant q new f)
    go none e h = insert_char-roots new f e r
    go (some o) e h =
        simp append-nil at (insert_char-within o new none f [] [] e h (rw append-nil dist) r tt tt)

place-Rooted :
    (p : Option CrdtId) (c : CrdtChar) (f : Forest)
    → c.origin_id ≡ p
    → Rooted p f
    → Rooted p (place c f)
unfolding place
place-Rooted p c nil e r = (e, tt, tt)
place-Rooted p c (node d kids rest) e r = ground (arith, place-Rooted p c rest e r.2)

graft-Rooted :
    (p : Option CrdtId) (o : CrdtId) (c : CrdtChar) (f : Forest)
    → c.origin_id ≡ some o
    → Rooted p f
    → Rooted p (graft o c f)
unfolding graft
graft-Rooted p o c nil e r = tt
graft-Rooted p o c (node d kids rest) e r = ground (
  arith,
  id_eq_iff d.id o,
  place-Rooted (some d.id) c kids,
  graft-Rooted (some d.id) o c kids e r.1,
  graft-Rooted p o c rest e r.2,
)

pub plant-Rooted : (c : CrdtChar) (f : Forest) → Rooted none f → Rooted none (plant c.origin_id c f)
unfolding plant
plant-Rooted c f r = go c.origin_id refl
  where
    go : (q : Option CrdtId) → c.origin_id ≡ q → Rooted none (plant q c f)
    go none e = place-Rooted none c f e r
    go (some o) e = graft-Rooted none o c f e r

-- The invariant of `chars`.
pub record IsWellFormed (cs : List CrdtChar) : Type 0 where
  pub forest : Forest
  pub reads : cs ≡ flatten forest
  pub rooted : Rooted none forest
  pub distinct : Distinct cs

pub insert_char-reads :
    (c : CrdtChar) (cs : List CrdtChar) (w : IsWellFormed cs)
    → Outer c.origin_id cs
    → insert_char c cs ≡ flatten (plant c.origin_id c w.forest)
insert_char-reads c cs w out =
    ap (insert_char c) w.reads
    ∙ insert_char-plant c w.forest (subst Distinct w.reads w.distinct) w.rooted
        (subst (Outer c.origin_id) w.reads out)

unfoldable pub insert_char-IsWellFormed :
    (c : CrdtChar) (cs : List CrdtChar)
    → IsWellFormed cs
    → present c.id cs ≡ false
    → Outer c.origin_id cs
    → IsWellFormed (insert_char c cs)
insert_char-IsWellFormed c cs w fresh out = record {
  forest = plant c.origin_id c w.forest;
  reads = insert_char-reads c cs w out;
  rooted = plant-Rooted c w.forest w.rooted;
  distinct = insert_char-Distinct c cs fresh w.distinct;
}

pub Outer-insert_char :
    (c : CrdtChar) (o : Option CrdtId) (cs : List CrdtChar)
    → Outer o cs
    → Outer o (insert_char c cs)
Outer-insert_char c none cs h = tt
Outer-insert_char c (some o) cs h = ground (arith, present-insert_char o c cs)

Outer-ne :
    (id : CrdtId) (o : Option CrdtId) (cs : List CrdtChar)
    → present id cs ≡ false
    → Outer o cs
    → o ≢ some id
Outer-ne id none cs f h e = cc
Outer-ne id (some o) cs f h e = ground arith

-- Two insertions that are both ready commute.
pub insert_char_comm :
    (a b : CrdtChar) (cs : List CrdtChar)
    → IsWellFormed cs
    → present a.id cs ≡ false
    → present b.id cs ≡ false
    → a.id ≢ b.id
    → Outer a.origin_id cs
    → Outer b.origin_id cs
    → insert_char a (insert_char b cs) ≡ insert_char b (insert_char a cs)
unfolding insert_char-IsWellFormed
insert_char_comm a b cs w fa fb ne oa ob =
    insert_char-reads a (insert_char b cs) (insert_char-IsWellFormed b cs w fb ob)
      (Outer-insert_char b a.origin_id cs oa)
    ∙ ap flatten (
        plant_comm a.origin_id b.origin_id a b w.forest ne (Outer-ne a.id b.origin_id cs fa ob)
          (Outer-ne b.id a.origin_id cs fb oa))
    ∙ sym (
        insert_char-reads b (insert_char a cs) (insert_char-IsWellFormed a cs w fa oa)
          (Outer-insert_char a b.origin_id cs ob))
