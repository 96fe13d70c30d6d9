-- ===== src/Crdt/Document/Deletion.antt =====
-- `isDeleted = true` at an id: on a list without repetition a map, so it commutes with insertion.
use mathlib.Core.List.{map-append}
use syncode.Base.{
  ◌≡◌, refl, sym, ap, ◌∙◌, true, false, ◌||◌, Option, none, some, List, [], ◌∷◌, map, arith,
}
use syncode.Crdt.Id.{CrdtId, id_eq, id_eq_iff}
use syncode.Crdt.Document.{CrdtChar, insert_char, mark_deleted, mark_at, find_char_index}
use syncode.Crdt.Document.Forest.{Forest, nil, node, flatten, place, graft, plant}
use syncode.Crdt.Document.Forest.Present.{present, Distinct}
use syncode.Crdt.Document.Forest.Refine.{Rooted, Outer}
use syncode.Crdt.Document.Forest.Plant.{IsWellFormed, insert_char-reads, insert_char-IsWellFormed}

abbrev pub tick : CrdtId → CrdtChar → CrdtChar
tick id c = record c { is_deleted = c.is_deleted || id_eq c.id id }

tick_hit :
    (id : CrdtId) (c : CrdtChar) → id_eq c.id id ≡ true → record c { is_deleted = true } ≡ tick id c
tick_hit id c h = ground arith

tick_miss : (id : CrdtId) (c : CrdtChar) → id_eq c.id id ≡ false → c ≡ tick id c
tick_miss id c h = ground arith

map-tick_absent : (id : CrdtId) (cs : List CrdtChar) → present id cs ≡ false → map (tick id) cs ≡ cs
unfolding present
map-tick_absent id [] h = refl
map-tick_absent id (c ∷ cs) h = ground (arith, tick_miss id c, map-tick_absent id cs)

mark_deleted-cons :
    (id : CrdtId) (c : CrdtChar) (cs : List CrdtChar)
    → id_eq c.id id ≡ false
    → mark_deleted id (c ∷ cs) ≡ c ∷ mark_deleted id cs
unfolding mark_deleted find_char_index mark_at
mark_deleted-cons id c cs h = ground arith

pub mark_deleted-map :
    (id : CrdtId) (cs : List CrdtChar) → Distinct cs → mark_deleted id cs ≡ map (tick id) cs
unfolding mark_deleted find_char_index mark_at
mark_deleted-map id [] d = refl
mark_deleted-map id (c ∷ cs) d = ground (
  arith,
  id_eq_iff c.id id,
  tick_hit id c,
  tick_miss id c,
  map-tick_absent id cs,
  mark_deleted-cons id c cs,
  mark_deleted-map id cs d.1,
)

mark_forest : CrdtId → Forest → Forest
mark_forest id nil = nil
mark_forest id (node d kids rest) = node (tick id d) (mark_forest id kids) (mark_forest id rest)

flatten-mark_forest :
    (id : CrdtId) (f : Forest) → flatten (mark_forest id f) ≡ map (tick id) (flatten f)
unfolding flatten mark_forest
flatten-mark_forest id nil = refl
flatten-mark_forest id (node d kids rest) = ap (◌∷◌ (tick id d)) (
    cc (
      flatten-mark_forest id kids,
      flatten-mark_forest id rest,
      map-append (tick id) (flatten kids) (flatten rest),
    ))

mark_forest-Rooted :
    (id : CrdtId) (p : Option CrdtId) (f : Forest) → Rooted p f → Rooted p (mark_forest id f)
unfolding mark_forest
mark_forest-Rooted id p nil r = tt
mark_forest-Rooted id p (node d kids rest) r =
    (r.0, mark_forest-Rooted id (some d.id) kids r.1, mark_forest-Rooted id p rest r.2)

mark_forest-place :
    (id : CrdtId) (c : CrdtChar) (f : Forest)
    → id_eq c.id id ≡ false
    → mark_forest id (place c f) ≡ place c (mark_forest id f)
unfolding mark_forest place
mark_forest-place id c nil h = ground (arith, tick_miss id c)
mark_forest-place id c (node d kids rest) h =
    ground (arith, tick_miss id c, mark_forest-place id c rest h)

mark_forest-graft :
    (id o : CrdtId) (c : CrdtChar) (f : Forest)
    → id_eq c.id id ≡ false
    → mark_forest id (graft o c f) ≡ graft o c (mark_forest id f)
unfolding mark_forest graft
mark_forest-graft id o c nil h = refl
mark_forest-graft id o c (node d kids rest) h = ground (
  arith,
  mark_forest-place id c kids h,
  mark_forest-graft id o c kids h,
  mark_forest-graft id o c rest h,
)

mark_forest-plant :
    (id : CrdtId) (o : Option CrdtId) (c : CrdtChar) (f : Forest)
    → id_eq c.id id ≡ false
    → mark_forest id (plant o c f) ≡ plant o c (mark_forest id f)
unfolding plant
mark_forest-plant id none c f h = mark_forest-place id c f h
mark_forest-plant id (some o) c f h = mark_forest-graft id o c f h

present-map-tick :
    (j id : CrdtId) (cs : List CrdtChar) → present j (map (tick id) cs) ≡ present j cs
unfolding present
present-map-tick j id [] = refl
present-map-tick j id (c ∷ cs) = ap (◌||◌ (id_eq c.id j)) (present-map-tick j id cs)

map-tick-Distinct : (id : CrdtId) (cs : List CrdtChar) → Distinct cs → Distinct (map (tick id) cs)
map-tick-Distinct id [] d = tt
map-tick-Distinct id (c ∷ cs) d = (present-map-tick c.id id cs ∙ d.0, map-tick-Distinct id cs d.1)

module _ (id : CrdtId) (cs : List CrdtChar) (w : IsWellFormed cs) where
  pub present-mark_deleted : (j : CrdtId) → present j (mark_deleted id cs) ≡ present j cs
  present-mark_deleted j = rw (mark_deleted-map id cs w.distinct) (present-map-tick j id cs)

  mark_deleted-reads : mark_deleted id cs ≡ flatten (mark_forest id w.forest)
  mark_deleted-reads =
      mark_deleted-map id cs w.distinct
      ∙ ap (map (tick id)) w.reads
      ∙ sym (flatten-mark_forest id w.forest)

  pub mark_deleted-IsWellFormed : IsWellFormed (mark_deleted id cs)
  mark_deleted-IsWellFormed = record {
    forest = mark_forest id w.forest;
    reads = mark_deleted-reads;
    rooted = mark_forest-Rooted id none w.forest w.rooted;
    distinct = rw (mark_deleted-map id cs w.distinct) (map-tick-Distinct id cs w.distinct);
  }

  pub mark_deleted-Outer : (o : Option CrdtId) → Outer o cs → Outer o (mark_deleted id cs)
  mark_deleted-Outer none h = tt
  mark_deleted-Outer (some o) h = present-mark_deleted o ∙ h

-- A deletion and the insertion of another character.
pub mark_deleted-insert_char :
    (id : CrdtId) (c : CrdtChar) (cs : List CrdtChar)
    → IsWellFormed cs
    → present c.id cs ≡ false
    → Outer c.origin_id cs
    → id_eq c.id id ≡ false
    → mark_deleted id (insert_char c cs) ≡ insert_char c (mark_deleted id cs)
unfolding insert_char-IsWellFormed mark_deleted-IsWellFormed
mark_deleted-insert_char id c cs w fresh out ne =
    mark_deleted-reads id (insert_char c cs) (insert_char-IsWellFormed c cs w fresh out)
    ∙ ap flatten (mark_forest-plant id c.origin_id c w.forest ne)
    ∙ sym (
        insert_char-reads c (mark_deleted id cs) (mark_deleted-IsWellFormed id cs w)
          (mark_deleted-Outer id cs w c.origin_id out))

map-tick_comm :
    (i j : CrdtId) (cs : List CrdtChar)
    → map (tick i) (map (tick j) cs) ≡ map (tick j) (map (tick i) cs)
map-tick_comm i j [] = refl
map-tick_comm i j (c ∷ cs) = ground (arith, map-tick_comm i j cs)

pub mark_deleted_comm :
    (i j : CrdtId) (cs : List CrdtChar)
    → IsWellFormed cs
    → mark_deleted i (mark_deleted j cs) ≡ mark_deleted j (mark_deleted i cs)
mark_deleted_comm i j cs w =
    mark_deleted-map i _ (mark_deleted-IsWellFormed j cs w).distinct
    ∙ ap (map (tick i)) (mark_deleted-map j cs w.distinct)
    ∙ map-tick_comm i j cs
    ∙ ap (map (tick j)) (sym (mark_deleted-map i cs w.distinct))
    ∙ sym (mark_deleted-map j _ (mark_deleted-IsWellFormed i cs w).distinct)
