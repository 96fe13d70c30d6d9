-- ===== src/Crdt/Document/Forest/Present.antt =====
-- Where an id stands in the list of characters: presence, distinct ids, and order of positions.
use syncode.Base.{
  ℕ, zero, suc, ◌≡◌, refl, Bool, true, false, ◌||◌, some, List, [], ◌∷◌, ◌++◌, arith, length,
  insert_at, All,
}
use syncode.Crdt.Id.{CrdtId, id_eq, id_eq_iff, id_eq_refl}
use syncode.Crdt.Document.{CrdtChar, find_char_index, has_char, pos_lt}

-- `has_char` as a recursion of its own.
unfoldable pub present : CrdtId → List CrdtChar → Bool
present id [] = false
present id (c ∷ cs) = id_eq c.id id || present id cs

pub has_char-present : (id : CrdtId) (cs : List CrdtChar) → has_char id cs ≡ present id cs
unfolding has_char find_char_index present
has_char-present id [] = refl
has_char-present id (c ∷ cs) = ground (arith, has_char-present id cs)

pub present-append :
    (id : CrdtId) (xs ys : List CrdtChar) → present id (xs ++ ys) ≡ (present id xs || present id ys)
unfolding present
present-append id [] ys = refl
present-append id (x ∷ xs) ys = ground (arith, present-append id xs ys)

pub present-insert_at :
    (id : CrdtId) (i : ℕ) (c : CrdtChar) (xs : List CrdtChar)
    → present id (insert_at i c xs) ≡ (id_eq c.id id || present id xs)
unfolding present
present-insert_at id zero c xs = refl
present-insert_at id (suc i) c [] = refl
present-insert_at id (suc i) c (x ∷ xs) = ground (arith, present-insert_at id i c xs)

-- No two characters share an id.
abbrev pub Distinct : List CrdtChar → Type 0
Distinct [] = Unit
Distinct (c ∷ cs) = (present c.id cs ≡ false) × Distinct cs

pub insert_at-Distinct :
    (i : ℕ) (c : CrdtChar) (xs : List CrdtChar)
    → present c.id xs ≡ false
    → Distinct xs
    → Distinct (insert_at i c xs)
unfolding present
insert_at-Distinct zero c xs h d = (h, d)
insert_at-Distinct (suc i) c [] h d = (h, tt)
insert_at-Distinct (suc i) c (x ∷ xs) h d = (
  ground (arith, present-insert_at x.id i c xs, id_eq_iff c.id x.id, id_eq_iff x.id c.id),
  insert_at-Distinct i c xs (ground arith) d.1,
)

pub Distinct-append_left : (xs ys : List CrdtChar) → Distinct (xs ++ ys) → Distinct xs
Distinct-append_left [] ys d = tt
Distinct-append_left (x ∷ xs) ys d =
    (ground (arith, present-append x.id xs ys), Distinct-append_left xs ys d.1)

pub Distinct-append_right : (xs ys : List CrdtChar) → Distinct (xs ++ ys) → Distinct ys
Distinct-append_right [] ys d = d
Distinct-append_right (x ∷ xs) ys d = Distinct-append_right xs ys d.1

-- Of two parts of a document without repetition, an id stands in one at most.
pub absent_left :
    (id : CrdtId) (xs ys : List CrdtChar)
    → Distinct (xs ++ ys)
    → present id ys ≡ true
    → present id xs ≡ false
unfolding present
absent_left id [] ys d h = refl
absent_left id (x ∷ xs) ys d h =
    ground (arith, id_eq_iff x.id id, present-append x.id xs ys, absent_left id xs ys d.1 h)

-- The index of an id.
pub find-at :
    (id : CrdtId) (pre : List CrdtChar) (d : CrdtChar) (rest : List CrdtChar)
    → present id pre ≡ false
    → d.id ≡ id
    → find_char_index id (pre ++ d ∷ rest) ≡ some (length pre)
unfolding find_char_index present
find-at id [] d rest h e = ground (arith, id_eq_iff d.id id)
find-at id (x ∷ pre) d rest h e = ground (arith, find-at id pre d rest)

pub find-before :
    (id : CrdtId) (pre rest : List CrdtChar)
    → present id pre ≡ true
    → pos_lt (find_char_index id (pre ++ rest)) (some (length pre)) ≡ true
unfolding find_char_index present
find-before id [] rest h = cc
find-before id (x ∷ pre) rest h = ground (arith, find-before id pre rest)

pub find-after :
    (id : CrdtId) (pre rest : List CrdtChar)
    → present id pre ≡ false
    → present id rest ≡ true
    → pos_lt (find_char_index id (pre ++ rest)) (some (length pre)) ≡ false
unfolding find_char_index present
find-after id [] [] h k = cc
find-after id [] (y ∷ rest) h k = ground (arith, find-after id [] rest refl)
find-after id (x ∷ pre) rest h k = ground (arith, find-after id pre rest)

-- A predicate of every id that is present.
pub All-of_present :
    (P : CrdtId → Type 0) (xs : List CrdtChar)
    → ((id : CrdtId) → present id xs ≡ true → P id)
    → All (λ z. P z.id) xs
unfolding present
All-of_present P [] h = tt
All-of_present P (x ∷ xs) h =
    (h x.id (ground (arith, id_eq_refl x.id)), All-of_present P xs (λ id p. h id (ground arith)))
