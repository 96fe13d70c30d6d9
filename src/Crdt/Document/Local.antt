-- ===== src/Crdt/Document/Local.antt =====
-- What the user's own edits do to the text, and what their operations do elsewhere.
use mathlib.Core.List.{append_assoc, append-nil}
use syncode.Base.{
  ℕ, ◌≤◌, ◌<◌, ◌≡◌, refl, sym, ap, subst, ◌∙◌, ◌⊎◌, inl, inr, true, false, Option, none, some, List,
  [], ◌∷◌, ◌++◌, arith, All, All-append_right, JsString, length, snoc, length-snoc, Bool-cases,
}
use syncode.Crdt.Id.{CrdtId, id_eq_iff, id_eq_refl, newer, crdt_ids_equal}
use syncode.Crdt.Document.{
  CrdtChar, CrdtDocument, insert_char, local_insert, create_char, next_id, origin_pos, pos_lt,
}
use syncode.Crdt.Document.Forest.{Forest, nil, node, flatten}
use syncode.Crdt.Document.Forest.Present.{
  present, present-append, Distinct, absent_left, find-at, find-before,
}
use syncode.Crdt.Document.Forest.Scan.{settle}
use syncode.Crdt.Document.Forest.Refine.{Rooted, Outer, Outer-append, insert_char-settle}
use syncode.Crdt.Document.Forest.Plant.{IsWellFormed}

-- Every origin stands before its character.
abbrev pub Ordered : List CrdtChar → List CrdtChar → Type 0
Ordered pre [] = Unit
Ordered pre (x ∷ xs) = Outer x.origin_id pre × Ordered (pre ++ x ∷ []) xs

flatten-Ordered :
    (p : Option CrdtId) (f : Forest) (pre post : List CrdtChar)
    → Rooted p f
    → Outer p pre
    → Ordered (pre ++ flatten f) post
    → Ordered pre (flatten f ++ post)
unfolding flatten present
flatten-Ordered p nil pre post r o h = subst (λ x. Ordered x post) (append-nil pre) h
flatten-Ordered p (node d kids rest) pre post r o h =
    let fk = flatten kids in
    let fr = flatten rest in
    let here : present d.id (pre ++ d ∷ []) ≡ true =
      ground (arith, present-append d.id pre (d ∷ []), id_eq_refl d.id) in
    (
      subst (λ q. Outer q pre) (sym r.0) o,
      rw (append_assoc fk fr post) (
          flatten-Ordered (some d.id) kids (pre ++ d ∷ []) (fr ++ post) r.1 here (
            flatten-Ordered p rest ((pre ++ d ∷ []) ++ fk) post r.2
              (Outer-append p (pre ++ d ∷ []) fk (Outer-append p pre (d ∷ []) o))
              (subst (λ x. Ordered x post)
                (sym (append_assoc (pre ++ d ∷ []) fk fr ∙ snoc pre (fk ++ fr) d)) h))),
    )

Ordered-append : (pre xs ys : List CrdtChar) → Ordered pre (xs ++ ys) → Ordered (pre ++ xs) ys
Ordered-append pre [] ys h = subst (λ x. Ordered x ys) (sym (append-nil pre)) h
Ordered-append pre (x ∷ xs) ys h =
    subst (λ z. Ordered z ys) (snoc pre xs x) (Ordered-append (pre ++ x ∷ []) xs ys h.1)

-- The clock has seen every counter.
abbrev pub ClockBounds : ℕ → List CrdtChar → Type 0
ClockBounds k cs = All (λ c. c.id.counter ≤ k) cs

pub ClockBounds-absent :
    (k : ℕ) (id : CrdtId) (cs : List CrdtChar)
    → ClockBounds k cs
    → k < id.counter
    → present id cs ≡ false
unfolding present
ClockBounds-absent k id [] h lt = refl
ClockBounds-absent k id (c ∷ cs) h lt =
    ground (arith, id_eq_iff c.id id, ClockBounds-absent k id cs)

newer_of_counter : (a b : CrdtId) → b.counter < a.counter → newer a b ≡ true
unfolding newer
newer_of_counter a b h = ground arith

-- Nothing is passed over by a character that is newer than all that are there.
settle_first :
    (doc rest : List CrdtChar) (new : CrdtChar) (op : Option ℕ) (k : ℕ)
    → k < new.id.counter
    → ClockBounds k rest
    → ((x : CrdtChar) (xs : List CrdtChar)
        → rest ≡ x ∷ xs
        → (crdt_ids_equal x.origin_id new.origin_id ≡ true)
          ⊎ (pos_lt (origin_pos x.origin_id doc) op ≡ true))
    → settle doc new op rest ≡ new ∷ rest
unfolding settle
settle_first doc [] new op k lt b h = refl
settle_first doc (x ∷ xs) new op k lt b h =
    ground (arith, h x xs refl, newer_of_counter new.id x.id)

module _ {cs : List CrdtChar} (w : IsWellFormed cs) where
  pub IsWellFormed-Ordered : Ordered [] cs
  IsWellFormed-Ordered =
      subst (Ordered []) (append-nil _ ∙ sym w.reads)
        (flatten-Ordered none w.forest [] [] w.rooted tt tt)

  -- The character after an origin is its child, or has an origin further left.
  next_origin :
      (pre xs : List CrdtChar) (o x : CrdtChar)
      → cs ≡ pre ++ o ∷ x ∷ xs
      → (x.origin_id ≡ some o.id) ⊎ (pos_lt (origin_pos x.origin_id cs) (some (length pre)) ≡ true)
  unfolding origin_pos present
  next_origin pre xs o x e = go x.origin_id before
    where
      before : Outer x.origin_id (pre ++ o ∷ [])
      before =
          (Ordered-append [] (pre ++ o ∷ []) (x ∷ xs)
            (subst (Ordered []) (e ∙ sym (snoc pre (x ∷ xs) o)) IsWellFormed-Ordered)).0

      go :
          (q : Option CrdtId)
          → Outer q (pre ++ o ∷ [])
          → (q ≡ some o.id) ⊎ (pos_lt (origin_pos q cs) (some (length pre)) ≡ true)
      go none h = inr refl
      go (some y) h = elim (Bool-cases (present y pre)) [
        | inl left ↦ inr (rw e (find-before y pre (o ∷ x ∷ xs) left))
        | inr other ↦
            inl
              (ap some (sym ((id_eq_iff o.id y).0 (ground (arith, present-append y pre (o ∷ []))))))
      ]

-- In a well-formed document whose clock has seen every counter, a local insertion puts its text
-- directly behind the character that it names.
pub local_insert-after :
    (d : CrdtDocument) (pre rest : List CrdtChar) (o : CrdtChar) (v : JsString)
    → IsWellFormed d.chars
    → ClockBounds d.clock d.chars
    → d.chars ≡ pre ++ o ∷ rest
    → let new = create_char (next_id d.site_id d.clock) v (some o.id) in
      (local_insert (some o.id) v d).0.chars ≡ pre ++ o ∷ new ∷ rest
unfolding local_insert present origin_pos crdt_ids_equal
local_insert-after d pre rest o v w b e =
    let new = create_char (next_id d.site_id d.clock) v (some o.id) in
    let whole : d.chars ≡ (pre ++ o ∷ []) ++ rest = e ∙ sym (snoc pre rest o) in
    let absent : present o.id pre ≡ false =
      absent_left o.id pre (o ∷ rest) (subst Distinct e w.distinct)
        (ground (arith, id_eq_refl o.id)) in
    let newest : ClockBounds d.clock rest =
      (All-append_right _ pre (o ∷ rest) (subst (ClockBounds d.clock) e b)).1 in
    let settled =
      settle_first ((pre ++ o ∷ []) ++ rest) rest new (some (length pre)) d.clock (omega arith)
        newest
        λ x xs q. elim (next_origin w pre xs o x (e ∙ ap (λ z. pre ++ o ∷ z) q)) [
          | inl child ↦ inl (rw child (id_eq_refl o.id))
          | inr left ↦
              inr (
                subst (λ z. pos_lt (origin_pos x.origin_id z) (some (length pre)) ≡ true) whole
                  left)
        ] in
    ap (insert_char new) whole
    ∙ insert_char-settle (pre ++ o ∷ []) rest new (some (length pre))
        (rw (snoc pre rest o) (find-at o.id pre o rest absent refl)) (sym (length-snoc pre o))
    ∙ ap (◌++◌ (pre ++ o ∷ [])) settled
    ∙ snoc pre (new ∷ rest) o

equal_none : (q : Option CrdtId) → Outer q [] → crdt_ids_equal q none ≡ true
unfolding crdt_ids_equal present
equal_none none h = refl
equal_none (some y) h = h

-- At the start of the document it goes in front of everything.
pub local_insert-start :
    (d : CrdtDocument) (v : JsString)
    → IsWellFormed d.chars
    → ClockBounds d.clock d.chars
    → let new = create_char (next_id d.site_id d.clock) v none in
      (local_insert none v d).0.chars ≡ new ∷ d.chars
unfolding local_insert origin_pos crdt_ids_equal
local_insert-start d v w b =
    let new = create_char (next_id d.site_id d.clock) v none in
    insert_char-settle [] d.chars new none refl refl
    ∙ settle_first d.chars d.chars new none d.clock (omega arith) b
        (λ x xs q. inl (equal_none x.origin_id (subst (Ordered []) q (IsWellFormed-Ordered w)).0))
