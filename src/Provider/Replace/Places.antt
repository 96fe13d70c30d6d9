-- ===== src/Provider/Replace/Places.antt =====
-- About the visible characters at a position of a document, and a mark or an insertion there.
use mathlib.Core.List.{head-eq_of_cons-eq, tail-eq_of_cons-eq}
use syncode.Base.{
  ◌≡◌, refl, sym, ap, subst, ◌∙◌, inl, inr, true, false, Bool-cases, List, [], ◌∷◌, ◌++◌, arith,
  length,
}
use syncode.Crdt.Id.{id_eq_refl}
use syncode.Crdt.Document.{CrdtChar, visible_chars, has_char, mark_deleted, mark_at}
use syncode.Crdt.Document.Forest.Present.{
  Distinct, present, present-append, has_char-present, absent_left, find-at,
}

pub visible_chars-append :
    (xs ys : List CrdtChar) → visible_chars (xs ++ ys) ≡ visible_chars xs ++ visible_chars ys
unfolding visible_chars
visible_chars-append [] ys = refl
visible_chars-append (c ∷ xs) ys = ground (arith, visible_chars-append xs ys)

pub visible_chars-cons :
    (c : CrdtChar) (cs : List CrdtChar)
    → c.is_deleted ≡ false
    → visible_chars (c ∷ cs) ≡ c ∷ visible_chars cs
unfolding visible_chars
visible_chars-cons c cs h = ground arith

visible_chars-skip :
    (c : CrdtChar) (cs : List CrdtChar)
    → c.is_deleted ≡ true
    → visible_chars (c ∷ cs) ≡ visible_chars cs
unfolding visible_chars
visible_chars-skip c cs h = ground arith

nil_visible : visible_chars [] ≡ []
unfolding visible_chars
nil_visible = refl

-- Where a visible character stands among all characters.
pub record Place (cs before after : List CrdtChar) (m : CrdtChar) : Type 0 where
  pub pre : List CrdtChar
  pub post : List CrdtChar
  pub whole : cs ≡ pre ++ m ∷ post
  pub front : visible_chars pre ≡ before
  pub back : visible_chars post ≡ after
  pub shown : m.is_deleted ≡ false

-- The same place behind one more character.
Place-skip :
    (c : CrdtChar) (cs before after : List CrdtChar) (m : CrdtChar)
    → c.is_deleted ≡ true
    → Place cs before after m
    → Place (c ∷ cs) before after m
Place-skip c cs before after m gone r = record {
  pre = c ∷ r.pre;
  post = r.post;
  whole = ap (◌∷◌ c) r.whole;
  front = visible_chars-skip c r.pre gone ∙ r.front;
  back = r.back;
  shown = r.shown;
}

Place-cons :
    (c p : CrdtChar) (cs before after : List CrdtChar) (m : CrdtChar)
    → c.is_deleted ≡ false
    → c ≡ p
    → Place cs before after m
    → Place (c ∷ cs) (p ∷ before) after m
Place-cons c p cs before after m here e r = record {
  pre = c ∷ r.pre;
  post = r.post;
  whole = ap (◌∷◌ c) r.whole;
  front = visible_chars-cons c r.pre here ∙ cc (r.front, e);
  back = r.back;
  shown = r.shown;
}

pub Place-of :
    (cs before after : List CrdtChar) (m : CrdtChar)
    → visible_chars cs ≡ before ++ m ∷ after
    → Place cs before after m
Place-of [] [] after m h = ground (arith, nil_visible)
Place-of [] (p ∷ before) after m h = ground (arith, nil_visible)
Place-of (c ∷ cs) [] after m h = elim (Bool-cases c.is_deleted) [
  | inl gone ↦
      Place-skip c cs [] after m gone
        (Place-of cs [] after m (sym (visible_chars-skip c cs gone) ∙ h))
  | inr here ↦
      let e = sym (visible_chars-cons c cs here) ∙ h in
      record {
        pre = [];
        post = cs;
        whole = ap (λ z. z ∷ cs) (head-eq_of_cons-eq e);
        front = nil_visible;
        back = tail-eq_of_cons-eq e;
        shown = subst (λ (z : CrdtChar). z.is_deleted ≡ false) (head-eq_of_cons-eq e) here;
      }
]
Place-of (c ∷ cs) (p ∷ before) after m h = elim (Bool-cases c.is_deleted) [
  | inl gone ↦
      Place-skip c cs (p ∷ before) after m gone
        (Place-of cs (p ∷ before) after m (sym (visible_chars-skip c cs gone) ∙ h))
  | inr here ↦
      let e = sym (visible_chars-cons c cs here) ∙ h in
      Place-cons c p cs before after m here (head-eq_of_cons-eq e)
        (Place-of cs before after m (tail-eq_of_cons-eq e))
]

present_here : (c : CrdtChar) (cs : List CrdtChar) → present c.id (c ∷ cs) ≡ true
unfolding present
present_here c cs = ground (arith, id_eq_refl c.id)

pub Place-there :
    (cs before after : List CrdtChar) (m : CrdtChar)
    → Place cs before after m
    → has_char m.id cs ≡ true
Place-there cs before after m r = rw r.whole (
    has_char-present m.id (r.pre ++ m ∷ r.post)
    ∙ present-append m.id r.pre (m ∷ r.post)
    ∙ ground (arith, present_here m r.post))

mark_at-append :
    (pre post : List CrdtChar) (m : CrdtChar)
    → mark_at (length pre) (pre ++ m ∷ post) ≡ pre ++ record m { is_deleted = true } ∷ post
unfolding mark_at
mark_at-append [] post m = refl
mark_at-append (c ∷ pre) post m = ap (◌∷◌ c) (mark_at-append pre post m)

-- A deleted character is gone from the visible ones, and no other is.
pub visible_chars-mark_deleted :
    (cs before after : List CrdtChar) (m : CrdtChar)
    → Distinct cs
    → Place cs before after m
    → visible_chars (mark_deleted m.id cs) ≡ before ++ after
unfolding mark_deleted
visible_chars-mark_deleted cs before after m u r =
    let absent =
      absent_left m.id r.pre (m ∷ r.post) (subst Distinct r.whole u) (present_here m r.post) in
    let found = find-at m.id r.pre m r.post absent refl in
    let marked : mark_deleted m.id cs ≡ r.pre ++ record m { is_deleted = true } ∷ r.post =
      rw (r.whole, found) (mark_at-append r.pre r.post m) in
    ap visible_chars marked
    ∙ visible_chars-append r.pre (record m { is_deleted = true } ∷ r.post)
    ∙ cc (r.front, r.back, visible_chars-skip (record m { is_deleted = true }) r.post refl)
