-- ===== src/Crdt/Document/Forest/Within.antt =====
-- `insertChar` on the preorder of a forest is the preorder of the forest with the character grafted.
use mathlib.Core.List.{append_assoc, append-nil}
use syncode.Base.{
  ◌≡◌, refl, sym, ap, subst, ◌∙◌, inl, inr, true, false, Option, some, List, [], ◌∷◌, ◌++◌, arith,
  Bool-cases, snoc,
}
use syncode.Crdt.Id.{CrdtId, id_eq, id_eq_iff, id_eq_refl}
use syncode.Crdt.Document.{CrdtChar, insert_char}
use syncode.Crdt.Document.Forest.{Forest, nil, node, flatten, place, graft}
use syncode.Crdt.Document.Forest.Present.{
  present, present-append, Distinct, Distinct-append_left, Distinct-append_right, absent_left,
}
use syncode.Crdt.Document.Forest.Refine.{
  Rooted, Outer, OuterHead, Outer-append, OuterHead-append, OuterHead-rest, insert_char-at,
}

-- A graft below an id that is not there changes nothing.
graft-absent :
    (o : CrdtId) (c : CrdtChar) (f : Forest) → present o (flatten f) ≡ false → graft o c f ≡ f
unfolding graft flatten present
graft-absent o c nil h = refl
graft-absent o c (node d kids rest) h = ground (
  arith,
  present-append o (flatten kids) (flatten rest),
  graft-absent o c kids,
  graft-absent o c rest,
)

module _ (o : CrdtId) (c d : CrdtChar) (kids rest : Forest) where
  graft-hit : id_eq d.id o ≡ true → graft o c (node d kids rest) ≡ node d (place c kids) rest
  unfolding graft
  graft-hit h = ground arith

  graft-kids :
      id_eq d.id o ≡ false
      → present o (flatten rest) ≡ false
      → graft o c (node d kids rest) ≡ node d (graft o c kids) rest
  unfolding graft
  graft-kids h a = ground (arith, graft-absent o c rest a)

  graft-rest :
      id_eq d.id o ≡ false
      → present o (flatten kids) ≡ false
      → graft o c (node d kids rest) ≡ node d kids (graft o c rest)
  unfolding graft
  graft-rest h a = ground (arith, graft-absent o c kids a)

-- The parts of a document around a node, bracketed to the right.
around :
    (pre kids rest post : List CrdtChar) (d : CrdtChar)
    → pre ++ (d ∷ (kids ++ rest) ++ post) ≡ pre ++ d ∷ (kids ++ (rest ++ post))
around pre kids rest post d = ap (λ l. pre ++ d ∷ l) (append_assoc kids rest post)

before_rest :
    (pre kids tail : List CrdtChar) (d : CrdtChar)
    → (pre ++ d ∷ kids) ++ tail ≡ pre ++ d ∷ (kids ++ tail)
before_rest pre kids tail d = append_assoc pre (d ∷ kids) tail

-- The origin is anywhere in the forest `f`, which stands between `pre` and `post`.
pub insert_char-within :
    (o : CrdtId) (new : CrdtChar) (p : Option CrdtId) (f : Forest) (pre post : List CrdtChar)
    → new.origin_id ≡ some o
    → present o (flatten f) ≡ true
    → Distinct (pre ++ (flatten f ++ post))
    → Rooted p f
    → Outer p pre
    → OuterHead pre post
    → insert_char new (pre ++ (flatten f ++ post)) ≡ pre ++ (flatten (graft o new f) ++ post)
unfolding present flatten
insert_char-within o new p nil pre post origin here dist r out h = cc
insert_char-within o new p (node d kids rest) pre post origin here dist r out h =
    let ks = flatten kids in
    let rs = flatten rest in
    let dist' = rw (around pre ks rs post d) at dist in
    elim (Bool-cases (id_eq d.id o)) [
      | inl hit ↦
          rw
            (
              graft-hit o new d kids rest hit,
              around pre ks rs post d,
              around pre (flatten (place new kids)) rs post d,
            )
            (insert_char-at pre (rs ++ post) d new kids
              (origin ∙ ap some (sym ((id_eq_iff d.id o).0 hit))) dist' r.1
              (subst (λ q. OuterHead q (rs ++ post)) (append-nil pre)
                (OuterHead-rest p rest pre [] post r.2 out h)))
      | inr miss ↦ elim (Bool-cases (present o ks)) [
        | inl inside ↦
            let absent : present o rs ≡ false = ground (
              arith,
              absent_left o ks rs,
              Distinct-append_left (ks ++ rs) post (
                  rw (← append_assoc ks rs post) at
                    (Distinct-append_right pre (d ∷ (ks ++ (rs ++ post))) dist').1),
            ) in
            let ih =
              insert_char-within o new (some d.id) kids (pre ++ d ∷ []) (rs ++ post) origin inside
                (rw (← snoc pre (ks ++ (rs ++ post)) d) at dist') r.1
                (ground (arith, present-append d.id pre (d ∷ []), id_eq_refl d.id))
                (OuterHead-rest p rest pre (d ∷ []) post r.2 out h) in
            rw
              (
                graft-kids o new d kids rest miss absent,
                around pre ks rs post d,
                around pre (flatten (graft o new kids)) rs post d,
              )
              (cc (
                ih,
                snoc pre (ks ++ (rs ++ post)) d,
                snoc pre (flatten (graft o new kids) ++ (rs ++ post)) d,
              ))
        | inr outside ↦
            let inside : present o rs ≡ true = ground (arith, present-append o ks rs) in
            let ih =
              insert_char-within o new p rest (pre ++ d ∷ ks) post origin inside
                (rw (← before_rest pre ks (rs ++ post) d) at dist') r.2
                (Outer-append p pre (d ∷ ks) out) (OuterHead-append pre (d ∷ ks) post h) in
            rw
              (
                graft-rest o new d kids rest miss outside,
                around pre ks rs post d,
                around pre ks (flatten (graft o new rest)) post d,
              )
              (cc (
                ih,
                before_rest pre ks (rs ++ post) d,
                before_rest pre ks (flatten (graft o new rest) ++ post) d,
              ))
      ]
    ]
