-- ===== src/Provider/Replace/Edits.antt =====
-- About the text after a replacement, here and at a peer that gets the operations.
use mathlib.Core.List.{map-append}
use syncode.Base.{
  ℕ, zero, suc, ◌-◌, ◌≤◌, ◌≡◌, refl, sym, ap, subst, ◌∙◌, inl, inr, Option, none, some,
  Option-cases, List, [], ◌∷◌, ◌++◌, arith, JsString, length, get_elem?, get_elem?-none, take, drop,
  snoc,
}
use syncode.Crdt.Id.{CrdtId}
use syncode.Crdt.Document.{
  CrdtChar, CrdtOp, CrdtDocument, insert, delete, create_char, next_id, visible_chars, join_values,
  to_visible_string, code_points, local_insert, local_delete, apply_op,
}
use syncode.Crdt.Document.Convergence.{OriginReady, Ready, IsCausal, deliver}
use syncode.Crdt.Document.Local.{local_insert-after, local_insert-start}
use syncode.Crdt.Document.Invariant.{
  Inv, apply_op-Inv, local_insert-apply_op, local_delete-apply_op,
}
use syncode.Crdt.Pending.Run.{deliver-append, IsCausal-append}
use syncode.Crdt.Document.Text.{concat, concat-code_points}
use syncode.Provider.Replace.{
  common_prefix_length, common_suffix_length, slice, delete_replaced_characters,
  insert_replacement_characters, id_before, id_or_null, replace_file_content,
}
use syncode.Provider.Replace.Lengths.{
  values_of, common_prefix_length_lem, common_suffix_length_lem, split_slice,
}
use syncode.Provider.Replace.Places.{
  visible_chars-append, visible_chars-cons, Place-of, Place-there, visible_chars-mark_deleted,
}

-- The origin of an insertion behind some visible characters.
data IsOrigin : Option CrdtId → List CrdtChar → Type 0 where
  at_start : IsOrigin none []
  behind : (before : List CrdtChar) (c : CrdtChar) → IsOrigin (some c.id) (before ++ c ∷ [])

-- What a run of local edits does: the operations are ready one after the other, and deliver the
-- same document.
record Edit (d d' : CrdtDocument) (ops : List CrdtOp) (shown : List CrdtChar) : Type 0 where
  inv : Inv d'
  causal : IsCausal ops d
  same : d' ≡ deliver ops d
  visible : visible_chars d'.chars ≡ shown

Edit-none :
    (d : CrdtDocument) (shown : List CrdtChar)
    → Inv d
    → visible_chars d.chars ≡ shown
    → Edit d d [] shown
unfolding deliver
Edit-none d shown i v = record { inv = i; causal = tt; same = refl; visible = v }

Edit-step :
    (d d' d'' : CrdtDocument) (op : CrdtOp) (ops : List CrdtOp) (shown : List CrdtChar)
    → Ready op d
    → d' ≡ apply_op op d
    → Edit d' d'' ops shown
    → Edit d d'' (op ∷ ops) shown
unfolding deliver
Edit-step d d' d'' op ops shown r e k = record {
  inv = k.inv;
  causal = (r, subst (IsCausal ops) e k.causal);
  same = k.same ∙ ap (deliver ops) e;
  visible = k.visible;
}

delete_replaced_characters-Edit :
    (gone before after : List CrdtChar) (d : CrdtDocument)
    → Inv d
    → visible_chars d.chars ≡ before ++ (gone ++ after)
    → let r = delete_replaced_characters gone d in Edit d r.0 r.1 (before ++ after)
unfolding delete_replaced_characters local_delete
delete_replaced_characters-Edit [] before after d i v = Edit-none d _ i v
delete_replaced_characters-Edit (m ∷ gone) before after d i v =
    let r = Place-of d.chars before (gone ++ after) m v in
    let there = Place-there d.chars before (gone ++ after) m r in
    let d' = (local_delete m.id d).0 in
    let same = local_delete-apply_op d m.id in
    let inv = subst Inv (sym same) (apply_op-Inv (delete m.id) d i there) in
    let left = visible_chars-mark_deleted d.chars before (gone ++ after) m i.formed.distinct r in
    Edit-step d d' _ (delete m.id) _ _ there same
      (delete_replaced_characters-Edit gone before after d' inv left)

-- The first insertion: where its character stands.
insert_visible :
    (o : Option CrdtId) (before after : List CrdtChar) (v : JsString) (d : CrdtDocument)
    → Inv d
    → IsOrigin o before
    → visible_chars d.chars ≡ before ++ after
    → OriginReady o d.chars
      × (visible_chars (local_insert o v d).0.chars
          ≡ before ++ create_char (next_id d.site_id d.clock) v o ∷ after)
insert_visible _ _ after v d i at_start e = (
  tt,
  ap visible_chars (local_insert-start d v i.formed i.bounds)
      ∙ visible_chars-cons (create_char (next_id d.site_id d.clock) v none) d.chars refl
      ∙ ap (◌∷◌ (create_char (next_id d.site_id d.clock) v none)) e,
)
insert_visible _ _ after v d i (behind before c) e =
    let new = create_char (next_id d.site_id d.clock) v (some c.id) in
    let r = Place-of d.chars before after c (e ∙ snoc before after c) in
    (
      Place-there d.chars before after c r,
      ap visible_chars (local_insert-after d r.pre r.post c v i.formed i.bounds r.whole)
          ∙ visible_chars-append r.pre (c ∷ new ∷ r.post)
          ∙ cc (
            r.front,
            r.back,
            visible_chars-cons c (new ∷ r.post) r.shown,
            visible_chars-cons new r.post refl,
            snoc before (new ∷ after) c,
          ),
    )

-- The characters that a run of insertions makes.
abbrev made : JsString → ℕ → Option CrdtId → List JsString → List CrdtChar
made site clock o [] = []
made site clock o (v ∷ vs) =
    let id = next_id site clock in create_char id v o ∷ made site (suc clock) (some id) vs

values_of-made :
    (site : JsString) (clock : ℕ) (o : Option CrdtId) (vs : List JsString)
    → values_of (made site clock o vs) ≡ vs
values_of-made site clock o [] = refl
values_of-made site clock o (v ∷ vs) = ap (◌∷◌ v) (values_of-made site (suc clock) _ vs)

insert_replacement_characters-Edit :
    (vs : List JsString) (o : Option CrdtId) (before after : List CrdtChar) (d : CrdtDocument)
    → Inv d
    → IsOrigin o before
    → visible_chars d.chars ≡ before ++ after
    → let r = insert_replacement_characters vs o d in
      Edit d r.0 r.1 (before ++ (made d.site_id d.clock o vs ++ after))
unfolding insert_replacement_characters local_insert
insert_replacement_characters-Edit [] o before after d i at e = Edit-none d _ i e
insert_replacement_characters-Edit (v ∷ vs) o before after d i at e =
    let new = create_char (next_id d.site_id d.clock) v o in
    let (there, shown) = insert_visible o before after v d i at e in
    let (ready, same) = local_insert-apply_op d o v i there in
    let d' = (local_insert o v d).0 in
    let inv = subst Inv (sym same) (apply_op-Inv (insert new) d i ready) in
    let rest =
      insert_replacement_characters-Edit vs (some new.id) (before ++ new ∷ []) after d' inv
        (behind before new) (shown ∙ sym (snoc before after new)) in
    Edit-step d d' _ (insert new) _ _ ready same (subst (Edit d' _ _) (snoc before _ new) rest)

join_values-concat : (cs : List CrdtChar) → join_values cs ≡ concat (values_of cs)
join_values-concat [] = refl
join_values-concat (c ∷ cs) = ap (λ z. c.value ++ z) (join_values-concat cs)

Edit-append :
    (d d' d'' : CrdtDocument) (xs ys : List CrdtOp) (shown shown' : List CrdtChar)
    → Edit d d' xs shown
    → Edit d' d'' ys shown'
    → Edit d d'' (xs ++ ys) shown'
Edit-append d d' d'' xs ys shown shown' r k = record {
  inv = k.inv;
  causal = IsCausal-append xs ys d r.causal (subst (IsCausal ys) r.same k.causal);
  same = k.same ∙ ap (deliver ys) r.same ∙ sym (deliver-append xs ys d);
  visible = k.visible;
}

take-get_elem? :
    (cs : List CrdtChar) (i : ℕ) (c : CrdtChar)
    → get_elem? cs i ≡ some c
    → take (suc i) cs ≡ take i cs ++ c ∷ []
take-get_elem? [] i c h = ground arith
take-get_elem? (x ∷ cs) zero c h = ground arith
take-get_elem? (x ∷ cs) (suc i) c h = ap (◌∷◌ x) (take-get_elem? cs i c h)

id_before-IsOrigin :
    (p : ℕ) (cs : List CrdtChar) → p ≤ length cs → IsOrigin (id_before p cs) (take p cs)
id_before-IsOrigin zero cs h = at_start
id_before-IsOrigin (suc i) cs h = elim (Option-cases (get_elem? cs i)) [
  | inl out ↦ ground (arith, get_elem?-none cs i out)
  | inr (c, found) ↦
      subst (λ z. IsOrigin z (take (suc i) cs)) (ap id_or_null (sym found))
        (subst (IsOrigin (some c.id)) (sym (take-get_elem? cs i c found)) (behind (take i cs) c))
]

-- For a document of characters that read a forest in preorder and whose clock has seen every
-- counter: after a replacement its visible text is the new text, that invariant holds again, and a
-- replica of the old document that gets the operations in their order is ready for each one and
-- becomes the same document.
pub replace_file_content-deliver :
    (content : JsString) (d : CrdtDocument)
    → Inv d
    → let r = replace_file_content content d in
      (to_visible_string r.0 ≡ content) × Inv r.0 × IsCausal r.1 d × (r.0 ≡ deliver r.1 d)
unfolding replace_file_content to_visible_string
replace_file_content-deliver content d i =
    let cs = visible_chars d.chars in
    let ss = code_points content in
    let p = common_prefix_length cs ss in
    let (pc, ps, front) = common_prefix_length_lem cs ss in
    let s = common_suffix_length cs ss p in
    let (sc, sl, back) = common_suffix_length_lem cs ss p pc ps in
    let gone = slice p (length cs - s) cs in
    let fresh = slice p (length ss - s) ss in
    let before = take p cs in
    let after = drop (length cs - s) cs in
    let o = id_before p cs in
    let d' = (delete_replaced_characters gone d).0 in
    let first = delete_replaced_characters-Edit gone before after d i (split_slice cs p s sc) in
    let second =
      insert_replacement_characters-Edit fresh o before after d' first.inv
        (id_before-IsOrigin p cs pc) first.visible in
    let all = Edit-append d d' _ _ _ _ _ first second in
    let new = made d'.site_id d'.clock o fresh in
    let values : values_of (before ++ (new ++ after)) ≡ ss =
      map-append _ before (new ++ after)
      ∙ cc (
        map-append (λ (c : CrdtChar). c.value) new after,
        values_of-made d'.site_id d'.clock o fresh,
        front,
        back,
      )
      ∙ sym (split_slice ss p s sl) in
    let text =
      ap join_values all.visible
      ∙ join_values-concat (before ++ (new ++ after))
      ∙ ap concat values
      ∙ concat-code_points content in
    (text, all.inv, all.causal, all.same)
