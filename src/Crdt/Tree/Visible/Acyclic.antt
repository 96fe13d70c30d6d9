-- ===== src/Crdt/Tree/Visible/Acyclic.antt =====
-- About cycles of folders in the visible tree of client/src/crdt/ProjectTree.ts.
use mathlib.Core.Bool.{true≢false}
use syncode.Base.{
  ◌≡◌, refl, sym, ap, subst, ◌∙◌, ◌⊎◌, inl, inr, true, some, List, [], ◌∷◌, arith, JsString, str_eq,
  str_eq_iff, str_lt, Bool-cases, Option-cases, All-append, if_lem, sort, insert_sorted,
}
use syncode.Base.Assoc.{Assoc, has, includes, keys}
use syncode.Crdt.Id.{CrdtId}
use syncode.Crdt.Tree.Registers.{Registers}
use syncode.Crdt.Tree.Visible.{
  follow, detach, finish, break_loop, break_parent_cycles, materialize, walk_fuel,
  create_visible_entries, detach_invalid_parents, remove_deleted_descendants,
}
use syncode.Crdt.Tree.Visible.Walks.{is_some, walk_fuel_lem}
use syncode.Crdt.Tree.Visible.Climbs.{
  Parents, Climbs, AllClimb, Cuts, Climbs-Cuts, detach-Cuts, AllClimb-includes, unknown-climb,
  follow-Walked,
}

All-map : (p p' : Parents) (xs : List JsString) → Cuts p p' → AllClimb p xs → AllClimb p' xs
All-map p p' [] c a = tt
All-map p p' (x ∷ xs) c a = (Climbs-Cuts p p' (some x) c a.0, All-map p p' xs c a.1)

-- One start of the outer loop.
record Step (p : Parents) (start : JsString) (next : List JsString × Parents) : Type 0 where
  done : AllClimb next.1 next.0
  cuts : Cuts p next.1
  here : Climbs next.1 (some start)

finish-Step :
    (p : Parents) (versions : Assoc CrdtId) (complete : List JsString) (start : JsString)
    → AllClimb p complete
    → Step p start (finish (follow (walk_fuel p) p versions complete [] (some start)) complete p)
finish-Step p versions complete start a =
    elim (Option-cases (follow (walk_fuel p) p versions complete [] (some start))) [
      | inl out ↦ absurd (
          true≢false
            (sym (walk_fuel_lem p [] versions complete [] (some start)).1 ∙ ap is_some out))
      | inr (r, h) ↦
          let w = follow-Walked (walk_fuel p) p versions complete [] (some start) r a tt h in
          let cuts = detach-Cuts p r.1 in
          subst (λ z. Step p start (finish z complete p)) (sym h)
            (record {
              done = All-append _ r.0 complete w.0 (All-map p (detach r.1 p) complete cuts a);
              cuts = cuts;
              here = w.1;
            })
    ]

break_loop-Climbs :
    (versions : Assoc CrdtId) (starts complete : List JsString) (p : Parents) (x : JsString)
    → AllClimb p complete
    → (includes x starts ≡ true) ⊎ Climbs p (some x)
    → Climbs (break_loop versions starts complete p) (some x)
unfolding break_loop includes
break_loop-Climbs versions [] complete p x a (inl h) = ground arith
break_loop-Climbs versions [] complete p x a (inr h) = h
break_loop-Climbs versions (start ∷ starts) complete p x a h =
    if_lem
      (λ (next : List JsString × Parents).
        Climbs (break_loop versions starts next.0 next.1) (some x))
      (includes start complete) _ _
      (λ done.
        break_loop-Climbs versions starts complete p x a
          (next p (λ z. inr refl) (AllClimb-includes p start complete a done) h))
      (λ fresh.
        let s = finish-Step p versions complete start a in
        break_loop-Climbs versions starts _ _ x s.done (next _ s.cuts s.here h))
  where
    next :
        (p' : Parents)
        → Cuts p p'
        → Climbs p' (some start)
        → (includes x (start ∷ starts) ≡ true) ⊎ Climbs p (some x)
        → (includes x starts ≡ true) ⊎ Climbs p' (some x)
    next p' c here (inr k) = inr (Climbs-Cuts p p' (some x) c k)
    next p' c here (inl k) = elim (Bool-cases (str_eq start x)) [
      | inl same ↦ inr (subst (λ z. Climbs p' (some z)) ((str_eq_iff start x).0 same) here)
      | inr other ↦ inl (ground arith)
    ]

includes-insert :
    (x y : JsString) (xs : List JsString)
    → includes x (insert_sorted str_lt y xs) ≡ includes x (y ∷ xs)
unfolding includes
includes-insert x y [] = refl
includes-insert x y (z ∷ xs) = ground (arith, includes-insert x y xs)

includes-sort : (x : JsString) (xs : List JsString) → includes x (sort str_lt xs) ≡ includes x xs
unfolding includes sort
includes-sort x [] = refl
includes-sort x (y ∷ xs) = ground (arith, includes-insert x y (sort str_lt xs), includes-sort x xs)

includes-keys : (x : JsString) (p : Parents) → includes x (keys p) ≡ has x p
unfolding includes has
includes-keys x [] = refl
includes-keys x ((k, o) ∷ p) = ground (arith, includes-keys x p)

-- In the visible tree the walk over the parents comes to the top from every entry: no folder is
-- inside itself, whatever moves the replicas have made.
pub materialize-Climbs : (r : Registers) (id : JsString) → Climbs (materialize r).parents (some id)
unfolding materialize break_parent_cycles
materialize-Climbs r id =
    let v =
      detach_invalid_parents (remove_deleted_descendants (create_visible_entries r) r.deleted) in
    break_loop-Climbs v.parent_versions (sort str_lt (keys v.parents)) [] v.parents id tt
      (elim (Bool-cases (has id v.parents)) [
        | inl there ↦ inl (includes-sort id (keys v.parents) ∙ includes-keys id v.parents ∙ there)
        | inr missing ↦ inr (unknown-climb v.parents id missing)
      ])
