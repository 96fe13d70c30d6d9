-- ===== src/Editor/Groups/Counts.antt =====
-- How often a file stands in the groups.
use mathlib.Core.Option.{some-injective}
use syncode.Base.{
  ℕ, zero, suc, ◌+◌, ◌≤◌, ◌≡◌, refl, sym, ap, subst, ◌∙◌, inl, inr, true, false, Bool-cases, Option,
  none, some, List, [], ◌∷◌, ◌++◌, arith, JsString, str_eq, str_eq_iff, str_eq_refl, length,
  get_elem?, insert_at,
}
use syncode.Base.Assoc.{includes}
use syncode.Base.Counting.{times, includes_lem, times-snoc}
use syncode.Editor.Groups.{EditorGroupState, ids, merge_files, set_at, find_group, shift, others}

-- Merged lists that have no file twice together.
pub times-merge_files :
    (m fs : List JsString)
    → ((x : JsString) → times x m + times x fs ≤ 1)
    → (x : JsString) → times x (merge_files m fs) ≡ times x m + times x fs
unfolding merge_files
times-merge_files m [] h x = omega arith
times-merge_files m (f ∷ fs) h x =
    let fresh : includes f m ≡ false = ground (arith, includes_lem f m, h f, str_eq_refl f) in
    let rest = times-merge_files (m ++ f ∷ []) fs (λ y. ground (arith, h y, times-snoc y f m)) x in
    rw fresh (ground (arith, rest, times-snoc x f m))

module _ {W : Type 0} where
  abbrev pub total : JsString → List (EditorGroupState W) → ℕ
  total x [] = 0
  total x (g ∷ gs) = times x g.file_ids + total x gs

  pub total-set_at :
      (x : JsString) (i : ℕ) (g h : EditorGroupState W) (gs : List (EditorGroupState W))
      → get_elem? gs i ≡ some h
      → total x (set_at i g gs) + times x h.file_ids ≡ total x gs + times x g.file_ids
  total-set_at x i g h [] e = ground arith
  total-set_at x zero g h (k ∷ gs) e =
      omega
        (arith, ap (times x) (ap (λ (z : EditorGroupState W). z.file_ids) (some-injective k h e)))
  total-set_at x (suc i) g h (k ∷ gs) e = omega (arith, total-set_at x i g h gs e)

  pub ids-set_at :
      (i : ℕ) (g h : EditorGroupState W) (gs : List (EditorGroupState W))
      → get_elem? gs i ≡ some h
      → g.id ≡ h.id
      → ids (set_at i g gs) ≡ ids gs
  ids-set_at i g h [] e q = refl
  ids-set_at zero g h (k ∷ gs) e q = cc (e, q)
  ids-set_at (suc i) g h (k ∷ gs) e q = ap (◌∷◌ k.id) (ids-set_at i g h gs e q)

  pub length-set_at :
      (i : ℕ) (g : EditorGroupState W) (gs : List (EditorGroupState W))
      → length (set_at i g gs) ≡ length gs
  length-set_at i g [] = refl
  length-set_at zero g (k ∷ gs) = refl
  length-set_at (suc i) g (k ∷ gs) = ap suc (length-set_at i g gs)

  pub total-insert_at :
      (x : JsString) (i : ℕ) (g : EditorGroupState W) (gs : List (EditorGroupState W))
      → total x (insert_at i g gs) ≡ times x g.file_ids + total x gs
  total-insert_at x zero g gs = refl
  total-insert_at x (suc i) g [] = refl
  total-insert_at x (suc i) g (k ∷ gs) = omega (arith, total-insert_at x i g gs)

  pub times-ids_insert_at :
      (x : JsString) (i : ℕ) (g : EditorGroupState W) (gs : List (EditorGroupState W))
      → times x (ids (insert_at i g gs)) ≡ times x (g.id ∷ ids gs)
  times-ids_insert_at x zero g gs = refl
  times-ids_insert_at x (suc i) g [] = refl
  times-ids_insert_at x (suc i) g (k ∷ gs) = ground (arith, times-ids_insert_at x i g gs)

  shift-some :
      (o : Option (ℕ × EditorGroupState W)) (j : ℕ) (g : EditorGroupState W)
      → shift o ≡ some (j, g)
      → (n : ℕ) × (j ≡ suc n) × (o ≡ some (n, g))
  shift-some none j g e = ground arith
  shift-some (some (n, h)) j g e =
      let q = some-injective (suc n, h) (j, g) e in
      (
        n,
        sym (ap (λ (z : ℕ × EditorGroupState W). z.0) q),
        ap (λ (z : ℕ × EditorGroupState W). some (n, z.1)) q,
      )

  shift-none : (o : Option (ℕ × EditorGroupState W)) → shift o ≡ none → o ≡ none
  shift-none none e = refl
  shift-none (some (n, h)) e = ground arith

  pub find_group-some :
      (id : JsString) (gs : List (EditorGroupState W)) (i : ℕ) (g : EditorGroupState W)
      → find_group id gs ≡ some (i, g)
      → (get_elem? gs i ≡ some g) × (g.id ≡ id)
  unfolding find_group
  find_group-some id [] i g e = ground arith
  find_group-some id (k ∷ gs) i g e = elim (Bool-cases (str_eq k.id id)) [
    | inl same ↦
        let q = some-injective (0, k) (i, g) (sym (rw same refl) ∙ e) in
        let qi : 0 ≡ i = ap (λ (z : ℕ × EditorGroupState W). z.0) q in
        let qg : k ≡ g = ap (λ (z : ℕ × EditorGroupState W). z.1) q in
        (
          subst (λ j. get_elem? (k ∷ gs) j ≡ some g) qi (ap some qg),
          subst (λ (z : EditorGroupState W). z.id ≡ id) qg ((str_eq_iff k.id id).0 same),
        )
    | inr other ↦
        let (n, q, r) = shift-some (find_group id gs) i g (sym (rw other refl) ∙ e) in
        let rest = find_group-some id gs n g r in
        (subst (λ j. get_elem? (k ∷ gs) j ≡ some g) (sym q) rest.0, rest.1)
  ]

  pub times-get_elem? :
      (gs : List (EditorGroupState W)) (i : ℕ) (g : EditorGroupState W)
      → get_elem? gs i ≡ some g
      → 1 ≤ times g.id (ids gs)
  times-get_elem? [] i g e = ground arith
  times-get_elem? (k ∷ gs) zero g e =
      ground (arith, str_eq_refl g.id, ap (λ (z : EditorGroupState W). z.id) (some-injective k g e))
  times-get_elem? (k ∷ gs) (suc i) g e = ground (arith, times-get_elem? gs i g e)

  -- A group that is there is the one that its id finds.
  pub find_group-get_elem? :
      (gs : List (EditorGroupState W)) (i : ℕ) (g : EditorGroupState W)
      → get_elem? gs i ≡ some g
      → ((x : JsString) → times x (ids gs) ≤ 1)
      → find_group g.id gs ≡ some (i, g)
  unfolding find_group
  find_group-get_elem? [] i g e h = ground arith
  find_group-get_elem? (k ∷ gs) zero g e h =
      let q = some-injective k g e in
      subst (λ (z : EditorGroupState W). find_group z.id (k ∷ gs) ≡ some (0, z)) q
        (ground (arith, str_eq_refl k.id))
  find_group-get_elem? (k ∷ gs) (suc i) g e h =
      let rest = find_group-get_elem? gs i g e (λ x. ground (arith, h x)) in
      let other : str_eq k.id g.id ≡ false = ground (arith, h g.id, times-get_elem? gs i g e) in
      rw (other, rest) refl

  pub find_group-none :
      (id : JsString) (gs : List (EditorGroupState W))
      → find_group id gs ≡ none
      → times id (ids gs) ≡ 0
  unfolding find_group
  find_group-none id [] e = refl
  find_group-none id (k ∷ gs) e = elim (Bool-cases (str_eq k.id id)) [
    | inl same ↦ ground arith
    | inr other ↦ rw other (find_group-none id gs (shift-none _ (sym (rw other refl) ∙ e)))
  ]

  pub others-drop :
      (id : JsString) (k : EditorGroupState W) (gs : List (EditorGroupState W))
      → str_eq k.id id ≡ true
      → others id (k ∷ gs) ≡ others id gs
  others-drop id k gs h = ground arith

  pub others-keep :
      (id : JsString) (k : EditorGroupState W) (gs : List (EditorGroupState W))
      → str_eq k.id id ≡ false
      → others id (k ∷ gs) ≡ k ∷ others id gs
  others-keep id k gs h = ground arith

  others-absent :
      (id : JsString) (gs : List (EditorGroupState W)) → times id (ids gs) ≡ 0 → others id gs ≡ gs
  others-absent id [] h = refl
  others-absent id (k ∷ gs) h = ground (arith, others-absent id gs)

  -- Without a group that is there, its files are gone from the total.
  pub total-filter_by :
      (x id : JsString) (gs : List (EditorGroupState W)) (i : ℕ) (g : EditorGroupState W)
      → get_elem? gs i ≡ some g
      → g.id ≡ id
      → times id (ids gs) ≤ 1
      → total x (others id gs) + times x g.file_ids ≡ total x gs
  total-filter_by x id [] i g e q h = ground arith
  total-filter_by x id (k ∷ gs) zero g e q h =
      let same : str_eq k.id id ≡ true =
        (str_eq_iff k.id id).1 (ap (λ (z : EditorGroupState W). z.id) (some-injective k g e) ∙ q) in
      let files = ap (λ (z : EditorGroupState W). times x z.file_ids) (some-injective k g e) in
      rw (others-drop id k gs same, others-absent id gs (ground arith)) (omega (arith, files))
  total-filter_by x id (k ∷ gs) (suc i) g e q h =
      let other : str_eq k.id id ≡ false =
        ground (arith, h, subst (λ z. 1 ≤ times z (ids gs)) q (times-get_elem? gs i g e)) in
      let rest = total-filter_by x id gs i g e q (ground arith) in
      rw (others-keep id k gs other) (omega (arith, rest))

  pub times-ids_others :
      (x id : JsString) (gs : List (EditorGroupState W))
      → times x (ids (others id gs)) ≤ times x (ids gs)
  times-ids_others x id [] = omega arith
  times-ids_others x id (k ∷ gs) = ground (arith, times-ids_others x id gs)

  pub others-get_elem? :
      (id : JsString) (gs : List (EditorGroupState W)) (i : ℕ) (g : EditorGroupState W)
      → get_elem? gs i ≡ some g
      → str_eq g.id id ≡ false
      → (j : ℕ) × (get_elem? (others id gs) j ≡ some g)
  others-get_elem? id [] i g e h = ground arith
  others-get_elem? id (k ∷ gs) zero g e h =
      let q = some-injective k g e in
      let other : str_eq k.id id ≡ false =
        subst (λ (z : EditorGroupState W). str_eq z.id id ≡ false) (sym q) h in
      (0, rw (others-keep id k gs other) e)
  others-get_elem? id (k ∷ gs) (suc i) g e h =
      let (j, f) = others-get_elem? id gs i g e h in
      elim (Bool-cases (str_eq k.id id)) [
        | inl same ↦ (j, rw (others-drop id k gs same) f)
        | inr other ↦ (suc j, rw (others-keep id k gs other) f)
      ]
