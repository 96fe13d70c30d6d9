-- ===== src/Editor/Groups/Remove.antt =====
-- A removal merges the files of a group into its neighbour.
use mathlib.Core.Option.{some-injective}
use syncode.Base.{
  ℕ, zero, suc, ◌+◌, ◌≤◌, ◌<◌, ◌≡◌, ◌≢◌, refl, sym, ap, ◌∙◌, inl, inr, false, Bool-cases, leb,
  Option, none, some, List, [], ◌∷◌, arith, JsString, str_eq, str_eq_iff, str_eq_refl, length,
  get_elem?, get_elem?-none, get_elem?-some, All,
}
use syncode.Editor.Groups.{
  EditorGroupState, WidthOps, ids, set_at, find_group, others, merge_groups, merge_into,
  target_index, remove_found, first_id, remove_editor_group,
}
use syncode.Base.Counting.{times}
use syncode.Editor.Groups.Counts.{
  total, times-merge_files, total-set_at, ids-set_at, length-set_at, find_group-some,
  find_group-get_elem?, total-filter_by, times-ids_others, others-get_elem?, others-drop,
  others-keep, times-get_elem?,
}
use syncode.Editor.Groups.Active.{IsActive, merge-Shows}
use syncode.Editor.Groups.Places.{All-get, All-set_at}
use syncode.Editor.Groups.Invariant.{IsValid}

module _ {W : Type 0} where
  times-total :
      (x : JsString) (gs : List (EditorGroupState W)) (i : ℕ) (g : EditorGroupState W)
      → get_elem? gs i ≡ some g
      → times x g.file_ids ≤ total x gs
  times-total x [] i g e = ground arith
  times-total x (k ∷ gs) zero g e =
      omega (arith, ap (λ (z : EditorGroupState W). times x z.file_ids) (some-injective k g e))
  times-total x (k ∷ gs) (suc i) g e = omega (arith, times-total x gs i g e)

  All-others :
      (id : JsString) (gs : List (EditorGroupState W))
      → All IsActive gs
      → All IsActive (others id gs)
  All-others id [] a = tt
  All-others id (k ∷ gs) a = elim (Bool-cases (str_eq k.id id)) [
    | inl same ↦ rw (others-drop id k gs same) (All-others id gs a.1)
    | inr other ↦ rw (others-keep id k gs other) (a.0, All-others id gs a.1)
  ]

  first_id-there :
      (gs : List (EditorGroupState W)) → 1 ≤ length gs → 1 ≤ times (first_id gs) (ids gs)
  first_id-there [] h = absurd (omega arith)
  first_id-there (g ∷ gs) h = ground (arith, str_eq_refl g.id)

  target_there :
      (gs : List (EditorGroupState W)) (i : ℕ) (g : EditorGroupState W)
      → get_elem? gs i ≡ some g
      → 1 < length gs
      → get_elem? gs (target_index i) ≢ none
  target_there gs zero g e h f = omega (arith, get_elem?-none gs 1 f)
  target_there gs (suc i) g e h f =
      omega (arith, get_elem?-none gs i f, get_elem?-some gs (suc i) g e)

  -- The neighbour is not the group itself.
  other_target :
      (gs : List (EditorGroupState W)) (group_id : JsString) (i : ℕ)
      (removed target : EditorGroupState W)
      → get_elem? gs i ≡ some removed
      → removed.id ≡ group_id
      → get_elem? gs (target_index i) ≡ some target
      → ((x : JsString) → times x (ids gs) ≤ 1)
      → str_eq target.id group_id ≡ false
  other_target gs group_id i removed target e q f u =
      elim (Bool-cases (str_eq target.id group_id)) [
        | inl same ↦
            let r : target.id ≡ removed.id = (str_eq_iff target.id group_id).0 same ∙ sym q in
            let two =
              sym (find_group-get_elem? gs (target_index i) target f u)
              ∙ ap (λ z. find_group z gs) r
              ∙ find_group-get_elem? gs i removed e u in
            absurd (
              apart i (
                ap (λ (z : ℕ × EditorGroupState W). z.0)
                  (some-injective (target_index i, target) (i, removed) two)))
        | inr other ↦ other
      ]
    where
      apart : (n : ℕ) → target_index n ≢ n
      apart zero r = absurd (omega (arith, r))
      apart (suc n) r = absurd (omega (arith, r))

  module _ (ops : WidthOps W) where
    -- A removal keeps the groups valid and their files open, and returns the id of a group that is
    -- left.
    merge_into-IsValid :
        (gs : List (EditorGroupState W)) (group_id : JsString) (i : ℕ)
        (removed target : EditorGroupState W)
        → get_elem? gs i ≡ some removed
        → removed.id ≡ group_id
        → get_elem? gs (target_index i) ≡ some target
        → IsValid gs
        → let r = merge_into ops group_id gs removed (some target) in
          IsValid r.0 × ((x : JsString) → total x r.0 ≡ total x gs) × (1 ≤ times r.1 (ids r.0))
    merge_into-IsValid gs group_id i removed target e q f v =
        let next = others group_id gs in
        let merged = merge_groups ops target removed in
        let (j, at) =
          others-get_elem? group_id gs (target_index i) target f
            (other_target gs group_id i removed target e q f v.unique) in
        let unique : (x : JsString) → times x (ids next) ≤ 1 =
          λ x. omega (arith, v.unique x, times-ids_others x group_id gs) in
        let found = find_group-get_elem? next j target at unique in
        let left =
          λ (x : JsString). total-filter_by x group_id gs i removed e q (v.unique group_id) in
        let apart : (x : JsString) → times x target.file_ids + times x removed.file_ids ≤ 1 =
          λ x. omega (arith, v.once x, left x, times-total x next j target at) in
        let files : (x : JsString) → total x (set_at j merged next) ≡ total x gs = λ x. omega (
          arith,
          left x,
          total-set_at x j merged target next at,
          times-merge_files target.file_ids removed.file_ids apart x,
        ) in
        let same = ids-set_at j merged target next at refl in
        let active = All-others group_id gs v.active in
        rw found (
          record {
            nonempty = omega (arith, length-set_at j merged next, get_elem?-some next j target at);
            unique = λ x. rw same (unique x);
            once = λ x. omega (arith, files x, v.once x);
            active = All-set_at next j merged active (
                merge-Shows target.active_file_id removed.active_file_id target.file_ids
                  removed.file_ids (All-get next j target active at)
                  (All-get gs i removed v.active e) apart);
          },
          files,
          rw same (times-get_elem? next j target at),
        )

    -- A removal among two groups or more.
    remove_found-IsValid :
        (gs : List (EditorGroupState W)) (group_id : JsString) (o : Option (ℕ × EditorGroupState W))
        → find_group group_id gs ≡ o
        → 1 < length gs
        → IsValid gs
        → let r = remove_found ops group_id gs o in
          IsValid r.0 × ((x : JsString) → total x r.0 ≡ total x gs) × (1 ≤ times r.1 (ids r.0))
    remove_found-IsValid gs group_id none e h v = (v, λ x. refl, first_id-there gs v.nonempty)
    remove_found-IsValid gs group_id (some (i, removed)) e h v =
        let (there, q) = find_group-some group_id gs i removed e in
        target (get_elem? gs (target_index i)) refl there q
      where
        target :
            (o : Option (EditorGroupState W))
            → get_elem? gs (target_index i) ≡ o
            → get_elem? gs i ≡ some removed
            → removed.id ≡ group_id
            → let r = merge_into ops group_id gs removed o in
              IsValid r.0 × ((x : JsString) → total x r.0 ≡ total x gs) × (1 ≤ times r.1 (ids r.0))
        target none f there q = absurd (target_there gs i removed there h f)
        target (some g) f there q = merge_into-IsValid gs group_id i removed g there q f v

    -- In valid groups: a removal leaves valid groups with the same files open, and returns the id of
    -- one of them.
    pub remove_editor_group-IsValid :
        (gs : List (EditorGroupState W)) (group_id : JsString)
        → IsValid gs
        → let r = remove_editor_group ops gs group_id in
          IsValid r.0 × ((x : JsString) → total x r.0 ≡ total x gs) × (1 ≤ times r.1 (ids r.0))
    unfolding remove_editor_group
    remove_editor_group-IsValid gs group_id v = elim (Bool-cases (leb (length gs) 1)) [
      | inl few ↦ rw few (v, λ x. refl, first_id-there gs v.nonempty)
      | inr more ↦
          rw more (remove_found-IsValid gs group_id (find_group group_id gs) refl (ground arith) v)
    ]
