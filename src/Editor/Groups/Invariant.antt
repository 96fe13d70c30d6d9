-- ===== src/Editor/Groups/Invariant.antt =====
-- What holds of the groups after any operations.
use syncode.Base.{
  suc, ◌≤◌, ◌≡◌, refl, ap, inl, inr, Bool-cases, not, Option-cases, List, [], ◌∷◌, arith, JsString,
  str_eq, str_eq_iff, str_eq_refl, if◌then◌else◌, map, length, All,
}
use syncode.Base.Assoc.{includes}
use syncode.Editor.Groups.{
  EditorGroupState, ids, show_file, hide_file, close_file, index_of, prune_group,
  open_editor_group_file, close_editor_group_file, prune_editor_group_files,
}
use syncode.Base.Counting.{times, times-filter_by, includes_lem, times-snoc}
use syncode.Editor.Groups.Counts.{total}
use syncode.Editor.Groups.Active.{
  IsActive, show_file-IsActive, hide_file-IsActive, close_file-IsActive, prune_group-IsActive,
}

module _ {W : Type 0} where
  -- There is a group, no id is there twice, no file is open twice, and each group shows a file of
  -- its own, if it has any.
  pub record IsValid (gs : List (EditorGroupState W)) : Type 0 where
    pub nonempty : 1 ≤ length gs
    pub unique : (x : JsString) → times x (ids gs) ≤ 1
    pub once : (x : JsString) → total x gs ≤ 1
    pub active : All IsActive gs

  -- Operations that change every group in place.
  module _ (f : EditorGroupState W → EditorGroupState W)
      (same_id : (g : EditorGroupState W) → (f g).id ≡ g.id) where
    ids-map : (gs : List (EditorGroupState W)) → ids (map f gs) ≡ ids gs
    ids-map [] = refl
    ids-map (g ∷ gs) = cc (same_id g, ids-map gs)

    length-map : (gs : List (EditorGroupState W)) → length (map f gs) ≡ length gs
    length-map [] = refl
    length-map (g ∷ gs) = ap suc (length-map gs)

    All-map :
        ((g : EditorGroupState W) → IsActive g → IsActive (f g))
        → (gs : List (EditorGroupState W)) → All IsActive gs
        → All IsActive (map f gs)
    All-map h [] a = tt
    All-map h (g ∷ gs) a = (h g a.0, All-map h gs a.1)

    map-IsValid :
        (gs : List (EditorGroupState W))
        → ((g : EditorGroupState W) → IsActive g → IsActive (f g))
        → ((x : JsString) → total x (map f gs) ≤ 1)
        → IsValid gs
        → IsValid (map f gs)
    map-IsValid gs h once v = record {
      nonempty = omega (arith, length-map gs, v.nonempty);
      unique = λ x. rw (ids-map gs) (v.unique x);
      once = once;
      active = All-map h gs v.active;
    }

  total-map :
      (f : EditorGroupState W → EditorGroupState W) (x : JsString)
      → ((g : EditorGroupState W) → times x (f g).file_ids ≤ times x g.file_ids)
      → (gs : List (EditorGroupState W)) → total x (map f gs) ≤ total x gs
  total-map f x h [] = omega arith
  total-map f x h (g ∷ gs) = omega (arith, h g, total-map f x h gs)

  -- One file in one group.
  opened : JsString → JsString → EditorGroupState W → EditorGroupState W
  opened group_id file g = if str_eq g.id group_id then show_file file g else hide_file file g

  times-show_file :
      (file x : JsString) (g : EditorGroupState W)
      → times file g.file_ids ≤ 1
      → times x (show_file file g).file_ids ≤ (if str_eq file x then 1 else times x g.file_ids)
  times-show_file file x g h = elim (Bool-cases (str_eq file x)) [
    | inl same ↦
        let q = (str_eq_iff file x).0 same in
        ground (
          arith,
          includes_lem file g.file_ids,
          times-snoc file file g.file_ids,
          str_eq_refl file,
          ap (λ y. times y (show_file file g).file_ids) q,
        )
    | inr other ↦ ground (arith, times-snoc x file g.file_ids)
  ]

  times-hide_file :
      (file x : JsString) (g : EditorGroupState W)
      → times x (hide_file file g).file_ids ≡ (if str_eq file x then 0 else times x g.file_ids)
  times-hide_file file x g = ground (
    arith,
    times-filter_by x (λ y. not (str_eq y file)) g.file_ids,
    str_eq_iff file x,
    str_eq_iff x file,
  )

  total-opened :
      (group_id file x : JsString) (gs : List (EditorGroupState W))
      → total file gs ≤ 1
      → total x (map (opened group_id file) gs)
        ≤ (if str_eq file x then times group_id (ids gs) else total x gs)
  unfolding opened
  total-opened group_id file x [] h = ground arith
  total-opened group_id file x (g ∷ gs) h =
      ground
        (arith, total-opened group_id file x gs, times-show_file file x g, times-hide_file file x g)

  pub open-IsValid :
      (gs : List (EditorGroupState W)) (group_id file : JsString)
      → IsValid gs
      → IsValid (open_editor_group_file gs group_id file)
  unfolding open_editor_group_file opened
  open-IsValid gs group_id file v = elim (Bool-cases (includes group_id (ids gs))) [
    | inl there ↦ rw there (
        map-IsValid (opened group_id file) (λ g. ground arith) gs
          (λ g a. elim (Bool-cases (str_eq g.id group_id)) [
            | inl same ↦ rw same (show_file-IsActive file g)
            | inr other ↦ rw other (hide_file-IsActive file g a)
          ])
          (λ x.
            ground
              (arith, total-opened group_id file x gs (v.once file), v.unique group_id, v.once x))
          v)
    | inr gone ↦ rw gone v
  ]

  times-close_file :
      (file x : JsString) (g : EditorGroupState W)
      → times x (close_file file g).file_ids ≤ times x g.file_ids
  unfolding close_file
  times-close_file file x g = elim (Option-cases (index_of file g.file_ids)) [
    | inl e ↦ rw e (omega arith)
    | inr (i, e) ↦ rw e (ground (arith, times-filter_by x (λ y. not (str_eq y file)) g.file_ids))
  ]

  closed : JsString → JsString → EditorGroupState W → EditorGroupState W
  closed group_id file g = if str_eq g.id group_id then close_file file g else g

  close_file-id : (file : JsString) (g : EditorGroupState W) → (close_file file g).id ≡ g.id
  unfolding close_file
  close_file-id file g = elim (Option-cases (index_of file g.file_ids)) [
    | inl e ↦ rw e refl
    | inr (i, e) ↦ rw e refl
  ]

  pub close-IsValid :
      (gs : List (EditorGroupState W)) (group_id file : JsString)
      → IsValid gs
      → IsValid (close_editor_group_file gs group_id file)
  unfolding close_editor_group_file closed
  close-IsValid gs group_id file v =
      map-IsValid (closed group_id file) (λ g. ground (arith, close_file-id file g)) gs
        (λ g a. elim (Bool-cases (str_eq g.id group_id)) [
          | inl same ↦ rw same (close_file-IsActive file g a)
          | inr other ↦ rw other a
        ])
        (λ x. omega (
          arith,
          v.once x,
          total-map (closed group_id file) x (λ g. ground (arith, times-close_file file x g)) gs,
        ))
        v

  pub prune-IsValid :
      (gs : List (EditorGroupState W)) (valid : List JsString)
      → IsValid gs
      → IsValid (prune_editor_group_files gs valid)
  unfolding prune_editor_group_files prune_group
  prune-IsValid gs valid v =
      map-IsValid (prune_group valid) (λ g. refl) gs (prune_group-IsActive valid)
        (λ x. omega (
          arith,
          v.once x,
          total-map (prune_group valid) x
              (λ g. ground (arith, times-filter_by x (λ y. includes y valid) g.file_ids)) gs,
        ))
        v
