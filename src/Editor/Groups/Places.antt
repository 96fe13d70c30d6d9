-- ===== src/Editor/Groups/Places.antt =====
-- A split and a resize: groups that are put in, or in place of others.
use mathlib.Core.Option.{some-injective}
use syncode.Base.{
  ℕ, zero, suc, ◌<◌, ◌≡◌, refl, ap, subst, ◌∙◌, inl, inr, Bool-cases, Option, none, some, List, [],
  ◌∷◌, arith, JsString, str_eq_iff, get_elem?, insert_at, length-insert_at, All,
}
use syncode.Editor.Groups.{
  EditorGroupState, WidthOps, ids, set_at, find_group, resize_pair, split_found, resize_found,
  split_editor_group, resize_editor_group_boundary,
}
use syncode.Base.Counting.{times}
use syncode.Editor.Groups.Counts.{
  total-set_at, ids-set_at, length-set_at, total-insert_at, times-ids_insert_at, find_group-some,
}
use syncode.Editor.Groups.Active.{IsActive}
use syncode.Editor.Groups.Invariant.{IsValid}

module _ {W : Type 0} where
  pub All-get :
      (gs : List (EditorGroupState W)) (i : ℕ) (g : EditorGroupState W)
      → All IsActive gs
      → get_elem? gs i ≡ some g
      → IsActive g
  All-get [] i g a e = ground arith
  All-get (k ∷ gs) zero g a e = subst IsActive (some-injective k g e) a.0
  All-get (k ∷ gs) (suc i) g a e = All-get gs i g a.1 e

  pub All-set_at :
      (gs : List (EditorGroupState W)) (i : ℕ) (g : EditorGroupState W)
      → All IsActive gs
      → IsActive g
      → All IsActive (set_at i g gs)
  All-set_at [] i g a h = tt
  All-set_at (k ∷ gs) zero g a h = (h, a.1)
  All-set_at (k ∷ gs) (suc i) g a h = (a.0, All-set_at gs i g a.1 h)

  All-insert_at :
      (gs : List (EditorGroupState W)) (i : ℕ) (g : EditorGroupState W)
      → All IsActive gs
      → IsActive g
      → All IsActive (insert_at i g gs)
  All-insert_at gs zero g a h = (h, a)
  All-insert_at [] (suc i) g a h = (h, tt)
  All-insert_at (k ∷ gs) (suc i) g a h = (a.0, All-insert_at gs i g a.1 h)

  -- A group in place of one with the same id and the same files.
  set_at-IsValid :
      (gs : List (EditorGroupState W)) (i : ℕ) (g h : EditorGroupState W)
      → get_elem? gs i ≡ some h
      → g.id ≡ h.id
      → g.file_ids ≡ h.file_ids
      → g.active_file_id ≡ h.active_file_id
      → IsValid gs
      → IsValid (set_at i g gs)
  set_at-IsValid gs i g h e q r t v = record {
    nonempty = omega (arith, length-set_at i g gs, v.nonempty);
    unique = λ x. rw (ids-set_at i g h gs e q) (v.unique x);
    once = λ x. omega (arith, v.once x, total-set_at x i g h gs e, ap (times x) r);
    active = All-set_at gs i g v.active (rw (r, t) (All-get gs i h v.active e));
  }

  insert_at-IsValid :
      (gs : List (EditorGroupState W)) (i : ℕ) (id : JsString) (width : W)
      → times id (ids gs) ≡ 0
      → IsValid gs
      → IsValid
          (insert_at i (record { id = id; file_ids = []; active_file_id = []; width = width }) gs)
  insert_at-IsValid gs i id width fresh v =
      let g : EditorGroupState W = record {
        id = id;
        file_ids = [];
        active_file_id = [];
        width = width;
      } in
      record {
        nonempty = omega (arith, length-insert_at i g gs);
        unique =
            λ x. ground (arith, times-ids_insert_at x i g gs, v.unique x, fresh, str_eq_iff id x);
        once = λ x. omega (arith, v.once x, total-insert_at x i g gs);
        active = All-insert_at gs i g v.active (inr (refl, refl));
      }

  get_elem?-set_at :
      (gs : List (EditorGroupState W)) (i j : ℕ) (g : EditorGroupState W)
      → i < j
      → get_elem? (set_at i g gs) j ≡ get_elem? gs j
  get_elem?-set_at [] i j g h = refl
  get_elem?-set_at (k ∷ gs) i zero g h = absurd (omega arith)
  get_elem?-set_at (k ∷ gs) zero (suc j) g h = refl
  get_elem?-set_at (k ∷ gs) (suc i) (suc j) g h = get_elem?-set_at gs i j g (omega arith)

  module _ (ops : WidthOps W) where
    split_found-IsValid :
        (gs : List (EditorGroupState W)) (group_id new_group_id : JsString)
        (o : Option (ℕ × EditorGroupState W))
        → find_group group_id gs ≡ o
        → times new_group_id (ids gs) ≡ 0
        → IsValid gs
        → IsValid (split_found ops gs new_group_id o)
    split_found-IsValid gs group_id new_group_id none e fresh v = v
    split_found-IsValid gs group_id new_group_id (some (i, g)) e fresh v =
        let found = (find_group-some group_id gs i g e).0 in
        let h : EditorGroupState W = record g { width = ops.half g.width } in
        elim (Bool-cases (ops.fits_twice g.width)) [
          | inl wide ↦ rw wide (
              insert_at-IsValid (set_at i h gs) (suc i) new_group_id (ops.half g.width)
                (rw (ids-set_at i h g gs found refl) fresh)
                (set_at-IsValid gs i h g found refl refl refl v))
          | inr narrow ↦ rw narrow v
        ]

    resize_found-IsValid :
        (gs : List (EditorGroupState W)) (left_group_id : JsString) (delta : W)
        (o : Option (ℕ × EditorGroupState W))
        → find_group left_group_id gs ≡ o
        → IsValid gs
        → IsValid (resize_found ops delta gs o)
    resize_found-IsValid gs left_group_id delta none e v = v
    resize_found-IsValid gs left_group_id delta (some (i, left)) e v =
        pair (get_elem? gs (suc i)) refl
      where
        pair :
            (o : Option (EditorGroupState W))
            → get_elem? gs (suc i) ≡ o
            → IsValid (resize_pair ops delta gs i left o)
        pair none f = v
        pair (some right) f =
            let found = (find_group-some left_group_id gs i left e).0 in
            set_at-IsValid _ (suc i) _ right (get_elem?-set_at gs i (suc i) _ (omega arith) ∙ f)
              refl refl refl (set_at-IsValid gs i _ left found refl refl refl v)

    pub split-IsValid :
        (gs : List (EditorGroupState W)) (group_id new_group_id : JsString)
        → times new_group_id (ids gs) ≡ 0
        → IsValid gs
        → IsValid (split_editor_group ops gs group_id new_group_id)
    unfolding split_editor_group
    split-IsValid gs group_id new_group_id fresh v =
        split_found-IsValid gs group_id new_group_id (find_group group_id gs) refl fresh v

    pub resize-IsValid :
        (gs : List (EditorGroupState W)) (left_group_id : JsString) (delta : W)
        → IsValid gs
        → IsValid (resize_editor_group_boundary ops gs left_group_id delta)
    unfolding resize_editor_group_boundary
    resize-IsValid gs left_group_id delta v =
        resize_found-IsValid gs left_group_id delta (find_group left_group_id gs) refl v
