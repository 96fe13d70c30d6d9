-- ===== src/Editor/Groups/Active.antt =====
-- The file that a group shows is one of its files.
use mathlib.Core.Option.{some-injective}
use syncode.Base.{
  ℕ, zero, suc, ◌+◌, ◌-◌, ◌≤◌, min, ◌≡◌, refl, sym, ap, subst, ◌⊎◌, inl, inr, Bool, true, not,
  Bool-cases, Option, none, some, Option-cases, List, [], ◌∷◌, arith, JsString, str_eq, str_eq_iff,
  str_eq_refl, length, get_elem?, get_elem?-none, filter_by,
}
use syncode.Base.Assoc.{includes}
use syncode.Editor.Groups.{
  EditorGroupState, without, last_or_empty, string_or_empty, show_file, hide_file, close_at,
  close_file, index_of, prune_group, merge_files, or_string,
}
use syncode.Base.Counting.{times, times-filter_by, includes_lem, times-snoc}
use syncode.Editor.Groups.Counts.{times-merge_files}

-- The shown file is among the files, or there are none and it is the empty text.
abbrev pub Shows : JsString → List JsString → Type 0
Shows active files = (1 ≤ times active files) ⊎ ((files ≡ []) × (active ≡ []))

module _ {W : Type 0} where
  abbrev pub IsActive : EditorGroupState W → Type 0
  IsActive g = Shows g.active_file_id g.file_ids

last-Shows : (fs : List JsString) → Shows (last_or_empty fs) fs
last-Shows [] = inr (refl, refl)
last-Shows (x ∷ []) = inl (ground (arith, str_eq_refl x))
last-Shows (x ∷ y ∷ ys) = ground (arith, last-Shows (y ∷ ys))

times-get : (fs : List JsString) (i : ℕ) (x : JsString) → get_elem? fs i ≡ some x → 1 ≤ times x fs
times-get [] i x e = ground arith
times-get (y ∷ fs) zero x e = ground (arith, (str_eq_iff y x).1 (some-injective y x e))
times-get (y ∷ fs) (suc i) x e = ground (arith, times-get fs i x e)

neighbour-Shows :
    (fs : List JsString) (i : ℕ) → Shows (string_or_empty (get_elem? fs (min i (length fs - 1)))) fs
neighbour-Shows [] i = inr (refl, refl)
neighbour-Shows (y ∷ fs) i =
    elim (Option-cases (get_elem? (y ∷ fs) (min i (length (y ∷ fs) - 1)))) [
      | inl out ↦ absurd (omega (arith, get_elem?-none (y ∷ fs) _ out))
      | inr (x, found) ↦
          subst (λ o. Shows (string_or_empty o) (y ∷ fs)) (sym found)
            (inl (times-get (y ∷ fs) _ x found))
    ]

-- Fewer files, with a shown one that is chosen anew if it goes.
kept-Shows :
    (p : JsString → Bool) (active : JsString) (fs : List JsString)
    → p active ≡ true
    → Shows active fs
    → Shows active (filter_by p fs)
kept-Shows p active fs h (inl here) = inl (ground (arith, times-filter_by active p fs))
kept-Shows p active fs h (inr (e, q)) = inr (ap (filter_by p) e, q)

module _ {W : Type 0} where
  pub show_file-IsActive : (file : JsString) (g : EditorGroupState W) → IsActive (show_file file g)
  show_file-IsActive file g = inl (
      ground
        (arith, includes_lem file g.file_ids, times-snoc file file g.file_ids, str_eq_refl file))

  pub hide_file-IsActive :
      (file : JsString) (g : EditorGroupState W) → IsActive g → IsActive (hide_file file g)
  hide_file-IsActive file g a = elim (Bool-cases (str_eq g.active_file_id file)) [
    | inl same ↦ rw same (last-Shows (without file g.file_ids))
    | inr other ↦
        rw other
          (kept-Shows (λ x. not (str_eq x file)) g.active_file_id g.file_ids (rw other refl) a)
  ]

  close_at-IsActive :
      (file : JsString) (o : Option ℕ) (g : EditorGroupState W)
      → IsActive g
      → IsActive (close_at file o g)
  close_at-IsActive file none g a = a
  close_at-IsActive file (some index) g a = elim (Bool-cases (str_eq g.active_file_id file)) [
    | inl same ↦ rw same (neighbour-Shows (without file g.file_ids) index)
    | inr other ↦
        rw other
          (kept-Shows (λ x. not (str_eq x file)) g.active_file_id g.file_ids (rw other refl) a)
  ]

  pub close_file-IsActive :
      (file : JsString) (g : EditorGroupState W) → IsActive g → IsActive (close_file file g)
  unfolding close_file
  close_file-IsActive file g a = close_at-IsActive file (index_of file g.file_ids) g a

  pub prune_group-IsActive :
      (valid : List JsString) (g : EditorGroupState W) → IsActive g → IsActive (prune_group valid g)
  unfolding prune_group
  prune_group-IsActive valid g a = elim (Bool-cases (includes g.active_file_id valid)) [
    | inl there ↦ rw there (kept-Shows (λ x. includes x valid) g.active_file_id g.file_ids there a)
    | inr gone ↦ rw gone (last-Shows (filter_by (λ x. includes x valid) g.file_ids))
  ]

no_files : merge_files [] [] ≡ []
unfolding merge_files
no_files = refl

pub merge-Shows :
    (a b : JsString) (fs gs : List JsString)
    → Shows a fs
    → Shows b gs
    → ((x : JsString) → times x fs + times x gs ≤ 1)
    → Shows (or_string a b) (merge_files fs gs)
merge-Shows (x ∷ a) b fs gs (inl h) k once =
    inl (omega (arith, h, times-merge_files fs gs once (x ∷ a)))
merge-Shows (x ∷ a) b fs gs (inr h) k once = ground arith
merge-Shows [] b fs gs h (inl k) once = inl (omega (arith, k, times-merge_files fs gs once b))
merge-Shows [] b fs gs (inl h) (inr (e, q)) once =
    subst (λ z. Shows z (merge_files fs gs)) (sym q)
      (inl (omega (arith, h, times-merge_files fs gs once [])))
merge-Shows [] b fs gs (inr (e', q')) (inr (e, q)) once = inr (cc (e, e', no_files), q)
