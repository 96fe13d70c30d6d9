-- ===== src/Base/Sorting.antt =====
-- The stable `sort` of an array, by a comparison that orders it.
use mathlib.Core.Path.{◌≡◌, refl, sym, ap, ◌∙◌}
use mathlib.Core.Logic.{inl, inr}
use mathlib.Core.Bool.{Bool, true, false}
use mathlib.Core.List.{List, [], ◌∷◌, Perm}
use mathlib.Core.List.Perm
use native.Mathlib.Omega.{arith}
use syncode.Base.Tests.{Bool-cases}
use syncode.Base.Lists.{All, filter_by, filter_by-keep, filter_by-drop, insert_sorted, sort}

module _ {A : Type 0} (lt : A → A → Bool) (asym : (x y : A) → lt y x ≡ true → lt x y ≡ false)
    (trans : (x y z : A) → lt y x ≡ false → lt z y ≡ false → lt z x ≡ false) where
  abbrev pub Sorted : List A → Type 0
  Sorted [] = Unit
  Sorted (x ∷ xs) = All (λ z. lt z x ≡ false) xs × Sorted xs

  insert-past :
      (x y : A) (ys : List A)
      → lt y x ≡ true
      → insert_sorted lt x (y ∷ ys) ≡ y ∷ insert_sorted lt x ys
  insert-past x y ys h = ground arith

  insert-stop : (x y : A) (ys : List A) → lt y x ≡ false → insert_sorted lt x (y ∷ ys) ≡ x ∷ y ∷ ys
  insert-stop x y ys h = ground arith

  All-insert :
      (Q : A → Type 0) (x : A) (ys : List A) → All Q ys → Q x → All Q (insert_sorted lt x ys)
  All-insert Q x [] a q = (q, tt)
  All-insert Q x (y ∷ ys) a q = elim (Bool-cases (lt y x)) [
    | inl less ↦ rw (insert-past x y ys less) (a.0, All-insert Q x ys a.1 q)
    | inr not_less ↦ rw (insert-stop x y ys not_less) (q, a)
  ]

  All-mono :
      (x y : A) (ys : List A)
      → lt y x ≡ false
      → All (λ z. lt z y ≡ false) ys
      → All (λ z. lt z x ≡ false) ys
  All-mono x y [] h a = tt
  All-mono x y (z ∷ ys) h a = (trans x y z h a.0, All-mono x y ys h a.1)

  insert-Sorted : (x : A) (ys : List A) → Sorted ys → Sorted (insert_sorted lt x ys)
  insert-Sorted x [] s = (tt, tt)
  insert-Sorted x (y ∷ ys) s = elim (Bool-cases (lt y x)) [
    | inl less ↦
        rw (insert-past x y ys less)
          (All-insert (λ z. lt z y ≡ false) x ys s.0 (asym x y less), insert-Sorted x ys s.1)
    | inr not_less ↦ rw (insert-stop x y ys not_less) ((not_less, All-mono x y ys not_less s.0), s)
  ]

  pub sort-Sorted : (xs : List A) → Sorted (sort lt xs)
  unfolding sort
  sort-Sorted [] = tt
  sort-Sorted (x ∷ xs) = insert-Sorted x (sort lt xs) (sort-Sorted xs)

  insert-Perm : (x : A) (ys : List A) → Perm (insert_sorted lt x ys) (x ∷ ys)
  insert-Perm x [] = Perm.refl _
  insert-Perm x (y ∷ ys) = elim (Bool-cases (lt y x)) [
    | inl less ↦
        rw (insert-past x y ys less) (Perm.trans (Perm.cons y (insert-Perm x ys)) (Perm.swap _ _ _))
    | inr not_less ↦ rw (insert-stop x y ys not_less) (Perm.refl _)
  ]

  pub sort-Perm : (xs : List A) → Perm (sort lt xs) xs
  unfolding sort
  sort-Perm [] = Perm.refl _
  sort-Perm (x ∷ xs) = Perm.trans (insert-Perm x (sort lt xs)) (Perm.cons x (sort-Perm xs))

  -- In front of all that is not less.
  insert-front :
      (x : A) (ys : List A) → All (λ z. lt z x ≡ false) ys → insert_sorted lt x ys ≡ x ∷ ys
  insert-front x [] a = refl
  insert-front x (y ∷ ys) a = insert-stop x y ys a.0

  module _ (p : A → Bool) where
    filter-All : (Q : A → Type 0) (ys : List A) → All Q ys → All Q (filter_by p ys)
    filter-All Q [] a = tt
    filter-All Q (y ∷ ys) a = elim (Bool-cases (p y)) [
      | inl keep ↦ rw (filter_by-keep p y ys keep) (a.0, filter-All Q ys a.1)
      | inr drop ↦ rw (filter_by-drop p y ys drop) (filter-All Q ys a.1)
    ]

    filter-insert-out :
        (x : A) (ys : List A) → p x ≡ false → filter_by p (insert_sorted lt x ys) ≡ filter_by p ys
    filter-insert-out x [] h = filter_by-drop p x [] h
    filter-insert-out x (y ∷ ys) h = ground (arith, filter-insert-out x ys h)

    filter-insert-in :
        (x : A) (ys : List A)
        → p x ≡ true
        → Sorted ys
        → filter_by p (insert_sorted lt x ys) ≡ insert_sorted lt x (filter_by p ys)
    filter-insert-in x [] h s = filter_by-keep p x [] h
    filter-insert-in x (y ∷ ys) h s = elim (Bool-cases (lt y x)) [
      | inl less ↦ rw (insert-past x y ys less) (elim (Bool-cases (p y)) [
        | inl keep ↦
            rw
              (
                filter_by-keep p y (insert_sorted lt x ys) keep,
                filter_by-keep p y ys keep,
                insert-past x y (filter_by p ys) less,
              )
              (ap (◌∷◌ y) (filter-insert-in x ys h s.1))
        | inr drop ↦
            rw (filter_by-drop p y (insert_sorted lt x ys) drop, filter_by-drop p y ys drop)
              (filter-insert-in x ys h s.1)
      ])
      | inr not_less ↦
          let later =
            filter-All (λ z. lt z x ≡ false) (y ∷ ys) (not_less, All-mono x y ys not_less s.0) in
          rw (insert-stop x y ys not_less, filter_by-keep p x (y ∷ ys) h)
            (sym (insert-front x (filter_by p (y ∷ ys)) later))
    ]

    pub filter-sort : (xs : List A) → filter_by p (sort lt xs) ≡ sort lt (filter_by p xs)
    unfolding sort
    filter-sort [] = refl
    filter-sort (x ∷ xs) = elim (Bool-cases (p x)) [
      | inl keep ↦ rw (filter_by-keep p x xs keep) (
          filter-insert-in x (sort lt xs) keep (sort-Sorted xs)
          ∙ ap (insert_sorted lt x) (filter-sort xs))
      | inr drop ↦
          rw (filter_by-drop p x xs drop) (filter-insert-out x (sort lt xs) drop ∙ filter-sort xs)
    ]
