-- ===== src/Base/Lists.antt =====
-- Lists measured and indexed by native numbers, Boolean membership, and predicates by recursion.
use Prim.Native.Nat.{ℕ, zero, suc, ◌+◌, ◌≤◌, ◌<◌}
use mathlib.Core.Path.{◌≡◌, refl, sym, ap, ◌∙◌}
use mathlib.Core.Bool.{Bool, true, false, ◌||◌}
use mathlib.Core.Option.{Option, none, some}
use mathlib.Core.List.{List, [], ◌∷◌, ◌++◌, append_assoc}
use native.Mathlib.Omega.{arith}

module _ {ℓ} {A : Type ℓ} where
  abbrev pub length : List A → ℕ
  length [] = 0
  length (x ∷ xs) = suc (length xs)

  abbrev pub get_elem? : List A → ℕ → Option A
  get_elem? [] i = none
  get_elem? (x ∷ xs) zero = some x
  get_elem? (x ∷ xs) (suc i) = get_elem? xs i

  abbrev pub take : ℕ → List A → List A
  take zero xs = []
  take (suc n) [] = []
  take (suc n) (x ∷ xs) = x ∷ take n xs

  abbrev pub drop : ℕ → List A → List A
  drop zero xs = xs
  drop (suc n) [] = []
  drop (suc n) (x ∷ xs) = drop n xs

  -- `splice(i, 0, v)`; a position past the end appends.
  abbrev pub insert_at : ℕ → A → List A → List A
  insert_at zero v xs = v ∷ xs
  insert_at (suc i) v [] = v ∷ []
  insert_at (suc i) v (x ∷ xs) = x ∷ insert_at i v xs

  -- `some` and `every` of an array.
  abbrev pub any : (A → Bool) → List A → Bool
  any p [] = false
  any p (x ∷ xs) = p x || any p xs

  abbrev pub filter_by : (A → Bool) → List A → List A
  filter_by p [] = []
  filter_by p (x ∷ xs) = elim (p x) [ true ↦ x ∷ filter_by p xs | false ↦ filter_by p xs ]

  pub filter_by-keep :
      (p : A → Bool) (x : A) (xs : List A) → p x ≡ true → filter_by p (x ∷ xs) ≡ x ∷ filter_by p xs
  filter_by-keep p x xs h = ground arith

  pub filter_by-drop :
      (p : A → Bool) (x : A) (xs : List A) → p x ≡ false → filter_by p (x ∷ xs) ≡ filter_by p xs
  filter_by-drop p x xs h = ground arith

  pub length-append : (xs ys : List A) → length (xs ++ ys) ≡ length xs + length ys
  length-append [] ys = omega arith
  length-append (x ∷ xs) ys = omega (arith, length-append xs ys)

  pub snoc : (xs ys : List A) (x : A) → (xs ++ x ∷ []) ++ ys ≡ xs ++ x ∷ ys
  snoc xs ys x = append_assoc xs (x ∷ []) ys

  pub length-snoc : (xs : List A) (x : A) → length (xs ++ x ∷ []) ≡ suc (length xs)
  length-snoc xs x = omega (arith, length-append xs (x ∷ []))

  pub drop-length : (xs ys : List A) → drop (length xs) (xs ++ ys) ≡ ys
  drop-length [] ys = refl
  drop-length (x ∷ xs) ys = drop-length xs ys

  pub insert_at-append :
      (xs ys : List A) (v : A) → insert_at (length xs) v (xs ++ ys) ≡ xs ++ v ∷ ys
  insert_at-append [] ys v = refl
  insert_at-append (x ∷ xs) ys v = ap (◌∷◌ x) (insert_at-append xs ys v)

  pub get_elem?-none : (xs : List A) (i : ℕ) → get_elem? xs i ≡ none → length xs ≤ i
  get_elem?-none [] i h = omega arith
  get_elem?-none (x ∷ xs) zero h = ground arith
  get_elem?-none (x ∷ xs) (suc i) h = omega (arith, get_elem?-none xs i h)

  pub get_elem?-some : (xs : List A) (i : ℕ) (x : A) → get_elem? xs i ≡ some x → i < length xs
  get_elem?-some [] i x h = ground arith
  get_elem?-some (y ∷ xs) zero x h = omega arith
  get_elem?-some (y ∷ xs) (suc i) x h = omega (arith, get_elem?-some xs i x h)

  pub drop-all : (xs : List A) (i : ℕ) → i ≡ length xs → drop i xs ≡ []
  drop-all [] zero h = refl
  drop-all [] (suc i) h = refl
  drop-all (x ∷ xs) zero h = ground arith
  drop-all (x ∷ xs) (suc i) h = drop-all xs i (omega (arith, h))

  pub take-drop : (i : ℕ) (xs : List A) → xs ≡ take i xs ++ drop i xs
  take-drop zero xs = refl
  take-drop (suc i) [] = refl
  take-drop (suc i) (x ∷ xs) = ap (◌∷◌ x) (take-drop i xs)

  drop-nil : (i : ℕ) → drop i [] ≡ []
  drop-nil zero = refl
  drop-nil (suc i) = refl

  pub drop-drop : (i p : ℕ) (xs : List A) → drop i (drop p xs) ≡ drop (p + i) xs
  drop-drop i zero xs = ap (λ k. drop k xs) (omega arith)
  drop-drop i (suc p) [] = drop-nil i ∙ sym (drop-nil (suc p + i))
  drop-drop i (suc p) (x ∷ xs) =
      let e : suc p + i ≡ suc (p + i) = omega arith in
      drop-drop i p xs ∙ ap (λ k. drop k (x ∷ xs)) (sym e)

  pub length-insert_at : (i : ℕ) (v : A) (xs : List A) → length (insert_at i v xs) ≡ suc (length xs)
  length-insert_at zero v xs = refl
  length-insert_at (suc i) v [] = refl
  length-insert_at (suc i) v (x ∷ xs) = ap suc (length-insert_at i v xs)

module _ {ℓ κ} {A : Type ℓ} where
  -- `every` as a proposition.
  abbrev pub All : (A → Type κ) → List A → Type κ
  All Q [] = Unit
  All Q (first ∷ rest) = Q first × All Q rest

  module _ (Q : A → Type κ) where
    pub All-append : (l r : List A) → All Q l → All Q r → All Q (l ++ r)
    All-append [] r p q = q
    All-append (z ∷ l) r p q = (p.0, All-append l r p.1 q)

    pub All-append_left : (l r : List A) → All Q (l ++ r) → All Q l
    All-append_left [] r p = tt
    All-append_left (z ∷ l) r p = (p.0, All-append_left l r p.1)

    pub All-append_right : (l r : List A) → All Q (l ++ r) → All Q r
    All-append_right [] r p = p
    All-append_right (z ∷ l) r p = All-append_right l r p.1

module _ {ℓ} {A : Type ℓ} where
  -- The stable `sort` by a comparison, `lt a b` for a negative one.
  abbrev pub insert_sorted : (A → A → Bool) → A → List A → List A
  insert_sorted lt x [] = x ∷ []
  insert_sorted lt x (y ∷ ys) =
      let rest = insert_sorted lt x ys in elim (lt y x) [ true ↦ y ∷ rest | false ↦ x ∷ y ∷ ys ]

  unfoldable pub sort : (A → A → Bool) → List A → List A
  sort lt [] = []
  sort lt (x ∷ xs) = insert_sorted lt x (sort lt xs)
