-- ===== src/Crdt/Tree/Visible/Walks.antt =====
-- The walks up the tree have enough fuel: each round meets a key that it has not met before.
use syncode.Base.{
  ℕ, zero, suc, ◌+◌, ◌≤◌, ◌<◌, ◌≡◌, refl, ap, ◌∙◌, inl, inr, Bool, true, false, ◌||◌, Option, none,
  some, List, [], ◌∷◌, ◌++◌, arith, JsString, str_eq, str_eq_iff, str_eq_refl, if◌then◌else◌,
  Bool-cases, length,
}
use syncode.Base.Assoc.{Assoc, get, has, includes}
use syncode.Crdt.Id.{CrdtId}
use syncode.Crdt.Tree.Registers.{EntryRegister}
use syncode.Crdt.Tree.Visible.{parent_of, below_deleted, follow, walk_fuel}

abbrev pub is_some : {A : Type 0} → Option A → Bool
is_some none = false
is_some (some a) = true

-- The entries of the map that a walk has not met.
abbrev unmet : List JsString → Assoc (Option JsString) → ℕ
unmet seen [] = 0
unmet seen ((k, p) ∷ m) = (if includes k seen then 0 else 1) + unmet seen m

unmet_le : (seen : List JsString) (m : Assoc (Option JsString)) → unmet seen m ≤ length m
unmet_le seen [] = omega arith
unmet_le seen ((k, p) ∷ m) = ground (arith, unmet_le seen m)

-- `wider` has met all that `seen` has.
module _ (seen wider : List JsString)
    (more : (k : JsString) → includes k seen ≡ true → includes k wider ≡ true) where
  unmet-more : (m : Assoc (Option JsString)) → unmet wider m ≤ unmet seen m
  unmet-more [] = omega arith
  unmet-more ((k, p) ∷ m) = ground (arith, more k, unmet-more m)

  unmet-new :
      (c : JsString) (m : Assoc (Option JsString))
      → includes c seen ≡ false
      → includes c wider ≡ true
      → has c m ≡ true
      → unmet wider m < unmet seen m
  unfolding has
  unmet-new c [] s w h = ground arith
  unmet-new c ((k, p) ∷ m) s w h = elim (Bool-cases (str_eq k c)) [
    | inl same ↦
        let e = (str_eq_iff k c).0 same in
        ground (arith, ap (λ z. includes z seen) e, ap (λ z. includes z wider) e, unmet-more m)
    | inr other ↦ ground (arith, more k, unmet-new c m)
  ]

includes-snoc :
    (k c : JsString) (xs : List JsString)
    → includes k (xs ++ c ∷ []) ≡ (includes k xs || str_eq c k)
unfolding includes
includes-snoc k c [] = ground arith
includes-snoc k c (x ∷ xs) = ground (arith, includes-snoc k c xs)

wider_snoc :
    (c : JsString) (xs : List JsString) (k : JsString)
    → includes k xs ≡ true
    → includes k (xs ++ c ∷ []) ≡ true
wider_snoc c xs k h = ground (arith, includes-snoc k c xs)

wider_cons :
    (c : JsString) (xs : List JsString) (k : JsString)
    → includes k xs ≡ true
    → includes k (c ∷ xs) ≡ true
unfolding includes
wider_cons c xs k h = ground arith

wider_cons_new : (c : JsString) (xs : List JsString) → includes c (c ∷ xs) ≡ true
unfolding includes
wider_cons_new c xs = ground (arith, str_eq_refl c)

parent_of-unknown :
    (k : JsString) (m : Assoc (Option JsString)) → has k m ≡ false → parent_of m k ≡ none
unfolding parent_of has get
parent_of-unknown k [] h = refl
parent_of-unknown k ((j, p) ∷ m) h = ground (arith, parent_of-unknown k m)

below_deleted_top :
    (fuel : ℕ) (parents : Assoc (Option JsString)) (deleted : Assoc (EntryRegister (Unit {0})))
    (visited : List JsString)
    → 0 < fuel
    → below_deleted fuel parents deleted visited none ≡ some false
unfolding below_deleted
below_deleted_top zero parents deleted visited lt = absurd (omega arith)
below_deleted_top (suc fuel) parents deleted visited lt = refl

follow_ends :
    (fuel : ℕ) (parents : Assoc (Option JsString)) (versions : Assoc CrdtId)
    (complete path : List JsString) (current : Option JsString)
    → unmet path parents < fuel
    → is_some (follow fuel parents versions complete path current) ≡ true
unfolding follow
follow_ends zero parents versions complete path current lt = absurd (omega arith)
follow_ends (suc fuel) parents versions complete path none lt = refl
follow_ends (suc fuel) parents versions complete path (some c) lt =
    elim (Bool-cases (has c parents)) [
      | inl known ↦ elim (Bool-cases (includes c path)) [
        | inl met ↦ ground arith
        | inr new ↦
            let wider = path ++ c ∷ [] in
            let fewer =
              unmet-new path wider (wider_snoc c path) c parents new
                (includes-snoc c c path ∙ ground (arith, str_eq_refl c)) known in
            ground (
              arith,
              follow_ends fuel parents versions complete wider (parent_of parents c)
                  (omega (arith, fewer, lt)),
            )
      ]
      | inr unknown ↦ ground arith
    ]

below_deleted_ends :
    (fuel : ℕ) (parents : Assoc (Option JsString)) (deleted : Assoc (EntryRegister (Unit {0})))
    (visited : List JsString) (p : Option JsString)
    → suc (unmet visited parents) < fuel
    → is_some (below_deleted fuel parents deleted visited p) ≡ true
unfolding below_deleted
below_deleted_ends zero parents deleted visited p lt = absurd (omega arith)
below_deleted_ends (suc fuel) parents deleted visited none lt = refl
below_deleted_ends (suc fuel) parents deleted visited (some p) lt =
    elim (Bool-cases (includes p visited)) [
      | inl met ↦ ground arith
      | inr new ↦ elim (Bool-cases (has p parents)) [
        | inl known ↦
            let fewer =
              unmet-new visited (p ∷ visited) (wider_cons p visited) p parents new
                (wider_cons_new p visited) known in
            ground (
              arith,
              below_deleted_ends fuel parents deleted (p ∷ visited) (parent_of parents p)
                  (omega (arith, fewer, lt)),
            )
        | inr unknown ↦ ground (
          arith,
          below_deleted_top fuel parents deleted (p ∷ visited) (omega (arith, lt)),
          parent_of-unknown p parents unknown,
        )
      ]
    ]

-- Both walks of the visible tree come to an end on every map of parents.
pub walk_fuel_lem :
    (parents : Assoc (Option JsString)) (deleted : Assoc (EntryRegister (Unit {0})))
    (versions : Assoc CrdtId) (complete visited : List JsString) (start : Option JsString)
    → (is_some (below_deleted (walk_fuel parents) parents deleted visited start) ≡ true)
      × (is_some (follow (walk_fuel parents) parents versions complete [] start) ≡ true)
walk_fuel_lem parents deleted versions complete visited start = (
  below_deleted_ends (walk_fuel parents) parents deleted visited start
      (omega (arith, unmet_le visited parents)),
  follow_ends (walk_fuel parents) parents versions complete [] start
      (omega (arith, unmet_le [] parents)),
)
