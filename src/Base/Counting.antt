-- ===== src/Base/Counting.antt =====
-- How often a text stands in a list.
use Prim.Native.Nat.{ℕ, suc, ◌+◌}
use mathlib.Core.Path.{◌≡◌, refl}
use mathlib.Core.Logic.{inl, inr}
use mathlib.Core.Bool.{Bool}
use mathlib.Core.List.{List, [], ◌∷◌, ◌++◌}
use native.Mathlib.Omega.{arith}
use syncode.Base.Tests.{ltb, Bool-cases, if◌then◌else◌}
use syncode.Base.Text.{JsString, str_eq, str_eq_iff}
use syncode.Base.Lists.{filter_by}
use syncode.Base.Assoc.{includes}

abbrev pub times : JsString → List JsString → ℕ
times x [] = 0
times x (y ∷ ys) = let rest = times x ys in if str_eq y x then suc rest else rest

pub times-append :
    (x : JsString) (xs ys : List JsString) → times x (xs ++ ys) ≡ times x xs + times x ys
times-append x [] ys = omega arith
times-append x (y ∷ xs) ys = ground (arith, times-append x xs ys)

pub times-filter_by :
    (x : JsString) (p : JsString → Bool) (xs : List JsString)
    → times x (filter_by p xs) ≡ (if p x then times x xs else 0)
times-filter_by x p [] = ground arith
times-filter_by x p (y ∷ ys) = elim (Bool-cases (str_eq y x)) [
  | inl same ↦ rw ((str_eq_iff y x).0 same) ground (arith, times-filter_by x p ys)
  | inr other ↦ ground (arith, times-filter_by x p ys)
]

pub includes_lem : (x : JsString) (xs : List JsString) → includes x xs ≡ ltb 0 (times x xs)
unfolding includes
includes_lem x [] = refl
includes_lem x (y ∷ ys) = ground (arith, includes_lem x ys)

pub times-snoc : (x y : JsString) (xs : List JsString) → times x (xs ++ y ∷ []) ≡ times x (y ∷ xs)
times-snoc x y xs = ground (arith, times-append x xs (y ∷ []))
