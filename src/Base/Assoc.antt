-- ===== src/Base/Assoc.antt =====
-- `Map<string, V>` as an association list in insertion order.
use mathlib.Core.List.{List, [], ◌∷◌}
use mathlib.Core.Bool.{Bool, true, false, ◌||◌}
use mathlib.Core.Option.{Option, none, some}
use mathlib.Core.Path.{◌≡◌, refl}
use native.Mathlib.Omega.{arith}
use syncode.Base.Tests.{if◌then◌else◌}
use syncode.Base.Text.{JsString, str_eq, str_eq_iff}

abbrev pub Assoc {ℓ} : Type ℓ → Type ℓ
Assoc V = List (JsString × V)

module _ {ℓ} {V : Type ℓ} where
  unfoldable pub get : JsString → Assoc V → Option V
  get k [] = none
  get k ((j, v) ∷ m) = if str_eq j k then some v else get k m

  -- An existing key keeps its place, a new one goes to the end.
  unfoldable pub put : JsString → V → Assoc V → Assoc V
  put k v [] = (k, v) ∷ []
  put k v ((j, w) ∷ m) = if str_eq j k then (j, v) ∷ m else (j, w) ∷ put k v m

  unfoldable pub remove : JsString → Assoc V → Assoc V
  remove k [] = []
  remove k ((j, w) ∷ m) = if str_eq j k then remove k m else (j, w) ∷ remove k m

  unfoldable pub has : JsString → Assoc V → Bool
  has k [] = false
  has k ((j, v) ∷ m) = str_eq j k || has k m

  pub get-put :
      (k j : JsString) (v : V) (m : Assoc V)
      → get j (put k v m) ≡ (if str_eq k j then some v else get j m)
  unfolding get put
  get-put k j v [] = refl
  get-put k j v ((i, w) ∷ m) =
      ground (arith, str_eq_iff k j, str_eq_iff i k, str_eq_iff i j, get-put k j v m)

  pub get-remove :
      (k j : JsString) (m : Assoc V) → get j (remove k m) ≡ (if str_eq k j then none else get j m)
  unfolding get remove
  get-remove k j [] = ground arith
  get-remove k j ((i, w) ∷ m) =
      ground (arith, str_eq_iff k j, str_eq_iff i k, str_eq_iff i j, get-remove k j m)

  pub has-get :
      (k : JsString) (m : Assoc V) → has k m ≡ elim (get k m) [ none ↦ false | some _ ↦ true ]
  unfolding has get
  has-get k [] = refl
  has-get k ((j, v) ∷ m) = ground (arith, has-get k m)

module _ {ℓ} {V : Type ℓ} where
  abbrev pub keys : Assoc V → List JsString
  keys [] = []
  keys ((k, v) ∷ m) = k ∷ keys m

  abbrev pub values : Assoc V → List V
  values [] = []
  values ((k, v) ∷ m) = v ∷ values m

-- `includes` of an array, `has` of a set.
unfoldable pub includes : JsString → List JsString → Bool
includes k [] = false
includes k (x ∷ xs) = str_eq x k || includes k xs
