-- ===== src/Base/Text.antt =====
-- A JavaScript string is the list of its UTF-16 code units; `<` on strings compares these.
use Prim.Native.Nat.{ℕ, zero, suc, ◌+◌, ◌/◌, ◌%◌}
use Prim.Native.Char.{code}
use Prim.Native.String.{String}
use mathlib.Core.Path.{◌≡◌, refl, ap₂}
use mathlib.Core.Logic.{◌↔◌, ◌⊎◌, inl, inr}
use mathlib.Core.Bool.{Bool, true, false, ◌&&◌, ◌||◌}
use mathlib.Core.List.{List, [], ◌∷◌, ◌++◌}
use native.Mathlib.Omega.{arith}
use syncode.Base.Tests.{ltb, leb, ◌==◌, if◌then◌else◌}

abbrev pub JsString : Type 0
JsString = List ℕ

-- The code units of a text in the basic plane, such as a literal of the source.
abbrev pub units : String → JsString
units String.[] = []
units (String.◌∷◌ c s) = code c ∷ units s

unfoldable pub str_eq : JsString → JsString → Bool
str_eq [] [] = true
str_eq [] (y ∷ ys) = false
str_eq (x ∷ xs) [] = false
str_eq (x ∷ xs) (y ∷ ys) = (x == y) && str_eq xs ys

pub str_eq_refl : (s : JsString) → str_eq s s ≡ true
unfolding str_eq
str_eq_refl [] = refl
str_eq_refl (x ∷ xs) = ground (arith, str_eq_refl xs)

pub eq_of_str_eq : (s t : JsString) → str_eq s t ≡ true → s ≡ t
unfolding str_eq
eq_of_str_eq [] [] h = refl
eq_of_str_eq [] (y ∷ ys) h = cc
eq_of_str_eq (x ∷ xs) [] h = cc
eq_of_str_eq (x ∷ xs) (y ∷ ys) h = ap₂ ◌∷◌ (ground arith) (eq_of_str_eq xs ys (ground arith))

pub str_eq_iff : (s t : JsString) → (str_eq s t ≡ true) ↔ (s ≡ t)
str_eq_iff s t = (eq_of_str_eq s t, λ e. rw e (str_eq_refl t))

-- `s < t`.
unfoldable pub str_lt : JsString → JsString → Bool
str_lt [] [] = false
str_lt [] (y ∷ ys) = true
str_lt (x ∷ xs) [] = false
str_lt (x ∷ xs) (y ∷ ys) =
    let rest = str_lt xs ys in if ltb x y then true else if ltb y x then false else rest

pub str_lt_irrefl : (s : JsString) → str_lt s s ≡ false
unfolding str_lt
str_lt_irrefl [] = refl
str_lt_irrefl (x ∷ xs) = ground (arith, str_lt_irrefl xs)

pub str_lt_trans : (s t u : JsString) → str_lt s t ≡ true → str_lt t u ≡ true → str_lt s u ≡ true
unfolding str_lt
str_lt_trans [] [] u h k = cc
str_lt_trans [] (y ∷ ys) [] h k = cc
str_lt_trans [] (y ∷ ys) (z ∷ zs) h k = refl
str_lt_trans (x ∷ xs) [] u h k = cc
str_lt_trans (x ∷ xs) (y ∷ ys) [] h k = cc
str_lt_trans (x ∷ xs) (y ∷ ys) (z ∷ zs) h k = ground (arith, str_lt_trans xs ys zs)

pub str_lt_total : (s t : JsString) → (s ≡ t) ⊎ ((str_lt s t ≡ true) ⊎ (str_lt t s ≡ true))
unfolding str_lt
str_lt_total [] [] = inl refl
str_lt_total [] (y ∷ ys) = inr (inl refl)
str_lt_total (x ∷ xs) [] = inr (inr refl)
str_lt_total (x ∷ xs) (y ∷ ys) = ground (arith, str_lt_total xs ys)

-- What `trim` removes: white space and line ends.
abbrev pub is_space : ℕ → Bool
is_space c =
    (leb 9 c && leb c 13)
    || c == 32
    || c == 0xa0
    || c == 0x1680
    || (leb 0x2000 c && leb c 0x200a)
    || c == 0x2028
    || c == 0x2029
    || c == 0x202f
    || c == 0x205f
    || c == 0x3000
    || c == 0xfeff

unfoldable pub trim_start : JsString → JsString
trim_start [] = []
trim_start (c ∷ s) = elim (is_space c) [ true ↦ trim_start s | false ↦ c ∷ s ]

abbrev all_space : JsString → Bool
all_space [] = true
all_space (c ∷ s) = is_space c && all_space s

unfoldable pub trim_end : JsString → JsString
trim_end [] = []
trim_end (c ∷ s) = if all_space (c ∷ s) then [] else c ∷ trim_end s

unfoldable pub trim : JsString → JsString
unfolding trim_start trim_end
trim s = trim_end (trim_start s)

-- The text of a natural number in decimal; `f` bounds the digits.
unfoldable pub decimal_digits : ℕ → ℕ → JsString
decimal_digits zero n = []
decimal_digits (suc f) n =
    let higher = decimal_digits f (n / 10) in
    if ltb n 10 then (48 + n) ∷ [] else higher ++ (48 + n % 10) ∷ []

unfoldable pub decimal : ℕ → JsString
unfolding decimal_digits
decimal n = decimal_digits (suc n) n
