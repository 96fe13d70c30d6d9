-- ===== src/Provider/Replace/Lengths.antt =====
-- The common prefix and suffix of a text and its replacement.
use mathlib.Core.List.{map}
use syncode.Base.{
  ℕ, zero, suc, ◌+◌, ◌-◌, ◌≤◌, min, ◌≡◌, refl, sym, ap, ◌∙◌, inl, inr, Bool-cases, some,
  Option-cases, List, [], ◌∷◌, ◌++◌, arith, JsString, str_eq, str_eq_iff, length, get_elem?, take,
  drop, drop-all, take-drop, drop-drop,
}
use syncode.Crdt.Document.{CrdtChar}
use syncode.Provider.Replace.{common_prefix_length, suffix_from, common_suffix_length, slice}

abbrev pub values_of : List CrdtChar → List JsString
values_of cs = map (λ (c : CrdtChar). c.value) cs

pub length-values_of : (cs : List CrdtChar) → length (values_of cs) ≡ length cs
length-values_of [] = refl
length-values_of (c ∷ cs) = ap suc (length-values_of cs)

pub common_prefix_length_lem :
    (cs : List CrdtChar) (ss : List JsString)
    → let p = common_prefix_length cs ss in
      (p ≤ length cs) × (p ≤ length ss) × (values_of (take p cs) ≡ take p ss)
unfolding common_prefix_length
common_prefix_length_lem [] ss = (omega arith, omega arith, refl)
common_prefix_length_lem (c ∷ cs) [] = (omega arith, omega arith, refl)
common_prefix_length_lem (c ∷ cs) (s ∷ ss) =
    let (a, b, e) = common_prefix_length_lem cs ss in
    elim (Bool-cases (str_eq c.value s)) [
      | inl same ↦ rw same (omega arith, omega arith, cc (e, (str_eq_iff c.value s).0 same))
      | inr other ↦ rw other (omega arith, omega arith, refl)
    ]

-- What stands at an index in front of a rest.
module _ {ℓ} {A : Type ℓ} where
  drop-get_elem? :
      (xs : List A) (i : ℕ) (x : A) → get_elem? xs i ≡ some x → drop i xs ≡ x ∷ drop (suc i) xs
  drop-get_elem? [] i x h = ground arith
  drop-get_elem? (y ∷ ys) zero x h = ground arith
  drop-get_elem? (y ∷ ys) (suc i) x h = drop-get_elem? ys i x h

  pub split_slice :
      (xs : List A) (p s : ℕ)
      → p + s ≤ length xs
      → xs ≡ take p xs ++ (slice p (length xs - s) xs ++ drop (length xs - s) xs)
  split_slice xs p s h =
      let n = length xs in
      let e : n - s ≡ p + (n - s - p) = omega (arith, h) in
      take-drop p xs
      ∙ ap (λ z. take p xs ++ z)
          (take-drop (n - s - p) (drop p xs)
            ∙ ap (λ z. take (n - s - p) (drop p xs) ++ z)
                (drop-drop (n - s - p) p xs ∙ ap (λ i. drop i xs) (sym e)))

-- The last `len` values agree.
abbrev Agrees : ℕ → List CrdtChar → List JsString → Type 0
Agrees len cs ss = values_of (drop (length cs - len) cs) ≡ drop (length ss - len) ss

suffix_from_lem :
    (rounds : ℕ) (cs : List CrdtChar) (ss : List JsString) (len : ℕ)
    → rounds + len ≤ length cs
    → rounds + len ≤ length ss
    → Agrees len cs ss
    → let r = suffix_from rounds cs ss len in (r ≤ rounds + len) × Agrees r cs ss
unfolding suffix_from
suffix_from_lem zero cs ss len h k a = (omega arith, a)
suffix_from_lem (suc rounds) cs ss len h k a =
    let i = length cs - len - 1 in
    let j = length ss - len - 1 in
    let stop : (len ≤ suc rounds + len) × Agrees len cs ss = (omega arith, a) in
    elim (Option-cases (get_elem? cs i)) [
      | inl none_left ↦ rw none_left stop
      | inr (c, found) ↦ elim (Option-cases (get_elem? ss j)) [
        | inl none_left ↦ rw (found, none_left) stop
        | inr (s, found') ↦ elim (Bool-cases (str_eq c.value s)) [
          | inl same ↦
              let (le, agrees) =
                suffix_from_lem rounds cs ss (suc len) (omega (arith, h)) (omega (arith, k))
                  (longer c s found found' ((str_eq_iff c.value s).0 same)) in
              rw (found, found', same) (omega (arith, le), agrees)
          | inr other ↦ rw (found, found', other) stop
        ]
      ]
    ]
  where
    longer :
        (c : CrdtChar) (s : JsString)
        → get_elem? cs (length cs - len - 1) ≡ some c
        → get_elem? ss (length ss - len - 1) ≡ some s
        → c.value ≡ s
        → Agrees (suc len) cs ss
    longer c s f g e =
        let i : length cs - suc len ≡ length cs - len - 1 = omega arith in
        let j : length ss - suc len ≡ length ss - len - 1 = omega arith in
        let i' : suc (length cs - len - 1) ≡ length cs - len = omega (arith, h) in
        let j' : suc (length ss - len - 1) ≡ length ss - len = omega (arith, k) in
        let left = ap (λ n. drop n cs) i ∙ drop-get_elem? cs _ c f ∙ ap (λ n. c ∷ drop n cs) i' in
        let right = ap (λ n. drop n ss) j ∙ drop-get_elem? ss _ s g ∙ ap (λ n. s ∷ drop n ss) j' in
        let middle : c.value ∷ values_of (drop (length cs - len) cs)
            ≡ s ∷ drop (length ss - len) ss =
          cc (e, a) in
        ap values_of left ∙ middle ∙ sym right

pub common_suffix_length_lem :
    (cs : List CrdtChar) (ss : List JsString) (p : ℕ)
    → p ≤ length cs
    → p ≤ length ss
    → let r = common_suffix_length cs ss p in
      (p + r ≤ length cs)
      × (p + r ≤ length ss)
      × (values_of (drop (length cs - r) cs) ≡ drop (length ss - r) ss)
unfolding common_suffix_length
common_suffix_length_lem cs ss p h k =
    let rounds = min (length cs - p) (length ss - p) in
    let begin : Agrees 0 cs ss =
      rw (drop-all cs (length cs - 0) (omega arith), drop-all ss (length ss - 0) (omega arith))
        refl in
    let (le, agrees) = suffix_from_lem rounds cs ss 0 (omega arith) (omega arith) begin in
    (omega (arith, le, h, k), omega (arith, le, h, k), agrees)
