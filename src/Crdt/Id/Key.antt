-- ===== src/Crdt/Id/Key.antt =====
-- The key of an id names the id: a decimal holds no colon, and it can be read back.
use syncode.Base.{
  ℕ, zero, suc, ◌+◌, ◌-◌, ◌*◌, ◌/◌, ◌%◌, ◌<◌, ◌≡◌, ◌≢◌, refl, sym, ap, subst, ◌∙◌, some, [], ◌∷◌,
  ◌++◌, arith, JsString, decimal_digits, ltb, All, All-append, inl, inr, Bool-cases,
}
use syncode.Crdt.Id.{CrdtId, crdt_id_to_string, id_ext}

read_from : ℕ → JsString → ℕ
read_from v [] = v
read_from v (c ∷ s) = read_from (v * 10 + (c - 48)) s

read_from-snoc :
    (v : ℕ) (s : JsString) (c : ℕ) → read_from v (s ++ c ∷ []) ≡ read_from v s * 10 + (c - 48)
unfolding read_from
read_from-snoc v [] c = refl
read_from-snoc v (d ∷ s) c = read_from-snoc (v * 10 + (d - 48)) s c

read_from-decimal_digits : (f n : ℕ) → n < f → read_from 0 (decimal_digits f n) ≡ n
unfolding decimal_digits read_from
read_from-decimal_digits zero n h = elim h [ ]
read_from-decimal_digits (suc f) n h = elim (Bool-cases (ltb n 10)) [
  | inl small ↦ rw small (ground arith)
  | inr large ↦ rw large (
      read_from-snoc 0 (decimal_digits f (n / 10)) (48 + n % 10)
      ∙ ground (arith, read_from-decimal_digits f (n / 10)))
]

abbrev NoColon : JsString → Type 0
NoColon s = All (λ c. c ≢ 58) s

decimal_digits-NoColon : (f n : ℕ) → NoColon (decimal_digits f n)
unfolding decimal_digits
decimal_digits-NoColon zero n = tt
decimal_digits-NoColon (suc f) n = elim (Bool-cases (ltb n 10)) [
  | inl small ↦ rw small ((λ e. ground arith), tt)
  | inr large ↦ rw large (
      All-append _ (decimal_digits f (n / 10)) ((48 + n % 10) ∷ [])
        (decimal_digits-NoColon f (n / 10)) ((λ e. ground arith), tt))
]

NoColon-at : (s t : JsString) → NoColon (s ++ 58 ∷ t) → ⊥
NoColon-at [] t h = h.0 refl
NoColon-at (c ∷ s) t h = NoColon-at s t h.1

-- The last colon splits a key in one way.
split_key :
    (s t ds es : JsString)
    → NoColon ds
    → NoColon es
    → s ++ 58 ∷ ds ≡ t ++ 58 ∷ es
    → (s ≡ t) × (ds ≡ es)
split_key [] [] ds es p q h = (refl, cc)
split_key [] (y ∷ t) ds es p q h = absurd (NoColon-at t es (subst NoColon (cc) p))
split_key (x ∷ s) [] ds es p q h = absurd (NoColon-at s ds (subst NoColon (cc) q))
split_key (x ∷ s) (y ∷ t) ds es p q h =
    let (same, rest) = split_key s t ds es p q (cc) in (cc, rest)

-- Two ids with the same key are the same id.
pub crdt_id_to_string-injective :
    (a b : CrdtId) → crdt_id_to_string (some a) ≡ crdt_id_to_string (some b) → a ≡ b
unfolding crdt_id_to_string
crdt_id_to_string-injective a b h =
    let (site, digits) =
      split_key a.site_id b.site_id _ _ (decimal_digits-NoColon (suc a.counter) a.counter)
        (decimal_digits-NoColon (suc b.counter) b.counter) h in
    id_ext a b
      (sym (read_from-decimal_digits (suc a.counter) a.counter (omega arith))
        ∙ ap (read_from 0) digits
        ∙ read_from-decimal_digits (suc b.counter) b.counter (omega arith))
      site
