-- ===== src/Crdt/Id.antt =====
-- crdt/CrdtId.ts. The sign of the number that `compareCrdtIds` returns is an `Ordering`; its callers
-- read nothing else of it.
pub mod Key
use syncode.Base.{
  ℕ, compare, Ordering, ◌≡◌, refl, ◌≢◌, ◌↔◌, ◌⊎◌, inl, inr, Bool, true, false, ◌&&◌, Option, none,
  some, arith, JsString, str_eq, str_eq_iff, str_lt, str_lt_irrefl, str_lt_trans, str_lt_total,
  ◌==◌, if◌then◌else◌, units, decimal, ◌++◌, ◌∷◌,
}

pub record CrdtId : Type 0 where
  pub site_id : JsString
  pub counter : ℕ

unfoldable pub compare_crdt_ids : CrdtId → CrdtId → Ordering
compare_crdt_ids a b = elim (compare a.counter b.counter) [
  | Ordering.lt ↦ Ordering.lt
  | Ordering.gt ↦ Ordering.gt
  | Ordering.eq ↦
      if str_lt a.site_id b.site_id
      then Ordering.lt
      else if str_lt b.site_id a.site_id
      then Ordering.gt
      else Ordering.eq
]

-- `compareCrdtIds(a, b) > 0`.
unfoldable pub newer : CrdtId → CrdtId → Bool
unfolding compare_crdt_ids
newer a b = elim (compare_crdt_ids a b) [ Ordering.gt ↦ true | _ ↦ false ]

-- The test of two ids that are not null.
unfoldable pub id_eq : CrdtId → CrdtId → Bool
id_eq a b = (a.counter == b.counter) && str_eq a.site_id b.site_id

unfoldable pub crdt_ids_equal : Option CrdtId → Option CrdtId → Bool
crdt_ids_equal none none = true
crdt_ids_equal none (some b) = false
crdt_ids_equal (some a) none = false
crdt_ids_equal (some a) (some b) = id_eq a b

pub id_ext : (a b : CrdtId) → a.counter ≡ b.counter → a.site_id ≡ b.site_id → a ≡ b
id_ext a b p q = λ i. record { site_id = q i; counter = p i }

pub id_eq_iff : (a b : CrdtId) → (id_eq a b ≡ true) ↔ (a ≡ b)
unfolding id_eq
id_eq_iff a b = (
  λ h. id_ext a b (ground arith) ((str_eq_iff _ _).0 (ground arith)),
  λ e. rw e (ground (arith, str_eq_iff b.site_id b.site_id)),
)

pub id_eq_refl : (a : CrdtId) → id_eq a a ≡ true
id_eq_refl a = (id_eq_iff a a).1 refl

pub newer_irrefl : (a : CrdtId) → newer a a ≡ false
unfolding newer
newer_irrefl a = ground (arith, str_lt_irrefl a.site_id)

pub newer_trans : (a b c : CrdtId) → newer a b ≡ true → newer b c ≡ true → newer a c ≡ true
unfolding newer
newer_trans a b c h k = ground (
  arith,
  str_lt_trans c.site_id b.site_id a.site_id,
  str_lt_trans a.site_id c.site_id a.site_id,
  str_lt_irrefl a.site_id,
  str_lt_trans a.site_id c.site_id b.site_id,
  str_lt_trans a.site_id b.site_id a.site_id,
)

pub newer_asymm : (a b : CrdtId) → newer a b ≡ true → newer b a ≡ false
newer_asymm a b h = ground (arith, newer_trans a b a h, newer_irrefl a)

pub newer_total : (a b : CrdtId) → a ≢ b → (newer a b ≡ true) ⊎ (newer b a ≡ true)
unfolding newer
newer_total a b h = elim (str_lt_total a.site_id b.site_id) [
  | inl e ↦ let ne : a.counter ≢ b.counter = λ p. h (id_ext a b p e) in ground arith
  | inr d ↦ ground (arith, str_lt_trans a.site_id b.site_id a.site_id, str_lt_irrefl a.site_id)
]

-- The key of an id in a map.
unfoldable pub crdt_id_to_string : Option CrdtId → JsString
unfolding decimal
crdt_id_to_string none = units "ROOT"
crdt_id_to_string (some id) = id.site_id ++ 58 ∷ decimal id.counter
