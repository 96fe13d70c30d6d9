-- ===== src/Crdt/Offline/Listed.antt =====
-- About the list of a room without one of its operations, in client/src/crdt/offlineTextOpQueue.ts.
use syncode.Base.{
  ℕ, suc, ◌≤◌, ◌≡◌, refl, sym, ap, subst, ◌∙◌, inl, inr, Bool, true, false, not, Bool-cases, List,
  [], ◌∷◌, ◌++◌, arith, JsString, str_eq, str_eq_iff, str_eq_refl, str_lt_irrefl, str_lt_trans,
  str_lt_total, if◌then◌else◌, filter_by, filter_by-drop, insert_sorted, sort,
}
use syncode.Base.Assoc.{remove, values, has}
use syncode.Base.Sorting.{filter-sort}
use syncode.Crdt.Pending.Waiting.{UniqueKeys}
use syncode.Crdt.Offline.{QueuedTextOp, Store, before, list_offline_text_ops}

pub before_asym : (x y : QueuedTextOp) → before y x ≡ true → before x y ≡ false
unfolding before
before_asym x y h = ground (
  arith,
  str_eq_iff x.file_id y.file_id,
  str_eq_iff y.file_id x.file_id,
  str_lt_trans x.file_id y.file_id x.file_id,
  str_lt_irrefl x.file_id,
)

pub before_trans :
    (x y z : QueuedTextOp) → before y x ≡ false → before z y ≡ false → before z x ≡ false
unfolding before
before_trans x y z h k = ground (
  arith,
  str_eq_iff x.file_id y.file_id,
  str_eq_iff y.file_id x.file_id,
  str_eq_iff y.file_id z.file_id,
  str_eq_iff z.file_id y.file_id,
  str_eq_iff z.file_id x.file_id,
  str_lt_total x.file_id y.file_id,
  str_lt_total y.file_id z.file_id,
  str_lt_trans x.file_id y.file_id z.file_id,
  str_lt_trans z.file_id x.file_id y.file_id,
  str_lt_irrefl x.file_id,
  str_lt_irrefl y.file_id,
)

-- Every operation stands under its own key.
abbrev pub KeysMatch : Store → Type 0
KeysMatch [] = Unit
KeysMatch ((k, q) ∷ m) = (k ≡ q.key) × KeysMatch m

abbrev key_count : JsString → List QueuedTextOp → ℕ
key_count k [] = 0
key_count k (q ∷ qs) = let rest = key_count k qs in if str_eq q.key k then suc rest else rest

abbrev has_other_key : JsString → QueuedTextOp → Bool
has_other_key k q = not (str_eq q.key k)

values-remove :
    (k : JsString) (m : Store)
    → KeysMatch m
    → values (remove k m) ≡ filter_by (has_other_key k) (values m)
unfolding remove
values-remove k [] h = refl
values-remove k ((j, q) ∷ m) h =
    ground (arith, values-remove k m, h.0, str_eq_iff j k, str_eq_iff q.key k)

filter-filter :
    (p r : QueuedTextOp → Bool) (xs : List QueuedTextOp)
    → filter_by p (filter_by r xs) ≡ filter_by r (filter_by p xs)
filter-filter p r [] = refl
filter-filter p r (x ∷ xs) = ground (arith, filter-filter p r xs)

-- The list without an operation is the rest of the list.
list-remove :
    (room_id k : JsString) (m : Store)
    → KeysMatch m
    → list_offline_text_ops room_id (remove k m)
      ≡ filter_by (has_other_key k) (list_offline_text_ops room_id m)
unfolding list_offline_text_ops
list-remove room_id k m h =
    let is_here = λ (q : QueuedTextOp). str_eq q.room_id room_id in
    ap (λ xs. sort before (filter_by is_here xs)) (values-remove k m h)
    ∙ ap (sort before) (filter-filter is_here (has_other_key k) (values m))
    ∙ sym (
        filter-sort before before_asym before_trans (has_other_key k)
          (filter_by is_here (values m)))

key_count-filter :
    (k : JsString) (p : QueuedTextOp → Bool) (xs : List QueuedTextOp)
    → key_count k (filter_by p xs) ≤ key_count k xs
key_count-filter k p [] = omega arith
key_count-filter k p (x ∷ xs) = ground (arith, key_count-filter k p xs)

key_count-insert :
    (k : JsString) (x : QueuedTextOp) (ys : List QueuedTextOp)
    → key_count k (insert_sorted before x ys) ≡ key_count k (x ∷ ys)
key_count-insert k x [] = refl
key_count-insert k x (y ∷ ys) = ground (arith, key_count-insert k x ys)

key_count-sort :
    (k : JsString) (xs : List QueuedTextOp) → key_count k (sort before xs) ≡ key_count k xs
unfolding sort
key_count-sort k [] = refl
key_count-sort k (x ∷ xs) =
    ground (arith, key_count-insert k x (sort before xs), key_count-sort k xs)

key_count-absent :
    (k : JsString) (m : Store) → KeysMatch m → has k m ≡ false → key_count k (values m) ≡ 0
unfolding has
key_count-absent k [] h n = refl
key_count-absent k ((j, q) ∷ m) h n =
    ground (arith, key_count-absent k m, h.0, str_eq_iff j k, str_eq_iff q.key k)

key_count-values :
    (k : JsString) (m : Store) → KeysMatch m → UniqueKeys m → key_count k (values m) ≤ 1
key_count-values k [] h u = omega arith
key_count-values k ((j, q) ∷ m) h u = elim (Bool-cases (str_eq q.key k)) [
  | inl same ↦
      let e = h.0 ∙ (str_eq_iff q.key k).0 same in
      rw same (omega (arith, key_count-absent k m h.1 (subst (λ z. has z m ≡ false) e u.0)))
  | inr other ↦ rw other (key_count-values k m h.1 u.1)
]

list-once :
    (room_id k : JsString) (m : Store)
    → KeysMatch m
    → UniqueKeys m
    → key_count k (list_offline_text_ops room_id m) ≤ 1
unfolding list_offline_text_ops
list-once room_id k m h u = omega (
  arith,
  key_count-sort k (filter_by (λ (q : QueuedTextOp). str_eq q.room_id room_id) (values m)),
  key_count-filter k (λ (q : QueuedTextOp). str_eq q.room_id room_id) (values m),
  key_count-values k m h u,
)

filter-none :
    (k : JsString) (qs : List QueuedTextOp)
    → key_count k qs ≡ 0
    → filter_by (has_other_key k) qs ≡ qs
filter-none k [] h = refl
filter-none k (q ∷ qs) h = ground (arith, filter-none k qs)

-- Without an operation whose key stands once.
filter-once :
    (kept : List QueuedTextOp) (q : QueuedTextOp) (qs : List QueuedTextOp)
    → key_count q.key (kept ++ q ∷ qs) ≤ 1
    → filter_by (has_other_key q.key) (kept ++ q ∷ qs) ≡ kept ++ qs
filter-once [] q qs h =
    filter_by-drop (has_other_key q.key) q qs (rw (str_eq_refl q.key) refl)
    ∙ filter-none q.key qs (ground (arith, str_eq_refl q.key))
filter-once (x ∷ kept) q qs h = ground (arith, filter-once kept q qs, at_least kept)
  where
    at_least : (xs : List QueuedTextOp) → 1 ≤ key_count q.key (xs ++ q ∷ qs)
    at_least [] = ground (arith, str_eq_refl q.key)
    at_least (y ∷ xs) = ground (arith, at_least xs)

-- Without one operation of the list.
pub list-without :
    (room_id : JsString) (m : Store) (kept : List QueuedTextOp) (q : QueuedTextOp)
    (qs : List QueuedTextOp)
    → KeysMatch m
    → UniqueKeys m
    → list_offline_text_ops room_id m ≡ kept ++ q ∷ qs
    → list_offline_text_ops room_id (remove q.key m) ≡ kept ++ qs
list-without room_id m kept q qs h u e =
    list-remove room_id q.key m h
    ∙ ap (filter_by (has_other_key q.key)) e
    ∙ filter-once kept q qs (subst (λ xs. key_count q.key xs ≤ 1) e (list-once room_id q.key m h u))

pub KeysMatch-remove : (k : JsString) (m : Store) → KeysMatch m → KeysMatch (remove k m)
unfolding remove
KeysMatch-remove k [] h = tt
KeysMatch-remove k ((j, q) ∷ m) h = elim (Bool-cases (str_eq j k)) [
  | inl same ↦ rw same (KeysMatch-remove k m h.1)
  | inr other ↦ rw other (h.0, KeysMatch-remove k m h.1)
]
