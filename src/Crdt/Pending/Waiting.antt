-- ===== src/Crdt/Pending/Waiting.antt =====
-- One of the two maps of the buffer: every value waits under the key of the id that it names.
use mathlib.Core.List.{Perm, append_assoc, map-append, perm_middle}
use mathlib.Core.List.Perm
use syncode.Base.{
  ◌≤◌, ◌<◌, ◌≡◌, ◌≢◌, refl, sym, ap, subst, ◌∙◌, inl, inr, true, false, Option, none, some, List,
  [], ◌∷◌, ◌++◌, arith, JsString, str_eq, str_eq_iff, str_eq_refl, Bool-cases, length, map, All,
  All-append,
}
use syncode.Base.Assoc.{Assoc, get, put, remove, has, has-get}
use syncode.Crdt.Id.{CrdtId, crdt_id_to_string}
use syncode.Crdt.Id.Key.{crdt_id_to_string-injective}
use syncode.Crdt.Document.{CrdtOp}
use syncode.Crdt.Pending.{listed, push}
use syncode.Crdt.Pending.Run.{swap_front}

module _ {ℓ} {V : Type ℓ} where
  abbrev pub UniqueKeys : Assoc V → Type 0
  UniqueKeys [] = Unit
  UniqueKeys ((k, v) ∷ m) = (has k m ≡ false) × UniqueKeys m

  has-put :
      (j k : JsString) (v : V) (m : Assoc V)
      → has j m ≡ false
      → str_eq k j ≡ false
      → has j (put k v m) ≡ false
  unfolding has put
  has-put j k v [] h n = ground arith
  has-put j k v ((i, w) ∷ m) h n = ground (arith, has-put j k v m)

  pub UniqueKeys-put : (k : JsString) (v : V) (m : Assoc V) → UniqueKeys m → UniqueKeys (put k v m)
  unfolding has put
  UniqueKeys-put k v [] u = (refl, tt)
  UniqueKeys-put k v ((j, w) ∷ m) u = elim (Bool-cases (str_eq j k)) [
    | inl same ↦ rw same u
    | inr other ↦ rw other (
      has-put j k v m u.0 (ground (arith, str_eq_iff j k, str_eq_iff k j)),
      UniqueKeys-put k v m u.1,
    )
  ]

  has-remove : (j k : JsString) (m : Assoc V) → has j m ≡ false → has j (remove k m) ≡ false
  unfolding has remove
  has-remove j k [] h = refl
  has-remove j k ((i, w) ∷ m) h = ground (arith, has-remove j k m)

  pub UniqueKeys-remove : (k : JsString) (m : Assoc V) → UniqueKeys m → UniqueKeys (remove k m)
  unfolding remove
  UniqueKeys-remove k [] u = tt
  UniqueKeys-remove k ((j, w) ∷ m) u = elim (Bool-cases (str_eq j k)) [
    | inl same ↦ rw same (UniqueKeys-remove k m u.1)
    | inr other ↦ rw other (has-remove j k m u.0, UniqueKeys-remove k m u.1)
  ]

  remove-absent : (k : JsString) (m : Assoc V) → has k m ≡ false → remove k m ≡ m
  unfolding has remove
  remove-absent k [] h = refl
  remove-absent k ((j, w) ∷ m) h = ground (arith, remove-absent k m)

  pub length-remove : (k : JsString) (m : Assoc V) → length (remove k m) ≤ length m
  unfolding remove
  length-remove k [] = omega arith
  length-remove k ((j, w) ∷ m) = ground (arith, length-remove k m)

  pub length-remove_lt :
      (k : JsString) (m : Assoc V) (v : V) → get k m ≡ some v → length (remove k m) < length m
  unfolding get remove
  length-remove_lt k [] v h = ground arith
  length-remove_lt k ((j, w) ∷ m) v h = elim (Bool-cases (str_eq j k)) [
    | inl same ↦ rw same (omega (arith, length-remove k m))
    | inr other ↦ rw other (omega (arith, length-remove_lt k m v (ground arith)))
  ]

module _ {ℓ} {V : Type ℓ} where
  pub remove-none : (k : JsString) (m : Assoc V) → get k m ≡ none → remove k m ≡ m
  remove-none k m h = remove-absent k m (has-get k m ∙ rw h refl)

module _ {V : Type 0} (k j : JsString) (v : V) (ws : List V) (m : Assoc (List V)) where
  push_at : str_eq j k ≡ true → push k v ((j, ws) ∷ m) ≡ (j, ws ++ v ∷ []) ∷ m
  unfolding get put
  push_at h = rw h refl

  push_past : str_eq j k ≡ false → push k v ((j, ws) ∷ m) ≡ (j, ws) ∷ push k v m
  unfolding get put
  push_past h = ground arith

module _ {V : Type 0} (target : V → Option CrdtId) where
  -- The value waits under the key for an id with the property.
  abbrev pub Waits : (CrdtId → Type 0) → JsString → V → Type 0
  Waits P k v = (id : CrdtId) × (target v ≡ some id) × (k ≡ crdt_id_to_string (some id)) × P id

  abbrev pub AllWait : (CrdtId → Type 0) → Assoc (List V) → Type 0
  AllWait P [] = Unit
  AllWait P ((k, vs) ∷ m) = All (Waits P k) vs × AllWait P m

  each :
      (P Q : CrdtId → Type 0) (k : JsString) (vs : List V)
      → ((id : CrdtId) → k ≡ crdt_id_to_string (some id) → P id → Q id)
      → All (Waits P k) vs
      → All (Waits Q k) vs
  each P Q k [] f h = tt
  each P Q k (v ∷ vs) f h = let (id, t, e, p) = h.0 in ((id, t, e, f id e p), each P Q k vs f h.1)

  pub AllWait-map :
      (P Q : CrdtId → Type 0) (m : Assoc (List V))
      → ((id : CrdtId) → P id → Q id)
      → AllWait P m
      → AllWait Q m
  AllWait-map P Q [] f h = tt
  AllWait-map P Q ((k, vs) ∷ m) f h =
      (each P Q k vs (λ id e p. f id p) h.0, AllWait-map P Q m f h.1)

  -- Without the entry of one id, nothing waits for it.
  pub AllWait-remove :
      (P Q : CrdtId → Type 0) (key : CrdtId) (m : Assoc (List V))
      → ((id : CrdtId) → id ≢ key → P id → Q id)
      → AllWait P m
      → AllWait Q (remove (crdt_id_to_string (some key)) m)
  unfolding remove
  AllWait-remove P Q key [] f h = tt
  AllWait-remove P Q key ((k, vs) ∷ m) f h =
      elim (Bool-cases (str_eq k (crdt_id_to_string (some key)))) [
        | inl same ↦ rw same (AllWait-remove P Q key m f h.1)
        | inr other ↦ rw other (
          each P Q k vs
              (λ id e. f id λ (i : id ≡ key).
                ground
                  (arith, str_eq_refl k, e ∙ ap (λ (z : CrdtId). crdt_id_to_string (some z)) i))
              h.0,
          AllWait-remove P Q key m f h.1,
        )
      ]

  pub AllWait-push :
      (P : CrdtId → Type 0) (k : JsString) (v : V) (m : Assoc (List V))
      → Waits P k v
      → AllWait P m
      → AllWait P (push k v m)
  unfolding get put
  AllWait-push P k v [] w h = ((w, tt), tt)
  AllWait-push P k v ((j, ws) ∷ m) w h = elim (Bool-cases (str_eq j k)) [
    | inl same ↦
        let e = (str_eq_iff j k).0 same in
        rw (push_at k j v ws m same)
          (All-append (Waits P j) ws (v ∷ []) h.0 (subst (λ i. Waits P i v) (sym e) w, tt), h.1)
    | inr other ↦ rw (push_past k j v ws m other) (h.0, AllWait-push P k v m w h.1)
  ]

  -- What stands under the key of an id names that id.
  pub listed-target :
      (P : CrdtId → Type 0) (id : CrdtId) (m : Assoc (List V))
      → AllWait P m
      → All (λ v. target v ≡ some id) (listed (get (crdt_id_to_string (some id)) m))
  unfolding get
  listed-target P id [] h = tt
  listed-target P id ((k, vs) ∷ m) h = elim (Bool-cases (str_eq k (crdt_id_to_string (some id)))) [
    | inl same ↦ rw same (named vs ((str_eq_iff k _).0 same) h.0)
    | inr other ↦ rw other (listed-target P id m h.1)
  ]
    where
      named :
          (ws : List V)
          → k ≡ crdt_id_to_string (some id)
          → All (Waits P k) ws
          → All (λ v. target v ≡ some id) ws
      named [] e w = tt
      named (v ∷ ws) e w =
          let (i, t, e', p) = w.0 in
          (t ∙ ap some (crdt_id_to_string-injective i id (sym e' ∙ e)), named ws e w.1)

module _ {V : Type 0} (op : V → CrdtOp) where
  -- The operations that wait.
  abbrev pub ops_of : Assoc (List V) → List CrdtOp
  ops_of [] = []
  ops_of ((k, vs) ∷ m) = map op vs ++ ops_of m

  pub ops_of-listed :
      (k : JsString) (m : Assoc (List V))
      → UniqueKeys m
      → Perm (map op (listed (get k m)) ++ ops_of (remove k m)) (ops_of m)
  unfolding get remove
  ops_of-listed k [] u = Perm.nil
  ops_of-listed k ((j, ws) ∷ m) u = elim (Bool-cases (str_eq j k)) [
    | inl same ↦
        let absent : has k m ≡ false = subst (λ i. has i m ≡ false) ((str_eq_iff j k).0 same) u.0 in
        rw (same, remove-absent k m absent) (Perm.refl (map op ws ++ ops_of m))
    | inr other ↦ rw other (
        Perm.trans (swap_front (map op (listed (get k m))) (map op ws) (ops_of (remove k m)))
          (Perm.append_left (map op ws) (ops_of-listed k m u.1)))
  ]

  pub ops_of-push :
      (k : JsString) (v : V) (m : Assoc (List V)) → Perm (ops_of (push k v m)) (op v ∷ ops_of m)
  unfolding get put
  ops_of-push k v [] = Perm.refl (op v ∷ [])
  ops_of-push k v ((j, ws) ∷ m) = elim (Bool-cases (str_eq j k)) [
    | inl same ↦
        rw
          (
            push_at k j v ws m same,
            map-append op ws (v ∷ []),
            append_assoc (map op ws) (op v ∷ []) (ops_of m),
          )
          (perm_middle (map op ws) (ops_of m))
    | inr other ↦ rw (push_past k j v ws m other) (
        Perm.trans (Perm.append_left (map op ws) (ops_of-push k v m))
          (perm_middle (map op ws) (ops_of m)))
  ]
