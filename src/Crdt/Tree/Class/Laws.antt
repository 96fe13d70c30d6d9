-- ===== src/Crdt/Tree/Class/Laws.antt =====
-- What `applyOperation` and the local operations do to the tree.
use syncode.Base.{
  ℕ, suc, ◌≤◌, ◌<◌, max, ◌≡◌, refl, sym, ap, subst, ◌∙◌, ◌⊎◌, inl, inr, Bool, true, false, Option,
  none, some, [], ◌∷◌, arith, JsString, str_eq, str_eq_iff, str_eq_refl, Bool-cases, if◌then◌else◌,
}
use syncode.Base.Assoc.{Assoc, get, put, get-put}
use syncode.Crdt.Id.{CrdtId, crdt_id_to_string}
use syncode.Crdt.Id.Key.{crdt_id_to_string-injective}
use syncode.Crdt.Document.{next_id}
use syncode.Crdt.Tree.Op.{
  TreeOp, create, rename, move, delete, op_id, TreeError, Result, ok, err, ◌>>=◌, clone_operation,
  clone_create, clone_rename, clone_move, clone_delete, validate_id, validate_name, same_value,
  same_parent, same_flag,
}
use syncode.Crdt.Tree.Class.{ProjectTree, op_key, add_cloned, apply_operation, perform}

-- Validation keeps the id of an operation.
pub clone_operation-op_id : (op op' : TreeOp) → clone_operation op ≡ ok op' → op_id op' ≡ op_id op
unfolding clone_operation clone_create clone_rename clone_move clone_delete validate_name
    validate_id
clone_operation-op_id (create i e) op' h = ground arith
clone_operation-op_id (rename i k n) op' h = ground arith
clone_operation-op_id (move i k p) op' h = ground arith
clone_operation-op_id (delete i k) op' h = ground arith

same_parent_refl : (p : Option JsString) → same_parent p p ≡ true
same_parent_refl none = refl
same_parent_refl (some q) = str_eq_refl q

same_flag_refl : (b : Bool) → same_flag b b ≡ true
same_flag_refl true = refl
same_flag_refl false = refl

pub same_value_refl : (op : TreeOp) → same_value op op ≡ true
unfolding same_value
same_value_refl (create i e) = ground (
  arith,
  str_eq_refl e.id,
  str_eq_refl e.name,
  same_parent_refl e.parent_id,
  same_flag_refl e.is_folder,
)
same_value_refl (rename i k n) = ground (arith, str_eq_refl k, str_eq_refl n)
same_value_refl (move i k p) = ground (arith, str_eq_refl k, same_parent_refl p)
same_value_refl (delete i k) = str_eq_refl k

pub ok-injective {ℓ} : {A : Type ℓ} {a b : A} → ok a ≡ ok b → a ≡ b
ok-injective h = cc

pub Result-cases {κ} :
    {V : Type κ} (m : Result V) → ((v : V) × (m ≡ ok v)) ⊎ ((thrown : TreeError) × (m ≡ err thrown))
Result-cases (ok v) = inl (v, refl)
Result-cases (err thrown) = inr (thrown, refl)

-- The state after an operation that was not there.
abbrev stored : TreeOp → ProjectTree → ProjectTree
stored op t = record t {
  operations = put (op_key op) op t.operations;
  clock = max t.clock (op_id op).counter;
}

add_cloned-stored :
    (op : TreeOp) (t : ProjectTree)
    → add_cloned op (get (op_key op) (stored op t).operations) (stored op t) ≡ ok (stored op t)
add_cloned-stored op t =
    rw
      (get-put (op_key op) (op_key op) op t.operations, str_eq_refl (op_key op), same_value_refl op)

taken :
    (op : TreeOp) (t t' : ProjectTree) (current : TreeOp)
    → same_value current op ≡ true
    → add_cloned op (some current) t ≡ ok t'
    → t ≡ t'
taken op t t' current same h = ground arith

add_cloned_twice :
    (op : TreeOp) (t t' : ProjectTree)
    → add_cloned op (get (op_key op) t.operations) t ≡ ok t'
    → add_cloned op (get (op_key op) t'.operations) t' ≡ ok t'
add_cloned_twice op t t' h = go (get (op_key op) t.operations) refl h
  where
    go :
        (o : Option TreeOp)
        → get (op_key op) t.operations ≡ o
        → add_cloned op o t ≡ ok t'
        → add_cloned op (get (op_key op) t'.operations) t' ≡ ok t'
    go none e h' =
        subst (λ z. add_cloned op (get (op_key op) z.operations) z ≡ ok z) (ok-injective h')
          (add_cloned-stored op t)
    go (some current) e h' = elim (Bool-cases (same_value current op)) [
      | inl same ↦
          subst (λ z. add_cloned op (get (op_key op) z.operations) z ≡ ok z)
            (taken op t t' current same h') (rw (e, same))
      | inr other ↦ ground arith
    ]

-- A second delivery of an operation that the tree has taken changes nothing.
pub apply_operation_twice :
    (op : TreeOp) (t t' : ProjectTree)
    → apply_operation op t ≡ ok t'
    → apply_operation op t' ≡ ok t'
unfolding apply_operation
apply_operation_twice op t t' h = elim (Result-cases (clone_operation op)) [
  | inl (op', e) ↦ rw e (add_cloned_twice op' t t' (ground arith))
  | inr (f, e) ↦ ground arith
]

-- Every operation is kept under its own key, and the clock has seen it.
abbrev pub AllKept : ℕ → Assoc TreeOp → Type 0
AllKept k [] = Unit
AllKept k ((j, op) ∷ m) = (j ≡ op_key op) × ((op_id op).counter ≤ k) × AllKept k m

AllKept-absent :
    (k : ℕ) (i : CrdtId) (m : Assoc TreeOp)
    → AllKept k m
    → k < i.counter
    → get (crdt_id_to_string (some i)) m ≡ none
unfolding get
AllKept-absent k i [] h lt = refl
AllKept-absent k i ((j, op) ∷ m) h lt = elim (Bool-cases (str_eq j (crdt_id_to_string (some i)))) [
  | inl same ↦
      let e = crdt_id_to_string-injective (op_id op) i (sym h.0 ∙ (str_eq_iff j _).0 same) in
      absurd (omega (arith, ap (λ (z : CrdtId). z.counter) e))
  | inr other ↦ rw other (AllKept-absent k i m h.2 lt)
]

AllKept-mono : (k l : ℕ) (m : Assoc TreeOp) → k ≤ l → AllKept k m → AllKept l m
AllKept-mono k l [] le h = tt
AllKept-mono k l ((j, op) ∷ m) le h = (h.0, omega arith, AllKept-mono k l m le h.2)

AllKept-put :
    (k l : ℕ) (op : TreeOp) (m : Assoc TreeOp)
    → AllKept k m
    → k ≤ l
    → (op_id op).counter ≤ l
    → AllKept l (put (op_key op) op m)
unfolding put
AllKept-put k l op [] h le c = (refl, c, tt)
AllKept-put k l op ((j, o) ∷ m) h le c = elim (Bool-cases (str_eq j (op_key op))) [
  | inl same ↦ rw same ((str_eq_iff j _).0 same, c, AllKept-mono k l m le h.2)
  | inr other ↦ rw other (h.0, omega arith, AllKept-put k l op m h.2 le c)
]

-- The invariant of the class.
pub record IsKept (t : ProjectTree) : Type 0 where
  pub all : AllKept t.clock t.operations

add_cloned-IsKept :
    (op : TreeOp) (t t' : ProjectTree) (o : Option TreeOp)
    → IsKept t
    → add_cloned op o t ≡ ok t'
    → IsKept t'
add_cloned-IsKept op t t' none v h =
    subst (λ z. IsKept z) (ok-injective h)
      (record { all = AllKept-put t.clock _ op t.operations v.all (omega arith) (omega arith) })
add_cloned-IsKept op t t' (some current) v h = elim (Bool-cases (same_value current op)) [
  | inl same ↦ subst (λ z. IsKept z) (taken op t t' current same h) v
  | inr other ↦ ground arith
]

-- An applied operation keeps it.
pub apply_operation-IsKept :
    (op : TreeOp) (t t' : ProjectTree) → IsKept t → apply_operation op t ≡ ok t' → IsKept t'
unfolding apply_operation
apply_operation-IsKept op t t' v h = elim (Result-cases (clone_operation op)) [
  | inl (op', e) ↦ add_cloned-IsKept op' t t' (get (op_key op') t.operations) v (ground arith)
  | inr (f, e) ↦ ground arith
]

-- With an id that no operation has, only the validation refuses.
apply_fresh :
    (k : ℕ) (op : TreeOp) (t : ProjectTree)
    → AllKept k t.operations
    → k < (op_id op).counter
    → apply_operation op t ≡ (clone_operation op >>= λ op'. ok (stored op' t))
unfolding apply_operation
apply_fresh k op t all lt = elim (Result-cases (clone_operation op)) [
  | inl (op', e) ↦
      let c = ap (λ (z : CrdtId). z.counter) (clone_operation-op_id op op' e) in
      rw (e, AllKept-absent k (op_id op') t.operations all (omega (arith, c))) refl
  | inr (f, e) ↦ rw e refl
]

-- The operation was new, and stands under its key beside those that were there.
pub record Added (op op' : TreeOp) (t t' : ProjectTree) : Type 0 where
  pub new : get (op_key op) t.operations ≡ none
  pub added :
      (k : JsString)
      → get k t'.operations ≡ (if str_eq (op_key op) k then some op' else get k t.operations)
  pub ticked : t'.clock ≡ suc t.clock

-- What a local operation does to the tree, by the result of its validation.
abbrev pub Performs : TreeOp → ProjectTree → Result TreeOp → ProjectTree × Result TreeOp → Type 0
Performs op t (ok op') (t', r) = (r ≡ ok op) × Added op op' t t'
Performs op t (err f) (t', r) = (r ≡ err f) × (t'.operations ≡ t.operations)

stored-Added :
    (op op' : TreeOp) (t : ProjectTree)
    → op_id op' ≡ op_id op
    → (op_id op).counter ≡ suc t.clock
    → get (op_key op) t.operations ≡ none
    → Added op op' t (stored op' (record t { clock = suc t.clock }))
stored-Added op op' t same counter absent =
    let key : op_key op' ≡ op_key op = ap (λ i. crdt_id_to_string (some i)) same in
    let c = ap (λ (z : CrdtId). z.counter) same in
    record {
      new = absent;
      added = λ k.
          get-put (op_key op') k op' t.operations
          ∙ ap (λ z. if str_eq z k then some op' else get k t.operations) key;
      ticked = omega (arith, c, counter);
    }

-- The last step of every local operation (createEntry takes it when the name is free). In a tree
-- whose clock has seen its operations, an operation that has the id it is made with and that passes
-- the validation is given back; its trimmed form stands under its key, which was free, beside the
-- operations that were there, and the clock is one more. One that the validation refuses throws its
-- error and changes no operation. The invariant is kept in both cases.
pub perform_lem :
    (make : CrdtId → TreeOp) (t : ProjectTree)
    → ((i : CrdtId) → op_id (make i) ≡ i)
    → IsKept t
    → let op = make (next_id t.site_id t.clock) in
      Performs op t (clone_operation op) (perform make t) × IsKept (perform make t).0
unfolding perform
perform_lem make t same v =
    let i = next_id t.site_id t.clock in
    let op = make i in
    let ticked = record t { clock = suc t.clock } in
    let c = ap (λ (z : CrdtId). z.counter) (same i) in
    let fresh = apply_fresh t.clock op ticked v.all (omega (arith, c)) in
    let v' : IsKept ticked = record {
      all = AllKept-mono t.clock _ t.operations (omega arith) v.all;
    } in
    elim (Result-cases (clone_operation op)) [
      | inl (op', e) ↦ (
        rw (fresh, e)
            (
              refl,
              stored-Added op op' t (clone_operation-op_id op op' e) c
                  (AllKept-absent t.clock (op_id op) t.operations v.all (omega (arith, c))),
            ),
        rw (fresh, e)
            (apply_operation-IsKept op ticked (stored op' ticked) v' (rw (fresh, e) refl)),
      )
      | inr (f, e) ↦ (rw (fresh, e) (refl, refl), rw (fresh, e) v')
    ]
