-- ===== src/Crdt/Tree/Registers/Order.antt =====
-- The registers do not depend on the order in which the operations arrive.
use mathlib.Core.List.{Perm, Permᴰ, Mem, mem-cons_self, mem-cons_of_mem}
use mathlib.Core.List.Perm
use mathlib.Core.Logic.{∥∥₁_elim}
use syncode.Base.{
  ◌≡◌, refl, sym, subst, ◌∙◌, ◌≢◌, inl, inr, Option, none, some, List, [], ◌∷◌, arith, JsString,
  str_eq, str_eq_iff, if◌then◌else◌, Bool-cases,
}
use syncode.Base.Assoc.{Assoc, get, get-put}
use syncode.Crdt.Id.{CrdtId, id_eq, id_eq_iff, newer_trans, newer_asymm, newer_total}
use syncode.Crdt.Tree.Op.{RoomEntry, TreeOp, create, rename, move, delete, op_id}
use syncode.Crdt.Tree.Registers.{
  EntryRegister, register, Registers, no_registers, select_register, offer, add_operation,
  add_operations, build_registers,
}

module _ {T : Type 0} where
  -- Two maps with the same contents, in whatever order.
  abbrev pub Agrees : Assoc T → Assoc T → Type 0
  Agrees m n = (k : JsString) → get k m ≡ get k n

module _ {T : Type 0} where
  select_register_comm :
      (c : Option (EntryRegister T)) (r s : EntryRegister T)
      → r.op_id ≢ s.op_id
      → select_register (some (select_register c r)) s
        ≡ select_register (some (select_register c s)) r
  unfolding select_register
  select_register_comm none r s h = elim (newer_total r.op_id s.op_id h) [
    | inl p ↦ ground (arith, newer_asymm r.op_id s.op_id)
    | inr p ↦ ground (arith, newer_asymm s.op_id r.op_id)
  ]
  select_register_comm (some c) r s h = elim (newer_total r.op_id s.op_id h) [
    | inl p ↦ ground (
      arith,
      newer_asymm r.op_id s.op_id,
      newer_trans r.op_id s.op_id c.op_id,
      newer_trans s.op_id c.op_id r.op_id,
      newer_asymm r.op_id c.op_id,
    )
    | inr p ↦ ground (
      arith,
      newer_asymm s.op_id r.op_id,
      newer_trans s.op_id r.op_id c.op_id,
      newer_trans r.op_id c.op_id s.op_id,
      newer_asymm s.op_id c.op_id,
    )
  ]

  get-offer :
      (k j : JsString) (r : EntryRegister T) (m : Assoc (EntryRegister T))
      → get j (offer k r m) ≡ (if str_eq k j then some (select_register (get k m) r) else get j m)
  unfolding offer
  get-offer k j r m = get-put k j _ m

  offer-Agrees :
      (k : JsString) (r : EntryRegister T) (m n : Assoc (EntryRegister T))
      → Agrees m n
      → Agrees (offer k r m) (offer k r n)
  offer-Agrees k r m n h j = ground (arith, get-offer k j r m, get-offer k j r n, h k, h j)

  offer_comm :
      (k l : JsString) (r s : EntryRegister T) (m : Assoc (EntryRegister T))
      → r.op_id ≢ s.op_id
      → Agrees (offer k r (offer l s m)) (offer l s (offer k r m))
  offer_comm k l r s m h j = ground (
    arith,
    str_eq_iff k j,
    str_eq_iff l j,
    str_eq_iff k l,
    str_eq_iff l k,
    get-offer k j r (offer l s m),
    get-offer l j s m,
    get-offer l k s m,
    get-offer l j s (offer k r m),
    get-offer k j r m,
    get-offer k l r m,
    select_register_comm (get k m) s r (λ e. h (sym e)),
  )

-- What an operation offers to a map, if anything.
abbrev give :
    {T : Type 0}
    → CrdtId
    → Option (JsString × T)
    → Assoc (EntryRegister T)
    → Assoc (EntryRegister T)
give i none m = m
give i (some (k, v)) m = offer k (register i v) m

abbrev created : TreeOp → Option (JsString × RoomEntry)
created (create i e) = some (e.id, e)
created _ = none

abbrev named : TreeOp → Option (JsString × JsString)
named (create i e) = some (e.id, e.name)
named (rename i k n) = some (k, n)
named _ = none

abbrev placed : TreeOp → Option (JsString × Option JsString)
placed (create i e) = some (e.id, e.parent_id)
placed (move i k p) = some (k, p)
placed _ = none

abbrev removed : TreeOp → Option (JsString × Unit {0})
removed (delete i k) = some (k, tt)
removed _ = none

add_operation-give :
    (op : TreeOp) (r : Registers)
    → add_operation op r ≡ record {
      creates = give (op_id op) (created op) r.creates;
      names = give (op_id op) (named op) r.names;
      parents = give (op_id op) (placed op) r.parents;
      deleted = give (op_id op) (removed op) r.deleted;
    }
unfolding add_operation
add_operation-give (create i e) r = refl
add_operation-give (rename i k n) r = refl
add_operation-give (move i k p) r = refl
add_operation-give (delete i k) r = refl

-- Registers with the same contents.
pub record Same (r s : Registers) : Type 0 where
  pub creates : Agrees r.creates s.creates
  pub names : Agrees r.names s.names
  pub parents : Agrees r.parents s.parents
  pub deleted : Agrees r.deleted s.deleted

module _ {T : Type 0} where
  give-Agrees :
      (i : CrdtId) (p : Option (JsString × T)) (m n : Assoc (EntryRegister T))
      → Agrees m n
      → Agrees (give i p m) (give i p n)
  give-Agrees i none m n h = h
  give-Agrees i (some (k, v)) m n h = offer-Agrees k (register i v) m n h

  give_comm :
      (i j : CrdtId) (p q : Option (JsString × T)) (m : Assoc (EntryRegister T))
      → i ≢ j
      → Agrees (give i p (give j q m)) (give j q (give i p m))
  give_comm i j none q m h = λ k. refl
  give_comm i j (some (k, v)) none m h = λ l. refl
  give_comm i j (some (k, v)) (some (l, u)) m h = offer_comm k l (register i v) (register j u) m h

add_operation-Same :
    (op : TreeOp) (r s : Registers) → Same r s → Same (add_operation op r) (add_operation op s)
add_operation-Same op r s h =
    rw (add_operation-give op r, add_operation-give op s)
      (record {
        creates = give-Agrees (op_id op) (created op) r.creates s.creates h.creates;
        names = give-Agrees (op_id op) (named op) r.names s.names h.names;
        parents = give-Agrees (op_id op) (placed op) r.parents s.parents h.parents;
        deleted = give-Agrees (op_id op) (removed op) r.deleted s.deleted h.deleted;
      })

add_operation_comm :
    (x y : TreeOp) (r : Registers)
    → op_id x ≢ op_id y
    → Same (add_operation x (add_operation y r)) (add_operation y (add_operation x r))
add_operation_comm x y r h =
    rw
      (
        add_operation-give x (add_operation y r),
        add_operation-give y (add_operation x r),
        add_operation-give x r,
        add_operation-give y r,
      )
      (record {
        creates = give_comm (op_id x) (op_id y) (created x) (created y) r.creates h;
        names = give_comm (op_id x) (op_id y) (named x) (named y) r.names h;
        parents = give_comm (op_id x) (op_id y) (placed x) (placed y) r.parents h;
        deleted = give_comm (op_id x) (op_id y) (removed x) (removed y) r.deleted h;
      })

Same-refl : (r : Registers) → Same r r
Same-refl r = record {
  creates = λ k. refl;
  names = λ k. refl;
  parents = λ k. refl;
  deleted = λ k. refl;
}

Same-trans : (r s t : Registers) → Same r s → Same s t → Same r t
Same-trans r s t h k = record {
  creates = λ j. h.creates j ∙ k.creates j;
  names = λ j. h.names j ∙ k.names j;
  parents = λ j. h.parents j ∙ k.parents j;
  deleted = λ j. h.deleted j ∙ k.deleted j;
}

add_operations-Same :
    (ops : List TreeOp) (r s : Registers)
    → Same r s
    → Same (add_operations ops r) (add_operations ops s)
unfolding add_operations
add_operations-Same [] r s h = h
add_operations-Same (op ∷ ops) r s h = add_operations-Same ops _ _ (add_operation-Same op r s h)

-- An id names one operation.
abbrev pub IsCoherent : List TreeOp → Type 0
IsCoherent ops = (x y : TreeOp) → Mem x ops → Mem y ops → op_id x ≡ op_id y → x ≡ y

swap-Same :
    (x y : TreeOp) (r : Registers)
    → (op_id x ≡ op_id y → x ≡ y)
    → Same (add_operation y (add_operation x r)) (add_operation x (add_operation y r))
swap-Same x y r h = elim (Bool-cases (id_eq (op_id x) (op_id y))) [
  | inl same ↦
      let e = h ((id_eq_iff _ _).0 same) in
      subst (λ z. Same (add_operation z (add_operation x r)) (add_operation x (add_operation z r)))
        e (Same-refl _)
  | inr other ↦ add_operation_comm y x r (λ e. ground (arith, id_eq_iff (op_id x) (op_id y)))
]

perm-Same :
    {xs ys : List TreeOp} (r : Registers)
    → Permᴰ xs ys
    → IsCoherent xs
    → Same (add_operations xs r) (add_operations ys r)
unfolding add_operations
perm-Same r Permᴰ.nil c = Same-refl r
perm-Same r (Permᴰ.cons {a} {l₁} {l₂} e p) c =
    subst
      (λ z. Same (add_operations l₁ (add_operation a r)) (add_operations l₂ (add_operation z r))) e
      (perm-Same (add_operation a r) p λ x y m n. c x y (mem-cons_of_mem a m) (mem-cons_of_mem a n))
perm-Same r (Permᴰ.swap {a} {b} {b'} {l} e f) c =
    subst (λ z. Same (add_operations (a ∷ b ∷ l) r) (add_operations (z ∷ b' ∷ l) r)) f
      (subst (λ z. Same (add_operations (a ∷ b ∷ l) r) (add_operations (b ∷ z ∷ l) r)) e
        (add_operations-Same l _ _
          (swap-Same a b r (c a b mem-cons_self (mem-cons_of_mem a mem-cons_self)))))
perm-Same r (Permᴰ.trans p q) c =
    Same-trans _ _ _ (perm-Same r p c)
      (perm-Same r q λ x y m n. c x y ((Perm.mem_iff ∣ p ∣₁).1 m) ((Perm.mem_iff ∣ p ∣₁).1 n))

-- Replicas that hold the same operations, with an id for each, have the same registers, in whatever
-- order the operations came.
pub build_registers-perm :
    (ops ops' : List TreeOp)
    → IsCoherent ops
    → Perm ops ops'
    → Same (build_registers ops) (build_registers ops')
unfolding build_registers
build_registers-perm ops ops' c p = ∥∥₁_elim p Same-prop (λ q. perm-Same no_registers q c)
  where
    Same-prop : IsProp (Same (build_registers ops) (build_registers ops'))
    Same-prop = hlevel
