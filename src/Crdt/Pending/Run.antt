-- ===== src/Crdt/Pending/Run.antt =====
-- Delivery of some of the operations that are there, with the others left.
use mathlib.Core.List.{Perm, Permᴰ, append_assoc}
use mathlib.Core.List.Perm
use mathlib.Core.List.Permᴰ
use mathlib.Core.Logic.{∥∥₁_elim}
use native.Mathlib.Nat.{ℕ_set}
use syncode.Base.{
  ℕ, ◌+◌, ◌≤◌, ◌≡◌, refl, sym, ap, subst, ◌∙◌, Bool, true, false, Option, List, [], ◌∷◌, ◌++◌,
  arith,
}
use syncode.Crdt.Id.{CrdtId, id_eq_iff, id_eq_refl}
use syncode.Crdt.Document.{CrdtChar, CrdtOp, CrdtDocument, insert, delete, has_char, apply_op}
use syncode.Crdt.Document.Forest.Plant.{IsWellFormed}
use syncode.Crdt.Document.Convergence.{
  deliver, IsCausal, Ready, OriginReady, added, apply_op-IsWellFormed, has_char-apply_op,
  OriginReady-apply_op,
}

abbrev bit : Bool → ℕ
bit true = 1
bit false = 0

-- How many insertions of a character are among the operations.
abbrev inserts_of : CrdtId → List CrdtOp → ℕ
inserts_of id [] = 0
inserts_of id (x ∷ ops) = bit (added x id) + inserts_of id ops

-- No character is inserted twice.
abbrev pub IsFresh : List CrdtOp → CrdtDocument → Type 0
IsFresh ops d = (id : CrdtId) → inserts_of id ops + bit (has_char id d.chars) ≤ 1

inserts_of-append :
    (id : CrdtId) (xs ys : List CrdtOp)
    → inserts_of id (xs ++ ys) ≡ inserts_of id xs + inserts_of id ys
inserts_of-append id [] ys = omega arith
inserts_of-append id (x ∷ xs) ys = omega (arith, inserts_of-append id xs ys)

inserts_of-permᴰ :
    (id : CrdtId) {xs ys : List CrdtOp} → Permᴰ xs ys → inserts_of id xs ≡ inserts_of id ys
inserts_of-permᴰ id Permᴰ.nil = refl
inserts_of-permᴰ id (Permᴰ.cons {a} {l₁} {l₂} e p) =
    omega (arith, ap (λ x. bit (added x id)) e, inserts_of-permᴰ id p)
inserts_of-permᴰ id (Permᴰ.swap {a} {b} {b'} {l} e f) =
    omega (arith, ap (λ x. bit (added x id)) e, ap (λ x. bit (added x id)) f)
inserts_of-permᴰ id (Permᴰ.trans p q) = inserts_of-permᴰ id p ∙ inserts_of-permᴰ id q

pub IsFresh-perm :
    (xs ys : List CrdtOp) (d : CrdtDocument) → Perm xs ys → IsFresh xs d → IsFresh ys d
IsFresh-perm xs ys d p f id =
    omega (arith, f id, ∥∥₁_elim p (ℕ_set _ _) (λ q. inserts_of-permᴰ id q))

pub IsFresh-append : (xs ys : List CrdtOp) (d : CrdtDocument) → IsFresh (xs ++ ys) d → IsFresh ys d
IsFresh-append xs ys d f id = omega (arith, inserts_of-append id xs ys, f id)

pub IsFresh-new :
    (c : CrdtChar) (ops : List CrdtOp) (d : CrdtDocument)
    → IsFresh (insert c ∷ ops) d
    → has_char c.id d.chars ≡ false
IsFresh-new c ops d f = ground (arith, f c.id, id_eq_refl c.id)

-- A ready insertion moves from the count of the operations to the document.
bit-apply_op :
    (x : CrdtOp) (d : CrdtDocument) (id : CrdtId)
    → IsWellFormed d.chars
    → Ready x d
    → bit (has_char id (apply_op x d).chars) ≡ bit (added x id) + bit (has_char id d.chars)
bit-apply_op (insert c) d id w r =
    ground (arith, has_char-apply_op (insert c) d id w r, id_eq_iff c.id id)
bit-apply_op (delete j) d id w r = ground (arith, has_char-apply_op (delete j) d id w r)

bit_le_one : (b : Bool) → bit b ≤ 1
bit_le_one true = omega arith
bit_le_one false = omega arith

pub IsFresh-middle :
    (xs ys zs : List CrdtOp) (d : CrdtDocument)
    → IsFresh (xs ++ (ys ++ zs)) d
    → IsFresh (xs ++ zs) d
IsFresh-middle xs ys zs d f id = omega (
  arith,
  f id,
  inserts_of-append id xs (ys ++ zs),
  inserts_of-append id ys zs,
  inserts_of-append id xs zs,
)

IsFresh-deliver :
    (ts rest : List CrdtOp) (d : CrdtDocument)
    → IsWellFormed d.chars
    → IsCausal ts d
    → IsFresh (ts ++ rest) d
    → IsFresh rest (deliver ts d)
unfolding deliver
IsFresh-deliver [] rest d w c f = f
IsFresh-deliver (x ∷ ts) rest d w c f =
    IsFresh-deliver ts rest (apply_op x d) (apply_op-IsWellFormed x d w c.0) c.1 step
  where
    step : IsFresh (ts ++ rest) (apply_op x d)
    step id = omega (arith, f id, bit-apply_op x d id w c.0)

pub deliver-IsWellFormed :
    (ts : List CrdtOp) (d : CrdtDocument)
    → IsWellFormed d.chars
    → IsCausal ts d
    → IsWellFormed (deliver ts d).chars
unfolding deliver
deliver-IsWellFormed [] d w c = w
deliver-IsWellFormed (x ∷ ts) d w c =
    deliver-IsWellFormed ts (apply_op x d) (apply_op-IsWellFormed x d w c.0) c.1

pub OriginReady-deliver :
    (ts : List CrdtOp) (d : CrdtDocument) (o : Option CrdtId)
    → IsWellFormed d.chars
    → IsCausal ts d
    → OriginReady o d.chars
    → OriginReady o (deliver ts d).chars
unfolding deliver
OriginReady-deliver [] d o w c h = h
OriginReady-deliver (x ∷ ts) d o w c h =
    OriginReady-deliver ts (apply_op x d) o (apply_op-IsWellFormed x d w c.0) c.1
      (OriginReady-apply_op x d o w c.0 h)

-- What a causal order inserts is new.
pub IsCausal-IsFresh :
    (ops : List CrdtOp) (d : CrdtDocument) → IsWellFormed d.chars → IsCausal ops d → IsFresh ops d
IsCausal-IsFresh [] d w c id = omega (arith, bit_le_one (has_char id d.chars))
IsCausal-IsFresh (x ∷ ops) d w c id = omega (
  arith,
  bit-apply_op x d id w c.0,
  IsCausal-IsFresh ops (apply_op x d) (apply_op-IsWellFormed x d w c.0) c.1 id,
)

pub deliver-append :
    (xs ys : List CrdtOp) (d : CrdtDocument) → deliver (xs ++ ys) d ≡ deliver ys (deliver xs d)
unfolding deliver
deliver-append [] ys d = refl
deliver-append (x ∷ xs) ys d = deliver-append xs ys (apply_op x d)

pub IsCausal-append :
    (xs ys : List CrdtOp) (d : CrdtDocument)
    → IsCausal xs d
    → IsCausal ys (deliver xs d)
    → IsCausal (xs ++ ys) d
unfolding deliver
IsCausal-append [] ys d c e = e
IsCausal-append (x ∷ xs) ys d c e = (c.0, IsCausal-append xs ys (apply_op x d) c.1 e)

pub swap_front {ℓ} : {A : Type ℓ} (xs ys zs : List A) → Perm (xs ++ (ys ++ zs)) (ys ++ (xs ++ zs))
swap_front xs ys zs =
    subst (λ z. Perm z (ys ++ (xs ++ zs))) (append_assoc xs ys zs)
      (subst (λ z. Perm ((xs ++ ys) ++ zs) z) (append_assoc ys xs zs)
        (Perm.append_right zs ∣ Permᴰ.append_comm xs ys ∣₁))

-- `ts` is delivered in a causal order, out of `todo`, and `rest` is left.
pub record Run (d : CrdtDocument) (todo ts : List CrdtOp) (e : CrdtDocument) (rest : List CrdtOp)
    : Type 0 where
  pub doc : e ≡ deliver ts d
  pub causal : IsCausal ts d
  pub perm : Perm (ts ++ rest) todo

module _ {d e g : CrdtDocument} {todo rest left ts us : List CrdtOp} where
  pub Run-trans : Run d todo ts e rest → Run e rest us g left → Run d todo (ts ++ us) g left
  Run-trans r s = record {
    doc = s.doc ∙ ap (deliver us) r.doc ∙ sym (deliver-append ts us d);
    causal = IsCausal-append ts us d r.causal (subst (IsCausal us) r.doc s.causal);
    perm =
        subst (λ z. Perm z todo) (sym (append_assoc ts us left))
          (Perm.trans (Perm.append_left ts s.perm) r.perm);
  }

module _ {d e : CrdtDocument} {todo rest ts : List CrdtOp} where
  pub Run-perm : {more : List CrdtOp} → Perm todo more → Run d todo ts e rest → Run d more ts e rest
  Run-perm p r = record { doc = r.doc; causal = r.causal; perm = Perm.trans r.perm p }

  pub Run-frame :
      (more : List CrdtOp) → Run d todo ts e rest → Run d (more ++ todo) ts e (more ++ rest)
  Run-frame more r = record {
    doc = r.doc;
    causal = r.causal;
    perm = Perm.trans (swap_front ts more rest) (Perm.append_left more r.perm);
  }

  pub Run-IsWellFormed : IsWellFormed d.chars → Run d todo ts e rest → IsWellFormed e.chars
  Run-IsWellFormed w r =
      subst (λ z. IsWellFormed z.chars) (sym r.doc) (deliver-IsWellFormed ts d w r.causal)

  pub Run-IsFresh : IsWellFormed d.chars → IsFresh todo d → Run d todo ts e rest → IsFresh rest e
  Run-IsFresh w f r =
      subst (IsFresh rest) (sym r.doc) (
        IsFresh-deliver ts rest d w r.causal
          (IsFresh-perm todo (ts ++ rest) d (Perm.symm r.perm) f))

  pub Run-OriginReady :
      (o : Option CrdtId)
      → IsWellFormed d.chars
      → Run d todo ts e rest
      → OriginReady o d.chars
      → OriginReady o e.chars
  Run-OriginReady o w r h =
      subst (λ z. OriginReady o z.chars) (sym r.doc) (OriginReady-deliver ts d o w r.causal h)

pub Run-none : (d : CrdtDocument) (todo : List CrdtOp) → Run d todo [] d todo
unfolding deliver
Run-none d todo = record { doc = refl; causal = tt; perm = Perm.refl todo }

-- One ready operation.
pub Run-step :
    (x : CrdtOp) (d : CrdtDocument) (rest : List CrdtOp)
    → Ready x d
    → Run d (x ∷ rest) (x ∷ []) (apply_op x d) rest
unfolding deliver
Run-step x d rest r = record { doc = refl; causal = (r, tt); perm = Perm.refl (x ∷ rest) }
