-- ===== src/Crdt/Document/Forest.antt =====
-- The order that the code's comments call RGA, as a specification without positions: the characters
-- form a forest, each under the one that it was inserted after, siblings with the newer id first,
-- and the document is the forest read in preorder. `kids` stand below a character, `rest` after it.
pub mod Present
pub mod Scan
pub mod Refine
pub mod Within
pub mod Plant
use syncode.Base.{
  ◌≡◌, refl, sym, ap, ◌≢◌, inl, inr, Bool, true, false, Option, none, some, List, [], ◌∷◌, ◌++◌,
  arith, if◌then◌else◌,
}
use syncode.Crdt.Id.{CrdtId, newer, id_eq, id_eq_iff, newer_trans, newer_asymm, newer_total}
use syncode.Crdt.Document.{CrdtChar}

pub data Forest : Type 0 where
  nil : Forest
  node : CrdtChar → Forest → Forest → Forest

unfoldable pub flatten : Forest → List CrdtChar
flatten nil = []
flatten (node d kids rest) = d ∷ (flatten kids ++ flatten rest)

-- Among siblings, before the first that has an older id.
unfoldable pub place : CrdtChar → Forest → Forest
place c nil = node c nil nil
place c (node d kids rest) =
    if newer c.id d.id then node c nil (node d kids rest) else node d kids (place c rest)

-- Below the character `o`, wherever it stands.
unfoldable pub graft : CrdtId → CrdtChar → Forest → Forest
graft o c nil = nil
graft o c (node d kids rest) = elim (id_eq d.id o) [
  | true ↦ node d (place c kids) rest
  | false ↦ node d (graft o c kids) (graft o c rest)
]

unfoldable pub plant : Option CrdtId → CrdtChar → Forest → Forest
plant none c f = place c f
plant (some o) c f = graft o c f

pub place_comm :
    (a b : CrdtChar) (f : Forest) → a.id ≢ b.id → place a (place b f) ≡ place b (place a f)
unfolding place
place_comm a b nil h = elim (newer_total a.id b.id h) [
  | inl p ↦ ground (arith, newer_asymm a.id b.id)
  | inr p ↦ ground (arith, newer_asymm b.id a.id)
]
place_comm a b (node d kids rest) h = elim (newer_total a.id b.id h) [
  | inl p ↦ ground (arith, newer_asymm a.id b.id, newer_trans a.id b.id d.id, place_comm a b rest h)
  | inr p ↦ ground (arith, newer_asymm b.id a.id, newer_trans b.id a.id d.id, place_comm a b rest h)
]

-- A graft below `o` does not meet a new character that is not `o`.
graft-place :
    (o : CrdtId) (a b : CrdtChar) (f : Forest)
    → b.id ≢ o
    → graft o a (place b f) ≡ place b (graft o a f)
unfolding graft place
graft-place o a b nil h = ground (arith, id_eq_iff b.id o)
graft-place o a b (node d kids rest) h = ground (arith, id_eq_iff b.id o, graft-place o a b rest h)

graft_comm :
    (o p : CrdtId) (a b : CrdtChar) (f : Forest)
    → a.id ≢ b.id
    → a.id ≢ p
    → b.id ≢ o
    → graft o a (graft p b f) ≡ graft p b (graft o a f)
unfolding graft
graft_comm o p a b nil h k l = refl
graft_comm o p a b (node d kids rest) h k l = ground (
  arith,
  place_comm a b kids h,
  graft-place o a b kids l,
  graft-place p b a kids k,
  graft_comm o p a b kids h k l,
  graft_comm o p a b rest h k l,
)

-- Two characters that do not name one another as origin may be planted in either order.
pub plant_comm :
    (o p : Option CrdtId) (a b : CrdtChar) (f : Forest)
    → a.id ≢ b.id
    → p ≢ some a.id
    → o ≢ some b.id
    → plant o a (plant p b f) ≡ plant p b (plant o a f)
unfolding plant
plant_comm none none a b f h k l = place_comm a b f h
plant_comm none (some p) a b f h k l = sym (graft-place p b a f (λ e. k (ap some (sym e))))
plant_comm (some o) none a b f h k l = graft-place o a b f (λ e. l (ap some (sym e)))
plant_comm (some o) (some p) a b f h k l =
    graft_comm o p a b f h (λ e. k (ap some (sym e))) (λ e. l (ap some (sym e)))
