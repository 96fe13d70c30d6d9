-- ===== src/Crdt/Tree/Visible/Climbs.antt =====
-- About the walk over the parents of a tree of client/src/crdt/ProjectTree.ts, and the chains it makes.
use mathlib.Core.Option.{some-injective}
use syncode.Base.{
  ℕ, zero, suc, ◌≡◌, refl, sym, ap, subst, ◌∙◌, ◌⊎◌, inl, inr, true, false, not, ◌||◌, Option, none,
  some, List, [], ◌∷◌, ◌++◌, arith, JsString, str_eq, str_eq_iff, str_eq_refl, Bool-cases, All,
  if_lem, if◌then◌else◌,
}
use syncode.Base.Assoc.{Assoc, get-put, put, has, has-get, includes}
use syncode.Crdt.Id.{CrdtId}
use syncode.Crdt.Tree.Visible.{
  parent_of, from_first, lowest_version, lowest_of, older_version, follow, detach,
}

abbrev pub Parents : Type 0
Parents = Assoc (Option JsString)

-- The walk over the parents from here comes to the top.
pub data Climbs (parents : Assoc (Option JsString)) : Option JsString → Type 0 where
  top : Climbs parents none
  up : (id : JsString) → Climbs parents (parent_of parents id) → Climbs parents (some id)

abbrev pub AllClimb : Parents → List JsString → Type 0
AllClimb p xs = All (λ x. Climbs p (some x)) xs

-- Some entries are moved to the top.
abbrev pub Cuts : Parents → Parents → Type 0
Cuts p p' = (x : JsString) → (parent_of p' x ≡ none) ⊎ (parent_of p' x ≡ parent_of p x)

at_top : (p : Parents) (x : JsString) → parent_of p x ≡ none → Climbs p (some x)
at_top p x h = up x (subst (Climbs p) (sym h) top)

below :
    (p p' : Parents) (x : JsString) (o : Option JsString)
    → Cuts p p'
    → parent_of p x ≡ o
    → Climbs p' o
    → Climbs p' (some x)
below p p' x o c e h = elim (c x) [
  | inl cut ↦ at_top p' x cut
  | inr same ↦ up x (subst (Climbs p') (sym (same ∙ e)) h)
]

pub Climbs-Cuts : (p p' : Parents) (o : Option JsString) → Cuts p p' → Climbs p o → Climbs p' o
Climbs-Cuts p p' _ c top = top
Climbs-Cuts p p' _ c (up x h) =
    below p p' x (parent_of p x) c refl (Climbs-Cuts p p' (parent_of p x) c h)

parent_of-put :
    (p : Parents) (l x : JsString)
    → parent_of (put l none p) x ≡ (if str_eq l x then none else parent_of p x)
unfolding parent_of
parent_of-put p l x = ground (arith, get-put l x none p)

pub detach-Cuts : (p : Parents) (cut : Option JsString) → Cuts p (detach cut p)
detach-Cuts p none x = inr refl
detach-Cuts p (some l) x = ground (arith, parent_of-put p l x)

-- Each entry of a path is the parent of the one before, and the path goes on at `o`.
abbrev Chain : Parents → List JsString → Option JsString → Type 0
Chain p [] o = Unit
Chain p (x ∷ []) o = parent_of p x ≡ o
Chain p (x ∷ y ∷ xs) o = (parent_of p x ≡ some y) × Chain p (y ∷ xs) o

Chain-snoc :
    (p : Parents) (xs : List JsString) (c : JsString)
    → Chain p xs (some c)
    → Chain p (xs ++ c ∷ []) (parent_of p c)
Chain-snoc p [] c h = refl
Chain-snoc p (x ∷ []) c h = (h, refl)
Chain-snoc p (x ∷ y ∷ xs) c h = (h.0, Chain-snoc p (y ∷ xs) c h.1)

Chain-climb :
    (p p' : Parents) (xs : List JsString) (o : Option JsString)
    → Cuts p p'
    → Chain p xs o
    → Climbs p' o
    → AllClimb p' xs
Chain-climb p p' [] o c h k = tt
Chain-climb p p' (x ∷ []) o c h k = (below p p' x o c h k, tt)
Chain-climb p p' (x ∷ y ∷ xs) o c h k =
    let rest = Chain-climb p p' (y ∷ xs) o c h.1 k in (below p p' x (some y) c h.0 rest.0, rest)

-- Up to an entry of the path that is at the top.
Chain-up_to :
    (p p' : Parents) (x : JsString) (xs : List JsString) (o : Option JsString) (l : JsString)
    → Cuts p p'
    → Chain p (x ∷ xs) o
    → includes l (x ∷ xs) ≡ true
    → parent_of p' l ≡ none
    → Climbs p' (some x)
unfolding includes
Chain-up_to p p' x [] o l c h k e =
    at_top p' x (subst (λ z. parent_of p' z ≡ none) (sym ((str_eq_iff x l).0 (ground arith))) e)
Chain-up_to p p' x (y ∷ xs) o l c h k e = elim (Bool-cases (str_eq x l)) [
  | inl here ↦ at_top p' x (subst (λ z. parent_of p' z ≡ none) (sym ((str_eq_iff x l).0 here)) e)
  | inr later ↦ below p p' x (some y) c h.0 (Chain-up_to p p' y xs o l c h.1 (ground arith) e)
]

from_first-Chain :
    (p : Parents) (c : JsString) (xs : List JsString) (o : Option JsString)
    → Chain p xs o
    → includes c xs ≡ true
    → (r : List JsString) × (from_first c xs ≡ c ∷ r) × Chain p (c ∷ r) o
unfolding from_first includes
from_first-Chain p c [] o h k = ground arith
from_first-Chain p c (x ∷ []) o h k =
    let same : str_eq x c ≡ true = ground arith in
    let e = (str_eq_iff x c).0 same in
    ([], rw same (ap (λ z. z ∷ []) e), subst (λ z. parent_of p z ≡ o) e h)
from_first-Chain p c (x ∷ y ∷ xs) o h k = elim (Bool-cases (str_eq x c)) [
  | inl same ↦
      let e = (str_eq_iff x c).0 same in
      (y ∷ xs, rw same (ap (λ z. z ∷ y ∷ xs) e), (subst (λ z. parent_of p z ≡ some y) e h.0, h.1))
  | inr other ↦
      let (r, e, chain) = from_first-Chain p c (y ∷ xs) o h.1 (ground arith) in
      (r, rw other e, chain)
]

lowest_version-includes :
    (versions : Assoc CrdtId) (c : JsString) (cs : List JsString)
    → includes (lowest_version versions c cs) (c ∷ cs) ≡ true
unfolding lowest_version includes
lowest_version-includes versions c [] = ground (arith, str_eq_refl c)
lowest_version-includes versions c (d ∷ cs) =
    if_lem (λ z. includes (lowest_version versions z cs) (c ∷ d ∷ cs) ≡ true)
      (older_version versions d c) d c
      (λ older. ground (arith, lowest_version-includes versions d cs))
      (λ not_older. ground (arith, lowest_version-includes versions c cs))

-- A path that comes back to one of its entries, with the oldest entry of the cycle at the top.
cycle-climb :
    (p : Parents) (versions : Assoc CrdtId) (c : JsString) (path : List JsString)
    → Chain p path (some c)
    → includes c path ≡ true
    → let cut = lowest_of versions (from_first c path) in
      AllClimb (detach cut p) path × Climbs (detach cut p) (some c)
cycle-climb p versions c path chain there =
    let (r, e, tail) = from_first-Chain p c path (some c) chain there in
    let l = lowest_version versions c r in
    let p' = detach (some l) p in
    let cuts = detach-Cuts p (some l) in
    let gone : parent_of p' l ≡ none = parent_of-put p l l ∙ rw (str_eq_refl l) refl in
    let here =
      Chain-up_to p p' c r (some c) l cuts tail (lowest_version-includes versions c r) gone in
    subst
      (λ z.
        AllClimb (detach (lowest_of versions z) p) path
        × Climbs (detach (lowest_of versions z) p) (some c))
      (sym e) (Chain-climb p p' path (some c) cuts chain here, here)

pub AllClimb-includes :
    (p : Parents) (c : JsString) (xs : List JsString)
    → AllClimb p xs
    → includes c xs ≡ true
    → Climbs p (some c)
unfolding includes
AllClimb-includes p c [] a h = ground arith
AllClimb-includes p c (x ∷ xs) a h = elim (Bool-cases (str_eq x c)) [
  | inl same ↦ subst (λ z. Climbs p (some z)) ((str_eq_iff x c).0 same) a.0
  | inr other ↦ AllClimb-includes p c xs a.1 (ground arith)
]

pub unknown-climb : (p : Parents) (c : JsString) → has c p ≡ false → Climbs p (some c)
unfolding parent_of
unknown-climb p c h = at_top p c (ground (arith, has-get c p))

-- What is asked of the end of a walk.
abbrev Walked : Parents → Option JsString → List JsString × Option JsString → Type 0
Walked p current r = AllClimb (detach r.1 p) r.0 × Climbs (detach r.1 p) current

pub follow-Walked :
    (fuel : ℕ) (p : Parents) (versions : Assoc CrdtId) (complete path : List JsString)
    (current : Option JsString) (r : List JsString × Option JsString)
    → AllClimb p complete
    → Chain p path current
    → follow fuel p versions complete path current ≡ some r
    → Walked p current r
unfolding follow
follow-Walked zero p versions complete path current r a chain h = ground arith
follow-Walked (suc fuel) p versions complete path none r a chain h =
    subst (Walked p none) (some-injective _ _ h)
      (Chain-climb p p path none (λ x. inr refl) chain top, top)
follow-Walked (suc fuel) p versions complete path (some c) r a chain h =
    if_lem (λ (z : Option (List JsString × Option JsString)). z ≡ some r → Walked p (some c) r)
      (not (has c p) || includes c complete) _ _
      (λ known q.
        let here = met known in
        subst (Walked p (some c)) (some-injective _ _ q)
          (Chain-climb p p path (some c) (λ x. inr refl) chain here, here))
      (λ new.
        if_lem (λ (z : Option (List JsString × Option JsString)). z ≡ some r → Walked p (some c) r)
          (includes c path) _ _
          (λ cycle q.
            subst (Walked p (some c)) (some-injective _ _ q)
              (cycle-climb p versions c path chain cycle))
          (λ fresh q.
            let w =
              follow-Walked fuel p versions complete (path ++ c ∷ []) (parent_of p c) r a
                (Chain-snoc p path c chain) q in
            (w.0, below p (detach r.1 p) c (parent_of p c) (detach-Cuts p r.1) refl w.1)))
      h
  where
    met : not (has c p) || includes c complete ≡ true → Climbs p (some c)
    met k = elim (Bool-cases (has c p)) [
      | inl there ↦ AllClimb-includes p c complete a (ground arith)
      | inr missing ↦ unknown-climb p c missing
    ]
