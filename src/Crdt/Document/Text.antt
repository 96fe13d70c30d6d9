-- ===== src/Crdt/Document/Text.antt =====
-- `fromText`: a new document from a text.
use mathlib.Core.List.{append-nil}
use syncode.Base.{
  ℕ, suc, ◌≤◌, ◌≡◌, refl, sym, ap, ◌∙◌, false, Option, none, some, List, [], ◌∷◌, ◌++◌, arith,
  JsString,
}
use syncode.Crdt.Id.{CrdtId, id_eq_iff}
use syncode.Crdt.Document.{
  CrdtChar, push_values, code_points, from_text, join_values, visible_chars, to_visible_string,
  next_id,
}
use syncode.Crdt.Document.Forest.{Forest, nil, node, flatten}
use syncode.Crdt.Document.Forest.Present.{present, Distinct}
use syncode.Crdt.Document.Forest.Refine.{Rooted}
use syncode.Crdt.Document.Local.{ClockBounds}
use syncode.Crdt.Document.Invariant.{Inv}

abbrev pub concat : List JsString → JsString
concat [] = []
concat (s ∷ ss) = s ++ concat ss

pub concat-code_points : (s : JsString) → concat (code_points s) ≡ s
unfolding code_points
concat-code_points [] = refl
concat-code_points (c ∷ []) = refl
concat-code_points (c ∷ d ∷ s) = ground (arith, concat-code_points s, concat-code_points (d ∷ s))

join-push_values :
    (site : JsString) (k : ℕ) (o : Option CrdtId) (vs : List JsString)
    → join_values (visible_chars (push_values site k o vs).1) ≡ concat vs
unfolding visible_chars push_values
join-push_values site k o [] = refl
join-push_values site k o (v ∷ vs) = ap (◌++◌ v) (join-push_values site (suc k) _ vs)

-- A list of characters, each below the one before.
chain : List CrdtChar → Forest
chain [] = nil
chain (c ∷ cs) = node c (chain cs) nil

flatten-chain : (cs : List CrdtChar) → flatten (chain cs) ≡ cs
unfolding flatten chain
flatten-chain [] = refl
flatten-chain (c ∷ cs) = ap (◌∷◌ c) (append-nil _ ∙ flatten-chain cs)

chain-Rooted :
    (site : JsString) (k : ℕ) (o : Option CrdtId) (vs : List JsString)
    → Rooted o (chain (push_values site k o vs).1)
unfolding chain push_values
chain-Rooted site k o [] = tt
chain-Rooted site k o (v ∷ vs) = (refl, chain-Rooted site (suc k) _ vs, tt)

-- The counters lie above the clock at the start and up to the clock at the end.
push_values-absent :
    (site : JsString) (k : ℕ) (o : Option CrdtId) (vs : List JsString) (id : CrdtId)
    → id.counter ≤ k
    → present id (push_values site k o vs).1 ≡ false
unfolding push_values present
push_values-absent site k o [] id h = refl
push_values-absent site k o (v ∷ vs) id h = ground (
  arith,
  id_eq_iff (next_id site k) id,
  push_values-absent site (suc k) (some (next_id site k)) vs id (omega arith),
)

push_values-Distinct :
    (site : JsString) (k : ℕ) (o : Option CrdtId) (vs : List JsString)
    → Distinct (push_values site k o vs).1
unfolding push_values
push_values-Distinct site k o [] = tt
push_values-Distinct site k o (v ∷ vs) =
    (push_values-absent site (suc k) _ vs _ (omega arith), push_values-Distinct site (suc k) _ vs)

push_values-le :
    (site : JsString) (k : ℕ) (o : Option CrdtId) (vs : List JsString)
    → k ≤ (push_values site k o vs).0
unfolding push_values
push_values-le site k o [] = omega arith
push_values-le site k o (v ∷ vs) =
    omega (arith, push_values-le site (suc k) (some (next_id site k)) vs)

push_values-ClockBounds :
    (site : JsString) (k : ℕ) (o : Option CrdtId) (vs : List JsString)
    → ClockBounds (push_values site k o vs).0 (push_values site k o vs).1
unfolding push_values
push_values-ClockBounds site k o [] = tt
push_values-ClockBounds site k o (v ∷ vs) =
    (push_values-le site (suc k) _ vs, push_values-ClockBounds site (suc k) _ vs)

-- A document made from a text is well formed and shows exactly that text.
pub from_text-Inv :
    (site text : JsString)
    → Inv (from_text site text) × (to_visible_string (from_text site text) ≡ text)
unfolding from_text to_visible_string
from_text-Inv site text =
    let vs = code_points text in
    (
      record {
        formed = record {
          forest = chain (push_values site 0 none vs).1;
          reads = sym (flatten-chain _);
          rooted = chain-Rooted site 0 none vs;
          distinct = push_values-Distinct site 0 none vs;
        };
        bounds = push_values-ClockBounds site 0 none vs;
      },
      join-push_values site 0 none vs ∙ concat-code_points text,
    )
