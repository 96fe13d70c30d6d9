-- ===== src/Project/Ignore/First.antt =====
-- About the ignored directory of a path in client/src/import/ignoreRules.ts.
use mathlib.Core.List.{append_assoc, append-nil}
use syncode.Base.{
  ℕ, zero, suc, ◌≡◌, refl, sym, ap, subst, ◌∙◌, ◌⊎◌, inl, inr, Bool, true, false, none, some, List,
  [], ◌∷◌, ◌++◌, arith, JsString, Option-cases, Bool-cases, any, take, drop,
}
use syncode.Project.Path.{slash, split, join, starts_with}
use syncode.Project.Path.Safe.{join-split, split-cons}
use syncode.Project.Ignore.{path_to, find_index, is_ignored_segment, get_ignored_directory_path}

-- The rest of a path behind some of its segments.
abbrev tail_of : List JsString → JsString
tail_of [] = []
tail_of (s ∷ ss) = slash ∷ join (s ∷ ss)

join-take :
    (i : ℕ) (s : JsString) (ss : List JsString)
    → join (s ∷ ss) ≡ join (take (suc i) (s ∷ ss)) ++ tail_of (drop (suc i) (s ∷ ss))
unfolding join
join-take zero s [] = sym (append-nil s)
join-take zero s (t ∷ ss) = refl
join-take (suc i) s [] = sym (append-nil s)
join-take (suc i) s (t ∷ ss) =
    ap (λ z. s ++ slash ∷ z) (join-take i t ss)
    ∙ sym (append_assoc s (slash ∷ join (t ∷ take i ss)) (tail_of (drop i ss)))

find_index-any :
    (test : JsString → Bool) (ss : List JsString) → find_index test ss ≡ none → any test ss ≡ false
unfolding find_index
find_index-any test [] h = refl
find_index-any test (s ∷ ss) h = ground (arith, find_index-any test ss)

-- The first segment that passes a test.
record First (test : JsString → Bool) (i : ℕ) (ss : List JsString) : Type 0 where
  before : List JsString
  segment : JsString
  after : List JsString
  whole : ss ≡ before ++ segment ∷ after
  taken : take (suc i) ss ≡ before ++ segment ∷ []
  hit : test segment ≡ true
  first : any test before ≡ false

find_index-First :
    (test : JsString → Bool) (i : ℕ) (ss : List JsString)
    → find_index test ss ≡ some i
    → First test i ss
unfolding find_index
find_index-First test i [] h = ground arith
find_index-First test i (s ∷ ss) h = elim (Bool-cases (test s)) [
  | inl hit ↦
      let here : 0 ≡ i = ground arith in
      subst (λ z. First test z (s ∷ ss)) here
        (record {
          before = [];
          segment = s;
          after = ss;
          whole = refl;
          taken = refl;
          hit = hit;
          first = refl;
        })
  | inr miss ↦ elim (Option-cases (find_index test ss)) [
    | inl absent ↦ ground arith
    | inr (j, found) ↦
        let r = find_index-First test j ss found in
        let next : suc j ≡ i = ground (arith, found) in
        subst (λ z. First test z (s ∷ ss)) next
          (record {
            before = s ∷ r.before;
            segment = r.segment;
            after = r.after;
            whole = ap (◌∷◌ s) r.whole;
            taken = ap (◌∷◌ s) r.taken;
            hit = r.hit;
            first = ground (arith, r.first);
          })
  ]
]

-- The segments of the path up to the first one that names an ignored directory.
pub record EndsIgnored (lower : JsString → JsString) (path ignored : JsString) : Type 0 where
  pub before : List JsString
  pub segment : JsString
  pub after : List JsString
  pub whole : split path ≡ before ++ segment ∷ after
  pub ends : ignored ≡ join (before ++ segment ∷ [])
  pub hit : is_ignored_segment lower segment ≡ true
  pub first : any (is_ignored_segment lower) before ≡ false

-- The ignored path of a path has its segments up to the first one that names an ignored directory,
-- and is a part of it that ends with the path or before a slash; without one, no segment of the path
-- names an ignored directory.
pub get_ignored_directory_path_lem :
    (lower : JsString → JsString) (path : JsString)
    → ((get_ignored_directory_path lower path ≡ none)
        × (any (is_ignored_segment lower) (split path) ≡ false))
      ⊎ ((ignored : JsString) × (rest : JsString) × (get_ignored_directory_path lower path
            ≡ some ignored)
          × EndsIgnored lower path ignored
          × (path ≡ ignored ++ rest)
          × ((rest ≡ []) ⊎ (starts_with slash rest ≡ true)))
unfolding get_ignored_directory_path
get_ignored_directory_path_lem lower path =
    let test = is_ignored_segment lower in
    elim (Option-cases (find_index test (split path))) [
      | inl h ↦ inl (ap (λ o. path_to o (split path)) h, find_index-any test (split path) h)
      | inr (i, h) ↦
          let (s, ss, e) = split-cons path in
          let r = find_index-First test i (split path) h in
          inr (
            join (take (suc i) (split path)),
            tail_of (drop (suc i) (split path)),
            ap (λ o. path_to o (split path)) h,
            record {
              before = r.before;
              segment = r.segment;
              after = r.after;
              whole = r.whole;
              ends = ap join r.taken;
              hit = r.hit;
              first = r.first;
            },
            sym (join-split path) ∙ rw e (join-take i s ss),
            tail_cases (drop (suc i) (split path)),
          )
    ]
  where
    tail_cases :
        (rest : List JsString) → (tail_of rest ≡ []) ⊎ (starts_with slash (tail_of rest) ≡ true)
    tail_cases [] = inl refl
    tail_cases (t ∷ rest) = inr refl
