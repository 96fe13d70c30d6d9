-- ===== src/Editor/Search/Grouped.antt =====
-- The matches grouped by file.
use mathlib.Core.List.{append-nil}
use syncode.Base.{
  ◌≤◌, max, ◌≡◌, refl, sym, ap, subst, ◌∙◌, inl, inr, Bool, false, Bool-cases, List, [], ◌∷◌, ◌++◌,
  arith, JsString, str_eq, str_eq_iff, str_eq_refl, map, filter_by, filter_by-keep, filter_by-drop,
  snoc, if◌then◌else◌,
}
use syncode.Base.Counting.{times}
use syncode.Editor.Search.{
  SearchMatch, SearchFileGroup, add_search_match, group_from, group_search_matches,
}

abbrev pub group_ids : List SearchFileGroup → List JsString
group_ids gs = map (λ (g : SearchFileGroup). g.file_id) gs

-- The matches of the groups of a file.
abbrev pub matches_of : JsString → List SearchFileGroup → List SearchMatch
matches_of file [] = []
matches_of file (g ∷ gs) =
    let rest = matches_of file gs in if str_eq g.file_id file then g.matches ++ rest else rest

abbrev pub in_file : JsString → SearchMatch → Bool
in_file file m = str_eq m.file_id file

times-add :
    (x : JsString) (m : SearchMatch) (gs : List SearchFileGroup)
    → times x (group_ids (add_search_match m gs))
      ≡ (if str_eq m.file_id x then max 1 (times x (group_ids gs)) else times x (group_ids gs))
unfolding add_search_match
times-add x m [] = ground arith
times-add x m (g ∷ gs) = ground (
  arith,
  times-add x m gs,
  str_eq_iff g.file_id m.file_id,
  str_eq_iff g.file_id x,
  str_eq_iff m.file_id x,
)

matches_of-absent :
    (file : JsString) (gs : List SearchFileGroup)
    → times file (group_ids gs) ≡ 0
    → matches_of file gs ≡ []
matches_of-absent file [] h = refl
matches_of-absent file (g ∷ gs) h = ground (arith, matches_of-absent file gs)

matches_of-other :
    (file : JsString) (m : SearchMatch) (gs : List SearchFileGroup)
    → str_eq m.file_id file ≡ false
    → matches_of file (add_search_match m gs) ≡ matches_of file gs
unfolding add_search_match
matches_of-other file m [] h = ground arith
matches_of-other file m (g ∷ gs) h = ground (
  arith,
  matches_of-other file m gs,
  str_eq_iff g.file_id m.file_id,
  str_eq_iff g.file_id file,
  str_eq_iff m.file_id file,
)

matches_of-same :
    (m : SearchMatch) (gs : List SearchFileGroup)
    → times m.file_id (group_ids gs) ≤ 1
    → matches_of m.file_id (add_search_match m gs) ≡ matches_of m.file_id gs ++ m ∷ []
unfolding add_search_match
matches_of-same m [] h = ground (arith, str_eq_refl m.file_id)
matches_of-same m (g ∷ gs) h = elim (Bool-cases (str_eq g.file_id m.file_id)) [
  | inl same ↦
      rw (same, matches_of-absent m.file_id gs (ground arith))
        (rw same
          (append-nil (g.matches ++ m ∷ []) ∙ ap (λ z. z ++ m ∷ []) (sym (append-nil g.matches))))
  | inr other ↦ rw other (rw other (matches_of-same m gs (ground arith)))
]

-- Groups with no file twice stay so, and each match is at the end of its file's matches.
group_from-matches :
    (gs : List SearchFileGroup) (ms : List SearchMatch)
    → ((x : JsString) → times x (group_ids gs) ≤ 1)
    → ((x : JsString) → times x (group_ids (group_from gs ms)) ≤ 1)
      × ((file : JsString)
          → matches_of file (group_from gs ms) ≡ matches_of file gs ++ filter_by (in_file file) ms)
unfolding group_from
group_from-matches gs [] h = (h, λ file. sym (append-nil (matches_of file gs)))
group_from-matches gs (m ∷ ms) h =
    let unique : (x : JsString) → times x (group_ids (add_search_match m gs)) ≤ 1 =
      λ x. ground (arith, h x, times-add x m gs) in
    let (once, all) = group_from-matches (add_search_match m gs) ms unique in
    (once, λ file. all file ∙ added file)
  where
    added :
        (file : JsString)
        → matches_of file (add_search_match m gs) ++ filter_by (in_file file) ms
          ≡ matches_of file gs ++ filter_by (in_file file) (m ∷ ms)
    added file = elim (Bool-cases (str_eq m.file_id file)) [
      | inl same ↦
          let q = (str_eq_iff m.file_id file).0 same in
          rw (filter_by-keep (in_file file) m ms same) (
            ap (λ z. z ++ filter_by (in_file file) ms)
              (subst (λ f. matches_of f (add_search_match m gs) ≡ matches_of f gs ++ m ∷ []) q
                (matches_of-same m gs (h m.file_id)))
            ∙ snoc (matches_of file gs) (filter_by (in_file file) ms) m)
      | inr other ↦
          rw (filter_by-drop (in_file file) m ms other)
            (ap (λ z. z ++ filter_by (in_file file) ms) (matches_of-other file m gs other))
    ]

-- No two groups of matches are for one file, and the group of a file has the matches in it, all of
-- them, in their order.
pub group_search_matches-filter :
    (ms : List SearchMatch)
    → ((x : JsString) → times x (group_ids (group_search_matches ms)) ≤ 1)
      × ((file : JsString)
          → matches_of file (group_search_matches ms) ≡ filter_by (in_file file) ms)
unfolding group_search_matches
group_search_matches-filter ms = group_from-matches [] ms (λ x. omega arith)
