-- ===== src/Editor/Search/Found.antt =====
-- About the matches that findWorkspaceMatches of workspaceSearch.ts returns.
use mathlib.Core.List.{append_assoc, append-nil}
use mathlib.Core.Option
use syncode.Base.{
  ℕ, zero, suc, ◌≤◌, ◌<◌, ◌≡◌, refl, sym, ap, subst, ◌∙◌, inl, inr, Bool, true, false, Bool-cases,
  leb, Option, some, All, List, [], ◌∷◌, ◌++◌, arith, JsString, length, length-append, take, map,
  snoc, if◌then◌else◌,
}
use syncode.Crdt.Tree.Op.{RoomEntry}
use syncode.Editor.Layout.{get_entry_path}
use syncode.Editor.Search.{
  max_search_matches, SearchOptions, SearchMatch, RegExpMatch, RegExps, split_lines,
  create_search_pattern, match_at, Progress, search_line, search_lines, search_entry, continue,
  search_entries, found_by, find_workspace_matches,
}

module _ {A : Type 0} where
  take-long : (n : ℕ) (xs ys : List A) → n ≤ length xs → take n (xs ++ ys) ≡ take n xs
  take-long zero xs ys h = refl
  take-long (suc n) [] ys h = absurd (omega arith)
  take-long (suc n) (x ∷ xs) ys h = ap (◌∷◌ x) (take-long n xs ys (omega arith))

  take-short : (n : ℕ) (xs : List A) → length xs ≤ n → take n xs ≡ xs
  take-short zero [] h = refl
  take-short zero (x ∷ xs) h = absurd (omega arith)
  take-short (suc n) [] h = refl
  take-short (suc n) (x ∷ xs) h = ap (◌∷◌ x) (take-short n xs (omega arith))

  pub length-take : (n : ℕ) (xs : List A) → length (take n xs) ≤ n
  length-take zero xs = omega arith
  length-take (suc n) [] = omega arith
  length-take (suc n) (x ∷ xs) = omega (arith, length-take n xs)

le_of_leb : (n k : ℕ) → leb n k ≡ true → n ≤ k
le_of_leb n k h = ground arith

lt_of_leb : (n k : ℕ) → leb n k ≡ false → k < n
lt_of_leb n k h = ground arith

leb_of_le : (n k : ℕ) → n ≤ k → leb n k ≡ true
leb_of_le n k h = ground arith

leb_of_lt : (n k : ℕ) → k < n → leb n k ≡ false
leb_of_lt n k h = ground arith

-- The progress after all these matches.
record After (all : List SearchMatch) (r : Progress) : Type 0 where
  found : r.0 ≡ take max_search_matches all
  full : r.1 ≡ leb max_search_matches (length all)

After-open : (all : List SearchMatch) → length all < max_search_matches → After all (all, false)
After-open all h = record {
  found = sym (take-short max_search_matches all (omega arith));
  full = sym (leb_of_lt max_search_matches (length all) h);
}

-- A search goes on where the one before it is not full.
After-bind :
    (all rest : List SearchMatch) (r next : Progress)
    → After all r
    → (length all < max_search_matches → r.0 ≡ all → After (all ++ rest) next)
    → After (all ++ rest) (if r.1 then (r.0, true) else next)
After-bind all rest r next a f = elim (Bool-cases (leb max_search_matches (length all))) [
  | inl full ↦
      let enough = le_of_leb max_search_matches (length all) full in
      rw (a.full, full)
        (record {
          found = a.found ∙ sym (take-long max_search_matches all rest enough);
          full = sym (
              leb_of_le max_search_matches (length (all ++ rest))
                (omega (arith, enough, length-append all rest)));
        })
  | inr room ↦
      let fewer = lt_of_leb max_search_matches (length all) room in
      rw (a.full, room)
        (f fewer (a.found ∙ take-short max_search_matches all (omega (arith, fewer))))
]

-- A search that ends, with the progress after all these matches.
abbrev Ends : List SearchMatch → Option Progress → Type 0
Ends all o = (r : Progress) × (o ≡ some r) × After all r

After-continue :
    (all rest : List SearchMatch) (r : Progress) (next : List SearchMatch → Option Progress)
    → After all r
    → (length all < max_search_matches → r.0 ≡ all → Ends (all ++ rest) (next r.0))
    → Ends (all ++ rest) (continue next (some r))
After-continue all rest (found, true) next a f =
    let enough = le_of_leb max_search_matches (length all) (sym a.full) in
    (
      (found, true),
      refl,
      record {
        found = a.found ∙ sym (take-long max_search_matches all rest enough);
        full = sym (
            leb_of_le max_search_matches (length (all ++ rest))
              (omega (arith, enough, length-append all rest)));
      },
    )
After-continue all rest (found, false) next a f =
    let fewer = lt_of_leb max_search_matches (length all) (sym a.full) in
    f fewer (a.found ∙ take-short max_search_matches all (omega (arith, fewer)))

Ends-continue :
    (found now rest : List SearchMatch) (r : Progress) (next : List SearchMatch → Option Progress)
    → After (found ++ now) r
    → ((found' : List SearchMatch)
        → length found' < max_search_matches
        → Ends (found' ++ rest) (next found'))
    → Ends (found ++ (now ++ rest)) (continue next (some r))
Ends-continue found now rest r next a f =
    subst (λ z. Ends z (continue next (some r))) (append_assoc found now rest)
      (After-continue (found ++ now) rest r next a (λ lt q.
        subst (λ z. Ends (z ++ rest) (next r.0)) q
          (f r.0 (subst (λ z. length z < max_search_matches) (sym q) lt))))

-- The path that the search finds for each file.
abbrev pub HasPaths : (RoomEntry → JsString) → List RoomEntry → List RoomEntry → Type 0
HasPaths path all es = All (λ e. e.is_folder ≡ false → get_entry_path e all ≡ some (path e)) es

module _ {R : Type 0} (re : RegExps R) where
  abbrev pub line_matches : JsString → JsString → ℕ → JsString → List RegExpMatch → List SearchMatch
  line_matches file_id path line text ms = map (match_at file_id path line text) ms

  -- All matches of the lines, numbered from `line` on.
  abbrev pub lines_matches : R → JsString → JsString → ℕ → List JsString → List SearchMatch
  lines_matches pattern file_id path line [] = []
  lines_matches pattern file_id path line (text ∷ lines) =
      line_matches file_id path line text (re.match_all pattern text)
      ++ lines_matches pattern file_id path (suc line) lines

  -- All matches of the files among the entries.
  abbrev pub all_matches :
      R → (JsString → JsString) → (RoomEntry → JsString) → List RoomEntry → List SearchMatch
  all_matches pattern content path [] = []
  all_matches pattern content path (e ∷ es) =
      (if e.is_folder
        then []
        else lines_matches pattern e.id (path e) 1 (split_lines (content e.id)))
      ++ all_matches pattern content path es

  search_line-After :
      (file_id path : JsString) (line : ℕ) (text : JsString) (ms : List RegExpMatch)
      (found : List SearchMatch)
      → length found < max_search_matches
      → After
          (found ++ line_matches file_id path line text ms)
          (search_line re file_id path line text ms found)
  unfolding search_line
  search_line-After file_id path line text [] found h =
      subst (λ z. After z (found, false)) (sym (append-nil found)) (After-open found h)
  search_line-After file_id path line text (m ∷ ms) found h =
      let here = match_at file_id path line text m in
      let found' = found ++ here ∷ [] in
      let rest = line_matches file_id path line text ms in
      subst (λ z. After z (search_line re file_id path line text (m ∷ ms) found))
        (snoc found rest here)
        (After-bind found' rest (found', leb max_search_matches (length found'))
          (search_line re file_id path line text ms found')
          (record {
            found = sym (
                take-short max_search_matches found'
                  (omega (arith, h, length-append found (here ∷ []))));
            full = refl;
          })
          (λ lt e. search_line-After file_id path line text ms found' lt))

  search_lines-After :
      (pattern : R) (file_id path : JsString) (line : ℕ) (lines : List JsString)
      (found : List SearchMatch)
      → length found < max_search_matches
      → After
          (found ++ lines_matches pattern file_id path line lines)
          (search_lines re pattern file_id path line lines found)
  unfolding search_lines
  search_lines-After pattern file_id path line [] found h =
      subst (λ z. After z (found, false)) (sym (append-nil found)) (After-open found h)
  search_lines-After pattern file_id path line (text ∷ lines) found h =
      let here = line_matches file_id path line text (re.match_all pattern text) in
      let rest = lines_matches pattern file_id path (suc line) lines in
      let r = search_line re file_id path line text (re.match_all pattern text) found in
      subst (λ z. After z (search_lines re pattern file_id path line (text ∷ lines) found))
        (append_assoc found here rest)
        (After-bind (found ++ here) rest r
          (search_lines re pattern file_id path (suc line) lines r.0)
          (search_line-After file_id path line text (re.match_all pattern text) found h)
          (λ lt e.
            subst
              (λ z. After (z ++ rest) (search_lines re pattern file_id path (suc line) lines r.0)) e
              (search_lines-After pattern file_id path (suc line) lines r.0
                (subst (λ z. length z < max_search_matches) (sym e) lt))))

  search_entries-Ends :
      (pattern : R) (content : JsString → JsString) (path : RoomEntry → JsString)
      (all es : List RoomEntry) (found : List SearchMatch)
      → HasPaths path all es
      → length found < max_search_matches
      → Ends
          (found ++ all_matches pattern content path es)
          (search_entries re pattern content all es found)
  unfolding search_entries
  search_entries-Ends pattern content path all [] found p h = (
    (found, false),
    refl,
    subst (λ z. After z (found, false)) (sym (append-nil found)) (After-open found h),
  )
  search_entries-Ends pattern content path all (e ∷ es) found p h =
      entry e.is_folder refl
        λ found' lt. search_entries-Ends pattern content path all es found' p.1 lt
    where
      entry :
          (folder : Bool)
          → e.is_folder ≡ folder
          → ((found' : List SearchMatch)
              → length found' < max_search_matches
              → Ends
                  (found' ++ all_matches pattern content path es)
                  (search_entries re pattern content all es found'))
          → Ends
              (found
                ++ ((if folder
                      then []
                      else lines_matches pattern e.id (path e) 1 (split_lines (content e.id)))
                    ++ all_matches pattern content path es))
              (continue (search_entries re pattern content all es) (
                if folder
                then some (found, false)
                else search_entry re pattern content e found (get_entry_path e all)))
      entry true q rest =
          Ends-continue found [] (all_matches pattern content path es) (found, false)
            (search_entries re pattern content all es)
            (subst (λ z. After z (found, false)) (sym (append-nil found)) (After-open found h)) rest
      entry false q rest = rw (p.0 q) (
          Ends-continue found (lines_matches pattern e.id (path e) 1 (split_lines (content e.id)))
            (all_matches pattern content path es)
            (search_lines re pattern e.id (path e) 1 (split_lines (content e.id)) found)
            (search_entries re pattern content all es)
            (search_lines-After pattern e.id (path e) 1 (split_lines (content e.id)) found h) rest)

  -- For a query with a pattern, if the loop for the path of a file ends for every file, a search in a
  -- workspace ends and returns the first 500 of all matches, in the order of the entries, the lines
  -- and the matches of a line, or all if there are fewer.
  pub find_workspace_matches-take :
      (entries : List RoomEntry) (query : JsString) (content : JsString → JsString)
      (options : SearchOptions) (pattern : R) (path : RoomEntry → JsString)
      → create_search_pattern re query options ≡ some pattern
      → HasPaths path entries entries
      → find_workspace_matches re entries query (some content) options
        ≡ some (take max_search_matches (all_matches pattern content path entries))
  unfolding find_workspace_matches
  find_workspace_matches-take entries query content options pattern path h p =
      let (r, ends, after) =
        search_entries-Ends pattern content path entries entries [] p (omega arith) in
      ap (λ o. found_by re entries o (some content)) h
      ∙ ap (Option.map (λ (q : Progress). q.0)) ends
      ∙ ap some after.found
