-- ===== src/Project/Import/Offered.antt =====
-- The candidates that an inspection offers.
use mathlib.Core.List.{map-append}
use syncode.Base.{
  ℕ, ◌≤◌, ◌≡◌, refl, subst, inl, inr, Bool, true, false, Bool-cases, Option, none, some, List, [],
  ◌∷◌, arith, JsString, str_eq, str_eq_iff, ltb, leb, length, length-append, take, map, All,
  All-append, if_lem, le_of_ltb, if◌then◌else◌,
}
use syncode.Base.Assoc.{includes}
use syncode.Base.Counting.{times, times-append}
use syncode.Project.Path.{normalize_import_path}
use syncode.Project.Ignore.{get_ignored_directory_path, get_import_ignore_reason}
use syncode.Project.Import.{
  max_import_file_bytes, max_import_file_count, max_scanned_entries, ImportFileCandidate,
  SkippedFile, FolderFileSource, InspectedSource, candidate, skipped, new_candidate,
  validate_text_file, checked_text, checked_size, checked_path, skipped_path, inspect_source,
  Inspecting, add_inspected, inspect_sources, inspect_folder_files,
}

lt_of_leb : (k : ℕ) → leb max_import_file_count k ≡ false → k ≤ 499
lt_of_leb k h = ground arith

module _ (lower : JsString → JsString) (is_utf8 : List ℕ → Bool) where
  -- A file that an import may take: a safe path that no rule ignores, and text of at most 64 KB.
  pub record IsOffered (c : ImportFileCandidate) : Type 0 where
    pub raw : JsString
    pub safe : normalize_import_path raw ≡ some c.path
    pub wanted : get_import_ignore_reason lower c.path false ≡ none
    pub is_text : validate_text_file is_utf8 c.file ≡ none
    pub measured : c.size ≡ c.file.size
    pub small : c.size ≤ max_import_file_bytes
    pub chosen : c.selected ≡ true

  abbrev pub key_of : ImportFileCandidate → JsString
  key_of c = lower c.path

  abbrev pub path_keys : List ImportFileCandidate → List JsString
  path_keys cs = map key_of cs

  abbrev Seen : List JsString → List ImportFileCandidate → Type 0
  Seen seen cs = (x : JsString) → times x (path_keys cs) ≤ (if includes x seen then 1 else 0)

  record Offer (s : Inspecting lower is_utf8) : Type 0 where
    each : All IsOffered s.candidates
    distinct : Seen s.seen s.candidates
    few : length s.candidates ≤ max_import_file_count

  Seen-more :
      (key : JsString) (seen : List JsString) (cs : List ImportFileCandidate)
      → Seen seen cs
      → Seen (key ∷ seen) cs
  unfolding includes
  Seen-more key seen cs h x = ground (arith, h x)

  Offer-skipped :
      (path reason : JsString) (directory : Option JsString) (seen : List JsString)
      (s : Inspecting lower is_utf8)
      → Offer s
      → Seen seen s.candidates
      → Offer (add_inspected lower is_utf8 (skipped path reason directory) seen s)
  Offer-skipped path reason directory seen s o h =
      elim (Bool-cases
        (includes (lower (skipped_path lower is_utf8 path directory)) s.seen_skipped)) [
          | inl met ↦ rw met (record { each = o.each; distinct = h; few = o.few })
          | inr new ↦ rw new (record { each = o.each; distinct = h; few = o.few })
        ]

  Offer-candidate :
      (path : JsString) (source : FolderFileSource) (s : Inspecting lower is_utf8)
      → Offer s
      → IsOffered (new_candidate path source.file)
      → includes (lower path) s.seen ≡ false
      → length s.candidates ≤ 499
      → Offer (
          add_inspected lower is_utf8
            (candidate (new_candidate path source.file))
            (lower path ∷ s.seen)
            s)
  unfolding includes
  Offer-candidate path source s o c new room =
      let this = new_candidate path source.file in
      record {
        each = All-append IsOffered s.candidates (this ∷ []) o.each (c, tt);
        distinct = λ x. elim (Bool-cases (str_eq (lower path) x)) [
          | inl same ↦
              let q = (str_eq_iff (lower path) x).0 same in
              let absent : includes x s.seen ≡ false =
                subst (λ z. includes z s.seen ≡ false) q new in
              ground (
                arith,
                o.distinct x,
                map-append key_of s.candidates (this ∷ []),
                times-append x (path_keys s.candidates) (lower path ∷ []),
              )
          | inr other ↦ ground (
            arith,
            o.distinct x,
            map-append key_of s.candidates (this ∷ []),
            times-append x (path_keys s.candidates) (lower path ∷ []),
          )
        ];
        few = omega (arith, room, length-append s.candidates (this ∷ []));
      }

  checked_size-Offer :
      (path : JsString) (source : FolderFileSource) (s : Inspecting lower is_utf8)
      → Offer s
      → normalize_import_path source.path ≡ some path
      → includes (lower path) s.seen ≡ false
      → Offer (
          add_inspected lower is_utf8
            (checked_size lower is_utf8 path source.file
              (length s.candidates)
              (get_import_ignore_reason lower path false))
            (lower path ∷ s.seen)
            s)
  checked_size-Offer path source s o safe new =
      rules (get_import_ignore_reason lower path false) refl
    where
      seen : Seen (lower path ∷ s.seen) s.candidates
      seen = Seen-more (lower path) s.seen s.candidates o.distinct

      Next : InspectedSource → Type 0
      Next i = Offer (add_inspected lower is_utf8 i (lower path ∷ s.seen) s)

      read :
          (r : Option JsString)
          → validate_text_file is_utf8 source.file ≡ r
          → get_import_ignore_reason lower path false ≡ none
          → source.file.size ≤ max_import_file_bytes
          → length s.candidates ≤ 499
          → Next (checked_text lower is_utf8 path source.file r)
      read (some reason) e wanted small room =
          Offer-skipped path reason none (lower path ∷ s.seen) s o seen
      read none e wanted small room =
          let c : IsOffered (new_candidate path source.file) = record {
            raw = source.path;
            safe = safe;
            wanted = wanted;
            is_text = e;
            measured = refl;
            small = small;
            chosen = refl;
          } in
          Offer-candidate path source s o c new room

      rules :
          (r : Option JsString)
          → get_import_ignore_reason lower path false ≡ r
          → Next (checked_size lower is_utf8 path source.file (length s.candidates) r)
      rules (some reason) e =
          Offer-skipped path reason (get_ignored_directory_path lower path) (lower path ∷ s.seen) s
            o seen
      rules none e =
          if_lem Next (ltb max_import_file_bytes source.file.size) _ _
            (λ large. Offer-skipped path _ none (lower path ∷ s.seen) s o seen)
            (λ small.
              if_lem Next (leb max_import_file_count (length s.candidates)) _ _
                (λ full. Offer-skipped path _ none (lower path ∷ s.seen) s o seen)
                (λ room.
                  read (validate_text_file is_utf8 source.file) refl e (le_of_ltb _ _ small)
                    (lt_of_leb (length s.candidates) room)))

  checked_path-Offer :
      (source : FolderFileSource) (s : Inspecting lower is_utf8) (o : Option JsString)
      → normalize_import_path source.path ≡ o
      → Offer s
      → let (inspected, seen) = checked_path lower is_utf8 source s.seen (length s.candidates) o in
        Offer (add_inspected lower is_utf8 inspected seen s)
  checked_path-Offer source s none e o = Offer-skipped _ _ none s.seen s o o.distinct
  checked_path-Offer source s (some path) e o =
      if_lem
        (λ (r : InspectedSource × List JsString). Offer (add_inspected lower is_utf8 r.0 r.1 s))
        (includes (lower path) s.seen) _ _ (λ met. Offer-skipped path _ none s.seen s o o.distinct)
        (λ new. checked_size-Offer path source s o e new)

  inspect_sources-Offer :
      (sources : List FolderFileSource) (s : Inspecting lower is_utf8)
      → Offer s
      → Offer (inspect_sources lower is_utf8 sources s)
  unfolding inspect_sources inspect_source
  inspect_sources-Offer [] s o = o
  inspect_sources-Offer (source ∷ sources) s o =
      inspect_sources-Offer sources _
        (checked_path-Offer source s (normalize_import_path source.path) refl o)

  -- An inspection offers at most 500 candidates; each has a safe path that no rule ignores and is a
  -- text of at most 64 KB; and no two have the same path, up to the case of letters.
  pub inspect_folder_files-IsOffered :
      (files : List FolderFileSource) (initially_skipped : List SkippedFile)
      → let cs = (inspect_folder_files lower is_utf8 files initially_skipped).candidates in
        (length cs ≤ max_import_file_count)
        × All IsOffered cs
        × ((x : JsString) → times x (path_keys cs) ≤ 1)
  unfolding inspect_folder_files
  inspect_folder_files-IsOffered files initially_skipped =
      let start : Inspecting lower is_utf8 = record {
        candidates = [];
        skipped_files = initially_skipped;
        seen = [];
        seen_skipped = map (λ (f : SkippedFile). lower f.path) initially_skipped;
      } in
      let o =
        inspect_sources-Offer (take max_scanned_entries files) start
          (record { each = tt; distinct = λ x. omega arith; few = omega arith }) in
      (o.few, o.each, λ x. ground (arith, o.distinct x))
