-- ===== src/Project/Import/Selected.antt =====
-- About the reading of the files that stay selected after an inspection, in
-- client/src/import/folderImport.ts.
use syncode.Base.{
  ℕ, ◌≤◌, ◌<◌, ◌≡◌, refl, sym, ap, ◌∙◌, ◌⊎◌, inl, inr, Bool, true, false, ◌==◌, Option, none, some,
  List, [], ◌∷◌, arith, JsString, ltb, length, map, any, filter_by, All, if_lem, le_of_ltb,
  ltb_of_le,
}
use syncode.Base.Counting.{times}
use syncode.Project.Import.{
  max_import_total_bytes, max_import_file_bytes, max_import_file_count, LocalFile,
  ImportFileCandidate, ImportedFileContent, FolderFileSource, SkippedFile, ImportError,
  nothing_selected, total_too_large, unreadable_file, total_size, inspect_folder_files, add_content,
  read_all, read_or_error, read_selected_import_files,
}
use syncode.Project.Import.Offered.{IsOffered, path_keys, inspect_folder_files-IsOffered}

abbrev pub selected_of : List ImportFileCandidate → List ImportFileCandidate
selected_of cs = filter_by (λ (c : ImportFileCandidate). c.selected) cs

-- The candidates with the choices that the user makes.
abbrev pub chosen :
    (ImportFileCandidate → Bool) → List ImportFileCandidate → List ImportFileCandidate
chosen choose cs = map (λ (c : ImportFileCandidate). record c { selected = choose c }) cs

length-selected :
    (choose : ImportFileCandidate → Bool) (cs : List ImportFileCandidate)
    → length (selected_of (chosen choose cs)) ≤ length cs
length-selected choose [] = omega arith
length-selected choose (c ∷ cs) = ground (arith, length-selected choose cs)

none_large :
    (choose : ImportFileCandidate → Bool) (cs : List ImportFileCandidate)
    → All (λ c. c.size ≤ max_import_file_bytes) cs
    → any
        (λ (c : ImportFileCandidate). ltb max_import_file_bytes c.size)
        (selected_of (chosen choose cs))
      ≡ false
none_large choose [] a = refl
none_large choose (c ∷ cs) a = ground (arith, none_large choose cs)

abbrev pub is_unreadable : Option JsString → Bool
is_unreadable none = true
is_unreadable (some content) = false

-- What the files read as.
pub record IsRead (text : LocalFile → Option JsString) (cs : List ImportFileCandidate)
    (contents : List ImportedFileContent) : Type 0 where
  pub paths :
      map (λ (f : ImportedFileContent). f.path) contents
      ≡ map (λ (c : ImportFileCandidate). c.path) cs
  pub texts :
      map (λ (f : ImportedFileContent). some f.content) contents
      ≡ map (λ (c : ImportFileCandidate). text c.file) cs

abbrev AllRead :
    (LocalFile → Option JsString)
    → List ImportFileCandidate
    → Option (List ImportedFileContent)
    → Type 0
AllRead text cs none = any (λ (c : ImportFileCandidate). is_unreadable (text c.file)) cs ≡ true
AllRead text cs (some contents) = IsRead text cs contents

add_content-AllRead :
    (text : LocalFile → Option JsString) (c : ImportFileCandidate) (cs : List ImportFileCandidate)
    (o : Option JsString) (r : Option (List ImportedFileContent))
    → text c.file ≡ o
    → AllRead text cs r
    → AllRead text (c ∷ cs) (add_content c.path o r)
add_content-AllRead text c cs none r e a = ground (arith, e)
add_content-AllRead text c cs (some content) none e a = ground (arith, e)
add_content-AllRead text c cs (some content) (some contents) e a = record {
  paths = ap (◌∷◌ c.path) a.paths;
  texts = cc (a.texts, e);
}

read_all-AllRead :
    (text : LocalFile → Option JsString) (cs : List ImportFileCandidate)
    → AllRead text cs (read_all text cs)
unfolding read_all
read_all-AllRead text [] = record { paths = refl; texts = refl }
read_all-AllRead text (c ∷ cs) =
    add_content-AllRead text c cs (text c.file) (read_all text cs) refl (read_all-AllRead text cs)

map-map :
    {A : Type 0} (g : JsString → JsString) (f : A → JsString) (xs : List A)
    → map g (map f xs) ≡ map (λ x. g (f x)) xs
map-map g f [] = refl
map-map g f (x ∷ xs) = ap (◌∷◌ (g (f x))) (map-map g f xs)

module _ (lower : JsString → JsString) (is_utf8 : List ℕ → Bool) where
  abbrev pub content_keys : List ImportedFileContent → List JsString
  content_keys contents = map (λ (f : ImportedFileContent). lower f.path) contents

  content_keys-paths :
      (contents : List ImportedFileContent) (cs : List ImportFileCandidate)
      → map (λ (f : ImportedFileContent). f.path) contents
        ≡ map (λ (c : ImportFileCandidate). c.path) cs
      → content_keys contents ≡ path_keys lower is_utf8 cs
  content_keys-paths contents cs e =
      sym (map-map lower (λ (f : ImportedFileContent). f.path) contents)
      ∙ ap (map lower) e
      ∙ map-map lower (λ (c : ImportFileCandidate). c.path) cs

  times-selected :
      (x : JsString) (choose : ImportFileCandidate → Bool) (cs : List ImportFileCandidate)
      → times x (path_keys lower is_utf8 (selected_of (chosen choose cs)))
        ≤ times x (path_keys lower is_utf8 cs)
  times-selected x choose [] = omega arith
  times-selected x choose (c ∷ cs) = ground (arith, times-selected x choose cs)

  sizes :
      (cs : List ImportFileCandidate)
      → All (IsOffered lower is_utf8) cs
      → All (λ c. c.size ≤ max_import_file_bytes) cs
  sizes [] a = tt
  sizes (c ∷ cs) a = (a.0.small, sizes cs a.1)

  -- What a reading of selected candidates gives: an error, and what it means, or the texts.
  abbrev pub Reads :
      (LocalFile → Option JsString)
      → List ImportFileCandidate
      → ImportError ⊎ List ImportedFileContent
      → Type 0
  Reads text selected (inl nothing_selected) = selected ≡ []
  Reads text selected (inl total_too_large) = max_import_total_bytes < total_size selected
  Reads text selected (inl unreadable_file) =
      any (λ (c : ImportFileCandidate). is_unreadable (text c.file)) selected ≡ true
  Reads text selected (inl other) = ⊥
  Reads text selected (inr contents) =
      IsRead text selected contents
      × (1 ≤ length selected)
      × (total_size selected ≤ max_import_total_bytes)
      × ((x : JsString) → times x (content_keys contents) ≤ 1)

  read_or_error-Reads :
      (text : LocalFile → Option JsString) (selected : List ImportFileCandidate)
      (o : Option (List ImportedFileContent))
      → AllRead text selected o
      → 1 ≤ length selected
      → total_size selected ≤ max_import_total_bytes
      → ((x : JsString) → times x (path_keys lower is_utf8 selected) ≤ 1)
      → Reads text selected (read_or_error o)
  read_or_error-Reads text selected none a few total once = a
  read_or_error-Reads text selected (some contents) a few total once = (
    a,
    few,
    total,
    λ x. omega (arith, once x, ap (times x) (content_keys-paths contents selected a.paths)),
  )

  -- From what an inspection offers, with any choice of the files, a reading fails only if no file is
  -- selected, if the selected ones are together larger than 1 MB, or if the reading of one of them
  -- fails. Otherwise it gives each selected file in its order with the text that it reads as; there
  -- is one at least, they have together at most 1 MB, and no two have the same path, up to the case
  -- of letters.
  pub read_selected_import_files-Reads :
      (files : List FolderFileSource) (initially_skipped : List SkippedFile)
      (choose : ImportFileCandidate → Bool) (text : LocalFile → Option JsString)
      → let offered = (inspect_folder_files lower is_utf8 files initially_skipped).candidates in
        let candidates = chosen choose offered in
        Reads text (selected_of candidates) (read_selected_import_files text candidates)
  unfolding read_selected_import_files
  read_selected_import_files-Reads files initially_skipped choose text =
      let offered = (inspect_folder_files lower is_utf8 files initially_skipped).candidates in
      let (few, each, once) =
        inspect_folder_files-IsOffered lower is_utf8 files initially_skipped in
      let selected = selected_of (chosen choose offered) in
      let not_many : ltb max_import_file_count (length selected) ≡ false =
        ltb_of_le max_import_file_count (length selected)
          (omega (arith, few, length-selected choose offered)) in
      if_lem (Reads text selected) (length selected == 0) _ _ (λ nothing. empty selected nothing)
        (λ something.
          rw (not_many, none_large choose offered (sizes offered each))
            (if_lem (Reads text selected) (ltb max_import_total_bytes (total_size selected)) _ _
              (λ large. ground (arith, large))
              (λ small.
                read_or_error-Reads text selected (read_all text selected)
                  (read_all-AllRead text selected) (ground (arith, something)) (le_of_ltb _ _ small)
                  (λ x. omega (arith, once x, times-selected x choose offered)))))
    where
      empty : (cs : List ImportFileCandidate) → length cs == 0 ≡ true → cs ≡ []
      empty [] h = refl
      empty (c ∷ cs) h = ground arith
