-- ===== src/Project/Import/Limits.antt =====
-- About an import that is prepared, in client/src/import/folderImport.ts.
use mathlib.Core.List.{append-nil, map-append}
use mathlib.Core.Sum.{inr-injective, inl-ne-inr}
use syncode.Base.{
  ℕ, ◌+◌, ◌≤◌, ◌≡◌, refl, sym, ap, subst, ◌∙◌, ◌⊎◌, inl, inr, false, ◌||◌, ◌==◌, Bool-cases, Option,
  none, some, List, [], ◌∷◌, ◌++◌, arith, JsString, str_eq, str_eq_iff, ltb, length, map, any, snoc,
  if_lem, le_of_ltb, if◌then◌else◌,
}
use syncode.Base.Assoc.{includes}
use syncode.Base.Counting.{times, times-append}
use syncode.Crdt.Document.{to_snapshot, from_text}
use syncode.Crdt.Compression.{CompressionError, Compressed, compress_crdt_snapshot}
use syncode.Project.Path.{normalize_import_path}
use syncode.Project.Import.{
  max_import_total_bytes, max_import_file_compressed_bytes, max_import_file_bytes,
  max_import_file_count, ImportedFileContent, ImportSnapshot, ImportError, Prepared, Totals,
  Platform, add_totals, validate_project_import_totals, create_import_snapshot, snapshot_at,
  compressed_file, after_compression, within_totals, add_prepared, prepare_files,
  prepare_project_import,
}

module _ (platform : Platform) (site_id : JsString) where
  abbrev pub content_bytes_of : List ImportedFileContent → ℕ
  content_bytes_of [] = 0
  content_bytes_of (f ∷ fs) = platform.compression.byte_length f.content + content_bytes_of fs

  abbrev pub snapshot_keys : List ImportSnapshot → List JsString
  snapshot_keys ss = map (λ (s : ImportSnapshot). platform.lower s.path) ss

  -- The paths of the files, where they are safe.
  abbrev pub safe_paths : List ImportedFileContent → List (Option JsString)
  safe_paths fs = map (λ (f : ImportedFileContent). normalize_import_path f.path) fs

  abbrev pub snapshot_paths : List ImportSnapshot → List (Option JsString)
  snapshot_paths ss = map (λ (s : ImportSnapshot). some s.path) ss

  record IsPrepared (file : ImportedFileContent) (p : Prepared) : Type 0 where
    safe : normalize_import_path file.path ≡ some p.path
    named : p.file.path ≡ p.path
    counted : p.content_bytes ≡ platform.compression.byte_length file.content

  compressed_file-IsPrepared :
      (path : JsString) (file : ImportedFileContent) (n : ℕ) (c : Compressed) (p : Prepared)
      → normalize_import_path file.path ≡ some path
      → compressed_file platform site_id path file n c ≡ inr p
      → IsPrepared file p
  compressed_file-IsPrepared path file n c p e =
      if_lem (λ (r : ImportError ⊎ Prepared). r ≡ inr p → IsPrepared file p)
        (ltb max_import_file_compressed_bytes c.compressed_bytes) _ _ (λ _ q. absurd (inl-ne-inr q))
        (λ _ q.
          subst (IsPrepared file) (inr-injective _ _ q)
            (record { safe = e; named = refl; counted = refl }))

  after_compression-IsPrepared :
      (path : JsString) (file : ImportedFileContent) (n : ℕ) (c : CompressionError ⊎ Compressed)
      (p : Prepared)
      → normalize_import_path file.path ≡ some path
      → after_compression platform site_id path file n c ≡ inr p
      → IsPrepared file p
  after_compression-IsPrepared path file n (inl error) p e q = absurd (inl-ne-inr q)
  after_compression-IsPrepared path file n (inr c) p e q =
      compressed_file-IsPrepared path file n c p e q

  create_import_snapshot-IsPrepared :
      (file : ImportedFileContent) (n : ℕ) (p : Prepared)
      → create_import_snapshot platform site_id file n ≡ inr p
      → IsPrepared file p
  unfolding create_import_snapshot
  create_import_snapshot-IsPrepared file n p h = go (normalize_import_path file.path) refl h
    where
      go :
          (o : Option JsString)
          → normalize_import_path file.path ≡ o
          → snapshot_at platform site_id file n o ≡ inr p
          → IsPrepared file p
      go none e k = absurd (inl-ne-inr k)
      go (some path) e k =
          if_lem (λ (r : ImportError ⊎ Prepared). r ≡ inr p → IsPrepared file p)
            (ltb max_import_file_bytes (platform.compression.byte_length file.content)
              || any (λ c. c == 0) file.content)
            _ _ (λ _ q. absurd (inl-ne-inr q))
            (λ _ q.
              after_compression-IsPrepared path file n
                (compress_crdt_snapshot platform.compression
                  (platform.stringify (to_snapshot (from_text site_id file.content))))
                p e q)
            k

  abbrev Seen : List JsString → List ImportSnapshot → Type 0
  Seen seen ss = (x : JsString) → times x (snapshot_keys ss) ≤ (if includes x seen then 1 else 0)

  record Kept (files : List ImportedFileContent) (totals : Totals) (result ss : List ImportSnapshot)
      : Type 0 where
    new : List ImportSnapshot
    whole : ss ≡ result ++ new
    paths : snapshot_paths new ≡ safe_paths files
    once : (x : JsString) → times x (snapshot_keys ss) ≤ 1
    total : totals.content_bytes + content_bytes_of files ≤ max_import_total_bytes

  Kept-none :
      (seen : List JsString) (totals : Totals) (result : List ImportSnapshot)
      → Seen seen result
      → totals.content_bytes ≤ max_import_total_bytes
      → Kept [] totals result result
  Kept-none seen totals result h t = record {
    new = [];
    whole = sym (append-nil result);
    paths = refl;
    once = λ x. ground (arith, h x);
    total = omega (arith, t);
  }

  Seen-snoc :
      (seen : List JsString) (result : List ImportSnapshot) (s : ImportSnapshot) (path : JsString)
      → s.path ≡ path
      → includes (platform.lower path) seen ≡ false
      → Seen seen result
      → Seen (platform.lower path ∷ seen) (result ++ s ∷ [])
  unfolding includes
  Seen-snoc seen result s path e new h x =
      let key = platform.lower path in
      let count : times x (snapshot_keys (result ++ s ∷ []))
          ≡ times x (snapshot_keys result) + times x (key ∷ []) =
        ap (times x) (map-append (λ (z : ImportSnapshot). platform.lower z.path) result (s ∷ []))
        ∙ times-append x (snapshot_keys result) (platform.lower s.path ∷ [])
        ∙ ap (λ z. times x (snapshot_keys result) + times x (platform.lower z ∷ [])) e in
      elim (Bool-cases (str_eq key x)) [
        | inl same ↦
            let absent = subst (λ z. includes z seen ≡ false) ((str_eq_iff key x).0 same) new in
            ground (arith, h x, count)
        | inr other ↦ ground (arith, h x, count)
      ]

  Kept-cons :
      (file : ImportedFileContent) (files : List ImportedFileContent) (p : Prepared)
      (totals : Totals) (result ss : List ImportSnapshot)
      → IsPrepared file p
      → Kept files (add_totals totals p) (result ++ p.file ∷ []) ss
      → Kept (file ∷ files) totals result ss
  Kept-cons file files p totals result ss q k = record {
    new = p.file ∷ k.new;
    whole = k.whole ∙ snoc result k.new p.file;
    paths = cc (k.paths, q.safe, q.named);
    once = k.once;
    total = omega (arith, k.total, q.counted);
  }

  totals_bound :
      (t : Totals)
      → validate_project_import_totals t ≡ none
      → t.content_bytes ≤ max_import_total_bytes
  unfolding validate_project_import_totals
  totals_bound t h =
      if_lem (λ (r : Option ImportError). r ≡ none → t.content_bytes ≤ max_import_total_bytes)
        (ltb max_import_total_bytes t.content_bytes) _ _ (λ large q. ground arith)
        (λ small _. le_of_ltb max_import_total_bytes t.content_bytes small) h

  prepare_files-Kept :
      (files : List ImportedFileContent) (seen : List JsString) (totals : Totals)
      (result ss : List ImportSnapshot)
      → Seen seen result
      → totals.content_bytes ≤ max_import_total_bytes
      → prepare_files platform site_id files seen totals result ≡ inr ss
      → Kept files totals result ss
  unfolding prepare_files
  prepare_files-Kept [] seen totals result ss h t e =
      subst (Kept [] totals result) (inr-injective _ _ e) (Kept-none seen totals result h t)
  prepare_files-Kept (file ∷ files) seen totals result ss h t e =
      go (prepare_files-Kept files) (create_import_snapshot platform site_id file (length result))
        refl e
    where
      go :
          ((seen' : List JsString) (totals' : Totals) (result' ss' : List ImportSnapshot)
            → Seen seen' result'
            → totals'.content_bytes ≤ max_import_total_bytes
            → prepare_files platform site_id files seen' totals' result' ≡ inr ss'
            → Kept files totals' result' ss')
          → (o : ImportError ⊎ Prepared)
          → create_import_snapshot platform site_id file (length result) ≡ o
          → add_prepared platform site_id
              (prepare_files platform site_id files)
              seen
              totals
              result
              o
            ≡ inr ss
          → Kept (file ∷ files) totals result ss
      go rest (inl error) q k = absurd (inl-ne-inr k)
      go rest (inr p) q k =
          let prepared = create_import_snapshot-IsPrepared file (length result) p q in
          let totals' = add_totals totals p in
          if_lem
            (λ (r : ImportError ⊎ List ImportSnapshot).
              r ≡ inr ss → Kept (file ∷ files) totals result ss)
            (includes (platform.lower p.path) seen) _ _ (λ _ j. absurd (inl-ne-inr j))
            (λ new j.
              within (validate_project_import_totals totals') refl j prepared
                (Seen-snoc seen result p.file p.path prepared.named new h))
            k
        where
          within :
              (o : Option ImportError)
              → validate_project_import_totals (add_totals totals p) ≡ o
              → within_totals platform site_id
                  (prepare_files platform site_id files)
                  (platform.lower p.path ∷ seen)
                  (add_totals totals p)
                  (result ++ p.file ∷ [])
                  o
                ≡ inr ss
              → IsPrepared file p
              → Seen (platform.lower p.path ∷ seen) (result ++ p.file ∷ [])
              → Kept (file ∷ files) totals result ss
          within (some error) v j prepared seen' = absurd (inl-ne-inr j)
          within none v j prepared seen' = Kept-cons file files p totals result ss prepared (
              rest (platform.lower p.path ∷ seen) (add_totals totals p) (result ++ p.file ∷ []) ss
                seen' (totals_bound (add_totals totals p) v) j)

-- An import that is prepared has between 1 and 500 files of together at most 1 MB of text; its
-- snapshots stand for the files in their order, each under the file's own safe path; and no two of
-- them have the same path, up to the case of letters.
pub prepare_project_import-limits :
    (platform : Platform) (site_id : JsString) (files : List ImportedFileContent)
    (ss : List ImportSnapshot)
    → prepare_project_import platform site_id files ≡ inr ss
    → (1 ≤ length files)
      × (length files ≤ max_import_file_count)
      × (content_bytes_of platform site_id files ≤ max_import_total_bytes)
      × (snapshot_paths platform site_id ss ≡ safe_paths platform site_id files)
      × ((x : JsString) → times x (snapshot_keys platform site_id ss) ≤ 1)
unfolding prepare_project_import
prepare_project_import-limits platform site_id files ss =
    if_lem
      (λ (r : ImportError ⊎ List ImportSnapshot).
        r ≡ inr ss
        → (1 ≤ length files)
          × (length files ≤ max_import_file_count)
          × (content_bytes_of platform site_id files ≤ max_import_total_bytes)
          × (snapshot_paths platform site_id ss ≡ safe_paths platform site_id files)
          × ((x : JsString) → times x (snapshot_keys platform site_id ss) ≤ 1))
      (length files == 0 || ltb max_import_file_count (length files)) _ _
      (λ _ q. absurd (inl-ne-inr q))
      (λ allowed q.
        let k =
          prepare_files-Kept platform site_id files [] _ [] ss (λ x. omega arith) (omega arith) q in
        (
          count_low (length files) allowed,
          count_high (length files) allowed,
          omega (arith, k.total),
          ap (snapshot_paths platform site_id) k.whole ∙ k.paths,
          k.once,
        ))
  where
    count_low : (n : ℕ) → n == 0 || ltb max_import_file_count n ≡ false → 1 ≤ n
    count_low n h = ground arith

    count_high : (n : ℕ) → n == 0 || ltb max_import_file_count n ≡ false → n ≤ max_import_file_count
    count_high n h = ground arith
