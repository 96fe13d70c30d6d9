-- ===== src/Project/Path/Safe.antt =====
-- What an accepted path is like.
use syncode.Base.{
  ℕ, ◌≤◌, ◌≡◌, refl, sym, ap, ◌∙◌, inl, inr, Bool, true, false, ◌||◌, some, List, [], ◌∷◌, arith,
  JsString, ltb, leb, ◌==◌, ==_iff, Bool-cases, length, any,
}
use syncode.Project.Path.{
  slash, add_unit, split, join, starts_with, has_drive, is_forbidden, is_invalid_unit,
  is_dot_segment, contains_control_character, is_unsafe_segment, normalize_import_path,
  has_control_character, is_shared_project_path,
}

join-add_unit : (c : ℕ) (ss : List JsString) → join (add_unit c ss) ≡ c ∷ join ss
unfolding join
join-add_unit c [] = refl
join-add_unit c (s ∷ []) = refl
join-add_unit c (s ∷ t ∷ ss) = refl

-- A split has a first segment.
pub split-cons : (s : JsString) → (t : JsString) × (ss : List JsString) × (split s ≡ t ∷ ss)
unfolding split
split-cons [] = ([], [], refl)
split-cons (c ∷ s) = elim (Bool-cases (c == slash)) [
  | inl same ↦ ([], split s, rw same refl)
  | inr other ↦ let (t, ss, e) = split-cons s in (c ∷ t, ss, rw (other, e) refl)
]

-- `join` undoes `split`.
pub join-split : (s : JsString) → join (split s) ≡ s
unfolding split join
join-split [] = refl
join-split (c ∷ s) =
    let (t, ss, e) = split-cons s in
    elim (Bool-cases (c == slash)) [
      | inl same ↦
          let at_slash = (==_iff c slash).0 same in
          rw (same, e, at_slash) (ap (◌∷◌ slash) (ap join (sym e) ∙ join-split s))
      | inr other ↦ rw other (join-add_unit c (split s) ∙ ap (◌∷◌ c) (join-split s))
    ]

any-add_unit :
    (test : ℕ → Bool) (c : ℕ) (ss : List JsString)
    → any (any test) (add_unit c ss) ≡ (test c || any (any test) ss)
any-add_unit test c [] = ground arith
any-add_unit test c (s ∷ ss) = ground arith

-- A test that the slash fails holds somewhere in a path when it holds somewhere in a segment.
any-split :
    (test : ℕ → Bool) (s : JsString) → test slash ≡ false → any (any test) (split s) ≡ any test s
unfolding split
any-split test [] h = refl
any-split test (c ∷ s) h = elim (Bool-cases (c == slash)) [
  | inl same ↦ rw (same, (==_iff c slash).0 same, h) (any-split test s h)
  | inr other ↦
      rw other (any-add_unit test c (split s) ∙ ap (λ z. test c || z) (any-split test s h))
]

module _ {ℓ} {A : Type ℓ} (f g : A → Bool) (implies : (a : A) → f a ≡ true → g a ≡ true) where
  any_mono : (xs : List A) → any f xs ≡ true → any g xs ≡ true
  any_mono [] h = h
  any_mono (a ∷ xs) h = ground (arith, implies a, any_mono xs)

  none_mono : (xs : List A) → any g xs ≡ false → any f xs ≡ false
  none_mono xs h = ground (arith, any_mono xs)

abbrev pub is_path_unit : ℕ → Bool
is_path_unit c = c == 92 || is_forbidden c

unsafe-unit : (s : JsString) → any is_path_unit s ≡ true → is_unsafe_segment s ≡ true
unfolding is_unsafe_segment
unsafe-unit s h = ground (arith, any_mono is_path_unit is_invalid_unit (λ c k. ground arith) s h)

unsafe-dot : (s : JsString) → is_dot_segment s ≡ true → is_unsafe_segment s ≡ true
unfolding is_unsafe_segment
unsafe-dot s h = ground arith

-- The tests that an accepted path has passed.
passed_tests :
    (path p : JsString)
    → normalize_import_path path ≡ some p
    → (join (split path) ≡ p) × (any is_unsafe_segment (split path) ≡ false) × (length path ≤ 512)
unfolding normalize_import_path
passed_tests path p h = (ground arith, ground arith, ground arith)

-- A path that an import takes is kept as it is. It has no backslash and no drive, and no segment is
-- empty or stands for this or the upper folder.
pub normalize_import_path_lem :
    (path p : JsString)
    → normalize_import_path path ≡ some p
    → (p ≡ path)
      × (any is_path_unit p ≡ false)
      × (any is_dot_segment (split p) ≡ false)
      × (length p ≤ 512)
normalize_import_path_lem path p h =
    let (joined, safe, short) = passed_tests path p h in
    let same = sym joined ∙ join-split path in
    let units_ok = none_mono (any is_path_unit) is_unsafe_segment unsafe-unit (split path) safe in
    rw same (
      refl,
      sym (any-split is_path_unit path refl) ∙ units_ok,
      none_mono is_dot_segment is_unsafe_segment unsafe-dot (split path) safe,
      short,
    )

split-no_slash : (s : JsString) → any (any (λ c. c == slash)) (split s) ≡ false
unfolding split
split-no_slash [] = refl
split-no_slash (c ∷ s) = elim (Bool-cases (c == slash)) [
  | inl same ↦ rw same (split-no_slash s)
  | inr other ↦
      rw other (any-add_unit (λ k. k == slash) c (split s) ∙ rw (other, split-no_slash s) refl)
]

abbrev is_control_unit : ℕ → Bool
is_control_unit c = leb c 31 || c == 127

-- The tests of a sharing that cover those of an import, for the segments of a path.
segments_safe :
    (ss : List JsString)
    → any (λ s. is_dot_segment s || any is_forbidden s) ss ≡ false
    → any (λ s. ltb 128 (length s)) ss ≡ false
    → any (any (λ c. c == 92)) ss ≡ false
    → any (any (λ c. c == slash)) ss ≡ false
    → any (any is_control_unit) ss ≡ false
    → any is_unsafe_segment ss ≡ false
unfolding is_unsafe_segment contains_control_character
segments_safe [] a b c d e = refl
segments_safe (s ∷ ss) a b c d e = ground (arith, invalid s, segments_safe ss)
  where
    invalid :
        (t : JsString)
        → any is_invalid_unit t
          ≡ (any (λ c. c == 92) t || any (λ c. c == slash) t || any is_forbidden t)
    invalid [] = refl
    invalid (k ∷ t) = ground (arith, invalid t)

no_start : (k : ℕ) (s : JsString) → any (λ c. c == k) s ≡ false → starts_with k s ≡ false
no_start k [] h = refl
no_start k (c ∷ s) h = ground arith

no_drive : (s : JsString) → any is_forbidden s ≡ false → has_drive s ≡ false
no_drive [] h = refl
no_drive (c ∷ []) h = ground arith
no_drive (c ∷ k ∷ s) h = ground arith

abbrev is_refused_segment : JsString → Bool
is_refused_segment s = is_dot_segment s || any is_forbidden s

-- The tests that a shared path has passed.
shared_tests :
    (lower : JsString → JsString) (path : JsString)
    → is_shared_project_path lower path ≡ true
    → ((length path == 0 || ltb 512 (length path) || starts_with slash path) ≡ false)
      × (any (λ c. c == 92) path ≡ false)
      × (any (λ c. ltb c 32 || c == 127) path ≡ false)
      × (ltb 32 (length (split path)) ≡ false)
      × (any is_refused_segment (split path) ≡ false)
unfolding is_shared_project_path has_control_character
shared_tests lower path h = (ground arith, ground arith, ground arith, ground arith, ground arith)

-- A path that the room shares, with no segment longer than 128 units, is one that an import takes.
pub is_shared_project_path-normalize :
    (lower : JsString → JsString) (path : JsString)
    → is_shared_project_path lower path ≡ true
    → any (λ s. ltb 128 (length s)) (split path) ≡ false
    → normalize_import_path path ≡ some path
unfolding normalize_import_path
is_shared_project_path-normalize lower path h short =
    let (begin, back, control, depth, dots) = shared_tests lower path h in
    let forbidden =
      sym (any-split is_forbidden path refl)
      ∙ none_mono (any is_forbidden) is_refused_segment (λ s k. ground arith) (split path) dots in
    let control' =
      any-split is_control_unit path refl
      ∙ none_mono is_control_unit (λ c. ltb c 32 || c == 127) (λ c k. ground arith) path control in
    let safe =
      segments_safe (split path) dots short (any-split (λ c. c == 92) path refl ∙ back)
        (split-no_slash path) control' in
    ground (arith, no_start 92 path back, no_drive path forbidden, safe, join-split path)
