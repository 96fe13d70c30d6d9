-- ===== src/Editor/Search/Parts.antt =====
-- The parts of a highlighted line.
use mathlib.Core.List.{append-nil}
use syncode.Base.{
  ℕ, ◌+◌, ◌-◌, ◌≤◌, ◌≡◌, refl, sym, ap, subst, ◌∙◌, inl, inr, Bool-cases, ltb, some, List, [], ◌∷◌,
  ◌++◌, arith, JsString, length, take, drop, drop-all, take-drop, drop-drop, map, filter_by,
}
use syncode.Editor.Search.{
  SearchOptions, RegExpMatch, RegExps, TextPart, create_search_pattern, slice_text, parts_from,
  parts_or_text, parts_by, highlight_search_line,
}

-- What `matchAll` gives with the flag `g`: the matches stand in the text, in order and apart.
abbrev pub InOrder : JsString → ℕ → List RegExpMatch → Type 0
InOrder text cursor [] = cursor ≤ length text
InOrder text cursor (m ∷ ms) =
    (cursor ≤ m.index)
    × (take (length m.text) (drop m.index text) ≡ m.text)
    × InOrder text (m.index + length m.text) ms

abbrev pub parts_text : List TextPart → JsString
parts_text [] = []
parts_text (p ∷ ps) = p.text ++ parts_text ps

abbrev pub marked : List TextPart → List JsString
marked ps = map (λ (p : TextPart). p.text) (filter_by (λ (p : TextPart). p.is_match) ps)

abbrev pub match_texts : List RegExpMatch → List JsString
match_texts ms = map (λ (m : RegExpMatch). m.text) ms

module _ {R : Type 0} (re : RegExps R) where
  parts_from-text :
      (text : JsString) (cursor : ℕ) (ms : List RegExpMatch)
      → InOrder text cursor ms
      → parts_text (parts_from re text cursor ms) ≡ drop cursor text
  unfolding parts_from
  parts_from-text text cursor [] h = elim (Bool-cases (ltb cursor (length text))) [
    | inl more ↦ rw more (append-nil (drop cursor text))
    | inr at_end ↦ rw at_end (sym (drop-all text cursor (ground arith)))
  ]
  parts_from-text text cursor (m ∷ ms) h =
      let rest = parts_from-text text (m.index + length m.text) ms h.2 in
      let here : m.text ++ drop (m.index + length m.text) text ≡ drop m.index text =
        ap (λ z. z ++ drop (m.index + length m.text) text) (sym h.1)
        ∙ ap (λ z. take (length m.text) (drop m.index text) ++ z)
            (sym (drop-drop (length m.text) m.index text))
        ∙ sym (take-drop (length m.text) (drop m.index text)) in
      elim (Bool-cases (ltb cursor m.index)) [
        | inl gap ↦ rw gap (
            let e : m.index ≡ cursor + (m.index - cursor) = omega (arith, h.0) in
            ap (λ z. slice_text cursor m.index text ++ z)
              (ap (λ z. m.text ++ z) rest
                ∙ here
                ∙ ap (λ i. drop i text) e
                ∙ sym (drop-drop (m.index - cursor) cursor text))
            ∙ sym (take-drop (m.index - cursor) (drop cursor text)))
        | inr no_gap ↦ rw no_gap (
            let e : m.index ≡ cursor = ground (arith, h.0) in
            ap (λ z. m.text ++ z) rest ∙ here ∙ ap (λ i. drop i text) e)
      ]

  parts_from-marked :
      (text : JsString) (cursor : ℕ) (ms : List RegExpMatch)
      → marked (parts_from re text cursor ms) ≡ match_texts ms
  unfolding parts_from
  parts_from-marked text cursor [] = ground arith
  parts_from-marked text cursor (m ∷ ms) =
      ground (arith, parts_from-marked text (m.index + length m.text) ms)

  parts_or_text-text :
      (text : JsString) (ps : List TextPart)
      → parts_text ps ≡ text
      → parts_text (parts_or_text re text ps) ≡ text
  parts_or_text-text text [] h = append-nil text
  parts_or_text-text text (p ∷ ps) h = h

  parts_or_text-marked :
      (text : JsString) (ps : List TextPart) → marked (parts_or_text re text ps) ≡ marked ps
  parts_or_text-marked text [] = refl
  parts_or_text-marked text (p ∷ ps) = refl

  parts_by-text :
      (text : JsString) (pattern : R)
      → 1 ≤ length text
      → InOrder text 0 (re.match_all pattern text)
      → (parts_text (parts_by re text (some pattern)) ≡ text)
        × (marked (parts_by re text (some pattern)) ≡ match_texts (re.match_all pattern text))
  parts_by-text [] pattern l h = absurd (omega arith)
  parts_by-text (c ∷ s) pattern l h =
      let ms = re.match_all pattern (c ∷ s) in
      let ps = parts_from re (c ∷ s) 0 ms in
      (
        parts_or_text-text (c ∷ s) ps (parts_from-text (c ∷ s) 0 ms h),
        parts_or_text-marked (c ∷ s) ps ∙ parts_from-marked (c ∷ s) 0 ms,
      )

  -- For a query with a pattern, whose matches in the line stand in it, in order and apart: the parts
  -- of a highlighted line that is not empty are together the line, and the marked ones are the
  -- matches, in order.
  pub highlight_search_line-text :
      (text query : JsString) (options : SearchOptions) (pattern : R)
      → create_search_pattern re query options ≡ some pattern
      → 1 ≤ length text
      → InOrder text 0 (re.match_all pattern text)
      → (parts_text (highlight_search_line re text query options) ≡ text)
        × (marked (highlight_search_line re text query options)
            ≡ match_texts (re.match_all pattern text))
  unfolding highlight_search_line
  highlight_search_line-text text query options pattern e l h =
      subst
        (λ o.
          (parts_text (parts_by re text o) ≡ text)
          × (marked (parts_by re text o) ≡ match_texts (re.match_all pattern text)))
        (sym e) (parts_by-text text pattern l h)
