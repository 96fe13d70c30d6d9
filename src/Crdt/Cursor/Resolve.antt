-- ===== src/Crdt/Cursor/Resolve.antt =====
-- About the cursor of client/src/crdt/CursorAnchor.ts that is anchored and resolved in one document.
use syncode.Base.{
  ℕ, suc, ◌+◌, ◌-◌, ◌≤◌, min, ◌≡◌, refl, sym, ap, subst, ◌∙◌, inl, inr, true, false, Option, none,
  some, List, [], ◌∷◌, ◌++◌, arith, ltb, if◌then◌else◌, Bool-cases, length, snoc, length-snoc,
  length-append, take,
}
use syncode.Crdt.Id.{CrdtId, id_eq_refl}
use syncode.Crdt.Document.{
  CrdtChar, CrdtDocument, find_char_index, visible_chars, to_visible_string, join_values,
}
use syncode.Crdt.Document.Forest.Present.{Distinct, present, absent_left, find-at}
use syncode.Crdt.Document.Forest.Plant.{IsWellFormed}
use syncode.Crdt.Cursor.Lines.{IsPlace, position_from-IsPlace}
use syncode.Crdt.Cursor.{
  start_position, anchor_from, create_cursor_anchor, find_anchor_index, visible_length,
  visible_offset_before, visible_offset_through, resolve_visible_offset, resolve_cursor_anchor,
  position_from,
}

-- The last boundary between two characters that is not behind the offset.
unfoldable pub boundary : List CrdtChar → ℕ → ℕ
boundary [] offset = 0
boundary (c ∷ cs) offset =
    let rest = boundary cs (offset - length c.value) in
    if ltb offset (length c.value) then 0 else length c.value + rest

boundary_le : (cs : List CrdtChar) (offset : ℕ) → boundary cs offset ≤ offset
unfolding boundary
boundary_le [] offset = omega arith
boundary_le (c ∷ cs) offset = ground (arith, boundary_le cs (offset - length c.value))

boundary-within : (cs : List CrdtChar) (offset : ℕ) → boundary cs offset ≤ length (join_values cs)
unfolding boundary
boundary-within [] offset = omega arith
boundary-within (c ∷ cs) offset =
    ground
      (arith, boundary-within cs (offset - length c.value), length-append c.value (join_values cs))

-- The characters before a place, by their visible length.
visible_length-at :
    (pre post : List CrdtChar)
    → visible_length (pre ++ post) (length pre) ≡ visible_length pre (length pre)
unfolding visible_length
visible_length-at [] post = refl
visible_length-at (c ∷ pre) post = ground (arith, visible_length-at pre post)

visible_length-snoc :
    (pre : List CrdtChar) (c : CrdtChar)
    → visible_length (pre ++ c ∷ []) (suc (length pre))
      ≡ visible_length pre (length pre) + (if c.is_deleted then 0 else length c.value)
unfolding visible_length
visible_length-snoc [] c = omega arith
visible_length-snoc (x ∷ pre) c = ground (arith, visible_length-snoc pre c)

-- The offset of an id of the first kind.
abbrev AfterOffset : List CrdtChar → Option CrdtId → ℕ → Type 0
AfterOffset cs none t = t ≡ 0
AfterOffset cs (some id) t =
    (i : ℕ) × (find_char_index id cs ≡ some i) × (visible_length cs (suc i) ≡ t)

visible_chars-nil : visible_chars [] ≡ []
unfolding visible_chars
visible_chars-nil = refl

visible_chars-deleted :
    (c : CrdtChar) (cs : List CrdtChar)
    → c.is_deleted ≡ true
    → visible_chars (c ∷ cs) ≡ visible_chars cs
unfolding visible_chars
visible_chars-deleted c cs h = ground arith

visible_chars-visible :
    (c : CrdtChar) (cs : List CrdtChar)
    → c.is_deleted ≡ false
    → visible_chars (c ∷ cs) ≡ c ∷ visible_chars cs
unfolding visible_chars
visible_chars-visible c cs h = ground arith

present_here : (c : CrdtChar) (cs : List CrdtChar) → present c.id (c ∷ cs) ≡ true
unfolding present
present_here c cs = ground (arith, id_eq_refl c.id)

-- One round of the loop, and one step of the boundary.
module _ (c : CrdtChar) (cs : List CrdtChar) (after : Option CrdtId) (t offset : ℕ) where
  anchor_from-here :
      ltb offset (t + length c.value) ≡ true
      → anchor_from (c ∷ cs) after t offset ≡ record { after_id = after; before_id = some c.id }
  unfolding anchor_from
  anchor_from-here h = ground arith

  anchor_from-past :
      ltb offset (t + length c.value) ≡ false
      → anchor_from (c ∷ cs) after t offset ≡ anchor_from cs (some c.id) (t + length c.value) offset
  unfolding anchor_from
  anchor_from-past h = ground arith

module _ (c : CrdtChar) (cs : List CrdtChar) (t offset : ℕ) where
  boundary-here :
      t ≤ offset → ltb offset (t + length c.value) ≡ true → t + boundary (c ∷ cs) (offset - t) ≡ t
  unfolding boundary
  boundary-here le h = ground arith

  boundary-past :
      ltb offset (t + length c.value) ≡ false
      → t + boundary (c ∷ cs) (offset - t)
        ≡ (t + length c.value) + boundary cs (offset - (t + length c.value))
  unfolding boundary
  boundary-past h =
      let e : offset - t - length c.value ≡ offset - (t + length c.value) = omega arith in
      ground (arith, ap (boundary cs) e)

resolve_zero : (d : CrdtDocument) (n : ℕ) → n ≡ 0 → resolve_visible_offset d n ≡ start_position
unfolding resolve_visible_offset position_from
resolve_zero d n e =
    let none_left : min n (length (to_visible_string d)) ≡ 0 = omega (arith, e) in rw none_left refl

-- The anchor that the loop makes leads back to a boundary.
module _ (d : CrdtDocument) (distinct : Distinct d.chars) where
  resolve-end :
      (after : Option CrdtId) (t n : ℕ)
      → AfterOffset d.chars after t
      → n ≡ t
      → resolve_cursor_anchor d (some (record { after_id = after; before_id = none }))
        ≡ resolve_visible_offset d n
  unfolding resolve_cursor_anchor find_anchor_index visible_offset_through visible_offset_before
  resolve-end none t n a e = sym (resolve_zero d n (e ∙ a))
  resolve-end (some id) t n (i, found, long) e = rw (found, long, e) refl

  resolve-before :
      (pre rest : List CrdtChar) (c : CrdtChar) (after : Option CrdtId) (n : ℕ)
      → d.chars ≡ pre ++ c ∷ rest
      → visible_length pre (length pre) ≡ n
      → resolve_cursor_anchor d (some (record { after_id = after; before_id = some c.id }))
        ≡ resolve_visible_offset d n
  unfolding resolve_cursor_anchor find_anchor_index visible_offset_before
  resolve-before pre rest c after n e v =
      let absent =
        absent_left c.id pre (c ∷ rest) (subst Distinct e distinct) (present_here c rest) in
      let found : find_char_index c.id d.chars ≡ some (length pre) =
        rw e (find-at c.id pre c rest absent refl) in
      let long : visible_length d.chars (length pre) ≡ n =
        rw e (visible_length-at pre (c ∷ rest) ∙ v) in
      rw (found, long) refl

  -- The offset behind a character that the loop has passed.
  passed :
      (pre rest : List CrdtChar) (c : CrdtChar) (n : ℕ)
      → d.chars ≡ pre ++ c ∷ rest
      → visible_length (pre ++ c ∷ []) (length (pre ++ c ∷ [])) ≡ n
      → AfterOffset d.chars (some c.id) n
  passed pre rest c n e v =
      let absent =
        absent_left c.id pre (c ∷ rest) (subst Distinct e distinct) (present_here c rest) in
      let found : find_char_index c.id d.chars ≡ some (length pre) =
        rw e (find-at c.id pre c rest absent refl) in
      let whole = visible_length-at (pre ++ c ∷ []) rest ∙ v in
      let long : visible_length d.chars (suc (length pre)) ≡ n =
        rw (e ∙ sym (snoc pre rest c), ← length-snoc pre c) whole in
      (length pre, found, long)

  resolve-from :
      (pre rest : List CrdtChar) (after : Option CrdtId) (t offset : ℕ)
      → d.chars ≡ pre ++ rest
      → visible_length pre (length pre) ≡ t
      → t ≤ offset
      → AfterOffset d.chars after t
      → resolve_cursor_anchor d (some (anchor_from (visible_chars rest) after t offset))
        ≡ resolve_visible_offset d (t + boundary (visible_chars rest) (offset - t))
  unfolding anchor_from boundary
  resolve-from pre [] after t offset e v le a =
      rw visible_chars-nil (resolve-end after t (t + 0) a (omega arith))
  resolve-from pre (c ∷ rest) after t offset e v le a =
      let e' : d.chars ≡ (pre ++ c ∷ []) ++ rest = e ∙ sym (snoc pre rest c) in
      let longer =
        ap (visible_length (pre ++ c ∷ [])) (length-snoc pre c) ∙ visible_length-snoc pre c in
      elim (Bool-cases c.is_deleted) [
        | inl gone ↦
            rw (visible_chars-deleted c rest gone)
              (resolve-from (pre ++ c ∷ []) rest after t offset e' (longer ∙ ground arith) le a)
        | inr seen ↦
            rw (visible_chars-visible c rest seen)
              (elim (Bool-cases (ltb offset (t + length c.value))) [
                | inl here ↦
                    rw
                      (
                        anchor_from-here c (visible_chars rest) after t offset here,
                        boundary-here c (visible_chars rest) t offset le here,
                      )
                      (resolve-before pre rest c after t e v)
                | inr past ↦
                    rw
                      (
                        anchor_from-past c (visible_chars rest) after t offset past,
                        boundary-past c (visible_chars rest) t offset past,
                      )
                      (resolve-from (pre ++ c ∷ []) rest (some c.id) (t + length c.value) offset e'
                        (longer ∙ ground arith) (ground arith)
                        (passed pre rest c (t + length c.value) e (longer ∙ ground arith)))
              ])
      ]

from_zero : {offset : ℕ} (f : ℕ → ℕ) → 0 + f (offset - 0) ≡ f offset
from_zero {offset} f = let e : offset - 0 ≡ offset = omega arith in omega (arith, ap f e)

resolves :
    (d : CrdtDocument) (offset : ℕ)
    → IsWellFormed d.chars
    → resolve_cursor_anchor d (some (create_cursor_anchor d offset))
      ≡ resolve_visible_offset d (boundary (visible_chars d.chars) offset)
unfolding create_cursor_anchor visible_length
resolves d offset w =
    resolve-from d w.distinct [] d.chars none 0 offset refl refl (omega arith) refl
    ∙ ap (resolve_visible_offset d) (from_zero (boundary (visible_chars d.chars)))

-- In a well-formed document a cursor that is anchored at an offset comes back to it, or to the start
-- of the character that the offset is inside of; an offset past the end comes back to the end. Its
-- line and column are those of the text before it.
pub resolve-create :
    (d : CrdtDocument) (offset : ℕ)
    → IsWellFormed d.chars
    → let n = boundary (visible_chars d.chars) offset in
      let position = resolve_cursor_anchor d (some (create_cursor_anchor d offset)) in
      (position.offset ≡ n)
      × IsPlace (take n (to_visible_string d)) (position.line_number, position.column)
      × (n ≤ offset)
      × (n ≤ length (to_visible_string d))
unfolding resolve_visible_offset to_visible_string
resolve-create d offset w =
    let cs = visible_chars d.chars in
    let n = boundary cs offset in
    let within = boundary-within cs offset in
    let clamped : min n (length (join_values cs)) ≡ n = omega (arith, within) in
    let e = resolves d offset w in
    rw e (
      clamped,
      rw clamped (position_from-IsPlace (join_values cs) n),
      boundary_le cs offset,
      within,
    )
