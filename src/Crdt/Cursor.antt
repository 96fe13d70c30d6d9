-- ===== src/Crdt/Cursor.antt =====
-- crdt/CursorAnchor.ts: a cursor stands between two characters. `undefined` and `null` for the
-- second id are one `none`, since the code tests it only for being there.
pub mod Lines
pub mod Resolve
mod Tests
use syncode.Base.{
  ℕ, zero, suc, ◌+◌, min, Bool, true, false, Option, none, some, List, [], ◌∷◌, JsString, ltb, ◌==◌,
  ◌&&◌, if◌then◌else◌, length,
}
use syncode.Crdt.Id.{CrdtId}
use syncode.Crdt.Document.{
  CrdtChar, CrdtDocument, find_char_index, visible_chars, to_visible_string,
}

pub record CursorAnchor : Type 0 where
  pub after_id : Option CrdtId
  pub before_id : Option CrdtId

pub record CursorPosition : Type 0 where
  pub offset : ℕ
  pub line_number : ℕ
  pub column : ℕ

pub record SelectionAnchor : Type 0 where
  pub anchor : CursorAnchor
  pub head : CursorAnchor

-- The loop of `createCursorAnchor` over the visible characters.
unfoldable pub anchor_from : List CrdtChar → Option CrdtId → ℕ → ℕ → CursorAnchor
anchor_from [] after_id text_offset offset = record { after_id = after_id; before_id = none }
anchor_from (c ∷ cs) after_id text_offset offset =
    let next_offset = text_offset + length c.value in
    let further = anchor_from cs (some c.id) next_offset offset in
    if ltb offset next_offset
    then record { after_id = after_id; before_id = some c.id }
    else further

unfoldable pub create_cursor_anchor : CrdtDocument → ℕ → CursorAnchor
create_cursor_anchor d offset = anchor_from (visible_chars d.chars) none 0 offset

abbrev pub is_newline : ℕ → Bool
is_newline c = c == 10

-- The line and the column behind one code unit.
abbrev pub advance : ℕ → ℕ × ℕ → ℕ × ℕ
advance c (line, column) = if is_newline c then (suc line, 1) else (line, suc column)

-- The loop of `createCursorAnchorFromPosition`: the offset of a line and a column.
unfoldable pub offset_from : JsString → ℕ → ℕ → ℕ × ℕ → ℕ → ℕ
offset_from [] line_number column current offset = offset
offset_from (c ∷ text) line_number column current offset =
    let further = offset_from text line_number column (advance c current) (suc offset) in
    if current.0 == line_number && current.1 == column then offset else further

unfoldable pub create_cursor_anchor_from_position : CrdtDocument → ℕ → ℕ → CursorAnchor
create_cursor_anchor_from_position d line_number column =
    create_cursor_anchor d (offset_from (to_visible_string d) line_number column (1, 1) 0)

abbrev pub start_position : CursorPosition
start_position = record { offset = 0; line_number = 1; column = 1 }

unfoldable pub find_anchor_index : CrdtDocument → Option CrdtId → Option ℕ
find_anchor_index d none = none
find_anchor_index d (some id) = find_char_index id d.chars

-- The loop over the characters before an index.
unfoldable pub visible_length : List CrdtChar → ℕ → ℕ
visible_length cs zero = 0
visible_length [] (suc index) = 0
visible_length (c ∷ cs) (suc index) =
    (if c.is_deleted then 0 else length c.value) + visible_length cs index

unfoldable pub visible_offset_before : CrdtDocument → ℕ → ℕ
visible_offset_before d index = visible_length d.chars index

unfoldable pub visible_offset_through : CrdtDocument → ℕ → ℕ
visible_offset_through d index = visible_offset_before d (suc index)

-- The line and the column after the first `n` units of a text.
unfoldable pub position_from : JsString → ℕ → ℕ × ℕ → ℕ × ℕ
position_from text zero current = current
position_from [] (suc n) current = current
position_from (c ∷ text) (suc n) current = position_from text n (advance c current)

unfoldable pub resolve_visible_offset : CrdtDocument → ℕ → CursorPosition
resolve_visible_offset d visible_offset =
    let text = to_visible_string d in
    let clamped = min visible_offset (length text) in
    let position = position_from text clamped (1, 1) in
    record { offset = clamped; line_number = position.0; column = position.1 }

abbrev pub resolve_after : CrdtDocument → Option ℕ → CursorPosition
resolve_after d none = start_position
resolve_after d (some index) = resolve_visible_offset d (visible_offset_through d index)

abbrev pub resolve_before : CrdtDocument → Option ℕ → Option CrdtId → CursorPosition
resolve_before d (some index) after_id = resolve_visible_offset d (visible_offset_before d index)
resolve_before d none after_id = resolve_after d (find_anchor_index d after_id)

unfoldable pub resolve_cursor_anchor : CrdtDocument → Option CursorAnchor → CursorPosition
resolve_cursor_anchor d none = start_position
resolve_cursor_anchor d (some a) = resolve_before d (find_anchor_index d a.before_id) a.after_id

unfoldable pub create_selection_anchor : CrdtDocument → ℕ → ℕ → SelectionAnchor
create_selection_anchor d start_offset end_offset = record {
  anchor = create_cursor_anchor d start_offset;
  head = create_cursor_anchor d end_offset;
}

unfoldable pub resolve_selection_anchor :
    CrdtDocument → Option SelectionAnchor → CursorPosition × CursorPosition
resolve_selection_anchor d none = (start_position, start_position)
resolve_selection_anchor d (some s) =
    (resolve_cursor_anchor d (some s.anchor), resolve_cursor_anchor d (some s.head))
