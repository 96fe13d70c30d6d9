-- ===== src/Crdt/Cursor/Tests.antt =====
-- Cursors in the text "a", a pair of surrogates, a line break, "b".
use syncode.Base.{◌≤◌, ◌≡◌, some, ◌∷◌, ◌++◌, units, take, length}
use syncode.Crdt.Document.{CrdtDocument, from_text, visible_chars, to_visible_string}
use syncode.Crdt.Document.Text.{from_text-Inv}
use syncode.Crdt.Cursor.{create_cursor_anchor, resolve_cursor_anchor}
use syncode.Crdt.Cursor.Lines.{IsPlace}
use syncode.Crdt.Cursor.Resolve.{boundary, resolve-create}

abbrev poem : CrdtDocument
poem = from_text (units "a") (units "a" ++ 0xd83d ∷ 0xde00 ∷ 10 ∷ units "b")

resolve-create_example :
    let n = boundary (visible_chars poem.chars) 2 in
    let position = resolve_cursor_anchor poem (some (create_cursor_anchor poem 2)) in
    (position.offset ≡ n)
    × IsPlace (take n (to_visible_string poem)) (position.line_number, position.column)
    × (n ≤ 2)
    × (n ≤ length (to_visible_string poem))
resolve-create_example =
    resolve-create poem 2
      (from_text-Inv (units "a") (units "a" ++ 0xd83d ∷ 0xde00 ∷ 10 ∷ units "b")).0.formed
