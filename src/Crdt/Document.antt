-- ===== src/Crdt/Document.antt =====
-- crdt/CrdtChar.ts and crdt/CrdtDocument.ts: the replicated sequence of characters. An index of -1
-- is `none`. A snapshot is the record that the source passes to `JSON.stringify` and gets back from
-- `JSON.parse`.
pub mod Forest
pub mod Deletion
pub mod Convergence
pub mod Local
pub mod Invariant
pub mod Gone
pub mod Snapshot
pub mod Text
mod Tests
use syncode.Base.{
  ℕ, zero, suc, max, Bool, true, false, ◌&&◌, not, Option, none, some, List, [], ◌∷◌, ◌++◌,
  JsString, ltb, leb, if◌then◌else◌, insert_at, drop, filter_by,
}
use syncode.Crdt.Id.{CrdtId, newer, crdt_ids_equal, id_eq}
use mathlib.Core.Option

pub record CrdtChar : Type 0 where
  pub id : CrdtId
  pub value : JsString
  pub origin_id : Option CrdtId
  pub is_deleted : Bool

abbrev pub create_char : CrdtId → JsString → Option CrdtId → CrdtChar
create_char id value origin_id = record {
  id = id;
  value = value;
  origin_id = origin_id;
  is_deleted = false;
}

-- The id that the site gives to its next character.
abbrev pub next_id : JsString → ℕ → CrdtId
next_id site_id clock = record { site_id = site_id; counter = suc clock }

pub data CrdtOp : Type 0 where
  insert : CrdtChar → CrdtOp
  delete : CrdtId → CrdtOp

pub record CrdtDocument : Type 0 where
  pub site_id : JsString
  pub clock : ℕ
  pub chars : List CrdtChar

abbrev pub new_document : JsString → CrdtDocument
new_document site_id = record { site_id = site_id; clock = 0; chars = [] }

unfoldable pub find_char_index : CrdtId → List CrdtChar → Option ℕ
find_char_index id [] = none
find_char_index id (c ∷ cs) =
    if id_eq c.id id then some 0 else Option.map suc (find_char_index id cs)

abbrev pub is_found : Option ℕ → Bool
is_found none = false
is_found (some i) = true

unfoldable pub has_char : CrdtId → List CrdtChar → Bool
has_char id cs = is_found (find_char_index id cs)

-- The position of an origin: -1 for the start of the document.
unfoldable pub origin_pos : Option CrdtId → List CrdtChar → Option ℕ
origin_pos none cs = none
origin_pos (some id) cs = find_char_index id cs

-- `<` on positions.
abbrev pub pos_lt : Option ℕ → Option ℕ → Bool
pos_lt none none = false
pos_lt none (some j) = true
pos_lt (some i) none = false
pos_lt (some i) (some j) = ltb i j

abbrev pub next_pos : Option ℕ → ℕ
next_pos none = 0
next_pos (some i) = suc i

-- The loop of `insertChar` over the characters from `pos` on; `doc` is the whole document.
unfoldable pub scan : List CrdtChar → CrdtChar → Option ℕ → List CrdtChar → ℕ → ℕ
scan doc new op [] pos = pos
scan doc new op (next ∷ rest) pos =
    let further = scan doc new op rest (suc pos) in
    if crdt_ids_equal next.origin_id new.origin_id
    then if newer new.id next.id then pos else further
    else if pos_lt (origin_pos next.origin_id doc) op
    then pos
    else further

unfoldable pub insert_char : CrdtChar → List CrdtChar → List CrdtChar
insert_char new cs =
    let op = origin_pos new.origin_id cs in
    let start = next_pos op in insert_at (scan cs new op (drop start cs) start) new cs

-- `this.chars[index].isDeleted = true`.
unfoldable pub mark_at : ℕ → List CrdtChar → List CrdtChar
mark_at i [] = []
mark_at zero (c ∷ cs) = record c { is_deleted = true } ∷ cs
mark_at (suc i) (c ∷ cs) = c ∷ mark_at i cs

abbrev pub mark_found : Option ℕ → List CrdtChar → List CrdtChar
mark_found none cs = cs
mark_found (some i) cs = mark_at i cs

unfoldable pub mark_deleted : CrdtId → List CrdtChar → List CrdtChar
mark_deleted id cs = mark_found (find_char_index id cs) cs

unfoldable pub local_insert : Option CrdtId → JsString → CrdtDocument → CrdtDocument × CrdtOp
local_insert origin_id value d =
    let clock = suc d.clock in
    let char = create_char (next_id d.site_id d.clock) value origin_id in
    (record d { clock = clock; chars = insert_char char d.chars }, insert char)

unfoldable pub local_delete : CrdtId → CrdtDocument → CrdtDocument × CrdtOp
local_delete id d = (record d { chars = mark_deleted id d.chars }, delete id)

unfoldable pub integrate_remote_insert : CrdtChar → CrdtDocument → CrdtDocument
integrate_remote_insert c d =
    if has_char c.id d.chars
    then record d { clock = max d.clock c.id.counter }
    else record d { clock = max d.clock c.id.counter; chars = insert_char c d.chars }

unfoldable pub integrate_remote_delete : CrdtId → CrdtDocument → CrdtDocument
integrate_remote_delete id d = record d { chars = mark_deleted id d.chars }

-- One delivered operation.
unfoldable pub apply_op : CrdtOp → CrdtDocument → CrdtDocument
apply_op (insert c) d = integrate_remote_insert c d
apply_op (delete id) d = integrate_remote_delete id d

unfoldable pub visible_chars : List CrdtChar → List CrdtChar
visible_chars cs = filter_by (λ c. not c.is_deleted) cs

abbrev pub join_values : List CrdtChar → JsString
join_values [] = []
join_values (c ∷ cs) = c.value ++ join_values cs

unfoldable pub to_visible_string : CrdtDocument → JsString
unfolding visible_chars
to_visible_string d = join_values (visible_chars d.chars)

pub record CrdtSnapshot : Type 0 where
  pub clock : ℕ
  pub chars : List CrdtChar

unfoldable pub to_snapshot : CrdtDocument → CrdtSnapshot
to_snapshot d = record { clock = d.clock; chars = d.chars }

-- The test `char.isDeleted && !this.chars[idx].isDeleted` of one character that is present.
abbrev pub is_live_at : ℕ → List CrdtChar → Bool
is_live_at i [] = false
is_live_at zero (c ∷ cs) = not c.is_deleted
is_live_at (suc i) (c ∷ cs) = is_live_at i cs

unfoldable pub merge_char : CrdtChar → CrdtDocument → CrdtDocument
merge_char char d = elim (find_char_index char.id d.chars) [
  | none ↦ integrate_remote_insert char d
  | some i ↦
      if char.is_deleted && is_live_at i d.chars then integrate_remote_delete char.id d else d
]

unfoldable pub merge_chars : List CrdtChar → CrdtDocument → CrdtDocument
merge_chars [] d = d
merge_chars (c ∷ cs) d = merge_chars cs (merge_char c d)

unfoldable pub from_snapshot : CrdtSnapshot → CrdtDocument → CrdtDocument
from_snapshot s d =
    let d' = record d { clock = max d.clock s.clock } in
    elim d.chars [ [] ↦ record d' { chars = s.chars } | _ ∷ _ ↦ merge_chars s.chars d' ]

-- `for (const value of text)` takes a surrogate pair as one value.
abbrev pub is_high : ℕ → Bool
is_high c = leb 0xd800 c && ltb c 0xdc00

abbrev pub is_low : ℕ → Bool
is_low c = leb 0xdc00 c && ltb c 0xe000

unfoldable pub code_points : JsString → List JsString
code_points [] = []
code_points (c ∷ []) = (c ∷ []) ∷ []
code_points (c ∷ d ∷ s) = elim (is_high c && is_low d) [
  | true ↦ (c ∷ d ∷ []) ∷ code_points s
  | false ↦ (c ∷ []) ∷ code_points (d ∷ s)
]

unfoldable pub push_values : JsString → ℕ → Option CrdtId → List JsString → ℕ × List CrdtChar
push_values site_id clock origin_id [] = (clock, [])
push_values site_id clock origin_id (v ∷ vs) =
    let id = next_id site_id clock in
    let (clock', rest) = push_values site_id (suc clock) (some id) vs in
    (clock', create_char id v origin_id ∷ rest)

unfoldable pub from_text : JsString → JsString → CrdtDocument
unfolding push_values code_points
from_text site_id text =
    let (clock, chars) = push_values site_id 0 none (code_points text) in
    record { site_id = site_id; clock = clock; chars = chars }
