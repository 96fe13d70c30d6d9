-- ===== src/Provider/Replace.antt =====
-- `replaceFileContent`: a new text for a file, as deletions and insertions of what has changed. The
-- operations are those that the client sends, in their order.
pub mod Lengths
pub mod Places
pub mod Edits
mod Tests
use syncode.Base.{
  ℕ, zero, suc, ◌+◌, ◌-◌, min, Bool, true, false, ◌&&◌, ltb, Option, none, some, List, [], ◌∷◌,
  ◌++◌, JsString, str_eq, if◌then◌else◌, length, get_elem?, take, drop,
}
use syncode.Crdt.Id.{CrdtId}
use syncode.Crdt.Document.{
  CrdtChar, CrdtOp, CrdtDocument, visible_chars, code_points, local_insert, local_delete, next_id,
}

-- `current[i].value === next[j]` of two elements that are there.
abbrev pub same_value_at : Option CrdtChar → Option JsString → Bool
same_value_at none s = false
same_value_at (some c) none = false
same_value_at (some c) (some s) = str_eq c.value s

unfoldable pub common_prefix_length : List CrdtChar → List JsString → ℕ
common_prefix_length [] next = 0
common_prefix_length (c ∷ current) [] = 0
common_prefix_length (c ∷ current) (s ∷ next) =
    let rest = common_prefix_length current next in if str_eq c.value s then suc rest else 0

-- The loop of `commonSuffixLength` with the rounds that its bounds leave.
unfoldable pub suffix_from : ℕ → List CrdtChar → List JsString → ℕ → ℕ
suffix_from zero current next len = len
suffix_from (suc rounds) current next len =
    let further = suffix_from rounds current next (suc len) in
    if same_value_at (get_elem? current (length current - len - 1))
      (get_elem? next (length next - len - 1))
    then further
    else len

unfoldable pub common_suffix_length : List CrdtChar → List JsString → ℕ → ℕ
common_suffix_length current next prefix =
    suffix_from (min (length current - prefix) (length next - prefix)) current next 0

-- `slice(from, to)` within the array.
abbrev pub slice {ℓ} : {A : Type ℓ} → ℕ → ℕ → List A → List A
slice from to xs = take (to - from) (drop from xs)

unfoldable pub delete_replaced_characters :
    List CrdtChar → CrdtDocument → CrdtDocument × List CrdtOp
delete_replaced_characters [] d = (d, [])
delete_replaced_characters (c ∷ cs) d =
    let (d', op) = local_delete c.id d in
    let (d'', ops) = delete_replaced_characters cs d' in (d'', op ∷ ops)

-- The id of the character that `local_insert` makes is the next one of the document.
unfoldable pub insert_replacement_characters :
    List JsString → Option CrdtId → CrdtDocument → CrdtDocument × List CrdtOp
insert_replacement_characters [] origin_id d = (d, [])
insert_replacement_characters (s ∷ ss) origin_id d =
    let (d', op) = local_insert origin_id s d in
    let (d'', ops) = insert_replacement_characters ss (some (next_id d.site_id d.clock)) d' in
    (d'', op ∷ ops)

-- `character?.id ?? null`.
abbrev pub id_or_null : Option CrdtChar → Option CrdtId
id_or_null none = none
id_or_null (some c) = some c.id

-- `current[prefix - 1]?.id ?? null`.
abbrev pub id_before : ℕ → List CrdtChar → Option CrdtId
id_before zero current = none
id_before (suc i) current = id_or_null (get_elem? current i)

unfoldable pub replace_file_content : JsString → CrdtDocument → CrdtDocument × List CrdtOp
replace_file_content content d =
    let current = visible_chars d.chars in
    let next = code_points content in
    let prefix = common_prefix_length current next in
    let suffix = common_suffix_length current next prefix in
    let (deleted, deletions) =
      delete_replaced_characters (slice prefix (length current - suffix) current) d in
    let (inserted, insertions) =
      insert_replacement_characters (slice prefix (length next - suffix) next)
        (id_before prefix current) deleted in
    (inserted, deletions ++ insertions)
