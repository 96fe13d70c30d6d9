-- ===== src/Provider/Replace/Tests.antt =====
-- Replacements on a small file.
use syncode.Base.{◌≡◌, refl, some, [], ◌∷◌, units, str_eq, str_lt}
use syncode.Crdt.Document.{
  CrdtDocument, insert, create_char, next_id, from_text, to_visible_string, visible_chars,
  find_char_index, insert_char, scan, origin_pos, local_insert,
}
use syncode.Crdt.Document.Convergence.{IsCausal, deliver}
use syncode.Crdt.Document.Invariant.{Inv}
use syncode.Crdt.Document.Text.{from_text-Inv}
use syncode.Crdt.Id.{newer, crdt_ids_equal, id_eq}
use syncode.Provider.Replace.{
  common_prefix_length, suffix_from, common_suffix_length, delete_replaced_characters,
  insert_replacement_characters, replace_file_content,
}
use syncode.Provider.Replace.Edits.{replace_file_content-deliver}

abbrev file : CrdtDocument
file = from_text (units "a") (units "cat")

-- Only the middle is replaced: "r" comes behind "a".
run_tests_replace :
    (replace_file_content (units "cart") file).1
    ≡ insert (create_char (next_id (units "a") 3) (units "r") (some (next_id (units "a") 1))) ∷ []
unfolding from_text visible_chars find_char_index id_eq str_eq str_lt insert_char scan origin_pos
    newer crdt_ids_equal local_insert replace_file_content common_prefix_length suffix_from
    common_suffix_length delete_replaced_characters insert_replacement_characters
run_tests_replace = refl

replace_file_content-deliver_example :
    let r = replace_file_content (units "cot") file in
    (to_visible_string r.0 ≡ units "cot") × Inv r.0 × IsCausal r.1 file × (r.0 ≡ deliver r.1 file)
replace_file_content-deliver_example =
    replace_file_content-deliver (units "cot") file (from_text-Inv (units "a") (units "cat")).0
