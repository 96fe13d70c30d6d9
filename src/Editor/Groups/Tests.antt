-- ===== src/Editor/Groups/Tests.antt =====
-- Two groups of files; widths are thousandths of the full one.
use syncode.Base.{
  ℕ, ◌+◌, ◌-◌, ◌/◌, min, max, ◌≤◌, ◌≡◌, refl, leb, List, [], ◌∷◌, JsString, units, str_eq,
}
use syncode.Base.Assoc.{includes}
use syncode.Editor.Groups.{
  WidthOps, EditorGroupState, initial_editor_group, ids, find_group, split_editor_group,
  open_editor_group_file, close_editor_group_file, close_file, index_of, remove_editor_group,
  merge_files,
}
use syncode.Base.Counting.{times}
use syncode.Editor.Groups.Counts.{total}
use syncode.Editor.Groups.Invariant.{IsValid}
use syncode.Editor.Groups.Remove.{remove_editor_group-IsValid}
use syncode.Editor.Groups.Steps.{Reachable, initial, split, open_file, Reachable-IsValid}

abbrev thousandths : WidthOps ℕ
thousandths = record {
  add = ◌+◌;
  sub = ◌-◌;
  half = λ w. w / 2;
  smaller = min;
  larger = max;
  least = 125;
  fits_twice = λ w. leb 250 w;
}

abbrev one : List (EditorGroupState ℕ)
one = initial_editor_group 1000 ∷ []

abbrev two : List (EditorGroupState ℕ)
two = split_editor_group thousandths one (units "group-1") (units "group-2")

abbrev three : List (EditorGroupState ℕ)
three = open_editor_group_file two (units "group-2") (units "a")

-- What a run of the groups unfolds.
groups : Unit {0}
unfolding split_editor_group open_editor_group_file close_editor_group_file remove_editor_group
    find_group close_file index_of merge_files str_eq includes
groups = tt

three-Reachable : Reachable thousandths 1000 three
unfolding groups
three-Reachable =
    open_file two (units "group-2") (units "a")
      (split one (units "group-1") (units "group-2") initial refl)

run_tests_groups :
    (remove_editor_group thousandths three (units "group-2")).0
    ≡ record {
      id = units "group-1";
      file_ids = units "a" ∷ [];
      active_file_id = units "a";
      width = 1000;
    }
      ∷ []
unfolding groups
run_tests_groups = refl

Reachable-IsValid_example : IsValid three
Reachable-IsValid_example = Reachable-IsValid thousandths 1000 three three-Reachable

three-IsValid : IsValid three
three-IsValid = Reachable-IsValid thousandths 1000 three three-Reachable

remove_editor_group-IsValid_example :
    let r = remove_editor_group thousandths three (units "group-2") in
    IsValid r.0 × ((x : JsString) → total x r.0 ≡ total x three) × (1 ≤ times r.1 (ids r.0))
remove_editor_group-IsValid_example =
    remove_editor_group-IsValid thousandths three (units "group-2") three-IsValid
