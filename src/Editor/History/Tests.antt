-- ===== src/Editor/History/Tests.antt =====
-- A merge of two commits on one root.
use syncode.Base.{
  ◌≡◌, refl, false, none, some, List, [], ◌∷◌, arith, JsString, units, str_eq, get_elem?, All, map,
}
use syncode.Base.Assoc.{get, put, has, includes}
use syncode.Editor.History.{
  GithubBranchOption, GithubCommitHistoryItem, ScmHistoryGraphRow, build_scm_history_graph_rows,
  build_rows, build_row, lanes_to, pass_lanes, parent_lanes, lane_index, get_commit_color,
  get_circle_color, group_branches, create_branch_color_map, add_branch_colors, find_branch_sha,
  get_scm_history_graph_width, max_lane_count,
}
use syncode.Editor.History.Lanes.{IsOnLane, build_scm_history_graph_rows-lane}
use syncode.Editor.History.Width.{IsDrawnIn, get_scm_history_graph_width_lem}

abbrev commit : JsString → List JsString → GithubCommitHistoryItem
commit sha parents = record { sha = sha; message = []; author = []; date = none; parents = parents }

abbrev merge : GithubCommitHistoryItem
merge = commit (units "m") (units "a" ∷ units "b" ∷ [])

abbrev side : GithubCommitHistoryItem
side = commit (units "b") (units "r" ∷ [])

abbrev root : GithubCommitHistoryItem
root = commit (units "r") []

abbrev main : List GithubBranchOption
main = record { name = units "main"; sha = units "m"; is_protected = false } ∷ []

abbrev colors : List JsString
colors = units "red" ∷ units "blue" ∷ []

abbrev rows : List ScmHistoryGraphRow
rows = build_scm_history_graph_rows (merge ∷ side ∷ root ∷ []) main (units "main") colors

-- What a run of the graph unfolds.
graph : Unit {0}
unfolding build_scm_history_graph_rows build_rows build_row lanes_to pass_lanes parent_lanes
    lane_index get_commit_color get_circle_color group_branches create_branch_color_map
    add_branch_colors find_branch_sha get put has includes str_eq get_scm_history_graph_width
    max_lane_count
graph = tt

run_tests_graph :
    (map (λ (r : ScmHistoryGraphRow). r.circle_index) rows ≡ 0 ∷ 1 ∷ 1 ∷ [])
    × (map (λ (r : ScmHistoryGraphRow). r.circle_color) rows
        ≡ units "red" ∷ units "red" ∷ units "red" ∷ [])
    × (get_scm_history_graph_width rows ≡ 33)
unfolding graph
run_tests_graph = (refl, refl, refl)

build_scm_history_graph_rows-lane_example :
    (row : ScmHistoryGraphRow) × (get_elem? rows 1 ≡ some row) × (row.commit ≡ side) × IsOnLane row
unfolding graph
build_scm_history_graph_rows-lane_example =
    build_scm_history_graph_rows-lane (merge ∷ []) (root ∷ []) side main (units "main") colors
      (omega arith, tt) (refl, tt) refl

get_scm_history_graph_width_lem_example : All (IsDrawnIn (get_scm_history_graph_width rows)) rows
get_scm_history_graph_width_lem_example =
    get_scm_history_graph_width_lem (merge ∷ side ∷ root ∷ []) main (units "main") colors
