-- ===== src/Editor/History/Width.antt =====
-- The width of the graph: every row fits.
use syncode.Base.{ℕ, suc, ◌*◌, ◌≤◌, max, List, [], ◌∷◌, arith, JsString, length, All}
use syncode.Editor.History.{
  GithubBranchOption, GithubCommitHistoryItem, ScmHistoryLane, ScmHistoryGraphRow, Palette,
  or_default, lane_index, build_row, build_rows, palette_of, swimlane_width, max_lane_count,
  build_scm_history_graph_rows, get_scm_history_graph_width,
}

-- The circle stands on a lane of the row or directly behind them.
lane_index-bound :
    (sha : JsString) (lanes : List ScmHistoryLane)
    → or_default (lane_index sha lanes) (length lanes) ≤ length lanes
unfolding lane_index
lane_index-bound sha [] = omega arith
lane_index-bound sha (lane ∷ lanes) = ground (arith, lane_index-bound sha lanes)

abbrev FitsIn : ℕ → ScmHistoryGraphRow → Type 0
FitsIn n row = (row.circle_index ≤ n) × (length row.input_lanes ≤ n) × (length row.output_lanes ≤ n)

max_lane_count_mono : (n : ℕ) (rows : List ScmHistoryGraphRow) → n ≤ max_lane_count n rows
unfolding max_lane_count
max_lane_count_mono n [] = omega arith
max_lane_count_mono n (row ∷ rows) = omega (
  arith,
  max_lane_count_mono (max n (max (length row.input_lanes) (length row.output_lanes))) rows,
)

-- The centres of a row's circle and of all its lanes.
pub IsDrawnIn : ℕ → ScmHistoryGraphRow → Type 0
IsDrawnIn width row =
    (swimlane_width * suc row.circle_index ≤ width)
    × (swimlane_width * suc (length row.input_lanes) ≤ width)
    × (swimlane_width * suc (length row.output_lanes) ≤ width)

drawn :
    (count m : ℕ) (row : ScmHistoryGraphRow)
    → FitsIn count row
    → count ≤ m
    → IsDrawnIn (swimlane_width * suc m) row
unfolding IsDrawnIn
drawn count m row f h = (omega (arith, f.0), omega (arith, f.1), omega (arith, f.2))

build_rows-drawn :
    (palette : Palette) (history : List GithubCommitHistoryItem) (index : ℕ)
    (lanes : List ScmHistoryLane) (count : ℕ)
    → let rows = build_rows palette index lanes history in
      All (IsDrawnIn (swimlane_width * suc (max_lane_count count rows))) rows
unfolding build_rows max_lane_count build_row
build_rows-drawn palette [] index lanes count = tt
build_rows-drawn palette (c ∷ history) index lanes count =
    let (row, index') = build_row palette index lanes c in
    let n = max count (max (length row.input_lanes) (length row.output_lanes)) in
    let rest = build_rows palette index' row.output_lanes history in
    (
      drawn n (max_lane_count n rest) row
          (omega (arith, lane_index-bound c.sha lanes), omega arith, omega arith)
          (max_lane_count_mono n rest),
      build_rows-drawn palette history index' row.output_lanes n,
    )

-- In every row of the graph the centre of the circle, and the end of the lanes that come in and go
-- out, are within the graph's width.
pub get_scm_history_graph_width_lem :
    (history : List GithubCommitHistoryItem) (branches : List GithubBranchOption)
    (current : JsString) (colors : List JsString)
    → let rows = build_scm_history_graph_rows history branches current colors in
      All (IsDrawnIn (get_scm_history_graph_width rows)) rows
unfolding build_scm_history_graph_rows get_scm_history_graph_width
get_scm_history_graph_width_lem history branches current colors =
    build_rows-drawn (palette_of branches current colors) history 0 [] 1
