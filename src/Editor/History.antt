-- ===== src/Editor/History.antt =====
-- components/editor/scmHistoryGraph.ts: the rows of the commit graph. A row's lanes run from the
-- commits above it to the parents that are still to come.
pub mod Lanes
pub mod Width
mod Tests
use mathlib.Core.Option
use syncode.Base.{
  ℕ, zero, suc, ◌-◌, ◌%◌, ◌+◌, ◌*◌, max, Bool, true, false, ◌&&◌, ◌||◌, Option, none, some, List,
  [], ◌∷◌, ◌++◌, JsString, units, str_eq, if◌then◌else◌, length, get_elem?, any,
}
use syncode.Base.Assoc.{Assoc, get, put, has}

pub record GithubBranchOption : Type 0 where
  pub name : JsString
  pub sha : JsString
  pub is_protected : Bool

pub record GithubCommitHistoryItem : Type 0 where
  pub sha : JsString
  pub message : JsString
  pub author : JsString
  pub date : Option JsString
  pub parents : List JsString

pub record ScmHistoryLane : Type 0 where
  pub id : JsString
  pub color : JsString

pub record ScmHistoryGraphRow : Type 0 where
  pub commit : GithubCommitHistoryItem
  pub input_lanes : List ScmHistoryLane
  pub output_lanes : List ScmHistoryLane
  pub circle_index : ℕ
  pub circle_color : JsString
  pub is_head : Bool

-- `a ?? b`.
abbrev pub or_default {ℓ} : {A : Type ℓ} → Option A → A → A
or_default none b = b
or_default (some a) b = a

-- `a ?? b` where `b` may be missing too.
abbrev pub or_option {ℓ} : {A : Type ℓ} → Option A → Option A → Option A
or_option none b = b
or_option (some a) b = some a

abbrev pub default_color : JsString
default_color = units "rgb(0, 122, 204)"

-- The first branch has the first colour if it is the current one; the others take turns.
unfoldable pub add_branch_colors :
    JsString → List JsString → ℕ → List GithubBranchOption → Assoc JsString → Assoc JsString
add_branch_colors current colors next [] m = m
add_branch_colors current colors next (b ∷ bs) m =
    let is_current = str_eq b.name current in
    let color =
      if is_current
      then get_elem? colors 0
      else get_elem? colors (next % max 1 (length colors - 1) + 1) in
    let seen = has b.name m in
    let m' = put b.name (or_default color (or_default (get_elem? colors 0) default_color)) m in
    add_branch_colors current colors (if seen || is_current then next else suc next) bs
      (if seen then m else m')

unfoldable pub create_branch_color_map :
    List GithubBranchOption → JsString → List JsString → Assoc JsString
create_branch_color_map branches current colors = add_branch_colors current colors 0 branches []

unfoldable pub group_branches :
    List GithubBranchOption → Assoc (List GithubBranchOption) → Assoc (List GithubBranchOption)
group_branches [] m = m
group_branches (b ∷ bs) m = group_branches bs (put b.sha (or_default (get b.sha m) [] ++ b ∷ []) m)

abbrev pub group_branches_by_commit : List GithubBranchOption → Assoc (List GithubBranchOption)
group_branches_by_commit branches = group_branches branches []

-- The colour that `createNextLaneColor` gives at an index; without colours, `index % 0` names none.
abbrev pub lane_color : List JsString → ℕ → JsString
lane_color [] index = default_color
lane_color (c ∷ cs) index = or_default (get_elem? (c ∷ cs) (index % length (c ∷ cs))) default_color

-- The colour of a name, if it is not the empty text.
abbrev pub truthy : Option JsString → Option JsString
truthy none = none
truthy (some []) = none
truthy (some (x ∷ s)) = some (x ∷ s)

abbrev pub is_truthy : Option JsString → Bool
is_truthy none = false
is_truthy (some []) = false
is_truthy (some (x ∷ s)) = true

abbrev pub first_ref_color : Assoc JsString → List GithubBranchOption → Option JsString
first_ref_color colors_by_branch [] = none
first_ref_color colors_by_branch (b ∷ bs) = get b.name colors_by_branch

unfoldable pub get_commit_color :
    List GithubBranchOption → JsString → Assoc JsString → Option JsString
get_commit_color commit_refs current colors_by_branch =
    if is_truthy (get current colors_by_branch)
      && any (λ (b : GithubBranchOption). str_eq b.name current) commit_refs
    then get current colors_by_branch
    else first_ref_color colors_by_branch commit_refs

-- The first loop of `buildOutputLanes`: the first lane of the commit goes on to its first parent,
-- its other lanes end, all others pass. The flag is `firstParentAdded`.
unfoldable pub pass_lanes :
    JsString → JsString → Option JsString → Bool → List ScmHistoryLane → List ScmHistoryLane × Bool
pass_lanes sha parent color added [] = ([], added)
pass_lanes sha parent color added (lane ∷ lanes) =
    let is_commit = str_eq lane.id sha in
    let first : ScmHistoryLane = record { id = parent; color = or_default color lane.color } in
    let (rest, added') = pass_lanes sha parent color (added || is_commit) lanes in
    (if is_commit then (if added then rest else first ∷ rest) else lane ∷ rest, added')

abbrev pub parent_ref_color :
    Assoc (List GithubBranchOption) → Assoc JsString → JsString → Option JsString
parent_ref_color branches_by_commit colors_by_branch parent =
    first_ref_color colors_by_branch (or_default (get parent branches_by_commit) [])

-- A lane for a parent; `index` counts the colours that were taken, and `wanted` is the parent's own.
abbrev pub new_lane : List JsString → ℕ → JsString → Option JsString → ScmHistoryLane × ℕ
new_lane colors index parent none =
    (record { id = parent; color = lane_color colors index }, suc index)
new_lane colors index parent (some c) = (record { id = parent; color = c }, index)

-- The second loop over the parents behind the first.
unfoldable pub parent_lanes :
    List JsString
    → Assoc (List GithubBranchOption)
    → Assoc JsString
    → ℕ
    → List JsString
    → List ScmHistoryLane × ℕ
parent_lanes colors refs by_branch index [] = ([], index)
parent_lanes colors refs by_branch index (p ∷ ps) =
    let (lane, index') = new_lane colors index p (truthy (parent_ref_color refs by_branch p)) in
    let (rest, index'') = parent_lanes colors refs by_branch index' ps in (lane ∷ rest, index'')

-- The lane of the first parent, if no lane came to the commit.
abbrev pub first_parent_lane :
    List JsString → ℕ → JsString → Option JsString → Bool → List ScmHistoryLane × ℕ
first_parent_lane colors index parent color true = ([], index)
first_parent_lane colors index parent color false =
    let (lane, index') = new_lane colors index parent (truthy color) in (lane ∷ [], index')

-- What stays the same for all rows.
pub record Palette : Type 0 where
  pub colors : List JsString
  pub current_branch : JsString
  pub colors_by_branch : Assoc JsString
  pub branches_by_commit : Assoc (List GithubBranchOption)
  pub head_sha : Option JsString

-- `buildOutputLanes` of a commit with these parents, with the counter of `nextLaneColor`.
unfoldable pub lanes_to :
    Palette
    → JsString
    → List JsString
    → List ScmHistoryLane
    → Option JsString
    → ℕ
    → List ScmHistoryLane × ℕ
lanes_to palette sha [] input_lanes color index = ([], index)
lanes_to palette sha (p ∷ ps) input_lanes color index =
    let (passed, added) = pass_lanes sha p color false input_lanes in
    let (first, index') = first_parent_lane palette.colors index p color added in
    let (others, index'') =
      parent_lanes palette.colors palette.branches_by_commit palette.colors_by_branch index' ps in
    (passed ++ (first ++ others), index'')

abbrev pub build_output_lanes :
    Palette
    → GithubCommitHistoryItem
    → List ScmHistoryLane
    → Option JsString
    → ℕ
    → List ScmHistoryLane × ℕ
build_output_lanes palette commit input_lanes color index =
    lanes_to palette commit.sha commit.parents input_lanes color index

-- `findIndex` of the commit's lane.
unfoldable pub lane_index : JsString → List ScmHistoryLane → Option ℕ
lane_index sha [] = none
lane_index sha (lane ∷ lanes) =
    let rest = Option.map suc (lane_index sha lanes) in if str_eq lane.id sha then some 0 else rest

abbrev pub color_at : List ScmHistoryLane → ℕ → Option JsString
color_at lanes i = Option.map (λ (lane : ScmHistoryLane). lane.color) (get_elem? lanes i)

unfoldable pub get_circle_color :
    List ScmHistoryLane → List ScmHistoryLane → ℕ → Option JsString → List JsString → JsString
get_circle_color output_lanes input_lanes i color colors =
    or_default
      (or_option (color_at output_lanes i)
        (or_option (color_at input_lanes i) (or_option color (get_elem? colors 0))))
      default_color

abbrev pub is_some_text : Option JsString → JsString → Bool
is_some_text none s = false
is_some_text (some t) s = str_eq s t

-- One row, with the counter of colours after it.
unfoldable pub build_row :
    Palette → ℕ → List ScmHistoryLane → GithubCommitHistoryItem → ScmHistoryGraphRow × ℕ
build_row palette index input_lanes commit =
    let refs = or_default (get commit.sha palette.branches_by_commit) [] in
    let color = get_commit_color refs palette.current_branch palette.colors_by_branch in
    let (output_lanes, index') = build_output_lanes palette commit input_lanes color index in
    let circle_index = or_default (lane_index commit.sha input_lanes) (length input_lanes) in
    (
      record {
        commit = commit;
        input_lanes = input_lanes;
        output_lanes = output_lanes;
        circle_index = circle_index;
        circle_color = get_circle_color output_lanes input_lanes circle_index color palette.colors;
        is_head = is_some_text palette.head_sha commit.sha;
      },
      index',
    )

-- The rows from some lanes on.
unfoldable pub build_rows :
    Palette → ℕ → List ScmHistoryLane → List GithubCommitHistoryItem → List ScmHistoryGraphRow
build_rows palette index lanes [] = []
build_rows palette index lanes (commit ∷ history) =
    let (row, index') = build_row palette index lanes commit in
    row ∷ build_rows palette index' row.output_lanes history

-- The `sha` of the first branch with the name.
unfoldable pub find_branch_sha : JsString → List GithubBranchOption → Option JsString
find_branch_sha name [] = none
find_branch_sha name (b ∷ bs) =
    let rest = find_branch_sha name bs in if str_eq b.name name then some b.sha else rest

abbrev pub palette_of : List GithubBranchOption → JsString → List JsString → Palette
palette_of branches current colors = record {
  colors = colors;
  current_branch = current;
  colors_by_branch = create_branch_color_map branches current colors;
  branches_by_commit = group_branches_by_commit branches;
  head_sha = find_branch_sha current branches;
}

unfoldable pub build_scm_history_graph_rows :
    List GithubCommitHistoryItem
    → List GithubBranchOption
    → JsString
    → List JsString
    → List ScmHistoryGraphRow
build_scm_history_graph_rows history branches current colors =
    build_rows (palette_of branches current colors) 0 [] history

abbrev pub swimlane_width : ℕ
swimlane_width = 11

-- The reduction of `getScmHistoryGraphWidth`.
unfoldable pub max_lane_count : ℕ → List ScmHistoryGraphRow → ℕ
max_lane_count count [] = count
max_lane_count count (row ∷ rows) =
    max_lane_count (max count (max (length row.input_lanes) (length row.output_lanes))) rows

unfoldable pub get_scm_history_graph_width : List ScmHistoryGraphRow → ℕ
get_scm_history_graph_width rows = swimlane_width * suc (max_lane_count 1 rows)
