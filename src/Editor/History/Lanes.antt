-- ===== src/Editor/History/Lanes.antt =====
-- Which lanes reach a commit.
use syncode.Base.{
  ℕ, suc, ◌≤◌, ◌≡◌, refl, sym, ap, subst, ◌⊎◌, inl, inr, Bool, true, false, ◌||◌, Bool-cases,
  Option, none, some, List, [], ◌∷◌, ◌++◌, arith, JsString, str_eq, str_eq_iff, str_eq_refl, length,
  get_elem?, any, All,
}
use syncode.Base.Assoc.{Assoc, includes}
use syncode.Editor.History.{
  GithubBranchOption, GithubCommitHistoryItem, ScmHistoryLane, ScmHistoryGraphRow, Palette,
  or_default, truthy, pass_lanes, new_lane, first_parent_lane, parent_lanes, parent_ref_color,
  lanes_to, lane_index, build_row, build_rows, palette_of, build_scm_history_graph_rows,
}

abbrev pub has_lane : JsString → List ScmHistoryLane → Bool
has_lane x lanes = any (λ (lane : ScmHistoryLane). str_eq lane.id x) lanes

has_lane-left :
    (x : JsString) (l r : List ScmHistoryLane) → has_lane x l ≡ true → has_lane x (l ++ r) ≡ true
has_lane-left x [] r h = ground arith
has_lane-left x (a ∷ l) r h = ground (arith, has_lane-left x l r)

has_lane-right :
    (x : JsString) (l r : List ScmHistoryLane) → has_lane x r ≡ true → has_lane x (l ++ r) ≡ true
has_lane-right x [] r h = h
has_lane-right x (a ∷ l) r h = ground (arith, has_lane-right x l r h)

module _ (sha parent : JsString) (color : Option JsString) where
  pass_lanes-other :
      (x : JsString) (added : Bool) (lanes : List ScmHistoryLane)
      → str_eq sha x ≡ false
      → has_lane x lanes ≡ true
      → has_lane x (pass_lanes sha parent color added lanes).0 ≡ true
  unfolding pass_lanes
  pass_lanes-other x added [] n h = ground arith
  pass_lanes-other x added (lane ∷ lanes) n h = ground (
    arith,
    pass_lanes-other x (added || str_eq lane.id sha) lanes,
    str_eq_iff lane.id sha,
    str_eq_iff lane.id x,
    str_eq_iff sha x,
    str_eq_refl x,
  )

  pass_lanes-parent :
      (added : Bool) (lanes : List ScmHistoryLane)
      → (pass_lanes sha parent color added lanes).1 ≡ true
      → (added ≡ true) ⊎ (has_lane parent (pass_lanes sha parent color added lanes).0 ≡ true)
  unfolding pass_lanes
  pass_lanes-parent added [] h = inl h
  pass_lanes-parent added (lane ∷ lanes) h =
      ground (arith, pass_lanes-parent (added || str_eq lane.id sha) lanes, str_eq_refl parent)

new_lane-id :
    (colors : List JsString) (index : ℕ) (p : JsString) (wanted : Option JsString)
    → (new_lane colors index p wanted).0.id ≡ p
new_lane-id colors index p none = refl
new_lane-id colors index p (some c) = refl

parent_lanes-there :
    (colors : List JsString) (refs : Assoc (List GithubBranchOption)) (by_branch : Assoc JsString)
    (index : ℕ) (ps : List JsString) (x : JsString)
    → includes x ps ≡ true
    → has_lane x (parent_lanes colors refs by_branch index ps).0 ≡ true
unfolding parent_lanes includes
parent_lanes-there colors refs by_branch index [] x h = ground arith
parent_lanes-there colors refs by_branch index (p ∷ ps) x h =
    let wanted = truthy (parent_ref_color refs by_branch p) in
    ground (
      arith,
      parent_lanes-there colors refs by_branch (new_lane colors index p wanted).1 ps x,
      ap (λ z. str_eq z x) (new_lane-id colors index p wanted),
    )

first_parent_lane-there :
    (colors : List JsString) (index : ℕ) (p : JsString) (color : Option JsString)
    → has_lane p (first_parent_lane colors index p color false).0 ≡ true
first_parent_lane-there colors index p color =
    ground (arith, ap (λ z. str_eq z p) (new_lane-id colors index p (truthy color)), str_eq_refl p)

lanes_to-parent :
    (palette : Palette) (sha : JsString) (ps : List JsString) (lanes : List ScmHistoryLane)
    (color : Option JsString) (index : ℕ) (x : JsString)
    → includes x ps ≡ true
    → has_lane x (lanes_to palette sha ps lanes color index).0 ≡ true
unfolding lanes_to includes
lanes_to-parent palette sha [] lanes color index x h = ground arith
lanes_to-parent palette sha (p ∷ ps) lanes color index x h =
    let pass = pass_lanes sha p color false lanes in
    let first = first_parent_lane palette.colors index p color pass.1 in
    elim (Bool-cases (str_eq p x)) [
      | inl same ↦
          subst (λ z. has_lane z (lanes_to palette sha (p ∷ ps) lanes color index).0 ≡ true)
            ((str_eq_iff p x).0 same)
            (elim (Bool-cases pass.1) [
              | inl added ↦
                  has_lane-left p pass.0 _
                    (ground (arith, pass_lanes-parent sha p color false lanes))
              | inr not_added ↦ has_lane-right p pass.0 _ (
                  has_lane-left p first.0 _ (
                    subst
                      (λ a. has_lane p (first_parent_lane palette.colors index p color a).0 ≡ true)
                      (sym not_added) (first_parent_lane-there palette.colors index p color)))
            ])
      | inr other ↦ has_lane-right x pass.0 _ (
          has_lane-right x first.0 _ (
            parent_lanes-there palette.colors palette.branches_by_commit palette.colors_by_branch
              first.1 ps x (ground arith)))
    ]

lanes_to-other :
    (palette : Palette) (sha : JsString) (ps : List JsString) (lanes : List ScmHistoryLane)
    (color : Option JsString) (index : ℕ) (x : JsString)
    → 1 ≤ length ps
    → str_eq sha x ≡ false
    → has_lane x lanes ≡ true
    → has_lane x (lanes_to palette sha ps lanes color index).0 ≡ true
unfolding lanes_to
lanes_to-other palette sha [] lanes color index x l n h = ground arith
lanes_to-other palette sha (p ∷ ps) lanes color index x l n h =
    has_lane-left x (pass_lanes sha p color false lanes).0 _
      (pass_lanes-other sha p color x false lanes n h)

lane_index-some :
    (x : JsString) (lanes : List ScmHistoryLane)
    → has_lane x lanes ≡ true
    → (i : ℕ) × (lane : ScmHistoryLane) × (lane_index x lanes ≡ some i)
      × (get_elem? lanes i ≡ some lane)
      × (lane.id ≡ x)
unfolding lane_index
lane_index-some x [] h = ground arith
lane_index-some x (lane ∷ lanes) h = elim (Bool-cases (str_eq lane.id x)) [
  | inl same ↦ (0, lane, rw same refl, refl, (str_eq_iff lane.id x).0 same)
  | inr other ↦
      let (i, l, e, f, g) = lane_index-some x lanes (ground arith) in
      (suc i, l, rw (other, e) refl, f, g)
]

-- The circle of a row stands on a lane of the commit.
pub IsOnLane : ScmHistoryGraphRow → Type 0
IsOnLane row =
    (lane : ScmHistoryLane) × (get_elem? row.input_lanes row.circle_index ≡ some lane)
    × (lane.id ≡ row.commit.sha)

build_row-IsOnLane :
    (palette : Palette) (index : ℕ) (lanes : List ScmHistoryLane) (c : GithubCommitHistoryItem)
    → has_lane c.sha lanes ≡ true
    → IsOnLane (build_row palette index lanes c).0
unfolding build_row IsOnLane
build_row-IsOnLane palette index lanes c h =
    let (i, lane, e, f, g) = lane_index-some c.sha lanes h in
    (lane, subst (λ o. get_elem? lanes (or_default o (length lanes)) ≡ some lane) (sym e) f, g)

-- A commit that names the id among its parents.
abbrev pub has_child : JsString → List GithubCommitHistoryItem → Bool
has_child x history = any (λ (b : GithubCommitHistoryItem). includes x b.parents) history

-- One row nearer to a commit: the lane goes on, or starts.
next_lane :
    (palette : Palette) (index : ℕ) (lanes : List ScmHistoryLane) (b c : GithubCommitHistoryItem)
    (before : List GithubCommitHistoryItem)
    → 1 ≤ length b.parents
    → str_eq b.sha c.sha ≡ false
    → (has_lane c.sha lanes ≡ true) ⊎ (has_child c.sha (b ∷ before) ≡ true)
    → (has_lane c.sha (build_row palette index lanes b).0.output_lanes ≡ true)
      ⊎ (has_child c.sha before ≡ true)
unfolding build_row
next_lane palette index lanes b c before p n (inl h) =
    inl (lanes_to-other palette b.sha b.parents lanes _ index c.sha p n h)
next_lane palette index lanes b c before p n (inr h) =
    elim (Bool-cases (includes c.sha b.parents)) [
      | inl named ↦ inl (lanes_to-parent palette b.sha b.parents lanes _ index c.sha named)
      | inr other ↦ inr (ground arith)
    ]

module _ (palette : Palette) (c : GithubCommitHistoryItem)
    (after : List GithubCommitHistoryItem) where
  build_rows-lane :
      (before : List GithubCommitHistoryItem) (index : ℕ) (lanes : List ScmHistoryLane)
      → All (λ b. 1 ≤ length b.parents) before
      → All (λ b. str_eq b.sha c.sha ≡ false) before
      → (has_lane c.sha lanes ≡ true) ⊎ (has_child c.sha before ≡ true)
      → (row : ScmHistoryGraphRow) × (get_elem?
            (build_rows palette index lanes (before ++ c ∷ after))
            (length before)
          ≡ some row)
        × (row.commit ≡ c)
        × IsOnLane row
  unfolding build_rows build_row
  build_rows-lane [] index lanes p n (inr h) = ground arith
  build_rows-lane [] index lanes p n (inl h) =
      ((build_row palette index lanes c).0, refl, refl, build_row-IsOnLane palette index lanes c h)
  build_rows-lane (b ∷ before) index lanes p n h =
      let r = build_row palette index lanes b in
      build_rows-lane before r.1 r.0.output_lanes p.1 n.1
        (next_lane palette index lanes b c before p.0 n.0 h)

-- In a history where every commit above has parents and another hash, and one of them names this
-- commit as a parent: the row at the commit's place is the commit's, and its circle stands on a
-- lane that runs to this commit.
pub build_scm_history_graph_rows-lane :
    (before after : List GithubCommitHistoryItem) (c : GithubCommitHistoryItem)
    (branches : List GithubBranchOption) (current : JsString) (colors : List JsString)
    → All (λ b. 1 ≤ length b.parents) before
    → All (λ b. str_eq b.sha c.sha ≡ false) before
    → has_child c.sha before ≡ true
    → (row : ScmHistoryGraphRow) × (get_elem?
          (build_scm_history_graph_rows (before ++ c ∷ after) branches current colors)
          (length before)
        ≡ some row)
      × (row.commit ≡ c)
      × IsOnLane row
unfolding build_scm_history_graph_rows
build_scm_history_graph_rows-lane before after c branches current colors p n h =
    build_rows-lane (palette_of branches current colors) c after before 0 [] p n (inr h)
