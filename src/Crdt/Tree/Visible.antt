-- ===== src/Crdt/Tree/Visible.antt =====
-- From registers to the entries that a user sees. The two walks up the tree take fuel and answer
-- `none` when it runs out.
pub mod Walks
pub mod Parents
pub mod Climbs
pub mod Acyclic
use syncode.Base.{
  ℕ, zero, suc, Bool, true, false, not, ◌||◌, Option, none, some, List, [], ◌∷◌, ◌++◌, JsString,
  str_eq, str_lt, if◌then◌else◌, length, map, sort,
}
use syncode.Base.Assoc.{Assoc, get, put, has, remove, keys, values, includes}
use syncode.Crdt.Id.{CrdtId, newer}
use syncode.Crdt.Tree.Op.{RoomEntry}
use syncode.Crdt.Tree.Registers.{EntryRegister, Registers}

pub record Visible : Type 0 where
  pub entries : Assoc RoomEntry
  pub parents : Assoc (Option JsString)
  pub parent_versions : Assoc CrdtId

pub record MaterializedEntry : Type 0 where
  pub entry : RoomEntry
  pub parent_id : Option JsString
  pub parent_version : CrdtId

-- `register?.value ?? value`.
abbrev pub value_or : {T : Type 0} → Option (EntryRegister T) → T → T
value_or none v = v
value_or (some r) v = r.value

abbrev pub version_or : {T : Type 0} → Option (EntryRegister T) → CrdtId → CrdtId
version_or none i = i
version_or (some r) i = r.op_id

unfoldable pub create_visible_entry :
    JsString → EntryRegister RoomEntry → Registers → Option MaterializedEntry
create_visible_entry id create r =
    let parent = get id r.parents in
    let parent_id = value_or parent none in
    if has id r.deleted
    then none
    else some (record {
      entry = record create.value {
        name = value_or (get id r.names) create.value.name;
        parent_id = parent_id;
      };
      parent_id = parent_id;
      parent_version = version_or parent create.op_id;
    })

abbrev pub add_visible : JsString → Option MaterializedEntry → Visible → Visible
add_visible id none v = v
add_visible id (some item) v = record {
  entries = put id item.entry v.entries;
  parents = put id item.parent_id v.parents;
  parent_versions = put id item.parent_version v.parent_versions;
}

unfoldable pub visible_loop : Registers → Assoc (EntryRegister RoomEntry) → Visible → Visible
visible_loop r [] v = v
visible_loop r ((id, create) ∷ rest) v =
    visible_loop r rest (add_visible id (create_visible_entry id create r) v)

unfoldable pub create_visible_entries : Registers → Visible
create_visible_entries r =
    visible_loop r r.creates (record { entries = []; parents = []; parent_versions = [] })

-- `parents.get(id) ?? null`.
abbrev pub flat : {A : Type 0} → Option (Option A) → Option A
flat none = none
flat (some o) = o

unfoldable pub parent_of : Assoc (Option JsString) → JsString → Option JsString
parent_of parents id = flat (get id parents)

-- The `while` loop of `removeDeletedDescendants` from one entry.
unfoldable pub below_deleted :
    ℕ
    → Assoc (Option JsString)
    → Assoc (EntryRegister (Unit {0}))
    → List JsString
    → Option JsString
    → Option Bool
below_deleted zero parents deleted visited p = none
below_deleted (suc fuel) parents deleted visited none = some false
below_deleted (suc fuel) parents deleted visited (some p) =
    let further = below_deleted fuel parents deleted (p ∷ visited) (parent_of parents p) in
    if has p deleted then some true else if includes p visited then some false else further

-- Each round of a walk meets an entry that it has not met before.
abbrev pub walk_fuel : Assoc (Option JsString) → ℕ
walk_fuel parents = suc (suc (length parents))

abbrev pub holds : Option Bool → Bool
holds none = false
holds (some b) = b

unfoldable pub is_hidden :
    Assoc (Option JsString) → Assoc (EntryRegister (Unit {0})) → JsString → Bool
is_hidden parents deleted id =
    holds (below_deleted (walk_fuel parents) parents deleted (id ∷ []) (parent_of parents id))

abbrev pub remove_all : {V : Type 0} → List JsString → Assoc V → Assoc V
remove_all [] m = m
remove_all (k ∷ ks) m = remove_all ks (remove k m)

abbrev pub select_keys : (JsString → Bool) → List JsString → List JsString
select_keys p [] = []
select_keys p (k ∷ ks) = elim (p k) [ true ↦ k ∷ select_keys p ks | false ↦ select_keys p ks ]

unfoldable pub remove_deleted_descendants : Visible → Assoc (EntryRegister (Unit {0})) → Visible
remove_deleted_descendants v deleted =
    let hidden = select_keys (is_hidden v.parents deleted) (keys v.parents) in
    record {
      entries = remove_all hidden v.entries;
      parents = remove_all hidden v.parents;
      parent_versions = remove_all hidden v.parent_versions;
    }

-- `parent && parent.isFolder`.
abbrev pub is_folder_entry : Option RoomEntry → Bool
is_folder_entry none = false
is_folder_entry (some e) = e.is_folder

unfoldable pub checked_parent : Assoc RoomEntry → Option JsString → Option JsString
checked_parent entries none = none
checked_parent entries (some p) = if is_folder_entry (get p entries) then some p else none

unfoldable pub detach_parents : Assoc RoomEntry → Assoc (Option JsString) → Assoc (Option JsString)
detach_parents entries [] = []
detach_parents entries ((id, p) ∷ rest) =
    (id, checked_parent entries p) ∷ detach_parents entries rest

unfoldable pub detach_invalid_parents : Visible → Visible
detach_invalid_parents v = record v { parents = detach_parents v.entries v.parents }

-- `path.slice(cycleStart)`: the path from the first occurrence of `id` on.
unfoldable pub from_first : JsString → List JsString → List JsString
from_first id [] = []
from_first id (x ∷ xs) = if str_eq x id then x ∷ xs else from_first id xs

-- `compareCrdtIds(versions.get(a)!, versions.get(b)!) < 0`. Every visible entry has a version.
unfoldable pub older_version : Assoc CrdtId → JsString → JsString → Bool
older_version versions a b = elim (get a versions) [
  | none ↦ false
  | some i ↦ elim (get b versions) [ none ↦ false | some j ↦ newer j i ]
]

unfoldable pub lowest_version : Assoc CrdtId → JsString → List JsString → JsString
lowest_version versions lowest [] = lowest
lowest_version versions lowest (c ∷ cs) =
    lowest_version versions (if older_version versions c lowest then c else lowest) cs

-- `reduce` without a start value on a cycle, which is not empty.
abbrev pub lowest_of : Assoc CrdtId → List JsString → Option JsString
lowest_of versions [] = none
lowest_of versions (c ∷ cs) = some (lowest_version versions c cs)

-- The inner loop of `breakParentCycles`: the path, and the entry to detach if it ends in a cycle.
unfoldable pub follow :
    ℕ
    → Assoc (Option JsString)
    → Assoc CrdtId
    → List JsString
    → List JsString
    → Option JsString
    → Option (List JsString × Option JsString)
follow zero parents versions complete path current = none
follow (suc fuel) parents versions complete path none = some (path, none)
follow (suc fuel) parents versions complete path (some c) =
    let further = follow fuel parents versions complete (path ++ c ∷ []) (parent_of parents c) in
    if not (has c parents) || includes c complete
    then some (path, none)
    else if includes c path
    then some (path, lowest_of versions (from_first c path))
    else further

abbrev pub detach : Option JsString → Assoc (Option JsString) → Assoc (Option JsString)
detach none parents = parents
detach (some id) parents = put id none parents

abbrev pub finish :
    Option (List JsString × Option JsString)
    → List JsString
    → Assoc (Option JsString)
    → List JsString × Assoc (Option JsString)
finish none complete parents = (complete, parents)
finish (some (path, cut)) complete parents = (path ++ complete, detach cut parents)

-- The outer loop over the sorted ids.
unfoldable pub break_loop :
    Assoc CrdtId → List JsString → List JsString → Assoc (Option JsString) → Assoc (Option JsString)
break_loop versions [] complete parents = parents
break_loop versions (start ∷ starts) complete parents =
    let next =
      if includes start complete
      then (complete, parents)
      else finish (follow (walk_fuel parents) parents versions complete [] (some start)) complete
          parents in
    break_loop versions starts next.0 next.1

unfoldable pub break_parent_cycles : Visible → Visible
break_parent_cycles v = record v {
  parents = break_loop v.parent_versions (sort str_lt (keys v.parents)) [] v.parents;
}

-- `{ ...entry, parentId: visible.parents.get(entry.id) ?? null }`.
abbrev pub final_entry : Assoc (Option JsString) → RoomEntry → RoomEntry
final_entry parents e = record e { parent_id = parent_of parents e.id }

unfoldable pub materialize : Registers → Visible
materialize r =
    break_parent_cycles
      (detach_invalid_parents (remove_deleted_descendants (create_visible_entries r) r.deleted))

unfoldable pub get_entries : Registers → List RoomEntry
get_entries r =
    let v = materialize r in
    sort (λ a b. str_lt a.id b.id) (map (final_entry v.parents) (values v.entries))
