-- ===== src/FlowGraph.antt =====
-- The graph of a workflow: `getFlowGraph` of src/components/workflow/flow-chart.tsx, up to the
-- offset and the scale of the positions. Sorting by `localeCompare` is a parameter. A row is the
-- number of a leaf or the middle of two rows.
mod Tests
pub mod Members
pub mod Total
pub mod Unseen
use celery_insights.Common.{
  ℕ, zero, suc, ◌+◌, Bool, true, false, not, ◌||◌, ◌&&◌, Option, some, none, List, [], ◌∷◌, ◌++◌,
  String, if◌then◌else◌, is_some, filter, find, includes, length, ◌==◌, Eq-String,
}
use celery_insights.Common.Text.{◌<>◌}
use mathlib.Core.List.{reverse}

pub record Task : Type 0 where
  pub id : String
  pub parent_id : Option String
  pub children : List String

pub data Row : Type 0 where
  leaf : ℕ → Row
  middle : (first last : Row) → Row

pub record Node : Type 0 where
  pub id : String
  pub column : ℕ
  pub row : Row
  pub task : Task

pub record Edge : Type 0 where
  pub source : String
  pub target : String

-- What the visits share, with the nodes and edges so far. A task's node stands before those of its
-- children.
pub record Visits : Type 0 where
  pub nodes : List Node
  pub edges : List Edge
  pub visited : List String
  pub claimed : List String
  pub next_leaf_row : ℕ

-- `task.parent_id` as a condition.
abbrev pub parent_of : Task → Option String
parent_of task = elim task.parent_id [ none ↦ none | some id ↦ if id == "" then none else some id ]

abbrev pub is_child : String → Task → Bool
is_child id task = elim (parent_of task) [ none ↦ false | some parent ↦ parent == id ]

-- `childMap.get(id) || []`.
unfoldable pub children_of : List Task → String → List Task
children_of tasks id = filter (is_child id) tasks

-- `taskMap.get(id)`: the last task of the id.
unfoldable pub task_of : List Task → String → Option Task
task_of tasks id = find (λ task. task.id == id) (reverse tasks)

-- The test of the loop over the stored children.
abbrev pub may_adopt : List String → Task → Bool
may_adopt claimed child = not (is_some (parent_of child)) && not (includes claimed child.id)

abbrev pub found_child : List String → Option Task → Option Task
found_child claimed none = none
found_child claimed (some child) = if may_adopt claimed child then some child else none

-- The loop over the stored children: the adopted ones, and what is claimed after it.
unfoldable pub adopt : List Task → List String → List String → List Task × List String
adopt tasks claimed [] = ([], claimed)
adopt tasks claimed (id ∷ ids) = elim (found_child claimed (task_of tasks id)) [
  | none ↦ adopt tasks claimed ids
  | some child ↦ let rest = adopt tasks (claimed ++ id ∷ []) ids in (child ∷ rest.0, rest.1)
]

-- The node and the edge of a child that stands elsewhere in the graph.
unfoldable pub replace : Task → Task → ℕ → Visits → Visits
replace task child column v = record v {
  nodes =
      v.nodes
      ++ record {
        id = child.id <> "-replaced";
        column = column;
        row = leaf v.next_leaf_row;
        task = child;
      }
        ∷ [];
  edges = v.edges ++ record { source = task.id; target = child.id <> "-replaced" } ∷ [];
  next_leaf_row = v.next_leaf_row + 1;
}

abbrev pub last_row : Row → List Row → Row
last_row row [] = row
last_row row (next ∷ rows) = last_row next rows

-- The row of a task, from its children's rows.
abbrev pub own_row : List Row → ℕ → Row
own_row [] next = leaf next
own_row (row ∷ rows) next = middle row (last_row row rows)

abbrev pub next_row : List Row → ℕ → ℕ
next_row [] next = next + 1
next_row (row ∷ rows) next = next

abbrev pub add_row : Row → Option (List Row × Visits) → Option (List Row × Visits)
add_row row none = none
add_row row (some (rows, v)) = some (row ∷ rows, v)

-- The children after one that was visited.
abbrev pub go_on :
    (Visits → Option (List Row × Visits)) → Option (Row × Visits) → Option (List Row × Visits)
go_on others none = none
go_on others (some (row, v)) = add_row row (others v)

abbrev pub add_edge : Task → Task → Visits → Visits
add_edge task child v = record v {
  edges = v.edges ++ record { source = task.id; target = child.id } ∷ [];
}

-- The callback of `map` over the children, from left to right; `visit` visits one.
unfoldable pub visit_children :
    (Task → Visits → Option (Row × Visits))
    → Task
    → ℕ
    → List Task
    → Visits
    → Option (List Row × Visits)
visit_children visit task column [] v = some ([], v)
visit_children visit task column (child ∷ children) v =
    let skipped =
      add_row (leaf v.next_leaf_row)
        (visit_children visit task column children (replace task child column v)) in
    if includes v.visited child.id
    then skipped
    else go_on (visit_children visit task column children) (visit child (add_edge task child v))

-- The end of `visitTask`: the task's node stands before those of its children.
abbrev pub place : Task → ℕ → List Node → Option (List Row × Visits) → Option (Row × Visits)
place task column before none = none
place task column before (some (rows, w)) =
    let row = own_row rows w.next_leaf_row in
    some (
      row,
      record w {
        nodes =
            before ++ record { id = task.id; column = column; row = row; task = task } ∷ w.nodes;
        next_leaf_row = next_row rows w.next_leaf_row;
      },
    )

module _ (sort : List Task → List Task) (tasks : List Task) where
  -- The state in which a task's children are visited, and those.
  abbrev pub entered : Task → Visits → Visits
  entered task v = record v {
    nodes = [];
    visited = v.visited ++ task.id ∷ [];
    claimed = (adopt tasks v.claimed task.children).1;
  }

  abbrev pub sorted_children : Task → Visits → List Task
  sorted_children task v =
      sort (children_of tasks task.id ++ (adopt tasks v.claimed task.children).0)

  -- `visitTask` on fuel, with none where it runs out.
  unfoldable pub visit_task : ℕ → ℕ → Task → Visits → Option (Row × Visits)
  visit_task zero column task v = none
  visit_task (suc fuel) column task v = place task column v.nodes (
      visit_children (visit_task fuel (column + 1)) task (column + 1) (sorted_children task v)
        (entered task v))

  abbrev pub unvisited : String → Visits
  unvisited root = record {
    nodes = [];
    edges = [];
    visited = [];
    claimed = root ∷ [];
    next_leaf_row = 0;
  }

  -- What the graph takes of the visits.
  abbrev pub visits_of : Option (Row × Visits) → Option Visits
  visits_of none = none
  visits_of (some (row, v)) = some v

  abbrev pub graph_of : Option Task → ℕ → String → Option Visits
  graph_of none column root = some (unvisited root)
  graph_of (some task) column root =
      visits_of (visit_task (length tasks) column task (unvisited root))

  -- `getFlowGraph`; every task is visited at most once, so their number is fuel enough.
  unfoldable pub flow_graph : String → ℕ → Option Visits
  flow_graph root column = graph_of (task_of tasks root) column root
