-- ===== src/FlowGraph/Total.antt =====
-- The fuel of `getFlowGraph` is enough: every task is visited at most once.
use celery_insights.Common.{
  ℕ, zero, suc, ◌+◌, ◌≤◌, ◌≡◌, refl, ◌∙◌, Bool, true, false, not, Option, some, none, List, [], ◌∷◌,
  ◌++◌, String, if◌then◌else◌, is_some, includes, length, all, all-append, length-filter-le,
  Eq-String, arith,
}
use celery_insights.FlowGraph.Unseen.{unseen, has_id, unseen-le, includes-longer, unseen-lt}
use celery_insights.FlowGraph.Members.{task_of-has_id, adopt-has_id, children_of-has_id}
use celery_insights.FlowGraph.{
  Task, Row, Node, Visits, children_of, task_of, adopt, replace, add_row, leaf, go_on, add_edge,
  visit_children, entered, sorted_children, place, visit_task, unvisited, visits_of, graph_of,
  flow_graph,
}

-- What a visit keeps: it ends, and forgets no visited task.
abbrev Ends : {A : Type 0} → Visits → Option (A × Visits) → Type 0
Ends v none = ⊥
Ends v (some (a, w)) = (id : String) → includes v.visited id ≡ true → includes w.visited id ≡ true

Ends-none : {A : Type 0} (v : Visits) (r : Option (A × Visits)) → r ≡ none → Ends v r → ⊥
Ends-none v none h k = k
Ends-none v (some (a, w)) h k = cc

Ends-add_row :
    (v w : Visits) (row : Row) (r : Option (List Row × Visits))
    → ((id : String) → includes v.visited id ≡ true → includes w.visited id ≡ true)
    → Ends w r
    → Ends v (add_row row r)
Ends-add_row v w row none h k = k
Ends-add_row v w row (some (rows, u)) h k = λ id i. k id (h id i)

Ends-go_on :
    (v : Visits) (others : Visits → Option (List Row × Visits)) (r : Option (Row × Visits))
    → ((w : Visits)
        → ((id : String) → includes v.visited id ≡ true → includes w.visited id ≡ true)
        → Ends w (others w))
    → Ends v r
    → Ends v (go_on others r)
Ends-go_on v others none h k = k
Ends-go_on v others (some (row, w)) h k = Ends-add_row v w row (others w) k (h w k)

Ends-if :
    {A : Type 0} (v : Visits) (test : Bool) (r q : Option (A × Visits))
    → Ends v r
    → (test ≡ false → Ends v q)
    → Ends v (if test then r else q)
Ends-if v true r q h k = h
Ends-if v false r q h k = k refl

Ends-place :
    (v w : Visits) (task : Task) (column : ℕ) (before : List Node) (r : Option (List Row × Visits))
    → ((id : String) → includes v.visited id ≡ true → includes w.visited id ≡ true)
    → Ends w r
    → Ends v (place task column before r)
Ends-place v w task column before none h k = k
Ends-place v w task column before (some (rows, u)) h k = λ id i. k id (h id i)

module _ (tasks : List Task) (bound : ℕ) (visit : Task → Visits → Option (Row × Visits)) where
  -- The visit of a task that was not visited ends, if no more tasks are left than the bound.
  abbrev IsVisit : Type 0
  IsVisit =
      (child : Task) (v : Visits)
      → has_id tasks child.id ≡ true
      → includes v.visited child.id ≡ false
      → unseen tasks v.visited ≤ bound
      → Ends v (visit child v)

  visit_children-Ends :
      IsVisit
      → (task : Task) (column : ℕ) (children : List Task) (v : Visits)
      → all (λ child. has_id tasks child.id) children ≡ true
      → unseen tasks v.visited ≤ bound
      → Ends v (visit_children visit task column children v)
  unfolding visit_children all replace
  visit_children-Ends h task column [] v k l = λ id i. i
  visit_children-Ends h task column (child ∷ children) v k l =
      let others = visit_children-Ends h task column children in
      Ends-if v (includes v.visited child.id)
        (add_row (leaf v.next_leaf_row)
          (visit_children visit task column children (replace task child column v)))
        (go_on (visit_children visit task column children) (visit child (add_edge task child v)))
        (Ends-add_row v v (leaf v.next_leaf_row)
          (visit_children visit task column children (replace task child column v)) (λ id i. i)
          (others (replace task child column v) (ground (arith, k)) l))
        λ fresh.
          Ends-go_on v (visit_children visit task column children)
            (visit child (add_edge task child v))
            (λ w grown.
              others w (ground (arith, k))
                (omega (arith, l, unseen-le tasks v.visited w.visited grown)))
            (h child (add_edge task child v) (ground (arith, k)) fresh l)

-- What the code relies on of the sort: it only reorders.
module _ (sort : List Task → List Task)
    (reorders : (p : Task → Bool) (xs : List Task) → all p xs ≡ true → all p (sort xs) ≡ true)
    (tasks : List Task) where
  sorted_children-has_id :
      (task : Task) (v : Visits)
      → all (λ child. has_id tasks child.id) (sorted_children sort tasks task v) ≡ true
  sorted_children-has_id task v =
      let found : Task → Bool = λ child. has_id tasks child.id in
      reorders found (children_of tasks task.id ++ (adopt tasks v.claimed task.children).0) (
        all-append found (children_of tasks task.id) (adopt tasks v.claimed task.children).0
        ∙ ground
            (arith, adopt-has_id tasks v.claimed task.children, children_of-has_id tasks task.id))

  visit_task-Ends :
      (fuel column : ℕ) (task : Task) (v : Visits)
      → has_id tasks task.id ≡ true
      → includes v.visited task.id ≡ false
      → unseen tasks v.visited ≤ fuel
      → Ends v (visit_task sort tasks fuel column task v)
  unfolding visit_task
  visit_task-Ends zero column task v known fresh bound =
      absurd (omega (arith, bound, unseen-lt tasks v.visited task.id known fresh))
  visit_task-Ends (suc fuel) column task v known fresh bound =
      let w = entered sort tasks task v in
      let found =
        visit_children (visit_task sort tasks fuel (column + 1)) task (column + 1)
          (sorted_children sort tasks task v) w in
      Ends-place v w task column v.nodes found (includes-longer v.visited task.id) (
        visit_children-Ends tasks fuel (visit_task sort tasks fuel (column + 1))
          (visit_task-Ends fuel (column + 1)) task (column + 1) (sorted_children sort tasks task v)
          w (sorted_children-has_id task v)
          (omega (arith, bound, unseen-lt tasks v.visited task.id known fresh)))

  visit_task-is_some :
      (v : Visits) (r : Option (Row × Visits)) → Ends v r → is_some (visits_of sort tasks r) ≡ true
  visit_task-is_some v none h = absurd h
  visit_task-is_some v (some (row, w)) h = refl

  graph_of-is_some :
      (found : Option Task) (column : ℕ) (root : String)
      → ((task : Task) → found ≡ some task → has_id tasks task.id ≡ true)
      → is_some (graph_of sort tasks found column root) ≡ true
  unfolding includes
  graph_of-is_some none column root h = refl
  graph_of-is_some (some task) column root h =
      visit_task-is_some (unvisited sort tasks root)
        (visit_task sort tasks (length tasks) column task (unvisited sort tasks root))
        (visit_task-Ends (length tasks) column task (unvisited sort tasks root) (h task refl) refl
          (length-filter-le (λ other. not (includes [] other.id)) tasks))

  -- The graph of a workflow is always made, if sorting only reorders: whatever the tasks say of
  -- their parents and children (cycles, unknown or repeated ids), the recursion ends with fuel for as
  -- many nested visits as there are tasks.
  pub flow_graph-is_some :
      (root : String) (column : ℕ) → is_some (flow_graph sort tasks root column) ≡ true
  unfolding flow_graph
  flow_graph-is_some root column =
      graph_of-is_some (task_of tasks root) column root (task_of-has_id tasks root)
