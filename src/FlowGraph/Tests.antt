-- ===== src/FlowGraph/Tests.antt =====
-- The graph of two tasks that name each other as parents.
use celery_insights.Common.{
  String, ◌≡◌, refl, true, Option, some, none, List, [], ◌∷◌, is_some, filter, find, includes, map,
  Eq-String,
}
use celery_insights.FlowGraph.{
  Task, Visits, flow_graph, visit_task, visit_children, children_of, task_of, adopt, replace,
}
use celery_insights.FlowGraph.Total.{flow_graph-is_some}

abbrev parent : Task
parent = record { id = "a"; parent_id = some "b"; children = "b" ∷ [] }

abbrev child : Task
child = record { id = "b"; parent_id = some "a"; children = [] }

abbrev tasks : List Task
tasks = parent ∷ child ∷ []

abbrev node_ids : Option Visits → List String
node_ids none = []
node_ids (some v) = map (λ node. node.id) v.nodes

-- The cycle is cut where it comes back to the first task.
cycle : node_ids (flow_graph (λ xs. xs) tasks "a" 0) ≡ "a" ∷ "b" ∷ "a-replaced" ∷ []
unfolding flow_graph visit_task visit_children children_of task_of adopt replace filter find
    includes
cycle = refl

flow_graph-is_some_example : is_some (flow_graph (λ xs. xs) tasks "a" 0) ≡ true
flow_graph-is_some_example = flow_graph-is_some (λ xs. xs) (λ p xs h. h) tasks "a" 0
