-- ===== src/FlowGraph/Members.antt =====
-- The tasks that a visit goes on to are tasks of the workflow.
use celery_insights.Common.{
  ◌≡◌, refl, ◌∙◌, true, Option, some, none, List, [], ◌∷◌, ◌++◌, String, all, all-filter, all_mono,
  all-found, all-reverse_aux, Option-cases, any, ◌==◌, ==_refl, Eq-String, arith, inl, inr,
}
use mathlib.Core.List.{reverse}
use celery_insights.FlowGraph.Unseen.{has_id}
use celery_insights.FlowGraph.{Task, children_of, task_of, adopt, found_child, is_child}

-- The tasks have their ids.
pub has_id-all : (tasks : List Task) → all (λ task. has_id tasks task.id) tasks ≡ true
unfolding all any
has_id-all [] = refl
has_id-all (task ∷ tasks) =
    let rest =
      all_mono (λ other. has_id tasks other.id) (λ other. has_id (task ∷ tasks) other.id) tasks
        (λ other h. ground (arith, h)) (has_id-all tasks) in
    ground (arith, ==_refl task.id, rest)

pub task_of-has_id :
    (tasks : List Task) (id : String) (task : Task)
    → task_of tasks id ≡ some task
    → has_id tasks task.id ≡ true
unfolding task_of all
task_of-has_id tasks id task h =
    all-found (λ other. has_id tasks other.id) (λ other. other.id == id) (reverse tasks) task
      (all-reverse_aux (λ other. has_id tasks other.id) tasks [] ∙ ground (arith, has_id-all tasks))
      h

pub found_child-task :
    (claimed : List String) (found : Option Task) (child : Task)
    → found_child claimed found ≡ some child
    → found ≡ some child
found_child-task claimed none child h = cc
found_child-task claimed (some task) child h = ground (arith, h)

pub adopt-has_id :
    (tasks : List Task) (claimed ids : List String)
    → all (λ child. has_id tasks child.id) (adopt tasks claimed ids).0 ≡ true
unfolding adopt all
adopt-has_id tasks claimed [] = refl
adopt-has_id tasks claimed (id ∷ ids) =
    elim (Option-cases (found_child claimed (task_of tasks id))) [
      | inl missing ↦ ground (arith, missing, adopt-has_id tasks claimed ids)
      | inr (child, found) ↦ ground (
        arith,
        found,
        adopt-has_id tasks (claimed ++ id ∷ []) ids,
        task_of-has_id tasks id child (found_child-task claimed (task_of tasks id) child found),
      )
    ]

pub children_of-has_id :
    (tasks : List Task) (id : String)
    → all (λ child. has_id tasks child.id) (children_of tasks id) ≡ true
unfolding children_of
children_of-has_id tasks id =
    all-filter (λ child. has_id tasks child.id) (is_child id) tasks (has_id-all tasks)
