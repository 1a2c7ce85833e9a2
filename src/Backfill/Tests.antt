-- ===== src/Backfill/Tests.antt =====
-- Two tasks of one workflow, the second of which failed, and a task of its own.
use celery_insights.Common.{
  ℕ, ◌≡◌, refl, ◌⊎◌, Option, some, none, List, [], ◌∷◌, String, lookup, filter, includes, list_eq,
  Eq-List, Eq-ℕ, length, drop, ltb, nat_eq,
}
use celery_insights.Common.Text.{codes, index_of}
use celery_insights.Backfill.{
  Task, Summary, new_summary, summaries, plain_id, aggregate_state, ids_from, set_workflow,
}
use celery_insights.Backfill.Groups.{tasks_of}
use celery_insights.Backfill.Counts.{IsCounted, state_of, summaries-IsCounted}

abbrev task : String → String → Option String → Task ℕ
task id root state = record {
  id = codes id;
  type = none;
  state = state;
  root_id = some (codes root);
  workflow_id = none;
  worker = none;
  exception = none;
  sent_at = none;
  last_updated = some 7;
}

abbrev tasks : List (Task ℕ)
tasks =
    task "task:⟨a⟩" "a" (some "SUCCESS")
    ∷ task "task:b" "a" (some "FAILURE")
    ∷ task "task:c" "" none
    ∷ []

summaries-IsCounted_example :
    ((tasks_of nat_eq ltb (codes "a") tasks ≡ [])
      × (lookup (codes "a") (summaries nat_eq ltb tasks) ≡ none))
    ⊎ ((s : Summary ℕ) × (lookup (codes "a") (summaries nat_eq ltb tasks) ≡ some s)
        × IsCounted new_summary s (tasks_of nat_eq ltb (codes "a") tasks)
        × (aggregate_state s ≡ state_of (tasks_of nat_eq ltb (codes "a") tasks)))
summaries-IsCounted_example = summaries-IsCounted nat_eq ltb (codes "a") tasks

own_workflow : length (tasks_of nat_eq ltb (codes "c") tasks) ≡ 1
unfolding filter list_eq plain_id index_of drop includes
own_workflow = refl

three_assigned : length (ids_from [] tasks) ≡ 3
unfolding ids_from set_workflow list_eq plain_id index_of drop includes
three_assigned = refl
