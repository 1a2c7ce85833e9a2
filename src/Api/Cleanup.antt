-- ===== src/Api/Cleanup.antt =====
-- `cleanup` of runtime/observation-api.ts, and its statements on the tables. The database's
-- `ORDER BY` is a parameter, which the statement calls with its column and direction. Hours are
-- whole numbers here.
pub mod Shortest
pub mod Connected
use celery_insights.Common.{
  ℕ, zero, suc, ◌+◌, ◌-◌, ◌*◌, Bool, true, false, not, ◌&&◌, ◌||◌, Option, some, none, List, [],
  ◌∷◌, ◌++◌, String, map, filter, if◌then◌else◌, includes, length, ltb, leb, ◌==◌, Eq-String,
}

pub record Retention : Type 0 where
  pub cleanup_interval_seconds : ℕ
  pub task_max_count : Option ℕ
  pub task_retention_hours : Option ℕ
  pub dead_worker_retention_hours : Option ℕ

pub record Workflow : Type 0 where
  pub id : String
  pub task_count : Option ℕ
  pub last_updated : ℕ

pub record Task : Type 0 where
  pub id : String
  pub workflow_id : String

pub record Event : Type 0 where
  pub id : String
  pub task_id : String

-- An edge of `workflow_task`, by its ends.
pub record Edge : Type 0 where
  pub from : String
  pub out : String

pub record Worker : Type 0 where
  pub id : String
  pub status : String
  pub last_updated : ℕ

pub record Store : Type 0 where
  pub workflows : List Workflow
  pub tasks : List Task
  pub events : List Event
  pub edges : List Edge
  pub workers : List Worker

-- `workflow.task_count ?? 0`.
abbrev pub count_of : Workflow → ℕ
count_of w = elim w.task_count [ none ↦ 0 | some n ↦ n ]

-- The loop over the workflows, the oldest first.
unfoldable pub remove_excess : ℕ → List Workflow → List String
remove_excess excess [] = []
remove_excess excess (w ∷ ws) =
    let rest = remove_excess (excess - count_of w) ws in
    w.id ∷ (if leb excess (count_of w) then [] else rest)

-- `hours * 1h`, in milliseconds.
abbrev pub hour : ℕ
hour = 60 * 60 * 1000

abbrev pub is_older : ℕ → ℕ → ℕ → Bool
is_older now hours last_updated = ltb (last_updated + hours * hour) now

abbrev pub workflow_ids : List Workflow → List String
workflow_ids workflows = map (λ (w : Workflow). w.id) workflows

pub data Direction : Type 0 where
  asc desc : Direction

-- `ORDER BY` a column, in a direction.
abbrev pub OrderBy : Type 0
OrderBy = (Workflow → ℕ) → Direction → List Workflow → List Workflow

unfoldable pub over_count : OrderBy → Option ℕ → Store → List String
over_count order_by none s = []
over_count order_by (some max) s =
    if ltb max (length s.tasks)
    then remove_excess (length s.tasks - max) (order_by (λ w. w.last_updated) asc s.workflows)
    else []

unfoldable pub over_age : ℕ → Option ℕ → Store → List String
over_age now none s = []
over_age now (some hours) s =
    workflow_ids (filter (λ (w : Workflow). is_older now hours w.last_updated) s.workflows)

-- The ids of the tasks of some workflows.
abbrev pub members : List String → Store → List String
members names s =
    map (λ (t : Task). t.id) (filter (λ (t : Task). includes names t.workflow_id) s.tasks)

-- The transaction.
unfoldable pub remove_workflows : List String → Store → Store
remove_workflows names s =
    let gone = members names s in
    record {
      workflows = filter (λ (w : Workflow). not (includes names w.id)) s.workflows;
      tasks = filter (λ (t : Task). not (includes gone t.id)) s.tasks;
      events = filter (λ (e : Event). not (includes gone e.task_id)) s.events;
      edges = filter (λ (e : Edge). not (includes names e.from || includes gone e.out)) s.edges;
      workers = s.workers;
    }

unfoldable pub remove_workers : ℕ → Option ℕ → Store → Store
remove_workers now none s = s
remove_workers now (some hours) s = record {
  workflows = s.workflows;
  tasks = s.tasks;
  events = s.events;
  edges = s.edges;
  workers =
      filter (λ (w : Worker). not (w.status == "offline" && is_older now hours w.last_updated))
        s.workers;
}

abbrev pub is_empty : List String → Bool
is_empty [] = true
is_empty (x ∷ xs) = false

-- `cleanup`, with the settings as refreshed. The set of records is a list.
unfoldable pub cleanup : OrderBy → ℕ → Retention → Store → Store
cleanup order_by now retention s =
    let remove =
      over_count order_by retention.task_max_count s
      ++ over_age now retention.task_retention_hours s in
    remove_workers now retention.dead_worker_retention_hours
      (if is_empty remove then s else remove_workflows remove s)
