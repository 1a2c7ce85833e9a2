-- ===== src/Backfill.antt =====
-- The workflows of stored tasks: `planWorkflowBackfill` of runtime/surreal-schema.ts. Ids are their
-- characters; a time is of any type, and `localeCompare` of two times is a parameter.
pub mod Groups
pub mod Counts
mod Tests
use celery_insights.Common.{
  ℕ, zero, suc, ◌+◌, Bool, true, false, not, ◌&&◌, ◌||◌, Option, some, none, List, [], ◌∷◌, ◌++◌,
  String, map, filter, if◌then◌else◌, includes, length, drop, ltb, is_some, ◌==◌, Eq, Eq-String,
  Eq-List, Eq-ℕ, flat_map,
}
use celery_insights.Common.Text.{codes, index_of}
use mathlib.Core.List.{reverse}

abbrev pub Text : Type 0
Text = List ℕ

pub record Task (D : Type 0) : Type 0 where
  pub id : Text
  pub type : Option String
  pub state : Option String
  pub root_id : Option Text
  pub workflow_id : Option Text
  pub worker : Option String
  pub exception : Option String
  pub sent_at : Option D
  pub last_updated : Option D

-- `WorkflowSummarySeed`.
pub record Summary (D : Type 0) : Type 0 where
  pub root_task_type : Option String
  pub task_count : ℕ
  pub completed_count : ℕ
  pub failure_count : ℕ
  pub retry_count : ℕ
  pub active_count : ℕ
  pub worker_ids : List String
  pub first_seen_at : Option D
  pub last_updated : Option D
  pub latest_exception_preview : Option String

abbrev pub active_states : List String
active_states = "PENDING" ∷ "RECEIVED" ∷ "STARTED" ∷ []

abbrev pub marks : List ℕ
marks = b'<' ∷ 10216 ∷ b'\'' ∷ b'"' ∷ []

abbrev pub end_marks : List ℕ
end_marks = b'>' ∷ 10217 ∷ b'\'' ∷ b'"' ∷ []

abbrev pub drop_marks : List ℕ → Text → Text
drop_marks these [] = []
drop_marks these (c ∷ s) = if includes these c then drop_marks these s else c ∷ s

abbrev pub after_colon : Text → Option ℕ → Text
after_colon s none = s
after_colon s (some i) = drop (suc i) s

-- `recordIdToPlainId`.
unfoldable pub plain_id : Text → Text
plain_id id =
    let raw = drop_marks marks (after_colon id (index_of b':' id)) in
    reverse (drop_marks end_marks (reverse raw))

-- `value || otherwise`, of a text that may be missing or empty.
abbrev pub or_else : Option Text → Text → Text
or_else none otherwise = otherwise
or_else (some []) otherwise = otherwise
or_else (some (c ∷ s)) otherwise = c ∷ s

abbrev pub or_kept : Option String → Option String → Option String
or_kept none kept = kept
or_kept (some s) kept = if s == "" then kept else some s

abbrev pub first_of : {D : Type 0} → Option D → Option D → Option D
first_of none other = other
first_of (some d) other = some d

-- `task.state` is this one.
abbrev pub is_state : String → Option String → Bool
is_state name none = false
is_state name (some state) = state == name

abbrev pub is_active : Option String → Bool
is_active none = false
is_active (some state) = includes active_states state

abbrev pub is_completed : Option String → Bool
is_completed none = false
is_completed (some state) =
    not (state == "") && (not (includes active_states state) && not (state == "RETRY"))

abbrev pub count_if : Bool → ℕ → ℕ
count_if test n = if test then suc n else n

abbrev pub add_worker : Option String → List String → List String
add_worker none workers = workers
add_worker (some worker) workers =
    if worker == "" || includes workers worker then workers else workers ++ worker ∷ []

abbrev pub new_summary : {D : Type 0} → Summary D
new_summary = record {
  root_task_type = none;
  task_count = 0;
  completed_count = 0;
  failure_count = 0;
  retry_count = 0;
  active_count = 0;
  worker_ids = [];
  first_seen_at = none;
  last_updated = none;
  latest_exception_preview = none;
}

abbrev pub workflow_of : {D : Type 0} → Task D → Text
workflow_of task = or_else task.root_id (or_else task.workflow_id (plain_id task.id))

abbrev pub Summaries : Type 0 → Type 0
Summaries D = List (Text × Summary D)

-- `aggregateState`.
unfoldable pub aggregate_state : {D : Type 0} → Summary D → String
aggregate_state s =
    if ltb 0 s.failure_count
    then "FAILURE"
    else if ltb 0 s.retry_count
    then "RETRY"
    else if ltb 0 s.active_count
    then "STARTED"
    else if ltb 0 s.task_count
    then "SUCCESS"
    else "PENDING"

-- `workflowIdsByTask`: the last task of an id decides its workflow.
unfoldable pub set_workflow : Text → Text → List (Text × Text) → List (Text × Text)
set_workflow id workflow [] = (id, workflow) ∷ []
set_workflow id workflow ((other, w) ∷ rest) =
    let more = set_workflow id workflow rest in
    if other == id then (other, workflow) ∷ rest else (other, w) ∷ more

unfoldable pub ids_from : {D : Type 0} → List (Text × Text) → List (Task D) → List (Text × Text)
ids_from m [] = m
ids_from m (task ∷ tasks) = ids_from (set_workflow (plain_id task.id) (workflow_of task) m) tasks

-- `value ?? otherwise`.
abbrev pub or_time : {D : Type 0} → Option D → D → D
or_time none otherwise = otherwise
or_time (some d) otherwise = d

-- The statements: a task's workflow, a workflow with its summary, an edge.
pub data Step (D : Type 0) : Type 0 where
  assign : (id : Text) → (workflow : Text) → Step D
  save :
      (workflow : Text)
      → Summary D
      → (aggregate : String) → (first_seen_at last_updated : D) → (worker_count : ℕ) → Step D
  relate : (workflow : Text) → (id : Text) → Step D

module _ {D : Type 0} (same earlier : D → D → Bool) where
  -- `compareMaybeIsoAsc(left, right) < 0`.
  abbrev pub is_before : Option D → Option D → Bool
  is_before none right = false
  is_before (some left) none = true
  is_before (some left) (some right) = not (same left right) && earlier left right

  -- The first time that is seen, and whether a task is the latest one.
  abbrev pub is_first : Task D → Summary D → Bool
  is_first task summary = is_before (first_of task.sent_at task.last_updated) summary.first_seen_at

  abbrev pub is_after : Option D → Option D → Bool
  is_after none right = false
  is_after (some left) none = true
  is_after (some left) (some right) = not (same left right) && earlier right left

  -- One task is added to its workflow's summary.
  unfoldable pub tally : Task D → Summary D → Summary D
  tally task s = record {
    root_task_type =
        if plain_id task.id == workflow_of task
        then or_kept task.type s.root_task_type
        else s.root_task_type;
    task_count = suc s.task_count;
    completed_count = count_if (is_completed task.state) s.completed_count;
    failure_count = count_if (is_state "FAILURE" task.state) s.failure_count;
    retry_count = count_if (is_state "RETRY" task.state) s.retry_count;
    active_count = count_if (is_active task.state) s.active_count;
    worker_ids = add_worker task.worker s.worker_ids;
    first_seen_at =
        if is_first task s then first_of task.sent_at task.last_updated else s.first_seen_at;
    last_updated =
        if is_after task.last_updated s.last_updated then task.last_updated else s.last_updated;
    latest_exception_preview =
        if is_after task.last_updated s.last_updated
        then or_kept task.exception s.latest_exception_preview
        else s.latest_exception_preview;
  }

  -- `summaries.get(id) ?? …`, the task added, and `summaries.set`: a new id comes last.
  unfoldable pub add_task : Task D → Summaries D → Summaries D
  add_task task [] = (workflow_of task, tally task new_summary) ∷ []
  add_task task ((id, s) ∷ rest) =
      let more = add_task task rest in
      if id == workflow_of task then (id, tally task s) ∷ rest else (id, s) ∷ more

  unfoldable pub summaries_from : Summaries D → List (Task D) → Summaries D
  summaries_from m [] = m
  summaries_from m (task ∷ tasks) = summaries_from (add_task task m) tasks

  -- The loop over the tasks.
  abbrev pub summaries : List (Task D) → Summaries D
  summaries tasks = summaries_from [] tasks

  -- `epoch` is the time that a workflow without times has.
  abbrev pub steps_of : D → List (Text × Text) → Text × Summary D → List (Step D)
  steps_of epoch ids (workflow, s) =
      save workflow s (aggregate_state s) (or_time s.first_seen_at (or_time s.last_updated epoch))
        (or_time s.last_updated (or_time s.first_seen_at epoch)) (length s.worker_ids)
      ∷ map (λ (entry : Text × Text). relate workflow entry.0)
          (filter (λ (entry : Text × Text). entry.1 == workflow) ids)

  -- `planWorkflowBackfill`.
  unfoldable pub plan_workflow_backfill : D → List (Task D) → List (Step D)
  plan_workflow_backfill epoch tasks =
      let ids = ids_from [] tasks in
      map (λ (entry : Text × Text). assign entry.0 entry.1) ids
      ++ flat_map (steps_of epoch ids) (summaries tasks)
