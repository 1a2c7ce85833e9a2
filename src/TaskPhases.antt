-- ===== src/TaskPhases.antt =====
-- Phases of a task's life on its timeline: src/utils/task-phases.ts, with the state of its
-- execution of src/utils/task-execution.ts. Times are milliseconds since the epoch; a timestamp
-- that is absent is none.
pub mod Laws
mod Tests
use celery_insights.Common.{
  ℕ, ◌+◌, ◌-◌, Bool, true, false, not, ◌&&◌, ◌||◌, Option, some, none, List, [], ◌∷◌, ◌++◌, String,
  if◌then◌else◌, ltb, leb, is_some,
}

pub data TaskState : Type 0 where
  pending received started success failure revoked rejected retry ignored : TaskState

pub record Task : Type 0 where
  pub state : TaskState
  pub sent_at : ℕ
  pub received_at : Option ℕ
  pub started_at : Option ℕ
  pub execution_active : Option Bool
  pub execution_observed_at : Option ℕ
  pub execution_active_at : Option ℕ
  pub succeeded_at : Option ℕ
  pub failed_at : Option ℕ
  pub retried_at : Option ℕ
  pub rejected_at : Option ℕ
  pub revoked_at : Option ℕ
  pub last_updated : ℕ

pub data TaskExecution : Type 0 where
  active not_active unknown : TaskExecution

-- `Math.abs(a - b)`.
abbrev pub distance : ℕ → ℕ → ℕ
distance a b = if leb a b then b - a else a - b

abbrev pub execution_observation_max_age_ms : ℕ
execution_observation_max_age_ms = 120000

-- `isExecutionObservationCurrent`, of a timestamp that is there.
unfoldable pub is_execution_observation_current : ℕ → ℕ → Bool
is_execution_observation_current observed_at now =
    leb (distance now observed_at) execution_observation_max_age_ms

abbrev pub told : Option Bool → TaskExecution
told (some true) = active
told (some false) = not_active
told none = unknown

unfoldable pub get_task_execution_at : Task → ℕ → Option ℕ → TaskExecution
get_task_execution_at task now none = unknown
get_task_execution_at task now (some observed_at) =
    if not (is_execution_observation_current observed_at now) || ltb observed_at task.last_updated
    then unknown
    else told task.execution_active

unfoldable pub get_task_execution : Task → ℕ → TaskExecution
get_task_execution task now = get_task_execution_at task now task.execution_observed_at

unfoldable pub is_terminal_state : TaskState → Bool
is_terminal_state pending = false
is_terminal_state received = false
is_terminal_state started = false
is_terminal_state success = true
is_terminal_state failure = true
is_terminal_state revoked = true
is_terminal_state rejected = true
is_terminal_state retry = true
is_terminal_state ignored = true

-- `a || b` and `a ?? b` of timestamps.
abbrev pub or_else : Option ℕ → Option ℕ → Option ℕ
or_else none b = b
or_else (some t) b = some t

abbrev pub or_time : Option ℕ → ℕ → ℕ
or_time none b = b
or_time (some t) b = t

unfoldable pub get_finished_at : Task → Option ℕ
get_finished_at task =
    or_else task.succeeded_at
      (or_else task.failed_at (or_else task.retried_at (or_else task.rejected_at task.revoked_at)))

unfoldable pub get_started_at : Task → Option ℕ
get_started_at task = or_else task.started_at (or_else task.revoked_at task.rejected_at)

unfoldable pub get_received_at : Task → Option ℕ
get_received_at task = or_else task.received_at task.revoked_at

abbrev pub is_started : TaskState → Bool
is_started started = true
is_started _ = false

abbrev pub is_active : TaskExecution → Bool
is_active active = true
is_active _ = false

unfoldable pub is_unconfirmed : Task → ℕ → Bool
is_unconfirmed task now = is_started task.state && not (is_active (get_task_execution task now))

abbrev pub min : ℕ → ℕ → ℕ
min a b = if leb a b then a else b

abbrev pub max : ℕ → ℕ → ℕ
max a b = if leb a b then b else a

-- The last time at which the task was known to run.
abbrev pub last_evidence : Task → ℕ
last_evidence task =
    max (or_time task.started_at 0) (max task.last_updated (or_time task.execution_active_at 0))

unfoldable pub get_task_end_time : Task → ℕ → ℕ
get_task_end_time task now =
    if is_terminal_state task.state
    then or_time (get_finished_at task) task.last_updated
    else if is_unconfirmed task now
    then min now (last_evidence task)
    else now

pub data TaskPhaseKind : Type 0 where
  queue worker running : TaskPhaseKind

pub record TaskPhase : Type 0 where
  pub kind : TaskPhaseKind
  pub label : String
  pub color : String
  pub start_ms : ℕ
  pub end_ms : ℕ
  pub duration_ms : ℕ

-- `PHASE_COLORS`.
abbrev pub color_of : TaskPhaseKind → Bool → String
color_of queue unconfirmed = "var(--color-status-neutral)"
color_of worker unconfirmed = "var(--color-status-info)"
color_of running false = "var(--color-status-success)"
color_of running true = "var(--color-status-warning)"

abbrev pub label_of : TaskPhaseKind → Bool → String
label_of queue unconfirmed = "Waiting in Queue"
label_of worker unconfirmed = "Waiting in Worker"
label_of running false = "Running"
label_of running true = "Execution unconfirmed"

-- `phases.push` of one phase.
abbrev pub phase : TaskPhaseKind → Bool → ℕ → ℕ → List TaskPhase
phase kind unconfirmed from to =
    record {
      kind = kind;
      label = label_of kind unconfirmed;
      color = color_of kind unconfirmed;
      start_ms = from;
      end_ms = to;
      duration_ms = to - from;
    }
    ∷ []

-- The last test of `computeTaskPhases`.
abbrev pub or_queue : ℕ → ℕ → List TaskPhase → List TaskPhase
or_queue sent finished [] = if ltb sent finished then phase queue false sent finished else []
or_queue sent finished (p ∷ ps) = p ∷ ps

-- `receivedMs` and `startedMs`.
abbrev pub received_ms : Task → ℕ → ℕ
received_ms task now = or_time (get_received_at task) (get_task_end_time task now)

abbrev pub started_ms : Task → ℕ → ℕ
started_ms task now = or_time (get_started_at task) (get_task_end_time task now)

unfoldable pub compute_task_phases : Task → ℕ → List TaskPhase
compute_task_phases task now =
    let sent = task.sent_at in
    let finished = get_task_end_time task now in
    let received = received_ms task now in
    let started = started_ms task now in
    or_queue sent finished (
      (if ltb sent received then phase queue false sent received else [])
      ++ ((if is_some (get_received_at task) && ltb received started
            then phase worker false received started
            else [])
          ++ (if is_some (get_started_at task) && ltb started finished
              then phase running (is_unconfirmed task now) started finished
              else [])))
