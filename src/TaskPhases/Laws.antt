-- ===== src/TaskPhases/Laws.antt =====
-- Laws of the phases of a task and of its end time.
use celery_insights.Common.{
  ℕ, ◌+◌, ◌≤◌, ◌<◌, ◌≡◌, Bool, true, false, not, ◌&&◌, List, [], ◌∷◌, All, arith, is_some,
}
use celery_insights.TaskPhases.{
  Task, TaskPhase, is_terminal_state, is_unconfirmed, last_evidence, get_task_end_time,
  compute_task_phases, received_ms, started_ms, get_received_at, get_started_at,
}

-- The phase ends after it starts, and its duration is the time between.
abbrev pub IsSpan : TaskPhase → Type 0
IsSpan p = (p.start_ms < p.end_ms) × (p.start_ms + p.duration_ms ≡ p.end_ms)

-- The phases follow one another without gap or overlap from one time to another.
abbrev pub Tiles : ℕ → List TaskPhase → ℕ → Type 0
Tiles from [] to = from ≡ to
Tiles from (p ∷ ps) to = (p.start_ms ≡ from) × (IsSpan p × Tiles p.end_ms ps to)

-- Whatever the timestamps, also in disorder, each phase ends after it starts and its duration is
-- the time between.
pub compute_task_phases-IsSpan : (task : Task) (now : ℕ) → All IsSpan (compute_task_phases task now)
unfolding compute_task_phases
compute_task_phases-IsSpan task now = ground arith

-- When no started task lacks its time of receipt, and the times are in order (sent, received,
-- started, end, each missing one replaced by the end), the phases cover the time from the sending
-- to the end exactly once, without gap or overlap.
pub compute_task_phases-Tiles :
    (task : Task) (now : ℕ)
    → (is_some (get_started_at task) && not (is_some (get_received_at task))) ≡ false
    → task.sent_at ≤ received_ms task now
    → received_ms task now ≤ started_ms task now
    → started_ms task now ≤ get_task_end_time task now
    → Tiles task.sent_at (compute_task_phases task now) (get_task_end_time task now)
unfolding compute_task_phases
compute_task_phases-Tiles task now both sent received started = ground arith

-- A started task without a confirmed execution ends at the last evidence that it ran: at every
-- time from then on the end is the same, and the task's bar no longer grows.
pub get_task_end_time-frozen :
    (task : Task) (now later : ℕ)
    → is_unconfirmed task now ≡ true
    → is_unconfirmed task later ≡ true
    → last_evidence task ≤ now
    → now ≤ later
    → get_task_end_time task later ≡ get_task_end_time task now
unfolding get_task_end_time is_unconfirmed is_terminal_state
get_task_end_time-frozen task now later h h' evidence le = ground arith

abbrev pub is_empty : List TaskPhase → Bool
is_empty [] = true
is_empty (p ∷ ps) = false

-- A task that ends after it was sent has a phase to show, whatever its other timestamps.
pub compute_task_phases-is_empty :
    (task : Task) (now : ℕ)
    → task.sent_at < get_task_end_time task now
    → is_empty (compute_task_phases task now) ≡ false
unfolding compute_task_phases
compute_task_phases-is_empty task now h = ground arith
