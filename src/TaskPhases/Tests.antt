-- ===== src/TaskPhases/Tests.antt =====
-- Tasks at concrete times.
use celery_insights.Common.{refl, some, none, arith}
use celery_insights.TaskPhases.{
  Task, started, success, compute_task_phases, get_task_end_time, get_finished_at, get_received_at,
  get_started_at, is_terminal_state,
}
use celery_insights.TaskPhases.Laws.{Tiles, compute_task_phases-Tiles}

-- A task that ran from 1300 to 2500.
abbrev finished : Task
finished = record {
  state = success;
  sent_at = 1000;
  received_at = some 1200;
  started_at = some 1300;
  execution_active = none;
  execution_observed_at = none;
  execution_active_at = none;
  succeeded_at = some 2500;
  failed_at = none;
  retried_at = none;
  rejected_at = none;
  revoked_at = none;
  last_updated = 2500;
}

-- A task that started and was never observed.
abbrev silent : Task
silent = record finished { state = started; succeeded_at = none; last_updated = 1300 }

compute_task_phases-Tiles_example :
    Tiles 1000 (compute_task_phases finished 9000) (get_task_end_time finished 9000)
unfolding get_started_at get_received_at get_task_end_time get_finished_at is_terminal_state
compute_task_phases-Tiles_example =
    compute_task_phases-Tiles finished 9000 refl (omega arith) (omega arith) (omega arith)
