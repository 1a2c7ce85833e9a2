-- ===== src/Supervisor/Shutdown.antt =====
-- A server that is shutting down.
use celery_insights.Common.{◌≡◌, refl, ◌∙◌, true, List, [], ◌∷◌, Eq-ℕ, Eq-Option, arith}
use celery_insights.Supervisor.Accounts.{may_follow, admissible}
use celery_insights.Supervisor.{
  State, Event, becomes_leader, loses_leadership, fires, shuts_down, continues, exits,
  become_leader, lose_leadership, on_exit, exit, restart, fire, shut_down, continue_shutdown, step,
  run,
}

spawned-step :
    (event : Event) (s : State)
    → s.shutting_down ≡ true
    → may_follow event s ≡ true
    → ((step event s).spawned ≡ s.spawned) × ((step event s).shutting_down ≡ true)
unfolding step become_leader lose_leadership fire restart shut_down continue_shutdown exit on_exit
spawned-step becomes_leader s h k = absurd (ground (arith, h, k))
spawned-step loses_leadership s h k = (refl, h)
spawned-step fires s h k = ground (arith, h)
spawned-step shuts_down s h k = ground (arith, h)
spawned-step continues s h k = ground (arith, h)
spawned-step (exits process) s h k = ground (arith, h)

-- Once it is shutting down, and if it is not made the leader any more, the server starts no Python
-- process, whatever exits and timers are still to come.
pub run-spawned :
    (events : List Event) (s : State)
    → s.shutting_down ≡ true
    → admissible events s ≡ true
    → (run events s).spawned ≡ s.spawned
unfolding run admissible
run-spawned [] s h k = refl
run-spawned (event ∷ events) s h k =
    let (same, down) = spawned-step event s h (ground (arith, k)) in
    run-spawned events (step event s) down (ground (arith, k)) ∙ same
