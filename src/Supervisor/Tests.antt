-- ===== src/Supervisor/Tests.antt =====
-- Runs of the supervision at concrete events.
use celery_insights.Common.{◌≡◌, Eq-ℕ, refl, false, [], ◌∷◌, none, includes, filter}
use celery_insights.Supervisor.{
  becomes_leader, loses_leadership, fires, shuts_down, continues, exits, started, run, step,
  become_leader, lose_leadership, exit, on_exit, fire, restart, shut_down, continue_shutdown,
}
use celery_insights.Supervisor.Accounts.{admissible, IsSupervised}
use celery_insights.Supervisor.Single.{run-IsSupervised}

-- Python crashes and is restarted; the lead is lost and won again; then the server shuts down.
run-IsSupervised_example : IsSupervised (
    run
      (becomes_leader
        ∷ exits 0
        ∷ fires
        ∷ loses_leadership
        ∷ becomes_leader
        ∷ exits 1
        ∷ shuts_down
        ∷ exits 2
        ∷ continues
        ∷ [])
      (started false))
unfolding admissible step become_leader lose_leadership exit on_exit fire restart shut_down
    continue_shutdown includes filter
run-IsSupervised_example =
    run-IsSupervised
      (becomes_leader
        ∷ exits 0
        ∷ fires
        ∷ loses_leadership
        ∷ becomes_leader
        ∷ exits 1
        ∷ shuts_down
        ∷ exits 2
        ∷ continues
        ∷ [])
      false refl

-- An instance made the leader while it waits for its former Python process: at the end of the wait
-- the new one runs on, is not the current one, and was not told to stop.
left_running :
    ((run
        (becomes_leader ∷ shuts_down ∷ loses_leadership ∷ becomes_leader ∷ exits 0 ∷ continues ∷ [])
        (started false)).python
      ≡ none)
    × ((run
          (becomes_leader
            ∷ shuts_down
            ∷ loses_leadership
            ∷ becomes_leader
            ∷ exits 0
            ∷ continues
            ∷ [])
          (started false)).running
        ≡ 1 ∷ [])
    × (includes
          (run
            (becomes_leader
              ∷ shuts_down
              ∷ loses_leadership
              ∷ becomes_leader
              ∷ exits 0
              ∷ continues
              ∷ [])
            (started false)).signalled
          1
        ≡ false)
unfolding run step become_leader lose_leadership exit on_exit shut_down continue_shutdown includes
    filter
left_running = (refl, refl, refl)
