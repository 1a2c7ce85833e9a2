-- ===== src/Supervisor/Single.antt =====
-- At most one Python process is left running.
use celery_insights.Common.{
  ℕ, ◌-◌, ◌≡◌, refl, Bool, true, false, not, ◌||◌, Option, some, none, List, [], ◌∷◌, is_some, all,
  includes, nat_eq, ◌==◌, Eq-ℕ, Eq-Option, arith, ==_refl, nat_eq_iff,
}
use celery_insights.Supervisor.Accounts.{
  may_follow, admissible, is_accounted, IsSupervised, accounted_signal, accounted_gone,
}
use celery_insights.Supervisor.Restarts.{
  spawn-IsSupervised, branch-IsSupervised, no_python, restart-IsSupervised, exit-IsSupervised,
}
use celery_insights.Supervisor.{
  State, Event, becomes_leader, loses_leadership, fires, shuts_down, continues, exits, started,
  become_leader, lose_leadership, signal, restart, fire, shut_down, end_wait, continue_shutdown,
  step, run,
}

become_leader-IsSupervised :
    (s : State)
    → may_follow becomes_leader s ≡ true
    → IsSupervised s
    → IsSupervised (become_leader s)
unfolding become_leader
become_leader-IsSupervised s h k =
    spawn-IsSupervised (record s { leader = true; attempts = 0 })
      (no_python s.python (ground (arith, h, k.wanted))) (ground arith) (ground (arith, h))
      (record {
        accounted = k.accounted;
        wanted = ground arith;
        stopped = k.stopped;
        waiting = k.waiting;
        delays = k.delays;
      })

shut_down-IsSupervised : (s : State) → IsSupervised s → IsSupervised (shut_down s)
unfolding shut_down
shut_down-IsSupervised s k =
    branch-IsSupervised s.shutting_down s
      (record s {
        shutting_down = true;
        signalled = signal s.python s.signalled;
        stopping = s.python;
      })
      (λ again. k)
      λ first. record {
        accounted = accounted_signal s.signalled s.running s.python s.python k.accounted;
        wanted = k.wanted;
        stopped = ground (arith, ==_refl s.python);
        waiting = ground arith;
        delays = k.delays;
      }

ended_accounted :
    (process : ℕ) (s : State)
    → includes s.running process ≡ false
    → (python : Option ℕ) → (not (is_some python) || python == some process) ≡ true
    → all (is_accounted s.signalled python) s.running ≡ true
    → all (is_accounted s.signalled none) s.running ≡ true
ended_accounted process s gone none h k = k
ended_accounted process s gone (some p) h k =
    accounted_gone s.signalled s.running process gone (rw ((nat_eq_iff p process).0 h) at k)

-- A wait that has ended.
ended-IsSupervised :
    (process : ℕ) (s : State)
    → includes s.running process ≡ false
    → s.stopping ≡ some process
    → IsSupervised s
    → IsSupervised (record s { python = none; stopping = none })
ended-IsSupervised process s gone waits k = record {
  accounted =
      ended_accounted process s gone s.python (ground (arith, waits, k.waiting, k.stopped))
        k.accounted;
  wanted = refl;
  stopped = ground arith;
  waiting = refl;
  delays = k.delays;
}

end_wait-IsSupervised :
    (waits : Option ℕ) (s : State)
    → s.stopping ≡ waits
    → IsSupervised s
    → IsSupervised (end_wait waits s)
end_wait-IsSupervised none s h k = k
end_wait-IsSupervised (some process) s h k =
    branch-IsSupervised (includes s.running process) s (record s { python = none; stopping = none })
      (λ alive. k) (λ gone. ended-IsSupervised process s gone h k)

continue-IsSupervised : (s : State) → IsSupervised s → IsSupervised (continue_shutdown s)
unfolding continue_shutdown
continue-IsSupervised s k = end_wait-IsSupervised s.stopping s refl k

step-IsSupervised :
    (event : Event) (s : State)
    → may_follow event s ≡ true
    → IsSupervised s
    → IsSupervised (step event s)
unfolding step lose_leadership fire
step-IsSupervised becomes_leader s h k = become_leader-IsSupervised s h k
step-IsSupervised loses_leadership s h k = record {
  accounted = accounted_signal s.signalled s.running s.python none k.accounted;
  wanted = ground arith;
  stopped = ground arith;
  waiting = k.waiting;
  delays = k.delays;
}
step-IsSupervised fires s h k =
    let left : State = record s { timers = s.timers - 1 } in
    branch-IsSupervised (nat_eq s.timers 0) s (restart left) (λ none_left. k)
      λ some_left. restart-IsSupervised left (record {
        accounted = k.accounted;
        wanted = k.wanted;
        stopped = k.stopped;
        waiting = k.waiting;
        delays = k.delays;
      })
step-IsSupervised shuts_down s h k = shut_down-IsSupervised s k
step-IsSupervised continues s h k = continue-IsSupervised s k
step-IsSupervised (exits process) s h k = exit-IsSupervised process s k

started-IsSupervised : (replay : Bool) → IsSupervised (started replay)
unfolding all includes
started-IsSupervised true = record {
  accounted = refl;
  wanted = refl;
  stopped = refl;
  waiting = refl;
  delays = refl;
}
started-IsSupervised false = record {
  accounted = refl;
  wanted = refl;
  stopped = refl;
  waiting = refl;
  delays = refl;
}

run_from-IsSupervised :
    (events : List Event) (s : State)
    → admissible events s ≡ true
    → IsSupervised s
    → IsSupervised (run events s)
unfolding run admissible
run_from-IsSupervised [] s h k = k
run_from-IsSupervised (event ∷ events) s h k =
    run_from-IsSupervised events (step event s) (ground (arith, h))
      (step-IsSupervised event s (ground (arith, h)) k)

-- However exits, restarts, the election and a shutdown fall in between, every running Python
-- process is the current one or was told to stop; there is a current one only in a replay or while
-- the instance leads; and every restart waits between 1 and 30 seconds. This holds as long as an
-- instance is not made the leader that leads already or that is shutting down.
pub run-IsSupervised :
    (events : List Event) (replay : Bool)
    → admissible events (started replay) ≡ true
    → IsSupervised (run events (started replay))
run-IsSupervised events replay h =
    run_from-IsSupervised events (started replay) h (started-IsSupervised replay)
