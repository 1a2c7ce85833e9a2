-- ===== src/Supervisor/Restarts.antt =====
-- What exits and restarts keep.
use celery_insights.Common.{
  ℕ, ◌≡◌, refl, ◌∙◌, ap, Bool, true, false, not, ◌||◌, ◌&&◌, Option, some, none, if◌then◌else◌,
  is_some, all, filter, includes, ◌==◌, Eq-ℕ, Eq-Option, arith, ==_refl, nat_eq_iff, all-filter,
  includes-filter,
}
use celery_insights.Supervisor.Accounts.{
  is_accounted, IsSupervised, backoff-bound, accounted_none, accounted_gone,
}
use celery_insights.Supervisor.{
  State, spawn_python, is_current, is_wanted, schedule, on_exit, exit, restart,
}

pub spawn-IsSupervised :
    (s : State)
    → s.python ≡ none
    → is_wanted s ≡ true
    → s.shutting_down ≡ false
    → IsSupervised s
    → IsSupervised (spawn_python s)
unfolding all
spawn-IsSupervised s idle wanted up k = record {
  accounted =
      let rest =
        accounted_none s.signalled s.running none (some s.spawned) (rw idle at k.accounted) in
      ground (arith, rest, ==_refl s.spawned);
  wanted = ground (arith, wanted);
  stopped = ground (arith, up);
  waiting = k.waiting;
  delays = k.delays;
}

pub branch-IsSupervised :
    (test : Bool) (s t : State)
    → (test ≡ true → IsSupervised s)
    → (test ≡ false → IsSupervised t)
    → IsSupervised (if test then s else t)
branch-IsSupervised true s t h k = h refl
branch-IsSupervised false s t h k = k refl

pub no_python : (python : Option ℕ) → is_some python ≡ false → python ≡ none
no_python none h = refl
no_python (some p) h = cc

pub current_is :
    (python : Option ℕ) (process : ℕ) → is_current python process ≡ true → python ≡ some process
current_is none process h = cc
current_is (some p) process h = ap some ((nat_eq_iff p process).0 h)

pub restart-IsSupervised : (s : State) → IsSupervised s → IsSupervised (restart s)
unfolding restart
restart-IsSupervised s k =
    branch-IsSupervised (not s.shutting_down && not (is_some s.python) && is_wanted s)
      (spawn_python s) s
      (λ due.
        spawn-IsSupervised s (no_python s.python (ground (arith, due))) (ground (arith, due))
          (ground (arith, due)) k)
      (λ idle. k)

-- The current process has exited.
pub gone-IsSupervised :
    (process : ℕ) (s : State)
    → includes s.running process ≡ false
    → is_current s.python process ≡ true
    → IsSupervised s
    → IsSupervised (record s { python = none })
gone-IsSupervised process s gone current k = record {
  accounted =
      accounted_gone s.signalled s.running process gone
        (rw (current_is s.python process current) at k.accounted);
  wanted = refl;
  stopped = ground arith;
  waiting = k.waiting;
  delays = k.delays;
}

pub schedule-IsSupervised : (s : State) → IsSupervised s → IsSupervised (schedule s)
unfolding all
schedule-IsSupervised s k = record {
  accounted = k.accounted;
  wanted = k.wanted;
  stopped = k.stopped;
  waiting = k.waiting;
  delays = ground (arith, backoff-bound s.attempts, k.delays);
}

pub on_exit-IsSupervised :
    (process : ℕ) (s : State)
    → includes s.running process ≡ false
    → IsSupervised s
    → IsSupervised (on_exit process s)
unfolding on_exit
on_exit-IsSupervised process s gone k =
    let ended : State = record s { python = none } in
    branch-IsSupervised (s.shutting_down || not (is_current s.python process)) s
      (if is_wanted s then schedule ended else ended) (λ ignored. k)
      λ handled.
        let stopped = gone-IsSupervised process s gone (ground (arith, handled)) k in
        branch-IsSupervised (is_wanted s) (schedule ended) ended
          (λ wanted. schedule-IsSupervised ended stopped) (λ unwanted. stopped)

pub exit-IsSupervised : (process : ℕ) (s : State) → IsSupervised s → IsSupervised (exit process s)
unfolding exit
exit-IsSupervised process s k =
    let left = filter (λ other. not (other == process)) s.running in
    branch-IsSupervised (includes s.running process) (on_exit process (record s { running = left }))
      s
      (λ alive.
        on_exit-IsSupervised process (record s { running = left })
          (includes-filter (λ other. not (other == process)) s.running process
            ∙ ground (arith, ==_refl process))
          (record {
            accounted =
                all-filter (is_accounted s.signalled s.python) (λ other. not (other == process))
                  s.running k.accounted;
            wanted = k.wanted;
            stopped = k.stopped;
            waiting = k.waiting;
            delays = k.delays;
          }))
      (λ dead. k)
