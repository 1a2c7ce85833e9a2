-- ===== src/Backfill/Counts.antt =====
-- What the summary of a workflow counts.
use celery_insights.Common.{
  ℕ, ◌+◌, ◌≡◌, refl, ◌∙◌, Bool, Option, some, none, List, [], ◌∷◌, String, filter, length, any, ltb,
  if◌then◌else◌, lookup, arith, inl, inr, ◌⊎◌, Eq-List, Eq-ℕ,
}
use celery_insights.Backfill.{
  Text, Task, Summary, new_summary, tally, count_if, is_state, is_active, is_completed, summaries,
  aggregate_state,
}
use celery_insights.Backfill.Groups.{group_from, tasks_of, lookup-summaries_from}

module _ {D : Type 0} where
  abbrev pub in_state : String → Task D → Bool
  in_state name task = is_state name task.state

  abbrev pub active : Task D → Bool
  active task = is_active task.state

  abbrev pub completed : Task D → Bool
  completed task = is_completed task.state

  -- How many tasks pass a test.
  abbrev pub count : (Task D → Bool) → List (Task D) → ℕ
  count p tasks = length (filter p tasks)

  -- The counts of a summary are those of a former one and of some tasks.
  pub record IsCounted (from s : Summary D) (tasks : List (Task D)) : Type 0 where
    pub all_tasks : s.task_count ≡ from.task_count + length tasks
    pub failures : s.failure_count ≡ from.failure_count + count (in_state "FAILURE") tasks
    pub retries : s.retry_count ≡ from.retry_count + count (in_state "RETRY") tasks
    pub active_ones : s.active_count ≡ from.active_count + count active tasks
    pub completed_ones : s.completed_count ≡ from.completed_count + count completed tasks

  -- The state of a workflow, from its tasks.
  abbrev pub state_of : List (Task D) → String
  state_of tasks =
      if any (in_state "FAILURE") tasks
      then "FAILURE"
      else if any (in_state "RETRY") tasks
      then "RETRY"
      else if any active tasks
      then "STARTED"
      else "SUCCESS"

  count-any : (p : Task D → Bool) (tasks : List (Task D)) → ltb 0 (count p tasks) ≡ any p tasks
  unfolding any filter
  count-any p [] = refl
  count-any p (task ∷ tasks) = ground (arith, count-any p tasks)

  count_if-count :
      (p : Task D → Bool) (task : Task D) (tasks : List (Task D)) (n : ℕ)
      → count_if (p task) n + count p tasks ≡ n + count p (task ∷ tasks)
  unfolding filter
  count_if-count p task tasks n = ground arith

  module _ (same earlier : D → D → Bool) where
    IsCounted-tally :
        (from s : Summary D) (task : Task D) (tasks : List (Task D))
        → IsCounted (tally same earlier task from) s tasks
        → IsCounted from s (task ∷ tasks)
    unfolding tally
    IsCounted-tally from s task tasks h = record {
      all_tasks = omega (arith, h.all_tasks);
      failures = h.failures ∙ count_if-count (in_state "FAILURE") task tasks from.failure_count;
      retries = h.retries ∙ count_if-count (in_state "RETRY") task tasks from.retry_count;
      active_ones = h.active_ones ∙ count_if-count active task tasks from.active_count;
      completed_ones = h.completed_ones ∙ count_if-count completed task tasks from.completed_count;
    }

    group_from-IsCounted :
        (from : Summary D) (tasks : List (Task D))
        → (s : Summary D) × (group_from same earlier (some from) tasks ≡ some s)
          × IsCounted from s tasks
    unfolding group_from filter
    group_from-IsCounted from [] = (
      from,
      refl,
      record {
        all_tasks = omega arith;
        failures = omega arith;
        retries = omega arith;
        active_ones = omega arith;
        completed_ones = omega arith;
      },
    )
    group_from-IsCounted from (task ∷ tasks) =
        let (s, eq, h) = group_from-IsCounted (tally same earlier task from) tasks in
        (s, eq, IsCounted-tally from s task tasks h)

    -- A summary of some tasks has the state that the tasks give.
    aggregate_state-state_of :
        (s : Summary D) (task : Task D) (tasks : List (Task D))
        → IsCounted new_summary s (task ∷ tasks)
        → aggregate_state s ≡ state_of (task ∷ tasks)
    unfolding aggregate_state
    aggregate_state-state_of s task tasks h =
        let f = count-any (in_state "FAILURE") (task ∷ tasks) in
        let r = count-any (in_state "RETRY") (task ∷ tasks) in
        let a = count-any active (task ∷ tasks) in
        ground (arith, h.all_tasks, h.failures, h.retries, h.active_ones, f, r, a)

    IsCounted-own :
        (own : List (Task D)) (found : Option (Summary D))
        → found ≡ group_from same earlier none own
        → ((own ≡ []) × (found ≡ none))
          ⊎ ((s : Summary D) × (found ≡ some s)
              × IsCounted new_summary s own
              × (aggregate_state s ≡ state_of own))
    unfolding group_from
    IsCounted-own [] found h = inl (refl, h)
    IsCounted-own (task ∷ own) found h =
        let (s, eq, counted) = group_from-IsCounted (tally same earlier task new_summary) own in
        let whole = IsCounted-tally new_summary s task own counted in
        inr (s, h ∙ eq, whole, aggregate_state-state_of s task own whole)

    -- A workflow without tasks has no summary. The summary of one with tasks counts exactly the
    -- tasks of that workflow, in all and by state, and its state is that of a failed one if there
    -- is one, else of one that is retried, else of an active one, else success.
    pub summaries-IsCounted :
        (workflow : Text) (tasks : List (Task D))
        → ((tasks_of same earlier workflow tasks ≡ [])
            × (lookup workflow (summaries same earlier tasks) ≡ none))
          ⊎ ((s : Summary D) × (lookup workflow (summaries same earlier tasks) ≡ some s)
              × IsCounted new_summary s (tasks_of same earlier workflow tasks)
              × (aggregate_state s ≡ state_of (tasks_of same earlier workflow tasks)))
    unfolding lookup
    summaries-IsCounted workflow tasks =
        IsCounted-own (tasks_of same earlier workflow tasks)
          (lookup workflow (summaries same earlier tasks))
          (lookup-summaries_from same earlier workflow [] tasks)
