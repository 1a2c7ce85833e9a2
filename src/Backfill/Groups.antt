-- ===== src/Backfill/Groups.antt =====
-- The summary of a workflow, from the tasks of that workflow alone.
use celery_insights.Common.{
  ◌≡◌, refl, ◌∙◌, ap, sym, Bool, false, Option, some, none, List, [], ◌∷◌, filter, if◌then◌else◌,
  lookup, ◌==◌, ==_refl, Eq-List, Eq-ℕ, arith, Bool-cases, inl, inr,
}
use celery_insights.Backfill.{
  Text, Task, Summary, new_summary, workflow_of, tally, Summaries, add_task, summaries_from,
}

apart : (a b : Text) → (a == b) ≡ false → (b == a) ≡ false
apart a b h = elim (Bool-cases (b == a)) [
  | inl eq ↦
      absurd (ground (arith, h, ap (λ x. x == b) (sym ((Eq-List.equals_iff b a).0 eq)), ==_refl b))
  | inr other ↦ other
]

module _ {D : Type 0} (same earlier : D → D → Bool) where
  -- The summary so far, with a task added.
  abbrev pub added : Task D → Option (Summary D) → Option (Summary D)
  added task none = some (tally same earlier task new_summary)
  added task (some s) = some (tally same earlier task s)

  unfoldable pub group_from : Option (Summary D) → List (Task D) → Option (Summary D)
  group_from s [] = s
  group_from s (task ∷ tasks) = group_from (added task s) tasks

  -- The tasks of a workflow.
  abbrev pub tasks_of : Text → List (Task D) → List (Task D)
  tasks_of workflow tasks = filter (λ (t : Task D). workflow_of t == workflow) tasks

  lookup-add_task :
      (workflow : Text) (task : Task D) (m : Summaries D)
      → lookup workflow (add_task same earlier task m) ≡ (
          if workflow_of task == workflow
          then added task (lookup workflow m)
          else lookup workflow m)
  unfolding lookup add_task
  lookup-add_task workflow task [] = ground arith
  lookup-add_task workflow task ((id, s) ∷ rest) = elim (Bool-cases (id == workflow_of task)) [
    | inl here ↦
        let eq = (Eq-List.equals_iff id (workflow_of task)).0 here in ground (arith, here, eq)
    | inr elsewhere ↦ elim (Bool-cases (id == workflow)) [
      | inl found ↦
          let eq = (Eq-List.equals_iff id workflow).0 found in
          let differs =
            apart workflow (workflow_of task)
              (ap (λ x. x == workflow_of task) (sym eq) ∙ elsewhere) in
          ground (arith, elsewhere, found, differs)
      | inr other ↦ ground (arith, elsewhere, other, lookup-add_task workflow task rest)
    ]
  ]

  pub lookup-summaries_from :
      (workflow : Text) (m : Summaries D) (tasks : List (Task D))
      → lookup workflow (summaries_from same earlier m tasks)
        ≡ group_from (lookup workflow m) (tasks_of workflow tasks)
  unfolding summaries_from filter group_from
  lookup-summaries_from workflow m [] = refl
  lookup-summaries_from workflow m (task ∷ tasks) =
      let next = lookup-add_task workflow task m in
      let rest = lookup-summaries_from workflow (add_task same earlier task m) tasks in
      elim (Bool-cases (workflow_of task == workflow)) [
        | inl own ↦
            rest ∙ ap (λ s. group_from s (tasks_of workflow tasks)) next ∙ ground (arith, own)
        | inr other ↦
            rest ∙ ap (λ s. group_from s (tasks_of workflow tasks)) next ∙ ground (arith, other)
      ]
