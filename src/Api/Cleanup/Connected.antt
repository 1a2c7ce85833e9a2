-- ===== src/Api/Cleanup/Connected.antt =====
-- The references between the tables, through a cleanup.
use celery_insights.Common.{
  ℕ, ◌≡◌, refl, Bool, true, false, not, ◌&&◌, ◌||◌, Option, some, none, List, [], ◌∷◌, ◌++◌, String,
  map, filter, all, all_mono, if◌then◌else◌, includes, ◌==◌, ==_refl, Eq-String, arith, Bool-cases,
  inl, inr,
}
use celery_insights.Api.Cleanup.{
  OrderBy, Retention, Workflow, Task, Event, Edge, Store, workflow_ids, members, over_count,
  over_age, is_empty, remove_workflows, remove_workers, cleanup,
}

abbrev pub task_ids : List Task → List String
task_ids tasks = map (λ (t : Task). t.id) tasks

-- Each task is of a stored workflow, each event of a stored task, and each edge between a stored
-- workflow and a stored task.
pub record IsConnected (s : Store) : Type 0 where
  pub of_workflows :
      all (λ (t : Task). includes (workflow_ids s.workflows) t.workflow_id) s.tasks ≡ true
  pub of_tasks : all (λ (e : Event). includes (task_ids s.tasks) e.task_id) s.events ≡ true
  pub ends :
      all
        (λ (e : Edge).
          includes (workflow_ids s.workflows) e.from && includes (task_ids s.tasks) e.out)
        s.edges
      ≡ true

-- A stored id that is not among the removed ones is still stored.
includes-kept :
    {A : Type 0} (id : A → String) (gone : List String) (xs : List A) (key : String)
    → includes (map id xs) key ≡ true
    → includes gone key ≡ false
    → includes (map id (filter (λ x. not (includes gone (id x))) xs)) key ≡ true
unfolding includes filter
includes-kept id gone [] key h k = h
includes-kept id gone (x ∷ xs) key h k = elim (Bool-cases (id x == key)) [
  | inl same ↦ ground (arith, (Eq-String.equals_iff (id x) key).0 same, same, k)
  | inr other ↦ ground (arith, other, includes-kept id gone xs key (ground (arith, h, other)) k)
]

module _ {A : Type 0} where
  all-filter_mono :
      (p q r : A → Bool) (xs : List A)
      → ((x : A) → p x ≡ true → r x ≡ true → q x ≡ true)
      → all r xs ≡ true
      → all q (filter p xs) ≡ true
  unfolding all filter
  all-filter_mono p q r [] h k = refl
  all-filter_mono p q r (x ∷ xs) h k = elim (Bool-cases (p x)) [
    | inl kept ↦
        let head = h x kept (ground (arith, k)) in
        let rest = all-filter_mono p q r xs h (ground (arith, k)) in
        ground (arith, kept, head, rest)
    | inr dropped ↦
        let rest = all-filter_mono p q r xs h (ground (arith, k)) in ground (arith, dropped, rest)
  ]

  all-both :
      (p q : A → Bool) (xs : List A)
      → all p xs ≡ true
      → all q xs ≡ true
      → all (λ x. p x && q x) xs ≡ true
  unfolding all
  all-both p q [] h k = refl
  all-both p q (x ∷ xs) h k =
      let rest = all-both p q xs (ground (arith, h)) (ground (arith, k)) in
      ground (arith, h, k, rest)

-- A task of a removed workflow is removed.
abbrev is_member : List String → List String → Task → Bool
is_member names gone t = not (includes names t.workflow_id) || includes gone t.id

abbrev members_of : List String → List Task → List String
members_of names tasks =
    map (λ (t : Task). t.id) (filter (λ (t : Task). includes names t.workflow_id) tasks)

all-is_member :
    (names : List String) (tasks : List Task)
    → all (is_member names (members_of names tasks)) tasks ≡ true
unfolding all includes filter
all-is_member names [] = refl
all-is_member names (t ∷ tasks) = elim (Bool-cases (includes names t.workflow_id)) [
  | inl removed ↦
      let rest =
        all_mono (is_member names (members_of names tasks))
          (is_member names (t.id ∷ members_of names tasks)) tasks (λ x h. ground (arith, h))
          (all-is_member names tasks) in
      ground (arith, removed, rest, ==_refl t.id)
  | inr kept ↦ ground (arith, kept, all-is_member names tasks)
]

IsConnected-remove_workflows :
    (names : List String) (s : Store) → IsConnected s → IsConnected (remove_workflows names s)
unfolding remove_workflows
IsConnected-remove_workflows names s h =
    let gone = members names s in
    let kept_task : Task → Bool = λ t. not (includes gone t.id) in
    record {
      of_workflows =
          all-filter_mono kept_task
            (λ t.
              includes
                (workflow_ids (filter (λ (w : Workflow). not (includes names w.id)) s.workflows))
                t.workflow_id)
            (λ t. includes (workflow_ids s.workflows) t.workflow_id && is_member names gone t)
            s.tasks
            (λ t kept stored.
              includes-kept (λ (w : Workflow). w.id) names s.workflows t.workflow_id
                (ground (arith, stored)) (ground (arith, kept, stored)))
            (all-both (λ t. includes (workflow_ids s.workflows) t.workflow_id)
              (is_member names gone) s.tasks h.of_workflows (all-is_member names s.tasks));
      of_tasks =
          all-filter_mono (λ (e : Event). not (includes gone e.task_id))
            (λ e. includes (task_ids (filter kept_task s.tasks)) e.task_id)
            (λ e. includes (task_ids s.tasks) e.task_id) s.events
            (λ e kept stored.
              includes-kept (λ (t : Task). t.id) gone s.tasks e.task_id stored
                (ground (arith, kept)))
            h.of_tasks;
      ends =
          all-filter_mono (λ (e : Edge). not (includes names e.from || includes gone e.out))
            (λ e.
              includes
                (workflow_ids (filter (λ (w : Workflow). not (includes names w.id)) s.workflows))
                e.from
              && includes (task_ids (filter kept_task s.tasks)) e.out)
            (λ e. includes (workflow_ids s.workflows) e.from && includes (task_ids s.tasks) e.out)
            s.edges
            (λ e kept stored.
              let from =
                includes-kept (λ (w : Workflow). w.id) names s.workflows e.from
                  (ground (arith, stored)) (ground (arith, kept)) in
              let out =
                includes-kept (λ (t : Task). t.id) gone s.tasks e.out (ground (arith, stored))
                  (ground (arith, kept)) in
              ground (arith, from, out))
            h.ends;
    }

IsConnected-remove_workers :
    (now : ℕ) (hours : Option ℕ) (s : Store)
    → IsConnected s
    → IsConnected (remove_workers now hours s)
unfolding remove_workers
IsConnected-remove_workers now none s h = h
IsConnected-remove_workers now (some hours) s h = record {
  of_workflows = h.of_workflows;
  of_tasks = h.of_tasks;
  ends = h.ends;
}

IsConnected-if :
    (b : Bool) (names : List String) (s : Store)
    → IsConnected s
    → IsConnected (if b then s else remove_workflows names s)
IsConnected-if true names s h = h
IsConnected-if false names s h = IsConnected-remove_workflows names s h

-- A cleanup leaves no dangling reference: where each task was of a stored workflow, each event of a
-- stored task and each edge between a stored workflow and a stored task, the same holds after it,
-- whatever the retention settings are.
pub cleanup-IsConnected :
    (order_by : OrderBy) (now : ℕ) (retention : Retention) (s : Store)
    → IsConnected s
    → IsConnected (cleanup order_by now retention s)
unfolding cleanup
cleanup-IsConnected order_by now retention s h =
    let remove =
      over_count order_by retention.task_max_count s
      ++ over_age now retention.task_retention_hours s in
    IsConnected-remove_workers now retention.dead_worker_retention_hours
      (if is_empty remove then s else remove_workflows remove s)
      (IsConnected-if (is_empty remove) remove s h)
