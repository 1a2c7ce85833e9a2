-- ===== src/Security/ReadScope/Laws.antt =====
-- Intersecting scopes intersects what they show.
use celery_insights.Common.{
  ◌≡◌, refl, ◌∙◌, Bool, true, false, not, ◌||◌, ◌&&◌, Option, some, none, List, [], ◌∷◌, ◌++◌,
  String, is_some, arith, all, filter, includes, includes-filter, includes-append,
  includes-distinct, distinct, Eq-String,
}
use celery_insights.Security.Permissions.{Permission, Eq-Permission, Principal, grants}
use celery_insights.Security.ReadScope.{
  ReadScope, empty_scope, is_nonempty, row_scoped, task_scoped, restricted, intersect_selector,
  intersect_scopes, principal_scope, payload_actions, TaskRow, holds, condition, is_in, evaluate,
  TaskExpression, task_conditions, denies, task_view, worker_visible, workflow_visible,
}

all-append :
    {A : Type 0} (p : A → Bool) (xs ys : List A) → all p (xs ++ ys) ≡ (all p xs && all p ys)
unfolding all
all-append p [] ys = refl
all-append p (x ∷ xs) ys = ground (arith, all-append p xs ys)

-- A selector as a test: an absent one lets every row through.
unfoldable pub selects : Option (List String) → Option String → Bool
selects none value = true
selects (some values) value = is_in value values

selects-intersect :
    (a b : Option (List String)) (value : Option String)
    → selects (intersect_selector a b) value ≡ (selects a value && selects b value)
unfolding selects intersect_selector
selects-intersect none b value = refl
selects-intersect (some left) none value = ground arith
selects-intersect (some left) (some right) none = refl
selects-intersect (some left) (some right) (some v) = includes-filter (includes right) left v

all-condition :
    (e : TaskExpression) (s : Option (List String)) (row : TaskRow)
    → all (holds row) (condition e s) ≡ selects s (evaluate e row)
unfolding all holds selects
all-condition e none row = refl
all-condition e (some values) row = ground arith

-- The row filter of a scope, as the conjunction of its three selectors.
abbrev pub shows : ReadScope → TaskRow → Bool
shows scope row =
    selects scope.task_ids (some row.id)
    && selects scope.task_types row.type
    && selects scope.task_workers row.worker

pub all-task_conditions :
    (scope : ReadScope) (row : TaskRow) → all (holds row) (task_conditions scope) ≡ shows scope row
unfolding task_conditions
all-task_conditions scope row = simp (all-append, all-condition) (ground arith)

pub shows-intersect :
    (a b : ReadScope) (row : TaskRow)
    → shows (intersect_scopes a b) row ≡ (shows a row && shows b row)
unfolding intersect_scopes
shows-intersect a b row = ground (
  arith,
  selects-intersect a.task_ids b.task_ids (some row.id),
  selects-intersect a.task_types b.task_types row.type,
  selects-intersect a.task_workers b.task_workers row.worker,
)

is_nonempty-distinct : (xs : List Permission) → is_nonempty (distinct xs) ≡ is_nonempty xs
unfolding distinct
is_nonempty-distinct [] = refl
is_nonempty-distinct (x ∷ xs) = refl

is_nonempty-append :
    (xs ys : List Permission) → is_nonempty (xs ++ ys) ≡ (is_nonempty xs || is_nonempty ys)
is_nonempty-append [] ys = refl
is_nonempty-append (x ∷ xs) ys = refl

is_some-intersect :
    (a b : Option (List String)) → is_some (intersect_selector a b) ≡ (is_some a || is_some b)
unfolding intersect_selector
is_some-intersect none b = refl
is_some-intersect (some left) none = refl
is_some-intersect (some left) (some right) = refl

pub task_scoped-intersect :
    (a b : ReadScope) → task_scoped (intersect_scopes a b) ≡ (task_scoped a || task_scoped b)
unfolding task_scoped intersect_scopes
task_scoped-intersect a b = ground (
  arith,
  is_some-intersect a.task_ids b.task_ids,
  is_some-intersect a.task_types b.task_types,
  is_some-intersect a.task_workers b.task_workers,
)

pub row_scoped-intersect :
    (a b : ReadScope) → row_scoped (intersect_scopes a b) ≡ (row_scoped a || row_scoped b)
unfolding row_scoped intersect_scopes
row_scoped-intersect a b = ground (
  arith,
  is_some-intersect a.task_ids b.task_ids,
  is_some-intersect a.task_types b.task_types,
  is_some-intersect a.task_workers b.task_workers,
  is_some-intersect a.worker_hostnames b.worker_hostnames,
)

is_nonempty-intersect :
    (a b : ReadScope)
    → is_nonempty (intersect_scopes a b).deny_fields
      ≡ (is_nonempty a.deny_fields || is_nonempty b.deny_fields)
unfolding intersect_scopes
is_nonempty-intersect a b =
    is_nonempty-distinct (a.deny_fields ++ b.deny_fields)
    ∙ is_nonempty-append a.deny_fields b.deny_fields

pub restricted-intersect :
    (a b : ReadScope) → restricted (intersect_scopes a b) ≡ (restricted a || restricted b)
unfolding restricted
restricted-intersect a b = ground (arith, row_scoped-intersect a b, is_nonempty-intersect a b)

pub denies-intersect :
    (a b : ReadScope) (action : Permission)
    → denies (intersect_scopes a b) action ≡ (denies a action || denies b action)
unfolding intersect_scopes
denies-intersect a b action = ground (
  arith,
  includes-distinct (a.deny_fields ++ b.deny_fields) action,
  includes-append a.deny_fields b.deny_fields action,
)

not-restricted-shows :
    (scope : ReadScope) (row : TaskRow) → restricted scope ≡ false → shows scope row ≡ true
unfolding restricted row_scoped selects
not-restricted-shows scope row h = ground arith

-- The row filter of the view is the conjunction of the selectors, whether or not the scope is
-- restricted.
pub is_some-task_view :
    (scope : ReadScope) (row : TaskRow) → is_some (task_view scope row) ≡ shows scope row
unfolding task_view
is_some-task_view scope row =
    ground (arith, all-task_conditions scope row, not-restricted-shows scope row)

worker_visible-selects :
    (scope : ReadScope) (hostname : String)
    → worker_visible scope hostname ≡ selects scope.worker_hostnames (some hostname)
unfolding worker_visible selects
worker_visible-selects scope hostname = ground arith

worker_visible-intersect :
    (a b : ReadScope) (hostname : String)
    → worker_visible (intersect_scopes a b) hostname
      ≡ (worker_visible a hostname && worker_visible b hostname)
unfolding intersect_scopes
worker_visible-intersect a b hostname = ground (
  arith,
  worker_visible-selects (intersect_scopes a b) hostname,
  worker_visible-selects a hostname,
  worker_visible-selects b hostname,
  selects-intersect a.worker_hostnames b.worker_hostnames (some hostname),
)

-- Only a task selector hides workflow summaries.
workflow_visible-task_scoped :
    (scope : ReadScope) → workflow_visible scope ≡ not (task_scoped scope)
unfolding workflow_visible restricted row_scoped task_scoped
workflow_visible-task_scoped scope = ground arith

workflow_visible-intersect :
    (a b : ReadScope)
    → workflow_visible (intersect_scopes a b) ≡ (workflow_visible a && workflow_visible b)
workflow_visible-intersect a b = ground (
  arith,
  workflow_visible-task_scoped (intersect_scopes a b),
  workflow_visible-task_scoped a,
  workflow_visible-task_scoped b,
  task_scoped-intersect a b,
)

-- The second operand of `principalScope`.
abbrev pub own_limits : Principal → ReadScope
own_limits p = record empty_scope {
  deny_fields = filter (λ action. not (includes (grants p) action)) payload_actions;
}

shows-own_limits : (p : Principal) (row : TaskRow) → shows (own_limits p) row ≡ true
unfolding selects
shows-own_limits p row = refl

-- The view under two scopes at once keeps exactly the task rows that both keep, and the worker
-- rows that both keep; workflow summaries are kept only where both keep them.
pub intersect_scopes-meet :
    (a b : ReadScope) (row : TaskRow) (hostname : String)
    → (is_some (task_view (intersect_scopes a b) row)
        ≡ (is_some (task_view a row) && is_some (task_view b row)))
      × (worker_visible (intersect_scopes a b) hostname
          ≡ (worker_visible a hostname && worker_visible b hostname))
      × (workflow_visible (intersect_scopes a b) ≡ (workflow_visible a && workflow_visible b))
intersect_scopes-meet a b row hostname = (
  ground (
    arith,
    is_some-task_view (intersect_scopes a b) row,
    is_some-task_view a row,
    is_some-task_view b row,
    shows-intersect a b row,
  ),
  worker_visible-intersect a b hostname,
  workflow_visible-intersect a b,
)

-- The principal's own limits hide columns, and no rows.
pub is_some-principal_scope :
    (p : Principal) (scope : ReadScope) (row : TaskRow)
    → is_some (task_view (principal_scope p scope) row) ≡ is_some (task_view scope row)
unfolding principal_scope
is_some-principal_scope p scope row = ground (
  arith,
  (intersect_scopes-meet scope (own_limits p) row "").0,
  is_some-task_view (own_limits p) row,
  shows-own_limits p row,
)
