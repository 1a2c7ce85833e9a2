-- ===== src/Security/ReadScope/Columns.antt =====
-- Which stored columns of a task the view reads.
use celery_insights.Common.{
  ◌≡◌, refl, Bool, true, false, not, ◌||◌, ◌&&◌, Option, some, none, List, [], ◌∷◌, ◌++◌, String,
  is_some, arith, any, includes, includes-filter, ◌==◌, Eq-String, Bool-cases, inl, inr,
}
use celery_insights.Security.Permissions.{
  Permission, task_input_read, task_result_read, task_failure_read, Eq-Permission, Principal,
  grants,
}
use celery_insights.Security.ReadScope.{
  ReadScope, restricted, principal_scope, payload_actions, TaskRow, denies, task_view, View, whole,
  columns, Column, stored, constant, task_fields,
}
use celery_insights.Security.ReadScope.Laws.{own_limits, denies-intersect, is_some-principal_scope}
use text.Mathlib.TextEquality.{eq_iff}

reads_column : String → Column → Bool
reads_column name (stored n) = n == name
reads_column name (constant n) = false

unfoldable pub reads : String → List Column → Bool
unfolding reads_column
reads name cs = any (reads_column name) cs

unfoldable pub view_reads : String → Option View → Bool
view_reads name none = false
view_reads name (some whole) = true
view_reads name (some (columns cs)) = reads name cs

-- The columns that hold what a payload permission protects.
unfoldable pub payload_columns : Permission → List String
payload_columns task_input_read = "args" ∷ "kwargs" ∷ []
payload_columns task_result_read = "result" ∷ "result_truncated" ∷ []
payload_columns task_failure_read = "exception" ∷ "traceback" ∷ []
payload_columns _ = []

reads-append :
    (name : String) (xs ys : List Column) → reads name (xs ++ ys) ≡ (reads name xs || reads name ys)
unfolding reads any
reads-append name [] ys = refl
reads-append name (x ∷ xs) ys = ground (arith, reads-append name xs ys)

module _ (scope : ReadScope) where
  task_fields-args : reads "args" (task_fields scope) ≡ not (denies scope task_input_read)
  unfolding task_fields reads any
  task_fields-args = ground arith

  task_fields-kwargs : reads "kwargs" (task_fields scope) ≡ not (denies scope task_input_read)
  unfolding task_fields reads any
  task_fields-kwargs = ground arith

  task_fields-result : reads "result" (task_fields scope) ≡ not (denies scope task_result_read)
  unfolding task_fields reads any
  task_fields-result = ground arith

  task_fields-result_truncated :
      reads "result_truncated" (task_fields scope) ≡ not (denies scope task_result_read)
  unfolding task_fields reads any
  task_fields-result_truncated = ground arith

  task_fields-exception :
      reads "exception" (task_fields scope) ≡ not (denies scope task_failure_read)
  unfolding task_fields reads any
  task_fields-exception = ground arith

  task_fields-traceback :
      reads "traceback" (task_fields scope) ≡ not (denies scope task_failure_read)
  unfolding task_fields reads any
  task_fields-traceback = ground arith

  task_fields-payload :
      (action : Permission) (name : String)
      → includes (payload_columns action) name ≡ true
      → reads name (task_fields scope) ≡ not (denies scope action)
  unfolding includes payload_columns
  task_fields-payload task_input_read name h = elim (Bool-cases ("args" == name)) [
    | inl same ↦ rw (← (eq_iff "args" name).0 same) task_fields-args
    | inr other ↦ rw (← (eq_iff "kwargs" name).0 (ground arith)) task_fields-kwargs
  ]
  task_fields-payload task_result_read name h = elim (Bool-cases ("result" == name)) [
    | inl same ↦ rw (← (eq_iff "result" name).0 same) task_fields-result
    | inr other ↦
        rw (← (eq_iff "result_truncated" name).0 (ground arith)) task_fields-result_truncated
  ]
  task_fields-payload task_failure_read name h = elim (Bool-cases ("exception" == name)) [
    | inl same ↦ rw (← (eq_iff "exception" name).0 same) task_fields-exception
    | inr other ↦ rw (← (eq_iff "traceback" name).0 (ground arith)) task_fields-traceback
  ]
  task_fields-payload _ name h = cc

  not-restricted-denies :
      (action : Permission) → restricted scope ≡ false → denies scope action ≡ false
  unfolding restricted includes
  not-restricted-denies action h = ground arith

  -- A payload column of a row is read exactly where the row is shown and its action not denied.
  pub task_view-payload :
      (row : TaskRow) (action : Permission) (name : String)
      → includes (payload_columns action) name ≡ true
      → view_reads name (task_view scope row)
        ≡ (is_some (task_view scope row) && not (denies scope action))
  unfolding task_view view_reads
  task_view-payload row action name h =
      ground (arith, task_fields-payload action name h, not-restricted-denies action)

includes-payload_actions :
    (action : Permission) (name : String)
    → includes (payload_columns action) name ≡ true
    → includes payload_actions action ≡ true
unfolding includes payload_columns
includes-payload_actions task_input_read name h = refl
includes-payload_actions task_result_read name h = refl
includes-payload_actions task_failure_read name h = refl
includes-payload_actions _ name h = cc

denies-principal_scope :
    (p : Principal) (scope : ReadScope) (action : Permission)
    → includes payload_actions action ≡ true
    → denies (principal_scope p scope) action
      ≡ (denies scope action || not (includes (grants p) action))
unfolding principal_scope
denies-principal_scope p scope action h = ground (
  arith,
  denies-intersect scope (own_limits p) action,
  includes-filter (λ a. not (includes (grants p) a)) payload_actions action,
)

-- The view of a principal reads a payload column of a task (its input, result or failure) exactly
-- where the scope shows the row, the scope does not deny the action, and a role grants it.
pub task_view-principal_scope :
    (p : Principal) (scope : ReadScope) (row : TaskRow) (action : Permission) (name : String)
    → includes (payload_columns action) name ≡ true
    → view_reads name (task_view (principal_scope p scope) row)
      ≡ (is_some (task_view scope row) && (not (denies scope action) && includes (grants p) action))
task_view-principal_scope p scope row action name h = ground (
  arith,
  task_view-payload (principal_scope p scope) row action name h,
  denies-principal_scope p scope action (includes-payload_actions action name h),
  is_some-principal_scope p scope row,
)
