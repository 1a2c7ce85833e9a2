-- ===== src/Migration/Tests.antt =====
-- Runs of the migration.
use celery_insights.Common.{ℕ, ◌≡◌, ◌≢◌, ◌≤◌, ◌<◌, ◌↔◌, refl, if◌then◌else◌, leb, arith, lookup}
use celery_insights.Common.Json.{Json, null, string, object, field, end, get}
use celery_insights.Migration.{
  Attempt, returned, threw, Conflicts, migrated, failed, unfinished, is_conflict, after_attempt,
  migrate, run_schema_migration, run_schema_migration_iff,
}

abbrev conflict : Json
conflict = object (field "details" (object (field "kind" (string "TransactionConflict") end)) end)

-- Two conflicts, and then the migration returns.
abbrev third : ℕ → Attempt
third k = if leb k 1 then threw conflict else returned

run_schema_migration_iff_example :
    (run_schema_migration 7 third ≢ unfinished)
    × ((run_schema_migration 7 third ≡ migrated 2)
        ↔ ((2 ≤ 4) × (third 2 ≡ returned) × ((j : ℕ) → j < 2 → Conflicts (third j))))
run_schema_migration_iff_example = run_schema_migration_iff 7 third 2 (omega arith)

second_returned : run_schema_migration 7 third ≡ migrated 2
unfolding run_schema_migration migrate after_attempt is_conflict get lookup
second_returned = refl

always : run_schema_migration 9 (λ k. threw conflict) ≡ failed 4 conflict
unfolding run_schema_migration migrate after_attempt is_conflict get lookup
always = refl

other_error : run_schema_migration 9 (λ k. threw null) ≡ failed 0 null
unfolding run_schema_migration migrate after_attempt is_conflict
other_error = refl
