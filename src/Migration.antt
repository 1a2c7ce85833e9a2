-- ===== src/Migration.antt =====
-- The retries of the schema migration: `runSchemaMigration` of runtime/surreal-schema.ts. What an
-- attempt comes to, `runSchemaMigrationOnce`, is a parameter, and the waits between attempts are
-- left out. An error is the value that is thrown, with its properties.
mod Tests
use celery_insights.Common.{
  ℕ, zero, suc, ◌+◌, ◌≤◌, ◌<◌, ◌≡◌, ◌≢◌, ◌↔◌, refl, ◌∙◌, ap, Bool, true, false, not, ◌||◌, Option,
  some, none, String, if◌then◌else◌, leb, arith, Bool-cases, inl, inr, ◌⊎◌, sym, ◌==◌, Eq-String,
}
use celery_insights.Common.Json.{Json, Fields, null, boolean, number, string, array, object, get}

-- An attempt returns, or throws.
pub data Attempt : Type 0 where
  returned : Attempt
  threw : Json → Attempt

-- The migration returned or threw an error, at an attempt; or the fuel of the model ran out.
pub data Outcome : Type 0 where
  migrated : (attempt : ℕ) → Outcome
  failed : (attempt : ℕ) → Json → Outcome
  unfinished : Outcome

abbrev pub is_conflict_kind : Option Json → Bool
is_conflict_kind (some (string kind)) = kind == "TransactionConflict"
is_conflict_kind kind = false

abbrev pub has_conflict_kind : Option Json → Bool
has_conflict_kind (some (object details)) = is_conflict_kind (get "kind" details)
has_conflict_kind details = false

-- The tests on `error` and its `details`, for an error that is retried.
unfoldable pub is_conflict : Json → Bool
is_conflict (object error) = has_conflict_kind (get "details" error)
is_conflict error = false

-- What follows an attempt: the end, or the next one.
unfoldable pub after_attempt : Attempt → ℕ → Outcome → Outcome
after_attempt returned attempt next = migrated attempt
after_attempt (threw error) attempt next =
    if leb 4 attempt || not (is_conflict error) then failed attempt error else next

-- The loop from an attempt on, on fuel.
unfoldable pub migrate : (ℕ → Attempt) → ℕ → ℕ → Outcome
migrate run zero attempt = unfinished
migrate run (suc fuel) attempt =
    after_attempt (run attempt) attempt (migrate run fuel (suc attempt))

-- `runSchemaMigration`, for as many rounds as the fuel allows.
unfoldable pub run_schema_migration : (fuel : ℕ) → (ℕ → Attempt) → Outcome
run_schema_migration fuel run = migrate run fuel 0

-- An attempt threw an object whose details are of the kind of a conflict of transactions.
abbrev pub Conflicts : Attempt → Type 0
Conflicts a =
    (error details : Fields) × (a ≡ threw (object error))
    × (get "details" error ≡ some (object details))
    × (get "kind" details ≡ some (string "TransactionConflict"))

is_conflict-kind :
    (kind : Option Json) → is_conflict_kind kind ≡ true → kind ≡ some (string "TransactionConflict")
is_conflict-kind (some (string s)) h =
    ap (λ s. some (string s)) ((Eq-String.equals_iff s "TransactionConflict").0 h)
is_conflict-kind none h = cc
is_conflict-kind (some null) h = cc
is_conflict-kind (some (boolean b)) h = cc
is_conflict-kind (some (number n)) h = cc
is_conflict-kind (some (array items)) h = cc
is_conflict-kind (some (object fields)) h = cc

has_conflict_kind-some :
    (value : Option Json)
    → has_conflict_kind value ≡ true
    → (details : Fields) × (value ≡ some (object details))
      × (get "kind" details ≡ some (string "TransactionConflict"))
has_conflict_kind-some (some (object details)) h =
    (details, refl, is_conflict-kind (get "kind" details) h)
has_conflict_kind-some none h = cc
has_conflict_kind-some (some null) h = cc
has_conflict_kind-some (some (boolean b)) h = cc
has_conflict_kind-some (some (number n)) h = cc
has_conflict_kind-some (some (string s)) h = cc
has_conflict_kind-some (some (array items)) h = cc

is_conflict-Conflicts : (error : Json) → is_conflict error ≡ true → Conflicts (threw error)
unfolding is_conflict
is_conflict-Conflicts (object error) h =
    let (details, has_details, has_kind) = has_conflict_kind-some (get "details" error) h in
    (error, details, refl, has_details, has_kind)
is_conflict-Conflicts null h = cc
is_conflict-Conflicts (boolean b) h = cc
is_conflict-Conflicts (number n) h = cc
is_conflict-Conflicts (string s) h = cc
is_conflict-Conflicts (array items) h = cc

-- After a conflict the next attempt follows, before the fifth.
after_attempt-Conflicts :
    (a : Attempt) (attempt : ℕ) (next : Outcome)
    → Conflicts a
    → attempt < 4
    → after_attempt a attempt next ≡ next
unfolding after_attempt is_conflict
after_attempt-Conflicts a attempt next (error, details, threw_it, has_details, has_kind) h =
    ap (λ a. after_attempt a attempt next) threw_it
    ∙ conflict_next (
        ap has_conflict_kind has_details
        ∙ ap is_conflict_kind has_kind
        ∙ (Eq-String.equals_iff "TransactionConflict" "TransactionConflict").1 refl)
  where
    conflict_next :
        has_conflict_kind (get "details" error) ≡ true
        → after_attempt (threw (object error)) attempt next ≡ next
    conflict_next k = ground (arith, h, k)

le-cases : (m n : ℕ) → m ≤ n → (m ≡ n) ⊎ (m < n)
le-cases m n h = ground arith

migrate-migrated :
    (run : ℕ → Attempt) (fuel attempt k : ℕ)
    → attempt ≤ k
    → k ≤ 4
    → k < attempt + fuel
    → run k ≡ returned
    → ((j : ℕ) → attempt ≤ j → j < k → Conflicts (run j))
    → migrate run fuel attempt ≡ migrated k
unfolding migrate after_attempt
migrate-migrated run zero attempt k le top lt d c = absurd (omega arith)
migrate-migrated run (suc fuel) attempt k le top lt d c = elim (le-cases attempt k le) [
  | inl here ↦
      ap (λ a. after_attempt a attempt (migrate run fuel (suc attempt))) (ap run here ∙ d)
      ∙ ap migrated here
  | inr later ↦
      after_attempt-Conflicts (run attempt) attempt (migrate run fuel (suc attempt))
        (c attempt (omega arith) later) (omega arith)
      ∙ migrate-migrated run fuel (suc attempt) k (omega arith) top (omega arith) d
          (λ j from below. c j (omega arith) below)
]

-- What holds of a migration that returned.
abbrev Succeeds : (ℕ → Attempt) → ℕ → ℕ → Type 0
Succeeds run attempt k =
    (attempt ≤ k)
    × (k ≤ 4)
    × (run k ≡ returned)
    × ((j : ℕ) → attempt ≤ j → j < k → Conflicts (run j))

migrated-Succeeds :
    (run : ℕ → Attempt) (fuel attempt k : ℕ)
    → attempt ≤ 4
    → migrate run fuel attempt ≡ migrated k
    → Succeeds run attempt k
unfolding migrate after_attempt
migrated-Succeeds run zero attempt k top h = cc
migrated-Succeeds run (suc fuel) attempt k top h =
    by_attempt (run attempt) refl h (migrated-Succeeds run fuel (suc attempt) k)
  where
    by_attempt :
        (a : Attempt)
        → run attempt ≡ a
        → after_attempt a attempt (migrate run fuel (suc attempt)) ≡ migrated k
        → (suc attempt ≤ 4
            → migrate run fuel (suc attempt) ≡ migrated k
            → Succeeds run (suc attempt) k)
        → Succeeds run attempt k
    by_attempt returned same h next =
        let here : attempt ≡ k = ground (arith, h) in
        (
          omega (arith, here),
          omega (arith, here),
          ap run (sym here) ∙ same,
          λ j from below. absurd (omega (arith, here)),
        )
    by_attempt (threw error) same h next =
        elim (Bool-cases (leb 4 attempt || not (is_conflict error))) [
          | inl last ↦ absurd (ground (arith, last, h))
          | inr more ↦
              let (le, under, ends, before) =
                next (ground (arith, more)) (ground (arith, more, h)) in
              let (e, details, threw_it, has_details, has_kind) =
                is_conflict-Conflicts error (ground (arith, more)) in
              (
                omega (arith, le),
                under,
                ends,
                λ j from below. elim (le-cases attempt j from) [
                  | inl here ↦
                      (e, details, ap run (sym here) ∙ same ∙ threw_it, has_details, has_kind)
                  | inr later ↦ before j later below
                ],
              )
        ]

-- The fifth attempt is the last one.
migrate-ends :
    (run : ℕ → Attempt) (fuel attempt : ℕ)
    → attempt ≤ 4
    → 5 ≤ fuel + attempt
    → migrate run fuel attempt ≢ unfinished
unfolding migrate after_attempt
migrate-ends run zero attempt top le h = absurd (omega arith)
migrate-ends run (suc fuel) attempt top le h =
    by_attempt (run attempt) h (migrate-ends run fuel (suc attempt))
  where
    by_attempt :
        (a : Attempt)
        → after_attempt a attempt (migrate run fuel (suc attempt)) ≡ unfinished
        → (suc attempt ≤ 4 → 5 ≤ fuel + suc attempt → migrate run fuel (suc attempt) ≢ unfinished)
        → ⊥
    by_attempt returned h next = cc
    by_attempt (threw error) h next = elim (Bool-cases (leb 4 attempt || not (is_conflict error))) [
      | inl last ↦ absurd (ground (arith, last, h))
      | inr more ↦ next (ground (arith, more)) (omega (arith, le)) (ground (arith, more, h))
    ]

-- However many rounds the loop may take, from five on, it ends, and it succeeds when one of the
-- first five attempts returns and each before that throws an object whose `details` are an object
-- of the kind "TransactionConflict", and only then.
pub run_schema_migration_iff :
    (fuel : ℕ) (run : ℕ → Attempt) (k : ℕ)
    → 5 ≤ fuel
    → (run_schema_migration fuel run ≢ unfinished)
      × ((run_schema_migration fuel run ≡ migrated k)
          ↔ ((k ≤ 4) × (run k ≡ returned) × ((j : ℕ) → j < k → Conflicts (run j))))
unfolding run_schema_migration
run_schema_migration_iff fuel run k enough = (
  migrate-ends run fuel 0 (omega arith) (omega arith),
  (
    λ h.
        let (_, top, ends, before) = migrated-Succeeds run fuel 0 k (omega arith) h in
        (top, ends, λ j below. before j (omega arith) below),
    λ (top, ends, before).
        migrate-migrated run fuel 0 k (omega arith) top (omega arith) ends
          (λ j from below. before j below),
  ),
)
