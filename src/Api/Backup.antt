-- ===== src/Api/Backup.antt =====
-- `importBackup` of runtime/observation-api.ts, on a file that its schema accepts. The statements of
-- the workflows, which `planWorkflowBackfill` gives and which follow those of the records, are left
-- out; that it may throw is not. What the database makes of the transaction, which it may refuse, is
-- not modelled. `new Date` is a parameter.
pub mod Accepted
use celery_insights.Common.{
  ℕ, suc, ◌+◌, Bool, true, false, not, ◌&&◌, Option, some, none, List, [], ◌∷◌, ◌++◌, String, map,
  if◌then◌else◌, includes, length, is_some, ◌==◌, Eq-String, lookup, Result, ok, err, other_error,
  ◌>>=◌, ◌>>◌,
}
use celery_insights.Common.Text.{codes, strip, ◌<>◌}
use celery_insights.Export.Server.{Table, task, event, workflow, scalar, id_string}
use celery_insights.Export.{Text}
use celery_insights.Export

-- A value of a record.
pub data Cell : Type 0 where
  text : String → Cell
  date : String → Cell
  null : Cell
  other : Cell

-- A record: its `id`, when that is a string, and its other values.
pub record Row : Type 0 where
  pub id : Option String
  pub content : List (String × Cell)

pub record Backup : Type 0 where
  pub tasks : List Row
  pub events : List Row
  pub workers : List Row

pub data Kind : Type 0 where
  of_tasks of_events of_workers : Kind

abbrev pub table_name : Kind → String
table_name of_tasks = "task"
table_name of_events = "event"
table_name of_workers = "worker"

-- `dateFields`.
unfoldable pub date_fields : Kind → List String
date_fields of_tasks =
    "sent_at" ∷ "received_at" ∷ "started_at" ∷ "succeeded_at" ∷ "failed_at" ∷ "retried_at"
    ∷ "revoked_at" ∷ "rejected_at" ∷ "last_updated" ∷ "first_observed_at" ∷ "execution_observed_at"
    ∷ "execution_active_at" ∷ []
date_fields of_events = "timestamp" ∷ []
date_fields of_workers = "last_updated" ∷ []

-- A `CREATE` statement with its bindings.
pub record Create : Type 0 where
  pub kind : Kind
  pub index : ℕ
  pub key : Text
  pub content : List (String × Cell)

-- What a part of the import gives: the reply's error, or statements.
pub data Checked (A : Type 0) : Type 0 where
  invalid : (error : String) → Checked A
  valid : A → Checked A

abbrev pub then_check : {A B : Type 0} → Checked A → (A → Checked B) → Checked B
then_check (invalid error) next = invalid error
then_check (valid a) next = next a

-- `record.id.startsWith(table + ":")`.
abbrev pub has_prefix : Kind → String → Bool
has_prefix kind id = is_some (strip (codes (table_name kind <> ":")) (codes id))

abbrev pub key_of : String → Text
key_of id = id_string (scalar (celery_insights.Export.text (codes id)))

pub data Statement : Type 0 where
  delete : (table : String) → Statement
  insert : Create → Statement

-- The tables are emptied first.
unfoldable pub deletions : List Statement
deletions =
    delete "event"
    ∷ delete "workflow_task"
    ∷ delete "task"
    ∷ delete "workflow"
    ∷ delete "worker"
    ∷ []

-- The statements between `BEGIN` and `COMMIT`, and the counts of the reply.
pub record Imported : Type 0 where
  pub statements : List Statement
  pub tasks : ℕ
  pub events : ℕ
  pub workers : ℕ

abbrev pub imported : List Create → List Create → List Create → Imported
imported tasks events workers = record {
  statements = deletions ++ map insert (tasks ++ events ++ workers);
  tasks = length tasks;
  events = length events;
  workers = length workers;
}

-- `datetimeToIso`, which `planWorkflowBackfill` calls: a value that is neither missing nor a text has
-- no `toISOString`.
abbrev pub datetime_to_iso : Option Cell → Result (Option String)
datetime_to_iso none = ok none
datetime_to_iso (some null) = ok none
datetime_to_iso (some (text s)) = ok (some s)
datetime_to_iso (some (date s)) = err other_error
datetime_to_iso (some other) = err other_error

-- The loop of `planWorkflowBackfill` over the tasks as uploaded, as far as it may throw.
unfoldable pub plan_times : List Row → Result (Unit {0})
plan_times [] = ok tt
plan_times (row ∷ rows) = datetime_to_iso (lookup "sent_at" row.content) >>= λ sent_at.
    datetime_to_iso (lookup "last_updated" row.content) >>= λ last_updated. plan_times rows

abbrev pub planned : List Row → Checked Imported → Result (Checked Imported)
planned tasks (invalid error) = ok (invalid error)
planned tasks (valid done) = plan_times tasks >> ok (valid done)

module _ (is_date : String → Bool) where
  -- The loop over the date fields, value by value.
  unfoldable pub dated : List String → List (String × Cell) → Checked (List (String × Cell))
  dated names [] = valid []
  dated names ((name, text s) ∷ rest) =
      let more = dated names rest in
      if includes names name
      then if is_date s
        then then_check more (λ cells. valid ((name, date s) ∷ cells))
        else invalid "Invalid backup timestamp"
      else then_check more (λ cells. valid ((name, text s) ∷ cells))
  dated names ((name, value) ∷ rest) =
      then_check (dated names rest) (λ cells. valid ((name, value) ∷ cells))

  unfoldable pub create : Kind → ℕ → Row → Checked Create
  create kind index row = elim row.id [
    | none ↦ invalid "Invalid backup record"
    | some id ↦
        if has_prefix kind id
        then then_check (dated (date_fields kind) row.content) (λ content.
          valid (record { kind = kind; index = index; key = key_of id; content = content }))
        else invalid "Invalid backup record"
  ]

  -- The records of a table, in order.
  unfoldable pub creates : Kind → ℕ → List Row → Checked (List Create)
  creates kind index [] = valid []
  creates kind index (row ∷ rows) =
      then_check (create kind index row)
        (λ first. then_check (creates kind (suc index) rows) (λ rest. valid (first ∷ rest)))

  -- The loop over the tables.
  unfoldable pub check_backup : Backup → Checked Imported
  check_backup backup = then_check (creates of_tasks 0 backup.tasks) (λ tasks.
      then_check (creates of_events 0 backup.events) (λ events.
        then_check (creates of_workers 0 backup.workers)
          (λ workers. valid (imported tasks events workers))))

  -- The transaction that is sent, after everything is checked; else the reply's error, or a throw.
  unfoldable pub import_backup : Backup → Result (Checked Imported)
  import_backup backup = planned backup.tasks (check_backup backup)
