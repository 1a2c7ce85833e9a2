-- ===== src/Api/Backup/Accepted.antt =====
-- Which backups are imported.
use celery_insights.Common.{
  ◌+◌, ◌≡◌, Bool, true, false, not, ◌&&◌, ◌||◌, Option, some, none, List, [], ◌∷◌, String, all,
  includes, length, Eq-String, take, lookup, Result, ok, err,
}
use celery_insights.Api.Backup.{
  Cell, text, date, null, other, delete, Row, Backup, Kind, of_tasks, of_events, of_workers,
  date_fields, Checked, invalid, valid, has_prefix, Imported,
}

abbrev pub is_valid : {A : Type 0} → Checked A → Bool
is_valid (invalid error) = false
is_valid (valid a) = true

-- A value for a time that the workflows are planned from: missing, null or a text.
abbrev pub is_time : Option Cell → Bool
is_time none = true
is_time (some null) = true
is_time (some (text s)) = true
is_time (some (date s)) = false
is_time (some other) = false

abbrev pub has_times : Row → Bool
has_times row =
    is_time (lookup "sent_at" row.content) && is_time (lookup "last_updated" row.content)

abbrev pub is_ok : {A : Type 0} → Result A → Bool
is_ok (ok a) = true
is_ok (err failure) = false

-- The transaction is sent; the import throws.
abbrev pub is_sent : Result (Checked Imported) → Bool
is_sent (ok checked) = is_valid checked
is_sent (err failure) = false

abbrev pub is_thrown : Result (Checked Imported) → Bool
is_thrown result = not (is_ok result)

module _ (is_date : String → Bool) where
  -- A value that stands under the name of a time is no text, or the text of a date.
  abbrev pub is_timed : List String → String × Cell → Bool
  is_timed names (name, text s) = not (includes names name) || is_date s
  is_timed names (name, value) = true

  -- A record has a text for an id that names its table, and only dates under the names of times.
  abbrev pub is_importable : Kind → Row → Bool
  is_importable kind row = elim row.id [
    | none ↦ false
    | some id ↦ has_prefix kind id && all (is_timed (date_fields kind)) row.content
  ]

  abbrev all_importable : Backup → Bool
  all_importable backup =
      all (is_importable of_tasks) backup.tasks
      && (all (is_importable of_events) backup.events
          && all (is_importable of_workers) backup.workers)

  -- What is sent of a backup, and counted.
  pub record IsWhole (backup : Backup) (done : Imported) : Type 0 where
    pub emptied :
        take 5 done.statements
        ≡ delete "event"
          ∷ delete "workflow_task"
          ∷ delete "task"
          ∷ delete "workflow"
          ∷ delete "worker"
          ∷ []
    pub one_each :
        length done.statements
        ≡ 5 + (length backup.tasks + (length backup.events + length backup.workers))
    pub tasks : done.tasks ≡ length backup.tasks
    pub events : done.events ≡ length backup.events
    pub workers : done.workers ≡ length backup.workers
