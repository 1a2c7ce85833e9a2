-- ===== src/SearchIndex.antt =====
-- The search projections: `SearchIndexes` of runtime/search-indexes.ts, as the statements that each
-- instance runs on the shared database, and its walk over the records. Times are seconds.
pub mod Agreement
pub mod Walk
mod Tests
use celery_insights.Common.{
  ℕ, zero, suc, ◌+◌, Bool, true, false, not, ◌&&◌, ◌||◌, Option, some, none, List, [], ◌∷◌, ◌++◌,
  String, map, filter, any, take, if◌then◌else◌, ltb, leb, length, ◌==◌, Eq-String,
}
use mathlib.Core.Option

-- A record of `search_instance`.
pub record Lease : Type 0 where
  pub instance_id : String
  pub enabled : Bool
  pub expires_at : ℕ

-- `search_config:current`.
pub record Config : Type 0 where
  pub enabled : Bool
  pub ready : Bool

-- The shared database, with whether it has the projections.
pub record Database : Type 0 where
  pub leases : List Lease
  pub config : Option Config
  pub projections : Bool

abbrev pub same_bool : Bool → Bool → Bool
same_bool true b = b
same_bool false b = not b

abbrev pub lease_seconds : ℕ
lease_seconds = 60

-- `$previous.ready`, of the same setting.
abbrev pub kept_ready : Bool → Option Config → Bool
kept_ready enabled none = false
kept_ready enabled (some previous) = same_bool previous.enabled enabled && previous.ready

-- A live lease with the other setting.
abbrev pub conflicts : ℕ → Bool → Lease → Bool
conflicts now enabled lease = ltb now lease.expires_at && not (same_bool lease.enabled enabled)

-- The transaction of `start`, with `none` where it throws.
unfoldable pub take_lease : ℕ → String → Bool → Database → Option Database
take_lease now id enabled db =
    if any (conflicts now enabled) db.leases
    then none
    else some (record {
      leases =
          record { instance_id = id; enabled = enabled; expires_at = now + lease_seconds }
          ∷ filter (λ (l : Lease). ltb now l.expires_at && not (l.instance_id == id)) db.leases;
      config = some (record { enabled = enabled; ready = kept_ready enabled db.config });
      projections = db.projections;
    })

abbrev pub renewed : ℕ → String → Lease → Lease
renewed now id lease = record {
  instance_id = lease.instance_id;
  enabled = lease.enabled;
  expires_at = if lease.instance_id == id then now + lease_seconds else lease.expires_at;
}

-- The heartbeat: `UPDATE` of a record that is gone changes nothing.
unfoldable pub renew : ℕ → String → Database → Database
renew now id db = record {
  leases = map (renewed now id) db.leases;
  config = db.config;
  projections = db.projections;
}

abbrev pub with_ready : Bool → Config → Config
with_ready ready config = record { enabled = config.enabled; ready = ready }

-- `UPDATE search_config:current SET ready = …`.
unfoldable pub set_ready : Bool → Database → Database
set_ready ready db = record {
  leases = db.leases;
  config = Option.map (with_ready ready) db.config;
  projections = db.projections;
}

unfoldable pub set_projections : Bool → Database → Database
set_projections present db = record {
  leases = db.leases;
  config = db.config;
  projections = present;
}

-- `stop`.
unfoldable pub release : String → Database → Database
release id db = record {
  leases = filter (λ (l : Lease). not (l.instance_id == id)) db.leases;
  config = db.config;
  projections = db.projections;
}

-- A statement of an instance.
pub data Statement : Type 0 where
  starts : (now : ℕ) → (id : String) → (enabled : Bool) → Statement
  renews : (now : ℕ) → (id : String) → Statement
  marks : (ready : Bool) → Statement
  defines : (present : Bool) → Statement
  stops : (id : String) → Statement

abbrev pub or_unchanged : Database → Option Database → Database
or_unchanged db none = db
or_unchanged db (some changed) = changed

-- A start that throws leaves the database as it was.
unfoldable pub execute : Statement → Database → Database
execute (starts now id enabled) db = or_unchanged db (take_lease now id enabled db)
execute (renews now id) db = renew now id db
execute (marks ready) db = set_ready ready db
execute (defines present) db = set_projections present db
execute (stops id) db = release id db

unfoldable pub execute_all : List Statement → Database → Database
execute_all [] db = db
execute_all (s ∷ statements) db = execute_all statements (execute s db)

-- `WHERE $after = NULL OR id > $after ORDER BY id LIMIT 200`, of the ids in order.
abbrev pub page_size : ℕ
page_size = 200

abbrev pub is_after : Option ℕ → ℕ → Bool
is_after none id = true
is_after (some after) id = ltb after id

unfoldable pub page : Option ℕ → List ℕ → List ℕ
page after ids = take page_size (filter (is_after after) ids)

-- `rows.at(-1)`.
unfoldable pub last_of : Option ℕ → List ℕ → Option ℕ
last_of before [] = before
last_of before (id ∷ ids) = last_of (some id) ids

abbrev pub is_empty : List ℕ → Bool
is_empty [] = true
is_empty (x ∷ xs) = false

-- The loop over the pages of a table, on fuel: the ids that are projected, in order, or `none` when
-- the fuel runs out.
unfoldable pub walk : ℕ → Option ℕ → List ℕ → Option (List ℕ)
walk zero after ids = none
walk (suc fuel) after ids =
    let rows = page after ids in
    let rest = walk fuel (last_of after rows) ids in
    if is_empty rows then some [] else Option.map (λ others. rows ++ others) rest
