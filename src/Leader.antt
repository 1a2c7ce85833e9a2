-- ===== src/Leader.antt =====
-- Leader election of the ingestion: `LeaderElection` of runtime/leader-election.ts. A method is
-- cut at its `await`s: each part runs at once on the instance, and says which query it awaits
-- next. The two callbacks are counted. Intervals are those alive in the runtime; the fields
-- `heartbeat_timer` and `standby_timer` only refer to them.
pub mod Lock
pub mod Node
pub mod Serial
mod Tests
use celery_insights.Common.{
  ℕ, ◌+◌, ◌≡◌, Bool, true, false, not, ◌&&◌, Option, some, none, List, [], ◌∷◌, if◌then◌else◌,
  filter, nat_eq,
}

pub data IngestionStatus : Type 0 where
  leader standby read_only disabled : IngestionStatus

pub record Config : Type 0 where
  pub ingestion_enabled : Bool
  pub ingestion_leader_election : Bool
  pub ingestion_lock_ttl_seconds : ℕ

pub data Kind : Type 0 where
  heartbeat polling : Kind

pub record Interval : Type 0 where
  pub id : ℕ
  pub kind : Kind

pub record Instance : Type 0 where
  pub is_leader : Bool
  pub status : IngestionStatus
  pub stopped : Bool
  pub heartbeat_timer : Option ℕ
  pub standby_timer : Option ℕ
  pub intervals : List Interval
  pub next_id : ℕ
  pub became : ℕ
  pub lost : ℕ

-- The query that a method awaits.
pub data Await : Type 0 where
  start_acquire : Await
  poll_acquire : Await
  refresh : Await
  current_leader : Await
  release : Await

-- What the query gave: the test that the source makes on its rows, or an error.
pub data Reply : Type 0 where
  answered : Bool → Reply
  failed : Reply

-- An instance and the query that the running method awaits, if it did not return.
abbrev pub Segment : Type 0
Segment = Instance × Option Await

abbrev pub initial : Instance
initial = record {
  is_leader = false;
  status = disabled;
  stopped = false;
  heartbeat_timer = none;
  standby_timer = none;
  intervals = [];
  next_id = 0;
  became = 0;
  lost = 0;
}

-- `clearInterval(timer)`, where the timer is set.
abbrev pub clear_interval : Option ℕ → List Interval → List Interval
clear_interval none intervals = intervals
clear_interval (some id) intervals = filter (λ interval. not (nat_eq interval.id id)) intervals

unfoldable pub clear_timers : Instance → Instance
clear_timers s = record s {
  heartbeat_timer = none;
  standby_timer = none;
  intervals = clear_interval s.standby_timer (clear_interval s.heartbeat_timer s.intervals);
}

unfoldable pub start_heartbeat : Instance → Instance
start_heartbeat s = record s {
  heartbeat_timer = some s.next_id;
  intervals = record { id = s.next_id; kind = heartbeat } ∷ s.intervals;
  next_id = s.next_id + 1;
}

unfoldable pub start_standby_polling : Instance → Instance
start_standby_polling s = record s {
  standby_timer = some s.next_id;
  intervals = record { id = s.next_id; kind = polling } ∷ s.intervals;
  next_id = s.next_id + 1;
}

abbrev elected : Instance → Instance
elected s = record s { is_leader = true; status = leader }

abbrev announced : Instance → Instance
announced s = record s { became = s.became + 1 }

unfoldable pub promote_to_leader : Instance → Instance
promote_to_leader s =
    if s.stopped then s else announced (start_heartbeat (clear_timers (elected s)))

-- `enterStandby` up to `getCurrentLeader`.
unfoldable pub enter_standby : Instance → Segment
enter_standby s =
    if s.stopped
    then (s, none)
    else (clear_timers (record s { is_leader = false; status = standby }), some current_leader)

-- `start` up to its first `await`.
unfoldable pub start : Config → Instance → Segment
start config s =
    if not config.ingestion_enabled
    then (record s { status = read_only }, none)
    else if not config.ingestion_leader_election
    then (announced (elected s), none)
    else (s, some start_acquire)

-- `stop` up to `releaseLock`.
unfoldable pub stop : Instance → Segment
stop s =
    let cleared = clear_timers (record s { stopped = true }) in
    if s.is_leader then (cleared, some release) else (cleared, none)

abbrev query : Kind → Await
query heartbeat = refresh
query polling = poll_acquire

-- The callback of an interval up to its query.
unfoldable pub fire : Kind → Instance → Segment
fire kind s = if s.stopped then (s, none) else (s, some (query kind))

-- The end of a lost heartbeat.
unfoldable pub lose : Instance → Segment
lose s =
    let dropped = clear_timers (record s { is_leader = false }) in
    enter_standby (record dropped { lost = dropped.lost + 1 })

-- `tryAcquireLock` gives false on an error.
abbrev pub acquired : Reply → Bool
acquired (answered b) = b
acquired failed = false

-- The rest of a method after its query.
unfoldable pub resume : Await → Reply → Instance → Segment
resume start_acquire reply s =
    if acquired reply then (promote_to_leader s, none) else enter_standby s
resume poll_acquire reply s = (if acquired reply then promote_to_leader s else s, none)
resume refresh (answered held) s =
    if s.stopped then (s, none) else if held then (s, none) else lose s
resume refresh failed s = if not s.stopped && s.is_leader then lose s else (s, none)
resume current_leader reply s = (if s.stopped then s else start_standby_polling s, none)
resume release reply s = (record s { is_leader = false; status = disabled }, none)
