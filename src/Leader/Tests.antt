-- ===== src/Leader/Tests.antt =====
-- Instances and a lock of the leader election on concrete runs.
use celery_insights.Common.{◌+◌, ◌≡◌, refl, true, false, ◌&&◌, some, is_some, List, [], ◌∷◌, arith}
use celery_insights.Leader.{Config, answered, failed, refresh, release, initial, start}
use celery_insights.Leader.Node.{Part, stops, returns, apply, run}
use celery_insights.Leader.Lock.{
  History, Lock, Statement, IsHeld, final_lock, taken_over, lock_exclusive,
}
use celery_insights.Leader.Serial.{
  Input, tick, reply, serial_run, serial_run-calls, count_leader, referred,
}

abbrev elections : Config
elections = record {
  ingestion_enabled = true;
  ingestion_leader_election = true;
  ingestion_lock_ttl_seconds = 30;
}

-- Still under way when a leader is stopped: its heartbeat, and the release of the lock.
abbrev remains : List Part
remains = returns refresh failed ∷ returns release (answered true) ∷ []

abbrev held : Lock
held = record { holder = "a"; acquired_at = 0; heartbeat = 100; ttl_seconds = 30 }

abbrev contest : History
contest =
    (10, Statement.acquire "b" 30)
    ∷ (5, Statement.refresh "a")
    ∷ (10, Statement.release "b")
    ∷ (5, Statement.acquire "c" 30)
    ∷ []

lock_exclusive_example :
    IsHeld "a" 100 (final_lock 100 (some held) contest)
    × (taken_over "a" 100 (some held) contest ≡ false)
lock_exclusive_example =
    lock_exclusive "a" 100 30 100 (some held) contest (refl, omega arith) (omega arith)
      (omega arith) (refl, (tt, (refl, (refl, tt))))

abbrev serial_career : List Input
serial_career =
    reply (answered false)
    ∷ reply failed
    ∷ tick 0
    ∷ reply (answered true)
    ∷ tick 1
    ∷ reply failed
    ∷ []

serial_run-calls_example :
    let s = (serial_run serial_career (start elections initial)).0 in
    let t = run remains (apply stops s) in
    (s.became ≡ s.lost + count_leader s.is_leader)
    × (s.intervals ≡ referred s.heartbeat_timer s.standby_timer)
    × (is_some s.heartbeat_timer ≡ s.is_leader)
    × ((s.is_leader && is_some s.standby_timer) ≡ false)
    × (t.became ≡ s.became)
    × (t.lost ≡ s.lost)
    × (t.intervals ≡ [])
serial_run-calls_example = serial_run-calls elections serial_career remains refl refl
