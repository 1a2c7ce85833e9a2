-- ===== src/Leader/Serial.antt =====
-- One instance whose queries return before the next interval fires, until it is stopped.
use celery_insights.Common.{
  ℕ, ◌+◌, ◌≡◌, refl, Bool, true, false, ◌&&◌, Option, some, none, List, [], ◌∷◌, arith, is_some,
  filter, find, nat_eq, ap, ◌∙◌, sym,
}
use celery_insights.Leader.{
  Config, Instance, Interval, Await, Reply, answered, failed, Kind, heartbeat, polling,
  start_acquire, poll_acquire, refresh, current_leader, release, Segment, initial, clear_timers,
  start_heartbeat, start_standby_polling, promote_to_leader, enter_standby, start, stop, fire, lose,
  resume,
}
use celery_insights.Leader.Node.{Part, stops, fires, returns, apply, run}

-- The timers that the fields refer to, as intervals.
abbrev pub referred : Option ℕ → Option ℕ → List Interval
referred none none = []
referred (some h) none = record { id = h; kind = heartbeat } ∷ []
referred none (some p) = record { id = p; kind = polling } ∷ []
referred (some h) (some p) =
    record { id = h; kind = heartbeat } ∷ record { id = p; kind = polling } ∷ []

abbrev pub count_leader : Bool → ℕ
count_leader true = 1
count_leader false = 0

-- An interval that fires, by its id, or the return of the query under way.
pub data Input : Type 0 where
  tick : (id : ℕ) → Input
  reply : Reply → Input

find_interval : ℕ → List Interval → Option Interval
find_interval id intervals = find (λ interval. nat_eq interval.id id) intervals

fire_interval : Option Interval → Instance → Segment
fire_interval none s = (s, none)
fire_interval (some interval) s = fire interval.kind s

-- An interval fires only while no query is under way.
unfoldable pub serial_step : Input → Segment → Segment
unfolding find_interval fire_interval
serial_step (tick id) (s, none) = fire_interval (find_interval id s.intervals) s
serial_step (tick id) (s, some await) = (s, some await)
serial_step (reply r) (s, none) = (s, none)
serial_step (reply r) (s, some await) = resume await r s

unfoldable pub serial_run : List Input → Segment → Segment
serial_run [] segment = segment
serial_run (input ∷ inputs) segment = serial_run inputs (serial_step input segment)

-- What holds while a query is under way.
abbrev Awaiting : Option Await → Instance → Type 0
Awaiting none s = Unit
Awaiting (some refresh) s = s.is_leader ≡ true
Awaiting (some release) s = ⊥
Awaiting (some poll_acquire) s = s.is_leader ≡ false
Awaiting (some start_acquire) s = (s.is_leader ≡ false) × (s.standby_timer ≡ none)
Awaiting (some current_leader) s = (s.is_leader ≡ false) × (s.standby_timer ≡ none)

record IsSerial (s : Instance) (await : Option Await) : Type 0 where
  running : s.stopped ≡ false
  timers : s.intervals ≡ referred s.heartbeat_timer s.standby_timer
  beats : is_some s.heartbeat_timer ≡ s.is_leader
  polls : (s.is_leader && is_some s.standby_timer) ≡ false
  calls : s.became ≡ s.lost + count_leader s.is_leader
  awaiting : Awaiting await s

abbrev is_heartbeat : Kind → Bool
is_heartbeat heartbeat = true
is_heartbeat polling = false

find_interval-referred :
    (id : ℕ) (beat poll : Option ℕ) (interval : Interval)
    → (is_some beat && is_some poll) ≡ false
    → find_interval id (referred beat poll) ≡ some interval
    → is_heartbeat interval.kind ≡ is_some beat
unfolding find_interval find
find_interval-referred id none none interval h found = ground arith
find_interval-referred id (some beat) none interval h found = ground arith
find_interval-referred id none (some poll) interval h found = ground arith
find_interval-referred id (some beat) (some poll) interval h found = ground arith

find_interval-is_leader :
    (id : ℕ) (interval : Interval) (s : Instance)
    → IsSerial s none
    → find_interval id s.intervals ≡ some interval
    → is_heartbeat interval.kind ≡ s.is_leader
find_interval-is_leader id interval s h found =
    let due =
      find_interval-referred id s.heartbeat_timer s.standby_timer interval
        (ap (λ b. b && is_some s.standby_timer) h.beats ∙ h.polls)
        (ap (λ xs. find_interval id xs) (sym h.timers) ∙ found) in
    due ∙ h.beats

fire-IsSerial :
    (kind : Kind) (s : Instance)
    → IsSerial s none
    → is_heartbeat kind ≡ s.is_leader
    → IsSerial (fire kind s).0 (fire kind s).1
unfolding fire
fire-IsSerial heartbeat s h due = ground arith
fire-IsSerial polling s h due = ground arith

resume-IsSerial :
    (await : Await) (r : Reply) (s : Instance)
    → IsSerial s (some await)
    → IsSerial (resume await r s).0 (resume await r s).1
unfolding resume promote_to_leader enter_standby start_heartbeat start_standby_polling lose
    clear_timers filter
resume-IsSerial start_acquire r s h = ground arith
resume-IsSerial poll_acquire r s h = ground arith
resume-IsSerial refresh (answered b) s h = ground arith
resume-IsSerial refresh failed s h = ground arith
resume-IsSerial current_leader r s h = ground arith
resume-IsSerial release r s h = absurd h.awaiting

fire_interval-IsSerial :
    (id : ℕ) (found : Option Interval) (s : Instance)
    → IsSerial s none
    → find_interval id s.intervals ≡ found
    → IsSerial (fire_interval found s).0 (fire_interval found s).1
unfolding fire_interval
fire_interval-IsSerial id none s h e = h
fire_interval-IsSerial id (some interval) s h e =
    fire-IsSerial interval.kind s h (find_interval-is_leader id interval s h e)

serial_step-IsSerial :
    (input : Input) (s : Instance) (await : Option Await)
    → IsSerial s await
    → IsSerial (serial_step input (s, await)).0 (serial_step input (s, await)).1
unfolding serial_step
serial_step-IsSerial (tick id) s none h = fire_interval-IsSerial id _ s h refl
serial_step-IsSerial (tick id) s (some await) h = h
serial_step-IsSerial (reply r) s none h = h
serial_step-IsSerial (reply r) s (some await) h = resume-IsSerial await r s h

serial_run-IsSerial :
    (inputs : List Input) (segment : Segment)
    → IsSerial segment.0 segment.1
    → IsSerial (serial_run inputs segment).0 (serial_run inputs segment).1
unfolding serial_run
serial_run-IsSerial [] segment h = h
serial_run-IsSerial (input ∷ inputs) (s, await) h =
    serial_run-IsSerial inputs (serial_step input (s, await)) (serial_step-IsSerial input s await h)

start-IsSerial :
    (config : Config)
    → config.ingestion_enabled ≡ true
    → config.ingestion_leader_election ≡ true
    → IsSerial (start config initial).0 (start config initial).1
unfolding start
start-IsSerial config enabled election = ground arith

-- A stopped instance without timers and intervals, and its calls.
record IsHalted (became lost : ℕ) (s : Instance) : Type 0 where
  halted : s.stopped ≡ true
  no_beat : s.heartbeat_timer ≡ none
  no_poll : s.standby_timer ≡ none
  no_interval : s.intervals ≡ []
  same_became : s.became ≡ became
  same_lost : s.lost ≡ lost

apply-IsHalted :
    (part : Part) (became lost : ℕ) (s : Instance)
    → IsHalted became lost s
    → IsHalted became lost (apply part s)
unfolding apply stop fire resume promote_to_leader enter_standby start_heartbeat
    start_standby_polling lose clear_timers filter
apply-IsHalted stops became lost s h = ground arith
apply-IsHalted (fires kind) became lost s h = ground arith
apply-IsHalted (returns start_acquire r) became lost s h = ground arith
apply-IsHalted (returns poll_acquire r) became lost s h = ground arith
apply-IsHalted (returns refresh (answered b)) became lost s h = ground arith
apply-IsHalted (returns refresh failed) became lost s h = ground arith
apply-IsHalted (returns current_leader r) became lost s h = ground arith
apply-IsHalted (returns release r) became lost s h = ground arith

run-IsHalted :
    (parts : List Part) (became lost : ℕ) (s : Instance)
    → IsHalted became lost s
    → IsHalted became lost (run parts s)
unfolding run
run-IsHalted [] became lost s h = h
run-IsHalted (part ∷ parts) became lost s h =
    run-IsHalted parts became lost (apply part s) (apply-IsHalted part became lost s h)

stop-IsHalted :
    (s : Instance) (await : Option Await)
    → IsSerial s await
    → IsHalted s.became s.lost (apply stops s)
unfolding apply stop clear_timers filter
stop-IsHalted s await h = ground arith

-- With the ingestion and its election enabled, and when every query returns before the next
-- interval fires: whatever the queries return, until `stop` is called the number of calls of
-- `onBecomeLeader` less that of `onLoseLeadership` is 1 while the instance leads and 0 otherwise,
-- and the intervals alive are exactly those that the two fields refer to: a heartbeat while it
-- leads, at most a polling otherwise. Once `stop` is called, whatever is still under way returns in
-- whatever order, neither callback is called again, not even for a leader that is stopped, and no
-- interval is alive.
pub serial_run-calls :
    (config : Config) (inputs : List Input) (rest : List Part)
    → config.ingestion_enabled ≡ true
    → config.ingestion_leader_election ≡ true
    → let s = (serial_run inputs (start config initial)).0 in
      let t = run rest (apply stops s) in
      (s.became ≡ s.lost + count_leader s.is_leader)
      × (s.intervals ≡ referred s.heartbeat_timer s.standby_timer)
      × (is_some s.heartbeat_timer ≡ s.is_leader)
      × ((s.is_leader && is_some s.standby_timer) ≡ false)
      × (t.became ≡ s.became)
      × (t.lost ≡ s.lost)
      × (t.intervals ≡ [])
serial_run-calls config inputs rest enabled election =
    let segment = serial_run inputs (start config initial) in
    let h =
      serial_run-IsSerial inputs (start config initial) (start-IsSerial config enabled election) in
    let t =
      run-IsHalted rest segment.0.became segment.0.lost (apply stops segment.0)
        (stop-IsHalted segment.0 segment.1 h) in
    (h.calls, h.timers, h.beats, h.polls, t.same_became, t.same_lost, t.no_interval)
