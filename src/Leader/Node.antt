-- ===== src/Leader/Node.antt =====
-- One instance, with its methods interleaved in any order.
use celery_insights.Common.{◌≡◌, refl, Bool, true, false, not, ◌&&◌, List, [], ◌∷◌, arith}
use celery_insights.Leader.{
  Config, Instance, Await, Reply, answered, failed, Kind, start_acquire, poll_acquire, refresh,
  current_leader, release, leader, IngestionStatus, initial, clear_timers, start_heartbeat,
  start_standby_polling, promote_to_leader, enter_standby, start, stop, fire, lose, resume,
}

-- A part of a method after `start`: a call of `stop`, an interval that fires, a query's return.
pub data Part : Type 0 where
  stops : Part
  fires : Kind → Part
  returns : Await → Reply → Part

unfoldable pub apply : Part → Instance → Instance
apply stops s = (stop s).0
apply (fires kind) s = (fire kind s).0
apply (returns await reply) s = (resume await reply s).0

unfoldable pub run : List Part → Instance → Instance
run [] s = s
run (part ∷ parts) s = run parts (apply part s)

abbrev pub is_leading : IngestionStatus → Bool
is_leading leader = true
is_leading _ = false

-- The flag and the status that the API reports agree.
abbrev IsConsistent : Instance → Type 0
IsConsistent s = s.is_leader ≡ is_leading s.status

start-IsConsistent : (config : Config) → IsConsistent (start config initial).0
unfolding start
start-IsConsistent config = ground arith

apply-IsConsistent : (part : Part) (s : Instance) → IsConsistent s → IsConsistent (apply part s)
unfolding apply stop fire resume promote_to_leader enter_standby start_heartbeat
    start_standby_polling lose clear_timers
apply-IsConsistent stops s h = ground arith
apply-IsConsistent (fires kind) s h = ground arith
apply-IsConsistent (returns start_acquire reply) s h = ground arith
apply-IsConsistent (returns poll_acquire reply) s h = ground arith
apply-IsConsistent (returns refresh (answered b)) s h = ground arith
apply-IsConsistent (returns refresh failed) s h = ground arith
apply-IsConsistent (returns current_leader reply) s h = ground arith
apply-IsConsistent (returns release reply) s h = ground arith

run-IsConsistent_from :
    (parts : List Part) (s : Instance) → IsConsistent s → IsConsistent (run parts s)
unfolding run
run-IsConsistent_from [] s h = h
run-IsConsistent_from (part ∷ parts) s h =
    run-IsConsistent_from parts (apply part s) (apply-IsConsistent part s h)

-- After `start`, in every interleaving of intervals, query returns and `stop`, `isLeader` is true
-- exactly while the status is "leader".
pub run-start_consistent :
    (config : Config) (parts : List Part)
    → (run parts (start config initial).0).is_leader
      ≡ is_leading (run parts (start config initial).0).status
run-start_consistent config parts = run-IsConsistent_from parts _ (start-IsConsistent config)

-- What a stopped instance keeps.
pub record IsQuiet (s t : Instance) : Type 0 where
  pub stopped : t.stopped ≡ true
  pub became : t.became ≡ s.became
  pub lost : t.lost ≡ s.lost
  pub next_id : t.next_id ≡ s.next_id
  pub not_elected : (not s.is_leader && t.is_leader) ≡ false

apply-IsQuiet : (part : Part) (s t : Instance) → IsQuiet s t → IsQuiet s (apply part t)
unfolding apply stop fire resume promote_to_leader enter_standby start_heartbeat
    start_standby_polling lose clear_timers
apply-IsQuiet stops s t h = ground arith
apply-IsQuiet (fires kind) s t h = ground arith
apply-IsQuiet (returns start_acquire reply) s t h = ground arith
apply-IsQuiet (returns poll_acquire reply) s t h = ground arith
apply-IsQuiet (returns refresh (answered b)) s t h = ground arith
apply-IsQuiet (returns refresh failed) s t h = ground arith
apply-IsQuiet (returns current_leader reply) s t h = ground arith
apply-IsQuiet (returns release reply) s t h = ground arith

run-IsQuiet_from : (parts : List Part) (s t : Instance) → IsQuiet s t → IsQuiet s (run parts t)
unfolding run
run-IsQuiet_from [] s t h = h
run-IsQuiet_from (part ∷ parts) s t h =
    run-IsQuiet_from parts s (apply part t) (apply-IsQuiet part s t h)

-- A stopped instance stays stopped, whatever queries and intervals are still under way: it calls
-- neither callback, makes no new timer and is never elected.
pub run-IsQuiet : (parts : List Part) (s : Instance) → s.stopped ≡ true → IsQuiet s (run parts s)
run-IsQuiet parts s h =
    run-IsQuiet_from parts s s (record {
      stopped = h;
      became = refl;
      lost = refl;
      next_id = refl;
      not_elected = ground arith;
    })
