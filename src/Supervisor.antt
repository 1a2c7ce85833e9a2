-- ===== src/Supervisor.antt =====
-- The supervision of the Python process in bun-entry.ts: spawnPython and its exit handler, the
-- callbacks of the leader election, and the first part of shutdown. A process is a number; the
-- operating system's signals and exits, the timers and the election are events. `replay` is that a
-- snapshot is replayed, where there is no election.
mod Tests
pub mod Accounts
pub mod Restarts
pub mod Shutdown
pub mod Single
use celery_insights.Common.{
  ℕ, ◌+◌, ◌-◌, ◌*◌, Bool, true, false, not, ◌||◌, ◌&&◌, Option, some, none, List, [], ◌∷◌,
  if◌then◌else◌, is_some, filter, includes, nat_eq, leb, ◌==◌, Eq-ℕ,
}
use Prim.Native.Nat.{◌^◌}

pub record State : Type 0 where
  pub shutting_down : Bool
  pub leader : Bool
  pub replay : Bool
  pub python : Option ℕ
  pub running : List ℕ
  pub signalled : List ℕ
  pub spawned : ℕ
  pub timers : ℕ
  pub attempts : ℕ
  pub delays : List ℕ
  pub stopping : Option ℕ

pub data Event : Type 0 where
  becomes_leader loses_leadership fires shuts_down continues : Event
  exits : (process : ℕ) → Event

-- `PYTHON_BACKOFF_BASE_MS`, `PYTHON_BACKOFF_MAX_MS`.
abbrev pub backoff_base : ℕ
backoff_base = 1000

abbrev pub backoff_max : ℕ
backoff_max = 30000

unfoldable pub backoff : ℕ → ℕ
backoff attempts =
    let delay = backoff_base * 2 ^ attempts in if leb delay backoff_max then delay else backoff_max

abbrev pub idle : Bool → State
idle replay = record {
  shutting_down = false;
  leader = false;
  replay = replay;
  python = none;
  running = [];
  signalled = [];
  spawned = 0;
  timers = 0;
  attempts = 0;
  delays = [];
  stopping = none;
}

-- `pythonProcess = spawnPython()`.
abbrev pub spawn_python : State → State
spawn_python s = record s {
  python = some s.spawned;
  running = s.spawned ∷ s.running;
  spawned = s.spawned + 1;
}

-- The start sequence: a replay starts Python at once.
abbrev pub started : Bool → State
started replay = if replay then spawn_python (idle true) else idle false

-- `isLeader`, set before the callback, and `onBecomeLeader`.
unfoldable pub become_leader : State → State
become_leader s = spawn_python (record s { leader = true; attempts = 0 })

-- `pythonProcess.kill(...)`.
abbrev pub signal : Option ℕ → List ℕ → List ℕ
signal none signalled = signalled
signal (some process) signalled = process ∷ signalled

unfoldable pub lose_leadership : State → State
lose_leadership s = record s {
  leader = false;
  signalled = signal s.python s.signalled;
  python = none;
}

abbrev pub is_current : Option ℕ → ℕ → Bool
is_current none process = false
is_current (some current) process = current == process

abbrev pub is_wanted : State → Bool
is_wanted s = s.replay || s.leader

-- The restart after a delay.
abbrev pub schedule : State → State
schedule s = record s {
  timers = s.timers + 1;
  attempts = s.attempts + 1;
  delays = backoff s.attempts ∷ s.delays;
}

-- The handler of "exit".
unfoldable pub on_exit : ℕ → State → State
on_exit process s =
    if s.shutting_down || not (is_current s.python process)
    then s
    else if is_wanted s
    then schedule (record s { python = none })
    else record s { python = none }

-- A running process exits.
unfoldable pub exit : ℕ → State → State
exit process s =
    if includes s.running process
    then on_exit process (record s { running = filter (λ other. not (other == process)) s.running })
    else s

-- The callback of the restart's timer.
unfoldable pub restart : State → State
restart s =
    if not s.shutting_down && not (is_some s.python) && is_wanted s then spawn_python s else s

unfoldable pub fire : State → State
fire s = if nat_eq s.timers 0 then s else restart (record s { timers = s.timers - 1 })

-- `shutdown`, up to the wait for the process.
unfoldable pub shut_down : State → State
shut_down s = if s.shutting_down then s else record s {
  shutting_down = true;
  signalled = signal s.python s.signalled;
  stopping = s.python;
}

-- `shutdown` after the wait, which ends when the process has exited.
abbrev pub end_wait : Option ℕ → State → State
end_wait none s = s
end_wait (some process) s =
    if includes s.running process then s else record s { python = none; stopping = none }

unfoldable pub continue_shutdown : State → State
continue_shutdown s = end_wait s.stopping s

unfoldable pub step : Event → State → State
step becomes_leader s = become_leader s
step loses_leadership s = lose_leadership s
step fires s = fire s
step shuts_down s = shut_down s
step continues s = continue_shutdown s
step (exits process) s = exit process s

unfoldable pub run : List Event → State → State
run [] s = s
run (event ∷ events) s = run events (step event s)
