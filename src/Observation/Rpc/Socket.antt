-- ===== src/Observation/Rpc/Socket.antt =====
-- The socket's state: `receive`, `enqueue`, `send`, `refresh`, `stop` and `close`.
pub mod Bounds
pub mod Closed
use celery_insights.Common.{
  ℕ, ◌+◌, ◌-◌, ◌*◌, Bool, true, false, not, ◌||◌, ◌&&◌, Option, some, none, List, [], ◌∷◌, ◌++◌,
  String, if◌then◌else◌, length, ltb, Result, ok, err, http_error, other_error,
}
use celery_insights.Common.Json.{Json}
use celery_insights.Observation.Rpc.Answer.{
  Envelope, Subscriptions, Answer, World, Setup, Moment, session_scope, answer,
}

-- An error has the code -32602 always.
pub data Message (R : Type 0) : Type 0 where
  result : (id : Json) → Answer R → Message R
  error : (id : Json) → (message : String) → Message R
  refreshed : (subscription : List ℕ) → Message R

-- What waits in the chain: a message as its decoder gives it (none where that throws), or the
-- timer's refresh.
pub data Work : Type 0 where
  received : Option Envelope → Work
  refresh : Work

pub record State (R : Type 0) : Type 0 where
  pub closed : Bool
  pub pending : ℕ
  pub queue : List Work
  pub working : Bool
  pub subscriptions : Subscriptions
  pub sent : List (Message R)
  pub closes : ℕ

pub data Event (R : Type 0) : Type 0 where
  receives : (size : ℕ) → Option Envelope → Event R
  ticks : Event R
  stops : Event R
  begins : Event R
  finishes : World R → Event R

abbrev pub opened : {R : Type 0} → State R
opened = record {
  closed = false;
  pending = 0;
  queue = [];
  working = false;
  subscriptions = [];
  sent = [];
  closes = 0;
}

module _ {R : Type 0} where
  unfoldable pub stop : State R → State R
  stop s = record s { closed = true; subscriptions = [] }

  unfoldable pub close : State R → State R
  close s = record (stop s) { closes = s.closes + 1 }

  unfoldable pub enqueue : Work → State R → State R
  enqueue work s =
      if s.closed
      then s
      else if ltb 64 (s.pending + 1)
      then close (record s { pending = s.pending + 1 })
      else record s { pending = s.pending + 1; queue = s.queue ++ work ∷ [] }

  unfoldable pub receive : ℕ → Option Envelope → State R → State R
  receive size envelope s = if ltb 65536 size then close s else enqueue (received envelope) s

  -- `finally`.
  abbrev pub leave : List Work → State R → State R
  leave rest s = record s { pending = s.pending - 1; queue = rest; working = false }

  -- `if (!this.closed) await work()`, up to the first `await`.
  unfoldable pub begin : List Work → State R → State R
  begin [] s = s
  begin (work ∷ rest) s =
      if s.working then s else if s.closed then leave rest s else record s { working = true }

  -- The `catch` of `enqueue`.
  abbrev pub closed_on : Bool → State R → State R
  closed_on thrown s = if thrown then close s else s

abbrev pub failed : {A : Type 0} → Result A → Bool
failed (ok a) = false
failed (err e) = true

-- `error instanceof AuthError`.
abbrev pub message_of : {A : Type 0} → Result A → String
message_of (err (http_error status message)) = "Access denied"
message_of r = "Invalid observation request"

module _ {R : Type 0} (setup : Setup) (size_of : Message R → ℕ) where
  -- `send`, with whether it throws.
  unfoldable pub send : Message R → State R → State R × Bool
  send message s =
      if s.closed
      then (s, false)
      else if ltb (16 * 1024 * 1024) (size_of message)
      then (s, true)
      else (record s { sent = s.sent ++ message ∷ [] }, false)

  -- The `catch` of `receive`: the code -32602 with a fixed text.
  unfoldable pub send_error : Json → Result (Answer R) → State R → State R × Bool
  send_error id failure s = send (error id (message_of failure)) s

  -- The end of `receive`: the answer is sent, or an error where it failed or is too large.
  unfoldable pub send_answer : Json → Result (Answer R) → State R → State R × Bool
  send_answer id (err failure) s = send_error id (err failure) s
  send_answer id (ok a) s =
      let (after, thrown) = send (result id a) s in
      if thrown then send_error id (err other_error) after else (after, false)

  -- The loop of `refresh`, which ends where `send` throws.
  unfoldable pub send_refreshes : Subscriptions → State R → State R × Bool
  send_refreshes [] s = (s, false)
  send_refreshes (id ∷ ids) s =
      let (after, thrown) = send (refreshed id) s in
      let rest = send_refreshes ids after in if thrown then (after, true) else rest

  -- The work on a message after its `await`s, with whether it throws.
  unfoldable pub work_on : World R → Work → State R → State R × Bool
  work_on world (received none) s = (s, true)
  work_on world (received (some rpc)) s =
      if failed (session_scope setup world Moment.entry)
      then (s, true)
      else let answered = answer setup world rpc s.subscriptions in
        send_answer rpc.id answered.1 (record s { subscriptions = answered.0 })
  work_on world refresh s =
      if failed (session_scope setup world Moment.entry)
      then (s, true)
      else send_refreshes s.subscriptions s

  unfoldable pub finish : World R → List Work → State R → State R
  finish world [] s = s
  finish world (work ∷ rest) s =
      if s.working
      then leave rest (closed_on (work_on world work s).1 (work_on world work s).0)
      else s

  unfoldable pub step : Event R → State R → State R
  step (receives size envelope) s = receive size envelope s
  step ticks s = enqueue refresh s
  step stops s = stop s
  step begins s = begin s.queue s
  step (finishes world) s = finish world s.queue s

  unfoldable pub run : List (Event R) → State R → State R
  run [] s = s
  run (event ∷ events) s = run events (step event s)
