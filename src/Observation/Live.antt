-- ===== src/Observation/Live.antt =====
-- The queue of live messages that wait for an authorization: `LiveAuthorizationQueue` of
-- runtime/security/live.ts. The work on one message is cut at its `await`: it starts, and the
-- check settles later. `waiting` is the chain of promises behind `tail`, its head the one under
-- way.
pub mod Order
use celery_insights.Common.{
  ℕ, ◌+◌, ◌-◌, Bool, true, false, not, ◌&&◌, List, [], ◌∷◌, ◌++◌, if◌then◌else◌, ltb,
}

pub record Queue (M : Type 0) : Type 0 where
  pub pending : ℕ
  pub stopped : Bool
  pub waiting : List M
  pub checking : Bool
  pub delivered : List M
  pub closes : ℕ

-- How the check of the message under way ends, and whether `deliver` throws after it.
pub data Outcome : Type 0 where
  allowed refused threw deliver_threw : Outcome

pub data Event (M : Type 0) : Type 0 where
  enqueues : M → Event M
  stops : Event M
  starts : Event M
  settles : Outcome → Event M

abbrev pub empty : {M : Type 0} → Queue M
empty = record {
  pending = 0;
  stopped = false;
  waiting = [];
  checking = false;
  delivered = [];
  closes = 0;
}

module _ {M : Type 0} where
  unfoldable pub stop : Queue M → Queue M
  stop q = record q { stopped = true }

  abbrev pub close : Queue M → Queue M
  close q = record q { stopped = true; closes = q.closes + 1 }

  unfoldable pub enqueue : M → Queue M → Queue M
  enqueue message q =
      if q.stopped
      then q
      else if ltb 64 (q.pending + 1)
      then close (record q { pending = q.pending + 1 })
      else record q { pending = q.pending + 1; waiting = q.waiting ++ message ∷ [] }

  -- `finally`.
  abbrev pub leave : List M → Queue M → Queue M
  leave rest q = record q { pending = q.pending - 1; waiting = rest; checking = false }

  -- The test of `stopped` before the check.
  unfoldable pub begin : Queue M → List M → Queue M
  begin q [] = q
  begin q (message ∷ rest) =
      if q.checking then q else if q.stopped then leave rest q else record q { checking = true }

  abbrev pub deliver : M → Queue M → Queue M
  deliver message q = record q { delivered = q.delivered ++ message ∷ [] }

  -- What follows the check.
  unfoldable pub settle_checked : Outcome → M → Queue M → Queue M
  settle_checked allowed message q = if q.stopped then q else deliver message q
  settle_checked refused message q = if q.stopped then q else close q
  settle_checked threw message q = close q
  settle_checked deliver_threw message q = if q.stopped then q else close q

  unfoldable pub settle : Outcome → Queue M → List M → Queue M
  settle outcome q [] = q
  settle outcome q (message ∷ rest) =
      if q.checking then leave rest (settle_checked outcome message q) else q

  unfoldable pub step : Event M → Queue M → Queue M
  step (enqueues message) q = enqueue message q
  step stops q = stop q
  step starts q = begin q q.waiting
  step (settles outcome) q = settle outcome q q.waiting

  unfoldable pub run : List (Event M) → Queue M → Queue M
  run [] q = q
  run (event ∷ events) q = run events (step event q)
