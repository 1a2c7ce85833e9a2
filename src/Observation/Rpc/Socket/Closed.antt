-- ===== src/Observation/Rpc/Socket/Closed.antt =====
-- A closed socket.
use celery_insights.Common.{
  ℕ, ◌≡◌, refl, true, List, [], ◌∷◌, arith, Bool-cases, inl, inr, some, none,
}
use celery_insights.Observation.Rpc.Answer.{World, Setup, entry, session_scope, answer}
use celery_insights.Observation.Rpc.Socket.{
  Message, Work, received, refresh, State, Event, receives, ticks, stops, begins, finishes, stop,
  close, enqueue, receive, begin, send_answer, send_refreshes, work_on, failed, finish, step, run,
}
use celery_insights.Observation.Rpc.Socket.Bounds.{
  IsSending, send_answer-IsSending, send_refreshes-IsSending,
}

module _ {R : Type 0} where
  -- `t` is closed, and no message more than by `s` was sent.
  pub record IsSilent (s t : State R) : Type 0 where
    pub closed : t.closed ≡ true
    pub sent : t.sent ≡ s.sent

  IsSilent-IsSending : (s t u : State R) → IsSilent s t → IsSending t u → IsSilent s u
  IsSilent-IsSending s t u h k = ground arith

module _ {R : Type 0} (setup : Setup) (size_of : Message R → ℕ) where
  work_on-IsSilent :
      (world : World R) (work : Work) (s t : State R)
      → IsSilent s t
      → IsSilent s (work_on setup size_of world work t).0
  unfolding work_on
  work_on-IsSilent world (received none) s t h = h
  work_on-IsSilent world (received (some rpc)) s t h =
      let found = answer setup world rpc t.subscriptions in
      let answered : State R = record t { subscriptions = found.0 } in
      let silent : IsSilent s answered = record { closed = h.closed; sent = h.sent } in
      elim (Bool-cases (failed (session_scope setup world entry))) [
        | inl refused ↦ rw refused h
        | inr admitted ↦ rw admitted (
            IsSilent-IsSending s answered (send_answer setup size_of rpc.id found.1 answered).0
              silent (send_answer-IsSending setup size_of rpc.id found.1 answered))
      ]
  work_on-IsSilent world refresh s t h =
      elim (Bool-cases (failed (session_scope setup world entry))) [
        | inl refused ↦ rw refused h
        | inr admitted ↦ rw admitted (
            IsSilent-IsSending s t (send_refreshes setup size_of t.subscriptions t).0 h
              (send_refreshes-IsSending setup size_of t.subscriptions t))
      ]

  finish-IsSilent :
      (world : World R) (queue : List Work) (s t : State R)
      → IsSilent s t
      → IsSilent s (finish setup size_of world queue t)
  unfolding finish close stop
  finish-IsSilent world [] s t h = h
  finish-IsSilent world (work ∷ rest) s t h = ground (arith, work_on-IsSilent world work s t h)

  step-IsSilent :
      (event : Event R) (s t : State R) → IsSilent s t → IsSilent s (step setup size_of event t)
  unfolding step receive enqueue begin close stop
  step-IsSilent (receives size envelope) s t h = ground arith
  step-IsSilent ticks s t h = ground arith
  step-IsSilent stops s t h = ground arith
  step-IsSilent begins s t h = ground arith
  step-IsSilent (finishes world) s t h = finish-IsSilent world t.queue s t h

  run-IsSilent_from :
      (events : List (Event R)) (s t : State R)
      → IsSilent s t
      → IsSilent s (run setup size_of events t)
  unfolding run
  run-IsSilent_from [] s t h = h
  run-IsSilent_from (event ∷ events) s t h =
      run-IsSilent_from events s (step setup size_of event t) (step-IsSilent event s t h)

  -- A closed socket stays closed and sends nothing more, whatever is still under way on it.
  pub run-IsSilent :
      (events : List (Event R)) (s : State R)
      → s.closed ≡ true
      → IsSilent s (run setup size_of events s)
  run-IsSilent events s h = run-IsSilent_from events s s (record { closed = h; sent = refl })
