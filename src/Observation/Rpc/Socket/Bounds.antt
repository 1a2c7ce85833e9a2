-- ===== src/Observation/Rpc/Socket/Bounds.antt =====
-- The bounds of a socket's state, and what a closed socket does.
use celery_insights.Common.{
  ℕ, ◌≤◌, ◌≡◌, ap, true, not, ◌||◌, Option, none, some, List, [], ◌∷◌, if◌then◌else◌, leb, length,
  length-append, length-filter-le, arith, Bool-cases, inl, inr, get_elem?, Result, ok, err, Eq-List,
  Eq-ℕ, String, ◌==◌, other_error,
}
use celery_insights.Common.Json.{Json, string}
use celery_insights.Observation.Rpc.Answer.{
  Envelope, Subscriptions, Answer, World, Setup, entry, session_scope, answer, call, query,
  subscribe, kill_or_read, kill_id,
}
use celery_insights.Observation.Rpc.Socket.{
  Message, result, refreshed, Work, received, refresh, State, Event, receives, ticks, stops, begins,
  finishes, opened, stop, close, enqueue, receive, begin, send, send_error, send_answer,
  send_refreshes, work_on, failed, finish, step, run,
}

module _ {R : Type 0} (setup : Setup) (world : World R) where
  subscribe-bound :
      (subs : Subscriptions) → length subs ≤ 32 → length (subscribe setup world subs).0 ≤ 32
  unfolding subscribe
  subscribe-bound subs h = ground (arith, length-append subs (world.fresh_id ∷ []))

  kill_or_read-bound :
      (id : Option (List ℕ)) (sql : String) (bindings : Option Json) (subs : Subscriptions)
      → length subs ≤ 32
      → length (kill_or_read setup world id sql bindings subs).0 ≤ 32
  unfolding kill_or_read
  kill_or_read-bound none sql bindings subs h = h
  kill_or_read-bound (some id) sql bindings subs h =
      ground (arith, length-filter-le (λ other. not (other == id)) subs)

  query-bound :
      (sql bindings : Option Json) (subs : Subscriptions)
      → length subs ≤ 32
      → length (query setup world sql bindings subs).0 ≤ 32
  unfolding query
  query-bound (some (string sql)) bindings subs h =
      ground (arith, subscribe-bound subs, kill_or_read-bound (kill_id sql) sql bindings subs)
  query-bound none bindings subs h = h
  query-bound (some value) bindings subs h = h

  call-bound :
      (rpc : Envelope) (subs : Subscriptions)
      → length subs ≤ 32
      → length (call setup world rpc subs).0 ≤ 32
  unfolding call
  call-bound rpc subs h =
      ground (arith, query-bound (get_elem? rpc.params 0) (get_elem? rpc.params 1) subs)

  answer-bound :
      (rpc : Envelope) (subs : Subscriptions)
      → length subs ≤ 32
      → length (answer setup world rpc subs).0 ≤ 32
  unfolding answer
  answer-bound rpc subs h = ground (arith, call-bound rpc subs)

module _ {R : Type 0} where
  -- What `send` leaves alone; a closed socket sends nothing.
  pub record IsSending (s t : State R) : Type 0 where
    pub closed : t.closed ≡ s.closed
    pub pending : t.pending ≡ s.pending
    pub subscriptions : t.subscriptions ≡ s.subscriptions
    pub silent : (if s.closed then t.sent else s.sent) ≡ s.sent

  IsSending-refl : (s : State R) → IsSending s s
  IsSending-refl s = ground arith

  IsSending-trans : (s t u : State R) → IsSending s t → IsSending t u → IsSending s u
  IsSending-trans s t u h k = ground arith

module _ {R : Type 0} (setup : Setup) (size_of : Message R → ℕ) where
  send-IsSending : (m : Message R) (s : State R) → IsSending s (send setup size_of m s).0
  unfolding send
  send-IsSending m s = ground arith

  send_error-IsSending :
      (id : Json) (failure : Result (Answer R)) (s : State R)
      → IsSending s (send_error setup size_of id failure s).0
  unfolding send_error
  send_error-IsSending id failure s = send-IsSending _ s

  pub send_answer-IsSending :
      (id : Json) (a : Result (Answer R)) (s : State R)
      → IsSending s (send_answer setup size_of id a s).0
  unfolding send_answer
  send_answer-IsSending id (err failure) s = send_error-IsSending id (err failure) s
  send_answer-IsSending id (ok a) s =
      let after = (send setup size_of (result id a) s).0 in
      let sent = send-IsSending (result id a) s in
      let refused =
        IsSending-trans s after (send_error setup size_of id (err other_error) after).0 sent
          (send_error-IsSending id (err other_error) after) in
      elim (Bool-cases (send setup size_of (result id a) s).1) [
        | inl thrown ↦ rw thrown refused
        | inr fine ↦ rw fine sent
      ]

  pub send_refreshes-IsSending :
      (ids : Subscriptions) (s : State R) → IsSending s (send_refreshes setup size_of ids s).0
  unfolding send_refreshes
  send_refreshes-IsSending [] s = IsSending-refl s
  send_refreshes-IsSending (id ∷ ids) s =
      let after = (send setup size_of (refreshed id) s).0 in
      let sent = send-IsSending (refreshed id) s in
      let rest =
        IsSending-trans s after (send_refreshes setup size_of ids after).0 sent
          (send_refreshes-IsSending ids after) in
      elim (Bool-cases (send setup size_of (refreshed id) s).1) [
        | inl thrown ↦ rw thrown sent
        | inr fine ↦ rw fine rest
      ]

  -- At most 64 pieces of work are pending on an open socket (65 where the last closed it), and at
  -- most 32 subscriptions are kept.
  pub record IsBounded (s : State R) : Type 0 where
    pub open_pending : (s.closed || leb s.pending 64) ≡ true
    pub pending : s.pending ≤ 65
    pub subscriptions : length s.subscriptions ≤ 32

  IsBounded-IsSending : (s t : State R) → IsSending s t → IsBounded s → IsBounded t
  IsBounded-IsSending s t h b = ground (arith, ap length h.subscriptions)

  work_on-IsBounded :
      (world : World R) (work : Work) (s : State R)
      → IsBounded s
      → IsBounded (work_on setup size_of world work s).0
  unfolding work_on
  work_on-IsBounded world (received none) s h = h
  work_on-IsBounded world (received (some rpc)) s h =
      let found = answer setup world rpc s.subscriptions in
      let answered : State R = record s { subscriptions = found.0 } in
      let bounded : IsBounded answered = record {
        open_pending = h.open_pending;
        pending = h.pending;
        subscriptions = answer-bound setup world rpc s.subscriptions h.subscriptions;
      } in
      elim (Bool-cases (failed (session_scope setup world entry))) [
        | inl refused ↦ rw refused h
        | inr admitted ↦ rw admitted (
            IsBounded-IsSending answered (send_answer setup size_of rpc.id found.1 answered).0
              (send_answer-IsSending rpc.id found.1 answered) bounded)
      ]
  work_on-IsBounded world refresh s h =
      elim (Bool-cases (failed (session_scope setup world entry))) [
        | inl refused ↦ rw refused h
        | inr admitted ↦ rw admitted (
            IsBounded-IsSending s (send_refreshes setup size_of s.subscriptions s).0
              (send_refreshes-IsSending s.subscriptions s) h)
      ]

  finish-IsBounded :
      (world : World R) (queue : List Work) (s : State R)
      → IsBounded s
      → IsBounded (finish setup size_of world queue s)
  unfolding finish close stop
  finish-IsBounded world [] s h = h
  finish-IsBounded world (work ∷ rest) s h = ground (arith, work_on-IsBounded world work s h)

  step-IsBounded :
      (event : Event R) (s : State R) → IsBounded s → IsBounded (step setup size_of event s)
  unfolding step receive enqueue begin close stop
  step-IsBounded (receives size envelope) s h = ground arith
  step-IsBounded ticks s h = ground arith
  step-IsBounded stops s h = ground arith
  step-IsBounded begins s h = ground arith
  step-IsBounded (finishes world) s h = finish-IsBounded world s.queue s h

  run-IsBounded_from :
      (events : List (Event R)) (s : State R) → IsBounded s → IsBounded (run setup size_of events s)
  unfolding run
  run-IsBounded_from [] s h = h
  run-IsBounded_from (event ∷ events) s h =
      run-IsBounded_from events (step setup size_of event s) (step-IsBounded event s h)

  -- Whatever a client sends and however decisions, reads and stops fall in between, at most 64
  -- pieces of work are pending on a socket that is open, and it keeps at most 32 subscriptions.
  pub run-IsBounded : (events : List (Event R)) → IsBounded (run setup size_of events opened)
  run-IsBounded events = run-IsBounded_from events opened (ground arith)
