-- ===== src/Observation/Live/Order.antt =====
-- The order and the bounds of the live queue.
use celery_insights.Common.{
  ℕ, ◌+◌, ◌≤◌, ◌≡◌, refl, ◌∙◌, sym, ap, subst, Bool, true, false, List, [], ◌∷◌, ◌++◌, ltb, length,
  length-append, arith, Bool-cases, inl, inr,
}
use celery_insights.Observation.Live.{
  Queue, Event, enqueues, stops, starts, settles, Outcome, allowed, refused, threw, deliver_threw,
  empty, stop, enqueue, begin, settle, settle_checked, step, run,
}
use mathlib.Core.List.{append-nil, append_assoc}

-- The messages that a sequence of events brings, in order.
abbrev pub arrivals : {M : Type 0} → List (Event M) → List M
arrivals [] = []
arrivals (enqueues message ∷ events) = message ∷ arrivals events
arrivals (stops ∷ events) = arrivals events
arrivals (starts ∷ events) = arrivals events
arrivals (settles outcome ∷ events) = arrivals events

module _ {M : Type 0} where
  -- While the queue is open, all that arrived is delivered or waits; later a part may be lost.
  abbrev Ordered : Bool → List M → Queue M → Type 0
  Ordered false arrived q =
      (q.delivered ++ q.waiting ≡ arrived) × (q.pending ≡ length q.waiting) × (q.pending ≤ 64)
  Ordered true arrived q = (rest : List M) × (q.delivered ++ rest ≡ arrived)

  abbrev IsOrdered : List M → Queue M → Type 0
  IsOrdered arrived q = Ordered q.stopped arrived q

  -- A queue by its fields, so that the tests of the code compute.
  abbrev queue : ℕ → Bool → List M → Bool → List M → ℕ → Queue M
  queue p s w c d n = record {
    pending = p;
    stopped = s;
    waiting = w;
    checking = c;
    delivered = d;
    closes = n;
  }

  later :
      {arrived : List M} (q : Queue M) (m : M)
      → q.delivered ++ q.waiting ≡ arrived
      → q.delivered ++ (q.waiting ++ m ∷ []) ≡ arrived ++ m ∷ []
  later q m h = sym (append_assoc q.delivered q.waiting (m ∷ [])) ∙ ap (λ xs. xs ++ m ∷ []) h

  enqueue-IsOrdered :
      (m : M) (arrived : List M) (p : ℕ) (s : Bool) (w : List M) (c : Bool) (d : List M) (n : ℕ)
      → IsOrdered arrived (queue p s w c d n)
      → IsOrdered (arrived ++ m ∷ []) (enqueue m (queue p s w c d n))
  unfolding enqueue
  enqueue-IsOrdered m arrived p true w c d n (rest, h) =
      (rest ++ m ∷ [], sym (append_assoc d rest (m ∷ [])) ∙ ap (λ xs. xs ++ m ∷ []) h)
  enqueue-IsOrdered m arrived p false w c d n (h, counted, bound) =
      elim (Bool-cases (ltb 64 (p + 1))) [
        | inl full ↦ rw full (w ++ m ∷ [], later (queue p false w c d n) m h)
        | inr free ↦ rw free (
          later (queue p false w c d n) m h,
          omega (arith, counted, length-append w (m ∷ [])),
          ground arith,
        )
      ]

  begin-IsOrdered :
      (arrived : List M) (p : ℕ) (s : Bool) (w : List M) (c : Bool) (d : List M) (n : ℕ)
      → IsOrdered arrived (queue p s w c d n)
      → IsOrdered arrived (begin (queue p s w c d n) w)
  unfolding begin
  begin-IsOrdered arrived p s [] c d n h = h
  begin-IsOrdered arrived p s (m ∷ w) true d n h = h
  begin-IsOrdered arrived p true (m ∷ w) false d n h = h
  begin-IsOrdered arrived p false (m ∷ w) false d n h = h

  next :
      {arrived : List M} (d w : List M) (m : M)
      → d ++ m ∷ w ≡ arrived
      → (d ++ m ∷ []) ++ w ≡ arrived
  next d w m h = append_assoc d (m ∷ []) w ∙ h

  settle-IsOrdered :
      (outcome : Outcome) (arrived : List M) (p : ℕ) (s : Bool) (w : List M) (c : Bool) (d : List M)
      (n : ℕ)
      → IsOrdered arrived (queue p s w c d n)
      → IsOrdered arrived (settle outcome (queue p s w c d n) w)
  unfolding settle settle_checked
  settle-IsOrdered outcome arrived p s [] c d n h = h
  settle-IsOrdered outcome arrived p s (m ∷ w) false d n h = h
  settle-IsOrdered allowed arrived p true (m ∷ w) true d n h = h
  settle-IsOrdered refused arrived p true (m ∷ w) true d n h = h
  settle-IsOrdered threw arrived p true (m ∷ w) true d n h = h
  settle-IsOrdered deliver_threw arrived p true (m ∷ w) true d n h = h
  settle-IsOrdered allowed arrived p false (m ∷ w) true d n (h, counted, bound) =
      (next d w m h, omega (arith, counted), omega (arith, bound))
  settle-IsOrdered refused arrived p false (m ∷ w) true d n h = (m ∷ w, h.0)
  settle-IsOrdered threw arrived p false (m ∷ w) true d n h = (m ∷ w, h.0)
  settle-IsOrdered deliver_threw arrived p false (m ∷ w) true d n h = (m ∷ w, h.0)

  stop-IsOrdered :
      (arrived : List M) (p : ℕ) (s : Bool) (w : List M) (c : Bool) (d : List M) (n : ℕ)
      → IsOrdered arrived (queue p s w c d n)
      → IsOrdered arrived (stop (queue p s w c d n))
  unfolding stop
  stop-IsOrdered arrived p true w c d n h = h
  stop-IsOrdered arrived p false w c d n h = (w, h.0)

  run-IsOrdered :
      (events : List (Event M)) (arrived : List M) (q : Queue M)
      → IsOrdered arrived q
      → IsOrdered (arrived ++ arrivals events) (run events q)
  unfolding run step
  run-IsOrdered [] arrived q h = rw (append-nil arrived) h
  run-IsOrdered (enqueues m ∷ events) arrived q h =
      rw (← append_assoc arrived (m ∷ []) (arrivals events)) (
        run-IsOrdered events (arrived ++ m ∷ []) (enqueue m q) (
          enqueue-IsOrdered m arrived q.pending q.stopped q.waiting q.checking q.delivered q.closes
            h))
  run-IsOrdered (stops ∷ events) arrived q h =
      run-IsOrdered events arrived (stop q)
        (stop-IsOrdered arrived q.pending q.stopped q.waiting q.checking q.delivered q.closes h)
  run-IsOrdered (starts ∷ events) arrived q h =
      run-IsOrdered events arrived (begin q q.waiting)
        (begin-IsOrdered arrived q.pending q.stopped q.waiting q.checking q.delivered q.closes h)
  run-IsOrdered (settles outcome ∷ events) arrived q h =
      run-IsOrdered events arrived (settle outcome q q.waiting) (
        settle-IsOrdered outcome arrived q.pending q.stopped q.waiting q.checking q.delivered
          q.closes h)

  Ordered-prefix :
      (arrived : List M) (s : Bool) (q : Queue M)
      → Ordered s arrived q
      → (rest : List M) × (q.delivered ++ rest ≡ arrived)
  Ordered-prefix arrived true q h = h
  Ordered-prefix arrived false q h = (q.waiting, h.0)

  open-bound :
      (arrived : List M) (q : Queue M) → IsOrdered arrived q → q.stopped ≡ false → q.pending ≤ 64
  open-bound arrived q h e = (subst (λ s. Ordered s arrived q) e h).2

  -- Whatever the checks answer and however stops fall in between, the messages delivered are the
  -- first of those that arrived, in their order and with none left out; and while the queue is
  -- not stopped at most 64 messages are pending.
  pub run-delivered :
      (events : List (Event M))
      → ((rest : List M) × ((run events empty).delivered ++ rest ≡ arrivals events))
        × ((run events empty).stopped ≡ false → (run events empty).pending ≤ 64)
  run-delivered events =
      let h = run-IsOrdered events [] empty (refl, refl, omega arith) in
      (
        Ordered-prefix (arrivals events) (run events empty).stopped (run events empty) h,
        open-bound (arrivals events) (run events empty) h,
      )
