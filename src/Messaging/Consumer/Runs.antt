-- ===== src/Messaging/Consumer/Runs.antt =====
-- Whole sessions: what holds of every delivery after any sequence of events, errors of the outside
-- included.
use metrics_pipeline_go.Prelude.{
  update, ℕ, ◌+◌, ◌≡◌, ap, false, ◌==◌, List, [], ◌∷◌, length, if◌then◌else◌, arith, ltb,
  Bool-cases, inl, inr, ok, err, Result-cases,
}
use metrics_pipeline_go.Domain.{MetricPoint}
use metrics_pipeline_go.Messaging.Message.{expand_metric_points, IngestMessage}
use metrics_pipeline_go.Messaging.Message.Expand.{expand_metric_points_nonempty}
use metrics_pipeline_go.Messaging.Delivery.{
  Delivery, validate_delivery, validate_delivery-IsValidMessage,
}
use metrics_pipeline_go.Messaging.Consumer.{
  Session, Turn, running, stopped, Event, delivered, stream_ended, timer_fired, cancelled,
}
use metrics_pipeline_go.Messaging.Consumer.SessionLoop.{
  Setup, flush_buffer, end_with, receive, session_step, run_session,
}
use metrics_pipeline_go.Messaging.Consumer.Log.{
  acks, acks-le, settlements, Ends, then_go-Ends, IsSafe, Held,
}
use metrics_pipeline_go.Messaging.Consumer.Flushes.{VisitsAllRows, Held-IsSafe}
use metrics_pipeline_go.Messaging.Consumer.Turns.{flush_buffer-Held, add_points-Held}

module _ {V Body : Type 0} (setup : Setup V Body) where
  -- The points that a delivery asks for.
  unfoldable pub delivery_points : Delivery Body → List (MetricPoint V)
  delivery_points d = elim (validate_delivery setup.floats setup.json setup.equal_fold d) [
    | ok message ↦ expand_metric_points setup.floats message
    | err e ↦ []
  ]

  abbrev pub points_in : ℕ → ℕ → Delivery Body → List (MetricPoint V)
  points_in n j d = if ltb j n then delivery_points d else []

  abbrev pub closed_in : ℕ → ℕ → ℕ
  closed_in n j = if ltb j n then 1 else 0

  -- `extra` are the points of the newest delivery that are not yet buffered.
  abbrev pub HeldAt : ℕ → List (MetricPoint V) → Session V Body → Type 0
  HeldAt j extra s =
      Held j (closed_in s.allocated j) (s.allocated, (s.states j).delivery)
        (points_in s.allocated j (s.states j).delivery) extra s

  abbrev pub IsSound : Session V Body → Type 0
  IsSound s = (j : ℕ) → HeldAt j [] s

  abbrev pub SafeAt : ℕ → Session V Body → Type 0
  SafeAt j s =
      IsSafe j (s.allocated, (s.states j).delivery) (points_in s.allocated j (s.states j).delivery)
        s

  abbrev pub AllSafe : Session V Body → Type 0
  AllSafe s = (j : ℕ) → SafeAt j s

  reframe :
      (j n : ℕ) (d : Delivery Body) (turn : Turn V Body)
      → Ends
          (Held j (closed_in n j) (n, d) (points_in n j d) [])
          (IsSafe j (n, d) (points_in n j d))
          turn
      → Ends (HeldAt j []) (SafeAt j) turn
  reframe j n d (running s) h = ground (arith, ap delivery_points h.origin)
  reframe j n d (stopped s e) h = ground (arith, ap delivery_points h.origin)

  -- The session in which `receive` starts its loop.
  abbrev opened : Delivery Body → IngestMessage V → Session V Body → Session V Body
  opened d message s = record s {
    allocated = s.allocated + 1;
    states = update s.states s.allocated (record {
      delivery = d;
      total_rows = length (expand_metric_points setup.floats message);
      committed_rows = 0;
      terminal = false;
    });
  }

  opened-HeldAt :
      (j : ℕ) (d : Delivery Body) (message : IngestMessage V) (s : Session V Body)
      → validate_delivery setup.floats setup.json setup.equal_fold d ≡ ok message
      → HeldAt j [] s
      → HeldAt j
          (if s.allocated == j then expand_metric_points setup.floats message else [])
          (opened d message s)
  unfolding update delivery_points
  opened-HeldAt j d message s e v = ground (
    arith,
    e,
    acks-le j s.settled,
    expand_metric_points_nonempty setup.floats message,
    validate_delivery-IsValidMessage setup.floats setup.json setup.equal_fold d {m = message},
  )

  module _ (visits : VisitsAllRows setup.env) where
    receive-Sound :
        (d : Delivery Body) (j : ℕ) (s : Session V Body)
        → HeldAt j [] s
        → Ends (HeldAt j []) (SafeAt j) (receive setup d s)
    unfolding receive settlements acks
    receive-Sound d j s v =
        elim (Result-cases (validate_delivery setup.floats setup.json setup.equal_fold d)) [
          | inl (message, e) ↦
              let s' = opened d message s in
              rw (e, receive)
                (reframe j s'.allocated (s'.states j).delivery _ (
                  add_points-Held setup.config setup.env visits j (closed_in s'.allocated j)
                    (s'.allocated, (s'.states j).delivery)
                    (points_in s'.allocated j (s'.states j).delivery) s.allocated
                    (expand_metric_points setup.floats message) s'
                    (opened-HeldAt j d message s e v)))
          | inr (x, e) ↦ rw (e, receive) (ground (arith, acks-le j s.settled))
        ]

    flush_buffer-Sound :
        (j : ℕ) (s : Session V Body)
        → HeldAt j [] s
        → Ends (HeldAt j []) (SafeAt j) (flush_buffer setup.config setup.env s)
    flush_buffer-Sound j s v =
        reframe j s.allocated (s.states j).delivery _
          (flush_buffer-Held setup.config setup.env visits j _ _ _ [] s v)

    end_with-Sound :
        (e : _) (j : ℕ) (turn : Turn V Body)
        → Ends (HeldAt j []) (SafeAt j) turn
        → Ends (HeldAt j []) (SafeAt j) (end_with e turn)
    end_with-Sound e j (running s) h = Held-IsSafe setup.env j _ _ _ [] s h
    end_with-Sound e j (stopped s x) h = h

    pub step-Sound :
        (e : Event Body) (j : ℕ) (s : Session V Body)
        → HeldAt j [] s
        → Ends (HeldAt j []) (SafeAt j) (session_step setup e s)
    unfolding session_step
    step-Sound (delivered d) j s v = receive-Sound d j s v
    step-Sound stream_ended j s v = Held-IsSafe setup.env j _ _ _ [] s v
    step-Sound timer_fired j s v = elim (Bool-cases s.timer_armed) [
      | inl armed ↦ rw (armed, session_step) (flush_buffer-Sound j s v)
      | inr idle ↦ rw (idle, session_step) (ground arith)
    ]
    step-Sound cancelled j s v =
        end_with-Sound _ j (flush_buffer setup.config setup.env s) (flush_buffer-Sound j s v)

    pub run-Sound :
        (es : List (Event Body)) (j : ℕ) (s : Session V Body)
        → HeldAt j [] s
        → Ends (HeldAt j []) (SafeAt j) (run_session setup es s)
    unfolding run_session
    run-Sound [] j s v = v
    run-Sound (e ∷ es) j s v =
        then_go-Ends (HeldAt j []) (HeldAt j []) (SafeAt j) (λ t. run_session setup es t)
          (λ t h. run-Sound es j t h) (session_step setup e s) (step-Sound e j s v)
