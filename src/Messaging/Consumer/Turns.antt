-- ===== src/Messaging/Consumer/Turns.antt =====
-- The loop over the points of a delivery and one round of the session, seen from one delivery.
use mathlib.Core.List.{append-nil, append_assoc}
use metrics_pipeline_go.Prelude.{
  ℕ, ◌≡◌, Bool, true, false, ◌==◌, List, [], ◌∷◌, length, length-append, if◌then◌else◌, arith,
  Bool-cases, is_empty, inl, inr, eqb_ℤ, pos,
}
use metrics_pipeline_go.Domain.{MetricPoint}
use metrics_pipeline_go.Messaging.Delivery.{Delivery}
use metrics_pipeline_go.Messaging.Consumer.{
  Environment, Session, SessionConfig, Turn, running, stopped,
}
use metrics_pipeline_go.Messaging.Consumer.SessionLoop.{
  flush_buffer, after_flush, append_point, add_points,
}
use metrics_pipeline_go.Messaging.Consumer.Log.{own, own-append, Ends, IsSafe, Held, then_go-Ends}
use metrics_pipeline_go.Messaging.Consumer.Flushes.{VisitsAllRows, flush-Held}

module _ {V Body : Type 0} (config : SessionConfig) (env : Environment V)
    (visits : VisitsAllRows env) (j closed : ℕ) (frame : ℕ × Delivery Body)
    (points : List (MetricPoint V)) where
  after_flush-Held :
      (rest : List (MetricPoint V)) (backoff : _) (failed : Bool) (turn : Turn V Body)
      → Ends (Held j closed frame points rest) (IsSafe j frame points) turn
      → Ends
          (Held j closed frame points rest)
          (IsSafe j frame points)
          (after_flush config env backoff (failed, turn))
  after_flush-Held rest backoff true (running s) h = ground arith
  after_flush-Held rest backoff true (stopped s e) h = ground arith
  after_flush-Held rest backoff false (running s) h = ground arith
  after_flush-Held rest backoff false (stopped s e) h = h

  pub flush_buffer-Held :
      (rest : List (MetricPoint V)) (s : Session V Body)
      → Held j closed frame points rest s
      → Ends (Held j closed frame points rest) (IsSafe j frame points) (flush_buffer config env s)
  unfolding flush_buffer
  flush_buffer-Held rest s v = elim (Bool-cases (is_empty s.buffer)) [
    | inl nothing ↦ rw (nothing, flush_buffer) (ground arith)
    | inr some_points ↦
        rw (some_points, flush_buffer)
          (after_flush-Held rest s.failure_backoff _ _
            (flush-Held env j closed frame points rest visits s v))
  ]

  append_point-Held :
      (i : ℕ) (point : MetricPoint V) (rest : List (MetricPoint V)) (s : Session V Body)
      → (s.states i).terminal ≡ false
      → Held j closed frame points (if i == j then point ∷ rest else []) s
      → Held j closed frame points (if i == j then rest else []) (append_point config env i point s)
  unfolding own
  append_point-Held i point rest s live v = ground (
    arith,
    own-append j s.buffer (record { point = point; delivery = i } ∷ []),
    append_assoc (own j s.buffer) (point ∷ []) rest,
    length-append (own j s.buffer) (point ∷ []),
    append-nil (own j s.buffer),
  )

  pub add_points-Held :
      (i : ℕ) (rest : List (MetricPoint V)) (s : Session V Body)
      → Held j closed frame points (if i == j then rest else []) s
      → Ends
          (Held j closed frame points [])
          (IsSafe j frame points)
          (add_points config env i rest s)
  unfolding add_points
  add_points-Held i [] s v = ground arith
  add_points-Held i (point ∷ rest) s v = elim (Bool-cases (s.states i).terminal) [
    | inl over ↦ rw (over, add_points) (ground arith)
    | inr live ↦
        let t = append_point config env i point s in
        let kept = append_point-Held i point rest s live v in
        elim (Bool-cases (eqb_ℤ (pos (length t.buffer)) config.batch_max)) [
          | inl full ↦
              rw (live, add_points)
                (rw full (
                  then_go-Ends (Held j closed frame points (if i == j then rest else []))
                    (Held j closed frame points []) (IsSafe j frame points)
                    (λ u. add_points config env i rest u) (λ u h. add_points-Held i rest u h)
                    (flush_buffer config env t) (flush_buffer-Held _ t kept)))
          | inr room ↦ rw (live, add_points) (rw room (add_points-Held i rest t kept))
        ]
  ]
