-- ===== src/Messaging/Consumer/Buffer.antt =====
-- The buffer of a session, its timer and its backoff.
use metrics_pipeline_go.Prelude.{
  update, ℕ, ◌+◌, ◌≡◌, refl, subst, Bool, true, false, ◌&&◌, ◌⊎◌, inl, inr, List, [], ◌∷◌, length,
  length-append, arith, Bool-cases, pos, ◌≤ℤ◌, ◌<ℤ◌, eqb_ℤ, is_empty, is_empty-length, Result-cases,
}
use metrics_pipeline_go.Domain.{MetricPoint}
use metrics_pipeline_go.Messaging.Delivery.{Delivery, validate_delivery}
use metrics_pipeline_go.Messaging.Message.{expand_metric_points}
use metrics_pipeline_go.Messaging.Backoff.{next_backoff_bounds, IsDoublable}
use metrics_pipeline_go.Messaging.Consumer.{
  SessionConfig, Environment, Session, Turn, running, stopped, Event, delivered, stream_ended,
  timer_fired, cancelled, requeue_all, ack_all, flush, count_rows, log_ack, finish, requeued,
  point_list, unique_delivery_states, committed_rows_by_delivery,
}
use metrics_pipeline_go.Messaging.Consumer.SessionLoop.{
  Setup, flush_buffer, after_flush, append_point, add_points, receive, session_step, run_session,
  start_session, end_with,
}
use metrics_pipeline_go.Messaging.Consumer.Log.{Ends, then_go-Ends}

abbrev pub Anything : {V Body : Type 0} → Session V Body → Type 0
Anything s = Unit

module _ {V Body : Type 0} (env : Environment V) where
  -- The settling loops leave the buffer, the timer and the backoff alone.
  record Same (s t : Session V Body) : Type 0 where
    buffer : t.buffer ≡ s.buffer
    timer : t.timer_armed ≡ s.timer_armed
    backoff : t.failure_backoff ≡ s.failure_backoff

  requeue_all-Same :
      (is : List ℕ) (s t : Session V Body)
      → Same s t
      → Ends (Same s) Anything (requeue_all env is t)
  unfolding requeue_all
  requeue_all-Same [] s t h = h
  requeue_all-Same (i ∷ is) s t h = ground (
    arith,
    requeue_all-Same is s (record t {
      states = update t.states i (record (t.states i) { terminal = true });
      settled = requeued i ∷ t.settled;
      calls = t.calls + 1;
    }),
  )

  ack_all-Same :
      (entries : List (ℕ × ℕ)) (s t : Session V Body)
      → Same s t
      → Ends (Same s) Anything (ack_all env entries t)
  unfolding ack_all
  ack_all-Same [] s t h = h
  ack_all-Same ((i, n) ∷ entries) s t h = ground (
    arith,
    ack_all-Same entries s t,
    ack_all-Same entries s (count_rows env t i n),
    ack_all-Same entries s (finish env (log_ack env (count_rows env t i n) i) i),
  )

  flush-Same :
      (s : Session V Body)
      → Ends
          (Same (record s { timer_armed = false; buffer = [] }))
          Anything
          (flush env s.buffer (record s { timer_armed = false; buffer = [] })).1
  unfolding flush
  flush-Same s =
      let t : Session V Body = record s { timer_armed = false; buffer = [] } in
      elim (Bool-cases (env.flush_fails s.calls (point_list s.buffer))) [
        | inl failed ↦
            elim (Bool-cases (env.wait_fails (s.calls + 1) && env.context_done (s.calls + 1))) [
              | inl ended ↦ rw (failed, flush) (rw ended (ground arith))
              | inr waited ↦
                  rw (failed, flush)
                    (rw waited (
                      requeue_all-Same (unique_delivery_states s.buffer) t _
                        (record { buffer = refl; timer = refl; backoff = refl })))
            ]
        | inr stored ↦
            rw (stored, flush)
              (ack_all-Same (env.range_order (s.calls + 1) (committed_rows_by_delivery s.buffer)) t
                _ (record { buffer = refl; timer = refl; backoff = refl }))
      ]

module _ (config : SessionConfig) where
  -- What validation asks of the configuration, and that the longest backoff can be doubled.
  pub record IsUsable : Type 0 where
    pub batch_max_positive : pos 0 <ℤ config.batch_max
    pub backoff_positive : pos 0 <ℤ config.failure_backoff
    pub backoff_ordered : config.failure_backoff ≤ℤ config.failure_max_backoff
    pub doublable : IsDoublable config.failure_max_backoff

module _ {V Body : Type 0} (config : SessionConfig) where
  pub record HasBackoff (s : Session V Body) : Type 0 where
    pub low : config.failure_backoff ≤ℤ s.failure_backoff
    pub high : s.failure_backoff ≤ℤ config.failure_max_backoff

  -- There is room in the buffer, a timer runs while it holds a point, and the backoff is in its range.
  pub record IsPrompt (s : Session V Body) : Type 0 where
    pub room : pos (length s.buffer) <ℤ config.batch_max
    pub timed : (s.buffer ≡ []) ⊎ (s.timer_armed ≡ true)
    pub low : config.failure_backoff ≤ℤ s.failure_backoff
    pub high : s.failure_backoff ≤ℤ config.failure_max_backoff

  pub record Drained (s : Session V Body) : Type 0 where
    pub buffer : s.buffer ≡ []
    low : config.failure_backoff ≤ℤ s.failure_backoff
    high : s.failure_backoff ≤ℤ config.failure_max_backoff

  module _ (env : Environment V) (usable : IsUsable config) where
    after_flush-Drained :
        (s : Session V Body) (failed : Bool) (turn : Turn V Body)
        → HasBackoff s
        → Ends (Same env (record s { timer_armed = false; buffer = [] })) Anything turn
        → Ends Drained Anything (after_flush config env s.failure_backoff (failed, turn))
    after_flush-Drained s true (running t) b h = ground (
      arith,
      next_backoff_bounds config.failure_backoff s.failure_backoff config.failure_max_backoff,
    )
    after_flush-Drained s false (running t) b h = ground arith
    after_flush-Drained s true (stopped t e) b h = tt
    after_flush-Drained s false (stopped t e) b h = tt

    pub flush_buffer-Drained :
        (s : Session V Body) → HasBackoff s → Ends Drained Anything (flush_buffer config env s)
    unfolding flush_buffer
    flush_buffer-Drained s b = elim (Bool-cases (is_empty s.buffer)) [
      | inl nothing ↦ rw (nothing, flush_buffer) (ground (arith, is_empty-length s.buffer))
      | inr points ↦ rw (points, flush_buffer) (after_flush-Drained s _ _ b (flush-Same env s))
    ]

    Drained-IsPrompt : (s : Session V Body) → Drained s → IsPrompt s
    Drained-IsPrompt s h = let e : length s.buffer ≡ 0 = rw h.buffer in ground (arith, e, usable)

    drain-IsPrompt : (turn : Turn V Body) → Ends Drained Anything turn → Ends IsPrompt Anything turn
    drain-IsPrompt (running s) h = Drained-IsPrompt s h
    drain-IsPrompt (stopped s e) h = tt

    add_points-IsPrompt :
        (i : ℕ) (points : List (MetricPoint V)) (s : Session V Body)
        → IsPrompt s
        → Ends IsPrompt Anything (add_points config env i points s)
    unfolding add_points
    add_points-IsPrompt i [] s h = h
    add_points-IsPrompt i (point ∷ points) s h = elim (Bool-cases (s.states i).terminal) [
      | inl over ↦ rw (over, add_points) (ground arith)
      | inr live ↦
          let t = append_point config env i point s in
          elim (Bool-cases (eqb_ℤ (pos (length t.buffer)) config.batch_max)) [
            | inl full ↦
                rw (live, add_points)
                  (rw full (
                    then_go-Ends IsPrompt IsPrompt Anything (λ u. add_points config env i points u)
                      (λ u k. add_points-IsPrompt i points u k) (flush_buffer config env t)
                      (drain-IsPrompt _ (flush_buffer-Drained t (ground arith)))))
            | inr room ↦
                rw (live, add_points)
                  (rw room (
                    add_points-IsPrompt i points t (
                      ground (
                        arith,
                        length-append s.buffer (record { point = point; delivery = i } ∷ []),
                      ))))
          ]
    ]

module _ {V Body : Type 0} (setup : Setup V Body) (usable : IsUsable setup.config) where
  receive-IsPrompt :
      (d : Delivery Body) (s : Session V Body)
      → IsPrompt setup.config s
      → Ends (IsPrompt setup.config) Anything (receive setup d s)
  unfolding receive
  receive-IsPrompt d s h =
      elim (Result-cases (validate_delivery setup.floats setup.json setup.equal_fold d)) [
        | inl (message, e) ↦
            rw (e, receive)
              (add_points-IsPrompt setup.config setup.env usable s.allocated
                (expand_metric_points setup.floats message) _ (ground arith))
        | inr (x, e) ↦ rw (e, receive) (ground arith)
      ]

  end_with-Anything :
      (e : _) (turn : Turn V Body) → Ends (IsPrompt setup.config) Anything (end_with e turn)
  end_with-Anything e (running s) = tt
  end_with-Anything e (stopped s x) = tt

  step-IsPrompt :
      (e : Event Body) (s : Session V Body)
      → IsPrompt setup.config s
      → Ends (IsPrompt setup.config) Anything (session_step setup e s)
  unfolding session_step
  step-IsPrompt (delivered d) s h = receive-IsPrompt d s h
  step-IsPrompt stream_ended s h = tt
  step-IsPrompt timer_fired s h = elim (Bool-cases s.timer_armed) [
    | inl armed ↦
        rw (armed, session_step)
          (drain-IsPrompt setup.config setup.env usable _
            (flush_buffer-Drained setup.config setup.env usable s (ground arith)))
    | inr idle ↦ rw (idle, session_step) (ground arith)
  ]
  step-IsPrompt cancelled s h = end_with-Anything _ (flush_buffer setup.config setup.env s)

  pub run-IsPrompt :
      (es : List (Event Body)) (s : Session V Body)
      → IsPrompt setup.config s
      → Ends (IsPrompt setup.config) Anything (run_session setup es s)
  unfolding run_session
  run-IsPrompt [] s h = h
  run-IsPrompt (e ∷ es) s h =
      then_go-Ends (IsPrompt setup.config) (IsPrompt setup.config) Anything
        (λ t. run_session setup es t) (λ t k. run-IsPrompt es t k) (session_step setup e s)
        (step-IsPrompt e s h)

  -- With a usable configuration, after any events the session that still runs has fewer than
  -- BatchMax points in its buffer, its timer runs while the buffer holds a point, and its failure backoff
  -- lies between the initial and the longest one.
  pub run_session-IsPrompt :
      (nil : Delivery Body) (es : List (Event Body)) {t : Session V Body}
      → run_session setup es (start_session setup nil) ≡ running t
      → IsPrompt setup.config t
  unfolding start_session
  run_session-IsPrompt nil es {t} e =
      subst (Ends (IsPrompt setup.config) Anything) e
        (run-IsPrompt es (start_session setup nil) (ground (arith, usable)))
