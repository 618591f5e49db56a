-- ===== src/Messaging/Consumer/SessionLoop.antt =====
-- internal/messaging/consumer.go: the loop of consumeSession over the deliveries of one session, the
-- timer and the end of the context.
use metrics_pipeline_go.Prelude.{
  update, ℕ, ◌+◌, Bool, true, false, List, [], ◌∷◌, ◌++◌, ℤ, pos, eqb_ℤ, is_empty, length, ok, err,
  Str, if◌then◌else◌,
}
use metrics_pipeline_go.Domain.{Floats, MetricPoint}
use metrics_pipeline_go.Messaging.Message.{Json, expand_metric_points}
use metrics_pipeline_go.Messaging.Delivery.{Delivery, validate_delivery}
use metrics_pipeline_go.Messaging.Backoff.{next_backoff}
use metrics_pipeline_go.Messaging.Consumer.{
  SessionConfig, Environment, Session, SessionError, stream_closed, context_ended,
  dead_letter_failed, Turn, running, stopped, Event, delivered, stream_ended, timer_fired,
  cancelled, dead_lettered, flush, then_go,
}

module _ {V Body : Type 0} (config : SessionConfig) (env : Environment V) where
  abbrev pub with_backoff : ℤ → Turn V Body → Turn V Body
  with_backoff backoff (running s) = running (record s { failure_backoff = backoff })
  with_backoff backoff (stopped s e) = stopped (record s { failure_backoff = backoff }) e

  -- The backoff after a flush: doubled when the sink failed, reset when all went well.
  abbrev pub after_flush : ℤ → Bool × Turn V Body → Turn V Body
  after_flush backoff (true, turn) =
      with_backoff (next_backoff backoff config.failure_max_backoff) turn
  after_flush backoff (false, running s) = with_backoff config.failure_backoff (running s)
  after_flush backoff (false, stopped s e) = stopped s e

  -- The closure `flush` of consumeSession.
  unfoldable pub flush_buffer : Session V Body → Turn V Body
  unfolding flush next_backoff
  flush_buffer s =
      let idle : Session V Body = record s { timer_armed = false } in
      let taken : Session V Body = record s { timer_armed = false; buffer = [] } in
      if is_empty s.buffer
      then running idle
      else after_flush s.failure_backoff (flush env s.buffer taken)

  abbrev pub append_point : ℕ → MetricPoint V → Session V Body → Session V Body
  append_point i point s = record s {
    buffer = s.buffer ++ record { point = point; delivery = i } ∷ [];
    timer_armed = true;
  }

  -- The loop over the points of one delivery.
  unfoldable pub add_points : ℕ → List (MetricPoint V) → Session V Body → Turn V Body
  unfolding flush_buffer
  add_points i [] s = running s
  add_points i (point ∷ points) s =
      let t = append_point i point s in
      let next = then_go (flush_buffer t) (λ u. add_points i points u) in
      let more = add_points i points t in
      if (s.states i).terminal
      then running s
      else if eqb_ℤ (pos (length t.buffer)) config.batch_max
      then next
      else more

abbrev pub end_with : {V Body : Type 0} → SessionError → Turn V Body → Turn V Body
end_with e (running s) = stopped s e
end_with e (stopped s x) = stopped s x

-- What a session takes from its consumer: the codec and the number type, the text comparison, the
-- configuration and the outside.
pub record Setup (V Body : Type 0) : Type 0 where
  pub floats : Floats V
  pub json : Json V Body
  pub equal_fold : Str → Str → Bool
  pub config : SessionConfig
  pub env : Environment V

module _ {V Body : Type 0} (setup : Setup V Body) where
  -- A delivery that fails its validation goes to the dead letters; another allocates a state, and its points are
  -- added.
  unfoldable pub receive : Delivery Body → Session V Body → Turn V Body
  unfolding add_points update
  receive d s = elim (validate_delivery setup.floats setup.json setup.equal_fold d) [
    | err e ↦
        let t : Session V Body = record s {
          settled = dead_lettered d.tag ∷ s.settled;
          calls = s.calls + 1;
        } in
        if setup.env.settle_fails s.calls then stopped t (dead_letter_failed d.tag) else running t
    | ok message ↦
        let points = expand_metric_points setup.floats message in
        add_points setup.config setup.env s.allocated points (record s {
          allocated = s.allocated + 1;
          states = update s.states s.allocated (record {
            delivery = d;
            total_rows = length points;
            committed_rows = 0;
            terminal = false;
          });
        })
  ]

  -- One round of the `select`. A nil timer channel never fires.
  unfoldable pub session_step : Event Body → Session V Body → Turn V Body
  unfolding receive flush_buffer
  session_step (delivered d) s = receive d s
  session_step stream_ended s = stopped s stream_closed
  session_step timer_fired s =
      if s.timer_armed then flush_buffer setup.config setup.env s else running s
  session_step cancelled s = end_with context_ended (flush_buffer setup.config setup.env s)

  unfoldable pub run_session : List (Event Body) → Session V Body → Turn V Body
  unfolding session_step
  run_session [] s = running s
  run_session (e ∷ es) s = then_go (session_step e s) (λ t. run_session es t)

  -- The variables of consumeSession before its loop. A number that is not allocated stands for no state;
  -- what the store holds there is never read.
  unfoldable pub start_session : Delivery Body → Session V Body
  start_session nil = record {
    allocated = 0;
    states = λ j. record { delivery = nil; total_rows = 0; committed_rows = 0; terminal = true };
    buffer = [];
    timer_armed = false;
    failure_backoff = setup.config.failure_backoff;
    calls = 0;
    settled = [];
    committed = [];
  }
