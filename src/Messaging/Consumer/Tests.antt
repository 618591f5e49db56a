-- ===== src/Messaging/Consumer/Tests.antt =====
-- A session that takes one delivery of three points, with buffers of two and of eight points.
use metrics_pipeline_go.Prelude.{
  to_int32, ℕ, ◌≤◌, ◌<◌, ◌≡◌, refl, false, ◌⊎◌, List, [], ◌∷◌, ◌++◌, pos, codes, str_eq, length,
  arith,
}
use metrics_pipeline_go.Messaging.Message.{
  IngestMessage, publishing_of, decode_ingest_message, expand_metric_points,
}
use metrics_pipeline_go.Messaging.Delivery.{Delivery, validate_delivery}
use metrics_pipeline_go.Messaging.Consumer.{
  Environment, Session, Event, delivered, timer_fired, running, acked,
}
use metrics_pipeline_go.Messaging.Consumer.SessionLoop.{
  Setup, run_session, session_step, start_session,
}
use metrics_pipeline_go.Messaging.Consumer.Log.{own, acks, settlements}
use metrics_pipeline_go.Messaging.Consumer.Flushes.{VisitsAllRows}
use metrics_pipeline_go.Messaging.Consumer.Runs.{delivery_points}
use metrics_pipeline_go.Messaging.Consumer.Lifecycle.{
  final, settled_at_most_once, acked_is_persisted, unsettled_is_buffered,
}
use metrics_pipeline_go.Messaging.Consumer.Buffer.{IsUsable, IsPrompt, run_session-IsPrompt}
use metrics_pipeline_go.Messaging.Consumer.Drain.{timer_drains}
use metrics_pipeline_go.Samples.{floats, plain_json, two_sample_message}

abbrev calm : Environment ℕ
calm = record {
  flush_fails = λ n points. false;
  wait_fails = λ n. false;
  context_done = λ n. false;
  settle_fails = λ n. false;
  range_order = λ n rows. rows;
}

abbrev setup_of : ℕ → Setup ℕ (IngestMessage ℕ)
setup_of batch_max = record {
  floats = floats;
  json = plain_json;
  equal_fold = str_eq;
  config = record {
    batch_max = pos batch_max;
    failure_backoff = pos 100000000;
    failure_max_backoff = pos 30000000000;
  };
  env = calm;
}

abbrev three_points : Delivery (IngestMessage ℕ)
three_points = record {
  tag = 4;
  redelivered = false;
  headers = (publishing_of two_sample_message 0 two_sample_message).headers;
  content_type = codes "application/json";
  correlation_id = two_sample_message.correlation_id;
  message_id = two_sample_message.message_id;
  body = two_sample_message;
}

abbrev arrived : List (Event (IngestMessage ℕ))
arrived = delivered three_points ∷ []

calm_visits : VisitsAllRows calm
calm_visits n j rows = refl

usable : (n : ℕ) → 0 < n → IsUsable (setup_of n).config
usable n h = omega arith

abbrev after_arrival : ℕ → Session ℕ (IngestMessage ℕ)
after_arrival n = final (run_session (setup_of n) arrived (start_session (setup_of n) three_points))

runs_on :
    run_session (setup_of 8) arrived (start_session (setup_of 8) three_points)
    ≡ running (after_arrival 8)
unfolding to_int32 run_session start_session validate_delivery str_eq decode_ingest_message
    expand_metric_points
runs_on = refl

-- With buffers of two points the first two are flushed at once, and the third waits for the timer;
-- the delivery is acknowledged after its last point only.
flushed_twice : Session ℕ (IngestMessage ℕ)
unfolding to_int32 run_session start_session validate_delivery str_eq decode_ingest_message
    expand_metric_points
flushed_twice = final (
    run_session (setup_of 2) (delivered three_points ∷ timer_fired ∷ [])
      (start_session (setup_of 2) three_points))

flushed_twice_log : (flushed_twice.settled ≡ acked 0 ∷ []) × (length flushed_twice.committed ≡ 3)
unfolding flushed_twice
flushed_twice_log = (refl, refl)

flushed_twice_allocated : 0 < flushed_twice.allocated
unfolding flushed_twice
flushed_twice_allocated = omega arith

flushed_twice_acked : 0 < acks 0 flushed_twice.settled
unfolding flushed_twice acks
flushed_twice_acked = omega arith

settled_at_most_once_example : settlements 0 flushed_twice.settled ≤ 1
unfolding flushed_twice
settled_at_most_once_example =
    settled_at_most_once (setup_of 2) calm_visits three_points
      (delivered three_points ∷ timer_fired ∷ []) 0

acked_is_persisted_example :
    own 0 flushed_twice.committed ≡ delivery_points (setup_of 2) (flushed_twice.states 0).delivery
unfolding flushed_twice
acked_is_persisted_example =
    acked_is_persisted (setup_of 2) calm_visits three_points
      (delivered three_points ∷ timer_fired ∷ []) 0 flushed_twice_allocated flushed_twice_acked

unsettled_is_buffered_example :
    ((settlements 0 (after_arrival 8).settled ≡ 1) × (own 0 (after_arrival 8).buffer ≡ []))
    ⊎ ((settlements 0 (after_arrival 8).settled ≡ 0)
        × (0 < length (own 0 (after_arrival 8).buffer))
        × (own 0 (after_arrival 8).committed ++ own 0 (after_arrival 8).buffer
            ≡ delivery_points (setup_of 8) ((after_arrival 8).states 0).delivery))
unfolding to_int32 run_session start_session validate_delivery str_eq decode_ingest_message
    expand_metric_points
unsettled_is_buffered_example =
    unsettled_is_buffered (setup_of 8) calm_visits three_points arrived 0 {t = after_arrival 8}
      runs_on (omega arith)

run_session-IsPrompt_example : IsPrompt (setup_of 8).config (after_arrival 8)
run_session-IsPrompt_example =
    run_session-IsPrompt (setup_of 8) (usable 8 (omega arith)) three_points arrived
      {t = after_arrival 8} runs_on

timer_drains_example :
    (t : Session ℕ (IngestMessage ℕ)) × (session_step (setup_of 8) timer_fired (after_arrival 8)
      ≡ running t)
    × (t.buffer ≡ [])
    × ((j : ℕ) → j < t.allocated → settlements j t.settled ≡ 1)
unfolding to_int32 run_session start_session validate_delivery str_eq decode_ingest_message
    expand_metric_points
timer_drains_example =
    timer_drains (setup_of 8) (λ n. refl) calm_visits (usable 8 (omega arith)) three_points arrived
      {s = after_arrival 8} runs_on refl refl
