-- ===== src/Messaging/Relay/Tests.antt =====
-- A leader that publishes the first of two events and fails on the second.
use metrics_pipeline_go.Prelude.{
  ℕ, ◌==◌, ◌≡◌, refl, true, false, some, [], ◌∷◌, pos, All, ok, arith,
}
use metrics_pipeline_go.Messaging.Relay.{
  OutboxRelayConfig, RelayOutside, acquired, released_lock, claimed, published, publish_failed,
  marked_published, marked_failed, relay_events, new_outbox_relay, run_relay,
}
use metrics_pipeline_go.Messaging.Relay.Traces.{failure_backoffs}
use metrics_pipeline_go.Messaging.Relay.Backoffs.{IsInRange, relay_events-IsInRange}
use metrics_pipeline_go.Messaging.Relay.Runs.{IsRelayTrace, run_relay-IsRelayTrace}

abbrev config : OutboxRelayConfig
config = record {
  batch_size = pos 2;
  poll_interval = pos 10;
  lease_duration = pos 100;
  initial_backoff = pos 10;
  max_backoff = pos 40;
}

abbrev outside : RelayOutside ℕ
outside = record {
  try_acquire = λ n. some true;
  claim = λ n. some (7 ∷ 8 ∷ []);
  publish_fails = λ n. n == 6;
  mark_fails = λ n. false;
  context_done = λ n. false;
  timer_fires = λ n. true;
}

second_fails :
    run_relay config outside 3 1 0
    ≡ acquired
      ∷ claimed (7 ∷ 8 ∷ [])
      ∷ published 7
      ∷ marked_published 7
      ∷ publish_failed 8
      ∷ marked_failed 8 (pos 10)
      ∷ released_lock
      ∷ []
unfolding run_relay
second_fails = refl

run_relay-IsRelayTrace_example : IsRelayTrace (run_relay config outside 3 1 0)
run_relay-IsRelayTrace_example = run_relay-IsRelayTrace config outside 3 1 0

starts-IsInRange : IsInRange config outside (pos 10)
starts-IsInRange = (omega arith, omega arith)

relay_events-IsInRange_example :
    All
      (IsInRange config outside)
      (failure_backoffs (relay_events config outside 6 (pos 10) (pos 0) (7 ∷ 8 ∷ [])).0)
relay_events-IsInRange_example =
    relay_events-IsInRange config outside (omega arith, omega arith) (omega arith) (omega arith) 6
      (pos 10) (pos 0) (7 ∷ 8 ∷ []) starts-IsInRange

relay_is_made : new_outbox_relay config true true ≡ ok config
unfolding new_outbox_relay
relay_is_made = refl
