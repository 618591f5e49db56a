-- ===== src/Messaging/Publisher/Tests.antt =====
-- One worker of the publisher against a broker that answers the first publishing with a nack.
use metrics_pipeline_go.Prelude.{
  ℕ, suc, ◌+◌, ◌-◌, ◌*◌, ◌^◌, ◌≤◌, ◌<◌, ◌≡◌, refl, true, false, none, some, [], ◌∷◌, ◌++◌, pos, min,
  codes, ◌==◌, if◌then◌else◌, arith,
}
use metrics_pipeline_go.Domain.{MetricBatch}
use metrics_pipeline_go.Messaging.Publisher.{
  confirmed, no_return, ready, Outside, RetryConfig, Link, backoff, publish_with_retry,
}
use metrics_pipeline_go.Messaging.Publisher.Attempts.{Acknowledged, IsBalanced, backoffs}
use metrics_pipeline_go.Messaging.Publisher.Backoffs.{backoff_formula}
use metrics_pipeline_go.Messaging.Publisher.Outcome.{publish_with_retry-Acknowledged, publish_cost}
use metrics_pipeline_go.Samples.{plain_json, two_metrics, message_id}

abbrev outside : Outside
outside = record {
  opening = λ n. ready;
  context_error = λ n. none;
  publish_error = λ n. none;
  signal = λ n. confirmed n (if n == 1 then false else true) no_return;
  wait_error = λ n. none;
}

abbrev retries : RetryConfig
retries = record { max_attempts = 3; initial_backoff = pos 10; max_backoff = pos 15 }

abbrev fresh : Link
fresh = record { connected = false; calls = 0; opened = 0; closed = 0; published = 0; waits = [] }

abbrev batch : MetricBatch ℕ
batch = record {
  task_id = codes "demo-1";
  samples = record { step = pos 1; timestamp_millis = pos 1000; metrics = two_metrics } ∷ [];
}

-- The worker after a nack, a wait and an acknowledged second publishing.
acknowledged_second : Link
unfolding publish_with_retry
acknowledged_second =
    (publish_with_retry retries outside plain_json (some message_id) 7 batch fresh).0

acknowledged_second_log :
    (acknowledged_second.published ≡ 2) × (acknowledged_second.waits ≡ pos 10 ∷ [])
unfolding acknowledged_second
acknowledged_second_log = (refl, refl)

passes : (publish_with_retry retries outside plain_json (some message_id) 7 batch fresh).1 ≡ none
unfolding publish_with_retry
passes = refl

fresh-IsBalanced : IsBalanced fresh
fresh-IsBalanced = record { balanced = refl }

publish_with_retry-Acknowledged_example :
    ((n : ℕ) × (0 ≤ n)
      × (n
          < (publish_with_retry retries outside plain_json (some message_id) 7 batch fresh).0.calls)
      × Acknowledged outside n)
    × ((publish_with_retry retries outside plain_json (some message_id) 7 batch fresh).0.connected
        ≡ true)
publish_with_retry-Acknowledged_example =
    publish_with_retry-Acknowledged retries outside plain_json (some message_id) 7 batch fresh
      passes

publish_cost_example :
    let t = (publish_with_retry retries outside plain_json (some message_id) 7 batch fresh).0 in
    (t.published ≤ 0 + 3)
    × IsBalanced t
    × ((count : ℕ) × (count ≤ 3 - 1) × (t.waits ≡ [] ++ backoffs retries outside 1 count))
publish_cost_example =
    publish_cost retries outside plain_json (some message_id) 7 batch fresh fresh-IsBalanced

backoff_formula_example : backoff retries (suc 2) ≡ pos (min (10 * 2 ^ 2) 15)
backoff_formula_example = backoff_formula retries 2 10 15 refl refl (omega arith) (omega arith)
