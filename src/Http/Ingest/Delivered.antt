-- ===== src/Http/Ingest/Delivered.antt =====
-- The two validations agree: what the write endpoint accepts, the worker takes. The chain is
-- ingest.go, message.go and validateDelivery of consumer.go; the broker hands on what is published.
use metrics_pipeline_go.Prelude.{ℕ, Bool, ◌&&◌, map, Str, pos, all, is_ascii}
use metrics_pipeline_go.Domain.{Floats, Metrics, MetricBatch}
use metrics_pipeline_go.Messaging.Message
use metrics_pipeline_go.Messaging.Message.{
  IngestSample, IngestMessage, Json, Publishing, to_ingest_sample,
}
use metrics_pipeline_go.Messaging.Delivery.{Delivery}

-- The broker keeps the properties, the headers and the body.
abbrev pub deliver : {Body : Type 0} → ℕ → Bool → Publishing Body → Delivery Body
deliver tag redelivered p = record {
  tag = tag;
  redelivered = redelivered;
  headers = p.headers;
  content_type = p.content_type;
  correlation_id = p.correlation_id;
  message_id = p.message_id;
  body = p.body;
}

module _ {V : Type 0} (floats : Floats V) where
  abbrev encodable_entries : Metrics V → Bool
  encodable_entries = all (λ e. floats.is_finite e.1 && is_ascii e.0)

module _ {V Body : Type 0} (floats : Floats V) (json : Json V Body)
    (equal_fold : Str → Str → Bool) where
  message_of : MetricBatch V → Str → IngestMessage V
  message_of b id = record {
    schema_version = pos 1;
    message_id = id;
    correlation_id = id;
    task_id = b.task_id;
    batch = map to_ingest_sample b.samples;
  }
