-- ===== src/Samples.antt =====
-- Sample data that the tests of several modules share: numbers in place of float64, a codec whose
-- bodies are the messages themselves, and small requests.
use metrics_pipeline_go.Prelude.{
  to_int32, ℕ, ◌≡◌, refl, true, false, some, [], ◌∷◌, Str, str_eq, ok, pos, codes,
}
use metrics_pipeline_go.Domain.{Floats, Metrics}
use metrics_pipeline_go.Messaging.Message.{
  Json, IngestMessage, publishing_of, decode_ingest_message,
}
use metrics_pipeline_go.Messaging.Message.Validation.{to_wire, IsValidMessage}
use metrics_pipeline_go.Messaging.Delivery.{
  Delivery, validate_delivery, validate_delivery-IsValidMessage,
}
use metrics_pipeline_go.Http.Ingest.{IngestMetricsRequest}

abbrev pub floats : Floats ℕ
floats = record { is_finite = λ v. true; zero_value = 0 }

abbrev pub plain_json : Json ℕ (IngestMessage ℕ)
plain_json = record { marshal = λ m. some m; decode = λ m. some (to_wire m, true) }

abbrev pub two_metrics : Metrics ℕ
two_metrics = (codes "lr", 3) ∷ (codes "loss", 7) ∷ []

abbrev pub two_samples : IngestMetricsRequest ℕ
two_samples = record {
  task_id = codes "demo-1";
  batch =
      record { step = some (pos 1); ts = some (pos 1000); metrics = two_metrics }
      ∷ record { step = some (pos 2); ts = some (pos 2000); metrics = (codes "loss", 6) ∷ [] }
      ∷ [];
}

abbrev pub message_id : Str
message_id = codes "0a1b"

abbrev pub two_sample_message : IngestMessage ℕ
two_sample_message = record {
  schema_version = pos 1;
  message_id = message_id;
  correlation_id = message_id;
  task_id = codes "demo-1";
  batch =
      record { step = pos 1; ts = pos 1000; metrics = two_metrics }
      ∷ record { step = pos 2; ts = pos 2000; metrics = (codes "loss", 6) ∷ [] }
      ∷ [];
}

abbrev pub two_sample_delivery : Delivery (IngestMessage ℕ)
two_sample_delivery = record {
  tag = 4;
  redelivered = false;
  headers = (publishing_of two_sample_message 0 two_sample_message).headers;
  content_type = codes "application/json";
  correlation_id = two_sample_message.correlation_id;
  message_id = two_sample_message.message_id;
  body = two_sample_message;
}

pub two_sample_passes :
    validate_delivery floats plain_json str_eq two_sample_delivery ≡ ok two_sample_message
unfolding to_int32 validate_delivery str_eq decode_ingest_message
two_sample_passes = refl

pub two_sample_message_valid : IsValidMessage floats two_sample_message
two_sample_message_valid =
    validate_delivery-IsValidMessage floats plain_json str_eq two_sample_delivery
      {m = two_sample_message} two_sample_passes
