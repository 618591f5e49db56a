-- ===== src/Http/Ingest/Tests.antt =====
-- The write endpoint on small inputs, with a codec that replaces the bytes that are not ASCII.
use metrics_pipeline_go.Prelude.{ℕ, true, some, List, [], ◌∷◌, Str, ltb, if◌then◌else◌}
use metrics_pipeline_go.Domain.{Metrics}
use metrics_pipeline_go.Messaging.Message.{Json, IngestSample, IngestMessage}
use metrics_pipeline_go.Messaging.Message.Validation.{to_wire}

-- A byte that is not ASCII becomes U+FFFD.
coerced : Str → Str
coerced [] = []
coerced (c ∷ s) = let rest = coerced s in if ltb c 128 then c ∷ rest else 239 ∷ 191 ∷ 189 ∷ rest

coerced_metrics : Metrics ℕ → Metrics ℕ
unfolding coerced
coerced_metrics [] = []
coerced_metrics ((key, value) ∷ m) = (coerced key, value) ∷ coerced_metrics m

coerced_samples : List (IngestSample ℕ) → List (IngestSample ℕ)
unfolding coerced_metrics
coerced_samples [] = []
coerced_samples (s ∷ rest) =
    record { step = s.step; ts = s.ts; metrics = coerced_metrics s.metrics } ∷ coerced_samples rest

coerced_message : IngestMessage ℕ → IngestMessage ℕ
unfolding coerced_samples coerced
coerced_message m = record {
  schema_version = m.schema_version;
  message_id = coerced m.message_id;
  correlation_id = coerced m.correlation_id;
  task_id = coerced m.task_id;
  batch = coerced_samples m.batch;
}

abbrev coercing_json : Json ℕ (IngestMessage ℕ)
coercing_json = record {
  marshal = λ m. some (coerced_message m);
  decode = λ m. some (to_wire m, true);
}

abbrev random_bytes : List ℕ
random_bytes = 10 ∷ 27 ∷ 255 ∷ 0 ∷ 1 ∷ 2 ∷ 3 ∷ 4 ∷ 5 ∷ 6 ∷ 7 ∷ 8 ∷ 9 ∷ 160 ∷ 200 ∷ 128 ∷ []
