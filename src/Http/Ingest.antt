-- ===== src/Http/Ingest.antt =====
-- internal/transport/http/ingest.go and internal/service/ingest/service.go: the write endpoint.
pub mod Delivered
mod Tests
use metrics_pipeline_go.Prelude.{
  ℕ, ◌+◌, ◌≡◌, Bool, true, false, not, ◌&&◌, ◌||◌, Option, none, some, List, [], ◌∷◌, map, Str, ℤ,
  pos, ltb, leb_ℤ, ltb_ℤ, is_empty, all, length, Result, ok, err, ◌>>=◌, ◌>>◌, fail_if,
  is_alphanumeric, is_name_byte, str_eq, codes, if◌then◌else◌,
}
use metrics_pipeline_go.Domain.{Floats, Metrics, MetricSample, MetricBatch}
use metrics_pipeline_go.Http.Response.{
  Response, json, panic, write_error, invalid_params, mq_unavailable, status_bad_request,
  status_unavailable,
}

abbrev pub max_ingest_body_bytes : ℕ
max_ingest_body_bytes = 1048576

abbrev pub max_metric_batch_size : ℕ
max_metric_batch_size = 500

abbrev pub max_task_id_length : ℕ
max_task_id_length = 64

abbrev pub max_metric_key_length : ℕ
max_metric_key_length = 32

abbrev pub max_step_value : ℤ
max_step_value = pos 2147483647

abbrev pub max_timestamp_millis : ℤ
max_timestamp_millis = pos 253402300799999

-- ^[A-Za-z0-9][A-Za-z0-9._-]*$
unfoldable pub task_id_pattern : Str → Bool
task_id_pattern [] = false
task_id_pattern (c ∷ s) = is_alphanumeric c && all is_name_byte s

-- ^[A-Za-z0-9._-]+$
unfoldable pub metric_key_pattern : Str → Bool
metric_key_pattern [] = false
metric_key_pattern (c ∷ s) = all is_name_byte (c ∷ s)

-- The pointers are nil where the JSON object has no such field.
pub record MetricSampleRequest (V : Type 0) : Type 0 where
  pub step : Option ℤ
  pub ts : Option ℤ
  pub metrics : Metrics V

pub record IngestMetricsRequest (V : Type 0) : Type 0 where
  pub task_id : Str
  pub batch : List (MetricSampleRequest V)

pub data RequestError : Type 0 where
  task_id_required task_id_too_long task_id_format batch_empty batch_too_large : RequestError
  step_required step_negative step_too_large : ℕ → RequestError
  ts_required ts_not_positive ts_out_of_range : ℕ → RequestError
  metrics_required key_empty : ℕ → RequestError
  key_too_long key_format value_not_finite : ℕ → Str → RequestError
  body_undecodable body_trailing : RequestError

abbrev Check : Type 0
Check = Result RequestError (Unit {0})

module _ {V : Type 0} (floats : Floats V) where
  unfoldable pub validate_metrics : ℕ → Metrics V → Result RequestError (Unit {0})
  unfolding metric_key_pattern
  validate_metrics index [] = ok tt
  validate_metrics index ((key, value) ∷ rest) = do
    fail_if (is_empty key) (key_empty index)
    fail_if (ltb max_metric_key_length (length key)) (key_too_long index key)
    fail_if (not (metric_key_pattern key)) (key_format index key)
    fail_if (not (floats.is_finite value)) (value_not_finite index key)
    validate_metrics index rest

  abbrev pub validate_step : ℕ → Option ℤ → Result RequestError (Unit {0})
  validate_step index none = err (step_required index)
  validate_step index (some step) = do
    fail_if (ltb_ℤ step (pos 0)) (step_negative index)
    fail_if (ltb_ℤ max_step_value step) (step_too_large index)

  abbrev pub validate_ts : ℕ → Option ℤ → Result RequestError (Unit {0})
  validate_ts index none = err (ts_required index)
  validate_ts index (some ts) = do
    fail_if (leb_ℤ ts (pos 0)) (ts_not_positive index)
    fail_if (ltb_ℤ max_timestamp_millis ts) (ts_out_of_range index)

  unfoldable pub validate_sample : ℕ → MetricSampleRequest V → Result RequestError (Unit {0})
  unfolding validate_metrics
  validate_sample index s = do
    validate_step index s.step
    validate_ts index s.ts
    fail_if (is_empty s.metrics) (metrics_required index)
    validate_metrics index s.metrics

  unfoldable pub validate_samples :
      ℕ → List (MetricSampleRequest V) → Result RequestError (Unit {0})
  unfolding validate_sample
  validate_samples index [] = ok tt
  validate_samples index (s ∷ rest) = do validate_sample index s; validate_samples (index + 1) rest

  unfoldable pub validate : IngestMetricsRequest V → Result RequestError (Unit {0})
  unfolding validate_samples task_id_pattern
  validate r = do
    fail_if (is_empty r.task_id) task_id_required
    fail_if (ltb max_task_id_length (length r.task_id)) task_id_too_long
    fail_if (not (task_id_pattern r.task_id)) task_id_format
    fail_if (is_empty r.batch) batch_empty
    fail_if (ltb max_metric_batch_size (length r.batch)) batch_too_large
    validate_samples 0 r.batch

abbrev pub cons_option : {A : Type 0} → Option A → Option (List A) → Option (List A)
cons_option none r = none
cons_option (some a) none = none
cons_option (some a) (some l) = some (a ∷ l)

-- `none` is the panic of a nil dereference.
module _ {V : Type 0} where
  unfoldable pub to_metric_sample : MetricSampleRequest V → Option (MetricSample V)
  to_metric_sample s = elim s.step [
    | none ↦ none
    | some step ↦ elim s.ts [
      | none ↦ none
      | some ts ↦ some (record { step = step; timestamp_millis = ts; metrics = s.metrics })
    ]
  ]

  unfoldable pub to_metric_samples : List (MetricSampleRequest V) → Option (List (MetricSample V))
  unfolding to_metric_sample
  to_metric_samples [] = some []
  to_metric_samples (s ∷ rest) = cons_option (to_metric_sample s) (to_metric_samples rest)

  unfoldable pub to_metric_batch : IngestMetricsRequest V → Option (MetricBatch V)
  unfolding to_metric_samples
  to_metric_batch r = elim (to_metric_samples r.batch) [
    | none ↦ none
    | some samples ↦ some (record { task_id = r.task_id; samples = samples })
  ]

-- Service.IngestMetricBatch: without a publisher a batch is accepted and dropped.
unfoldable pub ingest_metric_batch : {B E : Type 0} → Option (B → Option E) → B → Option E
ingest_metric_batch none batch = none
ingest_metric_batch (some publish) batch = publish batch

pub record Accepted : Type 0 where
  pub accepted : ℕ
  pub task_id : Str

-- What the handler takes from mime.ParseMediaType and from the JSON decoder behind a reader of at
-- most so many bytes: the request, and whether a second Decode reports io.EOF.
pub record Decoders (V Body : Type 0) : Type 0 where
  pub parse_media_type : Str → Option Str
  pub decode : ℕ → Body → Option (IngestMetricsRequest V × Bool)

module _ {V Body : Type 0} (decoders : Decoders V Body) where
  unfoldable pub has_json_content_type : Str → Bool
  has_json_content_type header = elim (decoders.parse_media_type header) [
    | none ↦ false
    | some media_type ↦ str_eq media_type (codes "application/json")
  ]

  unfoldable pub decode_ingest_metrics_request : Body → Result RequestError (IngestMetricsRequest V)
  decode_ingest_metrics_request body = elim (decoders.decode max_ingest_body_bytes body) [
    | none ↦ err body_undecodable
    | some (request, at_eof) ↦ if at_eof then ok request else err body_trailing
  ]

module _ {V E : Type 0} where
  abbrev pub answer : IngestMetricsRequest V → Option E → Response Accepted
  answer request none = json (record { accepted = length request.batch; task_id = request.task_id })
  answer request (some e) =
      write_error status_unavailable mq_unavailable (codes "message queue unavailable")

  abbrev pub submit : Option (MetricBatch V → Option E) → IngestMetricsRequest V → Response Accepted
  submit publisher request = elim (to_metric_batch request) [
    | none ↦ panic
    | some batch ↦ answer request (ingest_metric_batch publisher batch)
  ]

  abbrev pub validated :
      Floats V → Option (MetricBatch V → Option E) → IngestMetricsRequest V → Response Accepted
  validated floats publisher request = elim (validate floats request) [
    | err e ↦ write_error status_bad_request invalid_params (codes "invalid metric batch")
    | ok u ↦ submit publisher request
  ]

  unfoldable pub ingest_metrics :
      {Body : Type 0}
      → Floats V
      → Decoders V Body
      → Option (MetricBatch V → Option E)
      → Str
      → Body
      → Response Accepted
  unfolding has_json_content_type decode_ingest_metrics_request validate to_metric_batch
      ingest_metric_batch write_error
  ingest_metrics floats decoders publisher content_type body =
      if not (has_json_content_type decoders content_type)
      then write_error status_bad_request invalid_params
          (codes "content type must be application/json")
      else elim (decode_ingest_metrics_request decoders body) [
        | err e ↦ write_error status_bad_request invalid_params (codes "invalid request body")
        | ok request ↦ validated floats publisher request
      ]
