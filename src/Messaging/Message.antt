-- ===== src/Messaging/Message.antt =====
-- internal/messaging/message.go: the message between the API and the worker. The JSON codec of the
-- standard library is a parameter, since the code uses it on whole values only.
pub mod Entries
pub mod Expand
pub mod Validation
use metrics_pipeline_go.Prelude.{
  to_int32, ℕ, ◌+◌, ◌≡◌, Bool, true, false, not, ◌&&◌, ◌||◌, Option, none, some, List, [], ◌∷◌,
  ◌++◌, map, Str, ℤ, pos, ltb, leb_ℤ, ltb_ℤ, eqb_ℤ, leb, is_empty, all, length, Result, ok, err,
  ◌>>=◌, ◌>>◌, fail_if, is_alphanumeric, is_name_byte, hex_of, sort_strings, str_eq, codes,
  if◌then◌else◌,
}
use metrics_pipeline_go.Domain.{
  Floats, Metrics, MetricSample, MetricBatch, MetricPoint, keys_of, is_map,
}

abbrev pub ingest_schema_version : ℤ
ingest_schema_version = pos 1

abbrev pub max_ingest_batch_size : ℕ
max_ingest_batch_size = 500

abbrev pub max_task_id_length : ℕ
max_task_id_length = 64

abbrev pub max_metric_key_length : ℕ
max_metric_key_length = 32

abbrev pub max_step_value : ℤ
max_step_value = pos 2147483647

abbrev pub max_timestamp_millis : ℤ
max_timestamp_millis = pos 253402300799999

-- ^[A-Za-z0-9][A-Za-z0-9._-]*$
unfoldable pub task_id_pattern : Str → Bool
task_id_pattern [] = false
task_id_pattern (c ∷ s) = is_alphanumeric c && all is_name_byte s

-- ^[A-Za-z0-9._-]+$
unfoldable pub metric_key_pattern : Str → Bool
metric_key_pattern [] = false
metric_key_pattern (c ∷ s) = all is_name_byte (c ∷ s)

pub record IngestSample (V : Type 0) : Type 0 where
  pub step : ℤ
  pub ts : ℤ
  pub metrics : Metrics V

pub record IngestMessage (V : Type 0) : Type 0 where
  pub schema_version : ℤ
  pub message_id : Str
  pub correlation_id : Str
  pub task_id : Str
  pub batch : List (IngestSample V)

pub record IngestSampleWire (V : Type 0) : Type 0 where
  pub step : Option ℤ
  pub ts : Option ℤ
  pub metrics : Metrics V

pub record IngestMessageWire (V : Type 0) : Type 0 where
  pub schema_version : Option ℤ
  pub message_id : Str
  pub correlation_id : Str
  pub task_id : Str
  pub batch : List (IngestSampleWire V)

pub data MessageError : Type 0 where
  generate_failed marshal_failed decode_failed extra_json : MessageError
  schema_version_missing message_id_missing correlation_id_missing : MessageError
  task_id_invalid batch_size_invalid : MessageError
  schema_version_unsupported : ℤ → MessageError
  step_invalid ts_invalid metrics_empty : ℕ → MessageError
  key_invalid value_not_finite : ℕ → Str → MessageError

-- encoding/json: `marshal` fails on a value that is not finite; `decode` is the strict decoder,
-- with the answer to whether a second Decode reports io.EOF.
pub record Json (V Body : Type 0) : Type 0 where
  pub marshal : IngestMessage V → Option Body
  pub decode : Body → Option (IngestMessageWire V × Bool)

-- The random bytes are what rand.Read fills the array of 16 with; `none` is its error.
unfoldable pub generate_message_id : Option (List ℕ) → Option Str
unfolding hex_of
generate_message_id none = none
generate_message_id (some bytes) = some (hex_of bytes)

module _ {V : Type 0} where
  -- The maps are values here, so the copy that the source makes of each is the map itself.
  unfoldable pub to_ingest_sample : MetricSample V → IngestSample V
  to_ingest_sample s = record { step = s.step; ts = s.timestamp_millis; metrics = s.metrics }

  -- `generated` is what the id generator returns.
  unfoldable pub new_ingest_message :
      MetricBatch V → Option Str → Result MessageError (IngestMessage V)
  unfolding to_ingest_sample
  new_ingest_message b none = err generate_failed
  new_ingest_message b (some id) = ok (record {
    schema_version = ingest_schema_version;
    message_id = id;
    correlation_id = id;
    task_id = b.task_id;
    batch = map to_ingest_sample b.samples;
  })

-- A value of an AMQP table: the integer types that the code tells apart, text, or another type.
pub data HeaderValue : Type 0 where
  int8 int16 int32 int64 int : ℤ → HeaderValue
  text : Str → HeaderValue
  other : HeaderValue

-- The fields of amqp.Publishing and amqp.Delivery that the code sets or reads. `none` is a header
-- that is not there.
pub record Headers : Type 0 where
  pub schema_version : Option HeaderValue
  pub message_id : Option HeaderValue
  pub correlation_id : Option HeaderValue

pub record Publishing (Body : Type 0) : Type 0 where
  pub headers : Headers
  pub content_type : Str
  pub persistent : Bool
  pub priority : ℕ
  pub correlation_id : Str
  pub message_id : Str
  pub timestamp : ℕ
  pub body : Body

-- The amqp.Publishing of a message whose JSON is `body`.
abbrev pub publishing_of : {V Body : Type 0} → IngestMessage V → ℕ → Body → Publishing Body
publishing_of m now body = record {
  headers = record {
    schema_version = some (int32 (to_int32 m.schema_version));
    message_id = some (text m.message_id);
    correlation_id = some (text m.correlation_id);
  };
  content_type = codes "application/json";
  persistent = true;
  priority = 0;
  correlation_id = m.correlation_id;
  message_id = m.message_id;
  timestamp = now;
  body = body;
}

unfoldable pub marshal_ingest_publishing :
    {V Body : Type 0} → Json V Body → IngestMessage V → ℕ → Result MessageError (Publishing Body)
marshal_ingest_publishing json m now = elim (json.marshal m) [
  | none ↦ err marshal_failed
  | some body ↦ ok (publishing_of m now body)
]

module _ {V : Type 0} (floats : Floats V) where
  -- The inner loop of DecodeIngestMessage, over the entries of one sample's map.
  unfoldable pub check_metrics : ℕ → Metrics V → Result MessageError (Metrics V)
  unfolding metric_key_pattern
  check_metrics index [] = ok []
  check_metrics index ((key, value) ∷ rest) = do
    fail_if (is_empty key || ltb max_metric_key_length (length key) || not (metric_key_pattern key))
        (key_invalid index key)
    fail_if (not (floats.is_finite value)) (value_not_finite index key)
    tail ← check_metrics index rest
    ok ((key, value) ∷ tail)

  -- `p == nil || *p < low || *p > high`, and the value behind the pointer.
  abbrev pub in_range : Option ℤ → ℤ → ℤ → MessageError → Result MessageError ℤ
  in_range none low high e = err e
  in_range (some v) low high e = if ltb_ℤ v low || ltb_ℤ high v then err e else ok v

  unfoldable pub check_sample : ℕ → IngestSampleWire V → Result MessageError (IngestSample V)
  unfolding check_metrics
  check_sample index s = do
    step ← in_range s.step (pos 0) max_step_value (step_invalid index)
    ts ← in_range s.ts (pos 1) max_timestamp_millis (ts_invalid index)
    fail_if (is_empty s.metrics) (metrics_empty index)
    metrics ← check_metrics index s.metrics
    ok (record { step = step; ts = ts; metrics = metrics })

  unfoldable pub check_samples :
      ℕ → List (IngestSampleWire V) → Result MessageError (List (IngestSample V))
  unfolding check_sample
  check_samples index [] = ok []
  check_samples index (s ∷ rest) = do
    sample ← check_sample index s
    tail ← check_samples (index + 1) rest
    ok (sample ∷ tail)

  abbrev pub check_schema_version : Option ℤ → Result MessageError ℤ
  check_schema_version none = err schema_version_missing
  check_schema_version (some v) =
      if eqb_ℤ v ingest_schema_version then ok v else err (schema_version_unsupported v)

  -- DecodeIngestMessage after the two calls of Decode.
  unfoldable pub check_message : IngestMessageWire V → Result MessageError (IngestMessage V)
  unfolding check_samples task_id_pattern
  check_message w = do
    version ← check_schema_version w.schema_version
    fail_if (is_empty w.message_id) message_id_missing
    fail_if (is_empty w.correlation_id) correlation_id_missing
    fail_if
        (is_empty w.task_id
          || ltb max_task_id_length (length w.task_id)
          || not (task_id_pattern w.task_id))
        task_id_invalid
    fail_if (is_empty w.batch || ltb max_ingest_batch_size (length w.batch)) batch_size_invalid
    batch ← check_samples 0 w.batch
    ok (record {
      schema_version = version;
      message_id = w.message_id;
      correlation_id = w.correlation_id;
      task_id = w.task_id;
      batch = batch;
    })

  unfoldable pub decode_ingest_message :
      {Body : Type 0} → Json V Body → Body → Result MessageError (IngestMessage V)
  unfolding check_message
  decode_ingest_message json body = elim (json.decode body) [
    | none ↦ err decode_failed
    | some (w, at_eof) ↦ if at_eof then check_message w else err extra_json
  ]

  -- `m[key]`: the zero value stands for a missing key.
  unfoldable pub metric_at : Metrics V → Str → V
  metric_at [] key = floats.zero_value
  metric_at ((k, v) ∷ m) key = if str_eq k key then v else metric_at m key

  unfoldable pub point_of : Str → IngestSample V → Str → MetricPoint V
  unfolding metric_at
  point_of task_id s key = record {
    task_id = task_id;
    key = key;
    step = s.step;
    timestamp_millis = s.ts;
    value = metric_at s.metrics key;
  }

  unfoldable pub expand_samples : Str → List (IngestSample V) → List (MetricPoint V)
  unfolding point_of sort_strings
  expand_samples task_id [] = []
  expand_samples task_id (s ∷ rest) =
      map (point_of task_id s) (sort_strings (keys_of s.metrics)) ++ expand_samples task_id rest

  unfoldable pub expand_metric_points : IngestMessage V → List (MetricPoint V)
  unfolding expand_samples
  expand_metric_points m = expand_samples m.task_id m.batch
