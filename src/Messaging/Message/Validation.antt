-- ===== src/Messaging/Message/Validation.antt =====
-- What the worker's validation of a message lets through, and the wire form of a message.
use metrics_pipeline_go.Prelude.{
  ℕ, suc, ◌+◌, ◌≤◌, ◌≡◌, refl, ap, Bool, true, false, ◌&&◌, inl, inr, some, List, [], ◌∷◌, map, pos,
  negsuc, ℤ, leb_ℤ, is_ascii, ◌≤ℤ◌, ◌<ℤ◌, is_empty, is_empty-length, all, All, length, ok,
  >>=-eq-ok, arith, Result-cases,
}
use metrics_pipeline_go.Domain.{Floats, Metrics, is_map}
use metrics_pipeline_go.Messaging.Message.{
  IngestSample, IngestMessage, IngestSampleWire, IngestMessageWire, Json, max_step_value,
  max_timestamp_millis, max_ingest_batch_size, max_task_id_length, check_metrics, check_sample,
  check_samples, check_message,
}

-- The value fits Go's int64.
abbrev pub is_int64 : ℤ → Bool
is_int64 v = leb_ℤ (negsuc 9223372036854775807) v && leb_ℤ v (pos 9223372036854775807)

module _ {V : Type 0} where
  abbrev pub sample_wire : IngestSample V → IngestSampleWire V
  sample_wire s = record { step = some s.step; ts = some s.ts; metrics = s.metrics }

  -- What a decoder reads back from the JSON of a message.
  abbrev pub to_wire : IngestMessage V → IngestMessageWire V
  to_wire m = record {
    schema_version = some m.schema_version;
    message_id = m.message_id;
    correlation_id = m.correlation_id;
    task_id = m.task_id;
    batch = map sample_wire m.batch;
  }

  -- json.Marshal refuses values that are not finite, and a list of entries with a key twice is no map.
  abbrev pub are_encodable_metrics : Floats V → Metrics V → Bool
  are_encodable_metrics floats m = all (λ e. floats.is_finite e.1 && is_ascii e.0) m && is_map m

  abbrev pub is_encodable_sample : Floats V → IngestSample V → Bool
  is_encodable_sample floats s =
      is_int64 s.step && is_int64 s.ts && are_encodable_metrics floats s.metrics

  -- A message whose values all have a JSON that says the same: the texts are ASCII, since
  -- encoding/json replaces bytes that are not UTF-8, and the numbers fit their Go types.
  abbrev pub is_encodable : Floats V → IngestMessage V → Bool
  is_encodable floats m =
      is_int64 m.schema_version
      && is_ascii m.message_id
      && is_ascii m.correlation_id
      && is_ascii m.task_id
      && all (is_encodable_sample floats) m.batch

  -- encoding/json reads back what it wrote of such a message, as one JSON value.
  abbrev pub RoundTrips : {Body : Type 0} → Floats V → Json V Body → Type 0
  RoundTrips {Body} floats json =
      (m : IngestMessage V)
      → is_encodable floats m ≡ true
      → (body : Body) × (json.marshal m ≡ some body) × (json.decode body ≡ some (to_wire m, true))

module _ {V : Type 0} (floats : Floats V) where
  -- The bounds that every sample of a decoded message satisfies.
  abbrev pub IsSampleInRange : IngestSample V → Type 0
  IsSampleInRange s =
      (pos 0 ≤ℤ s.step)
      × (s.step ≤ℤ max_step_value)
      × (pos 0 <ℤ s.ts)
      × (s.ts ≤ℤ max_timestamp_millis)
      × (is_empty s.metrics ≡ false)
      × (all (λ e. floats.is_finite e.1) s.metrics ≡ true)

  check_metrics_lem :
      (index : ℕ) (m : Metrics V) {r : Metrics V}
      → check_metrics floats index m ≡ ok r
      → (r ≡ m) × (all (λ e. floats.is_finite e.1) m ≡ true)
  unfolding check_metrics
  check_metrics_lem index [] h = (ground arith, refl)
  check_metrics_lem index ((key, value) ∷ rest) h =
      elim (Result-cases (check_metrics floats index rest)) [
        | inl (t, e) ↦ ground (arith, e, check_metrics_lem index rest {r = t} e)
        | inr (x, e) ↦ ground (arith, e)
      ]

  pub check_sample-IsSampleInRange :
      (index : ℕ) (s : IngestSampleWire V) {r : IngestSample V}
      → check_sample floats index s ≡ ok r
      → IsSampleInRange r
  unfolding check_sample
  check_sample-IsSampleInRange index s {r} h =
      elim (Result-cases (check_metrics floats index s.metrics)) [
        | inl (m, e) ↦ ground (arith, e, check_metrics_lem index s.metrics {r = m} e)
        | inr (x, e) ↦ ground (arith, e)
      ]

  pub check_samples-All :
      (index : ℕ) (l : List (IngestSampleWire V)) {r : List (IngestSample V)}
      → check_samples floats index l ≡ ok r
      → All IsSampleInRange r × (length r ≡ length l)
  unfolding check_samples
  check_samples-All index [] {r} h = let e : r ≡ [] = ground arith in rw e (tt, refl)
  check_samples-All index (s ∷ rest) {r} h =
      let (a, ea, h') = >>=-eq-ok (check_sample floats index s) _ h in
      let (t, et, h'') = >>=-eq-ok (check_samples floats (index + 1) rest) _ h' in
      let e : r ≡ a ∷ t = ground arith in
      let tail = check_samples-All (index + 1) rest {r = t} et in
      rw e ((check_sample-IsSampleInRange index s {r = a} ea, tail.0), ap suc tail.1)

  -- The facts that hold of every message which the decoder accepts.
  pub record IsValidMessage (m : IngestMessage V) : Type 0 where
    pub batch_not_empty : is_empty m.batch ≡ false
    pub batch_bounded : length m.batch ≤ max_ingest_batch_size
    pub samples_in_range : All IsSampleInRange m.batch
    pub message_id_set : is_empty m.message_id ≡ false
    pub task_id_bounded : length m.task_id ≤ max_task_id_length

  pub check_message-IsValidMessage :
      (w : IngestMessageWire V) {m : IngestMessage V}
      → check_message floats w ≡ ok m
      → IsValidMessage m
  unfolding check_message
  check_message-IsValidMessage w {m} h = elim (Result-cases (check_samples floats 0 w.batch)) [
    | inl (batch, e) ↦
        let same : m.batch ≡ batch = ground (arith, e) in
        let samples = check_samples-All 0 w.batch {r = batch} e in
        let size : length m.batch ≡ length w.batch = rw same samples.1 in
        record {
          batch_not_empty =
              ground (arith, e, size, is_empty-length m.batch, is_empty-length w.batch);
          batch_bounded = ground (arith, e, size);
          samples_in_range = rw same samples.0;
          message_id_set = ground (arith, e);
          task_id_bounded = ground (arith, e);
        }
    | inr (x, e) ↦ ground (arith, e)
  ]
