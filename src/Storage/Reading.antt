-- ===== src/Storage/Reading.antt =====
-- internal/storage/postgres/metric_point_store.go: QueryEvents, QuerySummary and QueryHistory, which read the rows of a
-- statement, and the arguments of the history's statement.
--
-- A statement answers with its rows, `none` for a row that Scan refuses, and the failure of rows.Err; or it fails.
-- The columns of a row that stand for a point are null together.
pub mod Passed
mod Tests
use metrics_pipeline_go.Prelude.{
  to_int32, ℕ, ◌≡◌, Bool, true, false, not, ◌&&◌, ◌||◌, Option, none, some, List, [], ◌∷◌, ◌++◌,
  is_empty, Str, str_eq, ltb_ℤ, leb_ℤ, ℤ, pos, ◌-ℤ◌, Result, ok, err, ◌>>=◌, ◌>>◌, fail_if,
  if◌then◌else◌,
}
use metrics_pipeline_go.Domain.{RealtimeEvent}
use metrics_pipeline_go.Http.History.{HistoryQuery}
use metrics_pipeline_go.Http.History.Series.{HistoryPoint, HistoryResult}

pub data ReadError : Type 0 where
  max_points_invalid query_failed scan_refused rows_failed : ReadError

pub record Rows (R : Type 0) : Type 0 where
  pub scanned : List (Option R)
  pub broken : Bool

-- The loop over the rows, with what it has gathered.
unfoldable pub read_rows {ℓ} :
    {R : Type 0} {A : Type ℓ} → (A → R → A) → A → List (Option R) → Bool → Result ReadError A
read_rows step gathered [] broken = if broken then err rows_failed else ok gathered
read_rows step gathered (none ∷ rows) broken = err scan_refused
read_rows step gathered (some row ∷ rows) broken = read_rows step (step gathered row) rows broken

unfoldable pub run_query {ℓ} :
    {R : Type 0} {A : Type ℓ} → (A → R → A) → A → Option (Rows R) → Result ReadError A
unfolding read_rows
run_query step start none = err query_failed
run_query step start (some rows) = read_rows step start rows.scanned rows.broken

-- QueryEvents: the rows have the number and the payload of an event.
unfoldable pub query_events :
    {P : Type 0}
    → (Str → ℤ → Option (Rows (ℤ × P)))
    → Str
    → ℤ
    → Result ReadError (List (RealtimeEvent P))
unfolding run_query
query_events statement task_id after =
    run_query
      (λ events row.
        events ++ record { task_id = task_id; event_seq = row.0; payload = row.1 } ∷ [])
      [] (statement task_id after)

pub record SummaryMetric (V : Type 0) : Type 0 where
  pub last : V
  pub min : V
  pub max : V
  pub avg : V

pub record SummaryResult (V : Type 0) : Type 0 where
  pub exists : Bool
  pub last_step : ℤ
  pub updated_at : ℤ
  pub metrics : List (Str × SummaryMetric V)

pub record SummaryRow (V : Type 0) : Type 0 where
  pub exists : Bool
  pub last_step : Option ℤ
  pub updated_at : Option ℤ
  pub metric : Option (Str × SummaryMetric V)

pub record HistoryRow (V : Type 0) : Type 0 where
  pub exists : Bool
  pub bucket : Option ℤ
  pub point : Option (HistoryPoint V)

abbrev pub value_or : Option ℤ → ℤ → ℤ
value_or none old = old
value_or (some new) old = new

-- `Metrics[key] = metric`.
unfoldable pub set_metric :
    {V : Type 0}
    → Str
    → SummaryMetric V
    → List (Str × SummaryMetric V)
    → List (Str × SummaryMetric V)
unfolding str_eq
set_metric key metric [] = (key, metric) ∷ []
set_metric key metric ((k, m) ∷ metrics) =
    let rest = set_metric key metric metrics in
    if str_eq k key then (k, metric) ∷ metrics else (k, m) ∷ rest

abbrev pub cutoff_at : ℤ → ℤ
unfolding ◌-ℤ◌
cutoff_at now = now -ℤ pos 604800000

module _ {V : Type 0} where
  abbrev pub metrics_with :
      List (Str × SummaryMetric V) → Option (Str × SummaryMetric V) → List (Str × SummaryMetric V)
  unfolding set_metric
  metrics_with metrics none = metrics
  metrics_with metrics (some (key, metric)) = set_metric key metric metrics

  abbrev pub add_summary_row : SummaryResult V → SummaryRow V → SummaryResult V
  unfolding metrics_with
  add_summary_row result row = record {
    exists = row.exists;
    last_step = value_or row.last_step result.last_step;
    updated_at = value_or row.updated_at result.updated_at;
    metrics = metrics_with result.metrics row.metric;
  }

  -- QuerySummary.
  unfoldable pub query_summary :
      ℤ → (Str → ℤ → Option (Rows (SummaryRow V))) → Str → Result ReadError (SummaryResult V)
  unfolding run_query add_summary_row cutoff_at
  query_summary now statement task_id =
      run_query add_summary_row
        (record { exists = false; last_step = pos 0; updated_at = pos 0; metrics = [] })
        (statement task_id (cutoff_at now))

  abbrev pub points_with : List (HistoryPoint V) → Option (HistoryPoint V) → List (HistoryPoint V)
  points_with points none = points
  points_with points (some point) = points ++ point ∷ []

  abbrev pub add_history_row : HistoryResult V → HistoryRow V → HistoryResult V
  add_history_row result row = record {
    exists = row.exists;
    downsampled = result.downsampled;
    bucket_ms = value_or row.bucket result.bucket_ms;
    points = points_with result.points row.point;
  }

-- The arguments of the statement: a null for an optional one that is not there.
pub record HistoryArgs : Type 0 where
  pub task_id : Str
  pub cutoff : ℤ
  pub keys : Option (List Str)
  pub from : Option ℤ
  pub to : Option ℤ
  pub step_from : Option ℤ
  pub step_to : Option ℤ
  pub max_points : ℤ

abbrev pub nullable_strings : List Str → Option (List Str)
nullable_strings [] = none
nullable_strings (key ∷ keys) = some (key ∷ keys)

abbrev pub nullable_step : Option ℤ → Option ℤ
unfolding to_int32
nullable_step none = none
nullable_step (some step) = some (to_int32 step)

abbrev pub history_args : ℤ → HistoryQuery → HistoryArgs
unfolding nullable_step cutoff_at
history_args now query = record {
  task_id = query.task_id;
  cutoff = cutoff_at now;
  keys = nullable_strings query.keys;
  from = query.from;
  to = query.to;
  step_from = nullable_step query.step_from;
  step_to = nullable_step query.step_to;
  max_points = query.max_points;
}

module _ {V : Type 0} where
  abbrev pub set_downsampled : HistoryResult V → HistoryResult V
  set_downsampled result = record {
    exists = result.exists;
    downsampled = ltb_ℤ (pos 0) result.bucket_ms;
    bucket_ms = result.bucket_ms;
    points = result.points;
  }

  -- QueryHistory.
  unfoldable pub query_stored_history :
      ℤ
      → (HistoryArgs → Option (Rows (HistoryRow V)))
      → HistoryQuery
      → Result ReadError (HistoryResult V)
  unfolding run_query add_history_row history_args
  query_stored_history now statement query = do
    fail_if (ltb_ℤ query.max_points (pos 1) || ltb_ℤ (pos 5000) query.max_points) max_points_invalid
    result ←
        run_query add_history_row
          (record { exists = false; downsampled = false; bucket_ms = pos 0; points = [] })
          (statement (history_args now query))
    ok (set_downsampled result)
