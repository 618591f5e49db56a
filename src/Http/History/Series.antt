-- ===== src/Http/History/Series.antt =====
-- internal/transport/http/history.go and internal/service/history: the query handler and its
-- grouping of the points by key. A map of series is the list of its entries.
pub mod Grouping
use metrics_pipeline_go.Prelude.{
  ℕ, Bool, true, false, Option, none, some, List, [], ◌∷◌, ◌++◌, map, Str, codes, str_eq, ℤ, Result,
  ok, err, if◌then◌else◌,
}
use metrics_pipeline_go.Http.Response.{
  Response, json, write_error, status_bad_request, status_internal, status_not_found,
  invalid_params, internal_error, task_not_found,
}
use metrics_pipeline_go.Http.History.{
  HistoryQuery, HistoryRequest, HistoryError, parse_history_query, message_of,
}

pub record HistoryPoint (V : Type 0) : Type 0 where
  pub key : Str
  pub step : ℤ
  pub ts : ℤ
  pub v : V
  pub min : V
  pub max : V

pub record HistoryResult (V : Type 0) : Type 0 where
  pub exists : Bool
  pub downsampled : Bool
  pub bucket_ms : ℤ
  pub points : List (HistoryPoint V)

pub record ResponsePoint (V : Type 0) : Type 0 where
  pub step : ℤ
  pub ts : ℤ
  pub v : V
  pub min : V
  pub max : V

abbrev pub Series : Type 0 → Type 0
Series A = List (Str × List A)

pub record HistoryResponse (V : Type 0) : Type 0 where
  pub task_id : Str
  pub downsampled : Bool
  pub bucket_ms : ℤ
  pub series : Series (ResponsePoint V)

-- `append(series[key], point)` stored at the key.
unfoldable pub add_point : {A : Type 0} → Str → A → Series A → Series A
unfolding str_eq
add_point key a [] = (key, a ∷ []) ∷ []
add_point key a ((k, l) ∷ series) =
    let rest = add_point key a series in
    if str_eq key k then (k, l ++ a ∷ []) ∷ series else (k, l) ∷ rest

-- `series[key]`, which is empty for a key that is not there.
unfoldable pub series_at : {A : Type 0} → Series A → Str → List A
unfolding str_eq
series_at [] key = []
series_at ((k, l) ∷ series) key = if str_eq key k then l else series_at series key

module _ {V : Type 0} where
  unfoldable pub group_points :
      List (HistoryPoint V) → Series (HistoryPoint V) → Series (HistoryPoint V)
  unfolding add_point
  group_points [] series = series
  group_points (p ∷ points) series = group_points points (add_point p.key p series)

  unfoldable pub convert_point : HistoryPoint V → ResponsePoint V
  convert_point p = record { step = p.step; ts = p.ts; v = p.v; min = p.min; max = p.max }

  unfoldable pub convert_series : Series (HistoryPoint V) → Series (ResponsePoint V)
  unfolding convert_point
  convert_series series = map (λ e. (e.0, map convert_point e.1)) series

  -- Service.Query with or without a repository; `none` is an error.
  unfoldable pub query_history :
      Option (HistoryQuery → Option (HistoryResult V)) → HistoryQuery → Option (HistoryResult V)
  query_history none query = none
  query_history (some repository) query = repository query

  abbrev pub found : HistoryQuery → HistoryResult V → Response (HistoryResponse V)
  found query result =
      if result.exists
      then json (record {
        task_id = query.task_id;
        downsampled = result.downsampled;
        bucket_ms = result.bucket_ms;
        series = convert_series (group_points result.points []);
      })
      else write_error status_not_found task_not_found (codes "task not found")

  -- QueryMetrics.
  unfoldable pub query_metrics :
      Option (HistoryQuery → Option (HistoryResult V))
      → HistoryRequest
      → Response (HistoryResponse V)
  unfolding parse_history_query query_history group_points convert_series write_error
  query_metrics repository request = elim (parse_history_query request) [
    | err e ↦ write_error status_bad_request invalid_params (message_of e)
    | ok query ↦ elim (query_history repository query) [
      | none ↦ write_error status_internal internal_error (codes "internal server error")
      | some result ↦ found query result
    ]
  ]
