-- ===== src/Http/History/Tests.antt =====
-- A query for two keys, one of them twice, and the grouping of three points.
use metrics_pipeline_go.Prelude.{
  ℕ, ◌≡◌, refl, none, some, List, [], ◌∷◌, map, Str, codes, str_eq, ℤ, pos, ok, if◌then◌else◌,
}
use metrics_pipeline_go.Http.History.{HistoryQuery, HistoryRequest, parse_history_query}
use metrics_pipeline_go.Http.History.Accepted.{IsAccepted, parse_history_query-IsAccepted}
use metrics_pipeline_go.Http.History.Series.{
  HistoryPoint, series_at, group_points, convert_point, convert_series,
}
use metrics_pipeline_go.Http.History.Series.Grouping.{points_with, grouped_series}

abbrev request : HistoryRequest
request = record {
  task_id = codes "demo-1";
  get_query = λ name. if str_eq name (codes "keys") then some (codes "loss,lr,loss") else none;
  parse_int = λ s. none;
  atoi = λ s. none;
  trim_space = λ s. s;
}

abbrev query : HistoryQuery
query = record {
  task_id = codes "demo-1";
  keys = codes "loss" ∷ codes "lr" ∷ [];
  from = none;
  to = none;
  step_from = none;
  step_to = none;
  max_points = pos 500;
}

parses : parse_history_query request ≡ ok query
unfolding parse_history_query str_eq
parses = refl

parse_history_query-IsAccepted_example : IsAccepted request query
parse_history_query-IsAccepted_example = parse_history_query-IsAccepted request {q = query} parses

abbrev point : Str → ℤ → HistoryPoint ℕ
point key step = record { key = key; step = step; ts = pos 1000; v = 4; min = 4; max = 4 }

abbrev three_points : List (HistoryPoint ℕ)
three_points =
    point (codes "loss") (pos 1) ∷ point (codes "lr") (pos 1) ∷ point (codes "loss") (pos 2) ∷ []

grouped_series_example :
    series_at (convert_series (group_points three_points [])) (codes "loss")
    ≡ map convert_point (points_with (codes "loss") three_points)
grouped_series_example = grouped_series (codes "loss") three_points
