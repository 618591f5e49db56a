-- ===== src/Storage/Reading/Tests.antt =====
-- A query with bounds of steps, and two rows of a statement.
use metrics_pipeline_go.Prelude.{
  ℕ, ◌≡◌, refl, true, false, Option, none, some, [], ◌∷◌, codes, str_eq, ℤ, pos, ok, if◌then◌else◌,
}
use metrics_pipeline_go.Http.History.{HistoryQuery, HistoryRequest, parse_history_query}
use metrics_pipeline_go.Http.History.Series.{HistoryPoint, HistoryResult}
use metrics_pipeline_go.Storage.Reading.{Rows, HistoryRow, HistoryArgs, query_stored_history}
use metrics_pipeline_go.Storage.Reading.Passed.{IsRead, query_stored_history_lem}

abbrev request : HistoryRequest
request = record {
  task_id = codes "demo-1";
  get_query = λ name. if str_eq name (codes "step_from") then some (codes "3") else none;
  parse_int = λ s. some (pos 3);
  atoi = λ s. none;
  trim_space = λ s. s;
}

abbrev query : HistoryQuery
query = record {
  task_id = codes "demo-1";
  keys = [];
  from = none;
  to = none;
  step_from = some (pos 3);
  step_to = none;
  max_points = pos 500;
}

parses : parse_history_query request ≡ ok query
unfolding parse_history_query str_eq
parses = refl

abbrev point : ℤ → HistoryPoint ℕ
point step = record { key = codes "loss"; step = step; ts = pos 1000; v = 4; min = 4; max = 4 }

abbrev statement : HistoryArgs → Option (Rows (HistoryRow ℕ))
statement args = some (record {
  scanned =
      some (record { exists = true; bucket = some (pos 60); point = some (point (pos 3)) })
      ∷ some (record { exists = true; bucket = some (pos 60); point = some (point (pos 4)) })
      ∷ [];
  broken = false;
})

abbrev result : HistoryResult ℕ
result = record {
  exists = true;
  downsampled = true;
  bucket_ms = pos 60;
  points = point (pos 3) ∷ point (pos 4) ∷ [];
}

reads : query_stored_history (pos 0) statement query ≡ ok result
unfolding query_stored_history
reads = refl

query_stored_history_lem_example : IsRead (pos 0) statement query result
query_stored_history_lem_example =
    query_stored_history_lem request {q = query} (pos 0) statement {result = result} parses reads
