-- ===== src/Http/History.antt =====
-- internal/transport/http/history.go: the query of a task's history, parsed from the request.
pub mod Fields
pub mod Accepted
pub mod Series
mod Tests
use metrics_pipeline_go.Prelude.{
  ℕ, suc, ◌+◌, ◌==◌, Bool, true, false, not, ◌&&◌, ◌||◌, Option, none, some, List, [], ◌∷◌, ◌++◌,
  Str, codes, contains, is_empty, length, ltb, ℤ, pos, leb_ℤ, ltb_ℤ, Result, ok, err, ◌>>=◌, ◌>>◌,
  fail_if, if◌then◌else◌,
}
use metrics_pipeline_go.Http.Response.{
  Response, json, write_error, status_bad_request, status_internal, status_not_found,
  invalid_params, internal_error, task_not_found,
}
use metrics_pipeline_go.Http.Ingest.{
  task_id_pattern, metric_key_pattern, max_task_id_length, max_metric_key_length,
  max_timestamp_millis, max_step_value,
}

pub data HistoryError : Type 0 where
  task_id_invalid keys_invalid keys_empty range_not_positive range_not_ordered steps_not_ordered
        max_points_invalid :
      HistoryError
  not_an_integer step_unsupported : Str → HistoryError

pub record HistoryQuery : Type 0 where
  pub task_id : Str
  pub keys : List Str
  pub from : Option ℤ
  pub to : Option ℤ
  pub step_from : Option ℤ
  pub step_to : Option ℤ
  pub max_points : ℤ

-- The request with what the code takes from the standard library: GetQuery, ParseInt, Atoi and TrimSpace.
pub record HistoryRequest : Type 0 where
  pub task_id : Str
  pub get_query : Str → Option Str
  pub parse_int : Str → Option ℤ
  pub atoi : Str → Option ℤ
  pub trim_space : Str → Str

abbrev comma : ℕ
comma = 44

-- strings.Split at the commas.
unfoldable pub split_comma : Str → List Str
split_comma [] = [] ∷ []
split_comma (c ∷ s) = elim (split_comma s) [
  | [] ↦ if c == comma then [] ∷ [] else (c ∷ []) ∷ []
  | part ∷ parts ↦ if c == comma then [] ∷ part ∷ parts else (c ∷ part) ∷ parts
]

abbrev pub is_key : Str → Bool
is_key key =
    not (is_empty key || ltb max_metric_key_length (length key) || not (metric_key_pattern key))

-- The loop over the parts: trimmed, checked, and added unless they are there.
unfoldable pub add_keys : (Str → Str) → List Str → List Str → Result HistoryError (List Str)
unfolding metric_key_pattern contains
add_keys trim [] keys = ok keys
add_keys trim (part ∷ parts) keys =
    let key = trim part in
    let known = add_keys trim parts keys in
    let added = add_keys trim parts (keys ++ key ∷ []) in
    if not (is_key key) then err keys_invalid else if contains keys key then known else added

unfoldable pub valid_history_timestamp : ℤ → Bool
valid_history_timestamp value = ltb_ℤ (pos 0) value && leb_ℤ value max_timestamp_millis

abbrev pub query_value : HistoryRequest → Str → Str
query_value r name = elim (r.get_query name) [ none ↦ [] | some value ↦ value ]

abbrev integer_of : Str → Option ℤ → Result HistoryError (Option ℤ)
integer_of name none = err (not_an_integer name)
integer_of name (some v) = ok (some v)

unfoldable pub query_int64 : HistoryRequest → Str → Result HistoryError (Option ℤ)
query_int64 r name =
    if is_empty (query_value r name)
    then ok none
    else integer_of name (r.parse_int (query_value r name))

abbrev pub step_in_range : Option ℤ → Bool
step_in_range none = true
step_in_range (some v) = not (ltb_ℤ v (pos 0) || ltb_ℤ max_step_value v)

unfoldable pub query_step : HistoryRequest → Str → Result HistoryError (Option ℤ)
unfolding query_int64
query_step r name = do
  value ← query_int64 r name
  if step_in_range value then ok value else err (step_unsupported name)

unfoldable pub parse_keys : HistoryRequest → Result HistoryError (List Str)
unfolding add_keys split_comma
parse_keys r =
    if not (is_empty (query_value r (codes "keys")))
    then add_keys r.trim_space (split_comma (query_value r (codes "keys"))) []
    else elim (r.get_query (codes "keys")) [ none ↦ ok [] | some value ↦ err keys_empty ]

abbrev points_in_range : Option ℤ → Result HistoryError ℤ
points_in_range none = err max_points_invalid
points_in_range (some n) =
    if ltb_ℤ n (pos 1) || ltb_ℤ (pos 5000) n then err max_points_invalid else ok n

unfoldable pub parse_max_points : HistoryRequest → Result HistoryError ℤ
parse_max_points r =
    if is_empty (query_value r (codes "max_points"))
    then ok (pos 500)
    else points_in_range (r.atoi (query_value r (codes "max_points")))

-- A test on a bound that is there.
abbrev pub bound_passes : (ℤ → Bool) → Option ℤ → Bool
bound_passes test none = true
bound_passes test (some v) = test v

-- A test on two bounds that are both there.
abbrev pub bounds_pass : (ℤ → ℤ → Bool) → Option ℤ → Option ℤ → Bool
bounds_pass test (some v) (some w) = test v w
bounds_pass test none w = true
bounds_pass test (some v) none = true

unfoldable pub parse_history_query : HistoryRequest → Result HistoryError HistoryQuery
unfolding parse_keys query_int64 query_step valid_history_timestamp parse_max_points task_id_pattern
parse_history_query r = do
  fail_if
      (is_empty r.task_id
        || not (task_id_pattern r.task_id)
        || ltb max_task_id_length (length r.task_id))
      task_id_invalid
  keys ← parse_keys r
  from ← query_int64 r (codes "from")
  to ← query_int64 r (codes "to")
  step_from ← query_step r (codes "step_from")
  step_to ← query_step r (codes "step_to")
  fail_if
      (not (bound_passes valid_history_timestamp from)
        || not (bound_passes valid_history_timestamp to))
      range_not_positive
  fail_if (not (bounds_pass ltb_ℤ from to)) range_not_ordered
  fail_if (not (bounds_pass leb_ℤ step_from step_to)) steps_not_ordered
  max_points ← parse_max_points r
  ok (record {
    task_id = r.task_id;
    keys = keys;
    from = from;
    to = to;
    step_from = step_from;
    step_to = step_to;
    max_points = max_points;
  })

-- The message of a rejected query, and its answer.
abbrev pub message_of : HistoryError → Str
message_of task_id_invalid = codes "invalid task_id"
message_of keys_invalid = codes "invalid keys"
message_of keys_empty = codes "keys must contain at least one key"
message_of range_not_positive = codes "from and to must be positive"
message_of range_not_ordered = codes "from must be less than to"
message_of steps_not_ordered = codes "step_from must be less than or equal to step_to"
message_of max_points_invalid = codes "max_points must be between 1 and 5000"
message_of (not_an_integer name) = name ++ codes " must be an integer"
message_of (step_unsupported name) = name ++ codes " is outside supported range"
