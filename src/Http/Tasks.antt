-- ===== src/Http/Tasks.antt =====
-- internal/transport/http/summary.go and audit.go with internal/service/summary and internal/service/audit: the endpoints
-- that answer for a whole task. The map of metrics is the list of its entries.
use metrics_pipeline_go.Prelude.{
  ◌≡◌, Bool, false, not, ◌||◌, Option, none, some, List, map, Str, codes, is_empty, length, ltb, ℤ,
  if◌then◌else◌, arith,
}
use metrics_pipeline_go.Http.Response.{
  Response, json, write_error, status_bad_request, status_internal, status_not_found,
  invalid_params, internal_error, task_not_found,
}
use metrics_pipeline_go.Http.Ingest.{task_id_pattern, max_task_id_length}
use metrics_pipeline_go.Storage.Reading.{SummaryMetric, SummaryResult}

pub record SummaryResponse (V : Type 0) : Type 0 where
  pub task_id : Str
  pub last_step : ℤ
  pub updated_at : ℤ
  pub metrics : List (Str × SummaryMetric V)

-- The Result of the audit's use case.
pub record AuditTotals : Type 0 where
  pub exists : Bool
  pub point_count : ℤ
  pub distinct_steps : ℤ
  pub first_step : Option ℤ
  pub last_step : Option ℤ
  pub keys : List Str
  pub missing_steps : List ℤ

pub record AuditAnswer : Type 0 where
  pub task_id : Str
  pub point_count : ℤ
  pub distinct_steps : ℤ
  pub first_step : Option ℤ
  pub last_step : Option ℤ
  pub keys : List Str
  pub missing_steps : List ℤ

abbrev pub task_id_refused : Str → Bool
task_id_refused task_id =
    is_empty task_id || not (task_id_pattern task_id) || ltb max_task_id_length (length task_id)

-- Service.Query with or without a repository; `none` is an error.
abbrev pub query_task : {A : Type 0} → Option (Str → Option A) → Str → Option A
query_task none task_id = none
query_task (some repository) task_id = repository task_id

abbrev pub summary_metric : {V : Type 0} → Str × SummaryMetric V → Str × SummaryMetric V
summary_metric (key, metric) =
    (key, record { last = metric.last; min = metric.min; max = metric.max; avg = metric.avg })

-- GetSummary.
unfoldable pub get_summary :
    {V : Type 0} → Option (Str → Option (SummaryResult V)) → Str → Response (SummaryResponse V)
unfolding write_error
get_summary repository task_id =
    if task_id_refused task_id
    then write_error status_bad_request invalid_params (codes "invalid task_id")
    else elim (query_task repository task_id) [
      | none ↦ write_error status_internal internal_error (codes "internal server error")
      | some result ↦
          if result.exists
          then json (record {
            task_id = task_id;
            last_step = result.last_step;
            updated_at = result.updated_at;
            metrics = map summary_metric result.metrics;
          })
          else write_error status_not_found task_not_found (codes "task not found")
    ]

-- GetAudit.
unfoldable pub get_audit : Option (Str → Option AuditTotals) → Str → Response AuditAnswer
unfolding write_error
get_audit repository task_id =
    if task_id_refused task_id
    then write_error status_bad_request invalid_params (codes "invalid task_id")
    else elim (query_task repository task_id) [
      | none ↦ write_error status_internal internal_error (codes "internal server error")
      | some result ↦
          if result.exists
          then json (record {
            task_id = task_id;
            point_count = result.point_count;
            distinct_steps = result.distinct_steps;
            first_step = result.first_step;
            last_step = result.last_step;
            keys = result.keys;
            missing_steps = result.missing_steps;
          })
          else write_error status_not_found task_not_found (codes "task not found")
    ]

-- An answer with a body is for the task that was asked for, which has a valid id and which the repository found.
get_audit-json :
    (repository : Option (Str → Option AuditTotals)) (task_id : Str) {answer : AuditAnswer}
    → get_audit repository task_id ≡ json answer
    → (answer.task_id ≡ task_id) × (task_id_refused task_id ≡ false)
unfolding get_audit write_error
get_audit-json repository task_id h = ground arith
