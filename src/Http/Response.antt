-- ===== src/Http/Response.antt =====
-- internal/transport/http/response.go: what a handler writes.
use metrics_pipeline_go.Prelude.{ℕ, Str, codes}

abbrev pub invalid_params : Str
invalid_params = codes "INVALID_PARAMS"

abbrev pub task_not_found : Str
task_not_found = codes "TASK_NOT_FOUND"

abbrev pub mq_unavailable : Str
mq_unavailable = codes "MQ_UNAVAILABLE"

abbrev pub internal_error : Str
internal_error = codes "INTERNAL"

abbrev pub status_ok : ℕ
status_ok = 200

abbrev pub status_bad_request : ℕ
status_bad_request = 400

abbrev pub status_not_found : ℕ
status_not_found = 404

abbrev pub status_internal : ℕ
status_internal = 500

abbrev pub status_unavailable : ℕ
status_unavailable = 503

pub record ApiError : Type 0 where
  pub code : Str
  pub message : Str

-- One response for each request: a body of type `A` with status 200, or an error with its status.
-- `panic` is a nil dereference, which the recovery middleware turns into a bare 500.
pub data Response (A : Type 0) : Type 0 where
  json : A → Response A
  error : ℕ → ApiError → Response A
  panic : Response A

unfoldable pub write_error : {A : Type 0} → ℕ → Str → Str → Response A
write_error status code message = error status (record { code = code; message = message })

abbrev pub status_of : {A : Type 0} → Response A → ℕ
status_of (json a) = status_ok
status_of (error status e) = status
status_of panic = status_internal
