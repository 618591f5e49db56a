-- ===== src/Storage/Points.antt =====
-- internal/storage/postgres/metric_point_store.go: encodeMetricPoints, the columns of a flush.
pub mod Encoded
use metrics_pipeline_go.Prelude.{
  ℕ, suc, ◌+◌, ◌-◌, ◌%◌, Bool, true, false, ◌||◌, List, [], ◌∷◌, ◌++◌, Str, add_unique,
  sort_strings, ℤ, pos, negsuc, to_int32, ltb, ltb_ℤ, Result, ok, err, if◌then◌else◌,
}
use metrics_pipeline_go.Domain.{MetricPoint}

-- A timestamp is the time of its milliseconds since the epoch.
pub record MetricPointColumns (V : Type 0) : Type 0 where
  pub task_ids : List Str
  pub keys : List Str
  pub steps : List ℤ
  pub timestamps : List ℤ
  pub values : List V

pub data EncodeError : Type 0 where
  step_outside_int32 : ℕ → EncodeError

-- `int64(^uint32(0) >> 1)`.
abbrev pub max_int32 : ℤ
max_int32 = pos 2147483647

module _ {V : Type 0} where
  unfoldable pub append_columns : MetricPointColumns V → MetricPoint V → MetricPointColumns V
  unfolding to_int32
  append_columns c p = record {
    task_ids = c.task_ids ++ p.task_id ∷ [];
    keys = c.keys ++ p.key ∷ [];
    steps = c.steps ++ to_int32 p.step ∷ [];
    timestamps = c.timestamps ++ p.timestamp_millis ∷ [];
    values = c.values ++ p.value ∷ [];
  }

  -- The loop at point `index`, with the columns and the set of tasks so far.
  unfoldable pub encode_from :
      ℕ
      → List (MetricPoint V)
      → MetricPointColumns V
      → List Str
      → Result EncodeError (MetricPointColumns V × List Str)
  unfolding append_columns add_unique
  encode_from index [] c tasks = ok (c, tasks)
  encode_from index (p ∷ points) c tasks =
      let rest = encode_from (index + 1) points (append_columns c p) (add_unique tasks p.task_id) in
      if ltb_ℤ p.step (pos 0) || ltb_ℤ max_int32 p.step
      then err (step_outside_int32 index)
      else rest

  abbrev pub no_columns : MetricPointColumns V
  no_columns = record { task_ids = []; keys = []; steps = []; timestamps = []; values = [] }

  abbrev sort_tasks :
      Result EncodeError (MetricPointColumns V × List Str)
      → Result EncodeError (MetricPointColumns V × List Str)
  sort_tasks (ok (c, tasks)) = ok (c, sort_strings tasks)
  sort_tasks (err e) = err e

  unfoldable pub encode_metric_points :
      List (MetricPoint V) → Result EncodeError (MetricPointColumns V × List Str)
  unfolding encode_from sort_strings
  encode_metric_points points = sort_tasks (encode_from 0 points no_columns [])
