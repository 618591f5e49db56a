-- ===== src/Storage/Points/Encoded.antt =====
-- What the columns hold, and that every point which the worker expands can be encoded.
use mathlib.Core.List.{append_assoc, append-nil}
use metrics_pipeline_go.Prelude.{
  to_int32, ℕ, ◌+◌, ◌<◌, ◌≡◌, refl, ◌∙◌, true, false, ◌||◌, List, [], ◌∷◌, ◌++◌, map, Str,
  str_eq_refl, length, contains, add_unique, sort_strings, is_distinct, is_ascending,
  is_distinct-add_unique, contains-add_unique, contains-sort_strings, is_distinct-sort_strings,
  is_ascending-sort_strings, ℤ, pos, negsuc, ltb_ℤ, ◌≤ℤ◌, All, ok, arith,
}
use metrics_pipeline_go.Domain.{MetricPoint, Floats}
use metrics_pipeline_go.Messaging.Message.{IngestMessage, expand_metric_points}
use metrics_pipeline_go.Messaging.Message.Validation.{IsValidMessage}
use metrics_pipeline_go.Messaging.Message.Expand.{
  expand_metric_points_nonempty, expand_metric_points-IsStorable, IsStorable,
}
use metrics_pipeline_go.Storage.Points.{
  MetricPointColumns, max_int32, append_columns, encode_from, no_columns, encode_metric_points,
}

unfoldable pub add_tasks : List Str → List Str → List Str
add_tasks tasks [] = tasks
add_tasks tasks (t ∷ more) = add_tasks (add_unique tasks t) more

to_int32_id : (v : ℤ) → pos 0 ≤ℤ v → v ≤ℤ max_int32 → to_int32 v ≡ v
unfolding to_int32
to_int32_id (pos n) h k = ground arith
to_int32_id (negsuc n) h k = absurd (omega arith)

contains-add_tasks :
    (tasks more : List Str) (s : Str)
    → contains (add_tasks tasks more) s ≡ contains tasks s || contains more s
unfolding add_tasks contains
contains-add_tasks tasks [] s = ground arith
contains-add_tasks tasks (t ∷ more) s =
    ground (arith, contains-add_tasks (add_unique tasks t) more s, contains-add_unique tasks t s)

is_distinct-add_tasks :
    (tasks more : List Str) → is_distinct tasks ≡ true → is_distinct (add_tasks tasks more) ≡ true
unfolding add_tasks
is_distinct-add_tasks tasks [] h = h
is_distinct-add_tasks tasks (t ∷ more) h =
    is_distinct-add_tasks (add_unique tasks t) more (is_distinct-add_unique tasks t h)

module _ {V : Type 0} where
  abbrev pub tasks_of : List (MetricPoint V) → List Str
  tasks_of points = map (λ p. p.task_id) points

  -- The columns of the points, with each value as it is.
  abbrev pub columns_of : List (MetricPoint V) → MetricPointColumns V
  columns_of points = record {
    task_ids = tasks_of points;
    keys = map (λ p. p.key) points;
    steps = map (λ p. p.step) points;
    timestamps = map (λ p. p.timestamp_millis) points;
    values = map (λ p. p.value) points;
  }

  unfoldable pub concat_columns : MetricPointColumns V → MetricPointColumns V → MetricPointColumns V
  concat_columns c d = record {
    task_ids = c.task_ids ++ d.task_ids;
    keys = c.keys ++ d.keys;
    steps = c.steps ++ d.steps;
    timestamps = c.timestamps ++ d.timestamps;
    values = c.values ++ d.values;
  }

  abbrev pub HasInt32Step : MetricPoint V → Type 0
  HasInt32Step p = (pos 0 ≤ℤ p.step) × (p.step ≤ℤ max_int32)

  append_columns_lem :
      (c : MetricPointColumns V) (p : MetricPoint V) (points : List (MetricPoint V))
      → HasInt32Step p
      → concat_columns (append_columns c p) (columns_of points)
        ≡ concat_columns c (columns_of (p ∷ points))
  unfolding append_columns concat_columns
  append_columns_lem c p points h = rw (to_int32_id p.step h.0 h.1) (simp (append_assoc))

  encode_from_lem :
      (index : ℕ) (points : List (MetricPoint V)) (c : MetricPointColumns V) (tasks : List Str)
      → All HasInt32Step points
      → encode_from index points c tasks
        ≡ ok (concat_columns c (columns_of points), add_tasks tasks (tasks_of points))
  unfolding encode_from add_tasks
  encode_from_lem index [] c tasks h = unfold concat_columns in (simp (append-nil))
  encode_from_lem index (p ∷ points) c tasks h =
      let rest =
        encode_from_lem (index + 1) points (append_columns c p) (add_unique tasks p.task_id) h.1 in
      let inside : (ltb_ℤ p.step (pos 0) || ltb_ℤ max_int32 p.step) ≡ false = ground (arith, h.0) in
      rw inside (rw (← append_columns_lem c p points h.0) rest)

  -- Points whose steps are int32 values are encoded without a change: the columns are their fields,
  -- and the tasks are those of the points, sorted and without repetition.
  pub encode_metric_points_lem :
      (points : List (MetricPoint V))
      → All HasInt32Step points
      → (tasks : List Str) × (encode_metric_points points ≡ ok (columns_of points, tasks))
        × (is_distinct tasks ≡ true)
        × (is_ascending tasks ≡ true)
        × ((s : Str) → contains tasks s ≡ contains (tasks_of points) s)
  unfolding encode_metric_points is_distinct concat_columns contains
  encode_metric_points_lem points h = (
    sort_strings (add_tasks [] (tasks_of points)),
    rw (encode_from_lem 0 points no_columns [] h, encode_metric_points),
    is_distinct-sort_strings (add_tasks [] (tasks_of points))
        (is_distinct-add_tasks [] (tasks_of points) refl),
    is_ascending-sort_strings (add_tasks [] (tasks_of points)),
    λ s.
        contains-sort_strings (add_tasks [] (tasks_of points)) s
        ∙ contains-add_tasks [] (tasks_of points) s,
  )

module _ {V : Type 0} (floats : Floats V) where
  storable_steps :
      (task_id : Str) (points : List (MetricPoint V))
      → All (IsStorable floats task_id) points
      → All HasInt32Step points
  storable_steps task_id [] h = tt
  storable_steps task_id (p ∷ points) h = ((h.0.1, h.0.2), storable_steps task_id points h.1)

  add_tasks_same :
      (task_id : Str) (points : List (MetricPoint V))
      → All (IsStorable floats task_id) points
      → add_tasks (task_id ∷ []) (tasks_of points) ≡ task_id ∷ []
  unfolding add_tasks add_unique contains
  add_tasks_same task_id [] h = refl
  add_tasks_same task_id (p ∷ points) h =
      rw h.0.0 (rw (str_eq_refl task_id) (add_tasks_same task_id points h.1))

  encode_one_task :
      (task_id : Str) (points : List (MetricPoint V))
      → 0 < length points
      → All (IsStorable floats task_id) points
      → encode_metric_points points ≡ ok (columns_of points, task_id ∷ [])
  unfolding encode_metric_points add_tasks add_unique contains sort_strings concat_columns
  encode_one_task task_id [] nonempty h = absurd (omega arith)
  encode_one_task task_id (p ∷ points) nonempty h =
      rw
        (
          encode_from_lem 0 (p ∷ points) no_columns [] (storable_steps task_id (p ∷ points) h),
          encode_metric_points,
        )
        (rw h.0.0 (rw (add_tasks_same task_id points h.1) refl))

  -- The store can encode what the worker takes: the points of every message that its validation accepts
  -- become columns with the same values, steps included, under the one task of the message.
  pub message_is_encoded :
      (m : IngestMessage V)
      → IsValidMessage floats m
      → encode_metric_points (expand_metric_points floats m)
        ≡ ok (columns_of (expand_metric_points floats m), m.task_id ∷ [])
  message_is_encoded m valid =
      encode_one_task m.task_id (expand_metric_points floats m)
        (expand_metric_points_nonempty floats m valid)
        (expand_metric_points-IsStorable floats m valid)
