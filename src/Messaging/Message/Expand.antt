-- ===== src/Messaging/Message/Expand.antt =====
-- ExpandMetricPoints: how many points a message has, and what each of them carries.
use metrics_pipeline_go.Prelude.{
  ℕ, suc, ◌+◌, ◌<◌, ◌≡◌, refl, false, List, [], ◌∷◌, map, Str, pos, ◌≤ℤ◌, length, length-append,
  length-map, arith, All, All-append, sort_strings, insert_sorted, is_empty, is_empty-length,
}
use metrics_pipeline_go.Domain.{Floats, MetricPoint, keys_of}
use metrics_pipeline_go.Messaging.Message.{
  IngestSample, IngestMessage, max_step_value, point_of, expand_samples, expand_metric_points,
}
use metrics_pipeline_go.Messaging.Message.Validation.{IsSampleInRange, IsValidMessage}

length-insert_sorted : (s : Str) (l : List Str) → length (insert_sorted s l) ≡ suc (length l)
unfolding insert_sorted
length-insert_sorted s [] = refl
length-insert_sorted s (t ∷ l) = ground (arith, length-insert_sorted s l)

length-sort_strings : (l : List Str) → length (sort_strings l) ≡ length l
unfolding sort_strings
length-sort_strings [] = refl
length-sort_strings (s ∷ l) =
    omega (arith, length-insert_sorted s (sort_strings l), length-sort_strings l)

-- The metrics of all samples: the source's `pointCount`.
abbrev pub point_count : {V : Type 0} → List (IngestSample V) → ℕ
point_count [] = 0
point_count (s ∷ rest) = length s.metrics + point_count rest

module _ {V : Type 0} (floats : Floats V) where
  sample_points :
      (task_id : Str) (s : IngestSample V)
      → length (map (point_of floats task_id s) (sort_strings (keys_of s.metrics)))
        ≡ length s.metrics
  sample_points task_id s = omega (
    arith,
    length-map (sort_strings (keys_of s.metrics)) (point_of floats task_id s),
    length-sort_strings (keys_of s.metrics),
    length-map s.metrics (λ e. e.0),
  )

  length-expand_samples :
      (task_id : Str) (l : List (IngestSample V))
      → length (expand_samples floats task_id l) ≡ point_count l
  unfolding expand_samples
  length-expand_samples task_id [] = refl
  length-expand_samples task_id (s ∷ rest) =
      let here = map (point_of floats task_id s) (sort_strings (keys_of s.metrics)) in
      omega (
        arith,
        length-append here (expand_samples floats task_id rest),
        sample_points task_id s,
        length-expand_samples task_id rest,
      )

  -- The source's `pointCount`, the capacity that it allocates, is the number of points it makes.
  pub length-expand_metric_points :
      (m : IngestMessage V) → length (expand_metric_points floats m) ≡ point_count m.batch
  unfolding expand_metric_points
  length-expand_metric_points m = length-expand_samples m.task_id m.batch

  -- A message that the worker accepts has a point.
  pub expand_metric_points_nonempty :
      (m : IngestMessage V) → IsValidMessage floats m → 0 < length (expand_metric_points floats m)
  expand_metric_points_nonempty m v =
      rw (length-expand_metric_points m) (go m.batch v.batch_not_empty v.samples_in_range)
    where
      go :
          (l : List (IngestSample V))
          → is_empty l ≡ false
          → All (IsSampleInRange floats) l
          → 0 < point_count l
      go [] e h = cc
      go (s ∷ rest) e h = ground (arith, is_empty-length s.metrics)

  -- What the store needs of a point, and where its fields come from.
  abbrev pub IsStorable : Str → MetricPoint V → Type 0
  IsStorable task_id p = (p.task_id ≡ task_id) × (pos 0 ≤ℤ p.step) × (p.step ≤ℤ max_step_value)

  sample-IsStorable :
      (task_id : Str) (s : IngestSample V) (keys : List Str)
      → IsSampleInRange floats s
      → All (IsStorable task_id) (map (point_of floats task_id s) keys)
  unfolding point_of
  sample-IsStorable task_id s [] h = tt
  sample-IsStorable task_id s (k ∷ keys) h = ((refl, h.0, h.1), sample-IsStorable task_id s keys h)

  expand_samples-IsStorable :
      (task_id : Str) (l : List (IngestSample V))
      → All (IsSampleInRange floats) l
      → All (IsStorable task_id) (expand_samples floats task_id l)
  unfolding expand_samples
  expand_samples-IsStorable task_id [] h = tt
  expand_samples-IsStorable task_id (s ∷ rest) h =
      All-append (IsStorable task_id)
        (map (point_of floats task_id s) (sort_strings (keys_of s.metrics))) _
        (sample-IsStorable task_id s (sort_strings (keys_of s.metrics)) h.0)
        (expand_samples-IsStorable task_id rest h.1)

  pub expand_metric_points-IsStorable :
      (m : IngestMessage V)
      → IsValidMessage floats m
      → All (IsStorable m.task_id) (expand_metric_points floats m)
  unfolding expand_metric_points
  expand_metric_points-IsStorable m v =
      expand_samples-IsStorable m.task_id m.batch v.samples_in_range
