-- ===== src/Messaging/Message/Entries.antt =====
-- ExpandMetricPoints against the entries of the samples' maps.
use metrics_pipeline_go.Prelude.{
  ◌≡◌, refl, ap, true, false, List, [], ◌∷◌, ◌++◌, map, Str, all, str_eq_refl, str_eq_comm, str_leb,
  contains, insert_sorted, sort_strings, is_ascending, is_ascending-sort_strings, Bool-cases, inl,
  inr, arith,
}
use mathlib.Core.List.{Perm}
use mathlib.Core.List.Perm
use metrics_pipeline_go.Domain.{Floats, Metrics, MetricPoint, keys_of, is_map}
use metrics_pipeline_go.Messaging.Message.{
  IngestSample, IngestMessage, metric_at, point_of, expand_samples, expand_metric_points,
}

insert_sorted-perm : (s : Str) (l : List Str) → Perm (insert_sorted s l) (s ∷ l)
unfolding insert_sorted
insert_sorted-perm s [] = Perm.rfl
insert_sorted-perm s (t ∷ l) = elim (Bool-cases (str_leb s t)) [
  | inl before ↦ rw before Perm.rfl
  | inr after ↦ rw after (Perm.trans (Perm.cons t (insert_sorted-perm s l)) (Perm.swap s t l))
]

sort_strings-perm : (l : List Str) → Perm (sort_strings l) l
unfolding sort_strings
sort_strings-perm [] = Perm.rfl
sort_strings-perm (s ∷ l) =
    Perm.trans (insert_sorted-perm s (sort_strings l)) (Perm.cons s (sort_strings-perm l))

module _ {V : Type 0} where
  -- The point that an entry of a sample's map stands for.
  abbrev pub entry_point : Str → IngestSample V → Str × V → MetricPoint V
  entry_point task_id s e = record {
    task_id = task_id;
    key = e.0;
    step = s.step;
    timestamp_millis = s.ts;
    value = e.1;
  }

  -- The points of one sample: those of its entries, in ascending order of the keys.
  abbrev pub AreSamplePoints : Str → IngestSample V → List (MetricPoint V) → Type 0
  AreSamplePoints task_id s points =
      Perm points (map (entry_point task_id s) s.metrics)
      × (is_ascending (map (λ p. p.key) points) ≡ true)

  -- The points of the samples, sample after sample.
  pub data IsExpansion (task_id : Str) : List (IngestSample V) → List (MetricPoint V) → Type 0 where
    none_left : IsExpansion task_id [] []
    then_sample :
        {s : IngestSample V} {rest : List (IngestSample V)} {here later : List (MetricPoint V)}
        → AreSamplePoints task_id s here
        → IsExpansion task_id rest later
        → IsExpansion task_id (s ∷ rest) (here ++ later)

module _ {V : Type 0} (floats : Floats V) where
  -- A key that is not the first one is looked up in the rest.
  point_of_skip :
      (task_id : Str) (s : IngestSample V) (key : Str) (value : V) (m : Metrics V) (keys : List Str)
      → contains keys key ≡ false
      → map
          (point_of floats task_id
            (record { step = s.step; ts = s.ts; metrics = (key, value) ∷ m }))
          keys
        ≡ map (point_of floats task_id (record { step = s.step; ts = s.ts; metrics = m })) keys
  unfolding point_of metric_at contains
  point_of_skip task_id s key value m [] h = refl
  point_of_skip task_id s key value m (k ∷ keys) h =
      ground (arith, str_eq_comm key k, point_of_skip task_id s key value m keys)

  points_of_keys :
      (task_id : Str) (s : IngestSample V) (m : Metrics V)
      → is_map m ≡ true
      → map (point_of floats task_id (record { step = s.step; ts = s.ts; metrics = m })) (keys_of m)
        ≡ map (entry_point task_id s) m
  unfolding point_of metric_at is_map
  points_of_keys task_id s [] h = refl
  points_of_keys task_id s ((key, value) ∷ m) h = ground (
    arith,
    str_eq_refl key,
    point_of_skip task_id s key value m (keys_of m),
    points_of_keys task_id s m,
  )

  keys_of_points :
      (task_id : Str) (s : IngestSample V) (keys : List Str)
      → map (λ p. p.key) (map (point_of floats task_id s) keys) ≡ keys
  unfolding point_of
  keys_of_points task_id s [] = refl
  keys_of_points task_id s (k ∷ keys) = ap (λ l. k ∷ l) (keys_of_points task_id s keys)

  sample_points-AreSamplePoints :
      (task_id : Str) (s : IngestSample V)
      → is_map s.metrics ≡ true
      → AreSamplePoints task_id s
          (map (point_of floats task_id s) (sort_strings (keys_of s.metrics)))
  sample_points-AreSamplePoints task_id s h = (
    rw (points_of_keys task_id s s.metrics h) at
        (Perm.map (point_of floats task_id s) (sort_strings-perm (keys_of s.metrics))),
    rw (keys_of_points task_id s (sort_strings (keys_of s.metrics)))
        (is_ascending-sort_strings (keys_of s.metrics)),
  )

  expand_samples-IsExpansion :
      (task_id : Str) (samples : List (IngestSample V))
      → all (λ s. is_map s.metrics) samples ≡ true
      → IsExpansion task_id samples (expand_samples floats task_id samples)
  unfolding expand_samples
  expand_samples-IsExpansion task_id [] h = none_left
  expand_samples-IsExpansion task_id (s ∷ rest) h =
      then_sample (sample_points-AreSamplePoints task_id s (ground arith))
        (expand_samples-IsExpansion task_id rest (ground arith))

  -- The points of a message are those of its samples, sample after sample; those of a sample are one for each
  -- entry of its map, with the message's task, the entry's key and value and the sample's step and time, and no other,
  -- in ascending order of the keys. The metrics of each sample are a map.
  pub expand_metric_points-IsExpansion :
      (m : IngestMessage V)
      → all (λ s. is_map s.metrics) m.batch ≡ true
      → IsExpansion m.task_id m.batch (expand_metric_points floats m)
  unfolding expand_metric_points
  expand_metric_points-IsExpansion m h = expand_samples-IsExpansion m.task_id m.batch h
