-- ===== src/Simulator/Expected/Described.antt =====
-- What a task expects describes the batches that it has counted.
use mathlib.Core.List.{append-nil, append_assoc}
use metrics_pipeline_go.Prelude.{
  ◌≡◌, refl, ap, ◌∙◌, true, not, ◌&&◌, List, [], ◌∷◌, ◌++◌, length, length-append, Str, contains,
  is_distinct, contains-sort_strings, is_distinct-sort_strings, ℤ, arith,
}
use metrics_pipeline_go.Domain.{MetricSample, MetricBatch, keys_of}
use metrics_pipeline_go.Simulator.Expected.{
  Expected, Fingerprint, ExpectedState, new_expected_state, has_step, add_sample, add_samples,
  add_expected, finish,
}
use metrics_pipeline_go.Simulator.Expected.Steps.{
  is_distinct_steps, is_between, has_step-add_step, is_distinct_steps-add_step, contains-add_keys,
  is_distinct-add_keys, has_step-missing_between,
}
use metrics_pipeline_go.Simulator.Expected.Samples.{
  total_points, some_step, some_key, is_least, is_greatest, total_points-append, some_step-append,
  some_key-append, is_least-snoc, is_greatest-snoc,
}

module _ {V : Type 0} where
  -- The state describes the samples.
  unfoldable pub IsDescribed : ExpectedState → List (MetricSample V) → Type 0
  unfolding is_distinct_steps has_step some_step some_key contains is_distinct is_least is_greatest
      total_points
  IsDescribed e samples =
      (e.expected.batch_items ≡ length samples)
      × (e.expected.point_count ≡ total_points samples)
      × (e.expected.distinct_steps ≡ length e.steps)
      × (is_distinct_steps e.steps ≡ true)
      × ((s : ℤ) → has_step e.steps s ≡ some_step samples s)
      × (is_least e.expected.first_step samples ≡ true)
      × (is_greatest e.expected.last_step samples ≡ true)
      × (is_distinct e.expected.keys ≡ true)
      × ((k : Str) → contains e.expected.keys k ≡ some_key samples k)
      × (e.expected.missing_steps ≡ [])

  add_sample-IsDescribed :
      (e : ExpectedState) (seen : List (MetricSample V)) (x : MetricSample V)
      → IsDescribed e seen
      → IsDescribed (add_sample e x) (seen ++ x ∷ [])
  unfolding IsDescribed add_sample some_step some_key total_points
  add_sample-IsDescribed e seen x
        (items, points, count, distinct, steps, least, greatest, keys, has_keys, missing) =
      (
        omega (arith, items, length-append seen (x ∷ [])),
        omega (arith, points, total_points-append seen (x ∷ [])),
        refl,
        is_distinct_steps-add_step e.steps x.step distinct,
        (λ s.
            ground (
              arith,
              steps s,
              has_step-add_step e.steps x.step s,
              some_step-append seen (x ∷ []) s,
            )),
        is_least-snoc e.expected.first_step seen x least,
        is_greatest-snoc e.expected.last_step seen x greatest,
        is_distinct-add_keys e.expected.keys (keys_of x.metrics) keys,
        (λ k. ground (
          arith,
          has_keys k,
          contains-add_keys e.expected.keys (keys_of x.metrics) k,
          some_key-append seen (x ∷ []) k,
        )),
        missing,
      )

  add_samples-IsDescribed :
      (e : ExpectedState) (seen samples : List (MetricSample V))
      → IsDescribed e seen
      → IsDescribed (add_samples e samples) (seen ++ samples)
  unfolding add_samples
  add_samples-IsDescribed e seen [] h = rw (append-nil seen) h
  add_samples-IsDescribed e seen (x ∷ samples) h = rw (← append_assoc seen (x ∷ []) samples) (
      add_samples-IsDescribed (add_sample e x) (seen ++ x ∷ []) samples
        (add_sample-IsDescribed e seen x h))

  -- addExpected keeps the description.
  pub add_expected-IsDescribed :
      (e : ExpectedState) (seen : List (MetricSample V)) (batch : MetricBatch V)
      → IsDescribed e seen
      → IsDescribed (add_expected e batch) (seen ++ batch.samples)
  unfolding add_expected IsDescribed
  add_expected-IsDescribed e seen batch h =
      let (items, points, count, distinct, steps, least, greatest, keys, has_keys, missing) =
        add_samples-IsDescribed e seen batch.samples h in
      (
        items,
        points,
        count,
        distinct,
        steps,
        least,
        greatest,
        is_distinct-sort_strings (add_samples e batch.samples).expected.keys keys,
        (λ k. contains-sort_strings (add_samples e batch.samples).expected.keys k ∙ has_keys k),
        missing,
      )

  -- The fingerprints do not matter to the description.
  pub IsDescribed-batches :
      (e : ExpectedState) (samples : List (MetricSample V)) (batches : List Fingerprint)
      → IsDescribed e samples
      → IsDescribed (record { expected = e.expected; steps = e.steps; batches = batches }) samples
  unfolding IsDescribed
  IsDescribed-batches e samples batches h = h

  batches-add_samples :
      (e : ExpectedState) (samples : List (MetricSample V))
      → (add_samples e samples).batches ≡ e.batches
  unfolding add_samples add_sample
  batches-add_samples e [] = refl
  batches-add_samples e (x ∷ samples) = batches-add_samples (add_sample e x) samples

  pub batches-add_expected :
      (e : ExpectedState) (batch : MetricBatch V) → (add_expected e batch).batches ≡ e.batches
  unfolding add_expected
  batches-add_expected e batch = batches-add_samples e batch.samples

-- The state in which no sample was counted.
pub new_expected_state-IsDescribed :
    (V : Type 0) (id : Str) → IsDescribed {V = V} (new_expected_state id) []
unfolding IsDescribed is_distinct_steps has_step some_step some_key contains is_distinct
new_expected_state-IsDescribed V id =
    (refl, refl, refl, refl, (λ s. refl), refl, refl, refl, (λ k. refl), refl)

module _ {V : Type 0} where
  -- What is expected of the samples: their number, their points, the number of their steps, the least and the
  -- greatest step, their keys, each once, and the steps between those two that none of them has.
  unfoldable pub IsExpectation : Expected → List (MetricSample V) → Type 0
  unfolding is_distinct_steps has_step some_step some_key contains is_distinct is_least is_greatest
      total_points
  IsExpectation x samples =
      (x.batch_items ≡ length samples)
      × (x.point_count ≡ total_points samples)
      × ((steps : List ℤ) × (x.distinct_steps ≡ length steps)
          × (is_distinct_steps steps ≡ true)
          × ((s : ℤ) → has_step steps s ≡ some_step samples s))
      × (is_least x.first_step samples ≡ true)
      × (is_greatest x.last_step samples ≡ true)
      × (is_distinct x.keys ≡ true)
      × ((k : Str) → contains x.keys k ≡ some_key samples k)
      × ((s : ℤ)
          → has_step x.missing_steps s
            ≡ (is_between x.first_step x.last_step s && not (some_step samples s)))

  pub finish-IsExpectation :
      (e : ExpectedState) (samples : List (MetricSample V))
      → IsDescribed e samples
      → IsExpectation (finish e) samples
  unfolding IsDescribed IsExpectation finish
  finish-IsExpectation e samples
        (items, points, count, distinct, steps, least, greatest, keys, has_keys, missing) =
      (
        items,
        points,
        (e.steps, count, distinct, steps),
        least,
        greatest,
        keys,
        has_keys,
        (λ s. rw missing (
            has_step-missing_between e.steps e.expected.first_step e.expected.last_step s
            ∙ ap (λ b. is_between e.expected.first_step e.expected.last_step s && not b)
                (steps s))),
      )
