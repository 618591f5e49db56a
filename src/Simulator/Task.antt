-- ===== src/Simulator/Task.antt =====
-- internal/simulator/simulator.go: the loop of a task in RunWithReport, and batchFingerprint.
--
-- A turn says what its random numbers, its timers and the endpoint answer. The batches that were posted are kept in
-- their order.
pub mod Posted
use metrics_pipeline_go.Prelude.{
  ℕ, ◌≡◌, Bool, true, false, not, ◌&&◌, ◌||◌, Option, none, some, List, [], ◌∷◌, ◌++◌, get_elem?,
  Str, ℤ, eqb_ℤ, if◌then◌else◌,
}
use metrics_pipeline_go.Domain.{MetricSample, MetricBatch}
use metrics_pipeline_go.Simulator.{SimConfig, Generator, next_batch}
use metrics_pipeline_go.Simulator.Expected.{
  Fingerprint, ExpectedState, new_expected_state, add_expected,
}

module _ {V : Type 0} where
  abbrev pub last_step_of : ℤ → List (MetricSample V) → ℤ
  last_step_of step [] = step
  last_step_of step (sample ∷ samples) = last_step_of sample.step samples

  abbrev pub fingerprint_of : List (MetricSample V) → Fingerprint
  fingerprint_of [] = none
  fingerprint_of (sample ∷ samples) = some (sample.step, last_step_of sample.step samples)

  abbrev pub batch_fingerprint : MetricBatch V → Fingerprint
  batch_fingerprint batch = fingerprint_of batch.samples

abbrev pub eq_fingerprint : Fingerprint → Fingerprint → Bool
eq_fingerprint none none = true
eq_fingerprint none (some q) = false
eq_fingerprint (some p) none = false
eq_fingerprint (some (a, b)) (some (c, d)) = eqb_ℤ a c && eqb_ℤ b d

unfoldable pub has_batch : List Fingerprint → Fingerprint → Bool
has_batch [] f = false
has_batch (g ∷ batches) f = eq_fingerprint g f || has_batch batches f

-- `duplicate` is the index that is drawn when the random number is below the duplicate rate; `injected` says that the
-- next one is below the failure rate.
pub record Turn : Type 0 where
  pub stopped_before : Bool
  pub duplicate : Option ℕ
  pub injected : Bool
  pub post_error : Option Str
  pub stopped_after : Bool

module _ {V : Type 0} where
  -- `expected.batches[fingerprint] = true` and addExpected, for a new fingerprint.
  unfoldable pub count_batch : ExpectedState → MetricBatch V → ExpectedState
  unfolding has_batch add_expected
  count_batch e batch =
      if has_batch e.batches (batch_fingerprint batch)
      then e
      else add_expected
          (record {
            expected = e.expected;
            steps = e.steps;
            batches = e.batches ++ batch_fingerprint batch ∷ [];
          })
          batch

  -- The batch of a turn: a new one, or one that was posted before.
  abbrev pub chosen_batch : MetricBatch V → List (MetricBatch V) → Option ℕ → MetricBatch V
  chosen_batch batch history none = batch
  chosen_batch batch history (some i) = elim (get_elem? history i) [ none ↦ batch | some old ↦ old ]

  module _ (c : SimConfig V) (values : ℕ → Str → V) (size : ℕ) where
    -- The loop: the batches posted, the expectation and the failure.
    unfoldable pub run_turns :
        Generator
        → List (MetricBatch V)
        → ExpectedState
        → List Turn
        → List (MetricBatch V) × ExpectedState × Option Str
    unfolding next_batch count_batch
    run_turns g history e [] = (history, e, none)
    run_turns g history e (turn ∷ turns) =
        let (generated, next) = next_batch c values g size in
        let batch = chosen_batch generated history turn.duplicate in
        let same = run_turns next history e turns in
        let posted = run_turns next (history ++ batch ∷ []) (count_batch e batch) turns in
        if turn.stopped_before
        then (history, e, none)
        else if turn.injected
        then (if turn.stopped_after then (history, e, none) else same)
        else elim turn.post_error [
          | some failure ↦ (history, e, some failure)
          | none ↦
              if turn.stopped_after
              then (history ++ batch ∷ [], count_batch e batch, none)
              else posted
        ]

    -- A task, from its start.
    unfoldable pub run_task :
        Generator → List Turn → List (MetricBatch V) × ExpectedState × Option Str
    unfolding run_turns
    run_task g turns = run_turns g [] (new_expected_state g.task_id) turns
