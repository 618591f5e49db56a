-- ===== src/Simulator/Expected.antt =====
-- internal/simulator/simulator.go: what a task of the simulator expects of the audit, addExpected and finish, and the
-- loop that posts batches.
--
-- The sets of steps and of fingerprints are lists. The text of a fingerprint, "first:last", is the pair of its
-- steps, and none when it is empty.
pub mod Steps
pub mod Samples
pub mod Described
use metrics_pipeline_go.Prelude.{
  ℕ, zero, suc, ◌+◌, ◌≡◌, Bool, true, false, not, ◌&&◌, ◌||◌, Option, none, some, List, [], ◌∷◌,
  ◌++◌, map, length, get_elem?, Str, add_unique, sort_strings, ℤ, pos, pos_part, ltb_ℤ, leb_ℤ,
  eqb_ℤ, ◌+ℤ◌, ◌-ℤ◌, if◌then◌else◌,
}
use metrics_pipeline_go.Domain.{MetricSample, MetricBatch, Metrics, keys_of}
use metrics_pipeline_go.Simulator.{Generator, next_batch}

pub record Expected : Type 0 where
  pub task_id : Str
  pub batch_items : ℕ
  pub point_count : ℕ
  pub distinct_steps : ℕ
  pub first_step : Option ℤ
  pub last_step : Option ℤ
  pub keys : List Str
  pub missing_steps : List ℤ

abbrev pub Fingerprint : Type 0
Fingerprint = Option (ℤ × ℤ)

pub record ExpectedState : Type 0 where
  pub expected : Expected
  pub steps : List ℤ
  pub batches : List Fingerprint

abbrev pub new_expected_state : Str → ExpectedState
new_expected_state id = record {
  expected = record {
    task_id = id;
    batch_items = 0;
    point_count = 0;
    distinct_steps = 0;
    first_step = none;
    last_step = none;
    keys = [];
    missing_steps = [];
  };
  steps = [];
  batches = [];
}

unfoldable pub has_step : List ℤ → ℤ → Bool
has_step [] step = false
has_step (s ∷ steps) step = eqb_ℤ s step || has_step steps step

-- `steps[step] = true`.
unfoldable pub add_step : List ℤ → ℤ → List ℤ
unfolding has_step
add_step steps step = if has_step steps step then steps else steps ++ step ∷ []

abbrev pub lower_of : Option ℤ → ℤ → Option ℤ
lower_of none step = some step
lower_of (some first) step = if ltb_ℤ step first then some step else some first

abbrev pub upper_of : Option ℤ → ℤ → Option ℤ
upper_of none step = some step
upper_of (some last) step = if ltb_ℤ last step then some step else some last

-- The loop over the keys of a sample.
unfoldable pub add_keys : List Str → List Str → List Str
unfolding add_unique
add_keys keys [] = keys
add_keys keys (key ∷ more) = add_keys (add_unique keys key) more

abbrev pub sort_keys : ExpectedState → ExpectedState
unfolding sort_strings
sort_keys e = record {
  expected = record {
    task_id = e.expected.task_id;
    batch_items = e.expected.batch_items;
    point_count = e.expected.point_count;
    distinct_steps = e.expected.distinct_steps;
    first_step = e.expected.first_step;
    last_step = e.expected.last_step;
    keys = sort_strings e.expected.keys;
    missing_steps = e.expected.missing_steps;
  };
  steps = e.steps;
  batches = e.batches;
}

module _ {V : Type 0} where
  unfoldable pub add_sample : ExpectedState → MetricSample V → ExpectedState
  unfolding add_step add_keys
  add_sample e sample = record {
    expected = record {
      task_id = e.expected.task_id;
      batch_items = e.expected.batch_items + 1;
      point_count = e.expected.point_count + length sample.metrics;
      distinct_steps = length (add_step e.steps sample.step);
      first_step = lower_of e.expected.first_step sample.step;
      last_step = upper_of e.expected.last_step sample.step;
      keys = add_keys e.expected.keys (keys_of sample.metrics);
      missing_steps = e.expected.missing_steps;
    };
    steps = add_step e.steps sample.step;
    batches = e.batches;
  }

  unfoldable pub add_samples : ExpectedState → List (MetricSample V) → ExpectedState
  unfolding add_sample
  add_samples e [] = e
  add_samples e (sample ∷ samples) = add_samples (add_sample e sample) samples

  -- addExpected.
  unfoldable pub add_expected : ExpectedState → MetricBatch V → ExpectedState
  unfolding add_samples sort_keys
  add_expected e batch = sort_keys (add_samples e batch.samples)

-- The loop of finish, with the rounds left.
unfoldable pub missing_from : List ℤ → ℤ → ℕ → List ℤ
unfolding has_step ◌+ℤ◌
missing_from steps step zero = []
missing_from steps step (suc rounds) =
    let rest = missing_from steps (step +ℤ pos 1) rounds in
    if has_step steps step then rest else step ∷ rest

abbrev pub missing_between : List ℤ → Option ℤ → Option ℤ → List ℤ
unfolding missing_from ◌-ℤ◌ ◌+ℤ◌
missing_between steps (some first) (some last) =
    missing_from steps first (pos_part ((last -ℤ first) +ℤ pos 1))
missing_between steps (some first) none = []
missing_between steps none last = []

unfoldable pub finish : ExpectedState → Expected
unfolding missing_between
finish e = record {
  task_id = e.expected.task_id;
  batch_items = e.expected.batch_items;
  point_count = e.expected.point_count;
  distinct_steps = e.expected.distinct_steps;
  first_step = e.expected.first_step;
  last_step = e.expected.last_step;
  keys = e.expected.keys;
  missing_steps =
      e.expected.missing_steps
      ++ missing_between e.steps e.expected.first_step e.expected.last_step;
}
