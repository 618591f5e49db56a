-- ===== src/Simulator.antt =====
-- internal/simulator/simulator.go: the checks of its configuration and the generator of batches.
--
-- The values of the metrics are random numbers and stay parameters, and so does what the checks ask of float64.
pub mod Expected
pub mod Task
pub mod Audit
mod Tests
use metrics_pipeline_go.Prelude.{
  ℕ, zero, suc, ◌+◌, ◌%◌, ◌≡◌, Bool, true, false, not, ◌&&◌, ◌||◌, List, [], ◌∷◌, ◌++◌, all, length,
  Str, codes, is_empty, is_alphanumeric, is_name_byte, ltb, ltb_ℤ, leb_ℤ, ℤ, pos, pos_part, ◌==◌,
  ◌+ℤ◌, Result, ok, err, ◌>>◌, fail_if, if◌then◌else◌,
}
use metrics_pipeline_go.Domain.{MetricSample, MetricBatch, Metrics}

-- The comparisons of float64 with 0 and 1, which fail on a NaN.
pub record Rates (V : Type 0) : Type 0 where
  pub at_most_zero : V → Bool
  pub below_zero : V → Bool
  pub above_one : V → Bool

pub record SimConfig (V : Type 0) : Type 0 where
  pub endpoint : Str
  pub tasks : ℤ
  pub rate : V
  pub duration : ℤ
  pub batch_size : ℤ
  pub task_prefix : Str
  pub eval_loss : Bool
  pub eval_every : ℤ
  pub gpu_util : Bool
  pub gpu_mem : Bool
  pub throughput : Bool
  pub duplicate_rate : V
  pub failure_rate : V

pub data SimError : Type 0 where
  endpoint_empty tasks_invalid rate_invalid duration_invalid batch_size_invalid eval_every_invalid
        task_prefix_invalid duplicate_rate_invalid failure_rate_invalid :
      SimError

-- taskPrefixPattern.
abbrev pub prefix_matches : Str → Bool
prefix_matches [] = false
prefix_matches (c ∷ s) = is_alphanumeric c && all is_name_byte s

-- The generator's counters, with its interval in milliseconds. Its steps start at 0.
pub record Generator : Type 0 where
  pub task_id : Str
  pub step : ℕ
  pub next_ts : ℤ
  pub interval : ℤ

module _ {V : Type 0} where
  -- Config.Validate; `trim_space` is strings.TrimSpace.
  unfoldable pub validate_config : Rates V → (Str → Str) → SimConfig V → Result SimError (Unit {0})
  validate_config rates trim_space c = do
    fail_if (is_empty (trim_space c.endpoint)) endpoint_empty
    fail_if (leb_ℤ c.tasks (pos 0)) tasks_invalid
    fail_if (rates.at_most_zero c.rate) rate_invalid
    fail_if (leb_ℤ c.duration (pos 0)) duration_invalid
    fail_if (leb_ℤ c.batch_size (pos 0) || ltb_ℤ (pos 500) c.batch_size) batch_size_invalid
    fail_if (leb_ℤ c.eval_every (pos 0)) eval_every_invalid
    fail_if
        ((length c.task_prefix == 0)
          || ltb 48 (length c.task_prefix)
          || not (prefix_matches c.task_prefix))
        task_prefix_invalid
    fail_if (rates.below_zero c.duplicate_rate || rates.above_one c.duplicate_rate)
        duplicate_rate_invalid
    fail_if (rates.below_zero c.failure_rate || rates.above_one c.failure_rate) failure_rate_invalid
    ok tt

  abbrev pub optional_metric : Bool → Str → V → Metrics V
  optional_metric present key value = if present then (key, value) ∷ [] else []

  -- The metrics of a step: `values` gives the value of each.
  unfoldable pub step_metrics : SimConfig V → (ℕ → Str → V) → ℕ → Metrics V
  step_metrics c values step =
      (codes "loss", values step (codes "loss"))
      ∷ (codes "lr", values step (codes "lr"))
      ∷ (optional_metric (c.eval_loss && ((step % pos_part c.eval_every) == 0)) (codes "eval_loss")
            (values step (codes "eval_loss"))
          ++ optional_metric c.gpu_util (codes "gpu_util") (values step (codes "gpu_util"))
          ++ optional_metric c.gpu_mem (codes "gpu_mem") (values step (codes "gpu_mem"))
          ++ optional_metric c.throughput (codes "throughput") (values step (codes "throughput")))

  -- The loop of NextBatch, with the rounds left.
  unfoldable pub next_samples :
      SimConfig V → (ℕ → Str → V) → Generator → ℕ → List (MetricSample V) × Generator
  unfolding ◌+ℤ◌ step_metrics
  next_samples c values g zero = ([], g)
  next_samples c values g (suc rounds) =
      let next : Generator = record {
        task_id = g.task_id;
        step = g.step + 1;
        next_ts = g.next_ts +ℤ g.interval;
        interval = g.interval;
      } in
      let rest = next_samples c values next rounds in
      (
        record {
          step = pos g.step;
          timestamp_millis = g.next_ts;
          metrics = step_metrics c values g.step;
        }
            ∷ rest.0,
        rest.1,
      )

  -- NextBatch, for a size of at least 1.
  unfoldable pub next_batch :
      SimConfig V → (ℕ → Str → V) → Generator → ℕ → MetricBatch V × Generator
  unfolding next_samples
  next_batch c values g size =
      let rest = next_samples c values g (if size == 0 then 1 else size) in
      (record { task_id = g.task_id; samples = rest.0 }, rest.1)
