-- ===== src/Storage/Tests.antt =====
-- The message of the samples in the store's columns, its flush, and the partitions of a maintenance.
use metrics_pipeline_go.Prelude.{
  ℕ, ◌≡◌, refl, true, false, none, List, [], ◌∷◌, Str, codes, contains, ℤ, pos, ◌+ℤ◌, All, ok,
  arith,
}
use metrics_pipeline_go.Domain.{MetricPoint}
use metrics_pipeline_go.Messaging.Message.{expand_metric_points}
use metrics_pipeline_go.Samples.{floats, two_sample_message, two_sample_message_valid}
use metrics_pipeline_go.Storage.Points.{encode_metric_points}
use metrics_pipeline_go.Storage.Points.Encoded.{columns_of, message_is_encoded}
use metrics_pipeline_go.Storage.Partitions.{
  day_of, in_window, sql_days, ensure_worker_daily_partitions,
}
use metrics_pipeline_go.Storage.Partitions.Window.{
  has_day, IsCovered, window_is_maintained, day_after_is_missing,
}
use metrics_pipeline_go.Storage.Flush.{Database, flush_points}
use metrics_pipeline_go.Storage.Flush.Committed.{committed_calls, flush_points-committed}

message_is_encoded_example :
    encode_metric_points (expand_metric_points floats two_sample_message)
    ≡ ok (columns_of (expand_metric_points floats two_sample_message), codes "demo-1" ∷ [])
message_is_encoded_example = message_is_encoded floats two_sample_message two_sample_message_valid

-- Noon of day 100, and the day after.
abbrev noon : ℤ
noon = pos 8683200000

abbrev next_noon : ℤ
next_noon = pos 8769600000

abbrev kept_days : List ℤ
unfolding sql_days
kept_days = sql_days (pos 100) 8 2

maintained : ensure_worker_daily_partitions true false noon ≡ ok kept_days
unfolding ensure_worker_daily_partitions kept_days day_of
maintained = refl

window_is_maintained_example : has_day kept_days (pos 102) ≡ in_window (day_of noon) (pos 102)
window_is_maintained_example =
    window_is_maintained true false noon {days = kept_days} (pos 102) maintained

next_day : day_of next_noon ≡ day_of noon +ℤ pos 1
unfolding day_of ◌+ℤ◌
next_day = refl

day_after_is_missing_example :
    (in_window (day_of next_noon) (day_of noon +ℤ pos 3) ≡ true)
    × (has_day kept_days (day_of noon +ℤ pos 3) ≡ false)
day_after_is_missing_example =
    day_after_is_missing true false noon next_noon {days = kept_days} maintained next_day

abbrev working : Database
working = record {
  now = noon;
  format = λ day. codes "1970-03-01";
  begin_fails = false;
  ensure_fails = λ n. false;
  seed_fails = false;
  persist_fails = false;
  scan_fails = false;
  read_fails = false;
  close_fails = false;
  commit_fails = false;
}

abbrev point : ℤ → ℤ → MetricPoint ℕ
point step ts = record {
  task_id = codes "demo-1";
  key = codes "loss";
  step = step;
  timestamp_millis = ts;
  value = 5;
}

-- One point of today and one of the day 0, whose partition the flush makes.
flushes : (flush_points working (point (pos 1) noon ∷ point (pos 2) (pos 7) ∷ [])).1 ≡ none
unfolding flush_points
flushes = refl

flush_points-committed_example :
    (dates : List Str) × (task_ids : List Str) × ((flush_points working
        (point (pos 1) noon ∷ point (pos 2) (pos 7) ∷ [])).0
      ≡ committed_calls working dates task_ids
          (columns_of (point (pos 1) noon ∷ point (pos 2) (pos 7) ∷ [])))
    × All
        (IsCovered working.format (day_of working.now) dates)
        (columns_of (point (pos 1) noon ∷ point (pos 2) (pos 7) ∷ [])).timestamps
    × ((s : Str)
        → contains task_ids s
          ≡ contains (columns_of (point (pos 1) noon ∷ point (pos 2) (pos 7) ∷ [])).task_ids s)
flush_points-committed_example =
    flush_points-committed working (point (pos 1) noon) (point (pos 2) (pos 7) ∷ [])
      ((omega arith, omega arith), ((omega arith, omega arith), tt)) flushes
