-- ===== src/Storage/Partitions.antt =====
-- The daily partitions: ensureMetricPointPartitions of
-- internal/storage/postgres/metric_point_store.go, the functions of partition_maintainer.go that create
-- partitions, and the loop of ensure_metric_daily_partitions in migrations/000001_initial_schema.sql.
--
-- A timestamp is in milliseconds since the epoch, a day is the number of days since then. The text of a day
-- (time.DateOnly) is a parameter.
pub mod Window
use metrics_pipeline_go.Prelude.{
  ℕ, zero, suc, ◌+◌, ◌/◌, Bool, true, false, not, ◌&&◌, ◌||◌, List, [], ◌∷◌, Str, add_unique,
  sort_strings, ℤ, pos, negsuc, ◌+ℤ◌, ◌-ℤ◌, ltb_ℤ, pos_part, Result, ok, err, ◌>>=◌, ◌>>◌, fail_if,
  if◌then◌else◌,
}

abbrev pub partition_past_days : ℕ
partition_past_days = 8

abbrev pub partition_future_days : ℕ
partition_future_days = 2

abbrev pub day_millis : ℕ
day_millis = 86400000

-- `Truncate(24 * time.Hour)` in UTC, which rounds down.
unfoldable pub day_of : ℤ → ℤ
day_of (pos n) = pos (n / day_millis)
day_of (negsuc n) = negsuc (n / day_millis)

-- `!day.Before(windowStart) && day.Before(windowEnd)`.
unfoldable pub in_window : ℤ → ℤ → Bool
unfolding ◌+ℤ◌ ◌-ℤ◌
in_window reference_day day =
    not (ltb_ℤ day (reference_day -ℤ pos partition_past_days))
    && ltb_ℤ day (reference_day +ℤ pos (partition_future_days + 1))

-- The set of dates outside of the window.
unfoldable pub dates_outside : (ℤ → Str) → ℤ → List ℤ → List Str → List Str
unfolding day_of in_window add_unique
dates_outside format reference_day [] dates = dates
dates_outside format reference_day (t ∷ timestamps) dates =
    dates_outside format reference_day timestamps
      (if in_window reference_day (day_of t) then dates else add_unique dates (format (day_of t)))

-- The loop of Exec calls from the n-th call of the database on: the dates tried, and whether all
-- calls passed.
unfoldable pub exec_dates : (ℕ → Bool) → ℕ → List Str → List Str × Bool
exec_dates fails n [] = ([], true)
exec_dates fails n (date ∷ dates) =
    let rest = exec_dates fails (n + 1) dates in
    if fails n then (date ∷ [], false) else (date ∷ rest.0, rest.1)

unfoldable pub ensure_metric_point_partitions :
    (ℤ → Str) → (ℕ → Bool) → ℕ → List ℤ → ℤ → List Str × Bool
unfolding exec_dates dates_outside sort_strings day_of
ensure_metric_point_partitions format fails n timestamps reference_time =
    exec_dates fails n (sort_strings (dates_outside format (day_of reference_time) timestamps []))

pub data PartitionError : Type 0 where
  day_ranges_invalid executor_required ensure_failed : PartitionError

-- The days for which the SQL function creates partitions: its loop, with the rounds left.
unfoldable pub days_from : ℤ → ℕ → List ℤ
unfolding ◌+ℤ◌
days_from day zero = []
days_from day (suc rounds) = day ∷ days_from (day +ℤ pos 1) rounds

unfoldable pub sql_days : ℤ → ℕ → ℕ → List ℤ
unfolding days_from ◌-ℤ◌
sql_days reference_day past_days future_days =
    days_from (reference_day -ℤ pos past_days) (past_days + future_days + 1)

-- ensureDailyPartitions: the days for which the SQL function creates partitions when it passes. The
-- flags say whether there is an executor and whether its call fails.
unfoldable pub ensure_daily_partitions : Bool → Bool → ℤ → ℤ → ℤ → Result PartitionError (List ℤ)
unfolding sql_days
ensure_daily_partitions has_executor fails reference_day past_days future_days = do
  fail_if
      (ltb_ℤ past_days (pos 0)
        || ltb_ℤ future_days (pos 0)
        || ltb_ℤ (pos 366) past_days
        || ltb_ℤ (pos 366) future_days)
      day_ranges_invalid
  fail_if (not has_executor) executor_required
  fail_if fails ensure_failed
  ok (sql_days reference_day (pos_part past_days) (pos_part future_days))

-- EnsureWorkerDailyPartitions at the time `now`.
unfoldable pub ensure_worker_daily_partitions : Bool → Bool → ℤ → Result PartitionError (List ℤ)
unfolding ensure_daily_partitions day_of
ensure_worker_daily_partitions has_executor fails now =
    ensure_daily_partitions has_executor fails (day_of now) (pos partition_past_days)
      (pos partition_future_days)
