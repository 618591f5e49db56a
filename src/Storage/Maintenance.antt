-- ===== src/Storage/Maintenance.antt =====
-- internal/storage/postgres/partition_maintainer.go: the retention of the metrics and the loop of the
-- maintenance, over the deletions of migrations/000002_retention_maintenance.sql.
--
-- A table lists its rows in the order of the query that deletes from it, by their timestamps in milliseconds; every
-- row of a partitioned table stands in the partition of its day. The queries of a run are numbered, and `fails`
-- says which of them fail; a failed query changes nothing.
pub mod Retained
mod Tests
use metrics_pipeline_go.Prelude.{
  ℕ, zero, suc, ◌+◌, ◌-◌, ◌≡◌, refl, Bool, true, false, not, ◌&&◌, ◌||◌, Option, none, some, List,
  [], ◌∷◌, length, keep_if, ℤ, pos, negsuc, ltb, ltb_ℤ, leb_ℤ, eqb_ℤ, pos_part, ◌-ℤ◌, Result, ok,
  err, ◌>>=◌, ◌>>◌, fail_if, if◌then◌else◌,
}
use metrics_pipeline_go.Storage.Partitions.{PartitionError, day_of, ensure_worker_daily_partitions}

pub record RetentionResult : Type 0 where
  pub point_partitions_dropped : ℕ
  pub event_partitions_dropped : ℕ
  pub metric_points_deleted : ℕ
  pub metric_events_deleted : ℕ
  pub metric_outbox_deleted : ℕ

pub data MaintenanceError : Type 0 where
  window_invalid interval_invalid batch_size_invalid retention_executor_required cutoff_required
        retention_failed :
      MaintenanceError
  partition_failed : PartitionError → MaintenanceError

pub record OutboxRow : Type 0 where
  pub created_at : ℤ
  pub is_published : Bool

pub record Tables : Type 0 where
  pub point_days : List ℤ
  pub event_days : List ℤ
  pub points : List ℤ
  pub events : List ℤ
  pub outbox : List OutboxRow

-- `DELETE ... WHERE expired ORDER BY ... LIMIT n`, and the number of rows that it deletes.
unfoldable pub delete_expired {ℓ} : {A : Type ℓ} → (A → Bool) → ℕ → List A → List A × ℕ
delete_expired expired n [] = ([], 0)
delete_expired expired zero (row ∷ rows) = (row ∷ rows, 0)
delete_expired expired (suc n) (row ∷ rows) =
    let next = delete_expired expired n rows in
    let same = delete_expired expired (suc n) rows in
    if expired row then (next.0, suc next.1) else (row ∷ same.0, same.1)

abbrev pub is_expired : ℤ → ℤ → Bool
is_expired cutoff t = ltb_ℤ t cutoff

abbrev pub is_expired_outbox : ℤ → OutboxRow → Bool
is_expired_outbox cutoff row = ltb_ℤ row.created_at cutoff && row.is_published

-- The days whose partitions stay, and the rows that stand in them.
abbrev pub stays : ℤ → ℤ → Bool
stays cutoff_day day = not (ltb_ℤ day cutoff_day)

abbrev pub rows_of_days : ℤ → List ℤ → List ℤ
rows_of_days cutoff_day rows = keep_if (λ t. stays cutoff_day (day_of t)) rows

abbrev pub dropped : ℤ → List ℤ → ℕ
dropped cutoff_day days = length days - length (keep_if (stays cutoff_day) days)

-- maintain_metric_retention.
unfoldable pub maintain_metric_retention : ℤ → ℕ → Tables → RetentionResult × Tables
unfolding delete_expired day_of
maintain_metric_retention cutoff batch_size tables =
    let day = day_of cutoff in
    let (points, points_deleted) =
      delete_expired (is_expired cutoff) batch_size (rows_of_days day tables.points) in
    let (events, events_deleted) =
      delete_expired (is_expired cutoff) batch_size (rows_of_days day tables.events) in
    let (outbox, outbox_deleted) =
      delete_expired (is_expired_outbox cutoff) batch_size tables.outbox in
    (
      record {
        point_partitions_dropped = dropped day tables.point_days;
        event_partitions_dropped = dropped day tables.event_days;
        metric_points_deleted = points_deleted;
        metric_events_deleted = events_deleted;
        metric_outbox_deleted = outbox_deleted;
      },
      record {
        point_days = keep_if (stays day) tables.point_days;
        event_days = keep_if (stays day) tables.event_days;
        points = points;
        events = events;
        outbox = outbox;
      },
    )

-- Go's zero time.
abbrev pub zero_time : ℤ
zero_time = negsuc 62135596799999

abbrev pub batch_size_outside : ℤ → Bool
batch_size_outside batch_size = ltb_ℤ batch_size (pos 1) || ltb_ℤ (pos 100000) batch_size

-- MaintainRetention: the flags say whether there is an executor and whether its query fails.
unfoldable pub maintain_retention :
    Bool → Bool → ℤ → ℤ → Tables → Result MaintenanceError (RetentionResult × Tables)
unfolding maintain_metric_retention
maintain_retention has_executor fails cutoff batch_size tables = do
  fail_if (not has_executor) retention_executor_required
  fail_if (eqb_ℤ cutoff zero_time) cutoff_required
  fail_if (batch_size_outside batch_size) batch_size_invalid
  fail_if fails retention_failed
  ok (maintain_metric_retention cutoff (pos_part batch_size) tables)

-- The batch deletes fewer rows of each table than it may.
abbrev pub is_last_batch : ℤ → RetentionResult → Bool
is_last_batch batch_size result =
    ltb_ℤ (pos result.metric_points_deleted) batch_size
    && ltb_ℤ (pos result.metric_events_deleted) batch_size
    && ltb_ℤ (pos result.metric_outbox_deleted) batch_size

-- The loop of batches: `none` when the fuel runs out; else the tables and the error.
unfoldable pub retention_loop :
    ℕ → (ℕ → Bool) → ℕ → ℤ → ℤ → Tables → Option (Tables × Option MaintenanceError)
unfolding maintain_retention
retention_loop zero fails n cutoff batch_size tables = none
retention_loop (suc fuel) fails n cutoff batch_size tables =
    elim (maintain_retention true (fails n) cutoff batch_size tables) [
      | err e ↦ some (tables, some e)
      | ok (result, left) ↦ elim (is_last_batch batch_size result) [
        | true ↦ some (left, none)
        | false ↦ retention_loop fuel fails (n + 1) cutoff batch_size left
      ]
    ]

-- One maintenance, at the time `now`.
pub record Round : Type 0 where
  pub now : ℤ
  pub partitions_fail : Bool
  pub query_fails : ℕ → Bool

unfoldable pub maintain : ℕ → ℤ → ℤ → Round → Tables → Option (Tables × Option MaintenanceError)
unfolding retention_loop ensure_worker_daily_partitions ◌-ℤ◌
maintain fuel window batch_size round tables =
    elim (ensure_worker_daily_partitions true round.partitions_fail round.now) [
      | err e ↦ some (tables, some (partition_failed e))
      | ok days ↦ retention_loop fuel round.query_fails 0 (round.now -ℤ window) batch_size tables
    ]

-- What the loop of the maintenance waits for: its context, or a tick with the tables as they then are.
pub data Wake : Type 0 where
  context_done : Wake
  tick : Round → Tables → Wake

-- The outcome of the waiting loop, `none` when the wakes end first.
unfoldable pub on_wakes : ℕ → ℤ → ℤ → List Wake → Option (Option MaintenanceError)
unfolding maintain
on_wakes fuel window batch_size [] = none
on_wakes fuel window batch_size (context_done ∷ wakes) = some none
on_wakes fuel window batch_size (tick round tables ∷ wakes) =
    elim (maintain fuel window batch_size round tables) [
      | none ↦ none
      | some (left, some e) ↦ some (some e)
      | some (left, none) ↦ on_wakes fuel window batch_size wakes
    ]

-- RunPartitionMaintenance, with the times in milliseconds.
unfoldable pub run_partition_maintenance :
    ℕ → ℤ → ℤ → ℤ → Round → Tables → List Wake → Option (Option MaintenanceError)
unfolding on_wakes
run_partition_maintenance fuel window interval batch_size round tables wakes =
    if leb_ℤ window (pos 0)
    then some (some window_invalid)
    else if leb_ℤ interval (pos 0)
    then some (some interval_invalid)
    else if batch_size_outside batch_size
    then some (some batch_size_invalid)
    else on_wakes fuel window batch_size (tick round tables ∷ wakes)

abbrev pub retention_window : ℤ
retention_window = pos 604800000

abbrev pub partition_refresh_interval : ℤ
partition_refresh_interval = pos 3600000

abbrev pub retention_delete_batch_size : ℤ
retention_delete_batch_size = pos 10000

-- RunDailyPartitionMaintenance.
unfoldable pub run_daily_partition_maintenance :
    ℕ → Round → Tables → List Wake → Option (Option MaintenanceError)
unfolding run_partition_maintenance
run_daily_partition_maintenance fuel round tables wakes =
    run_partition_maintenance fuel retention_window partition_refresh_interval
      retention_delete_batch_size round tables wakes
