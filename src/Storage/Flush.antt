-- ===== src/Storage/Flush.antt =====
-- internal/storage/postgres/metric_point_store.go: Flush, one transaction for the points of a flush of
-- the worker.
--
-- A run is the trace of the calls that change the database or its transaction; the loop that reads the results of the
-- batch is in what the fields of the database answer.
pub mod Committed
use metrics_pipeline_go.Prelude.{
  ℕ, suc, ◌+◌, ◌≡◌, Bool, true, false, not, ◌||◌, Option, none, some, List, [], ◌∷◌, ◌++◌, map, Str,
  ℤ, is_empty, length, Result, ok, err, if◌then◌else◌,
}
use metrics_pipeline_go.Domain.{MetricPoint}
use metrics_pipeline_go.Storage.Points.{MetricPointColumns, EncodeError, encode_metric_points}
use metrics_pipeline_go.Storage.Partitions.{ensure_metric_point_partitions}

pub data FlushError : Type 0 where
  encode_failed : EncodeError → FlushError
  begin_failed partition_failed seed_failed persist_failed scan_failed read_failed close_failed
        commit_failed :
      FlushError

-- The calls that a flush makes.
pub data DbCall (V : Type 0) : Type 0 where
  begin commit rollback close_batch : DbCall V
  ensure_partition : Str → DbCall V
  seed_counters : List Str → DbCall V
  persist : MetricPointColumns V → DbCall V

-- `now` is time.Now, `format` time.DateOnly; the fields that answer `true` are failures. `ensure_fails` goes by
-- the number of the partition. A failed close of the batch is joined to the error that was met first.
pub record Database : Type 0 where
  pub now : ℤ
  pub format : ℤ → Str
  pub begin_fails : Bool
  pub ensure_fails : ℕ → Bool
  pub seed_fails : Bool
  pub persist_fails : Bool
  pub scan_fails : Bool
  pub read_fails : Bool
  pub close_fails : Bool
  pub commit_fails : Bool

module _ {V : Type 0} (db : Database) where
  -- The reading of the results of the batch, which is always closed.
  unfoldable pub read_batch : MetricPointColumns V → List Str → List (DbCall V) × Option FlushError
  read_batch columns task_ids =
      if db.seed_fails
      then (seed_counters task_ids ∷ close_batch ∷ [], some seed_failed)
      else if db.persist_fails
      then (seed_counters task_ids ∷ persist columns ∷ close_batch ∷ [], some persist_failed)
      else if db.scan_fails
      then (seed_counters task_ids ∷ persist columns ∷ close_batch ∷ [], some scan_failed)
      else if db.read_fails
      then (seed_counters task_ids ∷ persist columns ∷ close_batch ∷ [], some read_failed)
      else (
        seed_counters task_ids ∷ persist columns ∷ close_batch ∷ [],
        if db.close_fails then some close_failed else none,
      )

  abbrev pub finish : List (DbCall V) → Option FlushError → List (DbCall V) × Option FlushError
  finish calls (some e) = (calls ++ rollback ∷ [], some e)
  finish calls none =
      (calls ++ commit ∷ rollback ∷ [], if db.commit_fails then some commit_failed else none)

  -- The transaction of the columns. The deferred Rollback does nothing after a commit.
  unfoldable pub run_transaction :
      MetricPointColumns V → List Str → List (DbCall V) × Option FlushError
  unfolding read_batch ensure_metric_point_partitions
  run_transaction columns task_ids =
      let (dates, ensured) =
        ensure_metric_point_partitions db.format db.ensure_fails 0 columns.timestamps db.now in
      let (calls, failure) = read_batch columns task_ids in
      if db.begin_fails
      then (begin ∷ [], some begin_failed)
      else if ensured
      then finish (begin ∷ (map ensure_partition dates ++ calls)) failure
      else (begin ∷ (map ensure_partition dates ++ rollback ∷ []), some partition_failed)

  unfoldable pub flush_points : List (MetricPoint V) → List (DbCall V) × Option FlushError
  unfolding encode_metric_points run_transaction
  flush_points points = if is_empty points then ([], none) else elim (encode_metric_points points) [
    | err e ↦ ([], some (encode_failed e))
    | ok (columns, task_ids) ↦ run_transaction columns task_ids
  ]
