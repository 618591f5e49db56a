-- ===== src/Storage/Flush/Committed.antt =====
-- What a flush that returns nil has done.
use metrics_pipeline_go.Prelude.{
  ◌≡◌, true, none, List, [], ◌∷◌, ◌++◌, map, Str, contains, All, arith,
}
use metrics_pipeline_go.Domain.{MetricPoint}
use metrics_pipeline_go.Storage.Points.{MetricPointColumns}
use metrics_pipeline_go.Storage.Points.Encoded.{columns_of, HasInt32Step, encode_metric_points_lem}
use metrics_pipeline_go.Storage.Partitions.{day_of, ensure_metric_point_partitions}
use metrics_pipeline_go.Storage.Partitions.Window.{IsCovered, ensure_metric_point_partitions_lem}
use metrics_pipeline_go.Storage.Flush.{
  DbCall, begin, commit, rollback, close_batch, ensure_partition, seed_counters, persist, Database,
  read_batch, run_transaction, flush_points,
}

module _ {V : Type 0} (db : Database) where
  -- The calls of a flush that commits: the partitions `dates` are made, and the columns are persisted in one
  -- transaction.
  abbrev pub committed_calls : List Str → List Str → MetricPointColumns V → List (DbCall V)
  committed_calls dates task_ids columns =
      (begin
        ∷ (map ensure_partition dates
            ++ seed_counters task_ids ∷ persist columns ∷ close_batch ∷ []))
      ++ commit ∷ rollback ∷ []

  pub run_transaction_ok :
      (columns : MetricPointColumns V) (task_ids : List Str)
      → (run_transaction db columns task_ids).1 ≡ none
      → let (dates, ensured) =
          ensure_metric_point_partitions db.format db.ensure_fails 0 columns.timestamps db.now in
        (ensured ≡ true)
        × ((run_transaction db columns task_ids).0 ≡ committed_calls dates task_ids columns)
  unfolding run_transaction read_batch
  run_transaction_ok columns task_ids h = ground arith

  -- A flush of points with int32 steps that returns nil has committed one transaction that persists
  -- exactly these points, after a partition was made for each timestamp outside of the window.
  pub flush_points-committed :
      (p : MetricPoint V) (points : List (MetricPoint V))
      → All HasInt32Step (p ∷ points)
      → (flush_points db (p ∷ points)).1 ≡ none
      → (dates : List Str) × (task_ids : List Str) × ((flush_points db (p ∷ points)).0
          ≡ committed_calls dates task_ids (columns_of (p ∷ points)))
        × All (IsCovered db.format (day_of db.now) dates) (columns_of (p ∷ points)).timestamps
        × ((s : Str) → contains task_ids s ≡ contains (columns_of (p ∷ points)).task_ids s)
  unfolding flush_points
  flush_points-committed p points steps passed =
      let all = p ∷ points in
      let (tasks, encoded, distinct, ascending, same) = encode_metric_points_lem all steps in
      let made =
        ensure_metric_point_partitions db.format db.ensure_fails 0 (columns_of all).timestamps
          db.now in
      let run : (run_transaction db (columns_of all) tasks).1 ≡ none = rw encoded at passed in
      let (ensured, calls) = run_transaction_ok (columns_of all) tasks run in
      (
        made.0,
        tasks,
        rw (encoded, flush_points) calls,
        (ensure_metric_point_partitions_lem db.format db.ensure_fails 0 (columns_of all).timestamps
            db.now ensured).0,
        same,
      )
