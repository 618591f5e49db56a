-- ===== src/Storage/Reading/Passed.antt =====
-- What a history that is read for an accepted query holds.
use mathlib.Core.List.{append-nil, append_assoc}
use metrics_pipeline_go.Prelude.{
  to_int32, ◌≡◌, refl, sym, ap, subst, ◌∙◌, Bool, false, ◌||◌, Option, none, some, List, [], ◌∷◌,
  ◌++◌, ltb_ℤ, ℤ, pos, negsuc, ok, >>=-eq-ok, fail_if, arith,
}
use metrics_pipeline_go.Http.History.{HistoryQuery, HistoryRequest, parse_history_query}
use metrics_pipeline_go.Http.History.Fields.{IsWithin}
use metrics_pipeline_go.Http.History.Accepted.{parse_history_query-IsAccepted}
use metrics_pipeline_go.Http.History.Series.{HistoryPoint, HistoryResult}
use metrics_pipeline_go.Storage.Reading.{
  max_points_invalid, Rows, read_rows, run_query, HistoryRow, add_history_row, nullable_strings,
  nullable_step, cutoff_at, HistoryArgs, history_args, set_downsampled, query_stored_history,
}

nullable_step_exact :
    (step : Option ℤ) → IsWithin (pos 0) (pos 2147483647) step → nullable_step step ≡ step
unfolding nullable_step to_int32
nullable_step_exact none h = refl
nullable_step_exact (some (pos n)) h = ground arith
nullable_step_exact (some (negsuc n)) h = absurd (omega (arith, h.0))

-- The arguments with the query's own bounds of steps.
abbrev pub exact_args : ℤ → HistoryQuery → HistoryArgs
unfolding cutoff_at
exact_args now query = record {
  task_id = query.task_id;
  cutoff = cutoff_at now;
  keys = nullable_strings query.keys;
  from = query.from;
  to = query.to;
  step_from = query.step_from;
  step_to = query.step_to;
  max_points = query.max_points;
}

args_exact :
    (r : HistoryRequest) {q : HistoryQuery} (now : ℤ)
    → parse_history_query r ≡ ok q
    → history_args now q ≡ exact_args now q
unfolding history_args exact_args
args_exact r {q} now parsed =
    let accepted = parse_history_query-IsAccepted r {q = q} parsed in
    rw
      (
        nullable_step_exact q.step_from accepted.step_from_valid,
        nullable_step_exact q.step_to accepted.step_to_valid,
      )
      refl

module _ {V : Type 0} where
  abbrev pub points_of_row : Option (HistoryRow V) → List (HistoryPoint V)
  points_of_row none = []
  points_of_row (some row) = elim row.point [ none ↦ [] | some point ↦ point ∷ [] ]

  read_rows-whole :
      (start : HistoryResult V) (rows : List (Option (HistoryRow V))) (broken : Bool)
      {result : HistoryResult V}
      → read_rows add_history_row start rows broken ≡ ok result
      → broken ≡ false
  unfolding read_rows
  read_rows-whole start [] broken h = ground arith
  read_rows-whole start (none ∷ rows) broken h = absurd (ground arith)
  read_rows-whole start (some row ∷ rows) broken h =
      read_rows-whole (add_history_row start row) rows broken h

  -- The points of the rows, in their order.
  abbrev pub points_of : List (Option (HistoryRow V)) → List (HistoryPoint V)
  points_of [] = []
  points_of (row ∷ rows) = points_of_row row ++ points_of rows

  add_history_row-points :
      (result : HistoryResult V) (row : HistoryRow V)
      → (add_history_row result row).points ≡ result.points ++ points_of_row (some row)
  unfolding add_history_row
  add_history_row-points result row = ground (arith, append-nil result.points)

  read_rows-points :
      (start : HistoryResult V) (rows : List (Option (HistoryRow V))) (broken : Bool)
      {result : HistoryResult V}
      → read_rows add_history_row start rows broken ≡ ok result
      → result.points ≡ start.points ++ points_of rows
  unfolding read_rows
  read_rows-points start [] broken h = ground (arith, append-nil start.points)
  read_rows-points start (none ∷ rows) broken h = absurd (ground arith)
  read_rows-points start (some row ∷ rows) broken h =
      read_rows-points (add_history_row start row) rows broken h
      ∙ ap (λ points. points ++ points_of rows) (add_history_row-points start row)
      ∙ append_assoc start.points (points_of_row (some row)) (points_of rows)

  run_query_ok :
      (answer : Option (Rows (HistoryRow V))) (start : HistoryResult V) {result : HistoryResult V}
      → run_query add_history_row start answer ≡ ok result
      → (rows : Rows (HistoryRow V)) × (answer ≡ some rows)
        × (rows.broken ≡ false)
        × (result.points ≡ start.points ++ points_of rows.scanned)
  unfolding run_query
  run_query_ok none start h = absurd (ground arith)
  run_query_ok (some rows) start h = (
    rows,
    refl,
    read_rows-whole start rows.scanned rows.broken h,
    read_rows-points start rows.scanned rows.broken h,
  )

  -- The statement answers for the query as it is, and the result has the points of all rows.
  abbrev pub IsRead :
      ℤ → (HistoryArgs → Option (Rows (HistoryRow V))) → HistoryQuery → HistoryResult V → Type 0
  unfolding exact_args
  IsRead now statement query result =
      (rows : Rows (HistoryRow V)) × (statement (exact_args now query) ≡ some rows)
      × (rows.broken ≡ false)
      × (result.points ≡ points_of rows.scanned)
      × (result.downsampled ≡ ltb_ℤ (pos 0) result.bucket_ms)

  -- A history that is read for an accepted query is what the statement answers for the query's own bounds, which the
  -- conversion to int32 keeps: it has the points of all its rows, in their order.
  pub query_stored_history_lem :
      (r : HistoryRequest) {q : HistoryQuery} (now : ℤ)
      (statement : HistoryArgs → Option (Rows (HistoryRow V))) {result : HistoryResult V}
      → parse_history_query r ≡ ok q
      → query_stored_history now statement q ≡ ok result
      → IsRead now statement q result
  unfolding query_stored_history IsRead
  query_stored_history_lem r {q} now statement {result} parsed h =
      let (u, limited, rest) =
        >>=-eq-ok
          (fail_if (ltb_ℤ q.max_points (pos 1) || ltb_ℤ (pos 5000) q.max_points) max_points_invalid)
          _ h in
      let (found, ran, ends) =
        >>=-eq-ok
          (run_query add_history_row
            (record { exists = false; downsampled = false; bucket_ms = pos 0; points = [] })
            (statement (history_args now q)))
          _ rest in
      let (rows, answered, whole, points) = run_query_ok (statement (history_args now q)) _ ran in
      let same : set_downsampled found ≡ result = ground (arith, ends) in
      subst (IsRead now statement q) same
        (rows, ap statement (sym (args_exact r now parsed)) ∙ answered, whole, points, refl)
