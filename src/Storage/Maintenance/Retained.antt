-- ===== src/Storage/Maintenance/Retained.antt =====
-- The loop of the retention ends, and what it leaves.
use metrics_pipeline_go.Prelude.{
  ℕ, zero, suc, ◌+◌, ◌≤◌, ◌<◌, ◌≡◌, refl, Bool, true, false, not, ◌⊎◌, inl, inr, Option, none, some,
  List, [], ◌∷◌, length, keep_if, length-keep_if-le, ℤ, pos, negsuc, ltb_ℤ, eqb_ℤ, Bool-cases, ok,
  err, if◌then◌else◌, arith,
}
use metrics_pipeline_go.Storage.Partitions.{day_of}
use metrics_pipeline_go.Storage.Maintenance.{
  MaintenanceError, retention_failed, Tables, delete_expired, is_expired, is_expired_outbox, stays,
  rows_of_days, maintain_metric_retention, zero_time, batch_size_outside, maintain_retention,
  is_last_batch, retention_loop,
}

module _ {ℓ} {A : Type ℓ} (expired : A → Bool) where
  abbrev pub unexpired : List A → List A
  unexpired rows = keep_if (λ row. not (expired row)) rows

  delete_expired-keeps :
      (n : ℕ) (rows : List A) → unexpired (delete_expired expired n rows).0 ≡ unexpired rows
  unfolding delete_expired
  delete_expired-keeps n [] = refl
  delete_expired-keeps zero (row ∷ rows) = refl
  delete_expired-keeps (suc n) (row ∷ rows) =
      ground (arith, delete_expired-keeps n rows, delete_expired-keeps (suc n) rows)

  delete_expired-count :
      (n : ℕ) (rows : List A)
      → length (delete_expired expired n rows).0 + (delete_expired expired n rows).1 ≡ length rows
  unfolding delete_expired
  delete_expired-count n [] = refl
  delete_expired-count zero (row ∷ rows) = ground arith
  delete_expired-count (suc n) (row ∷ rows) =
      ground (arith, delete_expired-count n rows, delete_expired-count (suc n) rows)

  delete_expired_short :
      (n : ℕ) (rows : List A)
      → (delete_expired expired n rows).1 < n
      → (delete_expired expired n rows).0 ≡ unexpired rows
  unfolding delete_expired
  delete_expired_short n [] h = refl
  delete_expired_short zero (row ∷ rows) h = ground arith
  delete_expired_short (suc n) (row ∷ rows) h =
      ground (arith, delete_expired_short n rows, delete_expired_short (suc n) rows)

day_of_mono : (s t : ℤ) → ltb_ℤ (day_of s) (day_of t) ≡ true → ltb_ℤ s t ≡ true
unfolding day_of
day_of_mono (pos s) (pos t) h = ground arith
day_of_mono (pos s) (negsuc t) h = ground arith
day_of_mono (negsuc s) (pos t) h = ground arith
day_of_mono (negsuc s) (negsuc t) h = ground arith

unexpired_rows :
    (cutoff : ℤ) (rows : List ℤ)
    → unexpired (is_expired cutoff) (rows_of_days (day_of cutoff) rows)
      ≡ unexpired (is_expired cutoff) rows
unexpired_rows cutoff [] = refl
unexpired_rows cutoff (t ∷ rows) = ground (arith, day_of_mono t cutoff, unexpired_rows cutoff rows)

keep_if-keep_if {ℓ} :
    {A : Type ℓ} (p : A → Bool) (xs : List A) → keep_if p (keep_if p xs) ≡ keep_if p xs
keep_if-keep_if p [] = refl
keep_if-keep_if p (x ∷ xs) = ground (arith, keep_if-keep_if p xs)

-- The tables without the expired rows and the days before the cutoff's.
abbrev pub retained : ℤ → Tables → Tables
retained cutoff tables = record {
  point_days = keep_if (stays (day_of cutoff)) tables.point_days;
  event_days = keep_if (stays (day_of cutoff)) tables.event_days;
  points = unexpired (is_expired cutoff) tables.points;
  events = unexpired (is_expired cutoff) tables.events;
  outbox = unexpired (is_expired_outbox cutoff) tables.outbox;
}

abbrev pub rows_left : Tables → ℕ
rows_left tables = length tables.points + length tables.events + length tables.outbox

module _ (cutoff : ℤ) (batch_size : ℕ) (tables : Tables) where
  abbrev left : Tables
  left = (maintain_metric_retention cutoff batch_size tables).1

  retained_left : retained cutoff left ≡ retained cutoff tables
  unfolding maintain_metric_retention
  retained_left =
      rw
        (
          keep_if-keep_if (stays (day_of cutoff)) tables.point_days,
          keep_if-keep_if (stays (day_of cutoff)) tables.event_days,
          delete_expired-keeps (is_expired cutoff) batch_size
              (rows_of_days (day_of cutoff) tables.points),
          delete_expired-keeps (is_expired cutoff) batch_size
              (rows_of_days (day_of cutoff) tables.events),
          delete_expired-keeps (is_expired_outbox cutoff) batch_size tables.outbox,
          unexpired_rows cutoff tables.points,
          unexpired_rows cutoff tables.events,
        )
        refl

  last_left :
      is_last_batch (pos batch_size) (maintain_metric_retention cutoff batch_size tables).0 ≡ true
      → left ≡ retained cutoff tables
  unfolding maintain_metric_retention
  last_left h =
      rw
        (
          delete_expired_short (is_expired cutoff) batch_size
              (rows_of_days (day_of cutoff) tables.points) (ground arith),
          delete_expired_short (is_expired cutoff) batch_size
              (rows_of_days (day_of cutoff) tables.events) (ground arith),
          delete_expired_short (is_expired_outbox cutoff) batch_size tables.outbox (ground arith),
          unexpired_rows cutoff tables.points,
          unexpired_rows cutoff tables.events,
        )
        refl

  rows_left_lt :
      1 ≤ batch_size
      → is_last_batch (pos batch_size) (maintain_metric_retention cutoff batch_size tables).0
        ≡ false
      → rows_left left < rows_left tables
  unfolding maintain_metric_retention
  rows_left_lt some_rows h = ground (
    arith,
    delete_expired-count (is_expired cutoff) batch_size
        (rows_of_days (day_of cutoff) tables.points),
    delete_expired-count (is_expired cutoff) batch_size
        (rows_of_days (day_of cutoff) tables.events),
    delete_expired-count (is_expired_outbox cutoff) batch_size tables.outbox,
    length-keep_if-le (λ t. stays (day_of cutoff) (day_of t)) tables.points,
    length-keep_if-le (λ t. stays (day_of cutoff) (day_of t)) tables.events,
  )

-- What a run of the loop leaves: exactly the retained rows, or, after a failed query, tables that have
-- lost expired rows only.
abbrev pub IsRetention : ℤ → Tables → Tables → Option MaintenanceError → Type 0
IsRetention cutoff tables end failure =
    ((failure ≡ none) × (end ≡ retained cutoff tables))
    ⊎ ((failure ≡ some retention_failed) × (retained cutoff end ≡ retained cutoff tables))

module _ (fails : ℕ → Bool) (cutoff : ℤ) (batch_size : ℕ) where
  maintain_retention_ok :
      (n : ℕ) (tables : Tables)
      → eqb_ℤ cutoff zero_time ≡ false
      → batch_size_outside (pos batch_size) ≡ false
      → maintain_retention true (fails n) cutoff (pos batch_size) tables ≡ (
          if fails n
          then err retention_failed
          else ok (maintain_metric_retention cutoff batch_size tables))
  unfolding maintain_retention
  maintain_retention_ok n tables dated sized = ground arith

  -- With fuel for more rounds than there are rows, the loop of batches of a valid size ends, for a cutoff that is not the zero time. Without
  -- an error, the tables are the retained ones: every expired row and day is gone, and all else is there in
  -- its order. With an error, it is a failed query, and only expired rows are gone.
  pub retention_loop_lem :
      (fuel n : ℕ) (tables : Tables)
      → eqb_ℤ cutoff zero_time ≡ false
      → batch_size_outside (pos batch_size) ≡ false
      → rows_left tables < fuel
      → (end : Tables) × (failure : Option MaintenanceError) × (retention_loop fuel fails n cutoff
            (pos batch_size)
            tables
          ≡ some (end, failure))
        × IsRetention cutoff tables end failure
  unfolding retention_loop
  retention_loop_lem zero n tables dated sized enough = ground arith
  retention_loop_lem (suc fuel) n tables dated sized enough =
      let run = maintain_retention_ok n tables dated sized in
      let round = maintain_metric_retention cutoff batch_size tables in
      elim (Bool-cases (fails n)) [
        | inl failed ↦
            (tables, some retention_failed, rw (retention_loop, run, failed) refl, inr (refl, refl))
        | inr passed ↦ elim (Bool-cases (is_last_batch (pos batch_size) round.0)) [
          | inl last ↦ (
            round.1,
            none,
            rw (retention_loop, run, passed, last) refl,
            inl (refl, last_left cutoff batch_size tables last),
          )
          | inr more ↦
              let (end, failure, ends, is) =
                retention_loop_lem fuel (n + 1) round.1 dated sized
                  (ground (arith, rows_left_lt cutoff batch_size tables (ground arith) more)) in
              (
                end,
                failure,
                rw (retention_loop, run, passed, more) ends,
                rw (retained_left cutoff batch_size tables) at is,
              )
        ]
      ]
