-- ===== src/Storage/Partitions/Window.antt =====
-- Every timestamp of a flush has a partition: one that the maintenance creates, or one that the
-- flush creates itself.
use metrics_pipeline_go.Prelude.{
  ℕ, zero, suc, ◌+◌, ◌≡◌, refl, ◌∙◌, Bool, true, false, not, ◌&&◌, ◌||◌, ◌⊎◌, inl, inr, List, [],
  ◌∷◌, Str, str_eq_refl, contains, sort_strings, is_distinct, is_ascending, is_distinct-add_unique,
  contains-add_unique, contains-sort_strings, is_distinct-sort_strings, is_ascending-sort_strings,
  ℤ, pos, ◌+ℤ◌, ◌-ℤ◌, +ℤ_parts, -ℤ_parts, ltb_ℤ, eqb_ℤ, All, Bool-cases, arith, ok,
}
use metrics_pipeline_go.Storage.Partitions.{
  partition_past_days, partition_future_days, day_of, in_window, dates_outside, exec_dates,
  ensure_metric_point_partitions, days_from, sql_days, ensure_worker_daily_partitions,
}

-- The membership of a day.
unfoldable pub has_day : List ℤ → ℤ → Bool
has_day [] day = false
has_day (d ∷ days) day = eqb_ℤ d day || has_day days day

has_day-days_from :
    (start day : ℤ) (n : ℕ)
    → has_day (days_from start n) day ≡ (not (ltb_ℤ day start) && ltb_ℤ day (start +ℤ pos n))
unfolding has_day days_from
has_day-days_from start day zero = ground (arith, +ℤ_parts start (pos 0))
has_day-days_from start day (suc n) = ground (
  arith,
  has_day-days_from (start +ℤ pos 1) day n,
  +ℤ_parts start (pos 1),
  +ℤ_parts (start +ℤ pos 1) (pos n),
  +ℤ_parts start (pos (suc n)),
)

sql_days_window :
    (reference_day day : ℤ)
    → has_day (sql_days reference_day partition_past_days partition_future_days) day
      ≡ in_window reference_day day
unfolding sql_days in_window
sql_days_window r day = ground (
  arith,
  has_day-days_from (r -ℤ pos 8) day 11,
  -ℤ_parts r (pos 8),
  +ℤ_parts (r -ℤ pos 8) (pos 11),
  +ℤ_parts r (pos 3),
)

worker_days :
    (has_executor fails : Bool) (now : ℤ) {days : List ℤ}
    → ensure_worker_daily_partitions has_executor fails now ≡ ok days
    → sql_days (day_of now) partition_past_days partition_future_days ≡ days
unfolding ensure_worker_daily_partitions
worker_days has_executor fails now h = ground arith

-- A maintenance that passes creates partitions for exactly the days that a flush on the same day
-- takes for granted.
pub window_is_maintained :
    (has_executor fails : Bool) (now : ℤ) {days : List ℤ} (day : ℤ)
    → ensure_worker_daily_partitions has_executor fails now ≡ ok days
    → has_day days day ≡ in_window (day_of now) day
window_is_maintained has_executor fails now day h =
    rw (← worker_days has_executor fails now h) (sql_days_window (day_of now) day)

-- On the day after a maintenance and before the next one, a flush takes the third day after that
-- maintenance for granted, and the maintenance has created no partition for it.
pub day_after_is_missing :
    (has_executor fails : Bool) (now later : ℤ) {days : List ℤ}
    → ensure_worker_daily_partitions has_executor fails now ≡ ok days
    → day_of later ≡ day_of now +ℤ pos 1
    → (in_window (day_of later) (day_of now +ℤ pos 3) ≡ true)
      × (has_day days (day_of now +ℤ pos 3) ≡ false)
unfolding in_window
day_after_is_missing has_executor fails now later {days} h next =
    let r = day_of now in
    (
      ground (
        arith,
        next,
        +ℤ_parts r (pos 1),
        +ℤ_parts r (pos 3),
        -ℤ_parts (r +ℤ pos 1) (pos 8),
        +ℤ_parts (r +ℤ pos 1) (pos 3),
      ),
      window_is_maintained has_executor fails now {days = days} (r +ℤ pos 3) h
          ∙ ground (arith, +ℤ_parts r (pos 3), -ℤ_parts r (pos 8)),
    )

exec_dates_all :
    (fails : ℕ → Bool) (n : ℕ) (dates : List Str)
    → (exec_dates fails n dates).1 ≡ true
    → (exec_dates fails n dates).0 ≡ dates
unfolding exec_dates
exec_dates_all fails n [] h = refl
exec_dates_all fails n (d ∷ dates) h = ground (arith, exec_dates_all fails (n + 1) dates)

module _ (format : ℤ → Str) (reference_day : ℤ) where
  dates_outside-keeps :
      (timestamps : List ℤ) (dates : List Str) (s : Str)
      → contains dates s ≡ true
      → contains (dates_outside format reference_day timestamps dates) s ≡ true
  unfolding dates_outside
  dates_outside-keeps [] dates s h = h
  dates_outside-keeps (t ∷ timestamps) dates s h =
      dates_outside-keeps timestamps _ s
        (ground (arith, contains-add_unique dates (format (day_of t)) s))

  is_distinct-dates_outside :
      (timestamps : List ℤ) (dates : List Str)
      → is_distinct dates ≡ true
      → is_distinct (dates_outside format reference_day timestamps dates) ≡ true
  unfolding dates_outside
  is_distinct-dates_outside [] dates h = h
  is_distinct-dates_outside (t ∷ timestamps) dates h =
      is_distinct-dates_outside timestamps _
        (ground (arith, is_distinct-add_unique dates (format (day_of t))))

  -- The day of a timestamp is in the window, or its date is among those for which a partition is made.
  abbrev pub IsCovered : List Str → ℤ → Type 0
  IsCovered dates t =
      (in_window reference_day (day_of t) ≡ true) ⊎ (contains dates (format (day_of t)) ≡ true)

  dates_outside-covers :
      (timestamps : List ℤ) (dates : List Str)
      → All (IsCovered (dates_outside format reference_day timestamps dates)) timestamps
  unfolding dates_outside
  dates_outside-covers [] dates = tt
  dates_outside-covers (t ∷ timestamps) dates = (
    elim (Bool-cases (in_window reference_day (day_of t))) [
      | inl inside ↦ inl inside
      | inr outside ↦ inr (
          dates_outside-keeps timestamps _ (format (day_of t)) (
            rw outside (
              contains-add_unique dates (format (day_of t)) (format (day_of t))
              ∙ ground (arith, str_eq_refl (format (day_of t))))))
    ],
    dates_outside-covers timestamps _,
  )

  sorted-covers :
      (dates : List Str) (timestamps : List ℤ)
      → All (IsCovered dates) timestamps
      → All (IsCovered (sort_strings dates)) timestamps
  sorted-covers dates [] h = tt
  sorted-covers dates (t ∷ timestamps) h = (
    ground (arith, h.0, contains-sort_strings dates (format (day_of t))),
    sorted-covers dates timestamps h.1,
  )

module _ (format : ℤ → Str) (fails : ℕ → Bool) where
  -- When the step of a flush that ensures partitions passes, each timestamp lies in the window of
  -- its reference time or has a date for which the step made a partition; those dates are tried in ascending
  -- order, each once.
  pub ensure_metric_point_partitions_lem :
      (n : ℕ) (timestamps : List ℤ) (reference_time : ℤ)
      → (ensure_metric_point_partitions format fails n timestamps reference_time).1 ≡ true
      → let made = (ensure_metric_point_partitions format fails n timestamps reference_time).0 in
        All (IsCovered format (day_of reference_time) made) timestamps
        × (is_distinct made ≡ true)
        × (is_ascending made ≡ true)
  unfolding ensure_metric_point_partitions is_distinct
  ensure_metric_point_partitions_lem n timestamps reference_time passed =
      let day = day_of reference_time in
      let dates = dates_outside format day timestamps [] in
      rw (exec_dates_all fails n (sort_strings dates) passed) (
        sorted-covers format day dates timestamps (dates_outside-covers format day timestamps []),
        is_distinct-sort_strings dates (is_distinct-dates_outside format day timestamps [] refl),
        is_ascending-sort_strings dates,
      )
