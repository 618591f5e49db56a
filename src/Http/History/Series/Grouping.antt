-- ===== src/Http/History/Series/Grouping.antt =====
-- The series of a key against a filter of the points.
use mathlib.Core.List.{append_assoc, append-nil}
use metrics_pipeline_go.Prelude.{
  ◌≡◌, refl, sym, ap, ◌∙◌, Bool, true, false, List, [], ◌∷◌, ◌++◌, map, Str, str_eq, str_eq_comm,
  eq_of_str_eq, Bool-cases, inl, inr, if◌then◌else◌, arith,
}
use metrics_pipeline_go.Http.History.Series.{
  HistoryPoint, Series, add_point, series_at, group_points, convert_point, convert_series,
}

-- The points with a key, in order.
unfoldable pub points_with : {V : Type 0} → Str → List (HistoryPoint V) → List (HistoryPoint V)
points_with key [] = []
points_with key (p ∷ points) =
    let rest = points_with key points in if str_eq key p.key then p ∷ rest else rest

series_at-add_point :
    {A : Type 0} (key k : Str) (a : A) (series : Series A)
    → series_at (add_point k a series) key
      ≡ series_at series key ++ (if str_eq key k then a ∷ [] else [])
unfolding series_at add_point
series_at-add_point key k a [] = ground arith
series_at-add_point key k a ((k', l) ∷ series) = elim (Bool-cases (str_eq k k')) [
  | inl same ↦
      let e : k ≡ k' = eq_of_str_eq k k' same in
      rw (same, add_point)
        (let f : str_eq key k ≡ str_eq key k' = ap (λ w. str_eq key w) e in
          ground (arith, f, append-nil (series_at series key)))
  | inr differ ↦
      rw (differ, add_point)
        (elim (Bool-cases (str_eq key k')) [
          | inl here ↦
              let e : key ≡ k' = eq_of_str_eq key k' here in
              let f : str_eq key k ≡ false = rw e (str_eq_comm k' k ∙ differ) in
              ground (arith, here, f, append-nil l)
          | inr there ↦ ground (arith, there, series_at-add_point key k a series)
        ])
]

module _ {V : Type 0} where
  series_at-group_points :
      (key : Str) (points : List (HistoryPoint V)) (series : Series (HistoryPoint V))
      → series_at (group_points points series) key ≡ series_at series key ++ points_with key points
  unfolding group_points points_with
  series_at-group_points key [] series = sym (append-nil (series_at series key))
  series_at-group_points key (p ∷ points) series =
      series_at-group_points key points (add_point p.key p series)
      ∙ ap (λ l. l ++ points_with key points) (series_at-add_point key p.key p series)
      ∙ split_first (str_eq key p.key)
    where
      split_first :
          (b : Bool)
          → (series_at series key ++ (if b then p ∷ [] else [])) ++ points_with key points
            ≡ series_at series key
              ++ (if b then p ∷ points_with key points else points_with key points)
      split_first true = append_assoc (series_at series key) (p ∷ []) (points_with key points)
      split_first false = ap (λ l. l ++ points_with key points) (append-nil (series_at series key))

  series_at-convert_series :
      (key : Str) (series : Series (HistoryPoint V))
      → series_at (convert_series series) key ≡ map convert_point (series_at series key)
  unfolding series_at convert_series
  series_at-convert_series key [] = refl
  series_at-convert_series key ((k, l) ∷ series) =
      ground (arith, series_at-convert_series key series)

  -- In the answer, the series of each key holds exactly the points of the result with that key, in the
  -- order of the result: no point is lost, moved to another series or repeated.
  pub grouped_series :
      (key : Str) (points : List (HistoryPoint V))
      → series_at (convert_series (group_points points [])) key
        ≡ map convert_point (points_with key points)
  unfolding series_at
  grouped_series key points =
      series_at-convert_series key (group_points points [])
      ∙ ap (map convert_point) (series_at-group_points key points [])
