-- ===== src/Simulator/Expected/Samples.antt =====
-- What is asked of a list of samples: their points, their steps and keys, and the bounds of their steps.
use metrics_pipeline_go.Prelude.{
  ℕ, ◌+◌, ◌≡◌, refl, Bool, true, false, ◌&&◌, ◌||◌, Option, none, some, List, [], ◌∷◌, ◌++◌, length,
  all, is_empty, Str, contains, ℤ, ltb_ℤ, leb_ℤ, eqb_ℤ, arith,
}
use metrics_pipeline_go.Domain.{MetricSample, keys_of}
use metrics_pipeline_go.Simulator.Expected.{lower_of, upper_of}

module _ {V : Type 0} where
  unfoldable pub total_points : List (MetricSample V) → ℕ
  total_points [] = 0
  total_points (x ∷ samples) = length x.metrics + total_points samples

  -- Some sample has the step, and some sample has the key.
  unfoldable pub some_step : List (MetricSample V) → ℤ → Bool
  some_step [] s = false
  some_step (x ∷ samples) s = eqb_ℤ x.step s || some_step samples s

  unfoldable pub some_key : List (MetricSample V) → Str → Bool
  unfolding contains
  some_key [] k = false
  some_key (x ∷ samples) k = contains (keys_of x.metrics) k || some_key samples k

  -- The least and the greatest step of the samples; none when there are none.
  unfoldable pub is_least : Option ℤ → List (MetricSample V) → Bool
  unfolding some_step
  is_least none samples = is_empty samples
  is_least (some first) samples = some_step samples first && all (λ x. leb_ℤ first x.step) samples

  unfoldable pub is_greatest : Option ℤ → List (MetricSample V) → Bool
  unfolding some_step
  is_greatest none samples = is_empty samples
  is_greatest (some last) samples = some_step samples last && all (λ x. leb_ℤ x.step last) samples

  pub total_points-append :
      (xs ys : List (MetricSample V)) → total_points (xs ++ ys) ≡ total_points xs + total_points ys
  unfolding total_points
  total_points-append [] ys = omega arith
  total_points-append (x ∷ xs) ys = omega (arith, total_points-append xs ys)

  pub some_step-append :
      (xs ys : List (MetricSample V)) (s : ℤ)
      → some_step (xs ++ ys) s ≡ some_step xs s || some_step ys s
  unfolding some_step
  some_step-append [] ys s = refl
  some_step-append (x ∷ xs) ys s = ground (arith, some_step-append xs ys s)

  pub some_key-append :
      (xs ys : List (MetricSample V)) (k : Str)
      → some_key (xs ++ ys) k ≡ some_key xs k || some_key ys k
  unfolding some_key
  some_key-append [] ys k = refl
  some_key-append (x ∷ xs) ys k = ground (arith, some_key-append xs ys k)

  all-snoc :
      (p : MetricSample V → Bool) (xs : List (MetricSample V)) (x : MetricSample V)
      → all p (xs ++ x ∷ []) ≡ all p xs && p x
  all-snoc p [] x = ground arith
  all-snoc p (y ∷ xs) x = ground (arith, all-snoc p xs x)

  all_lower :
      (f g : ℤ) (xs : List (MetricSample V))
      → ltb_ℤ g f ≡ true
      → all (λ x. leb_ℤ f x.step) xs ≡ true
      → all (λ x. leb_ℤ g x.step) xs ≡ true
  all_lower f g [] l h = refl
  all_lower f g (x ∷ xs) l h = ground (arith, all_lower f g xs l)

  all_upper :
      (f g : ℤ) (xs : List (MetricSample V))
      → ltb_ℤ f g ≡ true
      → all (λ x. leb_ℤ x.step f) xs ≡ true
      → all (λ x. leb_ℤ x.step g) xs ≡ true
  all_upper f g [] l h = refl
  all_upper f g (x ∷ xs) l h = ground (arith, all_upper f g xs l)

  pub is_least-snoc :
      (first : Option ℤ) (xs : List (MetricSample V)) (x : MetricSample V)
      → is_least first xs ≡ true
      → is_least (lower_of first x.step) (xs ++ x ∷ []) ≡ true
  unfolding is_least some_step
  is_least-snoc none [] x h = ground arith
  is_least-snoc none (y ∷ xs) x h = cc
  is_least-snoc (some f) xs x h = ground (
    arith,
    h,
    some_step-append xs (x ∷ []) f,
    some_step-append xs (x ∷ []) x.step,
    all-snoc (λ y. leb_ℤ f y.step) xs x,
    all-snoc (λ y. leb_ℤ x.step y.step) xs x,
    all_lower f x.step xs,
  )

  pub is_greatest-snoc :
      (last : Option ℤ) (xs : List (MetricSample V)) (x : MetricSample V)
      → is_greatest last xs ≡ true
      → is_greatest (upper_of last x.step) (xs ++ x ∷ []) ≡ true
  unfolding is_greatest some_step
  is_greatest-snoc none [] x h = ground arith
  is_greatest-snoc none (y ∷ xs) x h = cc
  is_greatest-snoc (some f) xs x h = ground (
    arith,
    h,
    some_step-append xs (x ∷ []) f,
    some_step-append xs (x ∷ []) x.step,
    all-snoc (λ y. leb_ℤ y.step f) xs x,
    all-snoc (λ y. leb_ℤ y.step x.step) xs x,
    all_upper f x.step xs,
  )
