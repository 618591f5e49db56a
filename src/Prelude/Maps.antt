-- ===== src/Prelude/Maps.antt =====
-- Maps and stores as functions: a write at one key.
use Prim.Native.Nat.{ℕ}
use mathlib.Core.Path.{◌≡◌, refl, sym, ap, ◌∙◌}
use mathlib.Core.Logic.{inl, inr}
use native.Mathlib.Omega.{arith}
use metrics_pipeline_go.Prelude.Tests.{◌==◌, Bool-cases, if◌then◌else◌}
use metrics_pipeline_go.Prelude.Text.{Str, str_eq, str_eq_refl, eq_of_str_eq}

module _ {ℓ} {A : Type ℓ} where
  unfoldable pub update : (ℕ → A) → ℕ → A → ℕ → A
  update f i v j = if j == i then v else f j

  -- `m[key] = value`.
  unfoldable pub put : (Str → A) → Str → A → Str → A
  unfolding str_eq
  put m key value k = if str_eq k key then value else m k

  pub put_self : (m : Str → A) (k : Str) (v : A) → put m k v k ≡ v
  unfolding put
  put_self m k v = rw (str_eq_refl k) refl

  -- Writing what is there changes nothing.
  pub put_same : (m : Str → A) (k : Str) (v : A) (j : Str) → m k ≡ v → put m k v j ≡ m j
  unfolding put
  put_same m k v j h = elim (Bool-cases (str_eq j k)) [
    | inl same ↦ rw (same, put) (sym h ∙ ap m (sym (eq_of_str_eq j k same)))
    | inr other ↦ rw (other, put) refl
  ]

  pub put-put : (m : Str → A) (k : Str) (v w : A) (j : Str) → put (put m k v) k w j ≡ put m k w j
  unfolding put
  put-put m k v w j = ground arith
