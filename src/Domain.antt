-- ===== src/Domain.antt =====
-- internal/domain: metrics.go and events.go. A Go string is the list of its bytes, and a
-- map[string]float64 the list of its entries in the order in which a `range` visits them.
use metrics_pipeline_go.Prelude.{
  Str, List, [], ◌∷◌, ℤ, Bool, true, not, ◌&&◌, contains, map, str_eq,
}

-- What the code uses of float64: the test against NaN and the infinities, and the zero value.
pub record Floats (V : Type 0) : Type 0 where
  pub is_finite : V → Bool
  pub zero_value : V

abbrev pub Metrics : Type 0 → Type 0
Metrics V = List (Str × V)

pub record MetricSample (V : Type 0) : Type 0 where
  pub step : ℤ
  pub timestamp_millis : ℤ
  pub metrics : Metrics V

pub record MetricBatch (V : Type 0) : Type 0 where
  pub task_id : Str
  pub samples : List (MetricSample V)

pub record MetricPoint (V : Type 0) : Type 0 where
  pub task_id : Str
  pub key : Str
  pub step : ℤ
  pub timestamp_millis : ℤ
  pub value : V

-- The payload is opaque JSON.
pub record OutboxEvent (P : Type 0) : Type 0 where
  pub id : ℤ
  pub task_id : Str
  pub event_seq : ℤ
  pub payload : P
  pub claim_token : Str

pub record RealtimeEvent (P : Type 0) : Type 0 where
  pub task_id : Str
  pub event_seq : ℤ
  pub payload : P

module _ {V : Type 0} where
  abbrev pub keys_of : Metrics V → List Str
  keys_of m = map (λ e. e.0) m

  -- A list of entries stands for a map when no key occurs twice.
  unfoldable pub is_map : Metrics V → Bool
  unfolding contains str_eq
  is_map [] = true
  is_map ((k, v) ∷ m) = not (contains (keys_of m) k) && is_map m
