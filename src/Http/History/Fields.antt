-- ===== src/Http/History/Fields.antt =====
-- The fields of a history query, described by numbers alone, and what the checks of the parser say of them.
use metrics_pipeline_go.Prelude.{
  ℕ, ◌≤◌, ◌≡◌, true, false, not, ◌||◌, ◌⊎◌, Option, none, some, [], ◌∷◌, Str, is_empty,
  is_name_byte, length, ltb, ℤ, pos, ◌≤ℤ◌, ◌<ℤ◌, leb_ℤ, ltb_ℤ, all, All, arith,
}
use metrics_pipeline_go.Http.Ingest.{task_id_pattern, metric_key_pattern, max_task_id_length}
use metrics_pipeline_go.Http.History.{
  valid_history_timestamp, step_in_range, bound_passes, bounds_pass, is_key,
}

-- A byte of [A-Za-z0-9._-], by its number.
abbrev pub IsKeyByte : ℕ → Type 0
IsKeyByte c =
    ((65 ≤ c) × (c ≤ 90))
    ⊎ ((97 ≤ c) × (c ≤ 122))
    ⊎ ((48 ≤ c) × (c ≤ 57))
    ⊎ (c ≡ 46)
    ⊎ (c ≡ 95)
    ⊎ (c ≡ 45)

-- 1 to 32 bytes of that class.
abbrev pub IsMetricKey : Str → Type 0
IsMetricKey key = (1 ≤ length key) × (length key ≤ 32) × All IsKeyByte key

-- A bound that is given lies between two numbers.
abbrev pub IsWithin : ℤ → ℤ → Option ℤ → Type 0
IsWithin low high none = Unit
IsWithin low high (some v) = (low ≤ℤ v) × (v ≤ℤ high)

-- Two bounds that are given stand in the relation.
abbrev pub AreRelated : (ℤ → ℤ → Type 0) → Option ℤ → Option ℤ → Type 0
AreRelated R (some a) (some b) = R a b
AreRelated R (some a) none = Unit
AreRelated R none b = Unit

key_bytes : (s : Str) → all is_name_byte s ≡ true → All IsKeyByte s
key_bytes [] h = tt
key_bytes (c ∷ s) h = (ground arith, key_bytes s (ground arith))

pub key_lem : (key : Str) → is_key key ≡ true → IsMetricKey key
unfolding metric_key_pattern
key_lem [] h = cc
key_lem (c ∷ key) h = (omega arith, ground arith, key_bytes (c ∷ key) (ground arith))

pub timestamp-IsWithin :
    (v : Option ℤ)
    → bound_passes valid_history_timestamp v ≡ true
    → IsWithin (pos 1) (pos 253402300799999) v
unfolding valid_history_timestamp
timestamp-IsWithin none h = tt
timestamp-IsWithin (some v) h = (ground arith, ground arith)

pub step-IsWithin : (v : Option ℤ) → step_in_range v ≡ true → IsWithin (pos 0) (pos 2147483647) v
step-IsWithin none h = tt
step-IsWithin (some v) h = (ground arith, ground arith)

pub bounds_lt : (a b : Option ℤ) → bounds_pass ltb_ℤ a b ≡ true → AreRelated (λ x y. x <ℤ y) a b
bounds_lt none b h = tt
bounds_lt (some a) none h = tt
bounds_lt (some a) (some b) h = ground arith

pub bounds_le : (a b : Option ℤ) → bounds_pass leb_ℤ a b ≡ true → AreRelated (λ x y. x ≤ℤ y) a b
bounds_le none b h = tt
bounds_le (some a) none h = tt
bounds_le (some a) (some b) h = ground arith

-- The first byte is a letter or a digit, the others are of the class of a key.
abbrev pub IsTaskId : Str → Type 0
IsTaskId [] = ⊥
IsTaskId (c ∷ s) =
    (((65 ≤ c) × (c ≤ 90)) ⊎ ((97 ≤ c) × (c ≤ 122)) ⊎ ((48 ≤ c) × (c ≤ 57)))
    × All IsKeyByte s
    × (length s ≤ 63)

pub task_id_lem :
    (s : Str)
    → (is_empty s || not (task_id_pattern s) || ltb max_task_id_length (length s)) ≡ false
    → IsTaskId s
unfolding task_id_pattern
task_id_lem [] h = ground arith
task_id_lem (c ∷ s) h = (ground arith, key_bytes s (ground arith), ground arith)
