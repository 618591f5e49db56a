-- ===== src/Storage/Migrations/Runner/Pending.antt =====
-- The loop of Run over the migrations: those that the table does not have, and what has been done with them.
use mathlib.Core.List.{append-nil, append_assoc}
use metrics_pipeline_go.Prelude.{
  ℕ, ◌+◌, ◌<◌, ◌≡◌, refl, Bool, true, false, ◌&&◌, ◌⊎◌, inl, inr, Option, none, some, List, [], ◌∷◌,
  ◌++◌, map, length, ltb, all, Str, str_eq, str_eq_refl, arith,
}
use metrics_pipeline_go.Storage.Migrations.{Migration}
use metrics_pipeline_go.Storage.Migrations.Versions.{is_in_order}
use metrics_pipeline_go.Storage.Migrations.Runner.{
  MigrateError, Schema, checksum_of, commit_migration,
}

-- The table has the migration with its checksum.
unfoldable pub is_recorded : List (ℕ × Str) → Migration → Bool
unfolding checksum_of str_eq
is_recorded rows m = elim (checksum_of rows m.version) [
  | none ↦ false
  | some checksum ↦ str_eq checksum m.checksum
]

-- The migrations whose version the table does not have.
unfoldable pub pending : List (ℕ × Str) → List Migration → List Migration
unfolding checksum_of
pending rows [] = []
pending rows (m ∷ migrations) =
    let rest = pending rows migrations in
    elim (checksum_of rows m.version) [ none ↦ m ∷ rest | some checksum ↦ rest ]

abbrev pub row_of : Migration → ℕ × Str
row_of m = (m.version, m.checksum)

-- The state after the migrations have been committed one after the other.
abbrev pub with_migrations : Schema → List Migration → Schema
with_migrations schema migrations = record {
  is_locked = schema.is_locked;
  applied = schema.applied ++ map row_of migrations;
  executed = schema.executed ++ map (λ m. m.sql) migrations;
}

checksum_of-append :
    (rows more : List (ℕ × Str)) (v : ℕ)
    → checksum_of (rows ++ more) v
      ≡ elim (checksum_of rows v) [ none ↦ checksum_of more v | some c ↦ some c ]
unfolding checksum_of
checksum_of-append [] more v = refl
checksum_of-append ((u, c) ∷ rows) more v = ground (arith, checksum_of-append rows more v)

is_recorded-append :
    (rows more : List (ℕ × Str)) (m : Migration)
    → is_recorded rows m ≡ true
    → is_recorded (rows ++ more) m ≡ true
unfolding is_recorded
is_recorded-append rows more m h = ground (arith, checksum_of-append rows more m.version)

-- The versions of the list come after `v`.
unfoldable pub is_after : ℕ → List Migration → Bool
is_after v [] = true
is_after v (m ∷ migrations) = ltb v m.version && is_after v migrations

is_after_mono :
    (u v : ℕ) (migrations : List Migration)
    → u < v
    → is_after v migrations ≡ true
    → is_after u migrations ≡ true
unfolding is_after
is_after_mono u v [] l h = refl
is_after_mono u v (m ∷ migrations) l h = ground (arith, is_after_mono u v migrations)

pub is_after-head :
    (m : Migration) (migrations : List Migration)
    → is_in_order (m ∷ migrations) ≡ true
    → is_after m.version migrations ≡ true
unfolding is_after is_in_order
is_after-head m [] h = refl
is_after-head m (k ∷ migrations) h =
    ground (arith, is_after-head k migrations, is_after_mono m.version k.version migrations)

pending-is_after :
    (rows : List (ℕ × Str)) (v : ℕ) (migrations : List Migration)
    → is_after v migrations ≡ true
    → is_after v (pending rows migrations) ≡ true
unfolding pending is_after
pending-is_after rows v [] h = refl
pending-is_after rows v (m ∷ migrations) h = ground (arith, pending-is_after rows v migrations)

in_order_cons :
    (m : Migration) (migrations : List Migration)
    → is_after m.version migrations ≡ true
    → is_in_order migrations ≡ true
    → is_in_order (m ∷ migrations) ≡ true
unfolding is_after is_in_order
in_order_cons m [] after h = refl
in_order_cons m (k ∷ migrations) after h = ground arith

-- What is pending of migrations in order is in order.
is_in_order-pending :
    (rows : List (ℕ × Str)) (migrations : List Migration)
    → is_in_order migrations ≡ true
    → is_in_order (pending rows migrations) ≡ true
unfolding pending is_in_order
is_in_order-pending rows [] h = refl
is_in_order-pending rows (m ∷ migrations) h = ground (
  arith,
  is_in_order-pending rows migrations,
  in_order_cons m (pending rows migrations),
  pending-is_after rows m.version migrations,
  is_after-head m migrations h,
)

is_in_order-prefix :
    (done rest : List Migration) → is_in_order (done ++ rest) ≡ true → is_in_order done ≡ true
unfolding is_in_order
is_in_order-prefix [] rest h = refl
is_in_order-prefix (m ∷ []) rest h = refl
is_in_order-prefix (m ∷ k ∷ done) rest h = ground (arith, is_in_order-prefix (k ∷ done) rest)

pub is_in_order-done :
    (rows : List (ℕ × Str)) (migrations done rest : List Migration)
    → is_in_order migrations ≡ true
    → pending rows migrations ≡ done ++ rest
    → is_in_order done ≡ true
is_in_order-done rows migrations done rest h order =
    is_in_order-prefix done rest (rw order at (is_in_order-pending rows migrations h))

pending-snoc :
    (rows : List (ℕ × Str)) (v : ℕ) (checksum : Str) (migrations : List Migration)
    → is_after v migrations ≡ true
    → pending (rows ++ (v, checksum) ∷ []) migrations ≡ pending rows migrations
unfolding pending is_after checksum_of
pending-snoc rows v checksum [] h = refl
pending-snoc rows v checksum (m ∷ migrations) h = ground (
  arith,
  pending-snoc rows v checksum migrations,
  checksum_of-append rows ((v, checksum) ∷ []) m.version,
)

-- What the loop has done: the first ones of the pending migrations, each in a transaction of its own; all
-- of them when there is no error.
unfoldable pub IsRun : Schema → List Migration → ℕ → ℕ × Option MigrateError × Schema → Type 0
unfolding pending is_recorded
IsRun schema migrations n run =
    (done : List Migration) × (rest : List Migration) × (pending schema.applied migrations
      ≡ done ++ rest)
    × (run.0 ≡ n + length done)
    × (run.2 ≡ with_migrations schema done)
    × (((run.1 ≡ none) × (rest ≡ []) × (all (is_recorded run.2.applied) migrations ≡ true))
        ⊎ ((e : MigrateError) × (run.1 ≡ some e)))

-- No migration more is the state itself.
pub with_none : (schema : Schema) → schema ≡ with_migrations schema []
with_none schema = ground (arith, append-nil schema.applied, append-nil schema.executed)

pub IsRun-nil : (schema : Schema) (n : ℕ) → IsRun schema [] n (n, none, schema)
unfolding IsRun pending
IsRun-nil schema n = ([], [], refl, omega arith, with_none schema, inl (refl, refl, refl))

pub IsRun-failed :
    (schema : Schema) (migrations : List Migration) (n : ℕ) (e : MigrateError)
    → IsRun schema migrations n (n, some e, schema)
unfolding IsRun
IsRun-failed schema migrations n e =
    ([], pending schema.applied migrations, refl, omega arith, with_none schema, inr (e, refl))

pub IsRun-applied :
    (schema : Schema) (m : Migration) (migrations : List Migration) (n : ℕ)
    (run : ℕ × Option MigrateError × Schema)
    → is_recorded schema.applied m ≡ true
    → IsRun schema migrations n run
    → IsRun schema (m ∷ migrations) n run
unfolding IsRun pending is_recorded
IsRun-applied schema m migrations n run h (done, rest, order, count, end, outcome) = (
  done,
  rest,
  ground (arith, h, order),
  count,
  end,
  ground (arith, outcome, end, is_recorded-append schema.applied (map row_of done) m h),
)

pub IsRun-next :
    (schema : Schema) (m : Migration) (migrations : List Migration) (n : ℕ)
    (run : ℕ × Option MigrateError × Schema)
    → checksum_of schema.applied m.version ≡ none
    → is_after m.version migrations ≡ true
    → IsRun (commit_migration schema m) migrations (n + 1) run
    → IsRun schema (m ∷ migrations) n run
unfolding IsRun pending is_recorded checksum_of
IsRun-next schema m migrations n run new after (done, rest, order, count, end, outcome) = (
  m ∷ done,
  rest,
  ground (arith, new, order, pending-snoc schema.applied m.version m.checksum migrations after),
  ground (arith, count),
  ground (
    arith,
    end,
    append_assoc schema.applied (row_of m ∷ []) (map row_of done),
    append_assoc schema.executed (m.sql ∷ []) (map (λ m. m.sql) done),
  ),
  ground (
    arith,
    outcome,
    end,
    is_recorded-append (schema.applied ++ row_of m ∷ []) (map row_of done) m,
    checksum_of-append schema.applied (row_of m ∷ []) m.version,
    str_eq_refl m.checksum,
  ),
)
