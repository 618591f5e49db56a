-- ===== src/Storage/Migrations/Runner.antt =====
-- internal/storage/postgres/migrate.go: Run of the Migrator, isApplied and apply.
--
-- The state is the session's lock, the rows of schema_migrations, and the SQL texts that were executed and
-- committed, in their order. `fails` says which calls of the database fail; a transaction that does
-- not commit leaves the state as it was.
pub mod Pending
pub mod Applied
use metrics_pipeline_go.Prelude.{
  ℕ, zero, suc, ◌+◌, ◌≡◌, Bool, true, false, not, Option, none, some, List, [], ◌∷◌, ◌++◌, map, Str,
  str_eq, ◌==◌, Result, ok, err, if◌then◌else◌,
}
use metrics_pipeline_go.Storage.Migrations.{Migration, DirEntry, DiscoverError, discover_migrations}

pub data MigrationCall : Type 0 where
  take_lock release_lock create_table : MigrationCall
  select_version begin_version execute_version insert_row commit_version : ℕ → MigrationCall

pub data MigrateError : Type 0 where
  lock_failed table_failed : MigrateError
  discover_failed : DiscoverError → MigrateError
  select_failed begin_failed execute_failed insert_failed commit_failed : ℕ → MigrateError
  checksum_changed : ℕ → Str → Str → MigrateError

pub record Schema : Type 0 where
  pub is_locked : Bool
  pub applied : List (ℕ × Str)
  pub executed : List Str

-- `SELECT checksum FROM schema_migrations WHERE version = $1`.
unfoldable pub checksum_of : List (ℕ × Str) → ℕ → Option Str
checksum_of [] version = none
checksum_of ((v, checksum) ∷ rows) version =
    if v == version then some checksum else checksum_of rows version

-- What the transaction of a migration commits.
abbrev pub commit_migration : Schema → Migration → Schema
commit_migration schema m = record {
  is_locked = schema.is_locked;
  applied = schema.applied ++ (m.version, m.checksum) ∷ [];
  executed = schema.executed ++ m.sql ∷ [];
}

abbrev pub set_lock : Bool → Schema → Schema
set_lock locked schema = record {
  is_locked = locked;
  applied = schema.applied;
  executed = schema.executed;
}

module _ (fails : MigrationCall → Bool) where
  abbrev pub compare_checksum : Migration → Option Str → Result MigrateError Bool
  unfolding str_eq
  compare_checksum m none = ok false
  compare_checksum m (some checksum) =
      if str_eq checksum m.checksum
      then ok true
      else err (checksum_changed m.version checksum m.checksum)

  unfoldable pub is_applied : Schema → Migration → Result MigrateError Bool
  unfolding compare_checksum checksum_of
  is_applied schema m =
      if fails (select_version m.version)
      then err (select_failed m.version)
      else compare_checksum m (checksum_of schema.applied m.version)

  unfoldable pub apply : Schema → Migration → Result MigrateError Schema
  apply schema m =
      if fails (begin_version m.version)
      then err (begin_failed m.version)
      else if fails (execute_version m.version)
      then err (execute_failed m.version)
      else if fails (insert_row m.version)
      then err (insert_failed m.version)
      else if fails (commit_version m.version)
      then err (commit_failed m.version)
      else ok (commit_migration schema m)

  -- The loop over the migrations: the number applied, the error and the state.
  unfoldable pub apply_all : ℕ → Schema → List Migration → ℕ × Option MigrateError × Schema
  unfolding is_applied apply
  apply_all n schema [] = (n, none, schema)
  apply_all n schema (m ∷ migrations) = elim (is_applied schema m) [
    | err e ↦ (n, some e, schema)
    | ok true ↦ apply_all n schema migrations
    | ok false ↦ elim (apply schema m) [
      | err e ↦ (n, some e, schema)
      | ok next ↦ apply_all (n + 1) next migrations
    ]
  ]

  -- The deferred release, whose failure is only logged; the session then keeps the lock.
  abbrev pub unlock : ℕ × Option MigrateError × Schema → ℕ × Option MigrateError × Schema
  unlock (n, failure, schema) = (n, failure, set_lock (fails release_lock) schema)

  abbrev pub run_found :
      Schema → Result DiscoverError (List Migration) → ℕ × Option MigrateError × Schema
  unfolding apply_all
  run_found schema (err e) = (0, some (discover_failed e), schema)
  run_found schema (ok migrations) = apply_all 0 schema migrations

  -- Run.
  unfoldable pub run_migrations :
      (Str → Str) → Option (List DirEntry) → Schema → ℕ × Option MigrateError × Schema
  unfolding run_found discover_migrations
  run_migrations digest directory schema =
      if fails take_lock
      then (0, some lock_failed, schema)
      else if fails create_table
      then unlock (0, some table_failed, set_lock true schema)
      else unlock (run_found (set_lock true schema) (discover_migrations digest directory))
