-- ===== src/Storage/Migrations/Runner/Applied.antt =====
-- What a run of the Migrator applies, and what a second run does.
use mathlib.Core.List.{append-nil}
use metrics_pipeline_go.Prelude.{
  ℕ, ◌+◌, ◌≡◌, refl, sym, ap, ◌∙◌, Bool, true, false, ◌⊎◌, inl, inr, Option, none, some, List, [],
  ◌∷◌, ◌++◌, map, length, all, Str, Bool-cases, Result-cases, ok, arith,
}
use metrics_pipeline_go.Storage.Migrations.{Migration, DirEntry, discover_migrations}
use metrics_pipeline_go.Storage.Migrations.Versions.{is_in_order}
use metrics_pipeline_go.Storage.Migrations.Discovered.{discover_migrations_lem}
use metrics_pipeline_go.Storage.Migrations.Runner.{
  MigrationCall, take_lock, create_table, release_lock, select_version, MigrateError, lock_failed,
  table_failed, Schema, checksum_of, compare_checksum, is_applied, commit_migration, apply,
  apply_all, set_lock, unlock, run_migrations,
}
use metrics_pipeline_go.Storage.Migrations.Runner.Pending.{
  is_recorded, pending, row_of, is_after-head, is_in_order-done, IsRun, IsRun-nil, IsRun-failed,
  IsRun-applied, IsRun-next,
}

-- What a run has committed: IsRun without the lock.
unfoldable pub IsCommitted : Schema → List Migration → ℕ × Option MigrateError × Schema → Type 0
unfolding pending is_recorded is_in_order
IsCommitted schema migrations run =
    (done : List Migration) × (rest : List Migration) × (pending schema.applied migrations
      ≡ done ++ rest)
    × (is_in_order done ≡ true)
    × (run.0 ≡ length done)
    × (run.2.applied ≡ schema.applied ++ map row_of done)
    × (run.2.executed ≡ schema.executed ++ map (λ m. m.sql) done)
    × (((run.1 ≡ none) × (rest ≡ []) × (all (is_recorded run.2.applied) migrations ≡ true))
        ⊎ ((e : MigrateError) × (run.1 ≡ some e)))

module _ (fails : MigrationCall → Bool) where
  is_applied-true :
      (schema : Schema) (m : Migration)
      → is_applied fails schema m ≡ ok true
      → is_recorded schema.applied m ≡ true
  unfolding is_applied compare_checksum is_recorded
  is_applied-true schema m h = ground arith

  is_applied-false :
      (schema : Schema) (m : Migration)
      → is_applied fails schema m ≡ ok false
      → checksum_of schema.applied m.version ≡ none
  unfolding is_applied compare_checksum
  is_applied-false schema m h = ground arith

  apply_ok :
      (schema : Schema) (m : Migration) {next : Schema}
      → apply fails schema m ≡ ok next
      → next ≡ commit_migration schema m
  unfolding apply
  apply_ok schema m h = ground arith

  in_order_tail :
      (m : Migration) (migrations : List Migration)
      → is_in_order (m ∷ migrations) ≡ true
      → is_in_order migrations ≡ true
  unfolding is_in_order
  in_order_tail m migrations h = ground arith

  apply_all_lem :
      (n : ℕ) (schema : Schema) (migrations : List Migration)
      → is_in_order migrations ≡ true
      → IsRun schema migrations n (apply_all fails n schema migrations)
  unfolding apply_all
  apply_all_lem n schema [] h = IsRun-nil schema n
  apply_all_lem n schema (m ∷ migrations) h =
      let tail = in_order_tail m migrations h in
      elim (Result-cases (is_applied fails schema m)) [
        | inr (e, failed) ↦ rw (apply_all, failed) (IsRun-failed schema (m ∷ migrations) n e)
        | inl (true, there) ↦
            rw (apply_all, there)
              (IsRun-applied schema m migrations n _ (is_applied-true schema m there)
                (apply_all_lem n schema migrations tail))
        | inl (false, missing) ↦ elim (Result-cases (apply fails schema m)) [
          | inr (e, failed) ↦
              rw (apply_all, missing, failed) (IsRun-failed schema (m ∷ migrations) n e)
          | inl (next, passed) ↦
              let committed = apply_ok schema m passed in
              rw (apply_all, missing, passed, committed)
                (IsRun-next schema m migrations n _ (is_applied-false schema m missing)
                  (is_after-head m migrations h)
                  (apply_all_lem (n + 1) (commit_migration schema m) migrations tail))
        ]
      ]

  IsCommitted-failed :
      (schema : Schema) (migrations : List Migration) (e : MigrateError) (end : Schema)
      → end.applied ≡ schema.applied
      → end.executed ≡ schema.executed
      → IsCommitted schema migrations (0, some e, end)
  unfolding IsCommitted is_in_order
  IsCommitted-failed schema migrations e end rows texts = (
    [],
    pending schema.applied migrations,
    refl,
    refl,
    refl,
    rows ∙ sym (append-nil schema.applied),
    texts ∙ sym (append-nil schema.executed),
    inr (e, refl),
  )

  IsRun-unlocked :
      (schema : Schema) (migrations : List Migration) (run : ℕ × Option MigrateError × Schema)
      → is_in_order migrations ≡ true
      → IsRun (set_lock true schema) migrations 0 run
      → IsCommitted schema migrations (unlock fails run)
  unfolding IsRun IsCommitted
  IsRun-unlocked schema migrations run sorted (done, rest, order, count, end, outcome) = (
    done,
    rest,
    order,
    is_in_order-done schema.applied migrations done rest sorted order,
    omega (arith, count),
    ap (λ s. s.applied) end,
    ap (λ s. s.executed) end,
    outcome,
  )

  -- When the files of the directory are discovered, then whatever fails, a run commits the first ones of the discovered migrations that the table did not have, in strictly
  -- ascending order of version, and reports their number; without an error it commits all of them, and the table then has
  -- every migration of the directory with the checksum of its file.
  pub run_migrations-IsCommitted :
      (digest : Str → Str) (entries : List DirEntry) (schema : Schema) {migrations : List Migration}
      → discover_migrations digest (some entries) ≡ ok migrations
      → IsCommitted schema migrations (run_migrations fails digest (some entries) schema)
  unfolding run_migrations
  run_migrations-IsCommitted digest entries schema {migrations} found =
      let sorted = (discover_migrations_lem digest entries found).0 in
      elim (Bool-cases (fails take_lock)) [
        | inl failed ↦
            rw (run_migrations, failed)
              (IsCommitted-failed schema migrations lock_failed schema refl refl)
        | inr locked ↦ elim (Bool-cases (fails create_table)) [
          | inl failed ↦
              rw (run_migrations, locked, failed)
                (IsCommitted-failed schema migrations table_failed
                  (set_lock (fails release_lock) schema) refl refl)
          | inr created ↦
              rw (run_migrations, locked, created, found)
                (IsRun-unlocked schema migrations _ sorted
                  (apply_all_lem 0 (set_lock true schema) migrations sorted))
        ]
      ]

module _ (fails : MigrationCall → Bool) where
  apply_all_recorded :
      (n : ℕ) (schema : Schema) (migrations : List Migration)
      → ((v : ℕ) → fails (select_version v) ≡ false)
      → all (is_recorded schema.applied) migrations ≡ true
      → apply_all fails n schema migrations ≡ (n, none, schema)
  unfolding apply_all is_applied compare_checksum is_recorded
  apply_all_recorded n schema [] reads h = refl
  apply_all_recorded n schema (m ∷ migrations) reads h =
      let there : is_applied fails schema m ≡ ok true = ground (arith, reads m.version) in
      rw (apply_all, there) (apply_all_recorded n schema migrations reads (ground arith))

  run_migrations_recorded :
      (digest : Str → Str) (entries : List DirEntry) (schema : Schema) {migrations : List Migration}
      → discover_migrations digest (some entries) ≡ ok migrations
      → fails take_lock ≡ false
      → fails create_table ≡ false
      → ((v : ℕ) → fails (select_version v) ≡ false)
      → all (is_recorded schema.applied) migrations ≡ true
      → run_migrations fails digest (some entries) schema
        ≡ (0, none, set_lock (fails release_lock) schema)
  unfolding run_migrations
  run_migrations_recorded digest entries schema {migrations} found locked created reads recorded =
      rw
        (
          run_migrations,
          locked,
          created,
          found,
          apply_all_recorded 0 (set_lock true schema) migrations reads recorded,
        )
        refl

-- After a run without an error, another run whose reads pass applies nothing and changes neither the table nor
-- what was executed, whatever its other calls would do.
pub run_migrations_again :
    (first second : MigrationCall → Bool) (digest : Str → Str) (entries : List DirEntry)
    (schema : Schema) {migrations : List Migration}
    → discover_migrations digest (some entries) ≡ ok migrations
    → (run_migrations first digest (some entries) schema).1 ≡ none
    → second take_lock ≡ false
    → second create_table ≡ false
    → ((v : ℕ) → second (select_version v) ≡ false)
    → let end = (run_migrations first digest (some entries) schema).2 in
      run_migrations second digest (some entries) end
      ≡ (0, none, set_lock (second release_lock) end)
unfolding IsCommitted
run_migrations_again first second digest entries schema {migrations} found passed locked created
      reads =
    let end = (run_migrations first digest (some entries) schema).2 in
    let (done, rest, order, ordered, count, rows, texts, outcome) =
      run_migrations-IsCommitted first digest entries schema found in
    elim outcome [
      | inr (e, failed) ↦ absurd (ground (arith, failed, passed))
      | inl (complete, all_done, recorded) ↦
          run_migrations_recorded second digest entries end found locked created reads recorded
    ]
