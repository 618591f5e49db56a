-- ===== src/Storage/Migrations/Tests.antt =====
-- Two migrations whose files are listed in the wrong order, beside a text that is none.
use metrics_pipeline_go.Prelude.{
  ◌≡◌, refl, Bool, true, false, none, some, List, [], ◌∷◌, Str, codes, all, is_empty, length,
  keep_if, All, ◌==◌, ok,
}
use metrics_pipeline_go.Storage.Migrations.{Migration, DirEntry, is_sql_file, discover_migrations}
use metrics_pipeline_go.Storage.Migrations.Versions.{is_in_order, has_int64_version}
use metrics_pipeline_go.Storage.Migrations.Discovered.{IsListed, discover_migrations_lem}
use metrics_pipeline_go.Storage.Migrations.Runner.{
  MigrationCall, release_lock, commit_version, Schema, set_lock, run_migrations,
}
use metrics_pipeline_go.Storage.Migrations.Runner.Applied.{
  IsCommitted, run_migrations-IsCommitted, run_migrations_again,
}

abbrev digest : Str → Str
digest contents = codes "d"

abbrev file : Str → Str → DirEntry
file name contents = record { entry_name = name; is_dir = false; contents = some contents }

abbrev directory : List DirEntry
directory =
    file (codes "12_more.sql") (codes "b")
    ∷ file (codes "README.md") (codes "c")
    ∷ file (codes "002_start.sql") (codes "a")
    ∷ []

abbrev start : Migration
start = record {
  version = 2;
  name = codes "start";
  filename = codes "002_start.sql";
  sql = codes "a";
  checksum = codes "d";
}

abbrev more : Migration
more = record {
  version = 12;
  name = codes "more";
  filename = codes "12_more.sql";
  sql = codes "b";
  checksum = codes "d";
}

discovered : discover_migrations digest (some directory) ≡ ok (start ∷ more ∷ [])
unfolding discover_migrations
discovered = refl

discover_migrations_lem_example :
    (is_in_order (start ∷ more ∷ []) ≡ true)
    × (all has_int64_version (start ∷ more ∷ []) ≡ true)
    × (is_empty (start ∷ more ∷ []) ≡ false)
    × (length (start ∷ more ∷ []) ≡ length (keep_if is_sql_file directory))
    × All (IsListed digest (start ∷ more ∷ [])) directory
discover_migrations_lem_example =
    discover_migrations_lem digest directory {migrations = start ∷ more ∷ []} discovered

abbrev fresh : Schema
fresh = record { is_locked = false; applied = []; executed = [] }

-- The commit of the second migration fails.
abbrev commit_fails : MigrationCall → Bool
commit_fails (commit_version v) = v == 12
commit_fails call = false

run_migrations-IsCommitted_example :
    IsCommitted fresh
      (start ∷ more ∷ [])
      (run_migrations commit_fails digest (some directory) fresh)
run_migrations-IsCommitted_example =
    run_migrations-IsCommitted commit_fails digest directory fresh {migrations = start ∷ more ∷ []}
      discovered

abbrev never_fails : MigrationCall → Bool
never_fails call = false

completes : (run_migrations never_fails digest (some directory) fresh).1 ≡ none
unfolding run_migrations
completes = refl

run_migrations_again_example :
    run_migrations commit_fails digest
      (some directory)
      (run_migrations never_fails digest (some directory) fresh).2
    ≡ (
      0,
      none,
      set_lock
          (commit_fails release_lock)
          (run_migrations never_fails digest (some directory) fresh).2,
    )
run_migrations_again_example =
    run_migrations_again never_fails commit_fails digest directory fresh
      {migrations = start ∷ more ∷ []} discovered completes refl refl (λ v. refl)
