-- ===== src/Storage/Migrations/Versions.antt =====
-- Lists of migrations by their versions, and what sorting by version keeps.
use metrics_pipeline_go.Prelude.{
  ℕ, suc, ◌^◌, ◌<◌, ◌≡◌, refl, Bool, true, false, not, ◌&&◌, ◌||◌, none, List, [], ◌∷◌, ◌++◌,
  length, all, ltb, ◌==◌, arith,
}
use metrics_pipeline_go.Storage.Migrations.{Migration, find_version, insert_version, sort_versions}

unfoldable pub has_version : List Migration → ℕ → Bool
has_version [] version = false
has_version (m ∷ migrations) version = (m.version == version) || has_version migrations version

-- The version is a positive int64.
abbrev pub has_int64_version : Migration → Bool
has_int64_version m = ltb 0 m.version && ltb m.version (2 ^ 63)

-- No version occurs twice, and each is a positive int64.
unfoldable pub is_numbered : List Migration → Bool
unfolding has_version
is_numbered [] = true
is_numbered (m ∷ migrations) =
    not (has_version migrations m.version) && has_int64_version m && is_numbered migrations

abbrev pub precedes : Migration → List Migration → Bool
precedes m [] = true
precedes m (n ∷ migrations) = ltb m.version n.version

-- The versions ascend strictly.
unfoldable pub is_in_order : List Migration → Bool
is_in_order [] = true
is_in_order (m ∷ migrations) = precedes m migrations && is_in_order migrations

pub find_version-none :
    (migrations : List Migration) (v : ℕ)
    → find_version migrations v ≡ none
    → has_version migrations v ≡ false
unfolding find_version has_version
find_version-none [] v h = refl
find_version-none (m ∷ migrations) v h = ground (arith, find_version-none migrations v)

pub has_version-snoc :
    (migrations : List Migration) (m : Migration) (v : ℕ)
    → has_version (migrations ++ m ∷ []) v ≡ has_version migrations v || (m.version == v)
unfolding has_version
has_version-snoc [] m v = ground arith
has_version-snoc (n ∷ migrations) m v = ground (arith, has_version-snoc migrations m v)

pub is_numbered-snoc :
    (migrations : List Migration) (m : Migration)
    → is_numbered migrations ≡ true
    → has_version migrations m.version ≡ false
    → 0 < m.version
    → m.version < 2 ^ 63
    → is_numbered (migrations ++ m ∷ []) ≡ true
unfolding is_numbered has_version
is_numbered-snoc [] m h new low high = ground arith
is_numbered-snoc (n ∷ migrations) m h new low high =
    ground (arith, is_numbered-snoc migrations m, has_version-snoc migrations m n.version)

pub has_version-insert_version :
    (m : Migration) (migrations : List Migration) (v : ℕ)
    → has_version (insert_version m migrations) v ≡ (m.version == v) || has_version migrations v
unfolding has_version insert_version
has_version-insert_version m [] v = refl
has_version-insert_version m (n ∷ migrations) v =
    ground (arith, has_version-insert_version m migrations v)

pub has_version-sort_versions :
    (migrations : List Migration) (v : ℕ)
    → has_version (sort_versions migrations) v ≡ has_version migrations v
unfolding has_version sort_versions
has_version-sort_versions [] v = refl
has_version-sort_versions (m ∷ migrations) v = ground (
  arith,
  has_version-insert_version m (sort_versions migrations) v,
  has_version-sort_versions migrations v,
)

insert_version-precedes :
    (n m : Migration) (migrations : List Migration)
    → precedes n migrations ≡ true
    → n.version < m.version
    → precedes n (insert_version m migrations) ≡ true
unfolding insert_version
insert_version-precedes n m [] h l = ground arith
insert_version-precedes n m (k ∷ migrations) h l = ground arith

is_in_order-insert_version :
    (m : Migration) (migrations : List Migration)
    → is_in_order migrations ≡ true
    → has_version migrations m.version ≡ false
    → is_in_order (insert_version m migrations) ≡ true
unfolding is_in_order insert_version has_version
is_in_order-insert_version m [] h new = refl
is_in_order-insert_version m (n ∷ migrations) h new =
    ground (arith, is_in_order-insert_version m migrations, insert_version-precedes n m migrations)

pub is_in_order-sort_versions :
    (migrations : List Migration)
    → is_numbered migrations ≡ true
    → is_in_order (sort_versions migrations) ≡ true
unfolding is_in_order sort_versions is_numbered
is_in_order-sort_versions [] h = refl
is_in_order-sort_versions (m ∷ migrations) h = ground (
  arith,
  is_in_order-sort_versions migrations,
  has_version-sort_versions migrations m.version,
  is_in_order-insert_version m (sort_versions migrations),
)

-- A test that some migration passes.
unfoldable pub some_migration : (Migration → Bool) → List Migration → Bool
some_migration p [] = false
some_migration p (m ∷ migrations) = p m || some_migration p migrations

pub some_migration-snoc :
    (p : Migration → Bool) (migrations : List Migration) (m : Migration)
    → some_migration p (migrations ++ m ∷ []) ≡ some_migration p migrations || p m
unfolding some_migration
some_migration-snoc p [] m = ground arith
some_migration-snoc p (n ∷ migrations) m = ground (arith, some_migration-snoc p migrations m)

pub some_migration-insert_version :
    (p : Migration → Bool) (m : Migration) (migrations : List Migration)
    → some_migration p (insert_version m migrations) ≡ p m || some_migration p migrations
unfolding some_migration insert_version
some_migration-insert_version p m [] = refl
some_migration-insert_version p m (n ∷ migrations) =
    ground (arith, some_migration-insert_version p m migrations)

pub some_migration-sort_versions :
    (p : Migration → Bool) (migrations : List Migration)
    → some_migration p (sort_versions migrations) ≡ some_migration p migrations
unfolding some_migration sort_versions
some_migration-sort_versions p [] = refl
some_migration-sort_versions p (m ∷ migrations) = ground (
  arith,
  some_migration-insert_version p m (sort_versions migrations),
  some_migration-sort_versions p migrations,
)

pub length-insert_version :
    (m : Migration) (migrations : List Migration)
    → length (insert_version m migrations) ≡ suc (length migrations)
unfolding insert_version
length-insert_version m [] = refl
length-insert_version m (n ∷ migrations) = ground (arith, length-insert_version m migrations)

pub length-sort_versions :
    (migrations : List Migration) → length (sort_versions migrations) ≡ length migrations
unfolding sort_versions
length-sort_versions [] = refl
length-sort_versions (m ∷ migrations) =
    omega
      (arith, length-insert_version m (sort_versions migrations), length-sort_versions migrations)

all_int64-insert_version :
    (m : Migration) (migrations : List Migration)
    → has_int64_version m ≡ true
    → all has_int64_version migrations ≡ true
    → all has_int64_version (insert_version m migrations) ≡ true
unfolding insert_version
all_int64-insert_version m [] low h = ground arith
all_int64-insert_version m (n ∷ migrations) low h =
    ground (arith, all_int64-insert_version m migrations)

pub all_int64-sort_versions :
    (migrations : List Migration)
    → is_numbered migrations ≡ true
    → all has_int64_version (sort_versions migrations) ≡ true
unfolding sort_versions is_numbered
all_int64-sort_versions [] h = refl
all_int64-sort_versions (m ∷ migrations) h = ground (
  arith,
  all_int64-sort_versions migrations,
  all_int64-insert_version m (sort_versions migrations),
)
