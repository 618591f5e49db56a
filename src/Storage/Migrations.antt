-- ===== src/Storage/Migrations.antt =====
-- internal/storage/postgres/migrate.go: DiscoverMigrations, which reads the SQL files of a directory.
--
-- The digest of a file (sha256, in hexadecimal) is a parameter.
pub mod Versions
pub mod Discovered
pub mod Runner
mod Tests
use metrics_pipeline_go.Prelude.{
  ℕ, zero, suc, ◌+◌, ◌-◌, ◌*◌, ◌^◌, ◌≡◌, Bool, true, false, not, ◌&&◌, ◌||◌, Option, none, some,
  List, [], ◌∷◌, ◌++◌, map, Str, codes, str_eq, is_empty, ltb, leb, ◌==◌, Result, ok, err, ◌>>=◌,
  if◌then◌else◌,
}

pub record Migration : Type 0 where
  pub version : ℕ
  pub name : Str
  pub filename : Str
  pub sql : Str
  pub checksum : Str

-- An entry of the directory, with what reading it gives.
pub record DirEntry : Type 0 where
  pub entry_name : Str
  pub is_dir : Bool
  pub contents : Option Str

pub data DiscoverError : Type 0 where
  directory_unreadable no_migrations : DiscoverError
  filename_invalid version_invalid file_unreadable : Str → DiscoverError
  version_duplicate : ℕ → Str → Str → DiscoverError

abbrev pub is_digit : ℕ → Bool
is_digit c = leb b'0' c && leb c b'9'

abbrev pub is_lower_alphanumeric : ℕ → Bool
is_lower_alphanumeric c = is_digit c || (leb b'a' c && leb c b'z')

abbrev pub is_slug_byte : ℕ → Bool
is_slug_byte c = is_lower_alphanumeric c || (c == b'_') || (c == b'-')

-- The longest prefix in a byte class, and the rest.
unfoldable pub span : (ℕ → Bool) → Str → Str × Str
span in_class [] = ([], [])
span in_class (c ∷ s) =
    let rest = span in_class s in if in_class c then (c ∷ rest.0, rest.1) else ([], c ∷ s)

abbrev pub sql_suffix : Str
sql_suffix = codes ".sql"

unfoldable pub has_suffix : Str → Str → Bool
unfolding str_eq
has_suffix [] suffix = str_eq [] suffix
has_suffix (c ∷ s) suffix = str_eq (c ∷ s) suffix || has_suffix s suffix

abbrev pub starts_slug : Str → Bool
starts_slug [] = false
starts_slug (c ∷ s) = is_lower_alphanumeric c

abbrev pub name_match : Str → Str → Option (Str × Str)
unfolding span str_eq
name_match digits [] = none
name_match digits (c ∷ s) =
    let (slug, rest) = span is_slug_byte s in
    if not (is_empty digits) && (c == b'_') && starts_slug slug && str_eq rest sql_suffix
    then some (digits, slug)
    else none

-- migrationFilePattern: the digits and the name.
unfoldable pub file_match : Str → Option (Str × Str)
unfolding span name_match
file_match filename = let (digits, rest) = span is_digit filename in name_match digits rest

unfoldable pub digits_value : ℕ → Str → ℕ
digits_value n [] = n
digits_value n (c ∷ s) = digits_value (n * 10 + (c - b'0')) s

-- `strconv.ParseInt(digits, 10, 64)` and `version <= 0`.
unfoldable pub version_of : Str → Option ℕ
unfolding digits_value
version_of digits =
    let n = digits_value 0 digits in if ltb 0 n && ltb n (2 ^ 63) then some n else none

-- `versions[version]`.
unfoldable pub find_version : List Migration → ℕ → Option Migration
find_version [] version = none
find_version (m ∷ migrations) version =
    if m.version == version then some m else find_version migrations version

-- `sort.Slice` by version, by insertion.
unfoldable pub insert_version : Migration → List Migration → List Migration
insert_version m [] = m ∷ []
insert_version m (n ∷ migrations) =
    let rest = insert_version m migrations in
    if leb m.version n.version then m ∷ n ∷ migrations else n ∷ rest

unfoldable pub sort_versions : List Migration → List Migration
unfolding insert_version
sort_versions [] = []
sort_versions (m ∷ migrations) = insert_version m (sort_versions migrations)

abbrev pub is_sql_file : DirEntry → Bool
unfolding has_suffix
is_sql_file entry = not entry.is_dir && has_suffix entry.entry_name sql_suffix

module _ (digest : Str → Str) where
  -- A file that matches the pattern, after the migrations found before it.
  abbrev pub read_file : List Migration → DirEntry → Str → ℕ → Result DiscoverError (List Migration)
  unfolding find_version
  read_file found entry slug version = elim (find_version found version) [
    | some previous ↦ err (version_duplicate version previous.filename entry.entry_name)
    | none ↦ elim entry.contents [
      | none ↦ err (file_unreadable entry.entry_name)
      | some contents ↦ ok (
          found
          ++ record {
            version = version;
            name = slug;
            filename = entry.entry_name;
            sql = contents;
            checksum = digest contents;
          }
            ∷ [])
    ]
  ]

  abbrev pub read_version :
      List Migration → DirEntry → Str → Option ℕ → Result DiscoverError (List Migration)
  unfolding read_file
  read_version found entry slug none = err (version_invalid entry.entry_name)
  read_version found entry slug (some version) = read_file found entry slug version

  abbrev pub read_matched :
      List Migration → DirEntry → Option (Str × Str) → Result DiscoverError (List Migration)
  unfolding read_version version_of
  read_matched found entry none = err (filename_invalid entry.entry_name)
  read_matched found entry (some (digits, slug)) = read_version found entry slug (version_of digits)

  -- The loop over the entries.
  unfoldable pub read_entries :
      List Migration → List DirEntry → Result DiscoverError (List Migration)
  unfolding read_matched file_match is_sql_file
  read_entries found [] = ok found
  read_entries found (entry ∷ entries) = elim (is_sql_file entry) [
    | false ↦ read_entries found entries
    | true ↦ read_matched found entry (file_match entry.entry_name) >>= λ longer.
        read_entries longer entries
  ]

  -- DiscoverMigrations on what reading the directory gives.
  unfoldable pub discover_migrations :
      Option (List DirEntry) → Result DiscoverError (List Migration)
  unfolding read_entries sort_versions
  discover_migrations none = err directory_unreadable
  discover_migrations (some entries) = do
    found ← read_entries [] entries
    elim (is_empty found) [ true ↦ err no_migrations | false ↦ ok (sort_versions found) ]
