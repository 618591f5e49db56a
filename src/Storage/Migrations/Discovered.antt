-- ===== src/Storage/Migrations/Discovered.antt =====
-- What DiscoverMigrations finds.
use metrics_pipeline_go.Prelude.{
  ℕ, ◌+◌, ◌^◌, ◌<◌, ◌≡◌, ap, subst, Bool, true, false, ◌&&◌, ◌||◌, ◌⊎◌, inl, inr, Option, none,
  some, List, [], ◌∷◌, ◌++◌, length, length-append, all, keep_if, All, All-map, is_empty-length,
  Str, str_eq, str_eq_refl, is_empty, ◌==◌, Bool-cases, Option-cases, ok, >>=-eq-ok, arith,
}
use metrics_pipeline_go.Storage.Migrations.{
  Migration, DirEntry, file_match, digits_value, version_of, find_version, sort_versions, read_file,
  read_matched, is_sql_file, read_entries, discover_migrations,
}
use metrics_pipeline_go.Storage.Migrations.Versions.{
  has_version, is_numbered, has_int64_version, is_in_order, some_migration, find_version-none,
  is_numbered-snoc, some_migration-snoc, some_migration-sort_versions, is_in_order-sort_versions,
  length-sort_versions, all_int64-sort_versions,
}

module _ (digest : Str → Str) where
  abbrev pub has_contents : Migration → Option Str → Bool
  has_contents m none = false
  has_contents m (some contents) = str_eq m.sql contents && str_eq m.checksum (digest contents)

  abbrev pub has_name : Migration → Option (Str × Str) → Bool
  unfolding digits_value
  has_name m none = false
  has_name m (some (digits, slug)) = (digits_value 0 digits == m.version) && str_eq m.name slug

  -- The migration is read from the entry: its version, name and file, its text and the digest of that.
  abbrev pub is_of : DirEntry → Migration → Bool
  unfolding has_name file_match
  is_of entry m =
      str_eq m.filename entry.entry_name
      && has_contents m entry.contents
      && has_name m (file_match entry.entry_name)

  -- One migration more, which is read from the entry.
  abbrev pub IsLonger : List Migration → DirEntry → Option (Str × Str) → List Migration → Type 0
  unfolding has_name
  IsLonger found entry matched longer =
      (m : Migration) × (longer ≡ found ++ m ∷ [])
      × (has_version found m.version ≡ false)
      × (0 < m.version)
      × (m.version < 2 ^ 63)
      × ((str_eq m.filename entry.entry_name && has_contents m entry.contents && has_name m matched)
          ≡ true)

  version_of_ok :
      (digits : Str) (v : ℕ)
      → version_of digits ≡ some v
      → (digits_value 0 digits ≡ v) × (0 < v) × (v < 2 ^ 63)
  unfolding version_of
  version_of_ok digits v h = ground arith

  read_file_ok :
      (found : List Migration) (entry : DirEntry) (digits slug : Str) (v : ℕ)
      {longer : List Migration}
      → version_of digits ≡ some v
      → read_file digest found entry slug v ≡ ok longer
      → IsLonger found entry (some (digits, slug)) longer
  unfolding read_file has_name
  read_file_ok found entry digits slug v {longer} value h =
      let (same, low, high) = version_of_ok digits v value in
      elim (Option-cases (find_version found v)) [
        | inl new ↦ elim (Option-cases entry.contents) [
          | inl unread ↦ absurd (ground arith)
          | inr (contents, read) ↦
              let m : Migration = record {
                version = v;
                name = slug;
                filename = entry.entry_name;
                sql = contents;
                checksum = digest contents;
              } in
              (
                m,
                ground arith,
                find_version-none found v new,
                low,
                high,
                ground (
                  arith,
                  str_eq_refl entry.entry_name,
                  str_eq_refl contents,
                  str_eq_refl (digest contents),
                  str_eq_refl slug,
                ),
              )
        ]
        | inr (previous, taken) ↦ absurd (ground arith)
      ]

  read_matched_ok :
      (found : List Migration) (entry : DirEntry) (matched : Option (Str × Str))
      {longer : List Migration}
      → read_matched digest found entry matched ≡ ok longer
      → IsLonger found entry matched longer
  unfolding read_matched
  read_matched_ok found entry none h = absurd (ground arith)
  read_matched_ok found entry (some (digits, slug)) h = elim (Option-cases (version_of digits)) [
    | inl invalid ↦ absurd (ground arith)
    | inr (v, value) ↦ read_file_ok found entry digits slug v value (rw value at h)
  ]

  -- The entry is no migration file, or one of the migrations is read from it.
  abbrev pub IsListed : List Migration → DirEntry → Type 0
  unfolding some_migration is_of
  IsListed migrations entry =
      (is_sql_file entry ≡ false) ⊎ (some_migration (is_of entry) migrations ≡ true)

  read_entries_ok :
      (found : List Migration) (entries : List DirEntry) {end : List Migration}
      → is_numbered found ≡ true
      → read_entries digest found entries ≡ ok end
      → (is_numbered end ≡ true)
        × (length end ≡ length found + length (keep_if is_sql_file entries))
        × ((p : Migration → Bool) → some_migration p found ≡ true → some_migration p end ≡ true)
        × All (IsListed end) entries
  unfolding read_entries IsListed
  read_entries_ok found [] {end} h passed =
      let same : found ≡ end = ground arith in
      subst
        (λ end.
          (is_numbered end ≡ true)
          × (length end ≡ length found + 0)
          × ((p : Migration → Bool) → some_migration p found ≡ true → some_migration p end ≡ true)
          × Unit {0})
        same (h, omega arith, (λ p q. q), tt)
  read_entries_ok found (entry ∷ entries) h passed = elim (Bool-cases (is_sql_file entry)) [
    | inl file ↦
        let (longer, read, rest) =
          >>=-eq-ok (read_matched digest found entry (file_match entry.entry_name))
            (λ longer. read_entries digest longer entries) (rw (read_entries, file) at passed) in
        let (m, is_longer, new, low, high, of) =
          read_matched_ok found entry (file_match entry.entry_name) read in
        let numbered : is_numbered longer ≡ true =
          rw is_longer (is_numbered-snoc found m h new low high) in
        let (ends, count, kept, listed) = read_entries_ok longer entries numbered rest in
        let grows : (p : Migration → Bool)
            → some_migration p longer ≡ some_migration p found || p m =
          λ p. rw is_longer (some_migration-snoc p found m) in
        (
          ends,
          ground (arith, count, file, ap length is_longer, length-append found (m ∷ [])),
          (λ p q. kept p (ground (arith, grows p))),
          (inr (kept (is_of entry) (ground (arith, grows (is_of entry), of))), listed),
        )
    | inr other ↦
        let (numbered, count, kept, listed) =
          read_entries_ok found entries h (rw (read_entries, other) at passed) in
        (numbered, ground (arith, count, other), kept, (inl other, listed))
  ]

  -- A discovery that passes gives the migrations in strictly ascending order of version, each version a positive
  -- int64; there is at least one, there are as many as SQL files, and every SQL file of the directory is read into one
  -- of them, with its number, its name, its text and the digest of its text.
  pub discover_migrations_lem :
      (entries : List DirEntry) {migrations : List Migration}
      → discover_migrations digest (some entries) ≡ ok migrations
      → (is_in_order migrations ≡ true)
        × (all has_int64_version migrations ≡ true)
        × (is_empty migrations ≡ false)
        × (length migrations ≡ length (keep_if is_sql_file entries))
        × All (IsListed migrations) entries
  unfolding discover_migrations IsListed is_numbered
  discover_migrations_lem entries {migrations} h =
      let (found, read, rest) = >>=-eq-ok (read_entries digest [] entries) _ h in
      let (numbered, count, kept, listed) =
        read_entries_ok [] entries (ground (arith, is_numbered)) read in
      elim (Bool-cases (is_empty found)) [
        | inl nothing ↦ absurd (ground arith)
        | inr something ↦
            let sorted : sort_versions found ≡ migrations = ground arith in
            subst
              (λ migrations.
                (is_in_order migrations ≡ true)
                × (all has_int64_version migrations ≡ true)
                × (is_empty migrations ≡ false)
                × (length migrations ≡ length (keep_if is_sql_file entries))
                × All (IsListed migrations) entries)
              sorted
              (
                is_in_order-sort_versions found numbered,
                all_int64-sort_versions found numbered,
                ground (
                  arith,
                  is_empty-length found,
                  is_empty-length (sort_versions found),
                  length-sort_versions found,
                ),
                omega (arith, length-sort_versions found, count),
                All-map
                    (λ entry is.
                      ground (arith, is, some_migration-sort_versions (is_of entry) found))
                    entries listed,
              )
      ]
