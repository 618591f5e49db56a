-- ===== src/Prelude/Sets.antt =====
-- Lists of texts as sets: Go's `map[string]struct{}` by its keys, and what sorting keeps of them.
use mathlib.Core.Path.{◌≡◌, refl, ap}
use mathlib.Core.Bool.{Bool, true, false, not, ◌&&◌, ◌||◌}
use mathlib.Core.List.{List, [], ◌∷◌, ◌++◌}
use native.Mathlib.Omega.{arith}
use metrics_pipeline_go.Prelude.Tests.{if◌then◌else◌}
use metrics_pipeline_go.Prelude.Text.{
  Str, str_eq, str_eq_comm, eq_of_str_eq, str_leb, contains, insert_sorted, sort_strings,
}

-- No text is in the list twice.
unfoldable pub is_distinct : List Str → Bool
unfolding contains
is_distinct [] = true
is_distinct (k ∷ keys) = not (contains keys k) && is_distinct keys

-- `set[s] = struct{}{}`, a new key last.
unfoldable pub add_unique : List Str → Str → List Str
unfolding contains
add_unique keys s = if contains keys s then keys else keys ++ s ∷ []

pub contains-snoc :
    (keys : List Str) (k s : Str) → contains (keys ++ k ∷ []) s ≡ contains keys s || str_eq k s
unfolding contains
contains-snoc [] k s = ground arith
contains-snoc (t ∷ keys) k s = ground (arith, contains-snoc keys k s)

pub is_distinct-snoc :
    (keys : List Str) (k : Str)
    → is_distinct keys ≡ true
    → contains keys k ≡ false
    → is_distinct (keys ++ k ∷ []) ≡ true
unfolding is_distinct contains
is_distinct-snoc [] k h new = refl
is_distinct-snoc (t ∷ keys) k h new =
    ground (arith, is_distinct-snoc keys k, contains-snoc keys k t, str_eq_comm k t)

pub is_distinct-add_unique :
    (keys : List Str) (k : Str) → is_distinct keys ≡ true → is_distinct (add_unique keys k) ≡ true
unfolding add_unique
is_distinct-add_unique keys k h = ground (arith, is_distinct-snoc keys k)

pub contains_of_str_eq :
    (keys : List Str) (k s : Str) → str_eq k s ≡ true → contains keys k ≡ contains keys s
contains_of_str_eq keys k s h = ap (contains keys) (eq_of_str_eq k s h)

pub contains-add_unique :
    (keys : List Str) (k s : Str) → contains (add_unique keys k) s ≡ contains keys s || str_eq k s
unfolding add_unique
contains-add_unique keys k s = ground (arith, contains-snoc keys k s, contains_of_str_eq keys k s)

pub contains-insert_sorted :
    (k : Str) (keys : List Str) (s : Str)
    → contains (insert_sorted k keys) s ≡ str_eq k s || contains keys s
unfolding contains insert_sorted
contains-insert_sorted k [] s = ground arith
contains-insert_sorted k (t ∷ keys) s = ground (arith, contains-insert_sorted k keys s)

-- Sorting keeps the members.
pub contains-sort_strings :
    (keys : List Str) (s : Str) → contains (sort_strings keys) s ≡ contains keys s
unfolding contains sort_strings
contains-sort_strings [] s = refl
contains-sort_strings (k ∷ keys) s =
    ground (arith, contains-insert_sorted k (sort_strings keys) s, contains-sort_strings keys s)

is_distinct-insert_sorted :
    (k : Str) (keys : List Str)
    → is_distinct keys ≡ true
    → contains keys k ≡ false
    → is_distinct (insert_sorted k keys) ≡ true
unfolding is_distinct contains insert_sorted
is_distinct-insert_sorted k [] h new = refl
is_distinct-insert_sorted k (t ∷ keys) h new =
    ground
      (arith, is_distinct-insert_sorted k keys, contains-insert_sorted k keys t, str_eq_comm k t)

pub is_distinct-sort_strings :
    (keys : List Str) → is_distinct keys ≡ true → is_distinct (sort_strings keys) ≡ true
unfolding is_distinct sort_strings
is_distinct-sort_strings [] h = refl
is_distinct-sort_strings (k ∷ keys) h = ground (
  arith,
  is_distinct-sort_strings keys,
  contains-sort_strings keys k,
  is_distinct-insert_sorted k (sort_strings keys),
)

abbrev pub leads : Str → List Str → Bool
leads s [] = true
leads s (t ∷ keys) = str_leb s t

-- Each text is at most the next one, in byte order.
unfoldable pub is_ascending : List Str → Bool
unfolding str_leb
is_ascending [] = true
is_ascending (s ∷ keys) = leads s keys && is_ascending keys

str_leb_total : (s t : Str) → str_leb s t ≡ false → str_leb t s ≡ true
unfolding str_leb
str_leb_total [] t h = cc
str_leb_total (x ∷ s) [] h = refl
str_leb_total (x ∷ s) (y ∷ t) h = ground (arith, str_leb_total s t)

insert_sorted-leads :
    (s k : Str) (keys : List Str)
    → leads s keys ≡ true
    → str_leb s k ≡ true
    → leads s (insert_sorted k keys) ≡ true
unfolding insert_sorted
insert_sorted-leads s k [] h l = l
insert_sorted-leads s k (t ∷ keys) h l = ground arith

is_ascending-insert_sorted :
    (k : Str) (keys : List Str)
    → is_ascending keys ≡ true
    → is_ascending (insert_sorted k keys) ≡ true
unfolding is_ascending insert_sorted
is_ascending-insert_sorted k [] h = refl
is_ascending-insert_sorted k (t ∷ keys) h =
    ground
      (arith, is_ascending-insert_sorted k keys, insert_sorted-leads t k keys, str_leb_total k t)

pub is_ascending-sort_strings : (keys : List Str) → is_ascending (sort_strings keys) ≡ true
unfolding is_ascending sort_strings
is_ascending-sort_strings [] = refl
is_ascending-sort_strings (k ∷ keys) =
    is_ascending-insert_sorted k (sort_strings keys) (is_ascending-sort_strings keys)
