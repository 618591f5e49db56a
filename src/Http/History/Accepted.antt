-- ===== src/Http/History/Accepted.antt =====
-- What an accepted history query satisfies.
use metrics_pipeline_go.Prelude.{
  ◌≡◌, refl, map, All, All-all, contains-snoc, contains_of_str_eq, ◌<ℤ◌, if◌then◌else◌, true, not,
  ◌||◌, Option, List, [], ◌∷◌, ◌++◌, Str, contains, is_distinct, is_distinct-snoc, is_empty, length,
  ltb, ℤ, pos, ◌≤ℤ◌, leb_ℤ, ltb_ℤ, all, Result, ok, >>=-eq-ok, fail_if, Bool-cases, inl, inr, arith,
  codes, none, some, Option-cases,
}
use metrics_pipeline_go.Http.History.Fields.{
  IsMetricKey, IsWithin, AreRelated, IsTaskId, key_lem, timestamp-IsWithin, step-IsWithin,
  bounds_lt, bounds_le, task_id_lem,
}
use metrics_pipeline_go.Http.Ingest.{task_id_pattern, max_task_id_length}
use metrics_pipeline_go.Http.History.{
  HistoryQuery, HistoryRequest, HistoryError, task_id_invalid, range_not_positive,
  range_not_ordered, steps_not_ordered, query_value, split_comma, is_key, add_keys,
  valid_history_timestamp, query_int64, query_step, step_in_range, parse_keys, parse_max_points,
  bound_passes, bounds_pass, parse_history_query,
}

all-snoc :
    (keys : List Str) (k : Str)
    → all is_key keys ≡ true
    → is_key k ≡ true
    → all is_key (keys ++ k ∷ []) ≡ true
all-snoc [] k h valid = ground arith
all-snoc (t ∷ keys) k h valid = ground (arith, all-snoc keys k)

add_keys_lem :
    (trim : Str → Str) (parts keys : List Str) {r : List Str}
    → all is_key keys ≡ true
    → is_distinct keys ≡ true
    → add_keys trim parts keys ≡ ok r
    → (all is_key r ≡ true) × (is_distinct r ≡ true)
unfolding add_keys
add_keys_lem trim [] keys {r} valid distinct h =
    let e : keys ≡ r = ground arith in rw (← e) (valid, distinct)
add_keys_lem trim (part ∷ parts) keys {r} valid distinct h =
    elim (Bool-cases (is_key (trim part))) [
      | inr bad ↦ absurd (ground (arith, bad))
      | inl good ↦ elim (Bool-cases (contains keys (trim part))) [
        | inl known ↦
            add_keys_lem trim parts keys {r = r} valid distinct (ground (arith, good, known))
        | inr new ↦
            add_keys_lem trim parts (keys ++ trim part ∷ []) {r = r}
              (all-snoc keys (trim part) valid good)
              (is_distinct-snoc keys (trim part) distinct new) (ground (arith, good, new))
      ]
    ]

-- The keys that are kept are those that were there and the trimmed parts.
add_keys-members :
    (trim : Str → Str) (parts keys : List Str) {r : List Str}
    → add_keys trim parts keys ≡ ok r
    → (k : Str) → contains r k ≡ contains keys k || contains (map trim parts) k
unfolding add_keys contains
add_keys-members trim [] keys h k = ground arith
add_keys-members trim (part ∷ parts) keys {r} h k = elim (Bool-cases (is_key (trim part))) [
  | inr bad ↦ absurd (ground (arith, bad))
  | inl good ↦ elim (Bool-cases (contains keys (trim part))) [
    | inl known ↦ ground (
      arith,
      add_keys-members trim parts keys {r = r} (ground (arith, good, known)) k,
      known,
      contains_of_str_eq keys (trim part) k,
    )
    | inr new ↦ ground (
      arith,
      add_keys-members trim parts (keys ++ trim part ∷ []) {r = r} (ground (arith, good, new)) k,
      contains-snoc keys (trim part) k,
    )
  ]
]

abbrev task_id_guard : HistoryRequest → Result HistoryError (Unit {0})
task_id_guard r =
    fail_if
      (is_empty r.task_id
        || not (task_id_pattern r.task_id)
        || ltb max_task_id_length (length r.task_id))
      task_id_invalid

abbrev range_guard : Option ℤ → Option ℤ → Result HistoryError (Unit {0})
range_guard from to =
    fail_if
      (not (bound_passes valid_history_timestamp from)
        || not (bound_passes valid_history_timestamp to))
      range_not_positive

-- What the query takes from the request: its task, and as keys what stands between the commas, trimmed.
abbrev pub listed_keys : HistoryRequest → List Str
unfolding split_comma
listed_keys r =
    if is_empty (query_value r (codes "keys"))
    then []
    else map r.trim_space (split_comma (query_value r (codes "keys")))

-- The number that the request gives for the name; `none` also where it gives no text for it.
abbrev pub given_bound : HistoryRequest → Str → Option ℤ
given_bound r name =
    if is_empty (query_value r name) then none else r.parse_int (query_value r name)

abbrev pub given_points : HistoryRequest → Option ℤ
given_points r =
    if is_empty (query_value r (codes "max_points"))
    then some (pos 500)
    else r.atoi (query_value r (codes "max_points"))

pub record IsAccepted (r : HistoryRequest) (q : HistoryQuery) : Type 0 where
  pub task_requested : q.task_id ≡ r.task_id
  pub task_id_valid : IsTaskId q.task_id
  pub keys_requested : (k : Str) → contains q.keys k ≡ contains (listed_keys r) k
  pub keys_valid : All IsMetricKey q.keys
  pub keys_distinct : is_distinct q.keys ≡ true
  pub from_requested : q.from ≡ given_bound r (codes "from")
  pub to_requested : q.to ≡ given_bound r (codes "to")
  pub step_from_requested : q.step_from ≡ given_bound r (codes "step_from")
  pub step_to_requested : q.step_to ≡ given_bound r (codes "step_to")
  pub points_requested : some q.max_points ≡ given_points r
  pub from_valid : IsWithin (pos 1) (pos 253402300799999) q.from
  pub to_valid : IsWithin (pos 1) (pos 253402300799999) q.to
  pub range_ordered : AreRelated (λ a b. a <ℤ b) q.from q.to
  pub step_from_valid : IsWithin (pos 0) (pos 2147483647) q.step_from
  pub step_to_valid : IsWithin (pos 0) (pos 2147483647) q.step_to
  pub steps_ordered : AreRelated (λ a b. a ≤ℤ b) q.step_from q.step_to
  pub points_low : pos 1 ≤ℤ q.max_points
  pub points_high : q.max_points ≤ℤ pos 5000

parse_keys_lem :
    (r : HistoryRequest) {keys : List Str}
    → parse_keys r ≡ ok keys
    → (all is_key keys ≡ true) × (is_distinct keys ≡ true)
unfolding parse_keys is_distinct
parse_keys_lem r {keys} h = elim (Bool-cases (is_empty (query_value r (codes "keys")))) [
  | inr given ↦
      add_keys_lem r.trim_space (split_comma (query_value r (codes "keys"))) [] {r = keys} refl refl
        (ground (arith, given))
  | inl unset ↦ let e : keys ≡ [] = ground (arith, unset) in rw e (refl, refl)
]

query_int64_lem :
    (r : HistoryRequest) (name : Str) {v : Option ℤ}
    → query_int64 r name ≡ ok v
    → v ≡ given_bound r name
unfolding query_int64
query_int64_lem r name {v} h = elim (Option-cases (r.parse_int (query_value r name))) [
  | inl none_read ↦ ground (arith, none_read)
  | inr (n, e) ↦ ground (arith, e)
]

query_step_lem :
    (r : HistoryRequest) (name : Str) {v : Option ℤ}
    → query_step r name ≡ ok v
    → (step_in_range v ≡ true) × (v ≡ given_bound r name)
unfolding query_step
query_step_lem r name {v} h =
    let (value, e, rest) = >>=-eq-ok (query_int64 r name) _ h in
    let read = query_int64_lem r name {v = value} e in
    (ground (arith, rest), ground (arith, rest, read))

parse_keys-listed :
    (r : HistoryRequest) {keys : List Str}
    → parse_keys r ≡ ok keys
    → (k : Str) → contains keys k ≡ contains (listed_keys r) k
unfolding parse_keys listed_keys contains
parse_keys-listed r {keys} h k = elim (Bool-cases (is_empty (query_value r (codes "keys")))) [
  | inr given ↦ rw given (
      add_keys-members r.trim_space (split_comma (query_value r (codes "keys"))) [] {r = keys}
        (ground (arith, given)) k)
  | inl unset ↦ let e : keys ≡ [] = ground (arith, unset) in rw (e, unset) refl
]

parse_max_points_lem :
    (r : HistoryRequest) {n : ℤ}
    → parse_max_points r ≡ ok n
    → (pos 1 ≤ℤ n) × (n ≤ℤ pos 5000) × (some n ≡ given_points r)
unfolding parse_max_points
parse_max_points_lem r {n} h = elim (Option-cases (r.atoi (query_value r (codes "max_points")))) [
  | inl none_read ↦ ground (arith, none_read)
  | inr (m, e) ↦ ground (arith, e)
]

-- An accepted query asks for the task of the request, whose id has 1 to 64 bytes, of a letter or
-- digit and then letters, digits, '.', '_' and '-'. Its keys are those listed in the request, each
-- once, of 1 to 32 such bytes. Its times and steps are those that the request gives: the times lie
-- between 1 and 253402300799999 and the steps between 0 and 2147483647 where they are given, and
-- are in order where both are. It asks for the number of points that the request gives, which is 1
-- to 5000, and for 500 where it gives none.
pub parse_history_query-IsAccepted :
    (r : HistoryRequest) {q : HistoryQuery} → parse_history_query r ≡ ok q → IsAccepted r q
unfolding parse_history_query
parse_history_query-IsAccepted r {q} h =
    let (u, named, h0) = >>=-eq-ok (task_id_guard r) _ h in
    let (keys, ek, h1) = >>=-eq-ok (parse_keys r) _ h0 in
    let (from, ef, h2) = >>=-eq-ok (query_int64 r (codes "from")) _ h1 in
    let (to, et, h3) = >>=-eq-ok (query_int64 r (codes "to")) _ h2 in
    let (step_from, esf, h4) = >>=-eq-ok (query_step r (codes "step_from")) _ h3 in
    let (step_to, est, h5) = >>=-eq-ok (query_step r (codes "step_to")) _ h4 in
    let (u1, positive, h6) = >>=-eq-ok (range_guard from to) _ h5 in
    let (u2, ordered, h7) =
      >>=-eq-ok (fail_if (not (bounds_pass ltb_ℤ from to)) range_not_ordered) _ h6 in
    let (u3, steps, h8) =
      >>=-eq-ok (fail_if (not (bounds_pass leb_ℤ step_from step_to)) steps_not_ordered) _ h7 in
    let (max_points, em, last) = >>=-eq-ok (parse_max_points r) _ h8 in
    let result : HistoryQuery = record {
      task_id = r.task_id;
      keys = keys;
      from = from;
      to = to;
      step_from = step_from;
      step_to = step_to;
      max_points = max_points;
    } in
    let same : result ≡ q = ground (arith, last) in
    rw (← same) (record {
      task_requested = refl;
      task_id_valid = task_id_lem r.task_id (ground (arith, named));
      keys_requested = parse_keys-listed r {keys = keys} ek;
      keys_valid = All-all IsMetricKey is_key key_lem keys (parse_keys_lem r {keys = keys} ek).0;
      keys_distinct = (parse_keys_lem r {keys = keys} ek).1;
      from_requested = query_int64_lem r (codes "from") {v = from} ef;
      to_requested = query_int64_lem r (codes "to") {v = to} et;
      step_from_requested = (query_step_lem r (codes "step_from") {v = step_from} esf).1;
      step_to_requested = (query_step_lem r (codes "step_to") {v = step_to} est).1;
      points_requested = (parse_max_points_lem r {n = max_points} em).2;
      from_valid = timestamp-IsWithin from (ground (arith, positive));
      to_valid = timestamp-IsWithin to (ground (arith, positive));
      range_ordered = bounds_lt from to (ground (arith, ordered));
      step_from_valid =
          step-IsWithin step_from (query_step_lem r (codes "step_from") {v = step_from} esf).0;
      step_to_valid =
          step-IsWithin step_to (query_step_lem r (codes "step_to") {v = step_to} est).0;
      steps_ordered = bounds_le step_from step_to (ground (arith, steps));
      points_low = (parse_max_points_lem r {n = max_points} em).0;
      points_high = (parse_max_points_lem r {n = max_points} em).1;
    })
