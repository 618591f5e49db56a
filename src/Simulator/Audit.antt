-- ===== src/Simulator/Audit.antt =====
-- internal/simulator/simulator.go: the comparison of the audit endpoint's answers with what was expected, its repetition
-- until all pass, and the report.
--
-- The answers of the endpoint are a parameter, by the number of the round and the task.
pub mod Keys
pub mod Reported
use metrics_pipeline_go.Prelude.{
  ℕ, zero, suc, ◌+◌, ◌≡◌, Bool, true, false, not, ◌&&◌, ◌||◌, Option, none, some, List, [], ◌∷◌,
  ◌++◌, map, length, all, is_empty, Str, str_eq, str_leb, ltb, leb, ℤ, pos, eqb_ℤ, leb_ℤ,
  if◌then◌else◌,
}
use metrics_pipeline_go.Simulator.Expected.{Expected}

pub record AuditResponse : Type 0 where
  pub task_id : Str
  pub point_count : ℤ
  pub distinct_steps : ℤ
  pub first_step : Option ℤ
  pub last_step : Option ℤ
  pub keys : List Str
  pub missing_steps : List ℤ

pub data Difference : Type 0 where
  task_id_differs point_count_differs distinct_steps_differs first_step_differs last_step_differs
        keys_differ missing_steps_differ :
      Difference

pub data AuditFault : Type 0 where
  request_failed call_failed body_undecodable : AuditFault
  status_is : ℕ → AuditFault

pub record AuditResult : Type 0 where
  pub task_id : Str
  pub pass : Bool
  pub expected : Expected
  pub actual : Option AuditResponse
  pub differences : List Difference
  pub fault : Option AuditFault

-- What comes of a GET: the request is not made, the call fails, or there is a status with a body that decodes or not.
pub data Answer : Type 0 where
  unmade uncalled : Answer
  answered : ℕ → Option AuditResponse → Answer

abbrev pub expected_result : Expected → AuditResult
expected_result e = record {
  task_id = e.task_id;
  pass = true;
  expected = e;
  actual = none;
  differences = [];
  fault = none;
}

abbrev pub equal_int_ptr : Option ℤ → Option ℤ → Bool
equal_int_ptr none none = true
equal_int_ptr none (some b) = false
equal_int_ptr (some a) none = false
equal_int_ptr (some a) (some b) = eqb_ℤ a b

-- `strings.Join(keys, "\x00")`.
unfoldable pub join_keys : List Str → Str
join_keys [] = []
join_keys (k ∷ []) = k
join_keys (k ∷ j ∷ keys) = k ++ 0 ∷ join_keys (j ∷ keys)

abbrev pub equal_strings : List Str → List Str → Bool
unfolding str_eq join_keys
equal_strings a b = str_eq (join_keys a) (join_keys b)

unfoldable pub equal_int64s : List ℤ → List ℤ → Bool
equal_int64s [] [] = true
equal_int64s [] (b ∷ ys) = false
equal_int64s (a ∷ xs) [] = false
equal_int64s (a ∷ xs) (b ∷ ys) = eqb_ℤ a b && equal_int64s xs ys

abbrev pub note_if : Bool → Difference → List Difference
note_if differs difference = if differs then difference ∷ [] else []

unfoldable pub differences_of : AuditResult → AuditResponse → List Difference
unfolding equal_strings equal_int64s
differences_of result actual =
    note_if (not (str_eq actual.task_id result.task_id)) task_id_differs
    ++ note_if (not (eqb_ℤ actual.point_count (pos result.expected.point_count)))
        point_count_differs
    ++ note_if (not (eqb_ℤ actual.distinct_steps (pos result.expected.distinct_steps)))
        distinct_steps_differs
    ++ note_if (not (equal_int_ptr actual.first_step result.expected.first_step)) first_step_differs
    ++ note_if (not (equal_int_ptr actual.last_step result.expected.last_step)) last_step_differs
    ++ note_if (not (equal_strings actual.keys result.expected.keys)) keys_differ
    ++ note_if (not (equal_int64s actual.missing_steps result.expected.missing_steps))
        missing_steps_differ

abbrev pub with_fault : AuditResult → AuditFault → AuditResult
with_fault result fault = record {
  task_id = result.task_id;
  pass = false;
  expected = result.expected;
  actual = result.actual;
  differences = result.differences;
  fault = some fault;
}

abbrev pub compare_answer : AuditResult → AuditResponse → AuditResult
unfolding differences_of
compare_answer result actual =
    let differences = result.differences ++ differences_of result actual in
    record {
      task_id = result.task_id;
      pass = is_empty differences;
      expected = result.expected;
      actual = some actual;
      differences = differences;
      fault = result.fault;
    }

-- compareAudit.
unfoldable pub compare_audit : AuditResult → Answer → AuditResult
unfolding compare_answer
compare_audit result unmade = with_fault result request_failed
compare_audit result uncalled = with_fault result call_failed
compare_audit result (answered status body) =
    if ltb status 200 || leb 300 status then with_fault result (status_is status) else elim body [
      | none ↦ with_fault result body_undecodable
      | some actual ↦ compare_answer result actual
    ]

abbrev pub reset_result : AuditResult → AuditResult
reset_result result = record {
  task_id = result.task_id;
  pass = true;
  expected = result.expected;
  actual = none;
  differences = [];
  fault = none;
}

-- auditOnce: `answers` are those of one round.
unfoldable pub audit_once : (Str → Answer) → List AuditResult → List AuditResult
unfolding compare_audit
audit_once answers [] = []
audit_once answers (result ∷ results) =
    compare_audit (reset_result result) (answers result.task_id) ∷ audit_once answers results

abbrev pub all_audit_results_pass : List AuditResult → Bool
all_audit_results_pass results = all (λ result. result.pass) results

-- The loop of auditReport from the n-th round on. A `true` is a tick of the interval; a `false` is the deadline or the end
-- of the context, and so is the end of the list.
unfoldable pub audit_loop : (ℕ → Str → Answer) → ℕ → List Bool → List AuditResult → List AuditResult
unfolding audit_once
audit_loop answers n [] results = audit_once (answers n) results
audit_loop answers n (ticks ∷ waits) results =
    let audited = audit_once (answers n) results in
    let again = audit_loop answers (n + 1) waits audited in
    if all_audit_results_pass audited || not ticks then audited else again

unfoldable pub audit_report :
    (ℕ → Str → Answer) → ℤ → List Bool → List AuditResult → List AuditResult
unfolding audit_loop
audit_report answers timeout waits results =
    if leb_ℤ timeout (pos 0)
    then audit_once (answers 0) results
    else audit_loop answers 0 waits results

pub record TaskFailure : Type 0 where
  pub task_id : Str
  pub error : Str

pub record Report : Type 0 where
  pub pass : Bool
  pub results : List AuditResult
  pub failures : List TaskFailure

-- `sort.Slice` by task, by insertion.
unfoldable pub insert_result : AuditResult → List AuditResult → List AuditResult
unfolding str_leb
insert_result r [] = r ∷ []
insert_result r (s ∷ results) =
    let rest = insert_result r results in
    if str_leb r.task_id s.task_id then r ∷ s ∷ results else s ∷ rest

unfoldable pub sort_results : List AuditResult → List AuditResult
unfolding insert_result
sort_results [] = []
sort_results (r ∷ results) = insert_result r (sort_results results)

unfoldable pub insert_failure : TaskFailure → List TaskFailure → List TaskFailure
unfolding str_leb
insert_failure f [] = f ∷ []
insert_failure f (g ∷ failures) =
    let rest = insert_failure f failures in
    if str_leb f.task_id g.task_id then f ∷ g ∷ failures else g ∷ rest

unfoldable pub sort_failures : List TaskFailure → List TaskFailure
unfolding insert_failure
sort_failures [] = []
sort_failures (f ∷ failures) = insert_failure f (sort_failures failures)

-- The error of a report: the number of failures and the first one.
abbrev pub first_failure : List TaskFailure → Option (ℕ × TaskFailure)
first_failure [] = none
first_failure (f ∷ failures) = some (suc (length failures), f)

-- RunWithReport after its tasks have ended: the report, and the number of failures with the first one as the error.
unfoldable pub make_report :
    (ℕ → Str → Answer)
    → ℤ
    → List Bool
    → Bool
    → List Expected
    → List TaskFailure
    → Report × Option (ℕ × TaskFailure)
unfolding sort_results sort_failures audit_report
make_report answers timeout waits audit expectations failures =
    let results = sort_results (map expected_result expectations) in
    let audited = if audit then audit_report answers timeout waits results else results in
    let sorted = sort_failures failures in
    (
      record {
        pass = all_audit_results_pass audited && is_empty sorted;
        results = audited;
        failures = sorted;
      },
      first_failure sorted,
    )
