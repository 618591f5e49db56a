-- ===== src/Simulator/Audit/Reported.antt =====
-- What a report that passes says.
use metrics_pipeline_go.Prelude.{
  ℕ, ◌+◌, ◌≡◌, refl, ap, subst, Bool, true, false, ◌&&◌, ◌⊎◌, inl, inr, Option, none, some, List,
  [], ◌∷◌, map, All, is_empty, Str, eq_of_str_eq, str_leb, ltb, leb, ℤ, pos, eq_of_parts, leb_ℤ,
  Bool-cases, arith,
}
use metrics_pipeline_go.Simulator.Expected.{Expected}
use metrics_pipeline_go.Simulator.Audit.{
  AuditResponse, AuditResult, Answer, unmade, uncalled, answered, expected_result, join_keys,
  equal_int_ptr, equal_int64s, equal_strings, differences_of, compare_audit, reset_result,
  audit_once, all_audit_results_pass, audit_loop, audit_report, TaskFailure, insert_result,
  sort_results, insert_failure, sort_failures, make_report,
}
use metrics_pipeline_go.Simulator.Audit.Keys.{are_plain, join_keys-injective}

equal_int64s_eq : (xs ys : List ℤ) → equal_int64s xs ys ≡ true → xs ≡ ys
unfolding equal_int64s
equal_int64s_eq [] [] h = refl
equal_int64s_eq [] (y ∷ ys) h = cc
equal_int64s_eq (x ∷ xs) [] h = cc
equal_int64s_eq (x ∷ xs) (y ∷ ys) h = ground (arith, equal_int64s_eq xs ys, eq_of_parts x y)

equal_int_ptr_eq : (a b : Option ℤ) → equal_int_ptr a b ≡ true → a ≡ b
equal_int_ptr_eq none none h = refl
equal_int_ptr_eq none (some b) h = cc
equal_int_ptr_eq (some a) none h = cc
equal_int_ptr_eq (some a) (some b) h = ap some (eq_of_parts a b (ground arith))

equal_strings_eq :
    (ks ls : List Str)
    → equal_strings ks ls ≡ true
    → (ks ≡ ls) ⊎ ((are_plain ks && are_plain ls) ≡ false)
unfolding equal_strings
equal_strings_eq ks ls h = elim (Bool-cases (are_plain ks && are_plain ls)) [
  | inl plain ↦ inl (
      join_keys-injective ks ls (ground arith) (ground arith)
        (eq_of_str_eq (join_keys ks) (join_keys ls) h))
  | inr other ↦ inr other
]

-- The answer is what was expected, and its keys are, unless a key of either is empty or has a zero byte.
abbrev pub IsMatch : Str → Expected → AuditResponse → Type 0
IsMatch task_id expected actual =
    (actual.task_id ≡ task_id)
    × (actual.point_count ≡ pos expected.point_count)
    × (actual.distinct_steps ≡ pos expected.distinct_steps)
    × (actual.first_step ≡ expected.first_step)
    × (actual.last_step ≡ expected.last_step)
    × (actual.missing_steps ≡ expected.missing_steps)
    × ((actual.keys ≡ expected.keys) ⊎ ((are_plain actual.keys && are_plain expected.keys) ≡ false))

differences_of_none :
    (result : AuditResult) (actual : AuditResponse)
    → is_empty (differences_of result actual) ≡ true
    → IsMatch result.task_id result.expected actual
unfolding differences_of
differences_of_none result actual h = (
  eq_of_str_eq actual.task_id result.task_id (ground arith),
  eq_of_parts actual.point_count (pos result.expected.point_count) (ground arith),
  eq_of_parts actual.distinct_steps (pos result.expected.distinct_steps) (ground arith),
  equal_int_ptr_eq actual.first_step result.expected.first_step (ground arith),
  equal_int_ptr_eq actual.last_step result.expected.last_step (ground arith),
  equal_int64s_eq actual.missing_steps result.expected.missing_steps (ground arith),
  equal_strings_eq actual.keys result.expected.keys (ground arith),
)

-- The answer has a status of success and decodes to what is expected of the task.
abbrev pub IsConfirmed : (Str → Answer) → Str → Expected → Type 0
IsConfirmed answers task_id expected =
    (status : ℕ) × (actual : AuditResponse) × (answers task_id ≡ answered status (some actual))
    × ((leb 200 status && ltb status 300) ≡ true)
    × IsMatch task_id expected actual

compare_audit_passes :
    (result : AuditResult) (answer : Answer)
    → (compare_audit (reset_result result) answer).pass ≡ true
    → (status : ℕ) × (actual : AuditResponse) × (answer ≡ answered status (some actual))
      × ((leb 200 status && ltb status 300) ≡ true)
      × IsMatch result.task_id result.expected actual
unfolding compare_audit
compare_audit_passes result unmade h = absurd (ground arith)
compare_audit_passes result uncalled h = absurd (ground arith)
compare_audit_passes result (answered status none) h = absurd (ground arith)
compare_audit_passes result (answered status (some actual)) h = (
  status,
  actual,
  refl,
  ground arith,
  differences_of_none (reset_result result) actual (ground arith),
)

module _ (answers : Str → Answer) where
  abbrev pub IsResultConfirmed : AuditResult → Type 0
  IsResultConfirmed result = IsConfirmed answers result.task_id result.expected

  audit_once_passes :
      (results : List AuditResult)
      → all_audit_results_pass (audit_once answers results) ≡ true
      → All IsResultConfirmed results
  unfolding audit_once
  audit_once_passes [] h = tt
  audit_once_passes (r ∷ results) h = (
    compare_audit_passes r (answers r.task_id) (ground arith),
    audit_once_passes results (ground arith),
  )

compare_audit_keeps :
    (result : AuditResult) (answer : Answer)
    → ((compare_audit result answer).task_id ≡ result.task_id)
      × ((compare_audit result answer).expected ≡ result.expected)
unfolding compare_audit
compare_audit_keeps result unmade = (refl, refl)
compare_audit_keeps result uncalled = (refl, refl)
compare_audit_keeps result (answered status none) = ground arith
compare_audit_keeps result (answered status (some actual)) = ground arith

module _ (answers later : Str → Answer) where
  confirmed_before :
      (results : List AuditResult)
      → All (IsResultConfirmed later) (audit_once answers results)
      → All (IsResultConfirmed later) results
  unfolding audit_once
  confirmed_before [] h = tt
  confirmed_before (r ∷ results) h =
      let (task, expected) = compare_audit_keeps (reset_result r) (answers r.task_id) in
      (rw (task, expected) at h.0, confirmed_before results h.1)

module _ (answers : ℕ → Str → Answer) where
  audit_loop_passes :
      (n : ℕ) (waits : List Bool) (results : List AuditResult)
      → all_audit_results_pass (audit_loop answers n waits results) ≡ true
      → (m : ℕ) × All (IsResultConfirmed (answers m)) results
  unfolding audit_loop
  audit_loop_passes n [] results h = (n, audit_once_passes (answers n) results h)
  audit_loop_passes n (ticks ∷ waits) results h =
      elim (Bool-cases (all_audit_results_pass (audit_once (answers n) results))) [
        | inl passed ↦ (n, audit_once_passes (answers n) results passed)
        | inr failed ↦
            let (m, confirmed) =
              audit_loop_passes (n + 1) waits (audit_once (answers n) results) (ground arith) in
            (m, confirmed_before (answers n) (answers m) results confirmed)
      ]

  audit_report_passes :
      (timeout : ℤ) (waits : List Bool) (results : List AuditResult)
      → all_audit_results_pass (audit_report answers timeout waits results) ≡ true
      → (m : ℕ) × All (IsResultConfirmed (answers m)) results
  unfolding audit_report
  audit_report_passes timeout waits results h = elim (Bool-cases (leb_ℤ timeout (pos 0))) [
    | inl once ↦ (0, audit_once_passes (answers 0) results (ground arith))
    | inr again ↦ audit_loop_passes 0 waits results (ground arith)
  ]

module _ (P : AuditResult → Type 0) where
  All-insert_result :
      (r : AuditResult) (results : List AuditResult)
      → All P (insert_result r results)
      → P r × All P results
  unfolding insert_result
  All-insert_result r [] h = (h.0, tt)
  All-insert_result r (s ∷ results) h = elim (Bool-cases (str_leb r.task_id s.task_id)) [
    | inl first ↦
        let ordered : insert_result r (s ∷ results) ≡ r ∷ s ∷ results = ground arith in
        let parts = subst (All P) ordered h in (parts.0, parts.1)
    | inr after ↦
        let ordered : insert_result r (s ∷ results) ≡ s ∷ insert_result r results = ground arith in
        let parts = subst (All P) ordered h in
        let (inserted, rest) = All-insert_result r results parts.1 in (inserted, (parts.0, rest))
  ]

  All-sort_results : (results : List AuditResult) → All P (sort_results results) → All P results
  unfolding sort_results
  All-sort_results [] h = tt
  All-sort_results (r ∷ results) h =
      let (first, rest) = All-insert_result r (sort_results results) h in
      (first, All-sort_results results rest)

is_empty-insert_failure :
    (f : TaskFailure) (failures : List TaskFailure) → is_empty (insert_failure f failures) ≡ false
unfolding insert_failure
is_empty-insert_failure f [] = refl
is_empty-insert_failure f (g ∷ failures) = ground arith

is_empty-sort_failures :
    (failures : List TaskFailure) → is_empty (sort_failures failures) ≡ true → failures ≡ []
unfolding sort_failures
is_empty-sort_failures [] h = refl
is_empty-sort_failures (f ∷ failures) h =
    ground (arith, is_empty-insert_failure f (sort_failures failures))

IsConfirmed-expectations :
    (answers : Str → Answer) (expectations : List Expected)
    → All (IsResultConfirmed answers) (map expected_result expectations)
    → All (λ e. IsConfirmed answers e.task_id e) expectations
IsConfirmed-expectations answers [] h = tt
IsConfirmed-expectations answers (e ∷ expectations) h =
    (h.0, IsConfirmed-expectations answers expectations h.1)

-- When a report with an audit passes, no task has failed, and in one round of the audit the endpoint has answered
-- for every task with a status of success and with what was expected of it: its points, its steps, the first and the
-- last one, the missing ones, and its keys unless one of them is empty or has a zero byte.
pub make_report_passes :
    (answers : ℕ → Str → Answer) (timeout : ℤ) (waits : List Bool) (expectations : List Expected)
    (failures : List TaskFailure)
    → (make_report answers timeout waits true expectations failures).0.pass ≡ true
    → (failures ≡ []) × ((n : ℕ) × All (λ e. IsConfirmed (answers n) e.task_id e) expectations)
unfolding make_report
make_report_passes answers timeout waits expectations failures h =
    let results = map expected_result expectations in
    let (n, confirmed) =
      audit_report_passes answers timeout waits (sort_results results) (ground arith) in
    (
      is_empty-sort_failures failures (ground arith),
      (
        n,
        IsConfirmed-expectations (answers n) expectations
            (All-sort_results (IsResultConfirmed (answers n)) results confirmed),
      ),
    )
