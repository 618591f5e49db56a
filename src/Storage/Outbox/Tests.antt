-- ===== src/Storage/Outbox/Tests.antt =====
-- Two events of one task and one of another, claimed twice.
use metrics_pipeline_go.Prelude.{
  ℕ, ◌≤◌, ◌≡◌, refl, true, false, none, List, [], ◌∷◌, Str, codes, all, length, pos, pos_part,
  ltb_ℤ, ◌+ℤ◌, ok,
}
use metrics_pipeline_go.Storage.Outbox.{OutboxRecord, ClaimedEvent, no_fault, event_of, claim}
use metrics_pipeline_go.Storage.Outbox.Claims.{has_distinct_ids, has_event, is_head, claim_lem}
use metrics_pipeline_go.Storage.Outbox.Exclusive.{
  Statement, claiming, publishing, releasing, after_statements, respects, claims_are_exclusive,
}

abbrev pending_row : ℕ → Str → ℕ → OutboxRecord ℕ
pending_row id task_id event_seq = record {
  id = id;
  task_id = task_id;
  event_seq = event_seq;
  payload = 9;
  claimed_until = none;
  claim_token = none;
  is_published = false;
  attempt_count = 0;
  next_attempt_at = pos 0;
}

abbrev table : List (OutboxRecord ℕ)
table =
    pending_row 1 (codes "demo-1") 1
    ∷ pending_row 2 (codes "demo-1") 2
    ∷ pending_row 3 (codes "demo-2") 1
    ∷ []

abbrev first_claimed : List (ClaimedEvent ℕ)
first_claimed = event_of (codes "a") (pending_row 1 (codes "demo-1") 1) ∷ []

claims_first : (claim no_fault (codes "a") (pos 100) (pos 1) (pos 50) table).1 ≡ ok first_claimed
unfolding claim
claims_first = refl

claim_lem_example :
    (all (is_head table) first_claimed ≡ true) × (length first_claimed ≤ pos_part (pos 1))
claim_lem_example =
    claim_lem no_fault (codes "a") (pos 100) (pos 1) (pos 50) table {events = first_claimed}
      claims_first

abbrev left : List (OutboxRecord ℕ)
left = (claim no_fault (codes "a") (pos 100) (pos 1) (pos 50) table).0

-- Another claim, the release of what it returned, a mark of the first event that fails, and the
-- release of the first event with a token that was never given out.
abbrev between : List (Statement ℕ)
between =
    claiming no_fault (codes "c") (pos 110) (pos 5) (pos 50)
    ∷ releasing false (event_of (codes "c") (pending_row 3 (codes "demo-2") 1))
    ∷ publishing true (event_of (codes "a") (pending_row 1 (codes "demo-1") 1))
    ∷ releasing false (event_of (codes "d") (pending_row 1 (codes "demo-1") 1))
    ∷ []

abbrev then_claimed : List (ClaimedEvent ℕ)
then_claimed = event_of (codes "b") (pending_row 3 (codes "demo-2") 1) ∷ []

claims_others :
    (claim no_fault (codes "b") (pos 120) (pos 5) (pos 50) (after_statements between left)).1
    ≡ ok then_claimed
unfolding claim after_statements
claims_others = refl

table_ids_distinct : has_distinct_ids table ≡ true
unfolding has_distinct_ids
table_ids_distinct = refl

in_first : has_event first_claimed 1 ≡ true
unfolding has_event
in_first = refl

in_time : ltb_ℤ (pos 120) (pos 100 +ℤ pos 50) ≡ true
unfolding ◌+ℤ◌
in_time = refl

between-respects : all (respects 1 (codes "a") (pos 100 +ℤ pos 50)) between ≡ true
unfolding respects ◌+ℤ◌
between-respects = refl

claims_are_exclusive_example : has_event then_claimed 1 ≡ false
claims_are_exclusive_example =
    claims_are_exclusive (codes "a") (codes "b") (pos 100) (pos 120) (pos 1) (pos 5) (pos 50)
      (pos 50) no_fault no_fault table between {events = first_claimed} {others = then_claimed} 1
      table_ids_distinct claims_first in_first between-respects in_time claims_others
