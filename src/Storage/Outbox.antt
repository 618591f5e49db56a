-- ===== src/Storage/Outbox.antt =====
-- internal/storage/postgres/outbox_store.go, with the statements of sql/claim_metric_outbox.sql,
-- sql/mark_metric_outbox_published.sql, sql/mark_metric_outbox_failed.sql and sql/release_metric_outbox_claim.sql.
--
-- The table lists its rows in the order of their ids, and `now` is its clock at a statement, in milliseconds.
-- Statements follow each other; the lease and the backoff are in milliseconds.
pub mod Claims
pub mod Exclusive
mod Tests
use metrics_pipeline_go.Prelude.{
  ℕ, zero, suc, ◌+◌, ◌≡◌, Bool, true, false, not, ◌&&◌, ◌||◌, Option, none, some, List, [], ◌∷◌,
  length, all, Str, str_eq, ltb, ◌==◌, ℤ, pos, pos_part, ltb_ℤ, leb_ℤ, ◌+ℤ◌, Result, ok, err,
  if◌then◌else◌,
}

pub record OutboxRecord (P : Type 0) : Type 0 where
  pub id : ℕ
  pub task_id : Str
  pub event_seq : ℕ
  pub payload : P
  pub claimed_until : Option ℤ
  pub claim_token : Option Str
  pub is_published : Bool
  pub attempt_count : ℕ
  pub next_attempt_at : ℤ

pub record ClaimedEvent (P : Type 0) : Type 0 where
  pub id : ℕ
  pub task_id : Str
  pub event_seq : ℕ
  pub payload : P
  pub claim_token : Str

pub data OutboxError : Type 0 where
  parameters_invalid token_failed claim_failed read_failed update_failed : OutboxError
  claim_lost : ℕ → OutboxError

-- What goes wrong in a Claim: nothing, the random token, the statement, or the reading of its rows.
pub data ClaimFault : Type 0 where
  no_fault token_fault statement_fault reading_fault : ClaimFault

abbrev pub is_free : ℤ → Option ℤ → Bool
is_free now none = true
is_free now (some until) = leb_ℤ until now

abbrev pub has_token : Str → Option Str → Bool
unfolding str_eq
has_token token none = false
has_token token (some held) = str_eq held token

module _ {P : Type 0} where
  -- The NOT EXISTS of the statement.
  unfoldable pub no_previous : OutboxRecord P → List (OutboxRecord P) → Bool
  unfolding str_eq
  no_previous row [] = true
  no_previous row (previous ∷ rows) =
      not (
        str_eq previous.task_id row.task_id
        && ltb previous.event_seq row.event_seq
        && not previous.is_published)
      && no_previous row rows

  abbrev pub is_candidate : ℤ → List (OutboxRecord P) → OutboxRecord P → Bool
  unfolding no_previous
  is_candidate now table row =
      not row.is_published
      && leb_ℤ row.next_attempt_at now
      && is_free now row.claimed_until
      && no_previous row table

  abbrev pub claimed_row : Str → ℤ → OutboxRecord P → OutboxRecord P
  claimed_row token until row = record {
    id = row.id;
    task_id = row.task_id;
    event_seq = row.event_seq;
    payload = row.payload;
    claimed_until = some until;
    claim_token = some token;
    is_published = row.is_published;
    attempt_count = row.attempt_count;
    next_attempt_at = row.next_attempt_at;
  }

  abbrev pub event_of : Str → OutboxRecord P → ClaimedEvent P
  event_of token row = record {
    id = row.id;
    task_id = row.task_id;
    event_seq = row.event_seq;
    payload = row.payload;
    claim_token = token;
  }

  -- The rows of the table after the statement, and those that it returns, for a limit of n.
  unfoldable pub claim_rows :
      (OutboxRecord P → Bool)
      → Str
      → ℤ
      → ℕ
      → List (OutboxRecord P)
      → List (OutboxRecord P) × List (ClaimedEvent P)
  claim_rows candidate token until n [] = ([], [])
  claim_rows candidate token until zero (row ∷ rows) = (row ∷ rows, [])
  claim_rows candidate token until (suc n) (row ∷ rows) =
      let next = claim_rows candidate token until n rows in
      let same = claim_rows candidate token until (suc n) rows in
      if candidate row
      then (claimed_row token until row ∷ next.0, event_of token row ∷ next.1)
      else (row ∷ same.0, same.1)

  -- Claim: the table after it, and the events. The rows stay claimed when they cannot be read.
  unfoldable pub claim :
      ClaimFault
      → Str
      → ℤ
      → ℤ
      → ℤ
      → List (OutboxRecord P)
      → List (OutboxRecord P) × Result OutboxError (List (ClaimedEvent P))
  unfolding claim_rows is_candidate ◌+ℤ◌
  claim fault token now limit lease table =
      let (after, events) =
        claim_rows (is_candidate now table) token (now +ℤ lease) (pos_part limit) table in
      if ltb_ℤ limit (pos 1) || leb_ℤ lease (pos 0)
      then (table, err parameters_invalid)
      else elim fault [
        | token_fault ↦ (table, err token_failed)
        | statement_fault ↦ (table, err claim_failed)
        | reading_fault ↦ (after, err read_failed)
        | no_fault ↦ (after, ok events)
      ]

  -- `WHERE id = $1 AND claim_token = $2 AND published_at IS NULL`.
  abbrev pub is_held : ℕ → Str → OutboxRecord P → Bool
  unfolding has_token
  is_held id token row = (row.id == id) && has_token token row.claim_token && not row.is_published

  -- An UPDATE of the rows that are held, and the number of rows affected.
  unfoldable pub update_held :
      (OutboxRecord P → OutboxRecord P)
      → ℕ
      → Str
      → List (OutboxRecord P)
      → List (OutboxRecord P) × ℕ
  unfolding is_held
  update_held change id token [] = ([], 0)
  update_held change id token (row ∷ rows) =
      let rest = update_held change id token rows in
      if is_held id token row then (change row ∷ rest.0, suc rest.1) else (row ∷ rest.0, rest.1)

  abbrev pub released_row : Bool → ℕ → ℤ → OutboxRecord P → OutboxRecord P
  released_row published attempts next row = record {
    id = row.id;
    task_id = row.task_id;
    event_seq = row.event_seq;
    payload = row.payload;
    claimed_until = none;
    claim_token = none;
    is_published = published;
    attempt_count = attempts;
    next_attempt_at = next;
  }

  -- The call of an UPDATE, and its check of RowsAffected.
  unfoldable pub update_claim :
      (OutboxRecord P → OutboxRecord P)
      → Bool
      → ClaimedEvent P
      → List (OutboxRecord P)
      → List (OutboxRecord P) × Option OutboxError
  unfolding update_held
  update_claim change fails event table =
      let (after, affected) = update_held change event.id event.claim_token table in
      if fails
      then (table, some update_failed)
      else (after, if affected == 1 then none else some (claim_lost event.id))

  abbrev pub mark_published :
      Bool → ClaimedEvent P → List (OutboxRecord P) → List (OutboxRecord P) × Option OutboxError
  unfolding update_claim
  mark_published = update_claim (λ row. released_row true row.attempt_count row.next_attempt_at row)

  abbrev pub mark_failed :
      ℤ
      → ℤ
      → Bool
      → ClaimedEvent P
      → List (OutboxRecord P)
      → List (OutboxRecord P) × Option OutboxError
  unfolding update_claim ◌+ℤ◌
  mark_failed now backoff =
      update_claim
        (λ row. released_row row.is_published (row.attempt_count + 1) (now +ℤ backoff) row)

  abbrev pub release_claim :
      Bool → ClaimedEvent P → List (OutboxRecord P) → List (OutboxRecord P) × Option OutboxError
  unfolding update_claim
  release_claim =
      update_claim (λ row. released_row row.is_published row.attempt_count row.next_attempt_at row)
