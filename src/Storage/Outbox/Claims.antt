-- ===== src/Storage/Outbox/Claims.antt =====
-- What a claim of events excludes.
use metrics_pipeline_go.Prelude.{
  ℕ, zero, suc, ◌≤◌, ◌≡◌, refl, sym, Bool, true, false, not, ◌&&◌, ◌||◌, none, some, List, [], ◌∷◌,
  length, all, Str, str_eq, str_eq_refl, ltb, ◌==◌, ℤ, pos_part, leb_ℤ, ◌+ℤ◌, ok, arith,
}
use metrics_pipeline_go.Storage.Outbox.{
  OutboxRecord, ClaimedEvent, ClaimFault, no_fault, token_fault, statement_fault, reading_fault,
  no_previous, is_candidate, has_token, event_of, claim_rows, claim,
}

module _ {P : Type 0} where
  unfoldable pub has_row : List (OutboxRecord P) → ℕ → Bool
  has_row [] id = false
  has_row (row ∷ rows) id = (row.id == id) || has_row rows id

  -- The ids are a primary key.
  unfoldable pub has_distinct_ids : List (OutboxRecord P) → Bool
  unfolding has_row
  has_distinct_ids [] = true
  has_distinct_ids (row ∷ rows) = not (has_row rows row.id) && has_distinct_ids rows

  unfoldable pub has_event : List (ClaimedEvent P) → ℕ → Bool
  has_event [] id = false
  has_event (event ∷ events) id = (event.id == id) || has_event events id

  -- Every row with the id passes the test.
  abbrev pub all_with : (OutboxRecord P → Bool) → ℕ → List (OutboxRecord P) → Bool
  all_with p id rows = all (λ row. not (row.id == id) || p row) rows

  abbrev is_until : ℤ → OutboxRecord P → Bool
  is_until until row = elim row.claimed_until [
    | none ↦ false
    | some t ↦ leb_ℤ until t && leb_ℤ t until
  ]

  -- The row is published, or claimed with the token until then.
  unfoldable pub is_kept : Str → ℤ → OutboxRecord P → Bool
  unfolding str_eq
  is_kept token until row =
      row.is_published || (is_until until row && has_token token row.claim_token)

  none_with :
      (p : OutboxRecord P → Bool) (rows : List (OutboxRecord P)) (id : ℕ)
      → has_row rows id ≡ false
      → all_with p id rows ≡ true
  unfolding has_row
  none_with p [] id h = refl
  none_with p (row ∷ rows) id h = ground (arith, none_with p rows id)

  pub all_with_map :
      (p q : OutboxRecord P → Bool) (id : ℕ) (rows : List (OutboxRecord P))
      → ((row : OutboxRecord P) → p row ≡ true → q row ≡ true)
      → all_with p id rows ≡ true
      → all_with q id rows ≡ true
  all_with_map p q id [] f h = refl
  all_with_map p q id (row ∷ rows) f h = ground (arith, f row, all_with_map p q id rows f)

  module _ (candidate : OutboxRecord P → Bool) (token : Str) (until : ℤ) where
    event_is_row :
        (n : ℕ) (rows : List (OutboxRecord P)) (id : ℕ)
        → has_event (claim_rows candidate token until n rows).1 id ≡ true
        → has_row rows id ≡ true
    unfolding claim_rows has_event has_row
    event_is_row n [] id h = h
    event_is_row zero (row ∷ rows) id h = cc
    event_is_row (suc n) (row ∷ rows) id h =
        ground (arith, event_is_row n rows id, event_is_row (suc n) rows id)

    no_row_all :
        (p : OutboxRecord P → Bool) (n : ℕ) (rows : List (OutboxRecord P)) (id : ℕ)
        → has_row rows id ≡ false
        → all_with p id (claim_rows candidate token until n rows).0 ≡ true
    unfolding claim_rows has_row
    no_row_all p n [] id h = refl
    no_row_all p zero (row ∷ rows) id h = none_with p (row ∷ rows) id h
    no_row_all p (suc n) (row ∷ rows) id h =
        ground (arith, no_row_all p n rows id, no_row_all p (suc n) rows id)

    pub claimed_until_all :
        (n : ℕ) (rows : List (OutboxRecord P)) (id : ℕ)
        → has_distinct_ids rows ≡ true
        → has_event (claim_rows candidate token until n rows).1 id ≡ true
        → all_with (is_kept token until) id (claim_rows candidate token until n rows).0 ≡ true
    unfolding claim_rows has_event has_distinct_ids is_kept
    claimed_until_all n [] id d h = refl
    claimed_until_all zero (row ∷ rows) id d h = cc
    claimed_until_all (suc n) (row ∷ rows) id d h = ground (
      arith,
      claimed_until_all n rows id,
      claimed_until_all (suc n) rows id,
      event_is_row n rows row.id,
      event_is_row n rows id,
      event_is_row (suc n) rows id,
      no_row_all (is_kept token until) n rows id,
      str_eq_refl token,
    )

    pub event_is_candidate :
        (n : ℕ) (rows : List (OutboxRecord P)) (id : ℕ)
        → has_event (claim_rows candidate token until n rows).1 id ≡ true
        → all_with (λ row. not (candidate row)) id rows ≡ false
    unfolding claim_rows has_event
    event_is_candidate n [] id h = sym h
    event_is_candidate zero (row ∷ rows) id h = cc
    event_is_candidate (suc n) (row ∷ rows) id h =
        ground (arith, event_is_candidate n rows id, event_is_candidate (suc n) rows id)

  pub claim_ok :
      (fault : ClaimFault) (token : Str) (now limit lease : ℤ) (table : List (OutboxRecord P))
      {events : List (ClaimedEvent P)}
      → (claim fault token now limit lease table).1 ≡ ok events
      → ((claim fault token now limit lease table).0
          ≡ (claim_rows (is_candidate now table) token (now +ℤ lease) (pos_part limit) table).0)
        × (events
            ≡ (claim_rows (is_candidate now table) token (now +ℤ lease) (pos_part limit) table).1)
  unfolding claim
  claim_ok no_fault token now limit lease table h = ground arith
  claim_ok token_fault token now limit lease table h = absurd (ground arith)
  claim_ok statement_fault token now limit lease table h = absurd (ground arith)
  claim_ok reading_fault token now limit lease table h = absurd (ground arith)

  -- No row of the event's task with a smaller number is unpublished.
  unfoldable pub is_head : List (OutboxRecord P) → ClaimedEvent P → Bool
  unfolding str_eq
  is_head [] event = true
  is_head (previous ∷ rows) event =
      (not (str_eq previous.task_id event.task_id)
        || not (ltb previous.event_seq event.event_seq)
        || previous.is_published)
      && is_head rows event

  is_head-event_of :
      (token : Str) (row : OutboxRecord P) (table : List (OutboxRecord P))
      → no_previous row table ≡ true
      → is_head table (event_of token row) ≡ true
  unfolding is_head no_previous
  is_head-event_of token row [] h = refl
  is_head-event_of token row (previous ∷ table) h = ground (arith, is_head-event_of token row table)

  claim_rows-heads :
      (now until : ℤ) (token : Str) (table : List (OutboxRecord P)) (n : ℕ)
      (rows : List (OutboxRecord P))
      → let events = (claim_rows (is_candidate now table) token until n rows).1 in
        (all (is_head table) events ≡ true) × (length events ≤ n)
  unfolding claim_rows is_candidate
  claim_rows-heads now until token table n [] = (refl, omega arith)
  claim_rows-heads now until token table zero (row ∷ rows) = (refl, omega arith)
  claim_rows-heads now until token table (suc n) (row ∷ rows) =
      let next = claim_rows-heads now until token table n rows in
      let same = claim_rows-heads now until token table (suc n) rows in
      (
        ground (arith, next.0, same.0, is_head-event_of token row table),
        ground (arith, next.1, same.1),
      )

  -- A claim returns at most as many events as its limit, and only events whose task has no unpublished
  -- event with a smaller number.
  pub claim_lem :
      (fault : ClaimFault) (token : Str) (now limit lease : ℤ) (table : List (OutboxRecord P))
      {events : List (ClaimedEvent P)}
      → (claim fault token now limit lease table).1 ≡ ok events
      → (all (is_head table) events ≡ true) × (length events ≤ pos_part limit)
  claim_lem fault token now limit lease table {events} h =
      let (changed, claimed) = claim_ok fault token now limit lease table h in
      rw claimed (claim_rows-heads now (now +ℤ lease) token table (pos_part limit) table)
