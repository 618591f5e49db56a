-- ===== src/Storage/Outbox/Exclusive.antt =====
-- Two claims of the outbox with any statements of the store between them.
use metrics_pipeline_go.Prelude.{
  ℕ, zero, suc, ◌≡◌, refl, Bool, true, false, not, ◌&&◌, List, [], ◌∷◌, all, Str, str_eq,
  str_eq_comm, eq_of_str_eq, ◌==◌, ℤ, pos_part, ltb_ℤ, ◌+ℤ◌, Bool-cases, Option-cases, ◌⊎◌, ok, inl,
  inr, arith,
}
use metrics_pipeline_go.Storage.Outbox.{
  OutboxRecord, ClaimedEvent, ClaimFault, no_fault, token_fault, statement_fault, reading_fault,
  is_candidate, claim_rows, claim, is_held, update_held, update_claim, mark_published, mark_failed,
  release_claim,
}
use metrics_pipeline_go.Storage.Outbox.Claims.{
  has_distinct_ids, has_event, all_with, all_with_map, is_kept, claimed_until_all,
  event_is_candidate, claim_ok,
}

-- A call of the store: of Claim with its fault, token, time, limit and lease, and of the three updates with the flag of
-- their failure.
pub data Statement (P : Type 0) : Type 0 where
  claiming : ClaimFault → Str → ℤ → ℤ → ℤ → Statement P
  publishing releasing : Bool → ClaimedEvent P → Statement P
  failing : ℤ → ℤ → Bool → ClaimedEvent P → Statement P

module _ {P : Type 0} where
  unfoldable pub after_statement : Statement P → List (OutboxRecord P) → List (OutboxRecord P)
  unfolding claim mark_published mark_failed release_claim
  after_statement (claiming fault token now limit lease) table =
      (claim fault token now limit lease table).0
  after_statement (publishing fails event) table = (mark_published fails event table).0
  after_statement (failing now backoff fails event) table =
      (mark_failed now backoff fails event table).0
  after_statement (releasing fails event) table = (release_claim fails event table).0

  unfoldable pub after_statements :
      List (Statement P) → List (OutboxRecord P) → List (OutboxRecord P)
  unfolding after_statement
  after_statements [] table = table
  after_statements (s ∷ statements) table = after_statements statements (after_statement s table)

  -- The event is not the one that was claimed with the token.
  abbrev pub is_other : ℕ → Str → ClaimedEvent P → Bool
  unfolding str_eq
  is_other id token event = not ((event.id == id) && str_eq event.claim_token token)

  -- The statement is no claim after the lease, and does not give the claimed event back.
  unfoldable pub respects : ℕ → Str → ℤ → Statement P → Bool
  unfolding is_other
  respects id token until (claiming fault other now limit lease) = ltb_ℤ now until
  respects id token until (publishing fails event) = true
  respects id token until (failing now backoff fails event) = is_other id token event
  respects id token until (releasing fails event) = is_other id token event

  kept_is_no_candidate :
      (token : Str) (later until : ℤ) (table : List (OutboxRecord P)) (row : OutboxRecord P)
      → ltb_ℤ later until ≡ true
      → is_kept token until row ≡ true
      → not (is_candidate later table row) ≡ true
  unfolding is_candidate is_kept
  kept_is_no_candidate token later until table row l h = ground arith

  -- A claim leaves the table or does the statement.
  claim_cases :
      (fault : ClaimFault) (token : Str) (now limit lease : ℤ) (table : List (OutboxRecord P))
      → ((claim fault token now limit lease table).0 ≡ table)
        ⊎ ((claim fault token now limit lease table).0
            ≡ (claim_rows (is_candidate now table) token (now +ℤ lease) (pos_part limit) table).0)
  unfolding claim
  claim_cases no_fault token now limit lease table = ground arith
  claim_cases token_fault token now limit lease table = ground arith
  claim_cases statement_fault token now limit lease table = ground arith
  claim_cases reading_fault token now limit lease table = ground arith

  module _ (id : ℕ) (token : Str) (until : ℤ) where
    abbrev are_kept : List (OutboxRecord P) → Bool
    are_kept rows = all_with (is_kept token until) id rows

    are_kept-claim_rows :
        (candidate : OutboxRecord P → Bool) (other : Str) (end : ℤ) (n : ℕ)
        (rows : List (OutboxRecord P))
        → ((row : OutboxRecord P) → is_kept token until row ≡ true → not (candidate row) ≡ true)
        → are_kept rows ≡ true
        → are_kept (claim_rows candidate other end n rows).0 ≡ true
    unfolding claim_rows
    are_kept-claim_rows candidate other end n [] f h = refl
    are_kept-claim_rows candidate other end zero (row ∷ rows) f h = h
    are_kept-claim_rows candidate other end (suc n) (row ∷ rows) f h = ground (
      arith,
      f row,
      are_kept-claim_rows candidate other end n rows f,
      are_kept-claim_rows candidate other end (suc n) rows f,
    )

    are_kept-claim :
        (fault : ClaimFault) (other : Str) (later limit lease : ℤ) (table : List (OutboxRecord P))
        → ltb_ℤ later until ≡ true
        → are_kept table ≡ true
        → are_kept (claim fault other later limit lease table).0 ≡ true
    are_kept-claim fault other later limit lease table l h =
        elim (claim_cases fault other later limit lease table) [
          | inl same ↦ rw same h
          | inr claimed ↦ rw claimed (
              are_kept-claim_rows (is_candidate later table) other (later +ℤ lease) (pos_part limit)
                table (λ row. kept_is_no_candidate token later until table row l) h)
        ]

    are_kept-update_held :
        (change : OutboxRecord P → OutboxRecord P) (event : ClaimedEvent P)
        (rows : List (OutboxRecord P))
        → ((row : OutboxRecord P) → (change row).id ≡ row.id)
        → ((row : OutboxRecord P)
            → (row.id == id) ≡ true
            → is_kept token until row ≡ true
            → is_held event.id event.claim_token row ≡ true
            → is_kept token until (change row) ≡ true)
        → are_kept rows ≡ true
        → are_kept (update_held change event.id event.claim_token rows).0 ≡ true
    unfolding update_held
    are_kept-update_held change event [] same f h = refl
    are_kept-update_held change event (row ∷ rows) same f h =
        ground (arith, same row, f row, are_kept-update_held change event rows same f)

    are_kept-update_claim :
        (change : OutboxRecord P → OutboxRecord P) (fails : Bool) (event : ClaimedEvent P)
        (rows : List (OutboxRecord P))
        → ((row : OutboxRecord P) → (change row).id ≡ row.id)
        → ((row : OutboxRecord P)
            → (row.id == id) ≡ true
            → is_kept token until row ≡ true
            → is_held event.id event.claim_token row ≡ true
            → is_kept token until (change row) ≡ true)
        → are_kept rows ≡ true
        → are_kept (update_claim change fails event rows).0 ≡ true
    unfolding update_claim
    are_kept-update_claim change true event rows same f h = h
    are_kept-update_claim change false event rows same f h =
        are_kept-update_held change event rows same f h

    other_is_not_held :
        (event : ClaimedEvent P) (row : OutboxRecord P)
        → is_other id token event ≡ true
        → (row.id == id) ≡ true
        → is_kept token until row ≡ true
        → is_held event.id event.claim_token row ≡ false
    unfolding is_held is_kept
    other_is_not_held event row other same kept = elim (Option-cases row.claim_token) [
      | inl none_held ↦ ground (arith, none_held)
      | inr (held, e) ↦ ground (
        arith,
        e,
        str_eq_comm event.claim_token token,
        str_eq_comm held event.claim_token,
        eq_of_str_eq held token,
        eq_of_str_eq held event.claim_token,
      )
    ]

    are_kept-statement :
        (s : Statement P) (table : List (OutboxRecord P))
        → respects id token until s ≡ true
        → are_kept table ≡ true
        → are_kept (after_statement s table) ≡ true
    unfolding after_statement respects mark_published mark_failed release_claim is_kept
    are_kept-statement (claiming fault other now limit lease) table r h =
        are_kept-claim fault other now limit lease table r h
    are_kept-statement (publishing fails event) table r h =
        are_kept-update_claim _ fails event table (λ row. refl) (λ row same kept held. refl) h
    are_kept-statement (failing now backoff fails event) table r h =
        are_kept-update_claim _ fails event table (λ row. refl)
          (λ row same kept held.
            absurd (ground (arith, held, other_is_not_held event row r same kept)))
          h
    are_kept-statement (releasing fails event) table r h =
        are_kept-update_claim _ fails event table (λ row. refl)
          (λ row same kept held.
            absurd (ground (arith, held, other_is_not_held event row r same kept)))
          h

    are_kept-statements :
        (statements : List (Statement P)) (table : List (OutboxRecord P))
        → all (respects id token until) statements ≡ true
        → are_kept table ≡ true
        → are_kept (after_statements statements table) ≡ true
    unfolding after_statements
    are_kept-statements [] table r h = h
    are_kept-statements (s ∷ statements) table r h =
        are_kept-statements statements (after_statement s table) (ground arith)
          (are_kept-statement s table (ground arith) h)

  -- A claim made before the lease of an earlier one has ended returns none of the earlier one's events,
  -- unless that event was given back in between: whatever claims within the lease, marks and releases come between
  -- the two, but no MarkFailed and no ReleaseClaim of the event with the token of the earlier claim. No two
  -- rows have one id.
  pub claims_are_exclusive :
      (token other : Str) (now later limit other_limit lease other_lease : ℤ)
      (fault other_fault : ClaimFault) (table : List (OutboxRecord P))
      (between : List (Statement P)) {events others : List (ClaimedEvent P)} (id : ℕ)
      → has_distinct_ids table ≡ true
      → (claim fault token now limit lease table).1 ≡ ok events
      → has_event events id ≡ true
      → all (respects id token (now +ℤ lease)) between ≡ true
      → ltb_ℤ later (now +ℤ lease) ≡ true
      → (claim other_fault other later other_limit other_lease
          (after_statements between (claim fault token now limit lease table).0)).1
        ≡ ok others
      → has_event others id ≡ false
  claims_are_exclusive token other now later limit other_limit lease other_lease fault other_fault
        table between {events} {others} id distinct first h respected before second =
      let until = now +ℤ lease in
      let left = (claim fault token now limit lease table).0 in
      let after = after_statements between left in
      let (changed, claimed) = claim_ok fault token now limit lease table first in
      let (unused, again) = claim_ok other_fault other later other_limit other_lease after second in
      let held : all_with (is_kept token until) id left ≡ true = rw changed (
        claimed_until_all (is_candidate now table) token until (pos_part limit) table id distinct
          (rw claimed at h)) in
      let none_left : all_with (λ row. not (is_candidate later after row)) id after ≡ true =
        all_with_map (is_kept token until) (λ row. not (is_candidate later after row)) id after
          (λ row. kept_is_no_candidate token later until after row before)
          (are_kept-statements id token until between left respected held) in
      elim (Bool-cases (has_event others id)) [
        | inr free ↦ free
        | inl taken ↦ absurd (
            ground (
              arith,
              none_left,
              event_is_candidate (is_candidate later after) other (later +ℤ other_lease)
                  (pos_part other_limit) after id (rw again at taken),
            ))
      ]
