-- ===== src/Messaging/Relay/Runs.antt =====
-- The runs of the relay: the leader's loop and the election around it.
use mathlib.Core.List.{append-nil}
use metrics_pipeline_go.Prelude.{
  ℕ, zero, suc, ◌+◌, ◌≡◌, refl, sym, ap, ◌∙◌, Bool, true, false, not, ◌&&◌, none, List, [], ◌∷◌,
  ◌++◌, ℤ, pos, ltb_ℤ, Bool-cases, Option-cases, inl, inr, if◌then◌else◌,
}
use metrics_pipeline_go.Messaging.Relay.{
  OutboxRelayConfig, RelayOutside, Action, acquired, released_lock, claimed, BatchEnd, batch_done,
  batch_broken, LeaderEnd, leader_stopped, leader_failed, next_call, has_failed, relay_events,
  run_leader, run_relay,
}
use metrics_pipeline_go.Messaging.Relay.Traces.{
  claims, disposals, IsJustified, under_lock, leaves_lock, claims-append, disposals-append,
  leaves_lock-append, IsJustified-append, under_lock-append, IsBatchTrace,
  relay_events-IsBatchTrace, relay_events-IsJustified,
}

module _ {E : Type 0} where
  -- The trace of a leader.
  record IsLeaderTrace (t : List (Action E)) : Type 0 where
    balanced : disposals t ≡ claims t
    justified : IsJustified none t
    lock_left : leaves_lock t ≡ true

  nothing-IsLeaderTrace : IsLeaderTrace []
  unfolding claims disposals IsJustified leaves_lock
  nothing-IsLeaderTrace = record { balanced = refl; justified = tt; lock_left = refl }

  -- A batch with its claim, followed by the trace of the rest.
  batch-IsLeaderTrace :
      (es : List E) (t u : List (Action E))
      → IsBatchTrace es t
      → IsJustified none t
      → IsLeaderTrace u
      → IsLeaderTrace (claimed es ∷ (t ++ u))
  unfolding disposals claims IsJustified leaves_lock
  batch-IsLeaderTrace es t u h j k = record {
    balanced =
        disposals-append t u
        ∙ ap (λ l. l ++ disposals u) h.all_disposed
        ∙ ap (λ l. es ++ l)
            (k.balanced ∙ sym (ap (λ l. l ++ claims u) h.none_claimed) ∙ sym (claims-append t u));
    justified = IsJustified-append none t u j k.justified;
    lock_left = leaves_lock-append t u h.lock_left ∙ k.lock_left;
  }

  single-IsLeaderTrace :
      (es : List E) (t : List (Action E))
      → IsBatchTrace es t
      → IsJustified none t
      → IsLeaderTrace (claimed es ∷ t)
  single-IsLeaderTrace es t h j =
      let whole = batch-IsLeaderTrace es t [] h j nothing-IsLeaderTrace in
      let e : t ++ [] ≡ t = append-nil t in rw (← e) whole

  module _ (config : OutboxRelayConfig) (out : RelayOutside E) where
    batch_end :
        (rounds : ℕ) (l : List E) (r : List (Action E) × BatchEnd)
        → IsBatchTrace l r.0
        → IsJustified none r.0
        → ((m : ℕ) (b : ℤ) → IsLeaderTrace (run_leader config out rounds m b).0)
        → IsLeaderTrace
            (elim r.1 as (λ x. List (Action E) × LeaderEnd) [
              | batch_broken m ↦ (claimed l ∷ r.0, leader_failed m)
              | batch_done m next batch_backoff ↦
                  let (later, last) = run_leader config out rounds m next in
                  if ltb_ℤ (pos 0) batch_backoff
                  then (claimed l ∷ r.0, leader_stopped (m + 1))
                  else (claimed l ∷ (r.0 ++ later), last)
            ]).0
    batch_end rounds l (t, batch_broken m) h j k = single-IsLeaderTrace l t h j
    batch_end rounds l (t, batch_done m next b) h j k = elim (Bool-cases (ltb_ℤ (pos 0) b)) [
      | inl failed ↦ rw failed (single-IsLeaderTrace l t h j)
      | inr passed ↦ rw passed (batch-IsLeaderTrace l t _ h j (k m next))
    ]

    run_leader-IsLeaderTrace :
        (rounds n : ℕ) (backoff : ℤ) → IsLeaderTrace (run_leader config out rounds n backoff).0
    unfolding run_leader
    run_leader-IsLeaderTrace zero n backoff = nothing-IsLeaderTrace
    run_leader-IsLeaderTrace (suc rounds) n backoff = elim (Bool-cases (out.context_done n)) [
      | inl done ↦ rw (done, run_leader) nothing-IsLeaderTrace
      | inr live ↦ elim (Option-cases (out.claim (n + 1))) [
        | inl failed ↦ rw (live, run_leader) (rw failed nothing-IsLeaderTrace)
        | inr ([], none_due) ↦ elim (Bool-cases (out.timer_fires (n + 2))) [
          | inl fired ↦
              rw (live, run_leader)
                (rw none_due (rw fired (run_leader-IsLeaderTrace rounds (n + 3) backoff)))
          | inr ended ↦ rw (live, run_leader) (rw none_due (rw ended nothing-IsLeaderTrace))
        ]
        | inr (e ∷ es, due) ↦
            rw (live, run_leader)
              (rw due (
                batch_end rounds (e ∷ es) (relay_events config out (n + 2) backoff (pos 0) (e ∷ es))
                  (relay_events-IsBatchTrace config out (n + 2) backoff (pos 0) (e ∷ es))
                  (relay_events-IsJustified config out (n + 2) backoff (pos 0) (e ∷ es))
                  (λ m b. run_leader-IsLeaderTrace rounds m b)))
      ]
    ]

  -- What every run of the relay satisfies.
  pub record IsRelayTrace (t : List (Action E)) : Type 0 where
    pub all_disposed : disposals t ≡ claims t
    pub published_first : IsJustified none t
    pub keeps_lock : under_lock false t ≡ true

  stop-IsRelayTrace : IsRelayTrace []
  unfolding claims disposals IsJustified under_lock
  stop-IsRelayTrace = record { all_disposed = refl; published_first = tt; keeps_lock = refl }

  term-IsRelayTrace :
      (t u : List (Action E))
      → IsLeaderTrace t
      → IsRelayTrace u
      → IsRelayTrace (acquired ∷ (t ++ released_lock ∷ u))
  unfolding claims disposals IsJustified under_lock
  term-IsRelayTrace t u h k = record {
    all_disposed =
        disposals-append t (released_lock ∷ u)
        ∙ ap (λ l. l ++ disposals u) h.balanced
        ∙ ap (λ l. claims t ++ l) k.all_disposed
        ∙ sym (claims-append t (released_lock ∷ u));
    published_first = IsJustified-append none t (released_lock ∷ u) h.justified k.published_first;
    keeps_lock = under_lock-append t (released_lock ∷ u) h.lock_left ∙ k.keeps_lock;
  }

  module _ (config : OutboxRelayConfig) (out : RelayOutside E) where
    standby :
        (fires : Bool) {t : List (Action E)}
        → IsRelayTrace t
        → IsRelayTrace (if fires then t else [])
    standby true h = h
    standby false h = stop-IsRelayTrace

    resigned :
        (interrupted : Bool) {t u : List (Action E)}
        → IsRelayTrace t
        → IsRelayTrace u
        → IsRelayTrace (if interrupted then t else u)
    resigned true h k = h
    resigned false h k = k

    -- In every run, the events for which MarkPublished, MarkFailed or ReleaseClaim is called are the
    -- claimed events, in order and once each; an event is marked published directly after its publishing; and
    -- claims and publishings happen with the leader's lock held, which is released at the end.
    pub run_relay-IsRelayTrace :
        (rounds terms n : ℕ) → IsRelayTrace (run_relay config out rounds terms n)
    unfolding run_relay
    run_relay-IsRelayTrace rounds zero n = stop-IsRelayTrace
    run_relay-IsRelayTrace rounds (suc terms) n =
        let (trace, end) = run_leader config out rounds (n + 2) config.initial_backoff in
        let m = next_call end in
        let led = run_leader-IsLeaderTrace config out rounds (n + 2) config.initial_backoff in
        elim (Bool-cases (out.context_done n)) [
          | inl done ↦ rw (done, run_relay) stop-IsRelayTrace
          | inr live ↦ elim (Option-cases (out.try_acquire (n + 1))) [
            | inl failed ↦
                rw (live, run_relay)
                  (rw failed (
                    standby (out.timer_fires (n + 2))
                      (run_relay-IsRelayTrace rounds terms (n + 3))))
            | inr (false, other) ↦
                rw (live, run_relay)
                  (rw other (
                    standby (out.timer_fires (n + 2))
                      (run_relay-IsRelayTrace rounds terms (n + 3))))
            | inr (true, leads) ↦
                rw (live, run_relay)
                  (rw leads (
                    resigned
                      (has_failed end && not (out.context_done m) && not (out.timer_fires (m + 1)))
                      (term-IsRelayTrace trace [] led stop-IsRelayTrace)
                      (term-IsRelayTrace trace _ led
                        (run_relay-IsRelayTrace rounds terms (m + 2)))))
          ]
        ]
