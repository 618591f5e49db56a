-- ===== src/Messaging/Relay/Backoffs.antt =====
-- The backoffs with which the relay marks events failed.
use metrics_pipeline_go.Prelude.{
  ℕ, ◌+◌, ◌≡◌, Bool, true, List, [], ◌∷◌, ℤ, pos, ◌≤ℤ◌, ◌<ℤ◌, All, Bool-cases, inl, inr, arith, not,
  ◌||◌, ltb_ℤ, leb_ℤ, ok, fail_if, >>=-eq-ok,
}
use metrics_pipeline_go.Messaging.Backoff.{next_backoff_bounds, IsDoublable}
use metrics_pipeline_go.Messaging.Relay.{
  repository_missing, publisher_missing, config_invalid, relay_defaults, new_outbox_relay,
  OutboxRelayConfig, RelayOutside, release_claims, relay_events,
}
use metrics_pipeline_go.Messaging.Relay.Traces.{failure_backoffs}

module _ {E : Type 0} (config : OutboxRelayConfig) (out : RelayOutside E) where
  abbrev pub IsInRange : ℤ → Type 0
  IsInRange d = (config.initial_backoff ≤ℤ d) × (d ≤ℤ config.max_backoff)

  release_claims-All : (es : List E) → All IsInRange (failure_backoffs (release_claims es))
  unfolding release_claims failure_backoffs
  release_claims-All [] = tt
  release_claims-All (e ∷ es) = release_claims-All es

  -- From a backoff between the initial and the longest one, every event of a batch that fails is
  -- marked with a backoff in that range. The initial backoff is positive and at most the longest one, which can be
  -- doubled without overflow.
  pub relay_events-IsInRange :
      IsDoublable config.max_backoff
      → pos 0 <ℤ config.initial_backoff
      → config.initial_backoff ≤ℤ config.max_backoff
      → (n : ℕ) (backoff batch_backoff : ℤ) (es : List E) → IsInRange backoff
      → All IsInRange (failure_backoffs (relay_events config out n backoff batch_backoff es).0)
  unfolding relay_events failure_backoffs
  relay_events-IsInRange doublable positive ordered n backoff batch_backoff [] h = tt
  relay_events-IsInRange doublable positive ordered n backoff batch_backoff (e ∷ es) h =
      let next =
        next_backoff_bounds config.initial_backoff backoff config.max_backoff doublable positive h.0
          h.1 in
      let first : IsInRange config.initial_backoff = (omega arith, ordered) in
      elim (Bool-cases (out.publish_fails n)) [
        | inl failed ↦ elim (Bool-cases (out.mark_fails (n + 1))) [
          | inl broken ↦ rw (failed, relay_events) (rw broken (h, release_claims-All es))
          | inr marked ↦
              rw (failed, relay_events)
                (rw marked
                  (h, relay_events-IsInRange doublable positive ordered (n + 2) _ _ es next))
        ]
        | inr sent ↦ elim (Bool-cases (out.mark_fails (n + 1))) [
          | inl broken ↦ rw (sent, relay_events) (rw broken (release_claims-All es))
          | inr marked ↦
              rw (sent, relay_events)
                (rw marked (relay_events-IsInRange doublable positive ordered (n + 2) _ _ es first))
        ]
      ]

-- A relay that is made has a repository and a publisher, and a configuration with a batch size of at least 1,
-- positive durations, and a longest backoff of at least the initial one.
pub new_outbox_relay_lem :
    (config : OutboxRelayConfig) (has_repository has_publisher : Bool) {c : OutboxRelayConfig}
    → new_outbox_relay config has_repository has_publisher ≡ ok c
    → (has_repository ≡ true)
      × (has_publisher ≡ true)
      × (pos 1 ≤ℤ c.batch_size)
      × (pos 0 <ℤ c.poll_interval)
      × (pos 0 <ℤ c.lease_duration)
      × (pos 0 <ℤ c.initial_backoff)
      × (c.initial_backoff ≤ℤ c.max_backoff)
unfolding new_outbox_relay
new_outbox_relay_lem config has_repository has_publisher {c} h =
    let kept = relay_defaults config in
    let (u, repository, h1) = >>=-eq-ok (fail_if (not has_repository) repository_missing) _ h in
    let (v, publisher, h2) = >>=-eq-ok (fail_if (not has_publisher) publisher_missing) _ h1 in
    let (w, valid, last) =
      >>=-eq-ok
        (fail_if
          (ltb_ℤ kept.batch_size (pos 1)
            || leb_ℤ kept.poll_interval (pos 0)
            || leb_ℤ kept.lease_duration (pos 0)
            || leb_ℤ kept.initial_backoff (pos 0)
            || ltb_ℤ kept.max_backoff kept.initial_backoff)
          config_invalid)
        _ h2 in
    let same : kept ≡ c = ground (arith, last) in
    (
      ground (arith, repository),
      ground (arith, publisher),
      rw (← same) (ground (arith, valid)),
      rw (← same) (ground (arith, valid)),
      rw (← same) (ground (arith, valid)),
      rw (← same) (ground (arith, valid)),
      rw (← same) (ground (arith, valid)),
    )
