-- ===== src/Messaging/Relay.antt =====
-- internal/messaging/outbox_relay.go: the relay that publishes the events of the outbox.
--
-- A run is the trace of the calls that the relay makes, and the outside answers by the number of
-- the call. The loops run on a number of rounds; `paused` says that it is used up.
pub mod Traces
pub mod Runs
pub mod Backoffs
mod Tests
use metrics_pipeline_go.Prelude.{
  ℕ, zero, suc, ◌+◌, ◌*◌, Bool, true, false, ◌&&◌, ◌||◌, not, Option, none, some, List, [], ◌∷◌,
  ◌++◌, map, ℤ, pos, eqb_ℤ, leb_ℤ, ltb_ℤ, Result, ok, err, ◌>>=◌, ◌>>◌, fail_if, if◌then◌else◌,
}
use metrics_pipeline_go.Messaging.Settings.{or_default}
use metrics_pipeline_go.Messaging.Backoff.{next_backoff, millisecond, second}

pub record OutboxRelayConfig : Type 0 where
  pub batch_size : ℤ
  pub poll_interval : ℤ
  pub lease_duration : ℤ
  pub initial_backoff : ℤ
  pub max_backoff : ℤ

pub data RelayError : Type 0 where
  repository_missing publisher_missing config_invalid : RelayError

unfoldable pub relay_defaults : OutboxRelayConfig → OutboxRelayConfig
relay_defaults c = record {
  batch_size = or_default c.batch_size 100;
  poll_interval = or_default c.poll_interval (100 * millisecond);
  lease_duration = or_default c.lease_duration (30 * second);
  initial_backoff = or_default c.initial_backoff (100 * millisecond);
  max_backoff = or_default c.max_backoff (30 * second);
}

-- NewOutboxRelay: the configuration that the relay keeps. The flags say whether an argument is set.
unfoldable pub new_outbox_relay :
    OutboxRelayConfig → Bool → Bool → Result RelayError OutboxRelayConfig
unfolding relay_defaults
new_outbox_relay config has_repository has_publisher =
    let c = relay_defaults config in
    do
      fail_if (not has_repository) repository_missing
      fail_if (not has_publisher) publisher_missing
      fail_if
          (ltb_ℤ c.batch_size (pos 1)
            || leb_ℤ c.poll_interval (pos 0)
            || leb_ℤ c.lease_duration (pos 0)
            || leb_ℤ c.initial_backoff (pos 0)
            || ltb_ℤ c.max_backoff c.initial_backoff)
          config_invalid
      ok c

-- What the repository, the publisher, the context and the timer answer at the n-th call.
pub record RelayOutside (E : Type 0) : Type 0 where
  pub try_acquire : ℕ → Option Bool
  pub claim : ℕ → Option (List E)
  pub publish_fails : ℕ → Bool
  pub mark_fails : ℕ → Bool
  pub context_done : ℕ → Bool
  pub timer_fires : ℕ → Bool

pub data Action (E : Type 0) : Type 0 where
  acquired released_lock : Action E
  claimed : List E → Action E
  published publish_failed marked_published released : E → Action E
  marked_failed : E → ℤ → Action E

-- What the loop over a batch ends in: all events are through, with the backoff, the batch's backoff
-- and the number of the next call; or runLeader returns an error.
pub data BatchEnd : Type 0 where
  batch_done : ℕ → ℤ → ℤ → BatchEnd
  batch_broken : ℕ → BatchEnd

pub data LeaderEnd : Type 0 where
  leader_stopped leader_failed : ℕ → LeaderEnd
  paused : ℕ → LeaderEnd

abbrev pub next_call : LeaderEnd → ℕ
next_call (leader_stopped m) = m
next_call (leader_failed m) = m
next_call (paused m) = m

abbrev pub has_failed : LeaderEnd → Bool
has_failed (leader_failed m) = true
has_failed _ = false

module _ {E : Type 0} where
  -- releaseClaims: every event is released, whatever each call returns.
  unfoldable pub release_claims : List E → List (Action E)
  release_claims [] = []
  release_claims (e ∷ es) = released e ∷ release_claims es

  module _ (config : OutboxRelayConfig) (out : RelayOutside E) where
    -- The loop over the events of a batch.
    unfoldable pub relay_events : ℕ → ℤ → ℤ → List E → List (Action E) × BatchEnd
    unfolding release_claims next_backoff
    relay_events n backoff batch_backoff [] = ([], batch_done n backoff batch_backoff)
    relay_events n backoff batch_backoff (e ∷ es) =
        let first_backoff = if eqb_ℤ batch_backoff (pos 0) then backoff else batch_backoff in
        let after_failure =
          relay_events (n + 2) (next_backoff backoff config.max_backoff) first_backoff es in
        let after_success = relay_events (n + 2) config.initial_backoff batch_backoff es in
        if out.publish_fails n
        then if out.mark_fails (n + 1)
          then (
            publish_failed e ∷ marked_failed e backoff ∷ release_claims es,
            batch_broken (n + 2),
          )
          else (publish_failed e ∷ marked_failed e backoff ∷ after_failure.0, after_failure.1)
        else if out.mark_fails (n + 1)
        then (published e ∷ marked_published e ∷ release_claims es, batch_broken (n + 2))
        else (published e ∷ marked_published e ∷ after_success.0, after_success.1)

    -- runLeader, with the rounds left.
    unfoldable pub run_leader : ℕ → ℕ → ℤ → List (Action E) × LeaderEnd
    unfolding relay_events
    run_leader zero n backoff = ([], paused n)
    run_leader (suc rounds) n backoff =
        let idle = run_leader rounds (n + 3) backoff in
        if out.context_done n then ([], leader_stopped (n + 1)) else elim (out.claim (n + 1)) [
          | none ↦ ([], leader_failed (n + 2))
          | some [] ↦ if out.timer_fires (n + 2) then idle else ([], leader_stopped (n + 3))
          | some (e ∷ es) ↦
              let (trace, end) = relay_events (n + 2) backoff (pos 0) (e ∷ es) in
              elim end [
                | batch_broken m ↦ (claimed (e ∷ es) ∷ trace, leader_failed m)
                | batch_done m next batch_backoff ↦
                    let (later, last) = run_leader rounds m next in
                    if ltb_ℤ (pos 0) batch_backoff
                    then (claimed (e ∷ es) ∷ trace, leader_stopped (m + 1))
                    else (claimed (e ∷ es) ∷ (trace ++ later), last)
              ]
        ]

    -- Run, with the rounds of the election left; a leader's loop has `rounds` of its own.
    unfoldable pub run_relay : ℕ → ℕ → ℕ → List (Action E)
    unfolding run_leader
    run_relay rounds zero n = []
    run_relay rounds (suc terms) n =
        let standby = run_relay rounds terms (n + 3) in
        let (trace, end) = run_leader rounds (n + 2) config.initial_backoff in
        let m = next_call end in
        let again = run_relay rounds terms (m + 2) in
        if out.context_done n then [] else elim (out.try_acquire (n + 1)) [
          | none ↦ if out.timer_fires (n + 2) then standby else []
          | some false ↦ if out.timer_fires (n + 2) then standby else []
          | some true ↦
              if has_failed end && not (out.context_done m) && not (out.timer_fires (m + 1))
              then acquired ∷ (trace ++ released_lock ∷ [])
              else acquired ∷ (trace ++ released_lock ∷ again)
        ]
