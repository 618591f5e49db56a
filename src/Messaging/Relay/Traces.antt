-- ===== src/Messaging/Relay/Traces.antt =====
-- What the traces of the relay have in common: every claimed event is disposed of once, an event is marked
-- published after its publishing only, and nothing is done without the lock.
use mathlib.Core.List.{append_assoc}
use metrics_pipeline_go.Prelude.{
  ℕ, ◌+◌, ◌≡◌, refl, sym, ap, ◌∙◌, Bool, true, false, not, ◌&&◌, Option, none, some, List, [], ◌∷◌,
  ◌++◌, ℤ, pos, eqb_ℤ, Bool-cases, inl, inr, if◌then◌else◌, arith,
}
use metrics_pipeline_go.Messaging.Backoff.{next_backoff}
use metrics_pipeline_go.Messaging.Relay.{
  OutboxRelayConfig, RelayOutside, Action, acquired, released_lock, claimed, published,
  publish_failed, marked_published, released, marked_failed, release_claims, relay_events,
}

module _ {E : Type 0} where
  -- The events claimed in a trace, in order.
  unfoldable pub claims : List (Action E) → List E
  claims [] = []
  claims (claimed es ∷ t) = es ++ claims t
  claims (_ ∷ t) = claims t

  -- The events that a trace marks published, marks failed or releases, in order.
  unfoldable pub disposals : List (Action E) → List E
  disposals [] = []
  disposals (marked_published e ∷ t) = e ∷ disposals t
  disposals (marked_failed e d ∷ t) = e ∷ disposals t
  disposals (released e ∷ t) = e ∷ disposals t
  disposals (_ ∷ t) = disposals t

  -- An event is marked published directly after its publishing; `last` is the event just published.
  unfoldable pub IsJustified : Option E → List (Action E) → Type 0
  IsJustified last [] = Unit
  IsJustified last (published e ∷ t) = IsJustified (some e) t
  IsJustified last (marked_published e ∷ t) = (last ≡ some e) × IsJustified none t
  IsJustified last (_ ∷ t) = IsJustified none t

  -- The trace keeps to the lock, which is held or not when it begins.
  unfoldable pub under_lock : Bool → List (Action E) → Bool
  under_lock held [] = not held
  under_lock held (acquired ∷ t) = not held && under_lock true t
  under_lock held (released_lock ∷ t) = held && under_lock false t
  under_lock held (_ ∷ t) = held && under_lock held t

  -- The backoffs with which events are marked failed.
  unfoldable pub failure_backoffs : List (Action E) → List ℤ
  failure_backoffs [] = []
  failure_backoffs (marked_failed e d ∷ t) = d ∷ failure_backoffs t
  failure_backoffs (_ ∷ t) = failure_backoffs t

  pub claims-append : (t u : List (Action E)) → claims (t ++ u) ≡ claims t ++ claims u
  unfolding claims
  claims-append [] u = refl
  claims-append (claimed es ∷ t) u =
      ap (λ r. es ++ r) (claims-append t u) ∙ sym (append_assoc es (claims t) (claims u))
  claims-append (acquired ∷ t) u = claims-append t u
  claims-append (released_lock ∷ t) u = claims-append t u
  claims-append (published e ∷ t) u = claims-append t u
  claims-append (publish_failed e ∷ t) u = claims-append t u
  claims-append (marked_published e ∷ t) u = claims-append t u
  claims-append (released e ∷ t) u = claims-append t u
  claims-append (marked_failed e d ∷ t) u = claims-append t u

  pub disposals-append : (t u : List (Action E)) → disposals (t ++ u) ≡ disposals t ++ disposals u
  unfolding disposals
  disposals-append [] u = refl
  disposals-append (a ∷ t) u = ground (arith, disposals-append t u)

  IsJustified-weaken :
      (last : Option E) (t : List (Action E)) → IsJustified none t → IsJustified last t
  unfolding IsJustified
  IsJustified-weaken last [] h = tt
  IsJustified-weaken last (acquired ∷ t) h = h
  IsJustified-weaken last (released_lock ∷ t) h = h
  IsJustified-weaken last (claimed es ∷ t) h = h
  IsJustified-weaken last (published e ∷ t) h = h
  IsJustified-weaken last (publish_failed e ∷ t) h = h
  IsJustified-weaken last (marked_published e ∷ t) h = cc
  IsJustified-weaken last (released e ∷ t) h = h
  IsJustified-weaken last (marked_failed e d ∷ t) h = h

  pub IsJustified-append :
      (last : Option E) (t u : List (Action E))
      → IsJustified last t
      → IsJustified none u
      → IsJustified last (t ++ u)
  unfolding IsJustified
  IsJustified-append last [] u h k = IsJustified-weaken last u k
  IsJustified-append last (acquired ∷ t) u h k = IsJustified-append none t u h k
  IsJustified-append last (released_lock ∷ t) u h k = IsJustified-append none t u h k
  IsJustified-append last (claimed es ∷ t) u h k = IsJustified-append none t u h k
  IsJustified-append last (published e ∷ t) u h k = IsJustified-append (some e) t u h k
  IsJustified-append last (publish_failed e ∷ t) u h k = IsJustified-append none t u h k
  IsJustified-append last (marked_published e ∷ t) u h k = (h.0, IsJustified-append none t u h.1 k)
  IsJustified-append last (released e ∷ t) u h k = IsJustified-append none t u h k
  IsJustified-append last (marked_failed e d ∷ t) u h k = IsJustified-append none t u h k

  -- Whether a trace leaves the lock alone.
  unfoldable pub leaves_lock : List (Action E) → Bool
  leaves_lock [] = true
  leaves_lock (acquired ∷ t) = false
  leaves_lock (released_lock ∷ t) = false
  leaves_lock (_ ∷ t) = leaves_lock t

  pub leaves_lock-append :
      (t u : List (Action E)) → leaves_lock t ≡ true → leaves_lock (t ++ u) ≡ leaves_lock u
  unfolding leaves_lock
  leaves_lock-append [] u h = refl
  leaves_lock-append (a ∷ t) u h = ground (arith, leaves_lock-append t u)

  pub under_lock-append :
      (t u : List (Action E)) → leaves_lock t ≡ true → under_lock true (t ++ u) ≡ under_lock true u
  unfolding under_lock leaves_lock
  under_lock-append [] u h = refl
  under_lock-append (a ∷ t) u h = ground (arith, under_lock-append t u)

  -- The trace of a batch `es`.
  pub record IsBatchTrace (es : List E) (t : List (Action E)) : Type 0 where
    pub all_disposed : disposals t ≡ es
    pub none_claimed : claims t ≡ []
    pub lock_left : leaves_lock t ≡ true

  release_claims-IsBatchTrace : (es : List E) → IsBatchTrace es (release_claims es)
  unfolding release_claims disposals claims leaves_lock
  release_claims-IsBatchTrace [] = ground arith
  release_claims-IsBatchTrace (e ∷ es) = ground (arith, release_claims-IsBatchTrace es)

  release_claims-IsJustified :
      (last : Option E) (es : List E) → IsJustified last (release_claims es)
  unfolding release_claims IsJustified
  release_claims-IsJustified last [] = tt
  release_claims-IsJustified last (e ∷ es) = release_claims-IsJustified none es

  module _ (config : OutboxRelayConfig) (out : RelayOutside E) where
    pub relay_events-IsBatchTrace :
        (n : ℕ) (backoff batch_backoff : ℤ) (es : List E)
        → IsBatchTrace es (relay_events config out n backoff batch_backoff es).0
    unfolding relay_events disposals claims leaves_lock
    relay_events-IsBatchTrace n backoff batch_backoff [] = ground arith
    relay_events-IsBatchTrace n backoff batch_backoff (e ∷ es) = ground (
      arith,
      release_claims-IsBatchTrace es,
      relay_events-IsBatchTrace (n + 2) config.initial_backoff batch_backoff es,
      relay_events-IsBatchTrace (n + 2) (next_backoff backoff config.max_backoff)
          (if eqb_ℤ batch_backoff (pos 0) then backoff else batch_backoff) es,
    )

    pub relay_events-IsJustified :
        (n : ℕ) (backoff batch_backoff : ℤ) (es : List E)
        → IsJustified none (relay_events config out n backoff batch_backoff es).0
    unfolding relay_events IsJustified
    relay_events-IsJustified n backoff batch_backoff [] = tt
    relay_events-IsJustified n backoff batch_backoff (e ∷ es) =
        elim (Bool-cases (out.publish_fails n)) [
          | inl failed ↦ elim (Bool-cases (out.mark_fails (n + 1))) [
            | inl broken ↦
                rw (failed, relay_events) (rw broken (release_claims-IsJustified none es))
            | inr marked ↦
                rw (failed, relay_events) (rw marked (relay_events-IsJustified (n + 2) _ _ es))
          ]
          | inr sent ↦ elim (Bool-cases (out.mark_fails (n + 1))) [
            | inl broken ↦
                rw (sent, relay_events) (rw broken (refl, release_claims-IsJustified none es))
            | inr marked ↦
                rw (sent, relay_events) (rw marked (refl, relay_events-IsJustified (n + 2) _ _ es))
          ]
        ]
