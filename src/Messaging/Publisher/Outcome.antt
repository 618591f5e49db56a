-- ===== src/Messaging/Publisher/Outcome.antt =====
-- publishWithRetry as a whole: what its success means and what it costs.
use mathlib.Core.List.{append-nil}
use metrics_pipeline_go.Prelude.{
  ℕ, zero, suc, ◌+◌, ◌-◌, ◌≤◌, ◌<◌, ◌≡◌, refl, true, Option, none, some, ◌++◌, ◌⊎◌, inl, inr,
  Result-cases, Str, arith,
}
use metrics_pipeline_go.Domain.{MetricBatch}
use metrics_pipeline_go.Messaging.Message.{
  Json, MessageError, new_ingest_message, marshal_ingest_publishing,
}
use metrics_pipeline_go.Messaging.Publisher.{
  message_error, Outside, RetryConfig, Link, retry, publish_with_retry,
}
use metrics_pipeline_go.Messaging.Publisher.Attempts.{
  Acknowledged, IsBalanced, backoffs, retry-published, retry-IsBalanced, retry-connected,
  retry-Acknowledged, retry-waits,
}

module _ {V Body : Type 0} (config : RetryConfig) (out : Outside) (json : Json V Body)
    (id : Option Str) (now : ℕ) (batch : MetricBatch V) (l : Link) where
  published_or_refused :
      ((e : MessageError) × (publish_with_retry config out json id now batch l
          ≡ (l, some (message_error e))))
      ⊎ (publish_with_retry config out json id now batch l ≡ retry config out config.max_attempts l)
  unfolding publish_with_retry
  published_or_refused = elim (Result-cases (new_ingest_message batch id)) [
    | inr (e, bad) ↦ inl (e, ground (arith, bad))
    | inl (message, made) ↦ elim (Result-cases (marshal_ingest_publishing json message now)) [
      | inr (e, bad) ↦ inl (e, ground (arith, made, bad))
      | inl (publishing, put) ↦ inr (ground (arith, made, put))
    ]
  ]

  retry_success :
      (attempts : ℕ)
      → (retry config out attempts l).1 ≡ none
      → ((n : ℕ) × (l.calls ≤ n) × (n < (retry config out attempts l).0.calls) × Acknowledged out n)
        × ((retry config out attempts l).0.connected ≡ true)
  unfolding retry
  retry_success zero h = cc
  retry_success (suc left) h =
      (retry-Acknowledged config out (suc left) l h, (retry-connected config out left l).0 h)

  -- Publishing reports success only when the broker has acknowledged a publishing made in this
  -- call, with no return of the message waiting, and then the session is kept open.
  pub publish_with_retry-Acknowledged :
      (publish_with_retry config out json id now batch l).1 ≡ none
      → ((n : ℕ) × (l.calls ≤ n)
          × (n < (publish_with_retry config out json id now batch l).0.calls)
          × Acknowledged out n)
        × ((publish_with_retry config out json id now batch l).0.connected ≡ true)
  publish_with_retry-Acknowledged h = elim published_or_refused [
    | inl (e, refused) ↦ cc
    | inr tried ↦ rw tried (retry_success config.max_attempts (rw (← tried) h))
  ]

  retry_cost :
      (attempts : ℕ)
      → attempts ≡ config.max_attempts
      → (count : ℕ) × (count ≤ attempts - 1)
        × ((retry config out attempts l).0.waits ≡ l.waits ++ backoffs config out 1 count)
  unfolding retry
  retry_cost zero same = (0, omega arith, ground (arith, append-nil l.waits))
  retry_cost (suc left) same =
      let (count, few, waited) = retry-waits config out left l (omega arith) in
      let first : config.max_attempts - left ≡ 1 = omega arith in
      (count, omega arith, ground (arith, waited, first))

  -- However it ends, publishing makes at most max_attempts publishings, waits at most max_attempts - 1
  -- times, for the backoffs of attempts 1, 2, ... in order, and every client
  -- opened is closed again but the one of the session that is kept.
  pub publish_cost :
      IsBalanced l
      → let t = (publish_with_retry config out json id now batch l).0 in
        (t.published ≤ l.published + config.max_attempts)
        × IsBalanced t
        × ((count : ℕ) × (count ≤ config.max_attempts - 1)
            × (t.waits ≡ l.waits ++ backoffs config out 1 count))
  publish_cost balanced = elim published_or_refused [
    | inl (e, refused) ↦
        rw refused (omega arith, balanced, (0, omega arith, ground (arith, append-nil l.waits)))
    | inr tried ↦ rw tried (
      retry-published config out config.max_attempts l,
      retry-IsBalanced config out config.max_attempts l balanced,
      retry_cost config.max_attempts refl,
    )
  ]
