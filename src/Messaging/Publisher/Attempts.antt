-- ===== src/Messaging/Publisher/Attempts.antt =====
-- The retry loop: what a success means, how often it publishes, which backoffs it waits for, and
-- that no client stays open behind it.
use mathlib.Core.List.{append-nil, append_assoc}
use metrics_pipeline_go.Prelude.{
  ℕ, zero, suc, ◌+◌, ◌-◌, ◌≤◌, ◌<◌, ◌≡◌, ◌↔◌, refl, true, false, Option, none, some, List, [], ◌∷◌,
  ◌++◌, inl, inr, ℤ, Option-cases, if◌then◌else◌, arith,
}
use metrics_pipeline_go.Messaging.Publisher.{
  PublishError, Signal, returned, returns_closed, confirms_closed, closing, confirmed,
  confirm_context_done, no_return, return_waiting, returns_ended, Outside, RetryConfig, Link,
  backoff, publish_once, open_session, close_session, attempt_once, reopen, publish_if_open,
  wait_backoff, retry, exhausted_after, signal_result,
}

-- The broker acknowledged the n-th call, with no return of the message waiting.
abbrev pub Acknowledged : Outside → ℕ → Type 0
Acknowledged out n =
    (tag : ℕ) × (out.context_error n ≡ none)
    × (out.publish_error n ≡ none)
    × (out.signal n ≡ confirmed tag true no_return)

signal_acknowledged :
    (s : Signal) → (signal_result s).1 ≡ none → (tag : ℕ) × (s ≡ confirmed tag true no_return)
signal_acknowledged returned h = cc
signal_acknowledged returns_closed h = cc
signal_acknowledged confirms_closed h = cc
signal_acknowledged closing h = cc
signal_acknowledged (confirmed tag true no_return) h = (tag, refl)
signal_acknowledged (confirmed tag false no_return) h = cc
signal_acknowledged (confirmed tag ack return_waiting) h = cc
signal_acknowledged (confirmed tag ack returns_ended) h = cc
signal_acknowledged (confirm_context_done none) h = cc
signal_acknowledged (confirm_context_done (some e)) h = cc

pub publish_once-Acknowledged :
    (out : Outside) (n : ℕ) → (publish_once out n).1 ≡ none → Acknowledged out n
unfolding publish_once
publish_once-Acknowledged out n h =
    let clear : out.context_error n ≡ none = ground arith in
    let sent : out.publish_error n ≡ none = ground arith in
    let (tag, e) = signal_acknowledged (out.signal n) (ground (arith, clear, sent)) in
    (tag, clear, sent, e)

-- The open clients are those of the session.
pub record IsBalanced (l : Link) : Type 0 where
  pub balanced : l.opened ≡ l.closed + (if l.connected then 1 else 0)

-- What one attempt does to the link, by the error that it ends with.
record Attempted (out : Outside) (l t : Link) (r : Option PublishError) : Type 0 where
  balanced : IsBalanced l → IsBalanced t
  once : t.published ≤ l.published + 1
  waits : t.waits ≡ l.waits
  later : l.calls ≤ t.calls
  connected : r ≡ none → t.connected ≡ true

attempt_once-Attempted :
    (out : Outside) (l : Link) → Attempted out l (attempt_once out l).0 (attempt_once out l).1
unfolding attempt_once open_session
attempt_once-Attempted out l = ground arith

reopen-calls : (out : Outside) (l : Link) → l.calls ≤ (reopen out l).0.calls
unfolding open_session
reopen-calls out l = ground arith

publish_if_open-Acknowledged :
    (out : Outside) (k : Link) (r : Option PublishError)
    → (publish_if_open out (k, r)).1 ≡ none
    → (k.calls < (publish_if_open out (k, r)).0.calls) × Acknowledged out k.calls
publish_if_open-Acknowledged out k (some e) h = cc
publish_if_open-Acknowledged out k none h = (omega arith, publish_once-Acknowledged out k.calls h)

attempt_once-Acknowledged :
    (out : Outside) (l : Link)
    → (attempt_once out l).1 ≡ none
    → (n : ℕ) × (l.calls ≤ n) × (n < (attempt_once out l).0.calls) × Acknowledged out n
unfolding attempt_once
attempt_once-Acknowledged out l h =
    let (k, r) = reopen out l in
    let (later, acked) = publish_if_open-Acknowledged out k r h in
    (k.calls, reopen-calls out l, later, acked)

module _ (config : RetryConfig) (out : Outside) where
  -- The backoffs before the retries after `count` attempts from this one on.
  abbrev pub backoffs : ℕ → ℕ → List ℤ
  backoffs attempt zero = []
  backoffs attempt (suc count) = backoff config attempt ∷ backoffs (attempt + 1) count

  pub retry-published :
      (left : ℕ) (l : Link) → (retry config out left l).0.published ≤ l.published + left
  unfolding retry close_session
  retry-published zero l = omega arith
  retry-published (suc left) l = ground (
    arith,
    attempt_once-Attempted out l,
    retry-published left
        (wait_backoff out (backoff config (config.max_attempts - left))
          (close_session (attempt_once out l).0)).0,
  )

  -- The end of a round after a failed attempt.
  abbrev rested : ℕ → Link → Link
  rested left l =
      (wait_backoff out (backoff config (config.max_attempts - left))
        (close_session (attempt_once out l).0)).0

  close_session-IsBalanced : (l : Link) → IsBalanced l → IsBalanced (close_session l)
  unfolding close_session
  close_session-IsBalanced l h = ground arith

  pub retry-IsBalanced :
      (left : ℕ) (l : Link) → IsBalanced l → IsBalanced (retry config out left l).0
  unfolding retry
  retry-IsBalanced zero l h = h
  retry-IsBalanced (suc left) l h = ground (
    arith,
    attempt_once-Attempted out l,
    close_session-IsBalanced (attempt_once out l).0,
    retry-IsBalanced left (rested left l),
  )

  abbrev KeepsIffPassed : Link × Option PublishError → Type 0
  KeepsIffPassed (l, r) = (r ≡ none) ↔ (l.connected ≡ true)

  close_session-connected : (l : Link) → (close_session l).connected ≡ false
  unfolding close_session
  close_session-connected l = ground arith

  keeps : (l : Link) → l.connected ≡ true → KeepsIffPassed (l, none)
  keeps l h = (λ _. h, λ _. refl)

  drops : (l : Link) (e : PublishError) → l.connected ≡ false → KeepsIffPassed (l, some e)
  drops l e h = (λ k. cc, λ k. cc)

  retry-passed :
      (left : ℕ) (l : Link)
      → (attempt_once out l).1 ≡ none
      → retry config out (suc left) l ≡ ((attempt_once out l).0, none)
  unfolding retry
  retry-passed left l passed = rw (passed, retry)

  retry-last :
      (l : Link) {e : PublishError}
      → (attempt_once out l).1 ≡ some e
      → retry config out 1 l
        ≡ (close_session (attempt_once out l).0, some (exhausted_after config.max_attempts e))
  unfolding retry
  retry-last l failed = rw (failed, retry)

  retry-broken :
      (left : ℕ) (l : Link) {e x : PublishError}
      → (attempt_once out l).1 ≡ some e
      → out.wait_error (close_session (attempt_once out l).0).calls ≡ some x
      → retry config out (suc (suc left)) l ≡ (rested (suc left) l, some x)
  unfolding retry
  retry-broken left l failed broken = ground (arith, failed, broken)

  retry-again :
      (left : ℕ) (l : Link) {e : PublishError}
      → (attempt_once out l).1 ≡ some e
      → out.wait_error (close_session (attempt_once out l).0).calls ≡ none
      → retry config out (suc (suc left)) l ≡ retry config out (suc left) (rested (suc left) l)
  unfolding retry
  retry-again left l failed slept = ground (arith, failed, slept)

  -- The session is kept exactly when the retry succeeds; after a failure there is none.
  pub retry-connected : (left : ℕ) (l : Link) → KeepsIffPassed (retry config out (suc left) l)
  retry-connected zero l = elim (Option-cases (attempt_once out l).1) [
    | inl passed ↦
        rw (retry-passed zero l passed)
          (keeps (attempt_once out l).0 ((attempt_once-Attempted out l).connected passed))
    | inr (e, failed) ↦ rw (retry-last l failed) (
        drops (close_session (attempt_once out l).0) _
          (close_session-connected (attempt_once out l).0))
  ]
  retry-connected (suc left) l = elim (Option-cases (attempt_once out l).1) [
    | inl passed ↦
        rw (retry-passed (suc left) l passed)
          (keeps (attempt_once out l).0 ((attempt_once-Attempted out l).connected passed))
    | inr (e, failed) ↦
        elim (Option-cases (out.wait_error (close_session (attempt_once out l).0).calls)) [
          | inr (x, broken) ↦
              rw (retry-broken left l failed broken)
                (drops (rested (suc left) l) x (close_session-connected (attempt_once out l).0))
          | inl slept ↦
              rw (retry-again left l failed slept) (retry-connected left (rested (suc left) l))
        ]
  ]

  pub retry-Acknowledged :
      (left : ℕ) (l : Link)
      → (retry config out left l).1 ≡ none
      → (n : ℕ) × (l.calls ≤ n) × (n < (retry config out left l).0.calls) × Acknowledged out n
  unfolding retry close_session
  retry-Acknowledged zero l h = cc
  retry-Acknowledged (suc left) l h = elim (Option-cases (attempt_once out l).1) [
    | inl passed ↦
        let (n, low, high, acked) = attempt_once-Acknowledged out l passed in
        (n, low, ground (arith, passed, high), acked)
    | inr (e, failed) ↦
        let again : retry config out (suc left) l ≡ retry config out left (rested left l) =
          ground (arith, failed) in
        let (n, low, high, acked) = retry-Acknowledged left (rested left l) (rw (← again) h) in
        (n, ground (arith, attempt_once-Attempted out l), rw again high, acked)
  ]

  pub retry-waits :
      (left : ℕ) (l : Link)
      → suc left ≤ config.max_attempts
      → (count : ℕ) × (count ≤ left)
        × ((retry config out (suc left) l).0.waits
            ≡ l.waits ++ backoffs (config.max_attempts - left) count)
  unfolding retry close_session
  retry-waits zero l h =
      (0, omega arith, ground (arith, attempt_once-Attempted out l, append-nil l.waits))
  retry-waits (suc left) l h = elim (Option-cases (attempt_once out l).1) [
    | inl passed ↦
        (0, omega arith, ground (arith, passed, attempt_once-Attempted out l, append-nil l.waits))
    | inr (e, failed) ↦
        let rest = rested (suc left) l in
        let (count, few, same) = retry-waits left rest (omega arith) in
        let next : config.max_attempts - suc left + 1 ≡ config.max_attempts - left = omega arith in
        let here = backoff config (config.max_attempts - suc left) in
        elim (Option-cases (out.wait_error (close_session (attempt_once out l).0).calls)) [
          | inr (x, broken) ↦
              (1, omega arith, ground (arith, failed, broken, attempt_once-Attempted out l))
          | inl slept ↦ (
            suc count,
            omega arith,
            ground (
              arith,
              failed,
              slept,
              same,
              next,
              attempt_once-Attempted out l,
              append_assoc l.waits (here ∷ []) (backoffs (config.max_attempts - left) count),
            ),
          )
        ]
  ]
