-- ===== src/Messaging/Publisher.antt =====
-- internal/messaging/publisher.go: one worker of the batch publisher, which opens its session when
-- it needs one, publishes with confirms, and retries with a doubling backoff.
--
-- `Link` is the worker's session with what it did so far. The outside answers by the number of the call.
pub mod Backoffs
pub mod Attempts
pub mod Outcome
mod Tests
use metrics_pipeline_go.Prelude.{
  ℕ, zero, suc, ◌+◌, ◌-◌, Bool, true, false, ◌==◌, Option, none, some, List, [], ◌∷◌, ◌++◌, Str, ℤ,
  pos, leb_ℤ, add64, codes, Result, ok, err, if◌then◌else◌,
}
use metrics_pipeline_go.Domain.{MetricBatch}
use metrics_pipeline_go.Messaging.Message.{
  Json, MessageError, Publishing, new_ingest_message, marshal_ingest_publishing,
}

pub data PublishError : Type 0 where
  publisher_closed unroutable broker_nack confirm_timeout confirm_closed : PublishError
  context_canceled context_deadline amqp : PublishError
  message_error : MessageError → PublishError
  exhausted : ℕ → PublishError
  exhausted_after : ℕ → PublishError → PublishError

-- What is on the channel of returns when a confirmation has been received.
pub data Pending : Type 0 where
  no_return return_waiting returns_ended : Pending

-- Which case of the `select` of publishOnce is taken. `confirm_context_done` carries ctx.Err().
pub data Signal : Type 0 where
  returned returns_closed confirms_closed closing : Signal
  confirmed : ℕ → Bool → Pending → Signal
  confirm_context_done : Option PublishError → Signal

-- How opening a session goes: with the context over, or with an error of the dial, of declareTopology or of
-- Confirm, or well.
pub data Opening : Type 0 where
  context_over dial_failed topology_failed confirm_failed : PublishError → Opening
  ready : Opening

pub record Outside : Type 0 where
  pub opening : ℕ → Opening
  pub context_error : ℕ → Option PublishError
  pub publish_error : ℕ → Option PublishError
  pub signal : ℕ → Signal
  pub wait_error : ℕ → Option PublishError

pub record RetryConfig : Type 0 where
  pub max_attempts : ℕ
  pub initial_backoff : ℤ
  pub max_backoff : ℤ

-- `opened` and `closed` count clients, `published` the calls of publishOnce, and `waits` are the
-- backoffs waited for, oldest first.
pub record Link : Type 0 where
  pub connected : Bool
  pub calls : ℕ
  pub opened : ℕ
  pub closed : ℕ
  pub published : ℕ
  pub waits : List ℤ

-- The loop of `backoff`, with the rounds left.
unfoldable pub backoff_from : ℕ → ℤ → ℤ → ℤ
backoff_from zero duration max_backoff = duration
backoff_from (suc rounds) duration max_backoff =
    let doubled = add64 duration duration in
    let rest = backoff_from rounds doubled max_backoff in
    if leb_ℤ max_backoff doubled then max_backoff else rest

unfoldable pub backoff : RetryConfig → ℕ → ℤ
unfolding backoff_from
backoff config attempt = backoff_from (attempt - 1) config.initial_backoff config.max_backoff

abbrev pub confirmation_result : ℕ → Bool → Pending → ℕ × Option PublishError
confirmation_result tag ack return_waiting = (tag, some unroutable)
confirmation_result tag ack returns_ended = (tag, some confirm_closed)
confirmation_result tag true no_return = (tag, none)
confirmation_result tag false no_return = (tag, some broker_nack)

abbrev pub signal_result : Signal → ℕ × Option PublishError
signal_result returned = (0, some unroutable)
signal_result returns_closed = (0, some confirm_closed)
signal_result confirms_closed = (0, some confirm_closed)
signal_result closing = (0, some publisher_closed)
signal_result (confirmed tag ack pending) = confirmation_result tag ack pending
signal_result (confirm_context_done none) = (0, some confirm_timeout)
signal_result (confirm_context_done (some e)) = (0, some e)

-- publishOnce: the delivery tag, and the error or nil.
unfoldable pub publish_once : Outside → ℕ → ℕ × Option PublishError
publish_once out n = elim (out.context_error n) [
  | some e ↦ (0, some e)
  | none ↦ elim (out.publish_error n) [ some e ↦ (0, some e) | none ↦ signal_result (out.signal n) ]
]

-- openSession: a client that cannot be set up is closed again.
unfoldable pub open_session : Outside → Link → Link × Option PublishError
open_session out l = elim (out.opening l.calls) [
  | context_over e ↦ (record l { calls = l.calls + 1 }, some e)
  | dial_failed e ↦ (record l { calls = l.calls + 1 }, some e)
  | topology_failed e ↦
      (record l { calls = l.calls + 1; opened = l.opened + 1; closed = l.closed + 1 }, some e)
  | confirm_failed e ↦
      (record l { calls = l.calls + 1; opened = l.opened + 1; closed = l.closed + 1 }, some e)
  | ready ↦ (record l { calls = l.calls + 1; opened = l.opened + 1; connected = true }, none)
]

-- closePublisherSession, and the session reset to its zero value.
unfoldable pub close_session : Link → Link
close_session l = if l.connected then record l { connected = false; closed = l.closed + 1 } else l

abbrev pub reopen : Outside → Link → Link × Option PublishError
reopen out l = if l.connected then (l, none) else open_session out l

abbrev pub publish_if_open : Outside → Link × Option PublishError → Link × Option PublishError
publish_if_open out (l, some e) = (l, some e)
publish_if_open out (l, none) =
    (record l { calls = l.calls + 1; published = l.published + 1 }, (publish_once out l.calls).1)

-- One attempt: a session if there is none, and the publishing on it.
unfoldable pub attempt_once : Outside → Link → Link × Option PublishError
unfolding publish_once open_session
attempt_once out l = publish_if_open out (reopen out l)

abbrev pub wait_backoff : Outside → ℤ → Link → Link × Option PublishError
wait_backoff out duration l =
    (record l { calls = l.calls + 1; waits = l.waits ++ duration ∷ [] }, out.wait_error l.calls)

-- The loop of publishWithRetry with `left` attempts left.
unfoldable pub retry : RetryConfig → Outside → ℕ → Link → Link × Option PublishError
unfolding attempt_once close_session backoff
retry config out zero l = (l, some (exhausted config.max_attempts))
retry config out (suc left) l =
    let (tried, failure) = attempt_once out l in
    let dropped = close_session tried in
    let (waited, interrupted) =
      wait_backoff out (backoff config (config.max_attempts - left)) dropped in
    let again = retry config out left waited in
    elim failure [
      | none ↦ (tried, none)
      | some e ↦
          if left == 0
          then (dropped, some (exhausted_after config.max_attempts e))
          else elim interrupted [ some x ↦ (waited, some x) | none ↦ again ]
    ]

-- publishWithRetry: the message is made once, so all attempts publish the same message id.
unfoldable pub publish_with_retry :
    {V Body : Type 0}
    → RetryConfig
    → Outside
    → Json V Body
    → Option Str
    → ℕ
    → MetricBatch V
    → Link
    → Link × Option PublishError
unfolding retry new_ingest_message marshal_ingest_publishing
publish_with_retry config out json id now batch l = elim (new_ingest_message batch id) [
  | err e ↦ (l, some (message_error e))
  | ok message ↦ elim (marshal_ingest_publishing json message now) [
    | err e ↦ (l, some (message_error e))
    | ok publishing ↦ retry config out config.max_attempts l
  ]
]

-- publishErrorClass; errors.Is looks through the wrapping of an exhausted retry.
unfoldable pub publish_error_class : PublishError → Str
publish_error_class unroutable = codes "unroutable"
publish_error_class broker_nack = codes "broker_nack"
publish_error_class confirm_timeout = codes "confirm_timeout"
publish_error_class confirm_closed = codes "confirm_closed"
publish_error_class publisher_closed = codes "publisher_closed"
publish_error_class context_canceled = codes "context_canceled"
publish_error_class context_deadline = codes "context_deadline"
publish_error_class amqp = codes "amqp"
publish_error_class (message_error e) = codes "amqp"
publish_error_class (exhausted n) = codes "amqp"
publish_error_class (exhausted_after n e) = publish_error_class e
