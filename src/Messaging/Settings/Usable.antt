-- ===== src/Messaging/Settings/Usable.antt =====
-- What the constructors guarantee of the configuration that they keep.
use metrics_pipeline_go.Prelude.{
  ℕ, ◌+◌, ◌/◌, ◌-◌, ◌≤◌, ◌<◌, ◌≡◌, Bool, true, false, pos, ◌≤ℤ◌, ◌<ℤ◌, is_empty, ok, Result-cases,
  inl, inr, arith,
}
use metrics_pipeline_go.Messaging.Settings.{
  ConsumerConfig, consumer_defaults, validate_consumer, new_metric_consumer, PublisherConfig,
  publisher_defaults, validate_publisher, publisher_settings, jitter_duration,
}

pub record IsUsableConsumer (c : ConsumerConfig) : Type 0 where
  pub addressed : is_empty c.url ≡ false
  pub prefetch_positive : pos 0 <ℤ c.prefetch
  pub batch_max_positive : pos 0 <ℤ c.batch_max
  pub flush_interval_positive : pos 0 <ℤ c.flush_interval
  pub failure_backoff_positive : pos 0 <ℤ c.failure_backoff
  pub failure_ordered : c.failure_backoff ≤ℤ c.failure_max_backoff
  pub reconnect_backoff_positive : pos 0 <ℤ c.reconnect_backoff
  pub reconnect_ordered : c.reconnect_backoff ≤ℤ c.reconnect_max_backoff
  pub shutdown_timeout_positive : pos 0 <ℤ c.shutdown_timeout
  pub tagged : is_empty c.consumer_tag ≡ false

consumer_defaults-tag : (c : ConsumerConfig) → is_empty (consumer_defaults c).consumer_tag ≡ false
unfolding consumer_defaults
consumer_defaults-tag c = ground arith

validate_consumer_lem :
    (c : ConsumerConfig)
    → is_empty c.consumer_tag ≡ false
    → validate_consumer c ≡ ok tt
    → IsUsableConsumer c
unfolding validate_consumer
validate_consumer_lem c tag h = record {
  addressed = ground arith;
  prefetch_positive = ground arith;
  batch_max_positive = ground arith;
  flush_interval_positive = ground arith;
  failure_backoff_positive = ground arith;
  failure_ordered = ground arith;
  reconnect_backoff_positive = ground arith;
  reconnect_ordered = ground arith;
  shutdown_timeout_positive = ground arith;
  tagged = tag;
}

-- A consumer that is made has a sink, and its configuration, after the defaults, has a URL and a tag, positive
-- sizes and durations, and each longest backoff at least the first one.
pub new_metric_consumer-IsUsableConsumer :
    (config : ConsumerConfig) (has_sink : Bool) {c : ConsumerConfig}
    → new_metric_consumer config has_sink ≡ ok c
    → (has_sink ≡ true) × IsUsableConsumer c
unfolding new_metric_consumer
new_metric_consumer-IsUsableConsumer config has_sink {c} h =
    elim (Result-cases (validate_consumer (consumer_defaults config))) [
      | inl (tt, valid) ↦
          let same : c ≡ consumer_defaults config = ground (arith, valid) in
          let usable =
            validate_consumer_lem (consumer_defaults config) (consumer_defaults-tag config) valid in
          (ground (arith, valid), rw same usable)
      | inr (e, bad) ↦ absurd (ground (arith, bad))
    ]

pub record IsUsablePublisher (c : PublisherConfig) : Type 0 where
  pub addressed : is_empty c.url ≡ false
  pub publishers_positive : pos 0 <ℤ c.publishers
  pub write_timeout_positive : pos 0 <ℤ c.write_timeout
  pub confirm_timeout_positive : pos 0 <ℤ c.confirm_timeout
  pub max_attempts_positive : pos 0 <ℤ c.max_attempts
  pub initial_backoff_positive : pos 0 <ℤ c.initial_backoff
  pub backoffs_ordered : c.initial_backoff ≤ℤ c.max_backoff

validate_publisher_lem : (c : PublisherConfig) → validate_publisher c ≡ ok tt → IsUsablePublisher c
unfolding validate_publisher
validate_publisher_lem c h = record {
  addressed = ground arith;
  publishers_positive = ground arith;
  write_timeout_positive = ground arith;
  confirm_timeout_positive = ground arith;
  max_attempts_positive = ground arith;
  initial_backoff_positive = ground arith;
  backoffs_ordered = ground arith;
}

-- The configuration that a publisher keeps has a URL, at least one worker and one attempt, positive timeouts
-- and a longest backoff of at least the first one.
pub publisher_settings-IsUsablePublisher :
    (config : PublisherConfig) {c : PublisherConfig}
    → publisher_settings config ≡ ok c
    → IsUsablePublisher c
unfolding publisher_settings
publisher_settings-IsUsablePublisher config {c} h =
    elim (Result-cases (validate_publisher (publisher_defaults config))) [
      | inl (tt, valid) ↦
          let same : c ≡ publisher_defaults config = ground (arith, valid) in
          rw same (validate_publisher_lem (publisher_defaults config) valid)
      | inr (e, bad) ↦ absurd (ground (arith, bad))
    ]

-- The jittered wait lies between half of the duration and the duration, when the random number is below
-- its bound.
pub jitter_duration_bounds :
    (random : ℕ → ℕ) (duration : ℕ)
    → ((n : ℕ) → 0 < n → random n < n)
    → (duration / 2 ≤ jitter_duration random duration)
      × (jitter_duration random duration ≤ duration)
unfolding jitter_duration
jitter_duration_bounds random duration below =
    let drawn : random (duration - duration / 2 + 1) < duration - duration / 2 + 1 =
      below _ (omega arith) in
    ground (arith, drawn)
