-- ===== src/Config/Accepted.antt =====
-- A configuration that is loaded is accepted by the parts that the processes make with it.
use metrics_pipeline_go.Prelude.{
  ◌≡◌, ◌≢◌, ◌||◌, ◌⊎◌, true, false, [], Str, codes, str_eq, str_eq_iff, eq_of_str_eq, pos, ◌<ℤ◌,
  ◌≤ℤ◌, eq_of_parts, is_empty, ok, >>=-eq-ok, inl, inr, arith, Bool-cases,
}
use metrics_pipeline_go.Messaging.Settings.{
  new_metric_consumer, consumer_defaults, validate_consumer, publisher_settings, publisher_defaults,
  validate_publisher,
}
use metrics_pipeline_go.Config.{
  Config, Environs, requires_amqp, requires_database, is_log_level, validate_config,
  read_environment, load, worker_consumer, api_publisher,
}

-- The service is neither the API nor the worker.
abbrev pub NeedsNoBroker : Str → Type 0
NeedsNoBroker name = (name ≢ codes "api") × (name ≢ codes "worker")

abbrev pub IsLogLevel : Str → Type 0
IsLogLevel s = (s ≡ codes "debug") ⊎ (s ≡ codes "info") ⊎ (s ≡ codes "warn") ⊎ (s ≡ codes "error")

IsLogLevel-cases : (s : Str) → is_log_level s ≡ true → IsLogLevel s
IsLogLevel-cases s h = ground (
  arith,
  eq_of_str_eq s (codes "debug"),
  eq_of_str_eq s (codes "info"),
  eq_of_str_eq s (codes "warn"),
  eq_of_str_eq s (codes "error"),
)

other_service :
    (name : Str)
    → (str_eq name (codes "api") || str_eq name (codes "worker")) ≡ false
    → NeedsNoBroker name
other_service name h = (
  (λ e. ground (arith, (str_eq_iff name (codes "api")).1 e)),
  (λ e. ground (arith, (str_eq_iff name (codes "worker")).1 e)),
)

module _ (env : Environs) where
  -- The URL of a process that needs the broker is not empty.
  url_set :
      (c : Config)
      → env.trim_space [] ≡ []
      → requires_amqp c.service_name ≡ true
      → validate_config env c ≡ ok tt
      → is_empty c.amqp_url ≡ false
  unfolding validate_config
  url_set c trims needs h = elim (Bool-cases (is_empty c.amqp_url)) [
    | inr set ↦ set
    | inl unset ↦
        let e : c.amqp_url ≡ [] = ground (arith, unset) in
        let same : env.trim_space c.amqp_url ≡ [] = rw e trims in ground (arith, same)
  ]

  -- A valid configuration of a service that needs the broker yields a consumer, when the sink is there: the worker
  -- does not fail on the settings of its consumer. TrimSpace leaves the empty text empty.
  pub worker_consumer_accepted :
      (c : Config)
      → env.trim_space [] ≡ []
      → requires_amqp c.service_name ≡ true
      → validate_config env c ≡ ok tt
      → new_metric_consumer (worker_consumer c) true ≡ ok (consumer_defaults (worker_consumer c))
  unfolding validate_config new_metric_consumer worker_consumer consumer_defaults validate_consumer
  worker_consumer_accepted c trims needs h = ground (arith, url_set c trims needs h)

  -- A valid configuration of a service that needs the broker is kept by the publisher as it is: the API
  -- does not fail on the settings of its publisher, and no default replaces a setting. TrimSpace leaves the
  -- empty text empty.
  pub api_publisher_accepted :
      (c : Config)
      → env.trim_space [] ≡ []
      → requires_amqp c.service_name ≡ true
      → validate_config env c ≡ ok tt
      → publisher_settings (api_publisher c) ≡ ok (api_publisher c)
  unfolding validate_config publisher_settings api_publisher publisher_defaults validate_publisher
  api_publisher_accepted c trims needs h = ground (arith, url_set c trims needs h)

  -- A configuration with names and addresses that are not blank, positive times and sizes, a publishing backoff that can
  -- grow, a retention of 168 hours in nanoseconds and a known log level; a broker and a database for the
  -- processes that need them.
  pub record IsRunnable (c : Config) : Type 0 where
    pub service_named : is_empty (env.trim_space c.service_name) ≡ false
    pub instance_named : is_empty (env.trim_space c.instance_id) ≡ false
    pub http_addressed : is_empty (env.trim_space c.http_addr) ≡ false
    pub admin_addressed : is_empty (env.trim_space c.admin_addr) ≡ false
    pub shutdown_positive : pos 0 <ℤ c.shutdown_timeout
    pub broker_named : NeedsNoBroker c.service_name ⊎ (is_empty (env.trim_space c.amqp_url) ≡ false)
    pub database_named :
        NeedsNoBroker c.service_name ⊎ (is_empty (env.trim_space c.database_url) ≡ false)
    pub publishers_positive : pos 0 <ℤ c.amqp_publishers
    pub write_positive : pos 0 <ℤ c.amqp_write_timeout
    pub confirm_positive : pos 0 <ℤ c.amqp_confirm_timeout
    pub attempts_positive : pos 0 <ℤ c.amqp_publish_max_attempts
    pub backoff_positive : pos 0 <ℤ c.amqp_publish_initial_backoff
    pub backoff_grows : c.amqp_publish_initial_backoff ≤ℤ c.amqp_publish_max_backoff
    pub retention_fixed_at : c.retention_window ≡ pos 604800000000000
    pub maintenance_positive : pos 0 <ℤ c.partition_maintenance_interval
    pub prefetch_positive : pos 0 <ℤ c.worker_consumer_prefetch
    pub batch_positive : pos 0 <ℤ c.worker_consumer_batch_max
    pub flush_positive : pos 0 <ℤ c.worker_consumer_flush_interval
    pub log_level_known : IsLogLevel c.log_level

  validate_config-IsRunnable : (c : Config) → validate_config env c ≡ ok tt → IsRunnable c
  unfolding validate_config requires_amqp requires_database
  validate_config-IsRunnable c h = record {
    service_named = ground arith;
    instance_named = ground arith;
    http_addressed = ground arith;
    admin_addressed = ground arith;
    shutdown_positive = ground arith;
    broker_named = ground (arith, other_service c.service_name);
    database_named = ground (arith, other_service c.service_name);
    publishers_positive = ground arith;
    write_positive = ground arith;
    confirm_positive = ground arith;
    attempts_positive = ground arith;
    backoff_positive = ground arith;
    backoff_grows = ground arith;
    retention_fixed_at = eq_of_parts c.retention_window (pos 604800000000000) (ground arith);
    maintenance_positive = ground arith;
    prefetch_positive = ground arith;
    batch_positive = ground arith;
    flush_positive = ground arith;
    log_level_known = IsLogLevel-cases c.log_level (ground arith);
  }

  -- A configuration that loads has names and addresses that are not blank, positive times and sizes, a longest
  -- publishing backoff of at least the first one, a retention of exactly 168 hours, one of the four log levels,
  -- and for the API and the worker the URLs of the broker and of the database.
  pub load-IsRunnable : (service : Str) {c : Config} → load env service ≡ ok c → IsRunnable c
  unfolding load
  load-IsRunnable service {c} h =
      let (read, e, rest) = >>=-eq-ok (read_environment env service) _ h in
      let (u, valid, last) = >>=-eq-ok (validate_config env read) _ rest in
      let same : read ≡ c = ground (arith, last) in
      rw (← same) (validate_config-IsRunnable read valid)
