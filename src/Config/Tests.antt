-- ===== src/Config/Tests.antt =====
-- A worker that is configured by the two URLs alone.
use metrics_pipeline_go.Prelude.{◌≡◌, refl, true, none, some, codes, str_eq, pos, ok, if◌then◌else◌}
use metrics_pipeline_go.Messaging.Settings.{
  new_metric_consumer, consumer_defaults, publisher_settings,
}
use metrics_pipeline_go.Config.{
  Config, Environs, requires_amqp, validate_config, load, worker_consumer, api_publisher,
}
use metrics_pipeline_go.Config.Accepted.{
  worker_consumer_accepted, api_publisher_accepted, IsRunnable, load-IsRunnable,
}

abbrev environs : Environs
environs = record {
  dot_env = true;
  lookup = λ name.
      if str_eq name (codes "AMQP_URL")
      then some (codes "amqp://broker")
      else if str_eq name (codes "DATABASE_URL")
      then some (codes "postgres://db")
      else none;
  parse_duration = λ s. none;
  atoi = λ s. none;
  trim_space = λ s. s;
  to_lower = λ s. s;
}

abbrev worker_config : Config
worker_config = record {
  service_name = codes "worker";
  instance_id = codes "local";
  http_addr = codes ":8080";
  admin_addr = codes ":8081";
  shutdown_timeout = pos 15000000000;
  log_level = codes "info";
  database_url = codes "postgres://db";
  amqp_url = codes "amqp://broker";
  amqp_publishers = pos 1;
  amqp_write_timeout = pos 5000000000;
  amqp_confirm_timeout = pos 5000000000;
  amqp_publish_max_attempts = pos 3;
  amqp_publish_initial_backoff = pos 100000000;
  amqp_publish_max_backoff = pos 1000000000;
  retention_window = pos 604800000000000;
  partition_maintenance_interval = pos 3600000000000;
  worker_consumer_prefetch = pos 500;
  worker_consumer_batch_max = pos 500;
  worker_consumer_flush_interval = pos 100000000;
}

loads : load environs (codes "worker") ≡ ok worker_config
unfolding load str_eq
loads = refl

is_valid : validate_config environs worker_config ≡ ok tt
unfolding validate_config str_eq
is_valid = refl

needs_amqp : requires_amqp (codes "worker") ≡ true
unfolding requires_amqp str_eq
needs_amqp = refl

load-IsRunnable_example : IsRunnable environs worker_config
load-IsRunnable_example = load-IsRunnable environs (codes "worker") {c = worker_config} loads

worker_consumer_accepted_example :
    new_metric_consumer (worker_consumer worker_config) true
    ≡ ok (consumer_defaults (worker_consumer worker_config))
worker_consumer_accepted_example =
    worker_consumer_accepted environs worker_config refl needs_amqp is_valid

api_publisher_accepted_example :
    publisher_settings (api_publisher worker_config) ≡ ok (api_publisher worker_config)
api_publisher_accepted_example =
    api_publisher_accepted environs worker_config refl needs_amqp is_valid
