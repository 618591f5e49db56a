-- ===== src/Messaging/Settings/Tests.antt =====
-- The settings that the default values complete.
use metrics_pipeline_go.Prelude.{ℕ, ◌-◌, ◌<◌, ◌≡◌, refl, true, [], codes, pos, ok, arith}
use metrics_pipeline_go.Messaging.Settings.{
  ConsumerConfig, consumer_defaults, new_metric_consumer, PublisherConfig, publisher_defaults,
  publisher_settings,
}
use metrics_pipeline_go.Messaging.Settings.Usable.{
  IsUsableConsumer, new_metric_consumer-IsUsableConsumer,
}

abbrev only_url : ConsumerConfig
only_url = record {
  url = codes "amqp://broker";
  prefetch = pos 0;
  batch_max = pos 0;
  flush_interval = pos 0;
  failure_backoff = pos 0;
  failure_max_backoff = pos 0;
  reconnect_backoff = pos 0;
  reconnect_max_backoff = pos 0;
  shutdown_timeout = pos 0;
  consumer_tag = [];
}

only_url_accepted : new_metric_consumer only_url true ≡ ok (consumer_defaults only_url)
unfolding new_metric_consumer
only_url_accepted = refl

new_metric_consumer-IsUsableConsumer_example :
    (true ≡ true) × IsUsableConsumer (consumer_defaults only_url)
new_metric_consumer-IsUsableConsumer_example =
    new_metric_consumer-IsUsableConsumer only_url true {c = consumer_defaults only_url}
      only_url_accepted

abbrev two_workers : PublisherConfig
two_workers = record {
  url = codes "amqp://broker";
  publishers = pos 2;
  write_timeout = pos 0;
  confirm_timeout = pos 0;
  max_attempts = pos 0;
  initial_backoff = pos 0;
  max_backoff = pos 0;
}

two_workers_accepted : publisher_settings two_workers ≡ ok (publisher_defaults two_workers)
unfolding publisher_settings
two_workers_accepted = refl

abbrev largest : ℕ → ℕ
largest n = n - 1

largest_below : (n : ℕ) → 0 < n → largest n < n
largest_below n h = omega arith
