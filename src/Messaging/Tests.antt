-- ===== src/Messaging/Tests.antt =====
-- A delivery of two samples through the worker's validation and the expansion into points.
use metrics_pipeline_go.Prelude.{refl, str_eq}
use metrics_pipeline_go.Domain.{is_map}
use metrics_pipeline_go.Messaging.Message.{expand_metric_points}
use metrics_pipeline_go.Messaging.Message.Validation.{IsValidMessage}
use metrics_pipeline_go.Messaging.Message.Entries.{IsExpansion, expand_metric_points-IsExpansion}
use metrics_pipeline_go.Messaging.Delivery.{validate_delivery-IsValidMessage}
use metrics_pipeline_go.Samples.{
  floats, plain_json, two_sample_message, two_sample_delivery, two_sample_passes,
}

validate_delivery-IsValidMessage_example : IsValidMessage floats two_sample_message
validate_delivery-IsValidMessage_example =
    validate_delivery-IsValidMessage floats plain_json str_eq two_sample_delivery
      {m = two_sample_message} two_sample_passes

expand_metric_points-IsExpansion_example :
    IsExpansion two_sample_message.task_id two_sample_message.batch
      (expand_metric_points floats two_sample_message)
unfolding is_map
expand_metric_points-IsExpansion_example =
    expand_metric_points-IsExpansion floats two_sample_message refl
