-- ===== src/Messaging/Delivery.antt =====
-- internal/messaging/consumer.go: validateDelivery and integerHeader, what the worker checks of a
-- delivery before it takes its points. `strings.EqualFold` is a parameter.
use metrics_pipeline_go.Prelude.{
  ℕ, ◌≡◌, inl, inr, arith, Option-cases, Bool, true, false, not, ◌||◌, Option, none, some, Str, ℤ,
  eqb_ℤ, is_empty, Result, ok, err, ◌>>=◌, ◌>>◌, fail_if, str_eq, codes,
}
use metrics_pipeline_go.Domain.{Floats}
use metrics_pipeline_go.Messaging.Message.Validation.{IsValidMessage, check_message-IsValidMessage}
use metrics_pipeline_go.Messaging.Message.{
  Json, IngestMessage, MessageError, HeaderValue, int8, int16, int32, int64, int, text, other,
  Headers, decode_ingest_message, ingest_schema_version,
}

-- The fields of amqp.Delivery that the code reads. `tag` is its DeliveryTag.
pub record Delivery (Body : Type 0) : Type 0 where
  pub tag : ℕ
  pub redelivered : Bool
  pub headers : Headers
  pub content_type : Str
  pub correlation_id : Str
  pub message_id : Str
  pub body : Body

pub data DeliveryError : Type 0 where
  content_type_invalid message_id_property correlation_id_property : DeliveryError
  schema_version_header message_id_header correlation_id_header : DeliveryError
  body_invalid : MessageError → DeliveryError

unfoldable pub integer_header : Option HeaderValue → Option ℤ
integer_header none = none
integer_header (some (int8 v)) = some v
integer_header (some (int16 v)) = some v
integer_header (some (int32 v)) = some v
integer_header (some (int64 v)) = some v
integer_header (some (int v)) = some v
integer_header (some (text s)) = none
integer_header (some other) = none

-- `value, ok := header.(string)`, compared with the text that is wanted.
abbrev pub text_header_is : Option HeaderValue → Str → Bool
text_header_is (some (text s)) wanted = str_eq s wanted
text_header_is _ wanted = false

abbrev pub integer_is : Option ℤ → ℤ → Bool
integer_is none wanted = false
integer_is (some v) wanted = eqb_ℤ v wanted

abbrev pub body_result : {A : Type 0} → Result MessageError A → Result DeliveryError A
body_result (ok a) = ok a
body_result (err e) = err (body_invalid e)

module _ {V Body : Type 0} (floats : Floats V) (json : Json V Body)
    (equal_fold : Str → Str → Bool) where
  unfoldable pub validate_delivery : Delivery Body → Result DeliveryError (IngestMessage V)
  unfolding integer_header
  validate_delivery d = do
    fail_if (not (equal_fold d.content_type (codes "application/json"))) content_type_invalid
    message ← body_result (decode_ingest_message floats json d.body)
    fail_if (is_empty d.message_id || not (str_eq d.message_id message.message_id))
        message_id_property
    fail_if (is_empty d.correlation_id || not (str_eq d.correlation_id message.correlation_id))
        correlation_id_property
    fail_if (not (integer_is (integer_header d.headers.schema_version) ingest_schema_version))
        schema_version_header
    fail_if (not (text_header_is d.headers.message_id message.message_id)) message_id_header
    fail_if (not (text_header_is d.headers.correlation_id message.correlation_id))
        correlation_id_header
    ok message

  pub decode_ingest_message-IsValidMessage :
      (body : Body) {m : IngestMessage V}
      → decode_ingest_message floats json body ≡ ok m
      → IsValidMessage floats m
  unfolding decode_ingest_message
  decode_ingest_message-IsValidMessage body {m} h = elim (Option-cases (json.decode body)) [
    | inl e ↦ absurd (ground (arith, e))
    | inr ((w, true), e) ↦ check_message-IsValidMessage floats w {m = m} (ground (arith, e))
    | inr ((w, false), e) ↦ absurd (ground (arith, e))
  ]

  -- A delivery that passes carries a message that the decoder accepts.
  pub validate_delivery-IsValidMessage :
      (d : Delivery Body) {m : IngestMessage V}
      → validate_delivery d ≡ ok m
      → IsValidMessage floats m
  unfolding validate_delivery
  validate_delivery-IsValidMessage d {m} h =
      decode_ingest_message-IsValidMessage d.body {m = m} (ground arith)
