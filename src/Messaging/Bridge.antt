-- ===== src/Messaging/Bridge.antt =====
-- internal/messaging/event_bridge.go: the bridge that hands the broadcast events to the sink.
--
-- The events carry the sequence numbers of their task. A session takes the deliveries that come; the
-- outside answers by the number of the call.
pub mod Order
mod Tests
use metrics_pipeline_go.Prelude.{
  ℕ, zero, suc, ◌+◌, ◌*◌, Bool, true, false, not, ◌&&◌, ◌||◌, Option, none, some, List, [], ◌∷◌,
  ◌++◌, Str, ℤ, pos, eqb_ℤ, leb_ℤ, ltb_ℤ, str_eq, is_empty, Result, ok, err, ◌>>=◌, ◌>>◌, fail_if,
  if◌then◌else◌,
}
use metrics_pipeline_go.Domain.{RealtimeEvent}
use metrics_pipeline_go.Messaging.Message.{HeaderValue, int8, int16, int32, int64, int, text, other}
use metrics_pipeline_go.Messaging.Settings.{or_default}
use metrics_pipeline_go.Messaging.Backoff.{next_backoff, millisecond, second}

pub record EventBridgeConfig : Type 0 where
  pub url : Str
  pub instance_id : Str
  pub sink_failure_backoff : ℤ
  pub sink_failure_max_backoff : ℤ
  pub reconnect_backoff : ℤ
  pub reconnect_max_backoff : ℤ

pub data BridgeConfigError : Type 0 where
  url_empty instance_id_missing sink_missing backoff_invalid : BridgeConfigError

abbrev bridge_defaults : EventBridgeConfig → EventBridgeConfig
bridge_defaults c = record c {
  reconnect_backoff = or_default c.reconnect_backoff (100 * millisecond);
  reconnect_max_backoff = or_default c.reconnect_max_backoff (5 * second);
  sink_failure_backoff = or_default c.sink_failure_backoff (100 * millisecond);
  sink_failure_max_backoff = or_default c.sink_failure_max_backoff (5 * second);
}

-- NewRabbitMQMetricEventBridge: the configuration that the bridge keeps.
unfoldable pub new_event_bridge :
    EventBridgeConfig → Bool → Result BridgeConfigError EventBridgeConfig
new_event_bridge config has_sink =
    let c = bridge_defaults config in
    do
      fail_if (is_empty config.url) url_empty
      fail_if (is_empty config.instance_id) instance_id_missing
      fail_if (not has_sink) sink_missing
      fail_if
          (leb_ℤ c.sink_failure_backoff (pos 0)
            || ltb_ℤ c.sink_failure_max_backoff c.sink_failure_backoff
            || leb_ℤ c.reconnect_backoff (pos 0)
            || ltb_ℤ c.reconnect_max_backoff c.reconnect_backoff)
          backoff_invalid
      ok c

-- The fields of a delivery that the bridge reads. `none` is a header that is not there.
pub record BridgeDelivery (Body : Type 0) : Type 0 where
  pub task_id : Option HeaderValue
  pub event_seq : Option HeaderValue
  pub body : Body

pub data EventError : Type 0 where
  task_id_required event_seq_invalid payload_invalid header_unsupported header_unparsable :
      EventError

-- encoding/json's Valid and strconv.ParseInt with base 10 and 64 bits.
pub record Parsers (Body : Type 0) : Type 0 where
  pub valid_json : Body → Bool
  pub parse_int : Str → Option ℤ

module _ {Body : Type 0} (parsers : Parsers Body) where
  abbrev parsed : Option ℤ → Result EventError ℤ
  parsed none = err header_unparsable
  parsed (some v) = ok v

  unfoldable pub header_int64 : Option HeaderValue → Result EventError ℤ
  header_int64 (some (int v)) = ok v
  header_int64 (some (int32 v)) = ok v
  header_int64 (some (int64 v)) = ok v
  header_int64 (some (text s)) = parsed (parsers.parse_int s)
  header_int64 _ = err header_unsupported

  abbrev text_of : Option HeaderValue → Str
  text_of (some (text s)) = s
  text_of _ = []

  abbrev positive : Result EventError ℤ → Result EventError ℤ
  positive (err e) = err event_seq_invalid
  positive (ok seq) = if leb_ℤ seq (pos 0) then err event_seq_invalid else ok seq

  unfoldable pub decode_realtime_event :
      BridgeDelivery Body → Result EventError (RealtimeEvent Body)
  unfolding header_int64
  decode_realtime_event d =
      let task_id = text_of d.task_id in
      do
        fail_if (is_empty task_id) task_id_required
        seq ← positive (header_int64 d.event_seq)
        fail_if (not (parsers.valid_json d.body)) payload_invalid
        ok (record { task_id = task_id; event_seq = seq; payload = d.body })

-- The map `last`, whose zero value stands for a task that is not there.
abbrev pub Last : Type 0
Last = Str → ℤ

module _ {Body : Type 0} where
  unfoldable pub seen : Last → RealtimeEvent Body → Bool
  seen last event = leb_ℤ event.event_seq (last event.task_id)

  unfoldable pub remember : Last → RealtimeEvent Body → Last
  remember last event task_id =
      if ltb_ℤ (last event.task_id) event.event_seq && str_eq task_id event.task_id
      then event.event_seq
      else last task_id

-- `accepted` are the events that the sink took, newest first, and `acks` and `nacks` count the
-- answers to the broker.
pub record Bridge (Body : Type 0) : Type 0 where
  pub last : Last
  pub sink_backoff : ℤ
  pub calls : ℕ
  pub accepted : List (RealtimeEvent Body)
  pub acks : ℕ
  pub nacks : ℕ

pub record BridgeOutside (Body : Type 0) : Type 0 where
  pub sink_fails : ℕ → Bool
  pub settle_fails : ℕ → Bool
  pub timer_fires : ℕ → Bool

pub data BridgeError : Type 0 where
  stream_closed ack_failed sink_and_nack_failed context_ended : BridgeError

pub data BridgeTurn (Body : Type 0) : Type 0 where
  going : Bridge Body → BridgeTurn Body
  ended : Bridge Body → BridgeError → BridgeTurn Body

abbrev pub bridge_of : {Body : Type 0} → BridgeTurn Body → Bridge Body
bridge_of (going b) = b
bridge_of (ended b e) = b

pub data BridgeEvent (Body : Type 0) : Type 0 where
  arrived : BridgeDelivery Body → BridgeEvent Body
  closed cancelled : BridgeEvent Body

module _ {Body : Type 0} (config : EventBridgeConfig) (parsers : Parsers Body)
    (out : BridgeOutside Body) where
  -- delivery.Ack and the end of the round.
  unfoldable pub ack_delivery : Bridge Body → BridgeTurn Body
  ack_delivery b =
      let after : Bridge Body = record b { calls = b.calls + 1; acks = b.acks + 1 } in
      if out.settle_fails b.calls then ended after ack_failed else going after

  -- The sink has refused the event: requeue, wait, and double the backoff.
  unfoldable pub refuse_delivery : Bridge Body → BridgeTurn Body
  unfolding next_backoff
  refuse_delivery b =
      let after : Bridge Body = record b { calls = b.calls + 2; nacks = b.nacks + 1 } in
      if out.settle_fails b.calls
      then ended after sink_and_nack_failed
      else if out.timer_fires (b.calls + 1)
      then going (record after {
        sink_backoff = next_backoff b.sink_backoff config.sink_failure_max_backoff;
      })
      else ended after context_ended

  unfoldable pub accept_event : RealtimeEvent Body → Bridge Body → Bridge Body
  unfolding remember
  accept_event event b = record b {
    last = remember b.last event;
    sink_backoff = config.sink_failure_backoff;
    accepted = event ∷ b.accepted;
  }

  -- What is done with a decoded event.
  unfoldable pub handle_event : RealtimeEvent Body → Bridge Body → BridgeTurn Body
  unfolding seen ack_delivery refuse_delivery accept_event
  handle_event event b =
      let tried : Bridge Body = record b { calls = b.calls + 1 } in
      if seen b.last event
      then ack_delivery b
      else if out.sink_fails b.calls
      then refuse_delivery tried
      else ack_delivery (accept_event event tried)

  unfoldable pub bridge_step : BridgeEvent Body → Bridge Body → BridgeTurn Body
  unfolding handle_event decode_realtime_event
  bridge_step (arrived d) b = elim (decode_realtime_event parsers d) [
    | err e ↦ ack_delivery b
    | ok event ↦ handle_event event b
  ]
  bridge_step closed b = ended b stream_closed
  bridge_step cancelled b = ended b context_ended

  -- One session: the rounds of consumeSession on the events that come.
  unfoldable pub run_bridge_session : List (BridgeEvent Body) → Bridge Body → BridgeTurn Body
  unfolding bridge_step
  run_bridge_session [] b = going b
  run_bridge_session (e ∷ es) b = elim (bridge_step e b) [
    | going b' ↦ run_bridge_session es b'
    | ended b' x ↦ ended b' x
  ]

  -- Run: one session after another. A session starts with the first backoff, and `last` lives on.
  unfoldable pub run_bridge : List (List (BridgeEvent Body)) → Bridge Body → Bridge Body
  unfolding run_bridge_session
  run_bridge [] b = b
  run_bridge (session ∷ sessions) b = run_bridge sessions (
      bridge_of
        (run_bridge_session session (record b { sink_backoff = config.sink_failure_backoff })))

  unfoldable pub new_bridge : Bridge Body
  new_bridge = record {
    last = λ task_id. pos 0;
    sink_backoff = config.sink_failure_backoff;
    calls = 0;
    accepted = [];
    acks = 0;
    nacks = 0;
  }
