-- ===== src/Messaging/Bridge/Tests.antt =====
-- A session that gets one event twice, and an older one after a newer one.
use metrics_pipeline_go.Prelude.{
  ℕ, ◌+◌, ◌≡◌, refl, true, false, none, some, List, [], ◌∷◌, length, codes, str_eq, ℤ, pos,
}
use metrics_pipeline_go.Messaging.Message.{int64, text}
use metrics_pipeline_go.Messaging.Bridge.{
  EventBridgeConfig, Parsers, Bridge, BridgeOutside, going, BridgeEvent, arrived, bridge_of,
  run_bridge_session, run_bridge, new_bridge,
}
use metrics_pipeline_go.Messaging.Bridge.Order.{
  IsTracked, run_bridge_lem, deliveries, run_bridge_session-answers,
}

abbrev config : EventBridgeConfig
config = record {
  url = codes "amqp://broker";
  instance_id = codes "api-1";
  sink_failure_backoff = pos 10;
  sink_failure_max_backoff = pos 40;
  reconnect_backoff = pos 10;
  reconnect_max_backoff = pos 40;
}

abbrev parsers : Parsers ℕ
parsers = record { valid_json = λ b. true; parse_int = λ s. none }

abbrev outside : BridgeOutside ℕ
outside = record { sink_fails = λ n. false; settle_fails = λ n. false; timer_fires = λ n. true }

abbrev event : ℤ → BridgeEvent ℕ
event seq =
    arrived
      (record { task_id = some (text (codes "demo-1")); event_seq = some (int64 seq); body = 5 })

abbrev repeated : List (BridgeEvent ℕ)
repeated = event (pos 1) ∷ event (pos 3) ∷ event (pos 3) ∷ event (pos 2) ∷ []

-- Of the four deliveries the sink takes two, and all four are acknowledged.
after_repeated : Bridge ℕ
unfolding run_bridge_session new_bridge
after_repeated =
    bridge_of
      (run_bridge_session config parsers outside repeated (new_bridge config parsers outside))

after_repeated_log : (length after_repeated.accepted ≡ 2) × (after_repeated.acks ≡ 4)
unfolding after_repeated str_eq
after_repeated_log = (refl, refl)

repeated_goes_on :
    run_bridge_session config parsers outside repeated (new_bridge config parsers outside)
    ≡ going after_repeated
unfolding after_repeated str_eq
repeated_goes_on = refl

run_bridge_lem_example : IsTracked (
    run_bridge config parsers outside
      (repeated ∷ repeated ∷ [])
      (new_bridge config parsers outside))
run_bridge_lem_example = run_bridge_lem config parsers outside (repeated ∷ repeated ∷ [])

run_bridge_session-answers_example :
    after_repeated.acks + after_repeated.nacks ≡ 0 + 0 + deliveries repeated
unfolding new_bridge
run_bridge_session-answers_example =
    run_bridge_session-answers config parsers outside repeated (new_bridge config parsers outside)
      {t = after_repeated} repeated_goes_on
