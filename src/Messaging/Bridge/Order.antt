-- ===== src/Messaging/Bridge/Order.antt =====
-- The order in which the sink takes the events of a task, and the answers to the broker.
use metrics_pipeline_go.Prelude.{
  ℕ, ◌+◌, ◌≡◌, refl, false, List, [], ◌∷◌, Str, ℤ, pos, ◌<ℤ◌, str_eq, Bool-cases, Result-cases, inl,
  inr, if◌then◌else◌, arith,
}
use metrics_pipeline_go.Domain.{RealtimeEvent}
use metrics_pipeline_go.Messaging.Bridge.{
  EventBridgeConfig, Parsers, decode_realtime_event, Last, seen, remember, Bridge, BridgeOutside,
  BridgeTurn, going, ended, BridgeEvent, arrived, closed, cancelled, ack_delivery, refuse_delivery,
  accept_event, handle_event, bridge_step, bridge_of, run_bridge_session, run_bridge, new_bridge,
}

module _ {Body : Type 0} where
  -- The sequence number of the newest accepted event of a task, or 0.
  unfoldable pub newest : List (RealtimeEvent Body) → Str → ℤ
  newest [] task_id = pos 0
  newest (e ∷ l) task_id = if str_eq task_id e.task_id then e.event_seq else newest l task_id

  -- Each event is newer than all that were accepted of its task before.
  unfoldable pub IsOrdered : List (RealtimeEvent Body) → Type 0
  IsOrdered [] = Unit
  IsOrdered (e ∷ l) = (newest l e.task_id <ℤ e.event_seq) × IsOrdered l

  pub record IsTracked (b : Bridge Body) : Type 0 where
    pub tracked : (task_id : Str) → b.last task_id ≡ newest b.accepted task_id
    pub ordered : IsOrdered b.accepted

  remember-newest :
      (last : Last) (e : RealtimeEvent Body) (l : List (RealtimeEvent Body)) (task_id : Str)
      → seen last e ≡ false
      → last task_id ≡ newest l task_id
      → remember last e task_id ≡ newest (e ∷ l) task_id
  unfolding seen remember newest
  remember-newest last e l task_id new same = ground (arith, new, same)

  unseen_is_newer :
      (last : Last) (e : RealtimeEvent Body) (l : List (RealtimeEvent Body))
      → seen last e ≡ false
      → last e.task_id ≡ newest l e.task_id
      → newest l e.task_id <ℤ e.event_seq
  unfolding seen
  unseen_is_newer last e l new same = rw (← same) (ground (arith, new))

  module _ (config : EventBridgeConfig) (parsers : Parsers Body) (out : BridgeOutside Body) where
    ack_delivery-IsTracked :
        (b : Bridge Body) → IsTracked b → IsTracked (bridge_of (ack_delivery config parsers out b))
    unfolding ack_delivery
    ack_delivery-IsTracked b h = elim (Bool-cases (out.settle_fails b.calls)) [
      | inl failed ↦ rw (failed, ack_delivery) (record { tracked = h.tracked; ordered = h.ordered })
      | inr passed ↦ rw (passed, ack_delivery) (record { tracked = h.tracked; ordered = h.ordered })
    ]

    refuse_delivery-IsTracked :
        (b : Bridge Body)
        → IsTracked b
        → IsTracked (bridge_of (refuse_delivery config parsers out b))
    unfolding refuse_delivery
    refuse_delivery-IsTracked b h = elim (Bool-cases (out.settle_fails b.calls)) [
      | inl failed ↦
          rw (failed, refuse_delivery) (record { tracked = h.tracked; ordered = h.ordered })
      | inr passed ↦ elim (Bool-cases (out.timer_fires (b.calls + 1))) [
        | inl fired ↦
            rw (passed, refuse_delivery)
              (rw fired (record { tracked = h.tracked; ordered = h.ordered }))
        | inr over ↦
            rw (passed, refuse_delivery)
              (rw over (record { tracked = h.tracked; ordered = h.ordered }))
      ]
    ]

    accept_event-IsTracked :
        (event : RealtimeEvent Body) (b : Bridge Body)
        → seen b.last event ≡ false
        → IsTracked b
        → IsTracked (accept_event config parsers out event b)
    unfolding accept_event IsOrdered
    accept_event-IsTracked event b new h = record {
      tracked = λ task_id. remember-newest b.last event b.accepted task_id new (h.tracked task_id);
      ordered = (unseen_is_newer b.last event b.accepted new (h.tracked event.task_id), h.ordered);
    }

    handle_event-IsTracked :
        (event : RealtimeEvent Body) (b : Bridge Body)
        → IsTracked b
        → IsTracked (bridge_of (handle_event config parsers out event b))
    unfolding handle_event
    handle_event-IsTracked event b h =
        let tried : Bridge Body = record b { calls = b.calls + 1 } in
        let same : IsTracked tried = record { tracked = h.tracked; ordered = h.ordered } in
        elim (Bool-cases (seen b.last event)) [
          | inl old ↦ rw (old, handle_event) (ack_delivery-IsTracked b h)
          | inr new ↦ elim (Bool-cases (out.sink_fails b.calls)) [
            | inl failed ↦ rw (new, handle_event) (rw failed (refuse_delivery-IsTracked tried same))
            | inr taken ↦
                rw (new, handle_event)
                  (rw taken
                    (ack_delivery-IsTracked _ (accept_event-IsTracked event tried new same)))
          ]
        ]

    bridge_step-IsTracked :
        (e : BridgeEvent Body) (b : Bridge Body)
        → IsTracked b
        → IsTracked (bridge_of (bridge_step config parsers out e b))
    unfolding bridge_step
    bridge_step-IsTracked (arrived d) b h = elim (Result-cases (decode_realtime_event parsers d)) [
      | inl (event, good) ↦ rw (good, bridge_step) (handle_event-IsTracked event b h)
      | inr (x, bad) ↦ rw (bad, bridge_step) (ack_delivery-IsTracked b h)
    ]
    bridge_step-IsTracked closed b h = h
    bridge_step-IsTracked cancelled b h = h

    run_bridge_session-IsTracked :
        (es : List (BridgeEvent Body)) (b : Bridge Body)
        → IsTracked b
        → IsTracked (bridge_of (run_bridge_session config parsers out es b))
    unfolding run_bridge_session
    run_bridge_session-IsTracked [] b h = h
    run_bridge_session-IsTracked (e ∷ es) b h =
        rest (bridge_step config parsers out e b) (bridge_step-IsTracked e b h)
          (λ t k. run_bridge_session-IsTracked es t k)
      where
        rest :
            (turn : BridgeTurn Body)
            → IsTracked (bridge_of turn)
            → ((t : Bridge Body)
                → IsTracked t
                → IsTracked (bridge_of (run_bridge_session config parsers out es t)))
            → IsTracked (
                bridge_of (elim turn as (λ x. BridgeTurn Body) [
                  | going t ↦ run_bridge_session config parsers out es t
                  | ended t x ↦ ended t x
                ]))
        rest (going t) h k = k t h
        rest (ended t x) h k = h

    run_bridge-IsTracked :
        (sessions : List (List (BridgeEvent Body))) (b : Bridge Body)
        → IsTracked b
        → IsTracked (run_bridge config parsers out sessions b)
    unfolding run_bridge
    run_bridge-IsTracked [] b h = h
    run_bridge-IsTracked (session ∷ sessions) b h = run_bridge-IsTracked sessions _ (
        run_bridge_session-IsTracked session
          (record b { sink_backoff = config.sink_failure_backoff })
          (record { tracked = h.tracked; ordered = h.ordered }))

    -- Over any number of sessions, with any deliveries, repeated and out of order, the sink accepts the
    -- events of each task in strictly increasing order of their sequence numbers, so none twice, and the bridge
    -- remembers for each task the newest one that the sink accepted.
    pub run_bridge_lem :
        (sessions : List (List (BridgeEvent Body)))
        → IsTracked (run_bridge config parsers out sessions (new_bridge config parsers out))
    unfolding new_bridge newest IsOrdered
    run_bridge_lem sessions =
        run_bridge-IsTracked sessions (new_bridge config parsers out)
          (record { tracked = λ task_id. refl; ordered = tt })

  -- The deliveries among the events of a session.
  unfoldable pub deliveries : List (BridgeEvent Body) → ℕ
  deliveries [] = 0
  deliveries (arrived d ∷ es) = deliveries es + 1
  deliveries (closed ∷ es) = deliveries es
  deliveries (cancelled ∷ es) = deliveries es

  module _ (config : EventBridgeConfig) (parsers : Parsers Body) (out : BridgeOutside Body) where
    handle_event-answers :
        (event : RealtimeEvent Body) (b : Bridge Body)
        → (bridge_of (handle_event config parsers out event b)).acks
            + (bridge_of (handle_event config parsers out event b)).nacks
          ≡ b.acks + b.nacks + 1
    unfolding handle_event ack_delivery refuse_delivery accept_event
    handle_event-answers event b = ground arith

    bridge_step-answers :
        (e : BridgeEvent Body) (b : Bridge Body) {t : Bridge Body}
        → bridge_step config parsers out e b ≡ going t
        → t.acks + t.nacks ≡ b.acks + b.nacks + deliveries (e ∷ [])
    unfolding bridge_step deliveries ack_delivery
    bridge_step-answers (arrived d) b h = elim (Result-cases (decode_realtime_event parsers d)) [
      | inl (event, good) ↦ ground (arith, good, handle_event-answers event b)
      | inr (x, bad) ↦ ground (arith, bad)
    ]
    bridge_step-answers closed b h = cc
    bridge_step-answers cancelled b h = cc

    -- A session that goes on has answered every delivery exactly once, with an ack or a nack.
    pub run_bridge_session-answers :
        (es : List (BridgeEvent Body)) (b : Bridge Body) {t : Bridge Body}
        → run_bridge_session config parsers out es b ≡ going t
        → t.acks + t.nacks ≡ b.acks + b.nacks + deliveries es
    unfolding run_bridge_session deliveries
    run_bridge_session-answers [] b h = ground (arith, h)
    run_bridge_session-answers (e ∷ es) b {t} h =
        next (bridge_step config parsers out e b) (λ u k. bridge_step-answers e b {t = u} k)
          (λ u k. run_bridge_session-answers es u {t = t} k) h
      where
        next :
            (turn : BridgeTurn Body)
            → ((u : Bridge Body)
                → turn ≡ going u
                → u.acks + u.nacks ≡ b.acks + b.nacks + deliveries (e ∷ []))
            → ((u : Bridge Body)
                → run_bridge_session config parsers out es u ≡ going t
                → t.acks + t.nacks ≡ u.acks + u.nacks + deliveries es)
            → elim turn as (λ x. BridgeTurn Body) [
              | going u ↦ run_bridge_session config parsers out es u
              | ended u x ↦ ended u x
            ]
              ≡ going t
            → t.acks + t.nacks ≡ b.acks + b.nacks + deliveries (e ∷ es)
        next (going u) step rest h = total e _ _ _ (step u refl) (rest u h)
          where
            total :
                (e : BridgeEvent Body) (x y z : ℕ)
                → y ≡ x + deliveries (e ∷ [])
                → z ≡ y + deliveries es
                → z ≡ x + deliveries (e ∷ es)
            total (arrived d) x y z p q = omega (arith, p, q)
            total closed x y z p q = omega (arith, p, q)
            total cancelled x y z p q = omega (arith, p, q)
        next (ended u x) step rest h = cc
