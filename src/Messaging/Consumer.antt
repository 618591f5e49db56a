-- ===== src/Messaging/Consumer.antt =====
-- internal/messaging/consumer.go: one consuming session. Deliveries are checked, expanded to points
-- and buffered; a full buffer or the timer flushes it to the sink; each delivery is acknowledged once
-- all its rows are committed, or requeued when a flush of its rows fails.
--
-- A *deliveryState is a number, and `states` the store behind it. `committed` records, oldest first,
-- what the sink has accepted, and `settled`, newest first, the calls of Ack and Nack. The outside
-- answers by the number of the call.
pub mod SessionLoop
pub mod Log
pub mod Acks
pub mod Requeues
pub mod Flushes
pub mod Turns
pub mod Runs
pub mod Lifecycle
pub mod Buffer
pub mod Drain
mod Tests
use metrics_pipeline_go.Prelude.{
  update, ℕ, suc, ◌+◌, ◌≡◌, Bool, true, false, not, ◌&&◌, ◌||◌, ◌==◌, Option, none, some, List, [],
  ◌∷◌, ◌++◌, map, Str, ℤ, pos, eqb_ℤ, is_empty, length, Result, ok, err, if◌then◌else◌,
}
use metrics_pipeline_go.Domain.{Floats, MetricPoint}
use metrics_pipeline_go.Messaging.Message.{Json, IngestMessage, expand_metric_points}
use metrics_pipeline_go.Messaging.Delivery.{Delivery, DeliveryError, validate_delivery}
use metrics_pipeline_go.Messaging.Backoff.{next_backoff}

-- The fields of ConsumerConfig that a session reads.
pub record SessionConfig : Type 0 where
  pub batch_max : ℤ
  pub failure_backoff : ℤ
  pub failure_max_backoff : ℤ

-- The outside: what sink.Flush, the wait, ctx.Err and Ack or Nack answer at the n-th call, and the
-- order in which a `range` visits the map of committed rows.
pub record Environment (V : Type 0) : Type 0 where
  pub flush_fails : ℕ → List (MetricPoint V) → Bool
  pub wait_fails : ℕ → Bool
  pub context_done : ℕ → Bool
  pub settle_fails : ℕ → Bool
  pub range_order : ℕ → List (ℕ × ℕ) → List (ℕ × ℕ)

pub record DeliveryState (Body : Type 0) : Type 0 where
  pub delivery : Delivery Body
  pub total_rows : ℕ
  pub committed_rows : ℕ
  pub terminal : Bool

pub record BufferedPoint (V : Type 0) : Type 0 where
  pub point : MetricPoint V
  pub delivery : ℕ

pub data Settlement : Type 0 where
  acked requeued : ℕ → Settlement
  dead_lettered : ℕ → Settlement

pub record Session (V Body : Type 0) : Type 0 where
  pub allocated : ℕ
  pub states : ℕ → DeliveryState Body
  pub buffer : List (BufferedPoint V)
  pub timer_armed : Bool
  pub failure_backoff : ℤ
  pub calls : ℕ
  pub settled : List Settlement
  pub committed : List (BufferedPoint V)

pub data SessionError : Type 0 where
  stream_closed wait_cancelled context_ended : SessionError
  dead_letter_failed requeue_failed ack_failed : ℕ → SessionError

-- What a part of the session's loop ends in: the loop goes on, or consumeSession returns.
pub data Turn (V Body : Type 0) : Type 0 where
  running : Session V Body → Turn V Body
  stopped : Session V Body → SessionError → Turn V Body

pub data Event (Body : Type 0) : Type 0 where
  delivered : Delivery Body → Event Body
  stream_ended timer_fired cancelled : Event Body

-- The rest of the loop, if it goes on.
abbrev pub then_go : {V Body : Type 0} → Turn V Body → (Session V Body → Turn V Body) → Turn V Body
then_go (running s) f = f s
then_go (stopped s e) f = stopped s e

unfoldable pub occurs : ℕ → List ℕ → Bool
occurs i [] = false
occurs i (j ∷ js) = (i == j) || occurs i js

-- `rows[item.delivery]++`
unfoldable pub add_row : ℕ → List (ℕ × ℕ) → List (ℕ × ℕ)
add_row i [] = (i, 1) ∷ []
add_row i ((j, n) ∷ rows) =
    let rest = add_row i rows in if i == j then (j, n + 1) ∷ rows else (j, n) ∷ rest

module _ {V : Type 0} where
  -- uniqueDeliveryStates: the deliveries of a batch in the order of their first points.
  unfoldable pub unique_from : List ℕ → List (BufferedPoint V) → List ℕ
  unfolding occurs
  unique_from seen [] = []
  unique_from seen (item ∷ batch) =
      let again = unique_from seen batch in
      let first = item.delivery ∷ unique_from (item.delivery ∷ seen) batch in
      if occurs item.delivery seen then again else first

  unfoldable pub unique_delivery_states : List (BufferedPoint V) → List ℕ
  unfolding unique_from
  unique_delivery_states batch = unique_from [] batch

  unfoldable pub committed_rows_from : List (ℕ × ℕ) → List (BufferedPoint V) → List (ℕ × ℕ)
  unfolding add_row
  committed_rows_from rows [] = rows
  committed_rows_from rows (item ∷ batch) = committed_rows_from (add_row item.delivery rows) batch

  unfoldable pub committed_rows_by_delivery : List (BufferedPoint V) → List (ℕ × ℕ)
  unfolding committed_rows_from
  committed_rows_by_delivery batch = committed_rows_from [] batch

  abbrev pub point_list : List (BufferedPoint V) → List (MetricPoint V)
  point_list batch = map (λ b. b.point) batch

module _ {V Body : Type 0} (env : Environment V) where
  -- Marks a delivery terminal and requeues it, for each in turn; an error of Nack ends the session.
  unfoldable pub requeue_all : List ℕ → Session V Body → Turn V Body
  unfolding update
  requeue_all [] s = running s
  requeue_all (i ∷ is) s =
      let t : Session V Body = record s {
        states = update s.states i (record (s.states i) { terminal = true });
        settled = requeued i ∷ s.settled;
        calls = s.calls + 1;
      } in
      let rest = requeue_all is t in
      if env.settle_fails s.calls then stopped t (requeue_failed i) else rest

  -- The session after the rows of delivery `i` are counted, and after its Ack.
  abbrev pub count_rows : Session V Body → ℕ → ℕ → Session V Body
  count_rows s i rows = record s {
    states =
        update s.states i
          (record (s.states i) { committed_rows = (s.states i).committed_rows + rows });
  }

  abbrev pub log_ack : Session V Body → ℕ → Session V Body
  log_ack s i = record s { settled = acked i ∷ s.settled; calls = s.calls + 1 }

  abbrev pub finish : Session V Body → ℕ → Session V Body
  finish s i = record s { states = update s.states i (record (s.states i) { terminal = true }) }

  unfoldable pub ack_all : List (ℕ × ℕ) → Session V Body → Turn V Body
  unfolding update
  ack_all [] s = running s
  ack_all ((i, rows) ∷ entries) s =
      let t = count_rows s i rows in
      let a = log_ack t i in
      let skip = ack_all entries s in
      let partial = ack_all entries t in
      let complete = ack_all entries (finish a i) in
      if (s.states i).terminal
      then skip
      else if (t.states i).committed_rows == (t.states i).total_rows
      then if env.settle_fails t.calls then stopped a (ack_failed i) else complete
      else partial

  -- RabbitMQMetricConsumer.flush: whether the sink failed, and how the session goes on.
  unfoldable pub flush : List (BufferedPoint V) → Session V Body → Bool × Turn V Body
  unfolding requeue_all ack_all unique_delivery_states committed_rows_by_delivery
  flush batch s =
      let called : Session V Body = record s { calls = s.calls + 1 } in
      let waited : Session V Body = record s { calls = s.calls + 2 } in
      let done : Session V Body = record called { committed = s.committed ++ batch } in
      if env.flush_fails s.calls (point_list batch)
      then if env.wait_fails called.calls && env.context_done called.calls
        then (true, stopped waited wait_cancelled)
        else (true, requeue_all (unique_delivery_states batch) waited)
      else (false, ack_all (env.range_order called.calls (committed_rows_by_delivery batch)) done)
