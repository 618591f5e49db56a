-- ===== src/Messaging/Consumer/Requeues.antt =====
-- The loop of flush over the deliveries of a batch that the sink refused, seen from one delivery.
use metrics_pipeline_go.Prelude.{
  update, ℕ, ◌+◌, ◌≡◌, true, ◌||◌, List, [], ◌∷◌, if◌then◌else◌, arith, is_empty,
}
use metrics_pipeline_go.Domain.{MetricPoint}
use metrics_pipeline_go.Messaging.Delivery.{Delivery}
use metrics_pipeline_go.Messaging.Consumer.{
  Environment, Session, BufferedPoint, requeued, requeue_all, unique_from, unique_delivery_states,
  occurs,
}
use metrics_pipeline_go.Messaging.Consumer.Log.{
  own, acks, acks-le, settlements, times, Ends, IsSafe, Requeuing,
}

unique_from-times :
    {V : Type 0} (j : ℕ) (seen : List ℕ) (batch : List (BufferedPoint V))
    → times j (unique_from seen batch) ≡ (if occurs j seen || is_empty (own j batch) then 0 else 1)
unfolding times unique_from own
unique_from-times j seen [] = ground arith
unique_from-times j seen (b ∷ batch) =
    ground (arith, unique_from-times j seen batch, unique_from-times j (b.delivery ∷ seen) batch)

-- A delivery is named once if it has points in the batch, and not at all otherwise.
pub unique_delivery_states-times :
    {V : Type 0} (j : ℕ) (batch : List (BufferedPoint V))
    → times j (unique_delivery_states batch) ≡ (if is_empty (own j batch) then 0 else 1)
unfolding unique_delivery_states occurs
unique_delivery_states-times j batch = unique_from-times j [] batch

module _ {V Body : Type 0} (j closed : ℕ) (frame : ℕ × Delivery Body)
    (points rest : List (MetricPoint V)) where
  -- The loop keeps what holds of delivery `j`, whether it goes on or a Nack fails.
  pub requeue_all-Requeuing :
      (env : Environment V) (is : List ℕ) (s : Session V Body)
      → Requeuing j closed frame points rest is s
      → Ends
          (Requeuing j closed frame points rest [])
          (IsSafe j frame points)
          (requeue_all env is s)
  unfolding requeue_all times settlements acks update
  requeue_all-Requeuing env [] s v = v
  requeue_all-Requeuing env (i ∷ is) s v =
      let t : Session V Body = record s {
        states = update s.states i (record (s.states i) { terminal = true });
        settled = requeued i ∷ s.settled;
        calls = s.calls + 1;
      } in
      ground (arith, acks-le j s.settled, requeue_all-Requeuing env is t)
