-- ===== src/Messaging/Consumer/Flushes.antt =====
-- A flush of the buffer, seen from one delivery.
use mathlib.Core.List.{append-nil, append_assoc}
use metrics_pipeline_go.Prelude.{
  ℕ, ◌+◌, ◌≡◌, refl, false, ◌==◌, ◌&&◌, List, [], ◌∷◌, ◌++◌, length, length-append, if◌then◌else◌,
  arith, Bool-cases, is_empty-length, inl, inr,
}
use metrics_pipeline_go.Domain.{MetricPoint}
use metrics_pipeline_go.Messaging.Delivery.{Delivery}
use metrics_pipeline_go.Messaging.Consumer.{
  Environment, Session, BufferedPoint, Turn, running, stopped, flush, point_list,
  unique_delivery_states, add_row, committed_rows_from, committed_rows_by_delivery,
}
use metrics_pipeline_go.Messaging.Consumer.Log.{
  own, own-append, acks-le, rows_of, times, Ends, IsSafe, Held, Acking, Requeuing,
}
use metrics_pipeline_go.Messaging.Consumer.Acks.{ack_all-Acking}
use metrics_pipeline_go.Messaging.Consumer.Requeues.{
  unique_delivery_states-times, requeue_all-Requeuing,
}

add_row-rows_of :
    (j i : ℕ) (rows : List (ℕ × ℕ))
    → rows_of j (add_row i rows) ≡ (if i == j then 1 else 0) + rows_of j rows
unfolding add_row rows_of
add_row-rows_of j i [] = ground arith
add_row-rows_of j i ((k, n) ∷ rows) = ground (arith, add_row-rows_of j i rows)

committed_rows_from-rows_of :
    {V : Type 0} (j : ℕ) (rows : List (ℕ × ℕ)) (batch : List (BufferedPoint V))
    → rows_of j (committed_rows_from rows batch) ≡ rows_of j rows + length (own j batch)
unfolding committed_rows_from own
committed_rows_from-rows_of j rows [] = omega arith
committed_rows_from-rows_of j rows (b ∷ batch) = ground (
  arith,
  committed_rows_from-rows_of j (add_row b.delivery rows) batch,
  add_row-rows_of j b.delivery rows,
)

-- The map of committed rows counts the points of each delivery in the batch.
pub committed_rows_by_delivery-rows_of :
    {V : Type 0} (j : ℕ) (batch : List (BufferedPoint V))
    → rows_of j (committed_rows_by_delivery batch) ≡ length (own j batch)
unfolding committed_rows_by_delivery rows_of
committed_rows_by_delivery-rows_of j batch = omega (arith, committed_rows_from-rows_of j [] batch)

-- A `range` over the map of committed rows visits each entry once, in some order.
abbrev pub VisitsAllRows : {V : Type 0} → Environment V → Type 0
VisitsAllRows env =
    (n j : ℕ) (rows : List (ℕ × ℕ)) → rows_of j (env.range_order n rows) ≡ rows_of j rows

module _ {V Body : Type 0} (env : Environment V) (j closed : ℕ) (frame : ℕ × Delivery Body)
    (points rest : List (MetricPoint V)) where
  start-Acking :
      VisitsAllRows env
      → (n : ℕ) (s t : Session V Body) → Held j closed frame points rest s
      → t.states ≡ s.states
      → t.allocated ≡ s.allocated
      → t.settled ≡ s.settled
      → t.committed ≡ s.committed ++ s.buffer
      → t.buffer ≡ []
      → Acking j closed frame points rest
          (env.range_order n (committed_rows_by_delivery s.buffer))
          t
  unfolding own
  start-Acking visits n s t v es en el ec eb =
      let states : t.states j ≡ s.states j = rw es in
      let committed : own j t.committed ≡ own j s.committed ++ own j s.buffer =
        rw ec (own-append j s.committed s.buffer) in
      ground (
        arith,
        states,
        committed,
        visits n j (committed_rows_by_delivery s.buffer),
        committed_rows_by_delivery-rows_of j s.buffer,
        length-append (own j s.committed) (own j s.buffer),
        append_assoc (own j s.committed) (own j s.buffer) rest,
        append-nil (own j s.committed),
        acks-le j s.settled,
      )

  start-Requeuing :
      (s t : Session V Body)
      → Held j closed frame points rest s
      → t.states ≡ s.states
      → t.allocated ≡ s.allocated
      → t.settled ≡ s.settled
      → t.committed ≡ s.committed
      → t.buffer ≡ []
      → Requeuing j closed frame points rest (unique_delivery_states s.buffer) t
  start-Requeuing s t v es en el ec eb =
      let states : t.states j ≡ s.states j = rw es in
      let committed : own j t.committed ≡ own j s.committed = rw ec in
      ground (
        arith,
        states,
        committed,
        unique_delivery_states-times j s.buffer,
        is_empty-length (own j s.buffer),
        acks-le j s.settled,
      )

  Acking-Held :
      (s : Session V Body)
      → Acking j closed frame points rest [] s
      → Held j closed frame points rest s
  unfolding own rows_of
  Acking-Held s v = let e : own j s.buffer ≡ [] = rw v.emptied in ground (arith, e)

  Requeuing-Held :
      (s : Session V Body)
      → Requeuing j closed frame points rest [] s
      → Held j closed frame points rest s
  unfolding own times
  Requeuing-Held s v = let e : own j s.buffer ≡ [] = rw v.emptied in ground (arith, e)

  Ends-Held :
      (P : Session V Body → Type 0)
      → ((s : Session V Body) → P s → Held j closed frame points rest s)
      → (turn : Turn V Body) → Ends P (IsSafe j frame points) turn
      → Ends (Held j closed frame points rest) (IsSafe j frame points) turn
  Ends-Held P keep (running s) h = keep s h
  Ends-Held P keep (stopped s e) h = h

  pub Held-IsSafe :
      (s : Session V Body) → Held j closed frame points rest s → IsSafe j frame points s
  Held-IsSafe s v = ground (arith, acks-le j s.settled)

  pub flush-Held :
      VisitsAllRows env
      → (s : Session V Body) → Held j closed frame points rest s
      → Ends
          (Held j closed frame points rest)
          (IsSafe j frame points)
          (flush env s.buffer (record s { timer_armed = false; buffer = [] })).1
  unfolding flush own
  flush-Held visits s v = elim (Bool-cases (env.flush_fails s.calls (point_list s.buffer))) [
    | inl failed ↦
        elim (Bool-cases (env.wait_fails (s.calls + 1) && env.context_done (s.calls + 1))) [
          | inl ended ↦ rw (failed, flush) (rw ended (ground (arith, Held-IsSafe s v)))
          | inr waited ↦
              rw (failed, flush)
                (rw waited (
                  Ends-Held (Requeuing j closed frame points rest []) Requeuing-Held _ (
                    requeue_all-Requeuing j closed frame points rest env
                      (unique_delivery_states s.buffer) _
                      (start-Requeuing s _ v refl refl refl refl refl))))
        ]
    | inr stored ↦
        rw (stored, flush)
          (Ends-Held (Acking j closed frame points rest []) Acking-Held _ (
            ack_all-Acking env j closed frame points rest _ _
              (start-Acking visits (s.calls + 1) s _ v refl refl refl refl refl)))
  ]
