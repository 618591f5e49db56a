-- ===== src/Messaging/Consumer/Acks.antt =====
-- The loop of flush over the committed rows, seen from one delivery.
use mathlib.Core.List.{append-nil}
use metrics_pipeline_go.Prelude.{
  update, ℕ, ◌≡◌, ap, List, [], ◌∷◌, ◌++◌, length, length-append, arith,
}
use metrics_pipeline_go.Domain.{MetricPoint}
use metrics_pipeline_go.Messaging.Delivery.{Delivery}
use metrics_pipeline_go.Messaging.Consumer.{
  Environment, Session, count_rows, log_ack, finish, ack_all,
}
use metrics_pipeline_go.Messaging.Consumer.Log.{
  own, acks, acks-le, settlements, rows_of, Ends, IsSafe, Acking,
}

-- A part that is as long as the whole is the whole.
all_committed :
    {A : Type 0} (l rest whole : List A) → l ++ rest ≡ whole → length l ≡ length whole → l ≡ whole
all_committed l [] whole e n = rw append-nil at e
all_committed l (x ∷ rest) whole e n =
    absurd (omega (arith, ap length e, length-append l (x ∷ rest)))

module _ {V Body : Type 0} (env : Environment V) (j closed : ℕ) (frame : ℕ × Delivery Body)
    (points rest : List (MetricPoint V)) where
  -- The loop keeps what holds of delivery `j`, whether it goes on or an Ack fails.
  pub ack_all-Acking :
      (entries : List (ℕ × ℕ)) (s : Session V Body)
      → Acking j closed frame points rest entries s
      → Ends (Acking j closed frame points rest []) (IsSafe j frame points) (ack_all env entries s)
  unfolding ack_all rows_of settlements acks update
  ack_all-Acking [] s v = v
  ack_all-Acking ((i, n) ∷ entries) s v = ground (
    arith,
    all_committed (own j s.committed) rest points,
    length-append (own j s.committed) rest,
    acks-le j s.settled,
    ack_all-Acking entries s,
    ack_all-Acking entries (count_rows env s i n),
    ack_all-Acking entries (finish env (log_ack env (count_rows env s i n) i) i),
  )
