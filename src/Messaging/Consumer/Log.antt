-- ===== src/Messaging/Consumer/Log.antt =====
-- What a session's logs say of one delivery: its points among those buffered or committed, its
-- settlements, and the facts that the loops of a session keep.
use metrics_pipeline_go.Prelude.{
  ℕ, suc, ◌+◌, ◌≤◌, ◌<◌, ◌≡◌, refl, true, false, ◌==◌, List, [], ◌∷◌, ◌++◌, length, if◌then◌else◌,
  arith,
}
use metrics_pipeline_go.Domain.{MetricPoint}
use metrics_pipeline_go.Messaging.Delivery.{Delivery}
use metrics_pipeline_go.Messaging.Consumer.{
  Session, BufferedPoint, Settlement, acked, requeued, dead_lettered, Turn, then_go, running,
  stopped,
}

-- The points of delivery `j`.
unfoldable pub own : {V : Type 0} → ℕ → List (BufferedPoint V) → List (MetricPoint V)
own j [] = []
own j (b ∷ l) = let rest = own j l in if b.delivery == j then b.point ∷ rest else rest

pub own-append :
    {V : Type 0} (j : ℕ) (k l : List (BufferedPoint V)) → own j (k ++ l) ≡ own j k ++ own j l
unfolding own
own-append j [] l = refl
own-append j (b ∷ k) l = ground (arith, own-append j k l)

-- How often delivery `j` was acknowledged, and how often settled in either way.
unfoldable pub acks : ℕ → List Settlement → ℕ
acks j [] = 0
acks j (acked i ∷ log) = let rest = acks j log in if i == j then suc rest else rest
acks j (requeued i ∷ log) = acks j log
acks j (dead_lettered tag ∷ log) = acks j log

unfoldable pub settlements : ℕ → List Settlement → ℕ
settlements j [] = 0
settlements j (acked i ∷ log) = let rest = settlements j log in if i == j then suc rest else rest
settlements j (requeued i ∷ log) = let rest = settlements j log in if i == j then suc rest else rest
settlements j (dead_lettered tag ∷ log) = settlements j log

pub acks-le : (j : ℕ) (log : List Settlement) → acks j log ≤ settlements j log
unfolding acks settlements
acks-le j [] = omega arith
acks-le j (acked i ∷ log) = ground (arith, acks-le j log)
acks-le j (requeued i ∷ log) = ground (arith, acks-le j log)
acks-le j (dead_lettered tag ∷ log) = acks-le j log

unfoldable pub rows_of : ℕ → List (ℕ × ℕ) → ℕ
rows_of j [] = 0
rows_of j ((i, n) ∷ rows) = let rest = rows_of j rows in if i == j then n + rest else rest

-- How often a number stands in a list.
unfoldable pub times : ℕ → List ℕ → ℕ
times j [] = 0
times j (i ∷ is) = let rest = times j is in if i == j then suc rest else rest

-- A predicate on how a part of the loop ends.
abbrev pub Ends :
    {V Body : Type 0} → (Session V Body → Type 0) → (Session V Body → Type 0) → Turn V Body → Type 0
Ends P Q (running s) = P s
Ends P Q (stopped s e) = Q s

pub then_go-Ends :
    {V Body : Type 0} (P Q R : Session V Body → Type 0) (f : Session V Body → Turn V Body)
    → ((s : Session V Body) → P s → Ends Q R (f s))
    → (turn : Turn V Body) → Ends P R turn
    → Ends Q R (then_go turn f)
then_go-Ends P Q R f keep (running s) h = keep s h
then_go-Ends P Q R f keep (stopped s e) h = h

module _ {V Body : Type 0} (j : ℕ) (frame : ℕ × Delivery Body) (points : List (MetricPoint V)) where
  -- Delivery `j`, whose points are `points`, is settled at most once, and acknowledged only when
  -- exactly its points are committed.
  pub record IsSafe (s : Session V Body) : Type 0 where
    pub once : settlements j s.settled ≤ 1
    pub size : s.allocated ≡ frame.0
    pub origin : (s.states j).delivery ≡ frame.1
    pub persisted : 0 < acks j s.settled → own j s.committed ≡ points

-- The facts about delivery `j` in a session of so many deliveries (`frame`): `closed` is 1 if its number is allocated and 0 if not,
-- and `rest` are its points that are still to be buffered. A number that is not allocated has no
-- points, and its state is terminal.
module _ {V Body : Type 0} (j closed : ℕ) (frame : ℕ × Delivery Body)
    (points rest : List (MetricPoint V)) where
  pub record Held (s : Session V Body) : Type 0 where
    pub small : closed ≤ 1
    pub idle : closed ≡ 0 → ((s.states j).terminal ≡ true) × (own j s.committed ≡ points)
    pub unsettled : (s.states j).terminal ≡ false → settlements j s.settled ≡ 0
    pub settled : (s.states j).terminal ≡ true → settlements j s.settled ≡ closed
    pub rows :
        (s.states j).terminal ≡ false → own j s.committed ++ (own j s.buffer ++ rest) ≡ points
    pub counted :
        (s.states j).terminal ≡ false → (s.states j).committed_rows ≡ length (own j s.committed)
    pub left : (s.states j).terminal ≡ false → 0 < length (own j s.buffer) + length rest
    pub flushed : (s.states j).terminal ≡ true → own j s.buffer ≡ []
    pub persisted : 0 < acks j s.settled → own j s.committed ≡ points
    pub total : (s.states j).total_rows ≡ length points
    pub size : s.allocated ≡ frame.0
    pub origin : (s.states j).delivery ≡ frame.1

  -- In the loop over the committed rows, with `entries` still to be counted.
  pub record Acking (entries : List (ℕ × ℕ)) (s : Session V Body) : Type 0 where
    pub small : closed ≤ 1
    pub idle : closed ≡ 0 → ((s.states j).terminal ≡ true) × (own j s.committed ≡ points)
    pub unsettled : (s.states j).terminal ≡ false → settlements j s.settled ≡ 0
    pub settled : (s.states j).terminal ≡ true → settlements j s.settled ≡ closed
    pub rows : (s.states j).terminal ≡ false → own j s.committed ++ rest ≡ points
    pub counted :
        (s.states j).terminal ≡ false
        → (s.states j).committed_rows + rows_of j entries ≡ length (own j s.committed)
    pub left : (s.states j).terminal ≡ false → 0 < rows_of j entries + length rest
    pub persisted : 0 < acks j s.settled → own j s.committed ≡ points
    pub total : (s.states j).total_rows ≡ length points
    pub size : s.allocated ≡ frame.0
    pub origin : (s.states j).delivery ≡ frame.1
    pub emptied : s.buffer ≡ []

  -- In the loop over the deliveries `is` that are still to be requeued.
  pub record Requeuing (is : List ℕ) (s : Session V Body) : Type 0 where
    pub small : closed ≤ 1
    pub idle : closed ≡ 0 → ((s.states j).terminal ≡ true) × (own j s.committed ≡ points)
    pub unsettled : (s.states j).terminal ≡ false → settlements j s.settled ≡ 0
    pub settled :
        (s.states j).terminal ≡ true → (settlements j s.settled ≡ closed) × (times j is ≡ 0)
    pub at_most_once : times j is ≤ 1
    pub rows : times j is ≡ 0 → (s.states j).terminal ≡ false → own j s.committed ++ rest ≡ points
    pub counted :
        (s.states j).terminal ≡ false → (s.states j).committed_rows ≡ length (own j s.committed)
    pub left : times j is ≡ 0 → (s.states j).terminal ≡ false → 0 < length rest
    pub persisted : 0 < acks j s.settled → own j s.committed ≡ points
    pub total : (s.states j).total_rows ≡ length points
    pub size : s.allocated ≡ frame.0
    pub origin : (s.states j).delivery ≡ frame.1
    pub emptied : s.buffer ≡ []
