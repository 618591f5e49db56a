-- ===== src/Messaging/Consumer/Lifecycle.antt =====
-- The life of a delivery in a session, from any events and any answers of the outside.
use mathlib.Core.List.{append-nil}
use metrics_pipeline_go.Prelude.{ℕ, ◌≤◌, ◌<◌, ◌≡◌, subst, ◌⊎◌, List, [], ◌++◌, length, arith}
use metrics_pipeline_go.Messaging.Delivery.{Delivery}
use metrics_pipeline_go.Messaging.Consumer.{Session, Turn, running, stopped, Event}
use metrics_pipeline_go.Messaging.Consumer.SessionLoop.{Setup, run_session, start_session}
use metrics_pipeline_go.Messaging.Consumer.Log.{own, acks, settlements, Ends}
use metrics_pipeline_go.Messaging.Consumer.Flushes.{VisitsAllRows, Held-IsSafe}
use metrics_pipeline_go.Messaging.Consumer.Runs.{
  delivery_points, IsSound, HeldAt, SafeAt, run-Sound,
}

-- The session as it is when a run ends, whether the loop goes on or has returned.
abbrev pub final : {V Body : Type 0} → Turn V Body → Session V Body
final (running s) = s
final (stopped s e) = s

module _ {V Body : Type 0} (setup : Setup V Body) (visits : VisitsAllRows setup.env) where
  pub start-IsSound : (nil : Delivery Body) → IsSound setup (start_session setup nil)
  unfolding start_session own settlements acks
  start-IsSound nil j = ground arith

  final-Safe :
      (j : ℕ) (turn : Turn V Body)
      → Ends (HeldAt setup j []) (SafeAt setup j) turn
      → SafeAt setup j (final turn)
  final-Safe j (running s) h = Held-IsSafe setup.env j _ _ _ [] s h
  final-Safe j (stopped s e) h = h

  -- In every run, whatever the outside answers and however the run ends, a delivery is settled at most
  -- once. The range over the committed rows visits every entry once.
  pub settled_at_most_once :
      (nil : Delivery Body) (es : List (Event Body)) (j : ℕ)
      → settlements j (final (run_session setup es (start_session setup nil))).settled ≤ 1
  settled_at_most_once nil es j =
      let start = start_session setup nil in
      let safe =
        final-Safe j (run_session setup es start)
          (run-Sound setup visits es j start (start-IsSound nil j)) in
      ground (arith, safe)

  -- In every run, however it ends, what the sink has accepted of a delivery that the session took and acknowledged is all of its
  -- points, in order and once each. The range over the committed rows visits every entry once.
  pub acked_is_persisted :
      (nil : Delivery Body) (es : List (Event Body)) (j : ℕ)
      → j < (final (run_session setup es (start_session setup nil))).allocated
      → 0 < acks j (final (run_session setup es (start_session setup nil))).settled
      → own j (final (run_session setup es (start_session setup nil))).committed
        ≡ delivery_points setup
            ((final (run_session setup es (start_session setup nil))).states j).delivery
  acked_is_persisted nil es j inside acked =
      let start = start_session setup nil in
      let safe =
        final-Safe j (run_session setup es start)
          (run-Sound setup visits es j start (start-IsSound nil j)) in
      ground (arith, safe)

  -- While the session runs, a delivery is in one of two states: settled once, with no point in
  -- the buffer, or not settled, with at least one point in the buffer, and then the points accepted by the sink
  -- followed by those in the buffer are all of its points. So none is forgotten.
  pub unsettled_is_buffered :
      (nil : Delivery Body) (es : List (Event Body)) (j : ℕ) {t : Session V Body}
      → run_session setup es (start_session setup nil) ≡ running t
      → j < t.allocated
      → ((settlements j t.settled ≡ 1) × (own j t.buffer ≡ []))
        ⊎ ((settlements j t.settled ≡ 0)
            × (0 < length (own j t.buffer))
            × (own j t.committed ++ own j t.buffer ≡ delivery_points setup (t.states j).delivery))
  unsettled_is_buffered nil es j {t} e inside =
      let start = start_session setup nil in
      let held : HeldAt setup j [] t =
        subst (Ends (HeldAt setup j []) (SafeAt setup j)) e
          (run-Sound setup visits es j start (start-IsSound nil j)) in
      ground (arith, held, append-nil (own j t.buffer))
