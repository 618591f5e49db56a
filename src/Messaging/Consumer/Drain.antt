-- ===== src/Messaging/Consumer/Drain.antt =====
-- A flush that the outside does not disturb settles every delivery that waits in the buffer.
use metrics_pipeline_go.Prelude.{
  ℕ, ◌+◌, ◌<◌, ◌≡◌, refl, ◌∙◌, subst, true, false, List, [], ◌∷◌, arith, Bool-cases, is_empty, inl,
  inr,
}
use metrics_pipeline_go.Messaging.Delivery.{Delivery}
use metrics_pipeline_go.Messaging.Consumer.{
  Environment, Session, Turn, running, stopped, Event, timer_fired, ack_all, flush, count_rows,
  log_ack, finish, point_list, committed_rows_by_delivery,
}
use metrics_pipeline_go.Messaging.Consumer.SessionLoop.{
  Setup, flush_buffer, after_flush, session_step, run_session, start_session,
}
use metrics_pipeline_go.Messaging.Consumer.Log.{own, settlements, Ends}
use metrics_pipeline_go.Messaging.Consumer.Flushes.{VisitsAllRows}
use metrics_pipeline_go.Messaging.Consumer.Runs.{HeldAt, SafeAt, run-Sound, step-Sound}
use metrics_pipeline_go.Messaging.Consumer.Lifecycle.{start-IsSound}
use metrics_pipeline_go.Messaging.Consumer.Buffer.{
  IsUsable, Drained, Anything, run_session-IsPrompt, flush_buffer-Drained,
}

abbrev Never : {V Body : Type 0} → Session V Body → Type 0
Never s = ⊥

module _ {V Body : Type 0} (env : Environment V)
    (settles : (n : ℕ) → env.settle_fails n ≡ false) where
  ack_all_goes_on :
      (entries : List (ℕ × ℕ)) (s : Session V Body) → Ends Anything Never (ack_all env entries s)
  unfolding ack_all
  ack_all_goes_on [] s = tt
  ack_all_goes_on ((i, n) ∷ entries) s = ground (
    arith,
    settles s.calls,
    ack_all_goes_on entries s,
    ack_all_goes_on entries (count_rows env s i n),
    ack_all_goes_on entries (finish env (log_ack env (count_rows env s i n) i) i),
  )

module _ {V Body : Type 0} (setup : Setup V Body)
    (settles : (n : ℕ) → setup.env.settle_fails n ≡ false) where
  flush_buffer_goes_on :
      (s : Session V Body)
      → setup.env.flush_fails s.calls (point_list s.buffer) ≡ false
      → Ends Anything Never (flush_buffer setup.config setup.env s)
  unfolding flush_buffer flush
  flush_buffer_goes_on s stores = elim (Bool-cases (is_empty s.buffer)) [
    | inl nothing ↦ rw (nothing, flush_buffer) (ground arith)
    | inr points ↦
        rw (points, flush_buffer)
          (rw stores (
            after_flush_goes_on _ (
              ack_all_goes_on setup.env settles
                (setup.env.range_order (s.calls + 1) (committed_rows_by_delivery s.buffer)) _)))
  ]
    where
      after_flush_goes_on :
          (turn : Turn V Body)
          → Ends Anything Never turn
          → Ends Anything Never (after_flush setup.config setup.env s.failure_backoff (false, turn))
      after_flush_goes_on (running t) h = tt
      after_flush_goes_on (stopped t e) h = h

  running_of :
      (P : Session V Body → Type 0) (turn : Turn V Body)
      → Ends Anything Never turn
      → Ends P Anything turn
      → (t : Session V Body) × (turn ≡ running t) × P t
  running_of P (running t) h p = (t, refl, p)
  running_of P (stopped t e) h p = absurd h

  timer_step :
      (s : Session V Body)
      → s.timer_armed ≡ true
      → session_step setup timer_fired s ≡ flush_buffer setup.config setup.env s
  unfolding session_step
  timer_step s armed = ground arith

  settled_when_drained :
      (j : ℕ) (t : Session V Body)
      → HeldAt setup j [] t
      → t.buffer ≡ []
      → j < t.allocated
      → settlements j t.settled ≡ 1
  unfolding own
  settled_when_drained j t held empty inside =
      let e : own j t.buffer ≡ [] = rw empty in ground (arith, held, e)

  -- When the timer fires in a running session, the sink accepts the buffer and no Ack or Nack
  -- fails, the session runs on with an empty buffer and every delivery so far is settled, once. The
  -- configuration is usable and the range over the committed rows visits every entry once.
  pub timer_drains :
      VisitsAllRows setup.env
      → IsUsable setup.config
      → (nil : Delivery Body) (es : List (Event Body)) {s : Session V Body}
      → run_session setup es (start_session setup nil) ≡ running s
      → s.timer_armed ≡ true
      → setup.env.flush_fails s.calls (point_list s.buffer) ≡ false
      → (t : Session V Body) × (session_step setup timer_fired s ≡ running t)
        × (t.buffer ≡ [])
        × ((j : ℕ) → j < t.allocated → settlements j t.settled ≡ 1)
  timer_drains visits usable nil es {s} ran armed stores =
      let start = start_session setup nil in
      let prompt = run_session-IsPrompt setup usable nil es {t = s} ran in
      let (t, goes_on, drained) =
        running_of (Drained setup.config) (flush_buffer setup.config setup.env s)
          (flush_buffer_goes_on s stores)
          (flush_buffer-Drained setup.config setup.env usable s (ground (arith, prompt))) in
      let step = timer_step s armed ∙ goes_on in
      let sound : (j : ℕ) → HeldAt setup j [] t = λ j.
        subst (Ends (HeldAt setup j []) (SafeAt setup j)) step (
          step-Sound setup visits timer_fired j s (
            subst (Ends (HeldAt setup j []) (SafeAt setup j)) ran
              (run-Sound setup visits es j start (start-IsSound setup visits nil j)))) in
      (
        t,
        step,
        drained.buffer,
        λ j inside. settled_when_drained j t (sound j) drained.buffer inside,
      )
