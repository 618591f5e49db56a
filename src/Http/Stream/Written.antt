-- ===== src/Http/Stream/Written.antt =====
-- Which events a stream writes, and in which order.
use metrics_pipeline_go.Prelude.{
  ℕ, ◌+◌, ◌≡◌, refl, false, not, ◌||◌, inl, inr, Option, some, List, [], ◌∷◌, Str, ℤ, ◌<ℤ◌, leb_ℤ,
  ltb, length, is_empty, Bool-cases, Option-cases, arith,
}
use metrics_pipeline_go.Domain.{RealtimeEvent}
use metrics_pipeline_go.Http.Response.{json, write_error}
use metrics_pipeline_go.Http.Ingest.{task_id_pattern, max_task_id_length}
use metrics_pipeline_go.Http.Stream.{
  StreamOutside, Signal, event_ready, channel_closed, tick, client_gone, Stream, StreamTurn,
  open_stream, done_stream, stream_of, write_event, replay, stream_step, stream_loop, start_stream,
  run_stream, check_cursor, outside_retention, parse_last_event_id, stream_metrics,
}

module _ {P : Type 0} where
  -- The newest sequence number that the client has.
  unfoldable pub top : ℤ → List (RealtimeEvent P) → ℤ
  top after [] = after
  top after (e ∷ l) = e.event_seq

  -- Newest first, each event is newer than the one before it and than the cursor.
  unfoldable pub IsDescending : ℤ → List (RealtimeEvent P) → Type 0
  IsDescending after [] = Unit
  IsDescending after (e ∷ l) = (top after l <ℤ e.event_seq) × IsDescending after l

  pub record IsSent (after : ℤ) (s : Stream P) : Type 0 where
    pub descending : IsDescending after s.written
    pub current : s.after ≡ top after s.written

  module _ (out : StreamOutside P) (after : ℤ) where
    write_event-IsSent :
        (event : RealtimeEvent P) (s : Stream P)
        → IsSent after s
        → IsSent after (stream_of (write_event out event s))
    unfolding write_event top IsDescending
    write_event-IsSent event s h = elim (Bool-cases (leb_ℤ event.event_seq s.after)) [
      | inl old ↦ rw (old, write_event) h
      | inr new ↦ elim (Bool-cases (out.write_fails s.calls)) [
        | inl failed ↦
            rw (new, write_event)
              (rw failed (record { descending = h.descending; current = h.current }))
        | inr sent ↦
            let newer : top after s.written <ℤ event.event_seq =
              rw (← h.current) (ground (arith, new)) in
            rw (new, write_event)
              (rw sent (record { descending = (newer, h.descending); current = refl }))
      ]
    ]

    then_go-IsSent :
        (turn : StreamTurn P) (next : Stream P → StreamTurn P)
        → IsSent after (stream_of turn)
        → ((t : Stream P) → IsSent after t → IsSent after (stream_of (next t)))
        → IsSent after (
            stream_of (elim turn as (λ x. StreamTurn P) [
              | open_stream t ↦ next t
              | done_stream t ↦ done_stream t
            ]))
    then_go-IsSent (open_stream t) next h k = k t h
    then_go-IsSent (done_stream t) next h k = h

    replay-IsSent :
        (events : List (RealtimeEvent P)) (s : Stream P)
        → IsSent after s
        → IsSent after (stream_of (replay out events s))
    unfolding replay
    replay-IsSent [] s h = h
    replay-IsSent (e ∷ events) s h =
        then_go-IsSent (write_event out e s) (λ t. replay out events t) (write_event-IsSent e s h)
          (λ t k. replay-IsSent events t k)

    stream_step-IsSent :
        (signal : Signal P) (s : Stream P)
        → IsSent after s
        → IsSent after (stream_of (stream_step out signal s))
    unfolding stream_step
    stream_step-IsSent (event_ready e) s h = write_event-IsSent e s h
    stream_step-IsSent channel_closed s h = h
    stream_step-IsSent client_gone s h = h
    stream_step-IsSent tick s h = elim (Bool-cases (out.write_fails s.calls)) [
      | inl failed ↦
          rw (failed, stream_step) (record { descending = h.descending; current = h.current })
      | inr sent ↦
          rw (sent, stream_step) (record { descending = h.descending; current = h.current })
    ]

    stream_loop-IsSent :
        (signals : List (Signal P)) (s : Stream P)
        → IsSent after s
        → IsSent after (stream_of (stream_loop out signals s))
    unfolding stream_loop
    stream_loop-IsSent [] s h = h
    stream_loop-IsSent (x ∷ signals) s h =
        then_go-IsSent (stream_step out x s) (λ t. stream_loop out signals t)
          (stream_step-IsSent x s h) (λ t k. stream_loop-IsSent signals t k)

    start-IsSent : IsSent after (start_stream after)
    unfolding top IsDescending
    start-IsSent = record { descending = tt; current = refl }

    -- Whatever was missed and whatever comes on the channel, repeated or late, a stream writes events
    -- with strictly increasing sequence numbers, all after the cursor, and keeps the last of them as its cursor.
    pub run_stream-IsSent :
        (missed : List (RealtimeEvent P)) (signals : List (Signal P))
        → IsSent after (stream_of (run_stream out missed signals after))
    unfolding run_stream
    run_stream-IsSent missed signals = elim (Bool-cases out.can_flush) [
      | inl can ↦
          rw (can, run_stream)
            (then_go-IsSent (replay out missed (start_stream after))
              (λ t. stream_loop out signals t)
              (replay-IsSent missed (start_stream after) start-IsSent)
              (λ t k. stream_loop-IsSent signals t k))
      | inr cannot ↦ rw (cannot, run_stream) start-IsSent
    ]

  -- Each event is newer than the one before it.
  unfoldable pub IsRising : ℤ → List (RealtimeEvent P) → Type 0
  IsRising after [] = Unit
  IsRising after (e ∷ l) = (after <ℤ e.event_seq) × IsRising e.event_seq l

  unfoldable pub reverse_onto :
      List (RealtimeEvent P) → List (RealtimeEvent P) → List (RealtimeEvent P)
  reverse_onto [] acc = acc
  reverse_onto (e ∷ l) acc = reverse_onto l (e ∷ acc)

  write_event_new :
      (out : StreamOutside P) (e : RealtimeEvent P) (s : Stream P)
      → ((n : ℕ) → out.write_fails n ≡ false)
      → s.after <ℤ e.event_seq
      → write_event out e s
        ≡ open_stream
            (record s { after = e.event_seq; calls = s.calls + 1; written = e ∷ s.written })
  unfolding write_event
  write_event_new out e s passes newer =
      let new : leb_ℤ e.event_seq s.after ≡ false = ground (arith, newer) in
      rw (new, write_event) (rw (passes s.calls) refl)

  -- When no write fails, a replay of events in rising order writes all of them, in order.
  pub replay_complete :
      (out : StreamOutside P) (events : List (RealtimeEvent P)) (s : Stream P)
      → ((n : ℕ) → out.write_fails n ≡ false)
      → IsRising s.after events
      → (t : Stream P) × (replay out events s ≡ open_stream t)
        × (t.written ≡ reverse_onto events s.written)
  unfolding replay IsRising reverse_onto
  replay_complete out [] s passes rising = (s, refl, refl)
  replay_complete out (e ∷ events) s passes rising =
      let next : Stream P = record s {
        after = e.event_seq;
        calls = s.calls + 1;
        written = e ∷ s.written;
      } in
      let (t, same, all) = replay_complete out events next passes rising.1 in
      (t, rw (write_event_new out e s passes rising.0, replay) same, all)

  module _ (out : StreamOutside P) (parse_int : Str → Option ℤ) (task_id : Str) where
    from_cursor :
        (signals : List (Signal P)) (cursor : ℤ) {turn : StreamTurn P}
        → check_cursor out task_id signals (some cursor) ≡ json turn
        → (missed : List (RealtimeEvent P)) × (turn ≡ run_stream out missed signals cursor)
    unfolding write_error
    from_cursor signals cursor h = elim (Option-cases (out.bounds task_id)) [
      | inl failed ↦ absurd (ground (arith, failed))
      | inr ((oldest, latest), e) ↦ elim (Bool-cases (outside_retention oldest latest cursor)) [
        | inl outside ↦ absurd (ground (arith, e, outside))
        | inr inside ↦ elim (Option-cases (out.query task_id cursor)) [
          | inl failed ↦ absurd (ground (arith, e, inside, failed))
          | inr (missed, q) ↦ (missed, ground (arith, e, inside, q))
        ]
      ]
    ]

    -- A client that reconnects with a Last-Event-ID gets, when its stream is accepted, only events after that
    -- one, with strictly increasing sequence numbers.
    pub stream_metrics-IsSent :
        (last_event_id : Str) (signals : List (Signal P)) (cursor : ℤ) {turn : StreamTurn P}
        → parse_last_event_id parse_int last_event_id task_id ≡ some (some cursor)
        → stream_metrics out parse_int task_id last_event_id signals ≡ json turn
        → IsSent cursor (stream_of turn)
    unfolding stream_metrics write_error
    stream_metrics-IsSent last_event_id signals cursor {turn} read h =
        elim (Bool-cases (
          is_empty task_id
          || not (task_id_pattern task_id)
          || ltb max_task_id_length (length task_id))) [
            | inl bad ↦ absurd (ground (arith, bad))
            | inr good ↦
                let (missed, same) =
                  from_cursor signals cursor {turn = turn} (ground (arith, good, read)) in
                rw same (run_stream-IsSent out cursor missed signals)
          ]
