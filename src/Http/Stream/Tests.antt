-- ===== src/Http/Stream/Tests.antt =====
-- A client that has event 2 and reconnects: events 3 and 4 were missed, and 4 comes again.
use metrics_pipeline_go.Prelude.{
  ℕ, ◌≡◌, refl, true, false, Option, some, List, [], ◌∷◌, length, Str, codes, add64, ℤ, pos, arith,
}
use metrics_pipeline_go.Domain.{RealtimeEvent}
use metrics_pipeline_go.Http.Response.{json}
use metrics_pipeline_go.Http.Stream.{
  StreamOutside, Signal, event_ready, tick, Stream, StreamTurn, open_stream, stream_of, replay,
  start_stream, run_stream, parse_last_event_id, stream_metrics,
}
use metrics_pipeline_go.Http.Stream.Written.{
  IsSent, run_stream-IsSent, IsRising, reverse_onto, replay_complete, stream_metrics-IsSent,
}

abbrev event : ℤ → RealtimeEvent ℕ
event seq = record { task_id = codes "demo-1"; event_seq = seq; payload = 9 }

abbrev missed_events : List (RealtimeEvent ℕ)
missed_events = event (pos 3) ∷ event (pos 4) ∷ []

abbrev outside : StreamOutside ℕ
outside = record {
  bounds = λ t. some (pos 1, pos 4);
  query = λ t after. some missed_events;
  can_flush = true;
  write_fails = λ n. false;
}

abbrev signals : List (Signal ℕ)
signals = event_ready (event (pos 4)) ∷ tick ∷ event_ready (event (pos 6)) ∷ []

abbrev two : Str → Option ℤ
two s = some (pos 2)

sent : StreamTurn ℕ
unfolding run_stream
sent = run_stream outside missed_events signals (pos 2)

sent_log : length (stream_of sent).written ≡ 3
unfolding sent
sent_log = refl

reads_cursor : parse_last_event_id two (codes "demo-1:2") (codes "demo-1") ≡ some (some (pos 2))
unfolding parse_last_event_id
reads_cursor = refl

accepts : stream_metrics outside two (codes "demo-1") (codes "demo-1:2") signals ≡ json sent
unfolding stream_metrics sent add64
accepts = refl

run_stream-IsSent_example :
    IsSent (pos 2) (stream_of (run_stream outside missed_events signals (pos 2)))
run_stream-IsSent_example = run_stream-IsSent outside (pos 2) missed_events signals

stream_metrics-IsSent_example : IsSent (pos 2) (stream_of sent)
stream_metrics-IsSent_example =
    stream_metrics-IsSent outside two (codes "demo-1") (codes "demo-1:2") signals (pos 2)
      {turn = sent} reads_cursor accepts

rising : IsRising (pos 2) missed_events
unfolding IsRising
rising = (omega arith, (omega arith, tt))

replay_complete_example :
    (t : Stream ℕ) × (replay outside missed_events (start_stream (pos 2)) ≡ open_stream t)
    × (t.written ≡ reverse_onto missed_events [])
replay_complete_example =
    replay_complete outside missed_events (start_stream (pos 2)) (λ n. refl) rising
