-- ===== src/Http/Stream.antt =====
-- internal/transport/http/stream.go: the stream of a task's events to one client.
--
-- `after` is the sequence number that the client has. A write, a flush and a ping fail or not by the
-- number of the call.
pub mod Written
mod Tests
use metrics_pipeline_go.Prelude.{
  ℕ, suc, ◌+◌, ◌-◌, ◌==◌, Bool, true, false, not, ◌&&◌, ◌||◌, Option, none, some, List, [], ◌∷◌,
  Str, ℤ, pos, negsuc, ltb, length, leb_ℤ, ltb_ℤ, eqb_ℤ, add64, str_eq, is_empty, codes,
  if◌then◌else◌,
}
use metrics_pipeline_go.Domain.{RealtimeEvent}
use metrics_pipeline_go.Http.Response.{
  Response, ApiError, error, json, write_error, status_bad_request, status_internal, invalid_params,
  internal_error,
}
use metrics_pipeline_go.Http.Ingest.{task_id_pattern, max_task_id_length}

abbrev colon : ℕ
colon = 58

-- strings.Split at the colons.
unfoldable pub split_colon : Str → List Str
split_colon [] = [] ∷ []
split_colon (c ∷ s) = elim (split_colon s) [
  | [] ↦ if c == colon then [] ∷ [] else (c ∷ []) ∷ []
  | part ∷ parts ↦ if c == colon then [] ∷ part ∷ parts else (c ∷ part) ∷ parts
]

-- parseLastEventID: an error, or the cursor, if there is one. `parse_int` is strconv.ParseInt with base 10
-- and 64 bits.
unfoldable pub parse_last_event_id : (Str → Option ℤ) → Str → Str → Option (Option ℤ)
unfolding split_colon str_eq
parse_last_event_id parse_int value task_id =
    if is_empty value then some none else elim (split_colon value) [
      | task ∷ seq ∷ [] ↦ if not (str_eq task task_id) then none else elim (parse_int seq) [
        | none ↦ none
        | some n ↦ if ltb_ℤ n (pos 0) then none else some (some n)
      ]
      | _ ↦ none
    ]

-- What the service and the connection answer.
pub record StreamOutside (P : Type 0) : Type 0 where
  pub bounds : Str → Option (ℤ × ℤ)
  pub query : Str → ℤ → Option (List (RealtimeEvent P))
  pub can_flush : Bool
  pub write_fails : ℕ → Bool

-- What the `select` of the loop takes.
pub data Signal (P : Type 0) : Type 0 where
  event_ready : RealtimeEvent P → Signal P
  channel_closed tick client_gone : Signal P

-- `written` are the events sent, newest first, and `pings` counts the pings.
pub record Stream (P : Type 0) : Type 0 where
  pub after : ℤ
  pub calls : ℕ
  pub written : List (RealtimeEvent P)
  pub pings : ℕ

-- The loop goes on, or the handler has returned.
pub data StreamTurn (P : Type 0) : Type 0 where
  open_stream done_stream : Stream P → StreamTurn P

-- The cursor is before what is kept, or nothing is kept and events were.
unfoldable pub outside_retention : ℤ → ℤ → ℤ → Bool
outside_retention oldest latest after =
    ltb_ℤ (pos 0) oldest && ltb_ℤ after (add64 oldest (negsuc 0))
    || eqb_ℤ oldest (pos 0) && ltb_ℤ after latest

abbrev pub stream_of : {P : Type 0} → StreamTurn P → Stream P
stream_of (open_stream s) = s
stream_of (done_stream s) = s

module _ {P : Type 0} where
  -- writeEvent. An event that the client has is passed over.
  unfoldable pub write_event : StreamOutside P → RealtimeEvent P → Stream P → StreamTurn P
  write_event out event s =
      if leb_ℤ event.event_seq s.after
      then open_stream s
      else if out.write_fails s.calls
      then done_stream (record s { calls = s.calls + 1 })
      else open_stream
          (record s { after = event.event_seq; calls = s.calls + 1; written = event ∷ s.written })

  -- The events that were missed.
  unfoldable pub replay : StreamOutside P → List (RealtimeEvent P) → Stream P → StreamTurn P
  unfolding write_event
  replay out [] s = open_stream s
  replay out (event ∷ events) s = elim (write_event out event s) [
    | open_stream t ↦ replay out events t
    | done_stream t ↦ done_stream t
  ]

  unfoldable pub stream_step : StreamOutside P → Signal P → Stream P → StreamTurn P
  unfolding write_event
  stream_step out (event_ready event) s = write_event out event s
  stream_step out channel_closed s = done_stream s
  stream_step out tick s =
      if out.write_fails s.calls
      then done_stream (record s { calls = s.calls + 1 })
      else open_stream (record s { calls = s.calls + 1; pings = s.pings + 1 })
  stream_step out client_gone s = done_stream s

  unfoldable pub stream_loop : StreamOutside P → List (Signal P) → Stream P → StreamTurn P
  unfolding stream_step
  stream_loop out [] s = open_stream s
  stream_loop out (signal ∷ signals) s = elim (stream_step out signal s) [
    | open_stream t ↦ stream_loop out signals t
    | done_stream t ↦ done_stream t
  ]

  abbrev pub start_stream : ℤ → Stream P
  start_stream after = record { after = after; calls = 0; written = []; pings = 0 }

  -- The handler after its headers: the missed events, and then the loop.
  unfoldable pub run_stream :
      StreamOutside P → List (RealtimeEvent P) → List (Signal P) → ℤ → StreamTurn P
  unfolding replay stream_loop
  run_stream out missed signals after =
      if out.can_flush
      then elim (replay out missed (start_stream after)) [
        | open_stream s ↦ stream_loop out signals s
        | done_stream s ↦ done_stream s
      ]
      else done_stream (start_stream after)

  abbrev server_error : Response (StreamTurn P)
  server_error = write_error status_internal internal_error (codes "internal server error")

  -- The part after the cursor has passed its check.
  abbrev pub send_from : StreamOutside P → Str → List (Signal P) → ℤ → Response (StreamTurn P)
  send_from out task_id signals after = elim (out.query task_id after) [
    | none ↦ server_error
    | some missed ↦ json (run_stream out missed signals after)
  ]

  abbrev pub check_cursor :
      StreamOutside P → Str → List (Signal P) → Option ℤ → Response (StreamTurn P)
  check_cursor out task_id signals cursor = elim (out.bounds task_id) [
    | none ↦ server_error
    | some (oldest, latest) ↦ elim cursor [
      | none ↦ send_from out task_id signals latest
      | some after ↦
          if outside_retention oldest latest after
          then write_error status_bad_request invalid_params
              (codes "Last-Event-ID is outside retention window")
          else send_from out task_id signals after
    ]
  ]

  -- StreamMetrics on a task id, a Last-Event-ID and the signals that come.
  unfoldable pub stream_metrics :
      StreamOutside P → (Str → Option ℤ) → Str → Str → List (Signal P) → Response (StreamTurn P)
  unfolding parse_last_event_id outside_retention run_stream write_error task_id_pattern
  stream_metrics out parse_int task_id last_event_id signals =
      if is_empty task_id
        || not (task_id_pattern task_id)
        || ltb max_task_id_length (length task_id)
      then write_error status_bad_request invalid_params (codes "invalid task_id")
      else elim (parse_last_event_id parse_int last_event_id task_id) [
        | none ↦ write_error status_bad_request invalid_params (codes "invalid Last-Event-ID")
        | some cursor ↦ check_cursor out task_id signals cursor
      ]
