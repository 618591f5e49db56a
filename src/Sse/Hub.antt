-- ===== src/Sse/Hub.antt =====
-- internal/sse/hub.go: subscriptions of tasks, each with a channel of 64 events.
--
-- A channel is a number into a store, since the map of the hub and the subscriber share it. The map of a
-- task is the list of its ids; the code has an entry for a task exactly when that list is not empty.
pub mod Laws
pub mod Threads
mod Tests
use metrics_pipeline_go.Prelude.{
  ℕ, suc, ◌+◌, ◌%◌, ◌==◌, ◌&&◌, ◌||◌, Bool, true, false, not, Option, none, some, List, [], ◌∷◌,
  ◌++◌, Str, put, update, is_empty, keep_if, if◌then◌else◌,
}
use metrics_pipeline_go.Domain.{RealtimeEvent}

abbrev pub channel_capacity : ℕ
channel_capacity = 64

abbrev pub uint64_mod : ℕ
uint64_mod = 18446744073709551616

pub record Channel (P : Type 0) : Type 0 where
  pub queue : List (RealtimeEvent P)
  pub is_open : Bool

pub record Hub (P : Type 0) : Type 0 where
  pub next_id : ℕ
  pub subs : Str → List ℕ
  pub channels : ℕ → Channel P

unfoldable pub has_id : List ℕ → ℕ → Bool
has_id [] i = false
has_id (j ∷ ids) i = (j == i) || has_id ids i

unfoldable pub distinct_ids : List ℕ → Bool
unfolding has_id
distinct_ids [] = true
distinct_ids (i ∷ ids) = not (has_id ids i) && distinct_ids ids

-- What a publishing ends in.
pub data Published (P : Type 0) : Type 0 where
  sent_all context_over : Hub P → Published P

module _ {P : Type 0} where
  unfoldable pub new_hub : Hub P
  new_hub = record {
    next_id = 0;
    subs = λ task_id. [];
    channels = λ i. record { queue = []; is_open = false };
  }

  -- Subscribe: the hub, and the id of the subscription.
  unfoldable pub subscribe : Str → Hub P → Hub P × ℕ
  unfolding put update
  subscribe task_id h =
      let id = (h.next_id + 1) % uint64_mod in
      (
        record h {
          next_id = id;
          subs = put h.subs task_id (h.subs task_id ++ id ∷ []);
          channels = update h.channels id (record { queue = []; is_open = true });
        },
        id,
      )

  -- The function that Subscribe returns as `close`. `none` is the panic of closing a closed channel.
  unfoldable pub close_subscription : Str → ℕ → Hub P → Option (Hub P)
  unfolding put update
  close_subscription task_id id h =
      if is_empty (h.subs task_id)
      then some h
      else if (h.channels id).is_open
      then some (record h {
        subs = put h.subs task_id (keep_if (λ j. not (j == id)) (h.subs task_id));
        channels = update h.channels id (record (h.channels id) { is_open = false });
      })
      else none

  -- `ch <- event`, when it is done.
  unfoldable pub send : ℕ → RealtimeEvent P → Hub P → Hub P
  unfolding update
  send i event h = record h {
    channels =
        update h.channels i (record (h.channels i) { queue = (h.channels i).queue ++ event ∷ [] });
  }

  -- The loop over the channels of a task in the order of the range; `over` says for which channel the context is
  -- over before the event is sent.
  unfoldable pub publish_to : (ℕ → Bool) → RealtimeEvent P → List ℕ → Hub P → Published P
  unfolding send
  publish_to over event [] h = sent_all h
  publish_to over event (i ∷ ids) h =
      let rest = publish_to over event ids (send i event h) in
      if over i then context_over h else rest

  -- Publish and HandleMetricEvent. `order` is the order in which the range visits the channels of a task.
  unfoldable pub publish : (ℕ → Bool) → (List ℕ → List ℕ) → RealtimeEvent P → Hub P → Published P
  unfolding publish_to
  publish over order event h = publish_to over event (order (h.subs event.task_id)) h
