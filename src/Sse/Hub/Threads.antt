-- ===== src/Sse/Hub/Threads.antt =====
-- The threads around the hub: one publishing, which holds the read lock until it is done, and the
-- handlers of the clients. `Step` is one step of any of them: Subscribe and Close take the write lock, so they
-- happen only while nothing is being published.
pub mod Blocked
use metrics_pipeline_go.Prelude.{
  ℕ, suc, ◌+◌, ◌≤◌, ◌<◌, ◌≡◌, Bool, true, false, Option, none, some, List, [], ◌∷◌, Str, length,
  update,
}
use metrics_pipeline_go.Domain.{RealtimeEvent}
use metrics_pipeline_go.Sse.Hub.{
  has_id, distinct_ids, Hub, Channel, channel_capacity, subscribe, close_subscription, send,
}

-- `sending` is the event of the publishing with the channels still to be served, `reading` says which
-- handlers read their channel, `leaving` which have returned and wait in Close, and `context_over` is the
-- end of the context of the publishing.
pub record World (P : Type 0) : Type 0 where
  pub hub : Hub P
  pub sending : Option (RealtimeEvent P × List ℕ)
  pub reading : ℕ → Bool
  pub leaving : ℕ → Bool
  pub context_over : Bool

abbrev pub queue_of : {P : Type 0} → World P → ℕ → List (RealtimeEvent P)
queue_of w i = (w.hub.channels i).queue

-- The hub after its channel `i` has this queue.
unfoldable pub set_queue : {P : Type 0} → Hub P → ℕ → List (RealtimeEvent P) → Hub P
unfolding update
set_queue h i queue = record h {
  channels = update h.channels i (record (h.channels i) { queue = queue });
}

pub data Step {P : Type 0} (w u : World P) : Type 0 where
  start_publish :
      (event : RealtimeEvent P) (ids : List ℕ)
      → w.sending ≡ none
      → distinct_ids ids ≡ true
      → ((i : ℕ) → has_id ids i ≡ has_id (w.hub.subs event.task_id) i)
      → u ≡ record w { sending = some (event, ids) }
      → Step w u
  deliver :
      (event : RealtimeEvent P) (i : ℕ) (ids : List ℕ)
      → w.sending ≡ some (event, i ∷ ids)
      → length (queue_of w i) < channel_capacity
      → u ≡ record w { hub = send i event w.hub; sending = some (event, ids) }
      → Step w u
  end_publish :
      (event : RealtimeEvent P)
      → w.sending ≡ some (event, [])
      → u ≡ record w { sending = none }
      → Step w u
  give_up : w.context_over ≡ true → u ≡ record w { sending = none } → Step w u
  end_context : u ≡ record w { context_over = true } → Step w u
  take :
      (i : ℕ) (event : RealtimeEvent P) (rest : List (RealtimeEvent P))
      → w.reading i ≡ true
      → queue_of w i ≡ event ∷ rest
      → u ≡ record w { hub = set_queue w.hub i rest }
      → Step w u
  leave :
      (i : ℕ)
      → w.reading i ≡ true
      → u ≡ record w { reading = update w.reading i false; leaving = update w.leaving i true }
      → Step w u
  close_one :
      (task_id : Str) (i : ℕ) (h : Hub P)
      → w.sending ≡ none
      → w.leaving i ≡ true
      → has_id (w.hub.subs task_id) i ≡ true
      → close_subscription task_id i w.hub ≡ some h
      → u ≡ record w { hub = h; leaving = update w.leaving i false }
      → Step w u
  open_one :
      (task_id : Str)
      → w.sending ≡ none
      → u ≡ record w {
        hub = (subscribe task_id w.hub).0;
        reading = update w.reading (subscribe task_id w.hub).1 true;
      }
      → Step w u

pub data Reach {P : Type 0} (w : World P) : World P → Type 0 where
  here : Reach w w
  next : {t u : World P} → Reach w t → Step t u → Reach w u
