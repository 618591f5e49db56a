-- ===== src/Sse/Hub/Tests.antt =====
-- Two subscribers of a task, and a client that leaves while its channel is full.
use metrics_pipeline_go.Prelude.{
  ℕ, zero, suc, ◌≡◌, refl, true, false, some, List, [], ◌∷◌, ◌++◌, Str, codes, str_eq, pos, update,
  put, arith,
}
use metrics_pipeline_go.Domain.{RealtimeEvent}
use metrics_pipeline_go.Sse.Hub.{
  distinct_ids, Hub, Published, sent_all, new_hub, subscribe, close_subscription, publish,
}
use metrics_pipeline_go.Sse.Hub.Laws.{close_subscription-subscribe, addition, publish_lem}
use metrics_pipeline_go.Sse.Hub.Threads.{World, leave, Reach, here, next}
use metrics_pipeline_go.Sse.Hub.Threads.Blocked.{IsBlocked, Reach-IsBlocked}

abbrev event : RealtimeEvent ℕ
event = record { task_id = codes "demo-1"; event_seq = pos 3; payload = 9 }

one_subscriber : Hub ℕ
unfolding subscribe new_hub
one_subscriber = (subscribe (codes "demo-1") new_hub).0

two_subscribers : Hub ℕ
unfolding subscribe one_subscriber
two_subscribers = (subscribe (codes "demo-1") one_subscriber).0

close_subscription-subscribe_example :
    (t : Hub ℕ) × (close_subscription
        (codes "demo-1")
        (subscribe (codes "demo-1") one_subscriber).1
        (subscribe (codes "demo-1") one_subscriber).0
      ≡ some t)
    × ((task : Str) → t.subs task ≡ one_subscriber.subs task)
    × ((t.channels (subscribe (codes "demo-1") one_subscriber).1).is_open ≡ false)
unfolding one_subscriber str_eq put
close_subscription-subscribe_example =
    close_subscription-subscribe (codes "demo-1") one_subscriber (omega arith, tt) (omega arith)

after_event : Hub ℕ
unfolding publish two_subscribers str_eq
after_event = elim (publish (λ n. false) (λ ids. ids) event two_subscribers) as (λ r. Hub ℕ) [
  | sent_all h ↦ h
  | Published.context_over h ↦ h
]

reaches_both : publish (λ n. false) (λ ids. ids) event two_subscribers ≡ sent_all after_event
unfolding publish after_event two_subscribers str_eq
reaches_both = refl

both_distinct : distinct_ids (two_subscribers.subs (codes "demo-1")) ≡ true
unfolding distinct_ids two_subscribers str_eq
both_distinct = refl

publish_lem_example :
    (after_event.subs ≡ two_subscribers.subs)
    × ((i : ℕ)
        → (after_event.channels i).queue
          ≡ (two_subscribers.channels i).queue
            ++ addition (two_subscribers.subs (codes "demo-1")) event i)
publish_lem_example =
    publish_lem (λ n. false) (λ ids. ids) event two_subscribers {t = after_event} both_distinct
      (λ i. refl) reaches_both

times : ℕ → List (RealtimeEvent ℕ)
times zero = []
times (suc n) = event ∷ times n

-- The publishing waits for client 1, whose handler has returned, and client 2 is about to return.
abbrev full_channel : World ℕ
full_channel = record {
  hub = record {
    next_id = 2;
    subs = λ task_id. 1 ∷ 2 ∷ [];
    channels = λ i. record { queue = times 64; is_open = true };
  };
  sending = some (event, 1 ∷ 2 ∷ []);
  reading = λ i. false;
  leaving = λ i. true;
  context_over = false;
}

abbrev still_reading : World ℕ
still_reading = record full_channel { reading = update full_channel.reading 2 true }

abbrev second_left : World ℕ
second_left = record still_reading {
  reading = update still_reading.reading 2 false;
  leaving = update still_reading.leaving 2 true;
}

second_leaves : Reach still_reading second_left
unfolding update
second_leaves = next here (leave 2 refl refl)

is_blocked : IsBlocked event 1 (2 ∷ []) still_reading
unfolding times update
is_blocked = record { waits = refl; unread = refl; full = omega arith }

Reach-IsBlocked_example :
    IsBlocked event 1 (2 ∷ []) second_left
    × (second_left.hub.subs ≡ still_reading.hub.subs)
    × (second_left.hub.next_id ≡ still_reading.hub.next_id)
Reach-IsBlocked_example =
    Reach-IsBlocked event 1 (2 ∷ []) {w = still_reading} {u = second_left} second_leaves refl
      is_blocked
