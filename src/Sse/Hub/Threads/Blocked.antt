-- ===== src/Sse/Hub/Threads/Blocked.antt =====
-- A handler that returns while a publishing waits for its channel blocks the hub.
use metrics_pipeline_go.Prelude.{
  ℕ, ◌≤◌, ◌≡◌, refl, ◌∙◌, false, some, List, ◌∷◌, length, update, arith,
}
use metrics_pipeline_go.Domain.{RealtimeEvent}
use metrics_pipeline_go.Sse.Hub.{channel_capacity}
use metrics_pipeline_go.Sse.Hub.Threads.{
  World, queue_of, set_queue, Step, start_publish, deliver, end_publish, give_up, end_context, take,
  leave, close_one, open_one, Reach, here, next,
}

module _ {P : Type 0} where
  -- The publishing of `event` waits for channel `i`, which is full and which nobody reads any more.
  pub record IsBlocked (event : RealtimeEvent P) (i : ℕ) (ids : List ℕ) (w : World P) : Type 0 where
    pub waits : w.sending ≡ some (event, i ∷ ids)
    pub unread : w.reading i ≡ false
    pub full : channel_capacity ≤ length (queue_of w i)

  Step-context : {w u : World P} → Step w u → u.context_over ≡ false → w.context_over ≡ false
  Step-context (start_publish e ids s d v eq) h = ground arith
  Step-context (deliver e i ids s room eq) h = ground arith
  Step-context (end_publish e s eq) h = ground arith
  Step-context (give_up over eq) h = ground arith
  Step-context (end_context eq) h = ground arith
  Step-context (take i e rest r q eq) h = ground arith
  Step-context (leave i r eq) h = ground arith
  Step-context (close_one t i h' s l o c eq) h = ground arith
  Step-context (open_one t s eq) h = ground arith

  Step-IsBlocked :
      (event : RealtimeEvent P) (i : ℕ) (ids : List ℕ) {w u : World P}
      → Step w u
      → w.context_over ≡ false
      → IsBlocked event i ids w
      → IsBlocked event i ids u × (u.hub.subs ≡ w.hub.subs) × (u.hub.next_id ≡ w.hub.next_id)
  unfolding set_queue update
  Step-IsBlocked event i ids (start_publish e is s d v eq) c h = absurd (ground (arith, h))
  Step-IsBlocked event i ids (deliver e j is s room eq) c h = absurd (ground (arith, h))
  Step-IsBlocked event i ids (end_publish e s eq) c h = absurd (ground (arith, h))
  Step-IsBlocked event i ids (give_up over eq) c h = cc
  Step-IsBlocked event i ids (end_context eq) c h = rw eq (ground (arith, h))
  Step-IsBlocked event i ids (take j e rest r q eq) c h = rw eq (ground (arith, h))
  Step-IsBlocked event i ids (leave j r eq) c h = rw eq (ground (arith, h))
  Step-IsBlocked event i ids (close_one t j h' s l o k eq) c h = absurd (ground (arith, h))
  Step-IsBlocked event i ids (open_one t s eq) c h = absurd (ground (arith, h))

  Reach-context : {w u : World P} → Reach w u → u.context_over ≡ false → w.context_over ≡ false
  Reach-context here h = h
  Reach-context (next r s) h = Reach-context r (Step-context s h)

  -- When the publishing of an event waits for a full channel whose handler has returned, then in every world
  -- that is reached before the context of the publishing ends, it still waits for that channel, and nobody has
  -- been subscribed or unsubscribed.
  pub Reach-IsBlocked :
      (event : RealtimeEvent P) (i : ℕ) (ids : List ℕ) {w u : World P}
      → Reach w u
      → u.context_over ≡ false
      → IsBlocked event i ids w
      → IsBlocked event i ids u × (u.hub.subs ≡ w.hub.subs) × (u.hub.next_id ≡ w.hub.next_id)
  Reach-IsBlocked event i ids here c h = (h, refl, refl)
  Reach-IsBlocked event i ids (next r s) c h =
      let before = Step-context s c in
      let (blocked, subs, ids_same) = Reach-IsBlocked event i ids r before h in
      let (after, subs', ids_same') = Step-IsBlocked event i ids s before blocked in
      (after, subs' ∙ subs, ids_same' ∙ ids_same)
