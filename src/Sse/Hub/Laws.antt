-- ===== src/Sse/Hub/Laws.antt =====
-- What the operations of the hub do for each subscriber.
use mathlib.Core.List.{append-nil}
use metrics_pipeline_go.Prelude.{
  ℕ, suc, ◌+◌, ◌%◌, ◌==◌, ◌≤◌, ◌<◌, ◌≡◌, refl, sym, ap, ◌∙◌, Bool, true, false, not, some, List, [],
  ◌∷◌, ◌++◌, Str, is_empty, keep_if, keep_if-append, All, update, put, put_self, put_same, put-put,
  if◌then◌else◌, arith,
}
use metrics_pipeline_go.Domain.{RealtimeEvent}
use metrics_pipeline_go.Sse.Hub.{
  has_id, distinct_ids, Hub, uint64_mod, sent_all, subscribe, close_subscription, send, publish_to,
  publish,
}

-- Removing an id that is not there.
keep_if-absent :
    (id : ℕ) (ids : List ℕ) → has_id ids id ≡ false → keep_if (λ j. not (j == id)) ids ≡ ids
unfolding has_id
keep_if-absent id [] h = refl
keep_if-absent id (i ∷ ids) h = ground (arith, keep_if-absent id ids)

is_empty-snoc : {A : Type 0} (l : List A) (a : A) → is_empty (l ++ a ∷ []) ≡ false
is_empty-snoc [] a = refl
is_empty-snoc (x ∷ l) a = refl

-- The ids of a task are at most the last id given.
fresh_id : (n : ℕ) (ids : List ℕ) → All (λ i. i ≤ n) ids → has_id ids (suc n) ≡ false
unfolding has_id
fresh_id n [] h = refl
fresh_id n (i ∷ ids) h = ground (arith, h.0, fresh_id n ids h.1)

snoc_removed :
    (ids : List ℕ) (id : ℕ)
    → has_id ids id ≡ false
    → keep_if (λ j. not (j == id)) (ids ++ id ∷ []) ≡ ids
snoc_removed ids id absent =
    keep_if-append (λ j. not (j == id)) ids (id ∷ [])
    ∙ ap (λ l. l ++ keep_if (λ j. not (j == id)) (id ∷ [])) (keep_if-absent id ids absent)
    ∙ ground (arith, append-nil ids)

module _ {P : Type 0} where
  -- A subscription that is closed leaves the subscriptions of every task as they were, when the ids of the
  -- task are at most the last id and the counter of ids does not wrap around.
  pub close_subscription-subscribe :
      (task_id : Str) (h : Hub P)
      → All (λ i. i ≤ h.next_id) (h.subs task_id)
      → h.next_id + 1 < uint64_mod
      → (t : Hub P) × (close_subscription task_id (subscribe task_id h).1 (subscribe task_id h).0
          ≡ some t)
        × ((task : Str) → t.subs task ≡ h.subs task)
        × ((t.channels (subscribe task_id h).1).is_open ≡ false)
  unfolding subscribe close_subscription update
  close_subscription-subscribe task_id h old small =
      let id = (h.next_id + 1) % uint64_mod in
      let same : id ≡ suc h.next_id = ground (arith, small) in
      let absent : has_id (h.subs task_id) id ≡ false =
        rw same (fresh_id h.next_id (h.subs task_id) old) in
      let during = put h.subs task_id (h.subs task_id ++ id ∷ []) in
      let there : during task_id ≡ h.subs task_id ++ id ∷ [] = put_self h.subs task_id _ in
      let left : keep_if (λ j. not (j == id)) (during task_id) ≡ h.subs task_id =
        rw there (snoc_removed (h.subs task_id) id absent) in
      let found : is_empty (during task_id) ≡ false =
        rw there (is_empty-snoc (h.subs task_id) id) in
      (
        record {
          next_id = id;
          subs = put during task_id (keep_if (λ j. not (j == id)) (during task_id));
          channels =
              update (update h.channels id (record { queue = []; is_open = true })) id
                (record { queue = []; is_open = false });
        },
        ground (arith, found),
        λ task. put-put h.subs task_id _ _ task ∙ put_same h.subs task_id _ task (sym left),
        ground arith,
      )

  -- What a publishing adds to channel `i`.
  abbrev pub addition : List ℕ → RealtimeEvent P → ℕ → List (RealtimeEvent P)
  addition ids event i = if has_id ids i then event ∷ [] else []

  publish_to-lem :
      (over : ℕ → Bool) (event : RealtimeEvent P) (ids : List ℕ) (h : Hub P) {t : Hub P} (i : ℕ)
      → distinct_ids ids ≡ true
      → publish_to over event ids h ≡ sent_all t
      → (t.channels i).queue ≡ (h.channels i).queue ++ addition ids event i
  unfolding publish_to distinct_ids has_id send update
  publish_to-lem over event [] h {t} i distinct sent =
      let e : h ≡ t = ground arith in rw (← e) (sym (append-nil (h.channels i).queue))
  publish_to-lem over event (j ∷ ids) h {t} i distinct sent =
      let rest =
        publish_to-lem over event ids (send j event h) {t = t} i (ground arith) (ground arith) in
      rest
      ∙ ground
          (arith, append-nil (h.channels i).queue, append-nil ((h.channels i).queue ++ event ∷ []))

  publish_to-subs :
      (over : ℕ → Bool) (event : RealtimeEvent P) (ids : List ℕ) (h : Hub P) {t : Hub P}
      → publish_to over event ids h ≡ sent_all t
      → t.subs ≡ h.subs
  unfolding publish_to send
  publish_to-subs over event [] h {t} sent = let e : h ≡ t = ground arith in rw e refl
  publish_to-subs over event (j ∷ ids) h {t} sent =
      publish_to-subs over event ids (send j event h) {t = t} (ground arith)

  -- A publishing that is done has put the event once at the end of the channel of every subscriber of its task,
  -- and nothing into any other channel, whatever the order of the range, which visits each subscriber once.
  pub publish_lem :
      (over : ℕ → Bool) (order : List ℕ → List ℕ) (event : RealtimeEvent P) (h : Hub P) {t : Hub P}
      → distinct_ids (order (h.subs event.task_id)) ≡ true
      → ((i : ℕ) → has_id (order (h.subs event.task_id)) i ≡ has_id (h.subs event.task_id) i)
      → publish over order event h ≡ sent_all t
      → (t.subs ≡ h.subs)
        × ((i : ℕ)
            → (t.channels i).queue
              ≡ (h.channels i).queue ++ addition (h.subs event.task_id) event i)
  unfolding publish
  publish_lem over order event h {t} distinct visits sent = (
    publish_to-subs over event (order (h.subs event.task_id)) h {t = t} sent,
    λ i.
        publish_to-lem over event (order (h.subs event.task_id)) h {t = t} i distinct sent
        ∙ ap (λ b. (h.channels i).queue ++ (if b then event ∷ [] else [])) (visits i),
  )
