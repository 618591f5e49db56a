-- ===== src/Simulator/Task/Posted.antt =====
-- What a task expects after it has posted its batches.
use mathlib.Core.List.{append-nil, append_assoc}
use metrics_pipeline_go.Prelude.{
  ℕ, ◌≡◌, refl, sym, ap, ◌∙◌, inl, inr, List, [], ◌∷◌, ◌++◌, map, Str, Bool-cases, if◌then◌else◌,
  arith,
}
use metrics_pipeline_go.Domain.{MetricSample, MetricBatch}
use metrics_pipeline_go.Simulator.{SimConfig, Generator, next_batch}
use metrics_pipeline_go.Simulator.Expected.{Fingerprint, ExpectedState, new_expected_state, finish}
use metrics_pipeline_go.Simulator.Expected.Described.{
  IsDescribed-batches, IsDescribed, IsExpectation, finish-IsExpectation, add_expected-IsDescribed,
  batches-add_expected, new_expected_state-IsDescribed,
}
use metrics_pipeline_go.Simulator.Task.{
  batch_fingerprint, has_batch, Turn, count_batch, chosen_batch, run_turns, run_task,
}

module _ {V : Type 0} where
  -- The batches without those whose fingerprint was there before.
  unfoldable pub once : List Fingerprint → List (MetricBatch V) → List (MetricBatch V)
  unfolding has_batch
  once seen [] = []
  once seen (batch ∷ batches) =
      let same = once seen batches in
      let next = once (seen ++ batch_fingerprint batch ∷ []) batches in
      if has_batch seen (batch_fingerprint batch) then same else batch ∷ next

  abbrev pub samples_of : List (MetricBatch V) → List (MetricSample V)
  samples_of [] = []
  samples_of (batch ∷ batches) = batch.samples ++ samples_of batches

  samples_of-append :
      (xs ys : List (MetricBatch V)) → samples_of (xs ++ ys) ≡ samples_of xs ++ samples_of ys
  samples_of-append [] ys = refl
  samples_of-append (x ∷ xs) ys =
      ap (λ rest. x.samples ++ rest) (samples_of-append xs ys)
      ∙ sym (append_assoc x.samples (samples_of xs) (samples_of ys))

  once-snoc :
      (seen : List Fingerprint) (batches : List (MetricBatch V)) (batch : MetricBatch V)
      → once seen (batches ++ batch ∷ [])
        ≡ once seen batches
          ++ (if has_batch
                (seen ++ map batch_fingerprint (once seen batches))
                (batch_fingerprint batch)
              then []
              else batch ∷ [])
  unfolding once
  once-snoc seen [] batch = rw (append-nil seen) refl
  once-snoc seen (b ∷ batches) batch =
      let f = batch_fingerprint b in
      ground (
        arith,
        once-snoc seen batches batch,
        once-snoc (seen ++ f ∷ []) batches batch,
        append_assoc seen (f ∷ []) (map batch_fingerprint (once (seen ++ f ∷ []) batches)),
      )

  map-append :
      (xs : List (MetricBatch V)) (x : MetricBatch V)
      → map batch_fingerprint (xs ++ x ∷ []) ≡ map batch_fingerprint xs ++ batch_fingerprint x ∷ []
  map-append [] x = refl
  map-append (y ∷ xs) x = ap (λ rest. batch_fingerprint y ∷ rest) (map-append xs x)

  -- The state has counted each batch of the history once.
  unfoldable pub IsCounted : ExpectedState → List (MetricBatch V) → Type 0
  unfolding once
  IsCounted e history =
      (e.batches ≡ map batch_fingerprint (once [] history))
      × IsDescribed e (samples_of (once [] history))

  count_batch-IsCounted :
      (e : ExpectedState) (history : List (MetricBatch V)) (batch : MetricBatch V)
      → IsCounted e history
      → IsCounted (count_batch e batch) (history ++ batch ∷ [])
  unfolding IsCounted count_batch
  count_batch-IsCounted e history batch (batches, described) =
      let f = batch_fingerprint batch in
      let found : has_batch e.batches f ≡ has_batch (map batch_fingerprint (once [] history)) f =
        ap (λ seen. has_batch seen f) batches in
      let counted : ExpectedState = record {
        expected = e.expected;
        steps = e.steps;
        batches = e.batches ++ f ∷ [];
      } in
      elim (Bool-cases (has_batch e.batches f)) [
        | inl seen ↦
            let same : once [] (history ++ batch ∷ []) ≡ once [] history =
              once-snoc [] history batch ∙ rw (sym found ∙ seen) (append-nil (once [] history)) in
            rw (same, count_batch, seen) (batches, described)
        | inr new ↦
            let longer : once [] (history ++ batch ∷ []) ≡ once [] history ++ batch ∷ [] =
              once-snoc [] history batch ∙ rw (sym found ∙ new) refl in
            let samples : samples_of (once [] (history ++ batch ∷ []))
                ≡ samples_of (once [] history) ++ batch.samples =
              ap samples_of longer
              ∙ samples_of-append (once [] history) (batch ∷ [])
              ∙ ap (λ end. samples_of (once [] history) ++ end) (append-nil batch.samples) in
            let texts : map batch_fingerprint (once [] history ++ batch ∷ [])
                ≡ map batch_fingerprint (once [] history) ++ f ∷ [] =
              map-append (once [] history) batch in
            (
              rw (longer, texts, count_batch, new)
                  (batches-add_expected counted batch ∙ ap (λ l. l ++ f ∷ []) batches),
              rw (samples, count_batch, new)
                  (add_expected-IsDescribed counted (samples_of (once [] history)) batch
                    (IsDescribed-batches e _ _ described)),
            )
      ]

  module _ (c : SimConfig V) (values : ℕ → Str → V) (size : ℕ) where
    run_turns-IsCounted :
        (g : Generator) (history : List (MetricBatch V)) (e : ExpectedState) (turns : List Turn)
        → IsCounted e history
        → let run = run_turns c values size g history e turns in IsCounted run.1 run.0
    unfolding run_turns
    run_turns-IsCounted g history e [] h = h
    run_turns-IsCounted g history e (turn ∷ turns) h =
        let (generated, next) = next_batch c values g size in
        let batch = chosen_batch generated history turn.duplicate in
        let counted = count_batch-IsCounted e history batch h in
        let same = run_turns-IsCounted next history e turns h in
        let posted =
          run_turns-IsCounted next (history ++ batch ∷ []) (count_batch e batch) turns counted in
        ground (arith, h, counted, same, posted)

    -- However a task ends, what it expects is right for the batches that it has posted, where one with the fingerprint of
    -- an earlier one is left out.
    pub run_task-IsExpectation :
        (g : Generator) (turns : List Turn)
        → let run = run_task c values size g turns in
          IsExpectation (finish run.1) (samples_of (once [] run.0))
    unfolding run_task IsCounted once
    run_task-IsExpectation g turns =
        let counted =
          run_turns-IsCounted g [] (new_expected_state g.task_id) turns
            (refl, new_expected_state-IsDescribed V g.task_id) in
        finish-IsExpectation (run_task c values size g turns).1 _ counted.1
