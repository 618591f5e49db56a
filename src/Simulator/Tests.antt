-- ===== src/Simulator/Tests.antt =====
-- A task that posts two batches and one of them again, and its audit.
use metrics_pipeline_go.Prelude.{
  ℕ, zero, suc, ◌≡◌, refl, true, false, none, some, List, [], ◌∷◌, Str, codes, pos, All,
}
use metrics_pipeline_go.Simulator.{SimConfig, Generator}
use metrics_pipeline_go.Simulator.Expected.{Expected, finish}
use metrics_pipeline_go.Simulator.Expected.Described.{IsExpectation}
use metrics_pipeline_go.Simulator.Task.{Turn, run_task}
use metrics_pipeline_go.Simulator.Task.Posted.{once, samples_of, run_task-IsExpectation}
use metrics_pipeline_go.Simulator.Audit.{
  AuditResponse, Answer, uncalled, answered, make_report, TaskFailure,
}
use metrics_pipeline_go.Simulator.Audit.Reported.{IsConfirmed, make_report_passes}

abbrev config : SimConfig ℕ
config = record {
  endpoint = codes "http://api";
  tasks = pos 1;
  rate = 1;
  duration = pos 5;
  batch_size = pos 2;
  task_prefix = codes "demo";
  eval_loss = true;
  eval_every = pos 2;
  gpu_util = false;
  gpu_mem = false;
  throughput = false;
  duplicate_rate = 0;
  failure_rate = 0;
}

abbrev generator : Generator
generator = record { task_id = codes "demo-1"; step = 0; next_ts = pos 1000; interval = pos 10 }

abbrev posts : Turn
posts = record {
  stopped_before = false;
  duplicate = none;
  injected = false;
  post_error = none;
  stopped_after = false;
}

abbrev repeats : Turn
repeats = record {
  stopped_before = false;
  duplicate = some 0;
  injected = false;
  post_error = none;
  stopped_after = false;
}

abbrev turns : List Turn
turns = posts ∷ repeats ∷ posts ∷ []

run_task-IsExpectation_example :
    IsExpectation
      (finish (run_task config (λ step key. 7) 2 generator turns).1)
      (samples_of (once [] (run_task config (λ step key. 7) 2 generator turns).0))
run_task-IsExpectation_example = run_task-IsExpectation config (λ step key. 7) 2 generator turns

abbrev expectation : Expected
expectation = record {
  task_id = codes "demo-1";
  batch_items = 4;
  point_count = 10;
  distinct_steps = 4;
  first_step = some (pos 0);
  last_step = some (pos 5);
  keys = codes "eval_loss" ∷ codes "loss" ∷ codes "lr" ∷ [];
  missing_steps = pos 2 ∷ pos 3 ∷ [];
}

-- What the task of the turns above expects.
expects : finish (run_task config (λ step key. 7) 2 generator turns).1 ≡ expectation
unfolding run_task finish
expects = refl

abbrev response : AuditResponse
response = record {
  task_id = codes "demo-1";
  point_count = pos 10;
  distinct_steps = pos 4;
  first_step = some (pos 0);
  last_step = some (pos 5);
  keys = codes "eval_loss" ∷ codes "loss" ∷ codes "lr" ∷ [];
  missing_steps = pos 2 ∷ pos 3 ∷ [];
}

-- The first call fails, and the second one answers.
abbrev answers : ℕ → Str → Answer
answers n task_id = elim n [ zero ↦ uncalled | suc m ↦ answered 200 (some response) ]

passes : (make_report answers (pos 10) (true ∷ true ∷ []) true (expectation ∷ []) []).0.pass ≡ true
unfolding make_report
passes = refl

make_report_passes_example :
    (◌≡◌ {A = List TaskFailure} [] [])
    × ((n : ℕ) × All (λ e. IsConfirmed (answers n) e.task_id e) (expectation ∷ []))
make_report_passes_example =
    make_report_passes answers (pos 10) (true ∷ true ∷ []) (expectation ∷ []) [] passes
