-- ===== src/Engine/Batch/Tests.antt =====
-- Two items and one worker.
use daisy_workflow.Common.{
  ℕ, zero, suc, ◌<◌, String, ◌≡◌, refl, inl, inr, some, List, [], ◌∷◌, arith, eqb, Bool-cases,
  Result, ok, err,
}
use daisy_workflow.Js.{nat}
use daisy_workflow.Dsl.Workflow.{Workflow, absent, number}
use daisy_workflow.Engine.Limits.{
  Env, assert_iteration_cap, resolve_max_iterations, non_negative_int,
}
use daisy_workflow.Engine.Batch.{
  Batch, idle, stopped, item_result, worker_step, run_workers, first_batch, execute_batch,
}
use daisy_workflow.Engine.Batch.Coverage.{execute_batch-covered}
use daisy_workflow.Engine.Batch.Progress.{left, worker_step-left}

abbrev no_env : Env
no_env = record {
  default_node_timeout = absent;
  default_workflow_timeout = absent;
  max_retries = absent;
  max_iterations = absent;
  max_tokens = absent;
}

abbrev workflow : Workflow
workflow = record {
  name = "w";
  vars = [];
  timeout = absent;
  node_timeout = absent;
  max_iterations = number (nat 5);
  max_tokens = absent;
  nodes = [];
  edges = [];
}

abbrev run : ℕ → Result String String
run zero = ok "success"
run (suc i) = err "boom"

abbrev steps : List ℕ
steps = 0 ∷ 0 ∷ 0 ∷ 0 ∷ 0 ∷ []

abbrev at_end : Batch
unfolding run_workers first_batch
at_end = run_workers run 2 steps (first_batch 1)

all_stopped : (k : ℕ) → at_end.workers k ≡ stopped
unfolding run_workers worker_step first_batch
all_stopped k = elim (Bool-cases (eqb 0 k)) [ inl first ↦ ground arith | inr other ↦ ground arith ]

execute_batch-covered_example : at_end.results 1 ≡ some (item_result 1 (err "boom"))
unfolding execute_batch assert_iteration_cap resolve_max_iterations non_negative_int
execute_batch-covered_example =
    execute_batch-covered no_env workflow run 2 (some 1) steps at_end 1 refl all_stopped
      (omega arith)

worker_step-left_example :
    left 2 1 (worker_step run 2 0 idle (first_batch 1)) < left 2 1 (first_batch 1)
unfolding first_batch
worker_step-left_example = worker_step-left run 2 1 0 (first_batch 1) (omega arith) (λ e. cc)
