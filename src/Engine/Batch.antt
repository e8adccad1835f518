-- ===== src/Engine/Batch.antt =====
-- backend/src/engine/batch.js: one run per item, by workers that share a cursor. The runs are a
-- parameter (the status that item `i` ends in, or what executeDag throws), and so is the order in
-- which the workers take their steps.
pub mod Coverage
pub mod Progress
mod Tests
use daisy_workflow.Common.{
  ℕ, zero, suc, ◌+◌, min, String, Bool, true, false, not, ◌&&◌, ◌||◌, Option, none, some, List, [],
  ◌∷◌, ◌==◌, if◌then◌else◌, ltb, leb, eqb, length, all, Result, ok, err, is_some,
}
use daisy_workflow.Dsl.Workflow.{Workflow}
use daisy_workflow.Engine.Limits.{Env, assert_iteration_cap}

-- `results[i]`: the status of the run, and what it threw.
pub record ItemResult : Type 0 where
  pub index : ℕ
  pub status : String
  pub error : Option String

-- A worker before it takes an item, at work on one, or at its end.
pub data Worker : Type 0 where
  idle : Worker
  at_work : ℕ → Worker
  stopped : Worker

pub record Batch : Type 0 where
  pub cursor : ℕ
  pub results : ℕ → Option ItemResult
  pub workers : ℕ → Worker

-- The try block of a worker.
abbrev pub item_result : ℕ → Result String String → ItemResult
item_result i (ok status) = record { index = i; status = status; error = none }
item_result i (err message) = record { index = i; status = "failed"; error = some message }

abbrev pub set_at : {A : Type 0} → (ℕ → A) → ℕ → A → ℕ → A
set_at f k a j = if eqb k j then a else f j

module _ (run : ℕ → Result String String) (count : ℕ) where
  -- The next step of worker `k`: it takes the cursor, or its run ends.
  unfoldable pub worker_step : ℕ → Worker → Batch → Batch
  worker_step k idle b = record b {
    cursor = suc b.cursor;
    workers = set_at b.workers k (if ltb b.cursor count then at_work b.cursor else stopped);
  }
  worker_step k (at_work i) b = record b {
    results = set_at b.results i (some (item_result i (run i)));
    workers = set_at b.workers k idle;
  }
  worker_step k stopped b = b

  unfoldable pub run_workers : List ℕ → Batch → Batch
  unfolding worker_step
  run_workers [] b = b
  run_workers (k ∷ ks) b = run_workers ks (worker_step k (b.workers k) b)

  -- `results.every(test)`
  unfoldable pub every : (String → Bool) → (ℕ → Option ItemResult) → ℕ → Bool
  every test results zero = true
  every test results (suc n) =
      elim (results n) [ none ↦ false | some r ↦ test r.status ] && every test results n

  unfoldable pub overall_status : (ℕ → Option ItemResult) → String
  unfolding every
  overall_status results =
      if every (λ s. s == "success") results count
      then "success"
      else if every (λ s. s == "failed") results count
      then "failed"
      else "partial"

-- The first `width` workers are idle, there is no other.
unfoldable pub first_batch : ℕ → Batch
first_batch width = record {
  cursor = 0;
  results = λ _. none;
  workers = λ k. if ltb k width then idle else stopped;
}

-- `Math.max(1, opts.concurrency || 4)`, for an option that is absent or not negative.
unfoldable pub concurrency_of : Option ℕ → ℕ
concurrency_of none = 4
concurrency_of (some zero) = 4
concurrency_of (some (suc n)) = suc n

-- The batch under one order of steps: the refusal by the cap, or the state that the steps lead to.
unfoldable pub execute_batch :
    Env → Workflow → (ℕ → Result String String) → ℕ → Option ℕ → List ℕ → Result (ℕ × ℕ) Batch
unfolding run_workers first_batch concurrency_of
execute_batch env w run count concurrency steps = elim (assert_iteration_cap env w count) [
  | err e ↦ err e
  | ok _ ↦ ok (run_workers run count steps (first_batch (min (concurrency_of concurrency) count)))
]
