-- ===== src/Engine/Executor/Tests.antt =====
-- Runs of small workflows.
use daisy_workflow.Common.{
  some, ℕ, zero, suc, String, ◌≡◌, refl, subst, inl, inr, Bool-cases, ◌<◌, true, false, none, [],
  ◌∷◌, arith, ok, err, ◌==◌, eq_iff, ◌≤◌, ◌+◌, if◌then◌else◌, is_some, elem,
}
use daisy_workflow.Js.{str, nat, obj, end, is_inherited}
use daisy_workflow.Dsl.Graph.{parents}
use daisy_workflow.Dsl.Workflow.{absent, number, Node, Workflow, terminate}
use daisy_workflow.Dsl.Parser.{RawWorkflow, nothing, parse_dag}
use daisy_workflow.Dsl.Parser.Acyclic.{IsRanked}
use daisy_workflow.Engine.Limits.{
  Env, resolve_max_retries, resolve_node_timeout_ms, non_negative_int, parse_duration_ms,
}
use daisy_workflow.Engine.Executor.State.{State, Evaluator, Reply, answers}
use daisy_workflow.Engine.Executor.Nodes.{has_status, attempt_from, with_timeout}
use daisy_workflow.Engine.Executor.Schedule.{
  Setup, Options, completed, Run, ended, threw, edges_of, node_names, execute_dag, fresh,
  has_result,
}
use daisy_workflow.Engine.Executor.Rounds.{IsOrderly}
use daisy_workflow.Engine.Executor.Order.{execute_dag-IsOrderly, execute_dag-recorded}
use daisy_workflow.Engine.Executor.Unrun.{execute_dag-is_inherited}
use daisy_workflow.Engine.Executor.Completion.{is_done, execute_dag-completed}
use daisy_workflow.Engine.Executor.Parsed.{parse_dag-execute_dag}
use daisy_workflow.Engine.Executor.Attempts.{IsAttempted, attempts_of-IsAttempted}

abbrev plain : String → Node
plain x = record {
  name = x;
  action = "http";
  inputs = [];
  outputs = [];
  execute_if = "";
  retry = nat 2;
  timeout = absent;
  on_error = terminate;
  batch_over = "";
  output_var = "result";
}

-- "b" comes after "a" and is skipped.
abbrev chain : Workflow
chain = record {
  name = "chain";
  vars = [];
  timeout = absent;
  node_timeout = number (nat 100);
  max_iterations = absent;
  max_tokens = absent;
  nodes = plain "a" ∷ record (plain "b") { execute_if = "no" } ∷ [];
  edges = record { from = "a"; to = "b" } ∷ [];
}

abbrev empty_env : Env
empty_env = record {
  default_node_timeout = absent;
  default_workflow_timeout = absent;
  max_retries = absent;
  max_iterations = absent;
  max_tokens = absent;
}

-- Every plugin answers its node's name at once, after one failure of "a".
abbrev replies : String → ℕ → ℕ → Reply
replies x i zero = answers (ok (str x))
replies x i (suc zero) = if x == "a" then answers (err "busy") else answers (ok (str x))
replies x i (suc (suc k)) = answers (ok (str x))

abbrev evaluator : Evaluator
evaluator = record { resolve = λ v c. ok v; eval_condition = λ t c. ok false }

abbrev setup : Setup
setup = record {
  ev = evaluator;
  env = empty_env;
  registry = λ _. none;
  world = record { reply = replies; first_failure = λ _. 0; order = λ i. 1 ∷ [] };
  workflow = chain;
  overrides = λ _. none;
}

abbrev nothing_given : Options
nothing_given = record { initial_data = []; initial_states = [] }

abbrev state_of : Run → State
state_of threw = fresh chain []
state_of (ended o s) = s

abbrev final : State
unfolding execute_dag parents resolve_max_retries non_negative_int has_result is_inherited elem
final = state_of (execute_dag setup nothing_given)

chain_runs : execute_dag setup nothing_given ≡ ended completed final
unfolding execute_dag parents resolve_max_retries non_negative_int has_result is_inherited elem
chain_runs = refl

execute_dag-IsOrderly_example : IsOrderly setup final.results
execute_dag-IsOrderly_example =
    execute_dag-IsOrderly setup nothing_given completed final refl chain_runs

execute_dag-recorded_example : is_some (final.results "b") ≡ true
unfolding elem node_names is_inherited
execute_dag-recorded_example =
    execute_dag-recorded setup nothing_given completed final "b" tt chain_runs refl refl

abbrev rank : String → ℕ
rank x = if x == "b" then 1 else 0

chain-IsRanked : IsRanked rank (edges_of setup)
unfolding parents elem
chain-IsRanked p c h = elim (Bool-cases ("b" == c)) [
  | inl into ↦ below (rw (into, if◌then◌else◌) at h) ((eq_iff "b" c).0 into)
  | inr other ↦ absurd (cc (rw (other, if◌then◌else◌) at h))
]
  where
    below : elem p ("a" ∷ []) ≡ true → "b" ≡ c → rank p < rank c
    below at same =
        subst (λ x. rank p < rank x) same
          (subst (λ x. rank x < rank "b") ((eq_iff "a" p).0 (ground arith)) (omega arith))

execute_dag-completed_example : has_status is_done (final.results "b") ≡ true
unfolding elem node_names is_inherited
execute_dag-completed_example =
    execute_dag-completed setup nothing_given final rank "b" ((refl, refl), tt) chain-IsRanked
      (refl, (refl, tt)) refl chain_runs refl

attempts_of-IsAttempted_example :
    IsAttempted (replies "a" 0) "a" 100 1 2 (ok (str "a")) 2 × (2 ≤ 1 + 10)
unfolding attempt_from with_timeout resolve_max_retries non_negative_int resolve_node_timeout_ms
    parse_duration_ms
attempts_of-IsAttempted_example =
    attempts_of-IsAttempted empty_env chain (λ _. none) setup.world (plain "a") 0

-- A node named like an inherited property counts as done: it does not run and gets no result, and
-- the run is reported as completed.
abbrev lost : Setup
lost = record setup { workflow = record chain { nodes = plain "constructor" ∷ []; edges = [] } }

abbrev lost_final : State
unfolding execute_dag parents has_result is_inherited elem
lost_final = state_of (execute_dag lost nothing_given)

lost_runs : execute_dag lost nothing_given ≡ ended completed lost_final
unfolding execute_dag parents has_result is_inherited elem
lost_runs = refl

execute_dag-is_inherited_example : lost_final.results "constructor" ≡ none
unfolding is_inherited elem
execute_dag-is_inherited_example =
    execute_dag-is_inherited lost nothing_given completed lost_final "constructor" refl lost_runs
      refl

-- The text "{}" stands for the chain, before its inputs are normalised.
abbrev raw_chain : RawWorkflow
raw_chain = record {
  workflow = chain;
  raw_nodes =
      record { node = plain "a"; raw_inputs = nothing; raw_outputs = nothing }
      ∷ record {
        node = record (plain "b") { execute_if = "no" };
        raw_inputs = nothing;
        raw_outputs = nothing;
      }
      ∷ [];
}

parse_dag-execute_dag_example : has_status is_done (final.results "b") ≡ true
unfolding parse_dag elem is_inherited
parse_dag-execute_dag_example =
    parse_dag-execute_dag (λ t. some (obj end)) (λ v. some raw_chain) (λ a. none) "{}" setup
      nothing_given final "b" refl (refl, (refl, tt)) refl chain_runs refl
