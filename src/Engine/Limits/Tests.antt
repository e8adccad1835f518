-- ===== src/Engine/Limits/Tests.antt =====
-- Examples of durations, layered limits and token budgets.
use daisy_workflow.Common.{ℕ, ◌+◌, ◌^◌, ◌≤◌, true, [], ◌∷◌, some, ◌≡◌, ◌↔◌, refl, arith}
use daisy_workflow.Js.{nat, neg, codes}
use daisy_workflow.Dsl.Workflow.{absent, number, text, Node, Workflow, continue}
use daisy_workflow.Engine.Limits.{
  Env, parse_duration_ms, resolve_node_timeout_ms, resolve_max_tokens, non_negative_int,
  int32_or_zero, to_double,
}
use daisy_workflow.Engine.Limits.Durations.{parse_duration_ms-written, seconds}
use daisy_workflow.Engine.Limits.Budgets.{charge_all, charge_all_iff}

abbrev blank_env : Env
blank_env = record {
  default_node_timeout = text [];
  default_workflow_timeout = absent;
  max_retries = absent;
  max_iterations = absent;
  max_tokens = absent;
}

abbrev node : Node
node = record {
  name = "a";
  action = "http";
  inputs = [];
  outputs = [];
  execute_if = "";
  retry = nat 0;
  timeout = absent;
  on_error = continue;
  batch_over = "";
  output_var = "";
}

abbrev budget : ℕ → Workflow
budget n = record {
  name = "w";
  vars = [];
  timeout = absent;
  node_timeout = absent;
  max_iterations = absent;
  max_tokens = number (nat n);
  nodes = node ∷ [];
  edges = [];
}

parse_duration_ms-written_example : parse_duration_ms (text (b'9' ∷ b'0' ∷ b's' ∷ [])) ≡ some 90_000
parse_duration_ms-written_example =
    parse_duration_ms-written b'9' (b'0' ∷ []) seconds (refl, (refl, tt)) (omega arith)

-- An environment variable that is set to the empty text leaves the timeout of one minute.
blank_timeout : resolve_node_timeout_ms blank_env node (budget 10) ≡ 60_000
unfolding resolve_node_timeout_ms parse_duration_ms
blank_timeout = refl

-- 2 ^ 53 + 1 is no double.
rounded : to_double (2 ^ 53 + 1) ≡ 2 ^ 53
unfolding to_double
rounded = refl

rounded_up : parse_duration_ms (text (codes "9007199254740995")) ≡ some 9_007_199_254_740_996
unfolding parse_duration_ms to_double
rounded_up = refl

charge_all_iff_example :
    (charge_all blank_env (budget 10) 1 (nat 4 ∷ neg 3 ∷ nat 5 ∷ []) ≡ (10, true)) ↔ (10 ≤ 10)
unfolding resolve_max_tokens non_negative_int int32_or_zero
charge_all_iff_example =
    charge_all_iff blank_env (budget 10) 1 (nat 4 ∷ neg 3 ∷ nat 5 ∷ []) (omega arith) (omega arith)
