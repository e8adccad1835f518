-- ===== src/Api/Executions/Tests.antt =====
-- A run with one failed and one waiting node.
use daisy_workflow.Common.{
  ℕ, ◌≡◌, refl, String, ◌&&◌, none, some, is_some, [], ◌∷◌, ◌++◌, ◌==◌, if◌then◌else◌, ok, err,
}
use daisy_workflow.Js.{str, null}
use daisy_workflow.Engine.NodeStates.{Row, Table, reset_node_for_replay}
use daisy_workflow.Api.Executions.{
  Execution, QueueJob, Store, User, in_flight, is_own, may_edit, select, restart, first_failed,
  node_to_reset, resume, skip, respond, by_resume,
}
use daisy_workflow.Api.Executions.Restarts.{is_ok, awaits_answer, respond_iff, perform-excludes}
use daisy_workflow.Api.Executions.Replays.{IsResumed}
use daisy_workflow.Api.Executions.Resuming.{resume-IsResumed}

abbrev row : String → ℕ → Row
row status time = record {
  status = status;
  attempts = some 1;
  resolved_inputs = none;
  output = none;
  error = none;
  reason = none;
  started_at = some 1;
  finished_at = some time;
}

abbrev table : Table
table e n =
    if n == "mail"
    then some (row "failed" 4)
    else if n == "ask"
    then some (row "waiting" 5)
    else none

abbrev user : User
user = record { role = "editor"; workspace_id = "w"; project_id = "p" }

abbrev run : Execution
run = record {
  id = "x";
  graph_id = "g";
  workspace_id = "w";
  project_id = "p";
  status = "failed";
  error = some "mail";
  finished_at = some 5;
}

abbrev store : Store
store = record {
  executions = run ∷ [];
  node_states = table;
  row_names = λ e. "ask" ∷ "mail" ∷ [];
  queue = [];
}

abbrev after_resume : Store
after_resume = restart run "x" none (reset_node_for_replay "x" "mail" "pending" table) store

resumed : resume user "x" "" null store ≡ ok after_resume
unfolding resume select node_to_reset first_failed
resumed = refl

resume-IsResumed_example : IsResumed user "x" "" null store after_resume
resume-IsResumed_example = resume-IsResumed user "x" "" null store after_resume resumed

respond_iff_example : is_ok (respond (λ n. "now") 7 user "x" "ask" (str "yes") store) ≡ (
    may_edit user
    && (is_some (select (is_own user "x") (run ∷ [])) && awaits_answer (table "x" "ask")))
respond_iff_example = respond_iff (λ n. "now") 7 user "x" "ask" (str "yes") store

perform-excludes_example :
    ((job : QueueJob) × (after_resume.queue ≡ [] ++ job ∷ []) × (job.execution_id ≡ "x"))
    × (resume user "x" "mail" null after_resume ≡ err (in_flight "queued"))
    × (skip user "x" "mail" after_resume ≡ err (in_flight "queued"))
perform-excludes_example =
    perform-excludes (λ n. "now") 7 user "x" (by_resume "" null) store after_resume "mail" null
      resumed
