-- ===== src/Api/Executions.antt =====
-- The routes that take up an execution again: resume, skip, respond and delete of
-- backend/src/api/executions.js. A request is refused before anything is written, so a handler
-- gives the refusal or what it leaves. The queue's jobs are those of backend/src/queue/queue.js.
pub mod Restarts
pub mod Choice
pub mod Replays
pub mod Resuming
mod Tests
use daisy_workflow.Common.{
  ℕ, String, Bool, true, false, not, ◌&&◌, ◌||◌, Option, none, some, List, [], ◌∷◌, ◌++◌, ◌==◌, leb,
  if◌then◌else◌, keep, Result, ok, err, ◌>>=◌, ◌>>◌, guard, any, get_or_else,
}
use daisy_workflow.Js.{Value, Fields, obj, arr, str, undefined, field, end, own}
use daisy_workflow.Engine.NodeStates.{Row, Table, Partial, upsert_node_state, reset_node_for_replay}

-- A row of `executions`.
pub record Execution : Type 0 where
  pub id : String
  pub graph_id : String
  pub workspace_id : String
  pub project_id : String
  pub status : String
  pub error : Option String
  pub finished_at : Option ℕ

-- The payload of a job; no override of inputs is `none`.
pub record QueueJob : Type 0 where
  pub execution_id : String
  pub graph_id : String
  pub inputs_override : Option (String × Value)

-- `row_names` are the nodes of an execution that have a row.
pub record Store : Type 0 where
  pub executions : List Execution
  pub node_states : Table
  pub row_names : String → List String
  pub queue : List QueueJob

-- The user of a request: the role, and the project that the request acts in.
pub record User : Type 0 where
  pub role : String
  pub workspace_id : String
  pub project_id : String

pub data Refusal : Type 0 where
  forbidden : String → Refusal
  no_execution : Refusal
  no_node : String → Refusal
  in_flight : String → Refusal
  no_failed_node : Refusal
  node_required : Refusal
  not_waiting : String → Refusal

-- `requireRole("admin", "editor")`, before the handler.
abbrev pub may_edit : User → Bool
may_edit user = user.role == "admin" || user.role == "editor"

abbrev pub require_editor : User → Result Refusal (Unit {0})
require_editor user = guard (may_edit user) (forbidden user.role)

-- `WHERE id=$1 AND workspace_id=$2 AND project_id=$3`
abbrev pub is_own : User → String → Execution → Bool
is_own user id e =
    e.id == id && (e.workspace_id == user.workspace_id && e.project_id == user.project_id)

unfoldable pub select : (Execution → Bool) → List Execution → Option Execution
select test [] = none
select test (e ∷ es) = if test e then some e else select test es

abbrev pub found : Option Execution → Result Refusal Execution
found none = err no_execution
found (some e) = ok e

abbrev pub is_in_flight : Execution → Bool
is_in_flight e = e.status == "running" || e.status == "queued"

-- `UPDATE executions SET status='queued', error=NULL, finished_at=NULL WHERE id=$1`
abbrev pub queued : Execution → Execution
queued e = record e { status = "queued"; error = none; finished_at = none }

unfoldable pub set_queued : String → List Execution → List Execution
set_queued id [] = []
set_queued id (e ∷ es) = (if e.id == id then queued e else e) ∷ set_queued id es

-- The execution is queued again, with a job for it.
abbrev pub restart : Execution → String → Option (String × Value) → Table → Store → Store
restart e id override states s = record s {
  executions = set_queued id s.executions;
  node_states = states;
  queue =
      s.queue
      ++ record { execution_id = id; graph_id = e.graph_id; inputs_override = override } ∷ [];
}

-- Does the first come before the second in `ORDER BY finished_at ASC`? NULL comes last.
abbrev pub is_earlier : Option ℕ → Option ℕ → Bool
is_earlier none b = false
is_earlier (some a) none = true
is_earlier (some a) (some b) = not (leb b a)

abbrev pub earlier : String × Option ℕ → Option (String × Option ℕ) → Option (String × Option ℕ)
earlier n none = some n
earlier n (some m) = if is_earlier m.1 n.1 then some m else some n

abbrev pub failed_row :
    String → Option Row → Option (String × Option ℕ) → Option (String × Option ℕ)
failed_row name none later = later
failed_row name (some r) later =
    if r.status == "failed" then earlier (name, r.finished_at) later else later

-- `SELECT node_name ... status='failed' ORDER BY finished_at ASC LIMIT 1`
unfoldable pub first_failed : String → Table → List String → Option (String × Option ℕ)
first_failed id t [] = none
first_failed id t (n ∷ ns) = failed_row n (t id n) (first_failed id t ns)

abbrev pub named : Option (String × Option ℕ) → Result Refusal String
named none = err no_failed_node
named (some n) = ok n.0

-- The node that is replayed: the one that the request names, or the one that failed first.
unfoldable pub node_to_reset : String → String → Store → Result Refusal String
unfolding first_failed
node_to_reset id node s =
    if node == "" then named (first_failed id s.node_states (s.row_names id)) else ok node

-- `inputs && typeof inputs === "object"`
abbrev pub is_object : Value → Bool
is_object (obj fs) = true
is_object (arr xs) = true
is_object _ = false

abbrev pub partial_of : String → Value → Value → Option ℕ → Partial
partial_of status inputs output finished = record {
  status = status;
  attempts = none;
  resolved_inputs = inputs;
  output = output;
  error = none;
  reason = none;
  started_at = none;
  finished_at = finished;
}

-- The node's row after a replay is asked for.
abbrev pub replayed : String → String → Value → Table → Table
replayed id node inputs t =
    let reset = reset_node_for_replay id node "pending" t in
    if is_object inputs
    then upsert_node_state id node (partial_of "pending" inputs undefined none) reset
    else reset

abbrev pub override_of : String → Value → Option (String × Value)
override_of node inputs = if is_object inputs then some (node, inputs) else none

-- `POST /executions/:id/resume`; a body with no node has the empty one.
unfoldable pub resume : User → String → String → Value → Store → Result Refusal Store
unfolding select node_to_reset
resume user id node inputs s = do
  require_editor user
  e ← found (select (is_own user id) s.executions)
  guard (not (is_in_flight e)) (in_flight e.status)
  target ← node_to_reset id node s
  ok (restart e id (override_of target inputs) (replayed id target inputs s.node_states) s)

-- `POST /executions/:id/skip`
unfoldable pub skip : User → String → String → Store → Result Refusal Store
unfolding select
skip user id node s = do
  require_editor user
  guard (not (node == "")) node_required
  e ← found (select (is_own user id) s.executions)
  guard (not (is_in_flight e)) (in_flight e.status)
  ok (restart e id none (reset_node_for_replay id node "skipped" s.node_states) s)

abbrev pub node_row : String → Option Row → Result Refusal Row
node_row node none = err (no_node node)
node_row node (some r) = ok r

-- The answer in a body: its own `data`, or the whole of it.
abbrev pub data_of : Value → Value
data_of (obj fs) = get_or_else (own "data" fs) (obj fs)
data_of body = body

-- The output of a node that was answered.
abbrev pub response : Value → String → Value
response answer responded_at =
    obj (field "data" answer (field "respondedAt" (str responded_at) end))

-- `POST /executions/:id/nodes/:nodeName/respond`. `stamp` is the text of the time.
unfoldable pub respond :
    (ℕ → String) → ℕ → User → String → String → Value → Store → Result Refusal Store
unfolding select
respond stamp now user id node body s = do
  require_editor user
  e ← found (select (is_own user id) s.executions)
  r ← node_row node (s.node_states id node)
  guard (r.status == "waiting") (not_waiting r.status)
  let p = partial_of "success" undefined (response (data_of body) (stamp now)) (some now)
  ok (restart e id none (upsert_node_state id node p s.node_states) s)

-- The rows of the node states go with their execution.
abbrev pub without_rows : List Execution → Table → Table
without_rows gone t e n = if any (λ x. x.id == e) gone then none else t e n

-- `DELETE /executions/:id`
unfoldable pub delete : User → String → Store → Result Refusal Store
delete user id s =
    let gone = keep (is_own user id) s.executions in
    let deleted =
      (if any (is_own user id) s.executions
        then ok (record s {
          executions = keep (λ e. not (is_own user id e)) s.executions;
          node_states = without_rows gone s.node_states;
        })
        else err no_execution) in
    require_editor user >> deleted

-- A request that takes an execution up again.
pub data Restart : Type 0 where
  by_resume : String → Value → Restart
  by_skip : String → Restart
  by_respond : String → Value → Restart

abbrev pub perform : (ℕ → String) → ℕ → User → String → Restart → Store → Result Refusal Store
perform stamp now user id (by_resume node inputs) s = resume user id node inputs s
perform stamp now user id (by_skip node) s = skip user id node s
perform stamp now user id (by_respond node body) s = respond stamp now user id node body s
