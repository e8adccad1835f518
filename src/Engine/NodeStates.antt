-- ===== src/Engine/NodeStates.antt =====
-- backend/src/engine/nodeStateStore.js: the durable state of the nodes. The table node_states is a
-- function of the execution and the node, the table executions a list, and a column that is NULL is
-- `none`. Callers of the upsert always give a status.
pub mod Lifecycle
pub mod Reaping
mod Tests
use daisy_workflow.Common.{
  ℕ, String, Bool, true, false, not, ◌&&◌, ◌||◌, Option, none, some, List, [], ◌∷◌, ◌==◌, or_else,
  if◌then◌else◌, elem,
}
use daisy_workflow.Js.{Value, undefined, null}

pub record Row : Type 0 where
  pub status : String
  pub attempts : Option ℕ
  pub resolved_inputs : Option Value
  pub output : Option Value
  pub error : Option String
  pub reason : Option String
  pub started_at : Option ℕ
  pub finished_at : Option ℕ

-- One lifecycle write: what the executor hands to the hook.
pub record Partial : Type 0 where
  pub status : String
  pub attempts : Option ℕ
  pub resolved_inputs : Value
  pub output : Value
  pub error : Option String
  pub reason : Option String
  pub started_at : Option ℕ
  pub finished_at : Option ℕ

abbrev pub Table : Type 0
Table = String → String → Option Row

-- `partial.resolvedInputs !== undefined ? … : null`
abbrev pub defined : Value → Option Value
defined undefined = none
defined v = some v

-- `partial.output !== undefined && partial.output !== null ? … : null`
abbrev pub present : Value → Option Value
present undefined = none
present null = none
present v = some v

-- The row that is inserted.
unfoldable pub inserted : Partial → Row
inserted p = record {
  status = p.status;
  attempts = p.attempts;
  resolved_inputs = defined p.resolved_inputs;
  output = present p.output;
  error = p.error;
  reason = p.reason;
  started_at = p.started_at;
  finished_at = p.finished_at;
}

-- `ON CONFLICT … DO UPDATE`: the new value where there is one, but the old start.
unfoldable pub merged : Row → Row → Row
merged old new = record {
  status = new.status;
  attempts = or_else new.attempts old.attempts;
  resolved_inputs = or_else new.resolved_inputs old.resolved_inputs;
  output = or_else new.output old.output;
  error = or_else new.error old.error;
  reason = or_else new.reason old.reason;
  started_at = or_else old.started_at new.started_at;
  finished_at = or_else new.finished_at old.finished_at;
}

abbrev pub on_conflict : Option Row → Row → Row
on_conflict none new = new
on_conflict (some old) new = merged old new

abbrev pub write : String → String → Row → Table → Table
write execution node row t e n = if execution == e && node == n then some row else t e n

unfoldable pub upsert_node_state : String → String → Partial → Table → Table
unfolding inserted merged
upsert_node_state execution node p t =
    if execution == "" || node == ""
    then t
    else write execution node (on_conflict (t execution node) (inserted p)) t

-- The columns that a resumed run gets.
unfoldable pub load_node_state : Row → Partial
load_node_state r = record {
  status = r.status;
  attempts = r.attempts;
  resolved_inputs = undefined;
  output = elim (r.output) [ none ↦ null | some v ↦ v ];
  error = r.error;
  reason = r.reason;
  started_at = r.started_at;
  finished_at = r.finished_at;
}

unfoldable pub load_node_states : String → Table → String → Option Partial
unfolding load_node_state
load_node_states execution t n = elim (t execution n) [
  | none ↦ none
  | some r ↦ some (load_node_state r)
]

unfoldable pub reset_row : String → Row → Row
reset_row target r = record r {
  status = target;
  output = none;
  error = none;
  reason = if target == "skipped" then some "skipped via resume" else none;
  finished_at = none;
}

abbrev pub reset_found : String → Option Row → Option Row
reset_found target none = none
reset_found target (some r) = some (reset_row target r)

unfoldable pub reset_node_for_replay : String → String → String → Table → Table
unfolding reset_row
reset_node_for_replay execution node target t e n =
    if execution == e && node == n then reset_found target (t e n) else t e n

pub record Execution : Type 0 where
  pub id : String
  pub status : String
  pub error : Option String
  pub finished_at : Option ℕ

-- The rows that the first UPDATE of `reapOrphanedExecutions` takes.
abbrev pub is_orphan : List String → Execution → Bool
is_orphan active x = x.status == "running" && not (elem x.id active)

unfoldable pub reap_executions : List String → ℕ → List Execution → List Execution
unfolding elem
reap_executions active now [] = []
reap_executions active now (x ∷ xs) =
    let later = reap_executions active now xs in
    (if is_orphan active x
      then record x {
        status = "failed";
        finished_at = some now;
        error = or_else x.error (some "worker crashed before completion (auto-reaped on boot)");
      }
      else x)
    ∷ later

-- `RETURNING id`
unfoldable pub reaped_ids : List String → List Execution → List String
unfolding elem
reaped_ids active [] = []
reaped_ids active (x ∷ xs) =
    let later = reaped_ids active xs in if is_orphan active x then x.id ∷ later else later

unfoldable pub reap_row : ℕ → Row → Row
reap_row now r = record r {
  status = "failed";
  error = or_else r.error (some "worker crashed mid-node");
  finished_at = some now;
}

abbrev pub reap_found : List String → ℕ → String → Option Row → Option Row
reap_found ids now e none = none
reap_found ids now e (some r) =
    if r.status == "running" && elem e ids then some (reap_row now r) else some r

unfoldable pub reap_nodes : List String → ℕ → Table → Table
unfolding reap_row elem
reap_nodes ids now t e n = reap_found ids now e (t e n)

unfoldable pub reap_orphaned_executions :
    List String → ℕ → List Execution × Table → (List Execution × Table) × List String
unfolding reap_executions reaped_ids reap_nodes
reap_orphaned_executions active now (xs, t) =
    let ids = reaped_ids active xs in ((reap_executions active now xs, reap_nodes ids now t), ids)
