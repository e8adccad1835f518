-- ===== src/Engine/NodeStates/Tests.antt =====
-- A node that runs, fails, is reset and runs again.
use daisy_workflow.Common.{
  ◌≡◌, refl, true, false, not, ◌&&◌, none, some, List, [], ◌∷◌, map, all, elem,
}
use daisy_workflow.Js.{undefined, str}
use daisy_workflow.Engine.NodeStates.{
  Row, Partial, Table, Execution, inserted, is_orphan, reset_node_for_replay,
  reap_orphaned_executions,
}
use daisy_workflow.Engine.NodeStates.Lifecycle.{
  summary, upsert_all, upsert_all-summary, reset_node_for_replay-upsert_all,
}
use daisy_workflow.Engine.NodeStates.Reaping.{
  is_running, reap_orphaned_executions-settled, reap_orphaned_executions-spares,
}

abbrev starts : Partial
starts = record {
  status = "running";
  attempts = none;
  resolved_inputs = str "in";
  output = undefined;
  error = none;
  reason = none;
  started_at = some 1;
  finished_at = none;
}

abbrev fails : Partial
fails = record starts {
  status = "failed";
  attempts = some 3;
  resolved_inputs = undefined;
  error = some "busy";
  started_at = some 2;
  finished_at = some 5;
}

abbrev no_rows : Table
no_rows e n = none

abbrev one_row : Table
one_row e n = some (inserted fails)

abbrev executions : List Execution
executions =
    record { id = "x"; status = "running"; error = none; finished_at = none }
    ∷ record { id = "y"; status = "running"; error = none; finished_at = none }
    ∷ []

upsert_all-summary_example :
    upsert_all "x" "a" (starts ∷ fails ∷ []) no_rows "x" "a"
    ≡ some (summary (inserted starts) (fails ∷ []))
upsert_all-summary_example = upsert_all-summary "x" "a" starts (fails ∷ []) no_rows refl refl

reset_node_for_replay-upsert_all_example :
    (row : Row) × (upsert_all "x" "a"
        (starts ∷ [])
        (reset_node_for_replay "x" "a" "pending" one_row)
        "x"
        "a"
      ≡ some row)
    × (row.output ≡ none)
    × (row.error ≡ none)
    × (row.finished_at ≡ none)
    × (row.started_at ≡ some 2)
unfolding inserted
reset_node_for_replay-upsert_all_example =
    reset_node_for_replay-upsert_all "x" "a" "pending" (starts ∷ []) one_row (inserted fails) refl
      refl

reap_orphaned_executions-settled_example :
    (all
        (λ x. not (is_orphan ("y" ∷ []) x))
        (reap_orphaned_executions ("y" ∷ []) 9 (executions, one_row)).0.0
      ≡ true)
    × (map (λ x. x.id) (reap_orphaned_executions ("y" ∷ []) 9 (executions, one_row)).0.0
        ≡ "x" ∷ "y" ∷ [])
    × ((elem "x" (reap_orphaned_executions ("y" ∷ []) 9 (executions, one_row)).1
          && is_running ((reap_orphaned_executions ("y" ∷ []) 9 (executions, one_row)).0.1 "x" "a"))
        ≡ false)
reap_orphaned_executions-settled_example =
    reap_orphaned_executions-settled ("y" ∷ []) 9 executions one_row "x" "a"

reap_orphaned_executions-spares_example :
    (reap_orphaned_executions ("y" ∷ []) 9 (executions, one_row)).0.1 "y" "a" ≡ one_row "y" "a"
unfolding elem
reap_orphaned_executions-spares_example =
    reap_orphaned_executions-spares ("y" ∷ []) 9 executions one_row "y" "a" refl
