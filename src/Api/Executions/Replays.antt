-- ===== src/Api/Executions/Replays.antt =====
-- The specification of resume, and the rows it selects.
use daisy_workflow.Common.{
  ◌≡◌, refl, sym, ap, subst, ◌∙◌, String, Bool, true, false, not, ◌&&◌, ◌||◌, Bool-cases, inl, inr,
  Option, none, some, List, [], ◌∷◌, ◌++◌, ◌==◌, if◌then◌else◌, eq_iff,
}
use daisy_workflow.Js.{Value}
use daisy_workflow.Engine.NodeStates.{Row}
use daisy_workflow.Api.Executions.{
  may_edit, Execution, Store, User, is_own, select, is_in_flight, set_queued, is_object,
}
use daisy_workflow.Api.Executions.Choice.{is_chosen}

-- What `resume` leaves in the row of the node that it puts back.
abbrev pub replay_row : Bool → Value → Option Row → Option Row
replay_row false inputs none = none
replay_row true inputs none = some (record {
  status = "pending";
  attempts = none;
  resolved_inputs = some inputs;
  output = none;
  error = none;
  reason = none;
  started_at = none;
  finished_at = none;
})
replay_row given inputs (some r) = some (record r {
  status = "pending";
  resolved_inputs = if given then some inputs else r.resolved_inputs;
  output = none;
  error = none;
  reason = none;
  finished_at = none;
})

-- The execution with this identifier.
abbrev pub execution_of : String → Store → Option Execution
execution_of id s = select (λ e. e.id == id) s.executions

abbrev pub put_in_queue : Option Execution → Option Execution
put_in_queue none = none
put_in_queue (some e) = some (record e { status = "queued"; error = none; finished_at = none })

-- A run that was resumed: it was the user's and not in flight, the node that is put back is the one
-- that was named or that failed first, and nothing else changes but the status and the queue.
pub record IsResumed (user : User) (id node : String) (inputs : Value) (s t : Store) : Type 0 where
  pub permitted : may_edit user ≡ true
  pub execution : Execution
  pub own : select (is_own user id) s.executions ≡ some execution
  pub idle : is_in_flight execution ≡ false
  pub target : String
  pub target_is : is_chosen node (s.node_states id) (s.row_names id) target ≡ true
  pub executions_are :
      (x : String)
      → execution_of x t ≡ (if id == x then put_in_queue (execution_of x s) else execution_of x s)
  pub queue_is :
      t.queue
      ≡ s.queue
        ++ record {
          execution_id = id;
          graph_id = execution.graph_id;
          inputs_override = if is_object inputs then some (target, inputs) else none;
        }
          ∷ []
  pub rows_are :
      (x n : String)
      → t.node_states x n ≡ (
          if id == x && target == n
          then replay_row
              (is_object inputs && not (id == "" || target == ""))
              inputs
              (s.node_states id target)
          else s.node_states x n)

select-set_queued_self :
    (x : String) (es : List Execution)
    → select (λ d. d.id == x) (set_queued x es) ≡ put_in_queue (select (λ d. d.id == x) es)
unfolding select set_queued
select-set_queued_self x [] = refl
select-set_queued_self x (e ∷ es) = elim (Bool-cases (e.id == x)) [
  | inl q ↦ rw (q, q) refl
  | inr q ↦ rw (q, q) (select-set_queued_self x es)
]

select-set_queued_other :
    (id x : String) (es : List Execution)
    → (id == x) ≡ false
    → select (λ d. d.id == x) (set_queued id es) ≡ select (λ d. d.id == x) es
unfolding select set_queued
select-set_queued_other id x [] k = refl
select-set_queued_other id x (e ∷ es) k = elim (Bool-cases (e.id == id)) [
  | inl q ↦
      let other : (e.id == x) ≡ false = ap (λ (t : String). t == x) ((eq_iff e.id id).0 q) ∙ k in
      rw (q, other) (select-set_queued_other id x es k)
  | inr q ↦ rw q (elim (Bool-cases (e.id == x)) [
    | inl w ↦ rw w refl
    | inr w ↦ rw w (select-set_queued_other id x es k)
  ])
]

pub select-set_queued :
    (id x : String) (es : List Execution)
    → select (λ e. e.id == x) (set_queued id es)
      ≡ (if id == x then put_in_queue (select (λ e. e.id == x) es) else select (λ e. e.id == x) es)
select-set_queued id x es = elim (Bool-cases (id == x)) [
  | inl k ↦ rw k (
      subst
        (λ (y : String).
          select (λ e. e.id == x) (set_queued y es) ≡ put_in_queue (select (λ e. e.id == x) es))
        (sym ((eq_iff id x).0 k)) (select-set_queued_self x es))
  | inr k ↦ rw k (select-set_queued_other id x es k)
]
