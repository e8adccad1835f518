-- ===== src/Api/Executions/Resuming.antt =====
-- What a resume leaves: the node that is put back, the queue, and all other rows as they were.
use daisy_workflow.Common.{
  ℕ, ◌≡◌, refl, sym, ap, ◌∙◌, String, Bool, true, false, not, ◌&&◌, ◌||◌, Bool-cases, inl, inr,
  Option, none, some, or_else, ◌==◌, if◌then◌else◌, arith, eq_refl, eq_iff, ok, guard, >>=-eq-ok,
  >>-eq-ok, guard-eq-ok,
}
use daisy_workflow.Js.{Value, undefined, obj, arr, str, num, bool, null}
use daisy_workflow.Engine.NodeStates.{
  Row, Table, upsert_node_state, reset_node_for_replay, reset_row, reset_found, on_conflict,
  defined, inserted, merged,
}
use daisy_workflow.Api.Executions.{
  may_edit, require_editor, forbidden, Store, User, Refusal, in_flight, is_own, select, found,
  is_in_flight, node_to_reset, is_object, partial_of, replayed, resume,
}
use daisy_workflow.Api.Executions.Choice.{node_to_reset-is_chosen}
use daisy_workflow.Api.Executions.Restarts.{found-ok, ok_injective}
use daisy_workflow.Api.Executions.Replays.{IsResumed, replay_row, execution_of, select-set_queued}

reset_found-replay_row :
    (inputs : Value) (o : Option Row) → reset_found "pending" o ≡ replay_row false inputs o
unfolding reset_row
reset_found-replay_row inputs none = refl
reset_found-replay_row inputs (some r) = refl

defined-object : (inputs : Value) → is_object inputs ≡ true → defined inputs ≡ some inputs
defined-object (obj fs) h = refl
defined-object (arr xs) h = refl
defined-object (str x) h = cc
defined-object (num x) h = cc
defined-object (bool x) h = cc
defined-object null h = cc
defined-object undefined h = cc

or_else-none : (o : Option ℕ) → or_else o none ≡ o
or_else-none none = refl
or_else-none (some n) = refl

on_conflict-replay_row :
    (inputs : Value) (o : Option Row)
    → is_object inputs ≡ true
    → some (
        on_conflict
          (reset_found "pending" o)
          (inserted (partial_of "pending" inputs undefined none)))
      ≡ replay_row true inputs o
unfolding reset_row inserted merged
on_conflict-replay_row inputs none h = rw (defined-object inputs h) refl
on_conflict-replay_row inputs (some r) h =
    rw (defined-object inputs h, or_else-none r.started_at) refl

-- The row at the node and the rows elsewhere.
at_node :
    (id node x n : String) (t : Table) (o : Option Row)
    → (id == x && node == n) ≡ true
    → t x n ≡ t id node
at_node id node x n t o h =
    rw ((eq_iff id x).0 (ground arith), (eq_iff node n).0 (ground arith)) refl

reset-replay_row :
    (id node : String) (inputs : Value) (t : Table) (x n : String)
    → reset_node_for_replay id node "pending" t x n
      ≡ (if id == x && node == n then replay_row false inputs (t id node) else t x n)
unfolding reset_node_for_replay
reset-replay_row id node inputs t x n = elim (Bool-cases (id == x && node == n)) [
  | inl e ↦ rw (e, at_node id node x n t none e) (reset_found-replay_row inputs (t id node))
  | inr e ↦ rw e refl
]

upsert-replay_row :
    (id node : String) (inputs : Value) (t : Table) (x n : String)
    → is_object inputs ≡ true
    → upsert_node_state id node
        (partial_of "pending" inputs undefined none)
        (reset_node_for_replay id node "pending" t)
        x
        n
      ≡ (if id == x && node == n
          then replay_row (not (id == "" || node == "")) inputs (t id node)
          else t x n)
unfolding upsert_node_state
upsert-replay_row id node inputs t x n h = elim (Bool-cases (id == "" || node == "")) [
  | inl e ↦ rw e (reset-replay_row id node inputs t x n)
  | inr e ↦ rw e (elim (Bool-cases (id == x && node == n)) [
    | inl k ↦
        rw (k, reset-replay_row id node inputs t id node, eq_refl id, eq_refl node)
          (rw (reset_found-replay_row inputs (t id node)) at
            (on_conflict-replay_row inputs (t id node) h))
    | inr k ↦ rw (k, reset-replay_row id node inputs t x n, k) refl
  ])
]

replayed-replay_row :
    (id node : String) (inputs : Value) (t : Table) (x n : String)
    → replayed id node inputs t x n ≡ (
        if id == x && node == n
        then replay_row (is_object inputs && not (id == "" || node == "")) inputs (t id node)
        else t x n)
replayed-replay_row id node inputs t x n = elim (Bool-cases (is_object inputs)) [
  | inl e ↦ rw e (upsert-replay_row id node inputs t x n e)
  | inr e ↦ rw e (reset-replay_row id node inputs t x n)
]

idle_of : (b : Bool) (why : Refusal) → guard (not b) why ≡ ok tt → b ≡ false
idle_of b why h = ground (arith, guard-eq-ok (not b) why h)

-- A run is resumed only for an admin or an editor. It is in the user's project and was neither
-- running nor queued. Of the executions
-- only this one changes: it is queued, its error and end forgotten. The queue has one job more, in
-- which inputs that are an object or an array stand for the node that is put back. That node is the
-- one that is named, or else one that failed and before which none failed; its row, if it has one,
-- becomes pending with its output, error, reason and end forgotten and with the given inputs; if it
-- has none, it gets one only where such inputs are given and no key is empty. Every other node's row
-- is as before.
pub resume-IsResumed :
    (user : User) (id node : String) (inputs : Value) (s t : Store)
    → resume user id node inputs s ≡ ok t
    → IsResumed user id node inputs s t
unfolding resume
resume-IsResumed user id node inputs s t h =
    let role = >>-eq-ok (require_editor user) _ h in
    let first = >>=-eq-ok (found (select (is_own user id) s.executions)) _ role.1 in
    let e = first.0 in
    let second = >>-eq-ok (guard (not (is_in_flight e)) (in_flight e.status)) _ first.2 in
    let third = >>=-eq-ok (node_to_reset id node s) _ second.1 in
    let done = ok_injective third.2 in
    record {
      permitted = guard-eq-ok (may_edit user) (forbidden user.role) role.0;
      execution = e;
      own = found-ok (select (is_own user id) s.executions) e first.1;
      idle = idle_of (is_in_flight e) (in_flight e.status) second.0;
      target = third.0;
      target_is = node_to_reset-is_chosen id node third.0 s third.1;
      executions_are = λ x.
          sym (ap (λ (y : Store). execution_of x y) done) ∙ select-set_queued id x s.executions;
      queue_is = sym (ap (λ (y : Store). y.queue) done);
      rows_are = λ x n.
          sym (ap (λ (y : Store). y.node_states x n) done)
          ∙ replayed-replay_row id third.0 inputs s.node_states x n;
    }
