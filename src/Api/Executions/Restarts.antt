-- ===== src/Api/Executions/Restarts.antt =====
-- What a restart does, and which restarts are refused.
use daisy_workflow.Common.{
  ℕ, ◌≡◌, refl, sym, ap, ◌∙◌, String, Bool, true, false, not, ◌&&◌, Bool-cases, inl, inr, Option,
  none, some, is_some, List, [], ◌∷◌, ◌++◌, ◌==◌, if◌then◌else◌, arith, Result, ok, err, ◌>>=◌,
  ◌>>◌, guard, >>=-eq-ok, >>-eq-ok, guard-eq-ok,
}
use daisy_workflow.Js.{Value, undefined}
use daisy_workflow.Engine.NodeStates.{Row, Table, upsert_node_state, reset_node_for_replay}
use daisy_workflow.Api.Executions.{
  Execution, QueueJob, Store, User, Refusal, in_flight, node_required, not_waiting, is_own, select,
  may_edit, require_editor, forbidden, found, is_in_flight, queued, set_queued, restart,
  node_to_reset, partial_of, replayed, override_of, resume, skip, node_row, data_of, response,
  respond, Restart, by_resume, by_skip, by_respond, perform,
}

abbrev requeued : Option Execution → Option Execution
requeued none = none
requeued (some e) = some (queued e)

select-set_queued :
    (user : User) (id : String) (es : List Execution)
    → select (is_own user id) (set_queued id es) ≡ requeued (select (is_own user id) es)
unfolding select set_queued
select-set_queued user id [] = refl
select-set_queued user id (e ∷ es) = elim (Bool-cases (e.id == id)) [
  | inl k ↦
      elim (Bool-cases (e.workspace_id == user.workspace_id && e.project_id == user.project_id)) [
        | inl o ↦ rw (k, k, o) refl
        | inr o ↦ rw (k, k, o) (select-set_queued user id es)
      ]
  | inr k ↦ rw (k, k) (select-set_queued user id es)
]

-- The queued execution is found, and in flight.
found-queued :
    (user : User) (id : String) (e : Execution) (s : Store) (override : Option (String × Value))
    (states : Table)
    → select (is_own user id) s.executions ≡ some e
    → select (is_own user id) (restart e id override states s).executions ≡ some (queued e)
found-queued user id e s override states h = select-set_queued user id s.executions ∙ ap requeued h

-- How a restart came about.
record Restarted (user : User) (id : String) (s t : Store) : Type 0 where
  permitted : may_edit user ≡ true
  execution : Execution
  own : select (is_own user id) s.executions ≡ some execution
  override : Option (String × Value)
  states : Table
  is_restart : t ≡ restart execution id override states s

pub found-ok : (o : Option Execution) (e : Execution) → found o ≡ ok e → o ≡ some e
found-ok none e h = cc
found-ok (some d) e h = cc

pub ok_injective : {s t : Store} → ◌≡◌ {A = Result Refusal Store} (ok s) (ok t) → s ≡ t
ok_injective h = cc

-- Is there a row of the node that waits for an answer?
abbrev pub awaits_answer : Option Row → Bool
awaits_answer none = false
awaits_answer (some r) = r.status == "waiting"

abbrev pub is_ok {ℓ κ} : {E : Type ℓ} {A : Type κ} → Result E A → Bool
is_ok (ok a) = true
is_ok (err e) = false

answered :
    (p : Bool) (why : Refusal) (node : String) (o : Option Execution) (r : Option Row)
    (next : Execution → Row → Store)
    → is_ok (
        guard p why
        >> (found o >>= λ e. node_row node r >>= λ q.
            guard (q.status == "waiting") (not_waiting q.status) >> ok (next e q)))
      ≡ (p && (is_some o && awaits_answer r))
answered false why node o r next = refl
answered true why node none r next = refl
answered true why node (some e) none next = refl
answered true why node (some e) (some q) next = ground arith

-- An answer to a node is taken exactly if the user is an admin or an editor, the execution is in the
-- user's project and the node waits: the status of the execution is not asked.
pub respond_iff :
    (stamp : ℕ → String) (now : ℕ) (user : User) (id node : String) (body : Value) (s : Store)
    → is_ok (respond stamp now user id node body s) ≡ (
        may_edit user
        && (is_some (select (is_own user id) s.executions)
            && awaits_answer (s.node_states id node)))
unfolding respond
respond_iff stamp now user id node body s =
    answered (may_edit user) (forbidden user.role) node (select (is_own user id) s.executions)
      (s.node_states id node)
      (λ e r.
        restart e id none
          (upsert_node_state id node
            (partial_of "success" undefined (response (data_of body) (stamp now)) (some now))
            s.node_states)
          s)

taken_up :
    (user : User) (id : String) (s t : Store) (e : Execution) (override : Option (String × Value))
    (states : Table)
    → require_editor user ≡ ok tt
    → found (select (is_own user id) s.executions) ≡ ok e
    → ◌≡◌ {A = Result Refusal Store} (ok (restart e id override states s)) (ok t)
    → Restarted user id s t
taken_up user id s t e override states p h k = record {
  permitted = guard-eq-ok (may_edit user) (forbidden user.role) p;
  execution = e;
  own = found-ok (select (is_own user id) s.executions) e h;
  override = override;
  states = states;
  is_restart = sym (ok_injective k);
}

perform-Restarted :
    (stamp : ℕ → String) (now : ℕ) (user : User) (id : String) (r : Restart) (s t : Store)
    → perform stamp now user id r s ≡ ok t
    → Restarted user id s t
unfolding resume skip respond
perform-Restarted stamp now user id (by_resume node inputs) s t h =
    let role = >>-eq-ok (require_editor user) _ h in
    let first = >>=-eq-ok (found (select (is_own user id) s.executions)) _ role.1 in
    let e = first.0 in
    let second = >>-eq-ok (guard (not (is_in_flight e)) (in_flight e.status)) _ first.2 in
    let third = >>=-eq-ok (node_to_reset id node s) _ second.1 in
    taken_up user id s t e (override_of third.0 inputs) (replayed id third.0 inputs s.node_states)
      role.0 first.1 third.2
perform-Restarted stamp now user id (by_skip node) s t h =
    let role = >>-eq-ok (require_editor user) _ h in
    let zeroth = >>-eq-ok (guard (not (node == "")) node_required) _ role.1 in
    let first = >>=-eq-ok (found (select (is_own user id) s.executions)) _ zeroth.1 in
    let e = first.0 in
    let second = >>-eq-ok (guard (not (is_in_flight e)) (in_flight e.status)) _ first.2 in
    taken_up user id s t e none (reset_node_for_replay id node "skipped" s.node_states) role.0
      first.1 second.1
perform-Restarted stamp now user id (by_respond node body) s t h =
    let role = >>-eq-ok (require_editor user) _ h in
    let first = >>=-eq-ok (found (select (is_own user id) s.executions)) _ role.1 in
    let e = first.0 in
    let second = >>=-eq-ok (node_row node (s.node_states id node)) _ first.2 in
    let r = second.0 in
    let third = >>-eq-ok (guard (r.status == "waiting") (not_waiting r.status)) _ second.2 in
    taken_up user id s t e none
      (upsert_node_state id node
        (partial_of "success" undefined (response (data_of body) (stamp now)) (some now))
        s.node_states)
      role.0 first.1 third.1

-- After a request that took the execution up, whichever of the three it was, the execution is queued
-- with exactly one job more, and every resume and every skip by the same user is refused because the
-- execution is in flight, except that a skip with no node is refused for that.
pub perform-excludes :
    (stamp : ℕ → String) (now : ℕ) (user : User) (id : String) (r : Restart) (s t : Store)
    (node : String) (inputs : Value)
    → perform stamp now user id r s ≡ ok t
    → ((job : QueueJob) × (t.queue ≡ s.queue ++ job ∷ []) × (job.execution_id ≡ id))
      × (resume user id node inputs t ≡ err (in_flight "queued"))
      × (skip user id node t ≡ (if node == "" then err node_required else err (in_flight "queued")))
unfolding resume skip
perform-excludes stamp now user id r s t node inputs h =
    let x = perform-Restarted stamp now user id r s t h in
    let e = x.execution in
    let seen : select (is_own user id) t.executions ≡ some (queued e) =
      ap (λ (y : Store). select (is_own user id) y.executions) x.is_restart
      ∙ found-queued user id e s x.override x.states x.own in
    (
      (
        record { execution_id = id; graph_id = e.graph_id; inputs_override = x.override },
        ap (λ (y : Store). y.queue) x.is_restart,
        refl,
      ),
      rw (x.permitted, seen) refl,
      elim (Bool-cases (node == "")) [
        | inl k ↦ rw (x.permitted, k) refl
        | inr k ↦ rw (x.permitted, k, seen) refl
      ],
    )
