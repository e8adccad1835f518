-- ===== src/Engine/Executor/Finishes.antt =====
-- What the second half of a node's run changes: its own result, and never the counts or the queue.
use daisy_workflow.Common.{
  ℕ, ◌≡◌, refl, inl, inr, true, Option, none, some, List, Bool-cases, Result, ok, err,
}
use daisy_workflow.Js.{Value}
use daisy_workflow.Dsl.Workflow.{Node, Workflow}
use daisy_workflow.Engine.Limits.{Env}
use daisy_workflow.Engine.Executor.State.{success, Fault, Outcome, State, settle, World, Registry}
use daisy_workflow.Engine.Executor.Nodes.{
  blank, has_status, is_waiting, bind_outputs, batch_output, attempts_of, item_results, first_fault,
  input_faults, faults, Work, single, batch, handle_failure, complete, finish_items, finish_batch,
  finish_single, finish_work,
}
use daisy_workflow.Engine.Executor.Effects.{
  is_finished, Touches, settle-Touches, settle-results, handle_failure-results,
  handle_failure-Touches,
}

-- The second half records how the node ended.
pub record Finished (n : Node) (s s' : State) : Type 0 where
  pub touches : Touches n.name s s'
  pub recorded : has_status is_finished (s'.results n.name) ≡ true

failed-Finished :
    (n : Node) (o : Outcome) (s : State)
    → is_finished o.status ≡ true
    → Finished n s (handle_failure n (settle n.name o s))
failed-Finished n o s h = record {
  touches = handle_failure-Touches n n.name s _ (settle-Touches n.name o s);
  recorded = rw (handle_failure-results n (settle n.name o s), settle-results n.name o s) h;
}

settled-Finished :
    (n : Node) (o : Outcome) (s : State)
    → is_finished o.status ≡ true
    → Finished n s (settle n.name o s)
settled-Finished n o s h = record {
  touches = settle-Touches n.name o s;
  recorded = rw (settle-results n.name o s) h;
}

module _ (env : Env) (w : Workflow) (registry : Registry) (world : World) where
  complete-Finished :
      (n : Node) (v : Value) (k : ℕ) (s : State)
      → Finished n s (complete env w registry world n v k s)
  unfolding complete
  complete-Finished n v k s = elim (Bool-cases (is_waiting v)) [
    | inl pauses ↦ rw pauses (settled-Finished n _ s refl)
    | inr goes ↦
        let bound = record s { ctx = bind_outputs registry n v s.ctx } in
        let f =
          settled-Finished n (record blank { status = success; output = v; attempts = some k })
            bound refl in
        rw goes (record {
          touches = record {
            others = f.touches.others;
            counts = f.touches.counts;
            queue = f.touches.queue;
          };
          recorded = f.recorded;
        })
  ]

  finish_single-Finished :
      (n : Node) (a : Result Fault Value × ℕ) (s : State)
      → Finished n s (finish_single env w registry world n a s)
  unfolding finish_single
  finish_single-Finished n (ok v, k) s = complete-Finished n v k s
  finish_single-Finished n (err e, k) s = failed-Finished n _ s refl

  finish_items-Finished :
      (n : Node) (rs : List (Result Fault Value)) (e : Option Fault) (s : State)
      → Finished n s (finish_items env w registry world n rs e s)
  unfolding finish_items
  finish_items-Finished n rs (some e) s = failed-Finished n _ s refl
  finish_items-Finished n rs none s = complete-Finished n (batch_output env w registry world rs) 1 s

  pub finish-Finished :
      (n : Node) (k : Work) (s : State) → Finished n s (finish_work env w registry world n k s)
  unfolding finish_work finish_batch
  finish-Finished n (single v) s = finish_single-Finished n (attempts_of env w registry world n 0) s
  finish-Finished n (batch inputs) s =
      let rs = item_results env w registry world n 0 inputs in
      finish_items-Finished n rs
        (first_fault env w registry world n (input_faults env w registry world inputs)
          (faults env w registry world rs))
        s
