-- ===== src/Engine/Executor/Nodes.antt =====
-- One node: `runOneInner`, in two halves. The first half runs without a pause when the layer starts;
-- the second half runs when the plugin has answered. Between the two other nodes of the layer run.
use daisy_workflow.Common.{
  ℕ, zero, suc, ◌+◌, String, Bool, true, false, Option, none, some, List, [], ◌∷◌, ◌==◌, ltb,
  if◌then◌else◌, length, Result, ok, err,
}
use daisy_workflow.Js.{
  Value, undefined, bool, num, nat, str, arr, obj, Items, nil, cons, Fields, end, field, own, items,
  walk, split_dots,
}
use daisy_workflow.Dsl.Workflow.{Node, Workflow, continue, terminate}
use daisy_workflow.Engine.Limits.{
  Env, resolve_max_retries, resolve_node_timeout_ms, assert_iteration_cap,
}
use daisy_workflow.Engine.Executor.State.{
  Status, pending, running, success, failed, skipped, waiting, Fault, message, execute_if_failed,
  resolve_failed, batch_failed, timed_out, not_an_array, iteration_cap, Reason, upstream_skipped,
  condition_false, Outcome, Context, assign, State, settle, emit, Evaluator, Reply, answers, late,
  World, Registry,
}

abbrev pub blank : Outcome
blank = record {
  status = pending;
  output = undefined;
  error = none;
  reason = none;
  attempts = none;
}

abbrev pub has_status : (Status → Bool) → Option Outcome → Bool
has_status test none = false
has_status test (some o) = test o.status

abbrev pub is_skipped : Status → Bool
is_skipped skipped = true
is_skipped _ = false

-- The first parent that was skipped.
unfoldable pub skipped_parent : (String → Option Outcome) → List String → Option String
skipped_parent results [] = none
skipped_parent results (p ∷ ps) =
    if has_status is_skipped (results p) then some p else skipped_parent results ps

-- A node that waits for its plugin: its input, or the inputs of its batch items.
pub data Work : Type 0 where
  single : Value → Work
  batch : List (Result String Value) → Work

pub record Job : Type 0 where
  pub node : Node
  pub work : Work

abbrev pub fields_of : List (String × Value) → Fields
fields_of [] = end
fields_of ((k, v) ∷ m) = field k v (fields_of m)

abbrev pub items_of : List Value → Items
items_of [] = nil
items_of (v ∷ vs) = cons v (items_of vs)

-- `handleFailure`
unfoldable pub handle_failure : Node → State → State
handle_failure n s = elim (n.on_error) [
  | terminate ↦ record s { aborting = some n.name }
  | continue ↦ s
]

abbrev pub fail_with : Fault → Option ℕ → Outcome
fail_with e k = record blank { status = failed; error = some e; attempts = k }

abbrev pub skip_for : Reason → Outcome
skip_for r = record blank { status = skipped; reason = some r }

module _ (ev : Evaluator) (env : Env) (w : Workflow) (parents_of : String → List String)
    (overrides : String → Option Value) where
  -- The input of each batch item, in the context with the item and its index.
  unfoldable pub item_inputs : Node → Context → ℕ → List Value → List (Result String Value)
  unfolding assign
  item_inputs n c i [] = []
  item_inputs n c i (x ∷ xs) =
      ev.resolve (obj (fields_of n.inputs)) (assign "index" (num (nat i)) (assign "item" x c))
      ∷ item_inputs n c (i + 1) xs

  -- `assertIterationCap` on the items, and the jobs if it passes.
  unfoldable pub begin_items :
      Node → List Value → State → Result (ℕ × ℕ) (Unit {0}) → State × List Job
  unfolding item_inputs settle handle_failure
  begin_items n xs s (err (count, most)) =
      (handle_failure n (settle n.name (fail_with (iteration_cap count most) none) s), [])
  begin_items n xs s (ok _) = (s, record { node = n; work = batch (item_inputs n s.ctx 0 xs) } ∷ [])

  -- 3. What `batchOver` resolves to.
  unfoldable pub begin_over : Node → State → Result String Value → State × List Job
  unfolding begin_items items settle handle_failure emit
  begin_over n s (err e) =
      (handle_failure n (settle n.name (fail_with (batch_failed e) none) s), [])
  begin_over n s (ok (arr xs)) =
      begin_items n (items xs) (emit n.name running s)
        (assert_iteration_cap env w (length (items xs)))
  begin_over n s (ok _) = (handle_failure n (settle n.name (fail_with not_an_array none) s), [])

  -- 2. The input, if it could be resolved.
  unfoldable pub begin_input : Node → State → Result String Value → State × List Job
  unfolding begin_over settle handle_failure emit
  begin_input n s (err e) =
      (handle_failure n (settle n.name (fail_with (resolve_failed e) none) s), [])
  begin_input n s (ok v) =
      if n.batch_over == ""
      then (emit n.name running s, record { node = n; work = single v } ∷ [])
      else begin_over n s (ev.resolve (str n.batch_over) s.ctx)

  -- The inputs, as the user has edited them or resolved.
  abbrev pub input_of : Node → State → Result String Value
  input_of n s = elim (overrides n.name) [
    | some v ↦ ok v
    | none ↦ ev.resolve (obj (fields_of n.inputs)) s.ctx
  ]

  -- 1. What `executeIf` evaluates to. A condition that cannot be evaluated does not reach
  -- `handleFailure`.
  unfoldable pub begin_condition : Node → State → Result String Bool → State × List Job
  unfolding begin_input settle
  begin_condition n s (err e) = (settle n.name (fail_with (execute_if_failed e) none) s, [])
  begin_condition n s (ok true) = begin_input n s (input_of n s)
  begin_condition n s (ok false) = (settle n.name (skip_for condition_false) s, [])

  -- 0. The skip cascade. (A name is not empty, by the schema.)
  unfoldable pub begin_unless : Node → State → Option String → State × List Job
  unfolding begin_condition settle
  begin_unless n s (some p) = (settle n.name (skip_for (upstream_skipped p)) s, [])
  begin_unless n s none =
      if n.execute_if == ""
      then begin_input n s (input_of n s)
      else begin_condition n s (ev.eval_condition n.execute_if s.ctx)

  unfoldable pub begin : Node → State → State × List Job
  unfolding begin_unless skipped_parent
  begin n s = begin_unless n s (skipped_parent s.results (parents_of n.name))

-- `withTimeout` around one call of the plugin; a timeout of 0 is no timeout.
unfoldable pub with_timeout : String → ℕ → Reply → Result Fault Value
with_timeout name ms (answers (ok v)) = ok v
with_timeout name ms (answers (err e)) = err (message e)
with_timeout name ms (late (ok v)) = if ltb 0 ms then err (timed_out name ms) else ok v
with_timeout name ms (late (err e)) = if ltb 0 ms then err (timed_out name ms) else err (message e)

-- `attemptOnce`: attempt `k` and, if it fails, as many more as are left.
unfoldable pub attempt_from : (ℕ → Reply) → String → ℕ → ℕ → ℕ → Result Fault Value × ℕ
unfolding with_timeout
attempt_from reply name ms k zero = (with_timeout name ms (reply k), k)
attempt_from reply name ms k (suc left) = elim (with_timeout name ms (reply k)) [
  | ok v ↦ (ok v, k)
  | err e ↦ attempt_from reply name ms (k + 1) left
]

-- `output[WAITING_MARKER] === true`
unfoldable pub is_waiting : Value → Bool
unfolding own
is_waiting (obj fs) = elim (own "__dag_waiting__" fs) [ some (bool true) ↦ true | _ ↦ false ]
is_waiting _ = false

-- `applyOutputMapping`
unfoldable pub apply_outputs : Value → List (String × String) → Context → Context
unfolding assign walk split_dots
apply_outputs raw [] c = c
apply_outputs raw ((path, var) ∷ m) c =
    if var == ""
    then apply_outputs raw m c
    else apply_outputs raw m (assign var (if path == "" then raw else walk raw (split_dots path)) c)

-- `output[primary]`, if the plugin has a primary output and the output has that field.
abbrev pub primary_of : Option String → Value → Value
primary_of (some p) (obj fs) = elim (own p fs) [ some v ↦ v | none ↦ obj fs ]
primary_of _ v = v

unfoldable pub bind_outputs : Registry → Node → Value → Context → Context
unfolding apply_outputs own
bind_outputs registry n v c =
    let c' = apply_outputs v n.outputs c in
    if n.output_var == "" then c' else assign n.output_var (primary_of (registry n.action) v) c'

module _ (env : Env) (w : Workflow) (registry : Registry) (world : World) where
  abbrev pub attempts_of : Node → ℕ → Result Fault Value × ℕ
  attempts_of n i =
      attempt_from (world.reply n.name i) n.name (resolve_node_timeout_ms env n w) 1
        (resolve_max_retries env n.retry)

  -- What the items of a batch give.
  unfoldable pub item_results : Node → ℕ → List (Result String Value) → List (Result Fault Value)
  unfolding attempt_from
  item_results n i [] = []
  item_results n i (err e ∷ rest) = err (message e) ∷ item_results n (i + 1) rest
  item_results n i (ok v ∷ rest) = (attempts_of n i).0 ∷ item_results n (i + 1) rest

  -- 3.5 and 4: the plugin has answered.
  unfoldable pub complete : Node → Value → ℕ → State → State
  unfolding is_waiting bind_outputs settle
  complete n v k s =
      if is_waiting v
      then settle n.name (record blank { status = waiting; output = v; attempts = some k }) s
      else settle n.name (record blank { status = success; output = v; attempts = some k })
          (record s { ctx = bind_outputs registry n v s.ctx })

  abbrev pub values : List (Result Fault Value) → List Value
  values [] = []
  values (ok v ∷ rest) = v ∷ values rest
  values (err e ∷ rest) = values rest

  -- The failures of a batch: those of the inputs come before those of the plugin.
  abbrev pub input_faults : List (Result String Value) → List Fault
  input_faults [] = []
  input_faults (ok v ∷ rest) = input_faults rest
  input_faults (err e ∷ rest) = message e ∷ input_faults rest

  abbrev pub faults : List (Result Fault Value) → List Fault
  faults [] = []
  faults (ok v ∷ rest) = faults rest
  faults (err e ∷ rest) = e ∷ faults rest

  abbrev pub pick : ℕ → Fault → List Fault → Fault
  pick zero e es = e
  pick (suc i) e [] = e
  pick (suc i) e (f ∷ es) = pick i f es

  abbrev pub first_fault : Node → List Fault → List Fault → Option Fault
  first_fault n (e ∷ es) fs = some e
  first_fault n [] [] = none
  first_fault n [] (f ∷ fs) = some (pick (world.first_failure n.name) f fs)

  -- `{ items: results, count: results.length }`
  abbrev pub batch_output : List (Result Fault Value) → Value
  batch_output rs =
      obj (field "items" (arr (items_of (values rs))) (field "count" (num (nat (length rs))) end))

  -- The batch fails by its first failure, or completes with the outputs of its items.
  unfoldable pub finish_items : Node → List (Result Fault Value) → Option Fault → State → State
  unfolding complete handle_failure settle
  finish_items n rs (some e) s = handle_failure n (settle n.name (fail_with e none) s)
  finish_items n rs none s = complete n (batch_output rs) 1 s

  unfoldable pub finish_batch : Node → List (Result String Value) → State → State
  unfolding finish_items item_results
  finish_batch n inputs s =
      let rs = item_results n 0 inputs in
      finish_items n rs (first_fault n (input_faults inputs) (faults rs)) s

  unfoldable pub finish_single : Node → Result Fault Value × ℕ → State → State
  unfolding complete handle_failure settle
  finish_single n (ok v, k) s = complete n v k s
  finish_single n (err e, k) s = handle_failure n (settle n.name (fail_with e (some k)) s)

  unfoldable pub finish_work : Node → Work → State → State
  unfolding finish_single finish_batch attempt_from
  finish_work n (single v) s = finish_single n (attempts_of n 0) s
  finish_work n (batch inputs) s = finish_batch n inputs s

  abbrev pub finish : Job → State → State
  finish j s = finish_work j.node j.work s
