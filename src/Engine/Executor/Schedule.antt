-- ===== src/Engine/Executor/Schedule.antt =====
-- The graph of a run, the resumption of an earlier one, the loop over the layers, and the overall
-- status (buildDag of backend/src/engine/scheduler.js and `executeDag` itself).
use daisy_workflow.Common.{
  ℕ, zero, suc, ◌+◌, ◌-◌, String, Bool, true, false, not, ◌&&◌, ◌||◌, Option, none, some, List, [],
  ◌∷◌, ◌++◌, ◌==◌, update, eqb, if◌then◌else◌, or_else, length, is_some, keep, any, all, elem,
}
use daisy_workflow.Js.{Value, undefined, obj, end, is_nullish, is_inherited}
use daisy_workflow.Dsl.Graph.{Edge, targets, parents, indegrees, relax}
use daisy_workflow.Dsl.Workflow.{Node, Workflow}
use daisy_workflow.Engine.Limits.{Env}
use daisy_workflow.Engine.Executor.State.{
  Status, pending, success, failed, skipped, waiting, Reason, run_aborted, not_reached, Outcome,
  State, put, settle, Evaluator, World, Registry,
}
use daisy_workflow.Engine.Executor.Nodes.{
  blank, has_status, Job, begin, finish, finish_work, bind_outputs,
}

-- `byName.keys()`
unfoldable pub node_names : List Node → List String
node_names [] = []
node_names (n ∷ ns) = n.name ∷ keep (λ m. not (m == n.name)) (node_names ns)

-- `byName.get(name)`: of two nodes of one name, the later.
unfoldable pub by_name : List Node → String → Option Node
by_name [] x = none
by_name (n ∷ ns) x = or_else (by_name ns x) (if n.name == x then some n else none)

-- Takes the elements in the order of the choices; each choice counts from the front of what is left.
unfoldable pub take_out : {A : Type 0} → ℕ → A → List A → A × List A
take_out zero x xs = (x, xs)
take_out (suc i) x [] = (x, [])
take_out (suc i) x (y ∷ ys) = let (z, rest) = take_out i y ys in (z, x ∷ rest)

unfoldable pub shuffle : {A : Type 0} → List ℕ → List A → List A
unfolding take_out
shuffle [] xs = xs
shuffle (c ∷ cs) [] = []
shuffle (c ∷ cs) (x ∷ xs) = let (y, rest) = take_out c x xs in y ∷ shuffle cs rest

abbrev pub is_waiting_status : Status → Bool
is_waiting_status waiting = true
is_waiting_status _ = false

abbrev pub is_failed : Status → Bool
is_failed failed = true
is_failed _ = false

abbrev is_terminal : Status → Bool
is_terminal success = true
is_terminal failed = true
is_terminal skipped = true
is_terminal _ = false

abbrev is_success : Status → Bool
is_success success = true
is_success _ = false

-- The options of a run (`inputsOverride` stands in the set-up below).
pub record Options : Type 0 where
  pub initial_data : List (String × Value)
  pub initial_states : List (String × Outcome)

pub data Overall : Type 0 where
  completed failed_run partial paused : Overall

pub data Run : Type 0 where
  threw : Run
  ended : Overall → State → Run

abbrev pub is_aborted : State → Bool
is_aborted s = is_some s.aborting

abbrev pub is_empty : List String → Bool
is_empty [] = true
is_empty (x ∷ xs) = false

-- `remaining.set(next, Math.max(0, remaining.get(next) - 1))`
unfoldable pub lower : List String → (String → ℕ) → String → ℕ
lower [] d = d
lower (t ∷ ts) d = lower ts (update d t (d t - 1))

-- `nodeResults[n]` as a test: the object inherits a value for some names that were never recorded.
unfoldable pub has_result : (String → Option Outcome) → String → Bool
has_result results n = is_some (results n) || is_inherited n

-- The nodes without a result are recorded as pending, by `recordOutcome` with or without an event.
unfoldable pub mark_pending :
    (String → Outcome → State → State) → Reason → List String → State → State
mark_pending write r [] s = s
mark_pending write r (x ∷ xs) s = mark_pending write r xs (
    if has_result s.results x
    then s
    else write x (record blank { status = pending; reason = some r }) s)

abbrev assign_all : List (String × Value) → (String → Value) → String → Value
assign_all [] vars = vars
assign_all ((k, v) ∷ m) vars = assign_all m (update vars k v)

-- The state before anything has run.
unfoldable pub fresh : Workflow → List (String × Value) → State
unfolding indegrees
fresh w initial_data = record {
  ctx = record {
    vars = assign_all initial_data (assign_all w.vars (λ _. undefined));
    nodes_base = obj end;
    nodes = λ _. none;
  };
  results = λ _. none;
  remaining = indegrees w.edges;
  ready = [];
  aborting = none;
  faulted = false;
  statuses = [];
}

-- All that a run depends on.
pub record Setup : Type 0 where
  pub ev : Evaluator
  pub env : Env
  pub registry : Registry
  pub world : World
  pub workflow : Workflow
  pub overrides : String → Option Value

abbrev pub names_of : Setup → List String
names_of r = node_names r.workflow.nodes

abbrev pub edges_of : Setup → List Edge
edges_of r = r.workflow.edges

module _ (r : Setup) where
  open r use {ev, env, registry, world, overrides, workflow as w}

  abbrev names : List String
  names = names_of r

  -- `runOne(byName.get(name))`, first half. A name that is no node is read as undefined and throws.
  unfoldable pub begin_name : String → State → State × List Job
  unfolding begin by_name
  begin_name x s = elim (by_name w.nodes x) [
    | none ↦ (record s { faulted = true }, [])
    | some n ↦ begin ev env w (λ m. parents m w.edges) overrides n s
  ]

  unfoldable pub begin_all : List String → State → State × List Job
  begin_all [] s = (s, [])
  begin_all (x ∷ xs) s =
      let (s', js) = begin_name x s in let (s'', ks) = begin_all xs s' in (s'', js ++ ks)

  unfoldable pub finish_all : List Job → State → State
  unfolding finish_work
  finish_all [] s = s
  finish_all (j ∷ js) s = finish_all js (finish env w registry world j s)

  -- `await Promise.all(layer.map(...))` for layer number `i`.
  unfoldable pub run_layer : ℕ → State → State
  unfolding begin_all begin_name finish_all shuffle
  run_layer i s =
      let (s', jobs) = begin_all s.ready (record s { ready = [] }) in
      finish_all (shuffle (world.order i) jobs) s'

  -- The test of the inner loop: a node that has a result is not queued again, and what is no node
  -- has no count.
  abbrev pub is_taken : (String → Option Outcome) → String → Bool
  is_taken results n = has_result results n || not (elem n names)

  unfoldable pub release_one : String → State → State
  unfolding relax targets elem
  release_one x s =
      if has_status is_waiting_status (s.results x)
      then s
      else let (d, q) = relax (is_taken s.results) (targets x w.edges) s.remaining s.ready in
        record s { remaining = d; ready = q }

  unfoldable pub release_all : List String → State → State
  release_all [] s = s
  release_all (x ∷ xs) s = release_all xs (release_one x s)

  -- `while (ready.length && !aborted)`
  unfoldable pub loop : ℕ → ℕ → State → State
  unfolding run_layer release_all release_one
  loop zero i s = s
  loop (suc fuel) i s = elim (is_empty s.ready || is_aborted s) [
    | true ↦ s
    | false ↦
        let s' = run_layer i s in
        elim (s'.faulted || is_aborted s') [
          | true ↦ s'
          | false ↦ loop fuel (i + 1) (release_all s.ready s')
        ]
  ]

  -- One node of an earlier run. The name `__proto__`, under which JavaScript sets the prototype, is
  -- left out.
  unfoldable pub hydrate_one : String → Outcome → State → State
  unfolding by_name bind_outputs put lower targets
  hydrate_one x prev s = elim (by_name w.nodes x) [
    | none ↦ s
    | some n ↦
        if is_waiting_status prev.status
        then put x prev s
        else if not (is_terminal prev.status)
        then s
        else let replayed =
            if is_success prev.status && not (is_nullish prev.output)
            then record s { ctx = bind_outputs registry n prev.output s.ctx }
            else s in
          let s' = put x prev replayed in
          record s' { remaining = lower (targets x w.edges) s'.remaining }
  ]

  unfoldable pub hydrate : List (String × Outcome) → State → State
  unfolding hydrate_one
  hydrate [] s = s
  hydrate ((x, prev) ∷ rest) s = hydrate rest (hydrate_one x prev s)

  unfoldable pub overall : State → Overall
  overall s =
      if is_aborted s
      then failed_run
      else if any (λ x. has_status is_failed (s.results x)) names
      then partial
      else if any (λ x. has_status is_waiting_status (s.results x)) names
      then paused
      else completed

  -- After the loop: `markRestPending` of an aborted run, and the final reconciliation.
  unfoldable pub reconcile : Option String → State → State
  unfolding mark_pending settle put node_names
  reconcile (some n) s = mark_pending settle (run_aborted n) names s
  reconcile none s = mark_pending put not_reached names s

  unfoldable pub conclude : State → Run
  unfolding reconcile overall
  conclude s =
      let s' = reconcile s.aborting s in if s'.faulted then threw else ended (overall s') s'

  -- The nodes that start: those without a result that wait for nothing.
  unfoldable pub first_ready : State → State
  first_ready s = record s {
    ready = keep (λ x. not (has_result s.results x) && eqb (s.remaining x) 0) names;
  }

-- The run. The loop has a round for every node, and one more to see that nothing is ready.
-- `adj.get(e.from)` throws for an edge that leaves no node.
unfoldable pub execute_dag : Setup → Options → Run
unfolding fresh hydrate first_ready loop conclude elem
execute_dag r opts =
    let hydrated = hydrate r opts.initial_states (fresh r.workflow opts.initial_data) in
    let last = loop r (suc (length (names_of r))) 0 (first_ready r hydrated) in
    let result = if last.faulted then threw else conclude r last in
    if all (λ e. elem e.from (names_of r)) (edges_of r) && not hydrated.faulted
    then result
    else threw
