-- ===== src/Engine/Executor/State.antt =====
-- The state of a run, what the engine asks of the world, and the recording of outcomes.
use daisy_workflow.Common.{
  ℕ, String, Bool, true, false, Option, none, some, List, [], ◌∷◌, ◌++◌, ◌==◌, update,
  if◌then◌else◌, Result,
}
use daisy_workflow.Js.{Value, arr, obj}

pub data Status : Type 0 where
  pending running retrying success failed skipped waiting : Status

-- The errors and the reasons that the engine itself words, and the messages of others.
pub data Fault : Type 0 where
  message execute_if_failed resolve_failed batch_failed : String → Fault
  timed_out : String → ℕ → Fault
  not_an_array : Fault
  iteration_cap : ℕ → ℕ → Fault

pub data Reason : Type 0 where
  upstream_skipped run_aborted : String → Reason
  condition_false not_reached : Reason
  given : String → Reason

-- The record of a node: `output` is undefined where it has none. The time stamps are left out.
pub record Outcome : Type 0 where
  pub status : Status
  pub output : Value
  pub error : Option Fault
  pub reason : Option Reason
  pub attempts : Option ℕ

-- `ctx`: the variables at its root, and `ctx.nodes`, as what was last assigned to it and what the
-- engine has put into that since.
pub record Context : Type 0 where
  pub vars : String → Value
  pub nodes_base : Value
  pub nodes : String → Option Outcome

-- `ctx[name] = v`
unfoldable pub assign : String → Value → Context → Context
assign name v c =
    if name == "nodes"
    then record c { nodes_base = v; nodes = λ _. none }
    else record c { vars = update c.vars name v }

abbrev takes_properties : Value → Bool
takes_properties (obj fs) = true
takes_properties (arr xs) = true
takes_properties _ = false

-- `statuses` lists the emitted `node:status` events; those of retries are left out.
pub record State : Type 0 where
  pub ctx : Context
  pub results : String → Option Outcome
  pub remaining : String → ℕ
  pub ready : List String
  pub aborting : Option String
  pub faulted : Bool
  pub statuses : List (String × Status)

-- `nodeResults[name] = …; ctx.nodes[name] = …`. On a value that takes no property the second
-- assignment throws, which ends the run.
unfoldable pub put : String → Outcome → State → State
put name o s =
    let s' = record s { results = update s.results name (some o) } in
    if takes_properties s.ctx.nodes_base
    then record s' { ctx = record (s.ctx) { nodes = update s.ctx.nodes name (some o) } }
    else record s' { faulted = true }

-- `recordOutcome` and the event that goes with it.
unfoldable pub settle : String → Outcome → State → State
unfolding put
settle name o s = put name o (record s { statuses = s.statuses ++ (name, o.status) ∷ [] })

unfoldable pub emit : String → Status → State → State
emit name st s = record s { statuses = s.statuses ++ (name, st) ∷ [] }

-- The evaluation of `${…}` templates (backend/src/dsl/expression.js, on the FEEL library).
pub record Evaluator : Type 0 where
  pub resolve : Value → Context → Result String Value
  pub eval_condition : String → Context → Result String Bool

-- The answer of a plugin: in time, or only after the node's timer would have fired.
pub data Reply : Type 0 where
  answers late : Result String Value → Reply

-- What the engine cannot know: the answers of the plugins (by node, batch item and attempt), which
-- of the failures of a batch comes first, and in which order the nodes of a layer end. A plugin only
-- answers here: what it writes to the context itself is left out.
pub record World : Type 0 where
  pub reply : String → ℕ → ℕ → Reply
  pub first_failure : String → ℕ
  pub order : ℕ → List ℕ

-- `registry.get(action)?.primaryOutput`
abbrev pub Registry : Type 0
Registry = String → Option String
