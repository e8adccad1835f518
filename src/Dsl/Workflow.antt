-- ===== src/Dsl/Workflow.antt =====
-- A workflow as backend/src/dsl/parser.js hands it to the engine (the fields of
-- backend/src/dsl/schema.js that the engine reads).
use daisy_workflow.Common.{ℕ, String, List}
use daisy_workflow.Js.{Value, Number}
use daisy_workflow.Dsl.Graph.{Edge}

-- A duration or a count as it is written in a workflow or an environment variable: not there, a
-- number, or a text as its code points.
pub data Scalar : Type 0 where
  absent : Scalar
  number : Number → Scalar
  text : List ℕ → Scalar

pub data OnError : Type 0 where
  continue terminate : OnError

-- The empty text stands for an optional text that is not there, as the tests of the source do.
pub record Node : Type 0 where
  pub name : String
  pub action : String
  pub inputs : List (String × Value)
  pub outputs : List (String × String)
  pub execute_if : String
  pub retry : Number
  pub timeout : Scalar
  pub on_error : OnError
  pub batch_over : String
  pub output_var : String

pub record Workflow : Type 0 where
  pub name : String
  pub vars : List (String × Value)
  pub timeout : Scalar
  pub node_timeout : Scalar
  pub max_iterations : Scalar
  pub max_tokens : Scalar
  pub nodes : List Node
  pub edges : List Edge
