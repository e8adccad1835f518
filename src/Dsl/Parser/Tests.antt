-- ===== src/Dsl/Parser/Tests.antt =====
-- A workflow of two nodes through the parser.
use daisy_workflow.Common.{
  String, ◌≡◌, ◌↔◌, refl, List, [], ◌∷◌, Option, none, some, ok, err, lookup,
}
use daisy_workflow.Js.{Value, nat, str, obj, end}
use daisy_workflow.Dsl.Workflow.{absent, Node, Workflow, continue}
use daisy_workflow.Dsl.Parser.{
  duplicate_key, Entry, fields, nothing, object, array, RawWorkflow, place, key_index, normalize,
  normalize_nodes, validate, parse_dag,
}
use daisy_workflow.Dsl.Parser.Checks.{IsWellFormed}
use daisy_workflow.Dsl.Parser.Accepts.{parse_dag-IsWellFormed, validate_iff}
use daisy_workflow.Dsl.Parser.Entries.{IsKeyed, joined, worded, normalize-IsKeyed}

abbrev named : String → Node
named x = record {
  name = x;
  action = "http";
  inputs = [];
  outputs = [];
  execute_if = "";
  retry = nat 0;
  timeout = absent;
  on_error = continue;
  batch_over = "";
  output_var = "";
}

abbrev entries : List (Entry Value)
entries = fields (("url", str "u") ∷ []) ∷ fields (("body", str "b") ∷ []) ∷ []

abbrev pairs : List (String × Value)
pairs = ("url", str "u") ∷ ("body", str "b") ∷ []

abbrev raw : RawWorkflow
raw = record {
  workflow = record {
    name = "w";
    vars = [];
    timeout = absent;
    node_timeout = absent;
    max_iterations = absent;
    max_tokens = absent;
    nodes = [];
    edges = record { from = "a"; to = "b" } ∷ [];
  };
  raw_nodes =
      record { node = named "a"; raw_inputs = array entries; raw_outputs = nothing }
      ∷ record { node = named "b"; raw_inputs = nothing; raw_outputs = nothing }
      ∷ [];
}

abbrev nodes : List Node
nodes = record (named "a") { inputs = pairs } ∷ named "b" ∷ []

abbrev workflow : Workflow
workflow = record (raw.workflow) { nodes = nodes }

-- A reader of the text "{}" alone, a schema that takes what it gives, and a plugin that needs a url.
abbrev json_parse : String → Option Value
json_parse t = some (obj end)

abbrev check_schema : Value → Option RawWorkflow
check_schema v = some raw

abbrev required : String → Option (List String)
required a = none

parse_dag-IsWellFormed_example : IsWellFormed required nodes workflow.edges
unfolding parse_dag place key_index
parse_dag-IsWellFormed_example =
    parse_dag-IsWellFormed json_parse check_schema required "{}" workflow refl

validate_iff_example :
    (validate json_parse check_schema required raw ≡ ok workflow)
    ↔ IsWellFormed required nodes workflow.edges
unfolding normalize_nodes place key_index
validate_iff_example = validate_iff json_parse check_schema required raw nodes refl

-- An index comes before the key that was written first.
abbrev mixed : List (Entry Value)
mixed = fields (("b", str "x") ∷ []) ∷ fields (("10", str "y") ∷ ("2", str "z") ∷ []) ∷ []

abbrev mixed_pairs : List (String × Value)
mixed_pairs = ("2", str "z") ∷ ("10", str "y") ∷ ("b", str "x") ∷ []

normalize-IsKeyed_example :
    IsKeyed mixed_pairs
    × ((x : String) → lookup x mixed_pairs ≡ lookup x (joined mixed))
    × (worded mixed_pairs ≡ worded (joined mixed))
unfolding normalize place key_index
normalize-IsKeyed_example = normalize-IsKeyed "a" mixed mixed_pairs refl

inherited_twice :
    (normalize "a" (object (("constructor", str "x") ∷ [])) ≡ ok (("constructor", str "x") ∷ []))
    × (normalize "a" (array (fields (("constructor", str "x") ∷ []) ∷ []))
        ≡ err (duplicate_key "a" "constructor"))
unfolding normalize
inherited_twice = (refl, refl)
