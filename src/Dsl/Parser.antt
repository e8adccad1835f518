-- ===== src/Dsl/Parser.antt =====
-- `parseDag` of backend/src/dsl/parser.js. JSON.parse and the compiled Ajv schema are parameters
-- (a reading of the text, and the workflow with the schema's defaults or the schema's refusal), and
-- so is the plugin registry, which answers the required inputs of an action it knows.
pub mod Kahn
pub mod Acyclic
pub mod Checks
pub mod Accepts
pub mod Entries
mod Tests
use daisy_workflow.Common.{
  ℕ, zero, suc, ◌+◌, String, ◌≡◌, Bool, true, false, not, ◌&&◌, ◌||◌, Option, none, some, List, [],
  ◌∷◌, ◌++◌, map, ◌==◌, Result, ok, err, ◌>>=◌, ◌>>◌, guard, eqb, if◌then◌else◌, length, keep, elem,
  ltb, lookup, is_some,
}
use daisy_workflow.Js.{Value, undefined, null, str, inherited, is_inherited, codes, index}
use daisy_workflow.Dsl.Graph.{Edge, indegrees, relax, targets}
use daisy_workflow.Dsl.Workflow.{Node, Workflow}

pub data Invalid : Type 0 where
  invalid_json not_an_object schema_failed cycle : Invalid
  bad_entry : String → Invalid
  duplicate_key : String → String → Invalid
  duplicate_node unknown_source unknown_target self_loop : String → Invalid
  missing_input : String → String → Invalid

-- The two forms of `inputs:` and `outputs:`, and what an entry of the array form can be.
pub data Entry (V : Type 0) : Type 0 where
  fields : List (String × V) → Entry V
  other : Entry V

pub data KeyValues (V : Type 0) : Type 0 where
  nothing : KeyValues V
  object : List (String × V) → KeyValues V
  array : List (Entry V) → KeyValues V

-- A key that is an array index, as every object has it before its other keys.
unfoldable pub key_index : String → Option ℕ
unfolding index
key_index k = elim (index (codes k)) [
  | none ↦ none
  | some i ↦ if ltb i 4_294_967_295 then some i else none
]

abbrev pub is_before : Option ℕ → Option ℕ → Bool
is_before none j = false
is_before (some i) none = true
is_before (some i) (some j) = ltb i j

-- `out[k] = v` for a new key: the indices come first, by size, and then the others as they came.
unfoldable pub place : {V : Type 0} → String → V → List (String × V) → List (String × V)
place k v [] = (k, v) ∷ []
place k v ((j, w) ∷ rest) =
    let later = place k v rest in
    if is_before (key_index k) (key_index j) then (k, v) ∷ (j, w) ∷ rest else (j, w) ∷ later

module _ {V : Type 0} (node : String) where
  -- The loop over the entries of one item.
  unfoldable pub add_fields :
      List (String × V) → List (String × V) → Result Invalid (List (String × V))
  unfolding lookup elem
  add_fields out [] = ok out
  add_fields out ((k, v) ∷ rest) =
      let more = add_fields (place k v out) rest in
      if is_some (lookup k out) || elem k inherited then err (duplicate_key node k) else more

  unfoldable pub add_entries :
      List (String × V) → List (Entry V) → Result Invalid (List (String × V))
  add_entries out [] = ok out
  add_entries out (other ∷ rest) = err (bad_entry node)
  add_entries out (fields fs ∷ rest) = add_fields out fs >>= λ out'. add_entries out' rest

  unfoldable pub normalize : KeyValues V → Result Invalid (List (String × V))
  unfolding add_entries add_fields
  normalize nothing = ok []
  normalize (object fs) = ok fs
  normalize (array entries) = add_entries [] entries

-- A node before its `inputs` and `outputs` are normalised.
pub record RawNode : Type 0 where
  pub node : Node
  pub raw_inputs : KeyValues Value
  pub raw_outputs : KeyValues String

pub record RawWorkflow : Type 0 where
  pub workflow : Workflow
  pub raw_nodes : List RawNode

unfoldable pub normalize_nodes : List RawNode → Result Invalid (List Node)
unfolding normalize
normalize_nodes [] = ok []
normalize_nodes (r ∷ rs) = normalize r.node.name r.raw_inputs >>= λ ins.
    normalize r.node.name r.raw_outputs >>= λ outs.
    normalize_nodes rs >>= λ ns. ok (record (r.node) { inputs = ins; outputs = outs } ∷ ns)

abbrev pub names : List Node → List String
names nodes = map (λ n. n.name) nodes

unfoldable pub check_unique : List String → List Node → Result Invalid (Unit {0})
check_unique seen [] = ok tt
check_unique seen (n ∷ ns) =
    let rest = check_unique (n.name ∷ seen) ns in
    if elem n.name seen then err (duplicate_node n.name) else rest

unfoldable pub check_edges : List String → List Edge → Result Invalid (Unit {0})
check_edges known [] = ok tt
check_edges known (e ∷ es) =
    guard (elem e.from known) (unknown_source e.from)
    >> (guard (elem e.to known) (unknown_target e.to)
        >> (guard (not (e.from == e.to)) (self_loop e.from) >> check_edges known es))

-- `v === undefined || v === null || v === ""`
abbrev is_missing : Option Value → Bool
is_missing none = true
is_missing (some undefined) = true
is_missing (some null) = true
is_missing (some (str s)) = s == ""
is_missing (some _) = false

-- `n.inputs?.[key]` is missing; an inherited property is found, and is none of the three.
abbrev pub lacks : List (String × Value) → String → Bool
lacks inputs k =
    if is_some (lookup k inputs) then is_missing (lookup k inputs) else not (is_inherited k)

unfoldable pub check_required : Node → List String → Result Invalid (Unit {0})
unfolding lookup
check_required n [] = ok tt
check_required n (k ∷ ks) =
    let rest = check_required n ks in
    if lacks n.inputs k then err (missing_input n.name k) else rest

unfoldable pub check_inputs :
    (String → Option (List String)) → List Node → Result Invalid (Unit {0})
unfolding check_required
check_inputs required [] = ok tt
check_inputs required (n ∷ ns) = elim (required n.action) [
  | none ↦ check_inputs required ns
  | some keys ↦ check_required n keys >> check_inputs required ns
]

-- The `while (queue.length)` loop of the cycle check: the number of nodes that it visits.
unfoldable pub kahn : ℕ → List Edge → List String → (String → ℕ) → ℕ → ℕ
unfolding relax targets
kahn zero es q d visited = visited
kahn (suc fuel) es [] d visited = visited
kahn (suc fuel) es (n ∷ q) d visited =
    let (d', q') = relax (λ _. false) (targets n es) d q in kahn fuel es q' d' (visited + 1)

-- The start of the loop: the nodes of no incoming edge.
abbrev pub roots : List String → List Edge → List String
roots ns es = keep (λ n. eqb (indegrees es n) 0) ns

unfoldable pub visited_count : List String → List Edge → ℕ
unfolding kahn indegrees
visited_count ns es = kahn (suc (length ns)) es (roots ns es) (indegrees es) 0

-- The checks of the normalised nodes, in the order of the source.
unfoldable pub check_nodes :
    (String → Option (List String)) → Workflow → List Node → Result Invalid Workflow
unfolding check_unique check_edges check_inputs visited_count elem
check_nodes required w nodes = do
  check_unique [] nodes
  check_edges (names nodes) w.edges
  check_inputs required nodes
  guard (eqb (visited_count (names nodes) w.edges) (length nodes)) cycle
  ok (record w { nodes = nodes })

module _ (json_parse : String → Option Value) (check_schema : Value → Option RawWorkflow)
    (required : String → Option (List String)) where
  -- From the schema's answer on.
  unfoldable pub validate : RawWorkflow → Result Invalid Workflow
  unfolding normalize_nodes check_nodes
  validate raw = normalize_nodes raw.raw_nodes >>= check_nodes required raw.workflow

  -- An object goes on to the schema; all else is refused before it.
  unfoldable pub check_value : Value → Result Invalid Workflow
  unfolding validate
  check_value (Value.obj fs) = elim (check_schema (Value.obj fs)) [
    | none ↦ err schema_failed
    | some raw ↦ validate raw
  ]
  check_value (Value.arr xs) = elim (check_schema (Value.arr xs)) [
    | none ↦ err schema_failed
    | some raw ↦ validate raw
  ]
  check_value _ = err not_an_object

  -- `parseDag` of a text.
  unfoldable pub parse_dag : String → Result Invalid Workflow
  unfolding check_value
  parse_dag text = elim (json_parse text) [ none ↦ err invalid_json | some v ↦ check_value v ]
