-- ===== src/Engine/Executor/Parsed.antt =====
-- The parser and the executor together.
use daisy_workflow.Common.{
  String, ◌≡◌, refl, true, false, not, List, [], ◌∷◌, ◌==◌, eq_iff, arith, elem, elem-keep, Option,
  ok, All, All-elem, All-of_elem,
}
use daisy_workflow.Js.{Value, is_inherited}
use daisy_workflow.Dsl.Graph.{Edge}
use daisy_workflow.Dsl.Workflow.{Node}
use daisy_workflow.Dsl.Parser.{RawWorkflow, names, parse_dag}
use daisy_workflow.Dsl.Parser.Kahn.{IsClosed}
use daisy_workflow.Dsl.Parser.Accepts.{parse_dag-IsWellFormed}
use daisy_workflow.Engine.Executor.State.{State}
use daisy_workflow.Engine.Executor.Nodes.{has_status}
use daisy_workflow.Engine.Executor.Schedule.{
  Setup, Options, completed, ended, node_names, names_of, edges_of, execute_dag,
}
use daisy_workflow.Engine.Executor.Completion.{is_done, execute_dag-completed}

node_names-elem :
    (nodes : List Node) (n : String) → elem n (node_names nodes) ≡ elem n (names nodes)
unfolding node_names elem
node_names-elem [] n = refl
node_names-elem (m ∷ ns) n = ground (
  arith,
  node_names-elem ns n,
  elem-keep (λ k. not (k == m.name)) n (node_names ns),
  eq_iff m.name n,
  eq_iff n m.name,
)

same-IsClosed :
    (xs ys : List String) (es : List Edge)
    → ((n : String) → elem n xs ≡ elem n ys)
    → IsClosed ys es
    → IsClosed xs es
same-IsClosed xs ys [] same c = tt
same-IsClosed xs ys (e ∷ es) same ((a, b), c) =
    ((rw (same e.from) a, rw (same e.to) b), same-IsClosed xs ys es same c)

-- A run of a workflow that the parser returned, none of whose nodes is named like an inherited
-- property, which resumes nothing and is reported as completed, has brought every node of the workflow to success or to a skip.
pub parse_dag-execute_dag :
    (json_parse : String → Option Value) (check_schema : Value → Option RawWorkflow)
    (required : String → Option (List String)) (text : String) (r : Setup) (opts : Options)
    (final : State) (n : String)
    → parse_dag json_parse check_schema required text ≡ ok r.workflow
    → All (λ m. is_inherited m ≡ false) (names r.workflow.nodes)
    → opts.initial_states ≡ []
    → execute_dag r opts ≡ ended completed final
    → elem n (names r.workflow.nodes) ≡ true
    → has_status is_done (final.results n) ≡ true
parse_dag-execute_dag json_parse check_schema required text r opts final n parsed own first h at =
    let good = parse_dag-IsWellFormed json_parse check_schema required text r.workflow parsed in
    execute_dag-completed r opts final good.rank n
      (same-IsClosed (names_of r) (names r.workflow.nodes) (edges_of r)
        (node_names-elem r.workflow.nodes) good.closed)
      good.ranked
      (All-of_elem (λ m. is_inherited m ≡ false) (names_of r)
        λ m known.
          All-elem (λ k. is_inherited k ≡ false) m (names r.workflow.nodes) own
            (rw (node_names-elem r.workflow.nodes m) at known))
      first h (rw (node_names-elem r.workflow.nodes n) at)
