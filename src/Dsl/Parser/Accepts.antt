-- ===== src/Dsl/Parser/Accepts.antt =====
-- Which workflows `parseDag` accepts.
use daisy_workflow.Common.{
  String, ◌≡◌, refl, sym, subst, ◌↔◌, inl, inr, ◌∙◌, Option, List, [], ◌∷◌, eqb, eqb_iff,
  Option-cases, length, elem, ok, >>=-eq-ok, >>-eq-ok, guard, guard-eq-ok,
}
use daisy_workflow.Js.{Value}
use daisy_workflow.Dsl.Workflow.{Node, Workflow}
use daisy_workflow.Dsl.Parser.{
  RawWorkflow, names, normalize_nodes, check_unique, check_edges, check_inputs, visited_count,
  check_nodes, validate, check_value, parse_dag, cycle,
}
use daisy_workflow.Dsl.Parser.Checks.{
  Avoids, IsWellFormed, length-names, check_unique_sound, check_unique_complete, check_edges_sound,
  check_edges_complete, check_inputs_sound, check_inputs_complete,
}
use daisy_workflow.Dsl.Parser.Acyclic.{IsRanked-of_visited, visited_of_ranked}

none_seen : (nodes : List Node) → Avoids [] nodes
unfolding elem
none_seen [] = tt
none_seen (n ∷ ns) = (refl, none_seen ns)

module _ (required : String → Option (List String)) where
  check_nodes_sound :
      (w : Workflow) (nodes : List Node) {v : Workflow}
      → check_nodes required w nodes ≡ ok v
      → IsWellFormed required nodes w.edges × (record w { nodes = nodes } ≡ v)
  unfolding check_nodes
  check_nodes_sound w nodes h =
      let (a, h1) = >>-eq-ok (check_unique [] nodes) _ h in
      let (b, h2) = >>-eq-ok (check_edges (names nodes) w.edges) _ h1 in
      let (c, h3) = >>-eq-ok (check_inputs required nodes) _ h2 in
      let (d, e) =
        >>-eq-ok (guard (eqb (visited_count (names nodes) w.edges) (length nodes)) cycle)
          (ok (record w { nodes = nodes })) h3 in
      let unique = (check_unique_sound [] nodes a).0 in
      let (closed, loops) = check_edges_sound (names nodes) w.edges b in
      let counted : visited_count (names nodes) w.edges ≡ length nodes =
        (eqb_iff _ _).0 (guard-eq-ok _ cycle d) in
      let (rank, ranked) =
        IsRanked-of_visited (names nodes) w.edges closed unique
          (counted ∙ sym (length-names nodes)) in
      (
        record {
          unique = unique;
          closed = closed;
          loops = loops;
          inputs = check_inputs_sound required nodes c;
          rank = rank;
          ranked = ranked;
        },
        cc,
      )

  check_nodes_complete :
      (w : Workflow) (nodes : List Node)
      → IsWellFormed required nodes w.edges
      → check_nodes required w nodes ≡ ok (record w { nodes = nodes })
  unfolding check_nodes
  check_nodes_complete w nodes good = rw (
    check_unique_complete [] nodes good.unique (none_seen nodes),
    check_edges_complete _ _ good.closed good.loops,
    check_inputs_complete required nodes good.inputs,
    (eqb_iff _ _).1
        (visited_of_ranked _ _ good.closed good.unique good.rank good.ranked ∙ length-names nodes),
  )

module _ (json_parse : String → Option Value) (check_schema : Value → Option RawWorkflow)
    (required : String → Option (List String)) where
  validate_sound :
      (raw : RawWorkflow) (w : Workflow)
      → validate json_parse check_schema required raw ≡ ok w
      → IsWellFormed required w.nodes w.edges
  unfolding validate
  validate_sound raw w h =
      let (nodes, normal, h1) =
        >>=-eq-ok (normalize_nodes raw.raw_nodes) (check_nodes required raw.workflow) h in
      let (good, same) = check_nodes_sound required raw.workflow nodes h1 in
      subst (λ v. IsWellFormed required v.nodes v.edges) same good

  check_value_sound :
      (v : Value) (w : Workflow)
      → check_value json_parse check_schema required v ≡ ok w
      → IsWellFormed required w.nodes w.edges
  unfolding check_value
  check_value_sound (Value.obj fs) w h = elim (Option-cases (check_schema (Value.obj fs))) [
    | inl bad ↦ absurd (cc (rw (bad, check_value) at h))
    | inr (raw, good) ↦ validate_sound raw w (rw (good, check_value) at h)
  ]
  check_value_sound (Value.arr xs) w h = elim (Option-cases (check_schema (Value.arr xs))) [
    | inl bad ↦ absurd (cc (rw (bad, check_value) at h))
    | inr (raw, good) ↦ validate_sound raw w (rw (good, check_value) at h)
  ]
  check_value_sound _ w h = cc

  -- A workflow that the parser returns is well formed: its node names are distinct, every edge joins
  -- two of its nodes and none is a self-loop, every input that the plugin of a node requires has a
  -- value, and the edges have no cycle (a rank puts each node above its parents).
  pub parse_dag-IsWellFormed :
      (text : String) (w : Workflow)
      → parse_dag json_parse check_schema required text ≡ ok w
      → IsWellFormed required w.nodes w.edges
  unfolding parse_dag
  parse_dag-IsWellFormed text w h = elim (Option-cases (json_parse text)) [
    | inl bad ↦ absurd (cc (rw (bad, parse_dag) at h))
    | inr (v, good) ↦ check_value_sound v w (rw (good, parse_dag) at h)
  ]

  -- The parser refuses nothing else: once the schema has passed and the inputs and outputs are
  -- normalised, a workflow is returned exactly if it is well formed, with those nodes and unchanged
  -- edges.
  pub validate_iff :
      (raw : RawWorkflow) (nodes : List Node)
      → normalize_nodes raw.raw_nodes ≡ ok nodes
      → (validate json_parse check_schema required raw
          ≡ ok (record (raw.workflow) { nodes = nodes }))
        ↔ IsWellFormed required nodes raw.workflow.edges
  unfolding validate
  validate_iff raw nodes normal = (
    (λ h. validate_sound raw _ h),
    λ good. rw normal (check_nodes_complete required raw.workflow nodes good),
  )
