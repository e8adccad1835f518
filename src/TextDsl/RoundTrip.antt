-- ===== src/TextDsl/RoundTrip.antt =====
-- A model that is serialized and parsed is the same model.
use mathlib.Core.List.{append_assoc}
use daisy_workflow.Common.{
  ℕ, zero, suc, ◌≤◌, ◌≡◌, refl, true, false, List, [], ◌∷◌, ◌++◌, map, arith, length, length-append,
  all, ok,
}
use daisy_workflow.TextDsl.Lexer.{Token, equals, colon, punct, ident, eof}
use daisy_workflow.TextDsl.Parser.{
  Node, Edge, Model, match_punct, match_step, tail, step, steps, edges, program, parse,
}
use daisy_workflow.TextDsl.Serializer.{serialize}
use daisy_workflow.TextDsl.Canonical.{
  is_node, is_expressible, args_tokens, outputs_tokens, additions_of, wrapper_tokens, step_tokens,
  edge_tokens, flatten, model_tokens,
}
use daisy_workflow.TextDsl.Printed.{tokenize-serialize}
use daisy_workflow.TextDsl.Reading.{step-step_tokens}

-- No step goes on with what comes after the steps.
abbrev Ends : List Token → Type 0
Ends ts = (match_punct colon ts ≡ false) × (match_step ts ≡ false)

steps_open :
    (ns : List Node) (rest : List Token)
    → Ends rest
    → match_punct colon (flatten (map step_tokens ns) ++ rest) ≡ false
unfolding step_tokens
steps_open [] rest h = h.0
steps_open (n ∷ ns) rest h = refl

first_step :
    (n : Node) (rest : List Token)
    → match_punct colon rest ≡ false
    → is_node n ≡ true
    → (match_step (step_tokens n ++ rest) ≡ true)
      × (step (tail (step_tokens n ++ rest)) ≡ ok (n, rest))
unfolding step_tokens
first_step n rest h k = (refl, step-step_tokens n rest h k)

steps-step_tokens :
    (ns : List Node) (fuel : ℕ) (rest : List Token)
    → length ns ≤ fuel
    → Ends rest
    → all is_node ns ≡ true
    → steps fuel (flatten (map step_tokens ns) ++ rest) ≡ ok (ns, rest)
unfolding steps
steps-step_tokens [] zero rest l h k = rw (h.1) refl
steps-step_tokens [] (suc fuel) rest l h k = rw (h.1) refl
steps-step_tokens (n ∷ ns) zero rest l h k = absurd (omega arith)
steps-step_tokens (n ∷ ns) (suc fuel) rest l h k =
    let later = flatten (map step_tokens ns) ++ rest in
    let first = first_step n later (steps_open ns rest h) (ground arith) in
    rw
      (
        append_assoc (step_tokens n) (flatten (map step_tokens ns)) rest,
        first.0,
        first.1,
        steps-step_tokens ns fuel rest (omega arith) h (ground arith),
      )
      refl

edges_end : (es : List Edge) → Ends (flatten (map edge_tokens es) ++ eof ∷ [])
edges_end [] = (refl, refl)
edges_end (e ∷ es) = (refl, refl)

edges-edge_tokens : (es : List Edge) → edges (flatten (map edge_tokens es) ++ eof ∷ []) ≡ ok es
unfolding edges
edges-edge_tokens [] = refl
edges-edge_tokens (e ∷ es) = rw (edges-edge_tokens es) refl

length-step_tokens : (ns : List Node) → length ns ≤ length (flatten (map step_tokens ns))
unfolding step_tokens
length-step_tokens [] = omega arith
length-step_tokens (n ∷ ns) =
    let ws = wrapper_tokens (additions_of n) in
    let sign = punct equals ∷ ident n.action ∷ (args_tokens n.inputs ++ outputs_tokens n.outputs) in
    omega
      (arith, length-append {0} (ws ++ sign) (flatten (map step_tokens ns)), length-step_tokens ns)

program-model_tokens :
    (m : Model) → is_expressible m ≡ true → program (model_tokens m ++ eof ∷ []) ≡ ok m
unfolding program model_tokens is_expressible
program-model_tokens m h =
    let links = flatten (map edge_tokens m.edges) ++ eof ∷ [] in
    rw
      (
        append_assoc (flatten (map step_tokens m.nodes)) (flatten (map edge_tokens m.edges))
            (eof ∷ []),
        steps-step_tokens m.nodes (length (flatten (map step_tokens m.nodes) ++ links)) links
            (omega (
              arith,
              length-append {0} (flatten (map step_tokens m.nodes)) links,
              length-step_tokens m.nodes,
            ))
            (edges_end m.edges) (ground arith),
        edges-edge_tokens m.edges,
      )
      refl

-- A model whose names and keys are words and no keywords, whose texts can be quoted, whose objects
-- have no key twice, and whose additions are not empty is given back, the same in every field, by
-- the parser on its serialized text.
pub parse-serialize : (m : Model) → is_expressible m ≡ true → parse (serialize m) ≡ ok m
unfolding parse
parse-serialize m h = rw (tokenize-serialize m h) (program-model_tokens m h)
