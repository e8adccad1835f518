-- ===== src/Dsl/Graph.antt =====
-- The edges of a workflow graph, and the loop body that the cycle check of backend/src/dsl/parser.js
-- and the scheduler of backend/src/engine/executor.js share: for each successor of a finished node,
-- count one dependency less, and queue it when none is left.
pub mod Frontier
use daisy_workflow.Common.{
  ℕ, ◌+◌, ◌-◌, String, Bool, true, false, not, ◌&&◌, List, [], ◌∷◌, ◌++◌, ◌==◌, update, eqb,
  if◌then◌else◌,
}

pub record Edge : Type 0 where
  pub from : String
  pub to : String

-- `adj.get(name)`
unfoldable pub targets : String → List Edge → List String
targets n [] = []
targets n (e ∷ es) = let rest = targets n es in if e.from == n then e.to ∷ rest else rest

-- `parents.get(name)`
unfoldable pub parents : String → List Edge → List String
parents n [] = []
parents n (e ∷ es) = let rest = parents n es in if e.to == n then e.from ∷ rest else rest

-- `indegree`: one for each edge into a node.
unfoldable pub indegrees : List Edge → String → ℕ
indegrees [] n = 0
indegrees (e ∷ es) n = (if e.to == n then 1 else 0) + indegrees es n

-- The inner loop over `adj.get(name)`. A count that reaches 0 queues its node, unless the node is
-- taken. The counts are natural numbers: a count that the source would take below 0 stays at 0 here,
-- and queues nothing in either.
unfoldable pub relax :
    (String → Bool) → List String → (String → ℕ) → List String → (String → ℕ) × List String
relax taken [] d q = (d, q)
relax taken (t ∷ ts) d q =
    relax taken ts (update d t (d t - 1)) (if eqb (d t) 1 && not (taken t) then q ++ t ∷ [] else q)
