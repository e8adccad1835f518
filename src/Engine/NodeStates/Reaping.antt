-- ===== src/Engine/NodeStates/Reaping.antt =====
-- The housekeeping at the start of a worker.
use daisy_workflow.Common.{
  ℕ, String, ◌≡◌, refl, ap, inl, inr, Bool, true, false, not, ◌&&◌, Option, none, some, List, [],
  ◌∷◌, map, ◌==◌, eq_iff, if◌then◌else◌, Bool-cases, arith, all, elem,
}
use daisy_workflow.Engine.NodeStates.{
  Row, Table, Execution, is_orphan, reap_executions, reaped_ids, reap_row, reap_found, reap_nodes,
  reap_orphaned_executions,
}

-- A row of a node that runs.
abbrev pub is_running : Option Row → Bool
is_running none = false
is_running (some r) = r.status == "running"

reap_executions-settled :
    (active : List String) (now : ℕ) (xs : List Execution)
    → all (λ x. not (is_orphan active x)) (reap_executions active now xs) ≡ true
unfolding reap_executions
reap_executions-settled active now [] = refl
reap_executions-settled active now (x ∷ xs) = elim (Bool-cases (is_orphan active x)) [
  | inl orphan ↦ rw (orphan, if◌then◌else◌) (reap_executions-settled active now xs)
  | inr other ↦ rw (other, if◌then◌else◌, other) (reap_executions-settled active now xs)
]

reap_executions-ids :
    (active : List String) (now : ℕ) (xs : List Execution)
    → map (λ x. x.id) (reap_executions active now xs) ≡ map (λ x. x.id) xs
unfolding reap_executions
reap_executions-ids active now [] = refl
reap_executions-ids active now (x ∷ xs) = elim (Bool-cases (is_orphan active x)) [
  | inl orphan ↦ rw (orphan, if◌then◌else◌) (ap (λ l. x.id ∷ l) (reap_executions-ids active now xs))
  | inr other ↦ rw (other, if◌then◌else◌) (ap (λ l. x.id ∷ l) (reap_executions-ids active now xs))
]

found_settled :
    (ids : List String) (now : ℕ) (e : String) (o : Option Row)
    → (elem e ids && is_running (reap_found ids now e o)) ≡ false
unfolding reap_row
found_settled ids now e none = ground arith
found_settled ids now e (some r) = elim (Bool-cases (r.status == "running" && elem e ids)) [
  | inl taken ↦ rw (taken, if◌then◌else◌) (ground arith)
  | inr left ↦ rw (left, if◌then◌else◌) (ground arith)
]

found_others :
    (ids : List String) (now : ℕ) (e : String) (o : Option Row)
    → elem e ids ≡ false
    → reap_found ids now e o ≡ o
found_others ids now e none h = refl
found_others ids now e (some r) h = ground arith

-- After the housekeeping no execution is left running but those that are active, no execution is
-- lost, and no node of an execution that was reaped is left running.
pub reap_orphaned_executions-settled :
    (active : List String) (now : ℕ) (xs : List Execution) (t : Table) (e n : String)
    → (all (λ x. not (is_orphan active x)) (reap_orphaned_executions active now (xs, t)).0.0 ≡ true)
      × (map (λ x. x.id) (reap_orphaned_executions active now (xs, t)).0.0 ≡ map (λ x. x.id) xs)
      × ((elem e (reap_orphaned_executions active now (xs, t)).1
            && is_running ((reap_orphaned_executions active now (xs, t)).0.1 e n))
          ≡ false)
unfolding reap_orphaned_executions reap_nodes
reap_orphaned_executions-settled active now xs t e n = (
  reap_executions-settled active now xs,
  reap_executions-ids active now xs,
  found_settled (reaped_ids active xs) now e (t e n),
)

active_spared :
    (active : List String) (xs : List Execution) (e : String)
    → elem e active ≡ true
    → elem e (reaped_ids active xs) ≡ false
unfolding reaped_ids elem
active_spared active [] e h = refl
active_spared active (x ∷ xs) e h = elim (Bool-cases (is_orphan active x)) [
  | inl orphan ↦
      rw (orphan, if◌then◌else◌) (ground (arith, eq_iff x.id e, active_spared active xs e h))
  | inr other ↦ rw (other, if◌then◌else◌) (active_spared active xs e h)
]

-- The nodes of an active execution are left as they are.
pub reap_orphaned_executions-spares :
    (active : List String) (now : ℕ) (xs : List Execution) (t : Table) (e n : String)
    → elem e active ≡ true
    → (reap_orphaned_executions active now (xs, t)).0.1 e n ≡ t e n
unfolding reap_orphaned_executions reap_nodes
reap_orphaned_executions-spares active now xs t e n h =
    found_others (reaped_ids active xs) now e (t e n) (active_spared active xs e h)
