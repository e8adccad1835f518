-- ===== src/Engine/NodeStates/Lifecycle.antt =====
-- The writes of one node's lifecycle add up.
use daisy_workflow.Common.{
  String, ◌≡◌, refl, sym, ap, ◌∙◌, false, ◌||◌, Option, none, some, List, [], ◌∷◌, map, ◌==◌,
  eq_refl, or_else, if◌then◌else◌,
}
use daisy_workflow.Engine.NodeStates.{
  Row, Partial, Table, defined, present, inserted, merged, on_conflict, upsert_node_state,
  reset_node_for_replay, reset_row,
}

-- The last and the first of the values that are there.
abbrev pub latest {ℓ} : {A : Type ℓ} → List (Option A) → Option A
latest [] = none
latest (v ∷ vs) = or_else (latest vs) v

abbrev pub earliest {ℓ} : {A : Type ℓ} → List (Option A) → Option A
earliest [] = none
earliest (v ∷ vs) = or_else v (earliest vs)

abbrev pub last_status : String → List Partial → String
last_status s [] = s
last_status s (p ∷ ps) = last_status p.status ps

-- What a row stands for after the writes: of each column the last value, of the start the first.
unfoldable pub summary : Row → List Partial → Row
summary r ps = record {
  status = last_status r.status ps;
  attempts = or_else (latest (map (λ p. p.attempts) ps)) r.attempts;
  resolved_inputs = or_else (latest (map (λ p. defined p.resolved_inputs) ps)) r.resolved_inputs;
  output = or_else (latest (map (λ p. present p.output) ps)) r.output;
  error = or_else (latest (map (λ p. p.error) ps)) r.error;
  reason = or_else (latest (map (λ p. p.reason) ps)) r.reason;
  started_at = or_else r.started_at (earliest (map (λ p. p.started_at) ps));
  finished_at = or_else (latest (map (λ p. p.finished_at) ps)) r.finished_at;
}

-- The writes of one node, in order.
unfoldable pub upsert_all : String → String → List Partial → Table → Table
upsert_all execution node [] t = t
upsert_all execution node (p ∷ ps) t =
    upsert_all execution node ps (upsert_node_state execution node p t)

or_else_assoc {ℓ} :
    {A : Type ℓ} (a b c : Option A) → or_else a (or_else b c) ≡ or_else (or_else a b) c
or_else_assoc none b c = refl
or_else_assoc (some x) b c = refl

or_else-none {ℓ} : {A : Type ℓ} (a : Option A) → or_else a none ≡ a
or_else-none none = refl
or_else-none (some x) = refl

summary-merged :
    (r : Row) (p : Partial) (ps : List Partial)
    → summary (merged r (inserted p)) ps ≡ summary r (p ∷ ps)
unfolding summary merged inserted
summary-merged r p ps =
    rw
      (
        or_else_assoc (latest (map (λ p. p.attempts) ps)) p.attempts r.attempts,
        or_else_assoc (latest (map (λ p. defined p.resolved_inputs) ps)) (defined p.resolved_inputs)
            r.resolved_inputs,
        or_else_assoc (latest (map (λ p. present p.output) ps)) (present p.output) r.output,
        or_else_assoc (latest (map (λ p. p.error) ps)) p.error r.error,
        or_else_assoc (latest (map (λ p. p.reason) ps)) p.reason r.reason,
        sym (or_else_assoc r.started_at p.started_at (earliest (map (λ p. p.started_at) ps))),
        or_else_assoc (latest (map (λ p. p.finished_at) ps)) p.finished_at r.finished_at,
      )
      refl

summary-nil : (r : Row) → summary r [] ≡ r
unfolding summary
summary-nil r = rw (or_else-none r.started_at) refl

upserted :
    (execution node : String) (p : Partial) (t : Table)
    → (execution == "" || node == "") ≡ false
    → upsert_node_state execution node p t execution node
      ≡ some (on_conflict (t execution node) (inserted p))
unfolding upsert_node_state
upserted execution node p t h = rw (h, if◌then◌else◌, eq_refl execution, eq_refl node) refl

upsert_all-existing :
    (execution node : String) (ps : List Partial) (t : Table) (r : Row)
    → (execution == "" || node == "") ≡ false
    → t execution node ≡ some r
    → upsert_all execution node ps t execution node ≡ some (summary r ps)
unfolding upsert_all
upsert_all-existing execution node [] t r h e = e ∙ ap some (sym (summary-nil r))
upsert_all-existing execution node (p ∷ ps) t r h e =
    upsert_all-existing execution node ps _ (merged r (inserted p)) h
      (upserted execution node p t h ∙ rw e refl)
    ∙ ap some (summary-merged r p ps)

-- The writes of a node's lifecycle, from an empty row on, add up: each column holds the last value
-- that was written to it, and the start the first.
pub upsert_all-summary :
    (execution node : String) (p : Partial) (ps : List Partial) (t : Table)
    → (execution == "" || node == "") ≡ false
    → t execution node ≡ none
    → upsert_all execution node (p ∷ ps) t execution node ≡ some (summary (inserted p) ps)
unfolding upsert_all
upsert_all-summary execution node p ps t h e =
    upsert_all-existing execution node ps _ (inserted p) h
      (upserted execution node p t h ∙ rw e refl)

reset_found :
    (execution node target : String) (t : Table) (r : Row)
    → t execution node ≡ some r
    → reset_node_for_replay execution node target t execution node ≡ some (reset_row target r)
unfolding reset_node_for_replay
reset_found execution node target t r e =
    rw (eq_refl execution, eq_refl node, if◌then◌else◌, e) refl

-- After a reset the output, the error and the end come from the writes of the new attempt alone; the
-- start is still that of the first attempt, if it had one.
pub reset_node_for_replay-upsert_all :
    (execution node target : String) (ps : List Partial) (t : Table) (r : Row)
    → (execution == "" || node == "") ≡ false
    → t execution node ≡ some r
    → (row : Row) × (upsert_all execution node ps
          (reset_node_for_replay execution node target t)
          execution
          node
        ≡ some row)
      × (row.output ≡ latest (map (λ p. present p.output) ps))
      × (row.error ≡ latest (map (λ p. p.error) ps))
      × (row.finished_at ≡ latest (map (λ p. p.finished_at) ps))
      × (row.started_at ≡ or_else r.started_at (earliest (map (λ p. p.started_at) ps)))
unfolding summary reset_row
reset_node_for_replay-upsert_all execution node target ps t r h e = (
  summary (reset_row target r) ps,
  upsert_all-existing execution node ps (reset_node_for_replay execution node target t)
      (reset_row target r) h (reset_found execution node target t r e),
  or_else-none _,
  or_else-none _,
  or_else-none _,
  refl,
)
