-- ===== src/Engine/Executor/Ending.antt =====
-- How the loop ends, and how the nodes that were not reached are recorded.
use daisy_workflow.Common.{
  ℕ, zero, suc, ◌+◌, ◌<◌, String, ◌≡◌, refl, ◌∙◌, ◌⊎◌, inl, inr, Bool, true, false, not, ◌&&◌, ◌||◌,
  none, some, List, [], ◌∷◌, ◌==◌, eq_iff, arith, eqb, update, if◌then◌else◌, Bool-cases, length,
  is_some, elem, elem-keep, Distinct, Distinct-keep, Within, length-le_of_Within,
}
use daisy_workflow.Js.{Value, is_inherited}
use daisy_workflow.Dsl.Graph.{indegrees}
use daisy_workflow.Dsl.Graph.Frontier.{blocked-eq-indegrees, times}
use daisy_workflow.Dsl.Workflow.{Node}
use daisy_workflow.Engine.Executor.State.{Status, pending, Reason, Outcome, State}
use daisy_workflow.Engine.Executor.Nodes.{blank, has_status}
use daisy_workflow.Engine.Executor.Schedule.{
  Setup, is_waiting_status, node_names, names_of, edges_of, run_layer, release_one, release_all,
  loop, is_aborted, is_empty, mark_pending, has_result, fresh, first_ready,
}
use daisy_workflow.Engine.Executor.Shuffling.{is_ended}
use daisy_workflow.Engine.Executor.Layer.{IsLayered, run_layer-IsLayered}
use daisy_workflow.Engine.Executor.Rounds.{
  IsOrderly, result_of, result-of_inherited, missing_of, Invariant, due, layered-IsOrderly,
  next_Invariant,
}

node_names-Distinct : (nodes : List Node) → Distinct (node_names nodes)
unfolding node_names
node_names-Distinct [] = tt
node_names-Distinct (n ∷ ns) = (
  ground (arith, elem-keep (λ m. not (m == n.name)) n.name (node_names ns), eq_iff n.name n.name),
  Distinct-keep (λ m. not (m == n.name)) (node_names ns) (node_names-Distinct ns),
)

release_one-results : (r : Setup) (x : String) (s : State) → (release_one r x s).results ≡ s.results
unfolding release_one
release_one-results r x s = elim (Bool-cases (has_status is_waiting_status (s.results x))) [
  | inl waits ↦ rw (waits, if◌then◌else◌)
  | inr goes ↦ rw (goes, if◌then◌else◌)
]

pub release_all-results :
    (r : Setup) (xs : List String) (s : State) → (release_all r xs s).results ≡ s.results
unfolding release_all
release_all-results r [] s = refl
release_all-results r (x ∷ xs) s = release_all-results r xs _ ∙ release_one-results r x s

head_of : (q : List String) → is_empty q ≡ false → (x : String) × (xs : List String) × (q ≡ x ∷ xs)
head_of [] h = absurd (cc)
head_of (x ∷ xs) h = (x, xs, refl)

module _ (r : Setup) where
  -- The loop has stopped for an abortion or a fault, or because nothing is ready.
  abbrev pub HasStopped : State → Type 0
  HasStopped s = ((s.faulted || is_aborted s) ≡ true) ⊎ Invariant r s × (is_empty s.ready ≡ true)

  -- Nodes that have ended: the measure of the loop.
  pub record Spent (done : List String) (s : State) : Type 0 where
    pub distinct : Distinct done
    pub within : Within done (names_of r)
    pub ended : (m : String) → elem m done ≡ true → has_status is_ended (s.results m) ≡ true

  spend :
      (x : String) (xs : List String) (done : List String) (s s' : State)
      → s.ready ≡ x ∷ xs
      → Invariant r s
      → IsLayered r s.ready (record s { ready = [] }) s'
      → Spent done s
      → Spent (x ∷ done) (release_all r s.ready s')
  unfolding elem
  spend x xs done s s' e inv l sp =
      let first : elem x s.ready ≡ true = rw e (ground (arith, eq_iff x x)) in
      let new = due r s inv in
      record {
        distinct = (ground (arith, sp.ended x, new.fresh x first), sp.distinct);
        within = λ m h. ground (arith, sp.within m, new.listed x first, eq_iff x m);
        ended = λ m h. rw (release_all-results r s.ready s') (elim (Bool-cases (elem m s.ready)) [
          | inl now ↦ l.ended m now
          | inr before ↦ rw (l.others m before) (sp.ended m (ground (arith, eq_iff x m)))
        ]);
      }

  pub loop-IsOrderly :
      (fuel i : ℕ) (s : State) → Invariant r s → IsOrderly r (loop r fuel i s).results
  unfolding loop
  loop-IsOrderly zero i s inv = inv.orderly
  loop-IsOrderly (suc fuel) i s inv =
      let l = run_layer-IsLayered r i s (due r s inv) in
      elim (Bool-cases (is_empty s.ready || is_aborted s)) [
        | inl stop ↦ rw (stop, loop) inv.orderly
        | inr go ↦ elim (Bool-cases ((run_layer r i s).faulted || is_aborted (run_layer r i s))) [
          | inl stop ↦ rw (go, loop, stop) (layered-IsOrderly r s _ inv l)
          | inr on ↦ rw (go, loop, on) (loop-IsOrderly fuel (i + 1) _ (next_Invariant r s _ inv l))
        ]
      ]

  -- Enough fuel: a round for every node that has not ended, and one more.
  pub loop_stops :
      (fuel i : ℕ) (done : List String) (s : State)
      → length (names_of r) < fuel + length done
      → Spent done s
      → Invariant r s
      → HasStopped (loop r fuel i s)
  unfolding loop
  loop_stops zero i done s enough sp inv =
      absurd (omega (arith, length-le_of_Within done (names_of r) sp.distinct sp.within))
  loop_stops (suc fuel) i done s enough sp inv =
      elim (Bool-cases (is_empty s.ready || is_aborted s)) [
        | inl stop ↦ rw (stop, loop) (halted s inv stop)
        | inr go ↦ elim (Bool-cases ((run_layer r i s).faulted || is_aborted (run_layer r i s))) [
          | inl stop ↦ rw (go, loop, stop) (inl stop)
          | inr on ↦
              let (x, xs, e) = head_of s.ready (ground arith) in
              rw (go, loop, on)
                (loop_stops fuel (i + 1) (x ∷ done) (release_all r s.ready (run_layer r i s))
                  (omega arith) (spend x xs done s (run_layer r i s) e inv l sp)
                  (next_Invariant r s (run_layer r i s) inv l))
        ]
      ]
    where
      l : IsLayered r s.ready (record s { ready = [] }) (run_layer r i s)
      l = run_layer-IsLayered r i s (due r s inv)

      halted :
          (t : State) → Invariant r t → (is_empty t.ready || is_aborted t) ≡ true → HasStopped t
      halted t it h = elim (Bool-cases (is_aborted t)) [
        | inl a ↦ inl (ground arith)
        | inr b ↦ inr (it, ground arith)
      ]

  -- The start of a run that resumes nothing.
  pub start_Invariant :
      (initial_data : List (String × Value))
      → Invariant r (first_ready r (fresh r.workflow initial_data))
  unfolding fresh first_ready elem times
  start_Invariant initial_data = record {
    queue = record {
      count = λ n. omega (arith, blocked-eq-indegrees (λ m. false) n (edges_of r) (λ m. refl));
      zero_in = λ n e. ground (arith, elem-keep starts n (names_of r));
      fresh = λ n e. ground (arith, elem-keep starts n (names_of r));
      known = λ n e. ground (arith, elem-keep starts n (names_of r));
      full = λ n dn o z. ground (arith, elem-keep starts n (names_of r));
      distinct = Distinct-keep starts (names_of r) (node_names-Distinct r.workflow.nodes);
    };
    recorded = λ n h. cc;
    orderly = record { ordered = λ n h. cc; cascade = λ n h. cc };
  }
    where
      starts : String → Bool
      starts x = not (has_result (λ n. none) x) && eqb (indegrees (edges_of r) x) 0

-- Recording the nodes that were not reached changes no other status.
module _ (write : String → Outcome → State → State) (why : Reason)
    (writes : (x : String) (o : Outcome) (s : State)
      → ((write x o s).results ≡ update s.results x (some o))
        × ((write x o s).aborting ≡ s.aborting)) where
  abbrev unreached : Outcome
  unreached = record blank { status = pending; reason = some why }

  pub mark_pending-has_status :
      (test : Status → Bool) (xs : List String) (s : State) (n : String)
      → test pending ≡ false
      → has_status test ((mark_pending write why xs s).results n) ≡ has_status test (s.results n)
  unfolding mark_pending
  mark_pending-has_status test [] s n h = refl
  mark_pending-has_status test (x ∷ xs) s n h =
      mark_pending-has_status test xs _ n h ∙ elim (Bool-cases (has_result s.results x)) [
        | inl there ↦ rw there
        | inr new ↦
            rw (new, if◌then◌else◌, (writes x unreached s).0)
              (ground (arith, eq_iff x n, missing_of s.results x new, h))
      ]

  pub mark_pending-aborting :
      (xs : List String) (s : State) → (mark_pending write why xs s).aborting ≡ s.aborting
  unfolding mark_pending
  mark_pending-aborting [] s = refl
  mark_pending-aborting (x ∷ xs) s =
      let o = unreached in
      ground (
        arith,
        mark_pending-aborting xs (if has_result s.results x then s else write x o s),
        (writes x o s).1,
      )

  pub mark_pending-recorded :
      (xs : List String) (s : State) (n : String)
      → is_inherited n ≡ false
      → (elem n xs || is_some (s.results n)) ≡ true
      → is_some ((mark_pending write why xs s).results n) ≡ true
  unfolding mark_pending elem
  mark_pending-recorded [] s n own h = ground arith
  mark_pending-recorded (x ∷ xs) s n own h =
      mark_pending-recorded xs _ n own (elim (Bool-cases (has_result s.results x)) [
        | inl there ↦
            rw (there, if◌then◌else◌)
              (ground (arith, eq_iff x n, there, h, own, result_of s.results n))
        | inr new ↦
            rw (new, if◌then◌else◌, (writes x unreached s).0) (ground (arith, eq_iff x n, h))
      ])

  pub mark_pending-is_inherited :
      (xs : List String) (s : State) (n : String)
      → is_inherited n ≡ true
      → (mark_pending write why xs s).results n ≡ s.results n
  unfolding mark_pending
  mark_pending-is_inherited [] s n own = refl
  mark_pending-is_inherited (x ∷ xs) s n own =
      mark_pending-is_inherited xs _ n own ∙ elim (Bool-cases (has_result s.results x)) [
        | inl there ↦ rw there
        | inr new ↦
            rw (new, if◌then◌else◌, (writes x unreached s).0)
              (ground (arith, eq_iff x n, new, result-of_inherited s.results n own))
      ]
