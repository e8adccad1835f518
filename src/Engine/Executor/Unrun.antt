-- ===== src/Engine/Executor/Unrun.antt =====
-- The nodes that never run: those that are named like an inherited property.
use daisy_workflow.Common.{
  ℕ, zero, suc, ◌+◌, length, String, ◌≡◌, refl, ◌∙◌, ap, subst, inl, inr, Bool, true, false, ◌||◌,
  none, [], Bool-cases, elem, arith,
}
use daisy_workflow.Js.{is_inherited}
use daisy_workflow.Engine.Executor.State.{State}
use daisy_workflow.Engine.Executor.Schedule.{
  Setup, Options, Overall, ended, names_of, has_result, is_aborted, is_empty, run_layer,
  release_all, loop, fresh, first_ready, execute_dag,
}
use daisy_workflow.Engine.Executor.Layer.{run_layer-IsLayered}
use daisy_workflow.Engine.Executor.Rounds.{Invariant, due, next_Invariant, result-of_inherited}
use daisy_workflow.Engine.Executor.Ending.{release_all-results, start_Invariant}
use daisy_workflow.Engine.Executor.Order.{start, IsReturned-fresh}

module _ (r : Setup) (n : String) (own : is_inherited n ≡ true) where
  not_queued : (s : State) → Invariant r s → elem n s.ready ≡ false
  not_queued s inv = elim (Bool-cases (elem n s.ready)) [
    | inl queued ↦ absurd (
        taken (has_result s.results n) _ (result-of_inherited s.results n own)
          (inv.queue.fresh n queued))
    | inr free ↦ free
  ]
    where
      taken : (a b : Bool) → a ≡ true → (a || b) ≡ false → ⊥
      taken a b h k = ground arith

  run_layer-none :
      (i : ℕ) (s : State) → Invariant r s → s.results n ≡ none → (run_layer r i s).results n ≡ none
  run_layer-none i s inv e =
      (run_layer-IsLayered r i s (due r s inv)).others n (not_queued s inv) ∙ e

  loop-none :
      (fuel i : ℕ) (s : State)
      → Invariant r s
      → s.results n ≡ none
      → (loop r fuel i s).results n ≡ none
  unfolding loop
  loop-none zero i s inv e = e
  loop-none (suc fuel) i s inv e = elim (Bool-cases (is_empty s.ready || is_aborted s)) [
    | inl stop ↦ rw (stop, loop) e
    | inr go ↦ elim (Bool-cases ((run_layer r i s).faulted || is_aborted (run_layer r i s))) [
      | inl stop ↦ rw (go, loop, stop) (run_layer-none i s inv e)
      | inr on ↦
          rw (go, loop, on)
            (loop-none fuel (i + 1) (release_all r s.ready (run_layer r i s))
              (next_Invariant r s _ inv (run_layer-IsLayered r i s (due r s inv)))
              (ap (λ f. f n) (release_all-results r s.ready (run_layer r i s))
                ∙ run_layer-none i s inv e))
    ]
  ]

-- A node that is named like an inherited property never runs and is never recorded, whatever its
-- parents do: a run that resumes nothing and returns has no result for it.
pub execute_dag-is_inherited :
    (r : Setup) (opts : Options) (o : Overall) (final : State) (n : String)
    → opts.initial_states ≡ []
    → execute_dag r opts ≡ ended o final
    → is_inherited n ≡ true
    → final.results n ≡ none
unfolding first_ready fresh
execute_dag-is_inherited r opts o final n e h own =
    let t = IsReturned-fresh r opts o final e h in
    t.concluded.untouched n own
    ∙ subst (λ (s : State). s.results n ≡ none) t.ran
        (loop-none r n own (suc (length (names_of r))) 0 (start r opts)
          (start_Invariant r opts.initial_data) refl)
