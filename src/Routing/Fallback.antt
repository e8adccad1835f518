-- ===== src/Routing/Fallback.antt =====
-- The fallback chain: the first agent that answers, after failures that may be retried.
use mathlib.Core.List.{append_assoc, append-nil}
use daisy_workflow.Common.{
  ℕ, suc, ◌+◌, String, ◌≡◌, refl, sym, ap, subst, ◌∙◌, inl, inr, Bool, true, false, ◌&&◌, Option,
  none, List, [], ◌∷◌, ◌++◌, arith, Bool-cases, length, Result, ok, err, Result-cases,
}
use daisy_workflow.Js.{Value}
use daisy_workflow.Routing.{
  Thrown, Route, chain, Dispatched, answered, failed_with, exhausted, is_retryable, plan_route,
  run_chain, run_plan, dispatch,
}

-- A call that failed in a way that lets the next agent be tried.
abbrev pub falls_through : Result (Option Thrown) Value → Bool
falls_through (ok out) = false
falls_through (err e) = is_retryable e

module _ (call : ℕ → String → Result (Option Thrown) Value) where
  -- The calls of these agents, from number `i` on, have all fallen through.
  abbrev pub all_fell : ℕ → List String → Bool
  all_fell i [] = true
  all_fell i (a ∷ rest) = falls_through (call i a) && all_fell (i + 1) rest

  -- What each end of the loop means for the chain.
  abbrev pub IsExplained : ℕ → List String → List String → Dispatched → Type 0
  IsExplained i tried agents (answered out picked all_tried) =
      (before : List String) × (after : List String) × (agents ≡ before ++ picked ∷ after)
      × (all_tried ≡ tried ++ (before ++ picked ∷ []))
      × (all_fell i before ≡ true)
      × (call (i + length before) picked ≡ ok out)
  IsExplained i tried agents (failed_with e) =
      (before : List String) × (picked : String) × (after : List String) × (agents
        ≡ before ++ picked ∷ after)
      × (all_fell i before ≡ true)
      × (call (i + length before) picked ≡ err e)
      × (is_retryable e ≡ false)
  IsExplained i tried agents (exhausted all_tried e) =
      (all_tried ≡ tried ++ agents) × (all_fell i agents ≡ true)
  IsExplained i tried agents (Dispatched.refused e) = ⊥

  at_start :
      (i : ℕ) (a : String) (r : Result (Option Thrown) Value) → call i a ≡ r → call (i + 0) a ≡ r
  at_start i a r e = let same : i ≡ i + 0 = omega arith in subst (λ k. call k a ≡ r) same e

  one_later :
      (i : ℕ) (before : List String) (p : String) (r : Result (Option Thrown) Value)
      → call (i + 1 + length before) p ≡ r
      → call (i + suc (length before)) p ≡ r
  one_later i before p r e =
      let same : i + 1 + length before ≡ i + suc (length before) = omega arith in
      subst (λ k. call k p ≡ r) same e

  -- A first call that falls through, and what the loop makes of the rest.
  prepend :
      (i : ℕ) (tried rest : List String) (a : String) (f : Option Thrown) (d : Dispatched)
      → call i a ≡ err f
      → is_retryable f ≡ true
      → IsExplained (i + 1) (tried ++ a ∷ []) rest d
      → IsExplained i tried (a ∷ rest) d
  prepend i tried rest a f (answered out picked all_tried) e again
        (before, after, split, log, fell, got) =
      (
        a ∷ before,
        after,
        ap (λ l. a ∷ l) split,
        log ∙ append_assoc tried (a ∷ []) (before ++ picked ∷ []),
        rw (e, again) fell,
        one_later i before picked (ok out) got,
      )
  prepend i tried rest a f (failed_with g) e again (before, picked, after, split, fell, got, stop) =
      (
        a ∷ before,
        picked,
        after,
        ap (λ l. a ∷ l) split,
        rw (e, again) fell,
        one_later i before picked (err g) got,
        stop,
      )
  prepend i tried rest a f (exhausted all_tried g) e again (log, fell) =
      (log ∙ append_assoc tried (a ∷ []) rest, rw (e, again) fell)
  prepend i tried rest a f (Dispatched.refused g) e again never = absurd never

  run_chain-IsExplained :
      (i : ℕ) (tried : List String) (last_err : Option Thrown) (agents : List String)
      → IsExplained i tried agents (run_chain call i tried last_err agents)
  unfolding run_chain
  run_chain-IsExplained i tried last_err [] = (sym (append-nil tried), refl)
  run_chain-IsExplained i tried last_err (a ∷ rest) = elim (Result-cases (call i a)) [
    | inl (out, e) ↦ rw (e, run_chain) ([], rest, refl, refl, refl, at_start i a (ok out) e)
    | inr (f, e) ↦ elim (Bool-cases (is_retryable f)) [
      | inl again ↦
          rw (e, run_chain, again)
            (prepend i tried rest a f _ e again
              (run_chain-IsExplained (i + 1) (tried ++ a ∷ []) f rest))
      | inr stop ↦ rw (e, run_chain, stop) ([], a, rest, refl, refl, at_start i a (err f) e, stop)
    ]
  ]

  -- The dispatch over a fallback chain gives the output of the first agent that answers, all before
  -- it having failed in a way that may be retried, with the agents up to it as those tried; it ends
  -- early only with an error that may not be retried; and it reports the chain as exhausted only when
  -- every agent of it has been tried and has failed in a way that may be retried.
  pub dispatch-IsExplained :
      (route : Route) (tier : String) (agents : List String)
      → plan_route route tier ≡ ok (chain agents)
      → IsExplained 0 [] agents (dispatch call route tier)
  unfolding dispatch run_plan
  dispatch-IsExplained route tier agents h =
      rw (h, run_plan) (run_chain-IsExplained 0 [] none agents)
