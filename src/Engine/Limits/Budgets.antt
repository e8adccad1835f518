-- ===== src/Engine/Limits/Budgets.antt =====
-- The token budget.
use daisy_workflow.Common.{
  ℕ, ◌+◌, ◌≤◌, ◌<◌, Bool, true, false, List, [], ◌∷◌, ltb, ok, err, ◌≡◌, Bool-cases, inl, inr, ◌↔◌,
  arith,
}
use daisy_workflow.Js.{Number}
use daisy_workflow.Dsl.Workflow.{Workflow}
use daisy_workflow.Engine.Limits.{Env, resolve_max_tokens, int32_or_zero, charge_tokens}

module _ (env : Env) (w : Workflow) where
  -- Calls of chargeTokens on one context, in order, up to the first that throws.
  unfoldable pub charge_all : ℕ → List Number → ℕ × Bool
  charge_all before [] = (before, true)
  charge_all before (u ∷ us) = elim ((charge_tokens env w before u).1) [
    | ok after ↦ charge_all after us
    | err e ↦ ((charge_tokens env w before u).0, false)
  ]

  abbrev pub total : List Number → ℕ
  total [] = 0
  total (u ∷ us) = int32_or_zero u + total us

  -- With a budget, no call of a sequence throws exactly if the sum of what they use keeps within the
  -- budget, and then that sum is what is recorded.
  pub charge_all_iff :
      (before : ℕ) (us : List Number)
      → 0 < resolve_max_tokens env w
      → before ≤ resolve_max_tokens env w
      → (charge_all before us ≡ (before + total us, true))
        ↔ (before + total us ≤ resolve_max_tokens env w)
  unfolding charge_all charge_tokens
  charge_all_iff before [] pos fits = ground arith
  charge_all_iff before (u ∷ us) pos fits =
      let after = before + int32_or_zero u in
      elim (Bool-cases (ltb (resolve_max_tokens env w) after)) [
        | inl over ↦ ground arith
        | inr under ↦
            let (to, back) = charge_all_iff after us pos (ground arith) in ground (arith, to, back)
      ]
