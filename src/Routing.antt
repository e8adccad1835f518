-- ===== src/Routing.antt =====
-- backend/src/routing/dispatcher.js: which agents a model route tries, and in which order. The agent
-- plugin is a parameter: what the call number `i` of the dispatch, of an agent, gives or throws.
pub mod Fallback
mod Tests
use daisy_workflow.Common.{
  or_text, ℕ, zero, suc, ◌+◌, String, Bool, true, false, not, ◌&&◌, ◌||◌, Option, none, some, List,
  [], ◌∷◌, ◌++◌, ◌==◌, if◌then◌else◌, keep, lookup, Result, ok, err,
}
use daisy_workflow.Js.{Value}

-- What an agent throws; `none` is a thrown null or undefined. A text that is not there is empty.
pub record Thrown : Type 0 where
  pub code : String
  pub message : String

-- `route.config`: a chain that is no array counts as none.
pub record Config : Type 0 where
  pub agent : String
  pub tiers : List (String × String)
  pub default : String
  pub chain : Option (List String)

pub record Route : Type 0 where
  pub title : String
  pub strategy : String
  pub config : Config

pub data PlanError : Type 0 where
  agent_required chain_empty : PlanError
  tier_undefined unknown_strategy : String → PlanError

pub data Plan : Type 0 where
  single : String → Plan
  chain : List String → Plan

unfoldable pub is_retryable : Option Thrown → Bool
is_retryable none = false
is_retryable (some e) =
    if e.code == "GUARDRAIL_BLOCKED" then false else not (e.code == "QUOTA_EXCEEDED")

-- `if (!target) throw …`
abbrev tier_of : String → Option String → Result PlanError Plan
tier_of wanted none = err (tier_undefined wanted)
tier_of wanted (some target) =
    if target == "" then err (tier_undefined wanted) else ok (single target)

abbrev chain_of : Option (List String) → List String
chain_of none = []
chain_of (some agents) = keep (λ a. not (a == "")) agents

abbrev non_empty_chain : List String → Result PlanError Plan
non_empty_chain [] = err chain_empty
non_empty_chain (a ∷ agents) = ok (chain (a ∷ agents))

unfoldable pub plan_route : Route → String → Result PlanError Plan
unfolding lookup
plan_route route tier =
    let wanted = or_text tier (or_text route.config.default "balanced") in
    if route.strategy == "static"
    then if route.config.agent == "" then err agent_required else ok (single route.config.agent)
    else if route.strategy == "tier"
    then tier_of wanted (lookup wanted route.config.tiers)
    else if route.strategy == "fallback"
    then non_empty_chain (chain_of route.config.chain)
    else err (unknown_strategy route.strategy)

-- What a dispatch ends in: the output with the agent that gave it and the agents that were tried,
-- what an agent threw, the exhausted chain with the last error, or a plan that was refused.
pub data Dispatched : Type 0 where
  answered : Value → String → List String → Dispatched
  failed_with : Option Thrown → Dispatched
  exhausted : List String → Option Thrown → Dispatched
  refused : PlanError → Dispatched

module _ (call : ℕ → String → Result (Option Thrown) Value) where
  -- The loop over the chain: `i` counts the calls, and `tried` and `last_err` are its variables.
  unfoldable pub run_chain : ℕ → List String → Option Thrown → List String → Dispatched
  unfolding is_retryable
  run_chain i tried last_err [] = exhausted tried last_err
  run_chain i tried last_err (candidate ∷ rest) = elim (call i candidate) [
    | ok out ↦ answered out candidate (tried ++ candidate ∷ [])
    | err e ↦ elim (is_retryable e) [
      | true ↦ run_chain (i + 1) (tried ++ candidate ∷ []) e rest
      | false ↦ failed_with e
    ]
  ]

  unfoldable pub run_plan : Result PlanError Plan → Dispatched
  unfolding run_chain
  run_plan (err e) = refused e
  run_plan (ok (single agent)) = elim (call 0 agent) [
    | ok out ↦ answered out agent []
    | err e ↦ failed_with e
  ]
  run_plan (ok (chain agents)) = run_chain 0 [] none agents

  unfoldable pub dispatch : Route → String → Dispatched
  unfolding plan_route run_plan
  dispatch route tier = run_plan (plan_route route tier)
