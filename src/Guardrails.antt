-- ===== src/Guardrails.antt =====
-- backend/src/guardrails/apply.js: the policy of a project and its cache, the overrides of an agent,
-- and the detectors that a text goes through. The detectors and the query are parameters. A text that
-- is null or not there is empty; the details of a violation are left out.
pub mod Accounting
pub mod Policies
mod Tests
use daisy_workflow.Common.{
  or_text, ℕ, ◌+◌, String, Bool, true, false, not, ◌&&◌, ◌||◌, Option, none, some, List, [], ◌∷◌,
  ◌++◌, ◌==◌, or_else, if◌then◌else◌, ltb, update, Result, ok, err,
}
use daisy_workflow.Js.{Value}

-- The settings of one detector; a key that is not there is `none`.
pub record Setting : Type 0 where
  pub enabled : Option Bool
  pub mode : Option String
  pub types : Option Value
  pub threshold : Option Value
  pub categories : Option Value

pub record Detectors (A : Type 0) : Type 0 where
  pub pii : A
  pub toxicity : A
  pub jailbreak : A

pub record Policy : Type 0 where
  pub apply_to : String
  pub config : Detectors Setting

-- A row of guardrail_policies, or the override of an agent without its flat form.
pub record PartialPolicy : Type 0 where
  pub apply_to : String
  pub config : Option (Detectors (Option Setting))

-- The override of an agent: either shape, or both.
pub record Override : Type 0 where
  pub nested : PartialPolicy
  pub flat : Detectors (Option Setting)

-- `{ ...base, ...(part || {}) }`
unfoldable pub spread : Setting → Option Setting → Setting
spread base none = base
spread base (some part) = record {
  enabled = or_else part.enabled base.enabled;
  mode = or_else part.mode base.mode;
  types = or_else part.types base.types;
  threshold = or_else part.threshold base.threshold;
  categories = or_else part.categories base.categories;
}

abbrev pub parts : Option (Detectors (Option Setting)) → Detectors (Option Setting)
parts none = record { pii = none; toxicity = none; jailbreak = none }
parts (some d) = d

unfoldable pub merge_on_default : Policy → PartialPolicy → Policy
unfolding spread
merge_on_default base row =
    let d = parts row.config in
    record {
      apply_to = or_text row.apply_to base.apply_to;
      config = record {
        pii = spread base.config.pii d.pii;
        toxicity = spread base.config.toxicity d.toxicity;
        jailbreak = spread base.config.jailbreak d.jailbreak;
      };
    }

unfoldable pub merge_policy : Policy → Option Override → Policy
unfolding spread
merge_policy project none = project
merge_policy project (some o) =
    let d = parts o.nested.config in
    record {
      apply_to = or_text o.nested.apply_to project.apply_to;
      config = record {
        pii = spread project.config.pii (or_else d.pii o.flat.pii);
        toxicity = spread project.config.toxicity (or_else d.toxicity o.flat.toxicity);
        jailbreak = spread project.config.jailbreak (or_else d.jailbreak o.flat.jailbreak);
      };
    }

-- The cache: a policy for a project, and when it runs out.
abbrev pub Cache : Type 0
Cache = String → Option (Policy × ℕ)

abbrev pub cache_ttl_ms : ℕ
cache_ttl_ms = 30_000

-- The answer of the query: the row of the project, none, or a failure.
abbrev pub queried : Policy → Result String (Option PartialPolicy) → Policy
queried default (ok (some row)) = merge_on_default default row
queried default (ok none) = default
queried default (err e) = default

abbrev pub fetch :
    Policy → Result String (Option PartialPolicy) → ℕ → String → Cache → Policy × Cache
fetch default answer now project cache =
    let policy = queried default answer in
    (policy, update cache project (some (policy, now + cache_ttl_ms)))

-- `if (hit && hit.expiresAt > Date.now()) return hit.policy`
abbrev pub on_hit : Option (Policy × ℕ) → ℕ → Cache → Policy × Cache → Policy × Cache
on_hit none now cache miss = miss
on_hit (some (policy, expires_at)) now cache miss =
    if ltb now expires_at then (policy, cache) else miss

unfoldable pub load_project_policy :
    Policy → Result String (Option PartialPolicy) → ℕ → String → Cache → Policy × Cache
unfolding merge_on_default
load_project_policy default answer now project cache =
    let miss = fetch default answer now project cache in
    if project == "" then (default, cache) else on_hit (cache project) now cache miss

unfoldable pub evict_policy_cache : String → Cache → Cache
evict_policy_cache project cache = if project == "" then cache else update cache project none

-- What a detector finds.
pub record Detection : Type 0 where
  pub flagged : Bool
  pub redacted : Option String

pub data Action : Type 0 where
  blocked_it redacted_it warned : Action

pub record Violation : Type 0 where
  pub detector : String
  pub mode : Option String
  pub action_taken : Action

-- A text that is let through with the violations that are recorded, or GuardrailBlockedError with
-- the violations that were recorded before it was thrown.
pub data Guarded : Type 0 where
  let_through : String → List Violation → Guarded
  blocked : String → List Violation → Guarded

abbrev pub is_enabled : Setting → Bool
is_enabled s = elim (s.enabled) [ some true ↦ true | _ ↦ false ]

abbrev mode_is : String → Setting → Bool
mode_is m s = elim (s.mode) [ none ↦ false | some n ↦ n == m ]

unfoldable pub action_of : Setting → Detection → Action
action_of s d =
    if mode_is "block" s
    then blocked_it
    else if mode_is "redact" s
    then elim (d.redacted) [ none ↦ warned | some t ↦ redacted_it ]
    else warned

abbrev pub with_redaction : Option String → String → String
with_redaction none text = text
with_redaction (some t) text = t

abbrev pub with_violation : List Violation → String → Setting → Action → List Violation
with_violation violations name cfg a =
    violations ++ record { detector = name; mode = cfg.mode; action_taken = a } ∷ []

-- The end of the loop's body, before `run` goes on.
unfoldable pub act :
    (String → List Violation → Guarded)
    → String
    → Setting
    → Detection
    → String
    → List Violation
    → Action
    → Guarded
act run name cfg d current violations blocked_it =
    blocked name (with_violation violations name cfg blocked_it)
act run name cfg d current violations redacted_it =
    run (with_redaction d.redacted current) (with_violation violations name cfg redacted_it)
act run name cfg d current violations warned =
    run current (with_violation violations name cfg warned)

module _ (detect : String → String → Setting → Result String Detection) where
  -- The loop over the detectors, from the text and the violations so far.
  unfoldable pub run_detectors : List (String × Setting) → String → List Violation → Guarded
  unfolding action_of act
  run_detectors [] current violations = let_through current violations
  run_detectors ((name, cfg) ∷ rest) current violations =
      let skip = run_detectors rest current violations in
      elim (is_enabled cfg) [
        | false ↦ skip
        | true ↦ elim (detect name current cfg) [
          | err e ↦ skip
          | ok d ↦ elim (d.flagged) [
            | false ↦ skip
            | true ↦ act (run_detectors rest) name cfg d current violations (action_of cfg d)
          ]
        ]
      ]

  -- RUN_ORDER, with the settings of the policy.
  unfoldable pub apply_guardrails : String → String → Policy → Guarded
  unfolding run_detectors
  apply_guardrails text side policy =
      let run =
        run_detectors
          (("pii", policy.config.pii)
            ∷ ("jailbreak", policy.config.jailbreak)
            ∷ ("toxicity", policy.config.toxicity)
            ∷ [])
          text [] in
      if text == "" || policy.apply_to == "none"
      then let_through text []
      else if not (policy.apply_to == "both") && not (policy.apply_to == side)
      then let_through text []
      else run
