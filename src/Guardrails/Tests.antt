-- ===== src/Guardrails/Tests.antt =====
-- A policy that redacts addresses and blocks jailbreaks.
use daisy_workflow.Common.{
  String, ◌≡◌, refl, Bool, true, false, none, some, ◌==◌, arith, Result, ok, err, if◌then◌else◌,
}
use daisy_workflow.Guardrails.{
  Setting, Policy, Cache, load_project_policy, evict_policy_cache, Detection,
}
use daisy_workflow.Guardrails.Policies.{load_project_policy_cached}

abbrev setting : Bool → String → Setting
setting on m = record {
  enabled = some on;
  mode = some m;
  types = none;
  threshold = none;
  categories = none;
}

abbrev policy : Policy
policy = record {
  apply_to = "both";
  config = record {
    pii = setting true "redact";
    toxicity = setting false "warn";
    jailbreak = setting true "block";
  };
}

abbrev detect : String → String → Setting → Result String Detection
detect name text cfg =
    ok (record { flagged = true; redacted = if name == "pii" then some "***" else none })

abbrev nothing_cached : Cache
nothing_cached p = none

load_project_policy_cached_example :
    ((load_project_policy policy
        (err "down")
        20_000
        "p"
        (load_project_policy policy (ok none) 1 "p" nothing_cached).1).0
      ≡ policy)
    × ((load_project_policy policy
          (err "down")
          20_000
          "p"
          (evict_policy_cache "p" (load_project_policy policy (ok none) 1 "p" nothing_cached).1)).0
        ≡ policy)
load_project_policy_cached_example =
    load_project_policy_cached policy (ok none) (err "down") 1 20_000 "p" nothing_cached refl refl
      (omega arith)
