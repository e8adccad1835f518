-- ===== src/Compliance/Tests.antt =====
-- A workspace under HIPAA in the EU.
use daisy_workflow.Common.{String, ◌≡◌, ◌↔◌, refl, Bool, true, List, [], ◌==◌, all, ok, err}
use daisy_workflow.Compliance.{
  Workspace, ProviderConfig, Proposed, get_mode, assert_guardrail_floor, provider_blocked,
  assert_provider_allowed,
}
use daisy_workflow.Compliance.Rules.{is_met, assert_guardrail_floor_iff}

abbrev workspace : Workspace
workspace = record { mode = "hipaa"; residency = "eu" }

abbrev azure : ProviderConfig
azure = record {
  provider = "azure-openai";
  base_url = "https://x.europe-west.y";
  url = "";
  aws_region = "";
}

abbrev matches : String → String → Bool
matches p url = p == "europe-"

abbrev lower : String → String
lower t = t

abbrev extras : String → List String
extras key = []

abbrev proposed : Proposed
proposed d = (true, "redact")

assert_guardrail_floor_iff_example :
    (assert_guardrail_floor workspace proposed ≡ ok tt)
    ↔ (all (is_met proposed) (get_mode "hipaa").required_guardrails ≡ true)
assert_guardrail_floor_iff_example = assert_guardrail_floor_iff workspace proposed refl

-- A provider that the mode allows, at an endpoint of the region, and one that it does not.
azure_passes : assert_provider_allowed matches lower extras workspace azure ≡ ok tt
unfolding assert_provider_allowed
azure_passes = refl

openai_blocked :
    assert_provider_allowed matches lower extras workspace (record azure { provider = "openai" })
    ≡ err (provider_blocked "openai")
unfolding assert_provider_allowed
openai_blocked = refl
