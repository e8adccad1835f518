-- ===== src/Compliance.antt =====
-- backend/src/compliance/policies.js and backend/src/compliance/enforce.js: the modes of a workspace
-- and what they refuse. Parameters are the test of a regular expression on a text, the lower case of a
-- text, and the list of providers that an environment variable adds to a mode. The cache is left out.
pub mod Rules
mod Tests
use daisy_workflow.Common.{
  or_text, ℕ, String, Bool, true, false, not, ◌&&◌, ◌||◌, Option, none, some, List, [], ◌∷◌, ◌++◌,
  ◌==◌, if◌then◌else◌, any, elem, lookup, eqb, Result, ok, err, guard, ◌>>=◌, ◌>>◌,
}
use daisy_workflow.Js.{codes}

pub record Requirement : Type 0 where
  pub detector : String
  pub enabled : Bool
  pub mode : String

-- `null` for the guardrails is the empty list here.
pub record Mode : Type 0 where
  pub label : String
  pub allowed_providers : Option (List String)
  pub required_guardrails : List Requirement
  pub audit_retention_days : ℕ
  pub features : List (String × Bool)
  pub endpoints : List (String × Bool)

abbrev none_mode : Mode
none_mode = record {
  label = "None";
  allowed_providers = none;
  required_guardrails = [];
  audit_retention_days = 90;
  features = ("url.fetch", true) ∷ ("memory.export", true) ∷ [];
  endpoints = ("export", false) ∷ ("erasure", false) ∷ [];
}

abbrev redacts_pii : List Requirement
redacts_pii = record { detector = "pii"; enabled = true; mode = "redact" } ∷ []

abbrev hipaa_mode : Mode
hipaa_mode = record {
  label = "HIPAA";
  allowed_providers = some ("bedrock" ∷ "azure-openai" ∷ "ollama" ∷ []);
  required_guardrails = redacts_pii;
  audit_retention_days = 2190;
  features = ("url.fetch", false) ∷ ("memory.export", false) ∷ [];
  endpoints = ("export", false) ∷ ("erasure", false) ∷ [];
}

abbrev gdpr_mode : Mode
gdpr_mode = record {
  label = "GDPR";
  allowed_providers =
      some
        ("anthropic" ∷ "openai" ∷ "azure-openai" ∷ "gemini" ∷ "bedrock" ∷ "ollama" ∷ "voyage" ∷ []);
  required_guardrails = redacts_pii;
  audit_retention_days = 1825;
  features = ("url.fetch", true) ∷ ("memory.export", true) ∷ [];
  endpoints = ("export", true) ∷ ("erasure", true) ∷ [];
}

unfoldable pub get_mode : String → Mode
get_mode key = if key == "hipaa" then hipaa_mode else if key == "gdpr" then gdpr_mode else none_mode

-- REGION_PATTERNS: the sources of the regular expressions, all with the flag `i`.
unfoldable pub region_patterns : String → List String
region_patterns residency =
    if residency == "us"
    then "\\.us[.-]" ∷ "\\bus-(east|west|central)\\b" ∷ "\\.amazonaws\\.com$" ∷ "api\\.openai\\.com"
      ∷ "api\\.anthropic\\.com" ∷ "us\\.api\\." ∷ []
    else if residency == "eu"
    then "\\.eu[.-]" ∷ "\\beu-(west|central|north|south)\\b" ∷ "europe-" ∷ "eu\\.api\\." ∷ []
    else if residency == "apac"
    then "\\.ap[.-]" ∷ "\\bap-(southeast|northeast|south|east)\\b" ∷ "asia-" ∷ "apac\\.api\\." ∷ []
    else []

abbrev is_prefix : List ℕ → List ℕ → Bool
is_prefix [] cs = true
is_prefix (p ∷ ps) [] = false
is_prefix (p ∷ ps) (c ∷ cs) = eqb p c && is_prefix ps cs

unfoldable pub starts_with : String → String → Bool
starts_with text prefix = is_prefix (codes prefix) (codes text)

pub record Workspace : Type 0 where
  pub mode : String
  pub residency : String

pub record ProviderConfig : Type 0 where
  pub provider : String
  pub base_url : String
  pub url : String
  pub aws_region : String

pub data ComplianceError : Type 0 where
  provider_blocked aws_region_blocked endpoint_blocked direct_endpoint feature_disabled :
      String → ComplianceError
  guardrail_required : String → ComplianceError
  guardrail_mode : String → String → ComplianceError

unfoldable pub assert_feature : Workspace → String → Result ComplianceError (Unit {0})
unfolding get_mode lookup
assert_feature ws key =
    if ws.mode == "none" then ok tt else elim (lookup key (get_mode ws.mode).features) [
      | some false ↦ err (feature_disabled key)
      | _ ↦ ok tt
    ]

-- The proposed settings of a detector; what is not there is off, with no mode.
abbrev pub Proposed : Type 0
Proposed = String → Bool × String

unfoldable pub check_floor : Proposed → List Requirement → Result ComplianceError (Unit {0})
check_floor proposed [] = ok tt
check_floor proposed (q ∷ qs) =
    guard (not q.enabled || (proposed q.detector).0) (guardrail_required q.detector)
    >> (guard (q.mode == "" || (proposed q.detector).1 == q.mode) (guardrail_mode q.detector q.mode)
        >> check_floor proposed qs)

unfoldable pub assert_guardrail_floor : Workspace → Proposed → Result ComplianceError (Unit {0})
unfolding get_mode check_floor
assert_guardrail_floor ws proposed =
    let checked = check_floor proposed (get_mode ws.mode).required_guardrails in
    if ws.mode == "none" then ok tt else checked

module _ (matches : String → String → Bool) (lower : String → String)
    (extras : String → List String) where
  unfoldable pub region_matches : String → String → Bool
  unfolding region_patterns
  region_matches residency base_url =
      residency == ""
      || (residency == "global"
          || (base_url == "" || any (λ p. matches p base_url) (region_patterns residency)))

  unfoldable pub effective_allowed_providers : String → Option (List String)
  unfolding get_mode
  effective_allowed_providers key = elim ((get_mode key).allowed_providers) [
    | none ↦ none
    | some ps ↦ some (ps ++ extras key)
  ]

  unfoldable pub region_matches_aws_region : String → String → Bool
  unfolding starts_with
  region_matches_aws_region residency aws_region =
      if residency == "us"
      then starts_with (lower aws_region) "us-"
      else if residency == "eu"
      then starts_with (lower aws_region) "eu-"
      else if residency == "apac"
      then starts_with (lower aws_region) "ap-"
      else true

  abbrev pub admits : Option (List String) → String → Bool
  admits none provider = true
  admits (some ps) provider = provider == "" || elem provider ps

  -- 2. The residency.
  unfoldable pub check_residency : Workspace → ProviderConfig → Result ComplianceError (Unit {0})
  unfolding region_matches_aws_region region_matches elem
  check_residency ws cfg =
      let provider = lower cfg.provider in
      let base_url = or_text cfg.base_url cfg.url in
      if provider == "bedrock" && not (cfg.aws_region == "")
      then guard (region_matches_aws_region ws.residency cfg.aws_region)
          (aws_region_blocked cfg.aws_region)
      else guard (base_url == "" || region_matches ws.residency base_url)
          (endpoint_blocked base_url)
        >> guard
            (not (base_url == "")
              || (not (elem provider ("openai" ∷ "anthropic" ∷ []))
                  || not (elem ws.residency ("eu" ∷ "apac" ∷ []))))
            (direct_endpoint provider)

  unfoldable pub assert_provider_allowed :
      Workspace → ProviderConfig → Result ComplianceError (Unit {0})
  unfolding effective_allowed_providers check_residency elem
  assert_provider_allowed ws cfg =
      let provider = lower cfg.provider in
      let resident =
        if ws.residency == "" || ws.residency == "global" then ok tt else check_residency ws cfg in
      let checked =
        guard (admits (effective_allowed_providers ws.mode) provider) (provider_blocked provider)
        >> resident in
      if ws.mode == "none" then ok tt else checked
