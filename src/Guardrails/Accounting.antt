-- ===== src/Guardrails/Accounting.antt =====
-- What the loop over the detectors leaves behind.
use daisy_workflow.Common.{
  String, ◌≡◌, Bool, true, false, not, ◌&&◌, ◌||◌, List, [], ◌∷◌, ◌++◌, ◌==◌, if◌then◌else◌, Option,
  none, some, Result, ok, err, all, any,
}
use daisy_workflow.Guardrails.{
  Setting, Policy, Detection, blocked_it, redacted_it, Violation, Guarded, let_through, blocked,
  is_enabled,
}

abbrev pub is_block : Violation → Bool
is_block v = elim (v.action_taken) [ blocked_it ↦ true | _ ↦ false ]

abbrev pub is_redaction : Violation → Bool
is_redaction v = elim (v.action_taken) [ redacted_it ↦ true | _ ↦ false ]

abbrev pub has_mode : String → Option String → Bool
has_mode m none = false
has_mode m (some n) = n == m

-- The mode "block" blocks and no other does, and no other mode than "redact" redacts.
abbrev pub is_by_mode : Violation → Bool
is_by_mode v =
    if has_mode "block" v.mode
    then is_block v
    else not (is_block v) && (has_mode "redact" v.mode || not (is_redaction v))

abbrev pub flags : Result String Detection → Bool
flags (err e) = false
flags (ok d) = d.flagged

-- A detector that is on, in the mode "block", and flags the text.
abbrev pub would_block :
    (String → String → Setting → Result String Detection) → String → String × Setting → Bool
would_block detect text (name, cfg) =
    is_enabled cfg && (flags (detect name text cfg) && has_mode "block" cfg.mode)

-- The outcome for a text that goes through detectors, after the violations so far. Each violation
-- acts as its mode says. A text that is let through has met no block, and where nothing was redacted
-- it is the text itself, and no detector would block it. A block is the last violation, of the
-- detector that it names, and the only one.
abbrev pub IsAccounted :
    (String → String → Setting → Result String Detection)
    → List (String × Setting)
    → String
    → List Violation
    → Guarded
    → Type 0
IsAccounted detect ds text before (let_through t vs) =
    (added : List Violation) × (vs ≡ before ++ added)
    × (all (λ v. is_by_mode v && not (is_block v)) added ≡ true)
    × ((any is_redaction added || t == text) ≡ true)
    × ((any is_redaction added || not (any (would_block detect text) ds)) ≡ true)
IsAccounted detect ds text before (blocked name vs) =
    (added : List Violation) × (last : Violation) × (vs ≡ before ++ (added ++ last ∷ []))
    × (all (λ v. is_by_mode v && not (is_block v)) added ≡ true)
    × (last.detector ≡ name)
    × (last.action_taken ≡ blocked_it)
    × (has_mode "block" last.mode ≡ true)

-- The detectors that a text of this side goes through.
abbrev pub applied : String → String → Policy → List (String × Setting)
applied text side policy =
    if not (text == "")
      && (not (policy.apply_to == "none") && (policy.apply_to == "both" || policy.apply_to == side))
    then ("pii", policy.config.pii)
      ∷ ("jailbreak", policy.config.jailbreak)
      ∷ ("toxicity", policy.config.toxicity)
      ∷ []
    else []
