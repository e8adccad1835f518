-- ===== src/Compliance/Rules.antt =====
-- The guardrails that a restricting mode lets through.
use daisy_workflow.Common.{
  ◌≡◌, ◌↔◌, refl, Bool, true, false, not, ◌&&◌, ◌||◌, List, [], ◌∷◌, ◌==◌, if◌then◌else◌, all,
  Result, ok, guard, ◌>>◌,
}
use daisy_workflow.Compliance.{
  Requirement, Workspace, Proposed, get_mode, check_floor, assert_guardrail_floor,
}

-- A requirement that the proposed settings meet.
abbrev pub is_met : Proposed → Requirement → Bool
is_met proposed q =
    (not q.enabled || (proposed q.detector).0)
    && (q.mode == "" || (proposed q.detector).1 == q.mode)

two_guards :
    {E : Type 0} (a b c : Bool) (e f : E) (rest : Result E (Unit {0}))
    → (rest ≡ ok tt) ↔ (c ≡ true)
    → ((guard a e >> (guard b f >> rest)) ≡ ok tt) ↔ (((a && b) && c) ≡ true)
two_guards true true c e f rest h = h
two_guards true false c e f rest h = ((λ k. cc), λ k. cc)
two_guards false b c e f rest h = ((λ k. cc), λ k. cc)

check_floor_iff :
    (proposed : Proposed) (qs : List Requirement)
    → (check_floor proposed qs ≡ ok tt) ↔ (all (is_met proposed) qs ≡ true)
unfolding check_floor
check_floor_iff proposed [] = ((λ h. refl), λ h. refl)
check_floor_iff proposed (q ∷ qs) =
    two_guards (not q.enabled || (proposed q.detector).0)
      (q.mode == "" || (proposed q.detector).1 == q.mode) (all (is_met proposed) qs) _ _
      (check_floor proposed qs) (check_floor_iff proposed qs)

-- A guardrail policy passes under a restricting mode exactly if it meets every requirement of the
-- mode: the detectors that the mode wants on are on, and in the mode that it wants.
pub assert_guardrail_floor_iff :
    (ws : Workspace) (proposed : Proposed)
    → (ws.mode == "none") ≡ false
    → (assert_guardrail_floor ws proposed ≡ ok tt)
      ↔ (all (is_met proposed) (get_mode ws.mode).required_guardrails ≡ true)
unfolding assert_guardrail_floor
assert_guardrail_floor_iff ws proposed on =
    rw (on, if◌then◌else◌) (check_floor_iff proposed (get_mode ws.mode).required_guardrails)
