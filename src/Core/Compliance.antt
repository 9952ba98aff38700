-- ===== src/Core/Compliance.antt =====
-- packages/core/src/compliance.ts: the categorical compliance state.
use burkham_wickmont_operati.Prelude.{
  ℕ, String, Bool, true, false, not, List, [], ◌∷◌, Option, is_some, any,
}

pub data ComplianceState : Type 0 where
  pending_assessment pass pass_with_findings needs_review fail : ComplianceState

abbrev pub same_state : ComplianceState → ComplianceState → Bool
same_state pending_assessment pending_assessment = true
same_state pass pass = true
same_state pass_with_findings pass_with_findings = true
same_state needs_review needs_review = true
same_state fail fail = true
same_state _ _ = false

-- the stored text of a state
abbrev pub state_name : ComplianceState → String
state_name pending_assessment = "pending_assessment"
state_name pass = "pass"
state_name pass_with_findings = "pass_with_findings"
state_name needs_review = "needs_review"
state_name fail = "fail"

abbrev pub compliance_states : List ComplianceState
compliance_states = pending_assessment ∷ pass ∷ pass_with_findings ∷ needs_review ∷ fail ∷ []

abbrev pub placement_eligible_states : List ComplianceState
placement_eligible_states = pass ∷ pass_with_findings ∷ []

unfoldable pub permits_placement : ComplianceState → Bool
permits_placement s = any (same_state s) placement_eligible_states

unfoldable pub auto_triggers_firewall : ComplianceState → Bool
auto_triggers_firewall s = same_state s fail

unfoldable pub requires_human_review : ComplianceState → Bool
requires_human_review s = same_state s needs_review

pub record ComplianceFinding : Type 0 where
  pub code : String
  pub opened_at : ℕ
  pub resolved_at : Option ℕ

unfoldable pub is_open : ComplianceFinding → Bool
is_open f = not (is_some f.resolved_at)
