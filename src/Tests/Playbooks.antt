-- ===== src/Tests/Playbooks.antt =====
-- A playbook with a cycle, and one with a node of an unknown kind.
use burkham_wickmont_operati.Prelude.{[], true, false, All, none, ◌∷◌, ◌≡◌, some, refl, ◌≢◌}
use burkham_wickmont_operati.Workflow.Playbook.{
  event, validate_loops, WaitNode, validate, decision_node, Branch, ends_completed, validate_throws,
  is_valid, explore, DecisionNode, visit, unknown_node, node_at, PlaybookDefinition, wait_node,
  terminal_node, reachable_from_start,
}
use burkham_wickmont_operati.Workflow.Predicate.{
  comparison_of_other, throws, comparison, eq, boolean, undefined_value, Predicate, evaluate,
  EvaluationScope,
}
use burkham_wickmont_operati.Workflow.Playbook.WellFormed.{IsWellFormed}
use burkham_wickmont_operati.Workflow.Playbook.Reachability.{at_the_start}
use burkham_wickmont_operati.Workflow.Playbook.Ends.{validate-unknown_node, validate-returns}
use burkham_wickmont_operati.Workflow.Playbook.Shapes.{malformed_result, is_valid-malformed}
use burkham_wickmont_operati.Workflow.Playbook.Accepted.{WellFormed-is_valid, is_valid-WellFormed}

abbrev pub is_ready : Predicate
is_ready = comparison ("context" ∷ "ready" ∷ []) eq (boolean true)

abbrev pub ready_decision : DecisionNode
ready_decision = record {
  branches = record { condition = is_ready; next = "done" } ∷ [];
  otherwise = "docs";
}

abbrev pub docs_wait : WaitNode
docs_wait = record {
  until = event "evidence.uploaded";
  remind_after_minutes = none;
  remind_queue = none;
  remind_summary = none;
  max_reminders = none;
  next = "check";
}

abbrev pub onboarding : PlaybookDefinition
onboarding = record {
  start_node = "check";
  nodes =
      ("check", decision_node ready_decision)
      ∷ ("docs", wait_node docs_wait)
      ∷ ("done", terminal_node ends_completed)
      ∷ [];
}

pub onboarding_valid : is_valid onboarding ≡ true
unfolding is_valid validate reachable_from_start explore visit node_at
onboarding_valid = refl

is_valid-WellFormed_example : IsWellFormed onboarding
is_valid-WellFormed_example = is_valid-WellFormed onboarding onboarding_valid

WellFormed-is_valid_example : is_valid onboarding ≡ true
WellFormed-is_valid_example =
    WellFormed-is_valid onboarding (is_valid-WellFormed onboarding onboarding_valid)

validate-returns_example : validate onboarding ≢ validate_loops
validate-returns_example = validate-returns onboarding

abbrev no_scope : EvaluationScope
no_scope = record {
  client = undefined_value;
  context = undefined_value;
  instance_ = undefined_value;
}

is_valid-malformed_example :
    All
      (λ (b : Branch). malformed_result (evaluate no_scope b.condition) ≡ false)
      ready_decision.branches
is_valid-malformed_example =
    is_valid-malformed onboarding "check" ready_decision no_scope onboarding_valid refl refl

-- a field that is a number
abbrev untyped : Predicate
untyped = comparison_of_other eq (boolean true)

abbrev untyped_decision : DecisionNode
untyped_decision = record ready_decision {
  branches = record { condition = untyped; next = "done" } ∷ [];
}

abbrev untyped_onboarding : PlaybookDefinition
untyped_onboarding = record onboarding {
  nodes =
      ("check", decision_node untyped_decision)
      ∷ ("docs", wait_node docs_wait)
      ∷ ("done", terminal_node ends_completed)
      ∷ [];
}

-- it is accepted, and its decision throws
untyped_accepted : (is_valid untyped_onboarding ≡ true) × (evaluate no_scope untyped ≡ throws)
unfolding is_valid validate reachable_from_start explore visit node_at
untyped_accepted = (refl, refl)

abbrev misspelt : PlaybookDefinition
misspelt = record {
  start_node = "begin";
  nodes = ("begin", unknown_node) ∷ ("done", terminal_node ends_completed) ∷ [];
}

begin_unknown : node_at misspelt.nodes "begin" ≡ some unknown_node
unfolding node_at
begin_unknown = refl

validate-unknown_node_example : validate misspelt ≡ validate_throws
validate-unknown_node_example =
    validate-unknown_node misspelt "begin" refl at_the_start begin_unknown
