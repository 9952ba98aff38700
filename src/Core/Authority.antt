-- ===== src/Core/Authority.antt =====
-- packages/core/src/authority.ts: Authority Levels and the action tables. An action is any text.
use burkham_wickmont_operati.Prelude.{
  ℕ, String, Bool, true, false, List, [], ◌∷◌, none, some, ltb, leb, any, ◌==◌, includes,
  own_property, is_some,
}

abbrev pub authority_levels : List ℕ
authority_levels = 0 ∷ 1 ∷ 2 ∷ 3 ∷ []

unfoldable pub is_authority_level : ℕ → Bool
is_authority_level n = any (λ l. l == n) authority_levels

abbrev pub action_minimum_level : List (String × ℕ)
action_minimum_level =
    ("read_document", 0)
    ∷ ("analyze_file", 0)
    ∷ ("generate_internal_report", 0)
    ∷ ("draft_application", 1)
    ∷ ("draft_communication", 1)
    ∷ ("draft_recommendation", 1)
    ∷ ("send_client_communication", 2)
    ∷ ("send_document_request", 2)
    ∷ ("send_partner_followup", 2)
    ∷ ("submit_application", 3)
    ∷ ("submit_lender_packet", 3)
    ∷ ("transition_compliance_state", 3)
    ∷ ("trigger_firewall", 1)
    ∷ ("record_client_consent", 2)
    ∷ ("create_client_record", 2)
    ∷ ("change_system_parameter", 3)
    ∷ ("publish_offer", 3)
    ∷ ("manage_engagement", 3)
    ∷ ("publish_contract_clause", 3)
    ∷ ("generate_client_contract", 3)
    ∷ ("reveal_protected_identifier", 3)
    ∷ ("place_legal_hold", 3)
    ∷ ("release_legal_hold", 3)
    ∷ ("decide_deletion_request", 3)
    ∷ ("remove_vault_document", 3)
    ∷ ("set_document_retention", 3)
    ∷ ("publish_curriculum_module", 3)
    ∷ ("generate_conflict_disclosure", 1)
    ∷ ("tag_venture", 2)
    ∷ ("raise_intercompany_invoice", 3)
    ∷ ("record_funding_outcome", 2)
    ∷ ("mark_attempt_funded", 3)
    ∷ ("record_entity_graph", 2)
    ∷ ("manage_lead", 1)
    ∷ ("convert_lead", 3)
    ∷ ("record_market_intelligence", 1)
    ∷ ("draft_deliverable", 1)
    ∷ ("deliver_deliverable", 2)
    ∷ ("register_deliverable_template", 3)
    ∷ ("onboard_partner", 2)
    ∷ ("end_partner_relationship", 3)
    ∷ ("record_partner_completion", 2)
    ∷ ("approve_partner_claim", 3)
    ∷ ("record_lead_activity", 1)
    ∷ ("correct_attribution", 3)
    ∷ ("publish_playbook", 3)
    ∷ ("run_workflow", 1)
    ∷ ("record_partner_finding", 1)
    ∷ ("resolve_partner_finding", 3)
    ∷ []

abbrev pub governance_actions : List String
governance_actions =
    "transition_compliance_state" ∷ "trigger_firewall" ∷ "record_client_consent"
    ∷ "create_client_record" ∷ "place_legal_hold" ∷ "release_legal_hold" ∷ "decide_deletion_request"
    ∷ "record_entity_graph" ∷ "record_funding_outcome" ∷ "mark_attempt_funded" ∷ "tag_venture" ∷ []

abbrev pub prohibited_actions : List String
prohibited_actions =
    "sign_for_client" ∷ "fabricate_revenue" ∷ "alter_client_document" ∷ "submit_without_consent"
    ∷ "guarantee_approval" ∷ "promise_credit_repair" ∷ "mislabel_card_as_loan" ∷ "hide_fees"
    ∷ "give_legal_or_tax_advice_without_professional_review" ∷ []

unfoldable pub is_governance_action : String → Bool
is_governance_action a = includes governance_actions a

unfoldable pub is_prohibited_action : String → Bool
is_prohibited_action a = includes prohibited_actions a

-- `hasOwnProperty`
unfoldable pub is_permitted_action : String → Bool
is_permitted_action a = is_some (own_property action_minimum_level a)

-- The names that every object literal inherits from `Object.prototype` (ECMAScript 20.1.3 and
-- B.2.2). Reading one by `table[name]` gives a function or an object, never `undefined`.
abbrev pub object_prototype : List String
object_prototype =
    "constructor" ∷ "hasOwnProperty" ∷ "isPrototypeOf" ∷ "propertyIsEnumerable" ∷ "toLocaleString"
    ∷ "toString" ∷ "valueOf" ∷ "__proto__" ∷ "__defineGetter__" ∷ "__defineSetter__"
    ∷ "__lookupGetter__" ∷ "__lookupSetter__" ∷ []

-- What `ACTION_MINIMUM_LEVEL[action]` evaluates to.
pub data Property : Type 0 where
  undefined inherited : Property
  level : ℕ → Property

abbrev inherited_or_undefined : String → Property
inherited_or_undefined a = elim (includes object_prototype a) [
  | true ↦ inherited
  | false ↦ undefined
]

unfoldable pub minimum_level : String → Property
minimum_level a = elim (own_property action_minimum_level a) [
  | some n ↦ level n
  | none ↦ inherited_or_undefined a
]

abbrev pub is_inherited : Property → Bool
is_inherited inherited = true
is_inherited _ = false

-- `held < required`: a function or an object converts to NaN, and every test against NaN fails.
abbrev pub below : ℕ → Property → Bool
below held (level n) = ltb held n
below held _ = false

-- `required >= n`, likewise
abbrev pub at_least : Property → ℕ → Bool
at_least (level n) k = leb k n
at_least _ k = false

unfoldable pub requires_human_approval : String → Bool
requires_human_approval a = at_least (minimum_level a) 2

unfoldable pub requires_client_authorization : String → Bool
requires_client_authorization a = at_least (minimum_level a) 3
