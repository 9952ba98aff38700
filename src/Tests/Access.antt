-- ===== src/Tests/Access.antt =====
-- The chain and its authority, Firewall and gate decisions, on one tenant with one client.
use burkham_wickmont_operati.Prelude.{
  none, false, List, inl, inr, arith, true, ◌≡◌, [], some, refl, ◌∷◌,
}
use burkham_wickmont_operati.Core.Outcome.{ok, is_ok}
use burkham_wickmont_operati.Firewall.{
  firewall_status, clear, FirewallRow, triggered, clear_firewall, evaluate_gate,
}
use burkham_wickmont_operati.Identity.{decide_authority, Actor, find_actor}
use burkham_wickmont_operati.Middleware.{
  chain, ChainRequest, Services, ChainResult, action_event, RegulatoryClearance,
}
use burkham_wickmont_operati.Clients.{ClientRow, compliance_state_of, find_client}
use burkham_wickmont_operati.Scanner.{MarketingClaim, banned, scan_for_tenant, clean, scan_text}
use burkham_wickmont_operati.Middleware.Clearance.{BlockedAt, Granted, Cleared}
use burkham_wickmont_operati.Middleware.Grant.{chain_writes}
use burkham_wickmont_operati.Middleware.Steps.{Post}
use burkham_wickmont_operati.Identity.Decide.{decide_authority_exact, decide_authority-inherited}
use burkham_wickmont_operati.Core.Authority.{
  minimum_level, is_prohibited_action, is_governance_action, is_authority_level,
}
use burkham_wickmont_operati.Core.Compliance.{
  pass, pass_with_findings, permits_placement, requires_human_review, auto_triggers_firewall,
}
use burkham_wickmont_operati.Core.Events.{EventActor, ActorKind}
use burkham_wickmont_operati.Firewall.Precedence.{clear_firewall_exact, evaluate_gate_exact}
use burkham_wickmont_operati.Middleware.Passing.{chain_grants, Passes}
use burkham_wickmont_operati.Risk.Listings.{active_listing}
use burkham_wickmont_operati.Risk.Gate.{check_do_not_fund}

abbrev advisor : Actor
advisor = record { id = 1; tenant_id = 7; kind = ActorKind.human; authority_level = 2 }

abbrev client_row : ClientRow
client_row = record { id = 3; tenant_id = 7; compliance_state = "pass" }

abbrev banned_claim : MarketingClaim
banned_claim = record {
  phrase = "guaranteed approval";
  disposition = banned;
  required_disclosure = none;
}

abbrev services : Services
services = record {
  actors = advisor ∷ [];
  clients = client_row ∷ [];
  risk = record { listings = []; overrides = [] };
  firewall_rows = [];
  library = λ tenant jurisdiction. banned_claim ∷ [];
  matches = λ phrase text. [];
  check_conduct = λ tenant c action. ok (record { paused = false });
  check_jurisdiction = λ i. ok (record { state = "TX"; required_disclosures = [] });
  accepts = λ e l. true;
}

abbrev message : ChainRequest
message = record {
  actor_id = 1;
  tenant_id = 7;
  action = "send_client_communication";
  client_id = some 3;
  event_type = "communication.sent";
  event_payload = none;
  client_facing_content = some "Your documents arrived.";
  jurisdiction = some "TX";
  product_kind = none;
  provider_id = none;
  correlation_id = none;
}

chain_writes_example :
    Post (Granted services message []) (BlockedAt services message []) (chain services message [])
chain_writes_example = chain_writes services message []

abbrev texas : RegulatoryClearance
texas = record { state = "TX"; required_disclosures = [] }

abbrev sent : ChainResult
sent = record { actor = advisor; clearance = some texas; do_not_fund_override_id = none }

message-Cleared : Cleared services message sent
unfolding find_actor is_authority_level decide_authority is_prohibited_action minimum_level is_ok
    find_client compliance_state_of check_do_not_fund active_listing evaluate_gate firewall_status
    scan_for_tenant scan_text is_governance_action permits_placement auto_triggers_firewall
    requires_human_review
message-Cleared = record {
  identified = record { authentic = refl; same_tenant = refl; authorised = refl };
  gate = (
    record { id = 3; tenant_id = 7; compliance_state = pass },
    record { listed = false; listing = none; override_id = none },
    refl,
    refl,
    refl,
    refl,
    refl,
  );
  regulated = (texas, refl, refl);
  scanned = (
    record {
      verdict = clean;
      findings = [];
      required_disclosures = [];
      library_entries_checked = 1;
    },
    refl,
    refl,
    refl,
  );
}

chain_grants_example :
    Passes sent (action_event services message advisor ∷ []) (chain services message [])
chain_grants_example = chain_grants services message [] sent message-Cleared refl

decide_authority_exact_example : is_ok (decide_authority 2 "send_document_request") ≡ true
unfolding is_prohibited_action minimum_level
decide_authority_exact_example =
    (decide_authority_exact 2 "send_document_request").1 (refl, inl (2, refl, omega arith))

decide_authority-inherited_example : is_ok (decide_authority 0 "toString") ≡ true
decide_authority-inherited_example = decide_authority-inherited 0 "toString" refl

abbrev blocked_rows : List FirewallRow
blocked_rows = record { client_id = 3; state = triggered; reason = some "Complaint" } ∷ []

abbrev principal : EventActor
principal = record { id = 9; kind = ActorKind.human }

evaluate_gate_exact_example : is_ok (evaluate_gate blocked_rows 4 pass_with_findings) ≡ true
unfolding firewall_status
evaluate_gate_exact_example =
    (evaluate_gate_exact blocked_rows 4 pass_with_findings).1 (refl, inr refl)

clear_firewall_exact_example : is_ok (clear_firewall 7 3 "Reviewed" principal blocked_rows) ≡ true
clear_firewall_exact_example = (clear_firewall_exact 7 3 "Reviewed" principal blocked_rows).1 refl

abbrev cleared_rows : List FirewallRow
cleared_rows = record { client_id = 3; state = clear; reason = some "Reviewed" } ∷ []
