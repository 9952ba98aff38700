-- ===== src/Middleware.antt =====
-- packages/middleware/src/index.ts: the fixed seven-step chain. The packages that it asks and that
-- are modelled (identity, tenancy, clients, risk, firewall, scanner) are called; what 6.3 Conduct
-- and 7.2 Regulatory answer, and which appends succeed, are functions of the `Services`.
pub mod Steps
pub mod Clearance
pub mod Checks
pub mod Scans
pub mod Grant
pub mod Passing
use burkham_wickmont_operati.Core.Outcome.{
  Outcome, NotOk, Refusal, ok, not_ok, unknown_actor, banned_language, disclosure_missing,
  append_failed,
}
use burkham_wickmont_operati.Core.Events.{Event, EventActor, Payload}
use burkham_wickmont_operati.Identity.{
  Actor, absent, found, threw, find_actor, decide_authority, Found,
}
use burkham_wickmont_operati.Middleware.Steps.{
  Step, ◌>>=◌, ◌>>◌, block_at, push, pure, append_event, try_append, Log, regulatory, tenant_scope,
  skipped, authentication, firewall, event_emission, passed, Run, authority_level, compliance_scan,
  MiddlewareStep,
}
use burkham_wickmont_operati.Prelude.{
  codes, String, has_part, none, List, false, [], ℕ, ◌∷◌, not, true, Option, filter, Bool, some,
  if◌then◌else◌,
}
use burkham_wickmont_operati.Firewall.{FirewallRow, evaluate_gate}
use burkham_wickmont_operati.Clients.{find_client, ClientRow, Client}
use burkham_wickmont_operati.Tenancy.{assert_same_tenant}
use burkham_wickmont_operati.Scanner.{
  ScanResult, scan_for_tenant, ScanInput, MarketingClaim, is_blocked,
}
use burkham_wickmont_operati.Core.Authority.{is_governance_action, is_prohibited_action}
use burkham_wickmont_operati.Core.Compliance.{ComplianceState}
use burkham_wickmont_operati.Risk.Listings.{RiskDb}
use burkham_wickmont_operati.Risk.Gate.{check_do_not_fund}

pub record ConductClearance : Type 0 where
  pub paused : Bool

pub record JurisdictionInput : Type 0 where
  pub tenant_id : ℕ
  pub state : Option String
  pub product_kind : Option String
  pub provider_id : Option ℕ

pub record RegulatoryClearance : Type 0 where
  pub state : String
  pub required_disclosures : List String

pub record Services : Type 0 where
  pub actors : List Actor
  pub clients : List ClientRow
  pub risk : RiskDb
  pub firewall_rows : List FirewallRow
  pub library : ℕ → Option String → List MarketingClaim
  pub matches : String → String → List ℕ
  pub check_conduct : ℕ → ℕ → String → Outcome ConductClearance
  pub check_jurisdiction : JurisdictionInput → Outcome RegulatoryClearance
  pub accepts : Event → Log → Bool

pub record ChainRequest : Type 0 where
  pub actor_id : ℕ
  pub tenant_id : ℕ
  pub action : String
  pub client_id : Option ℕ
  pub event_type : String
  pub event_payload : Option ℕ
  pub client_facing_content : Option String
  pub jurisdiction : Option String
  pub product_kind : Option String
  pub provider_id : Option ℕ
  pub correlation_id : Option ℕ

pub record ChainResult : Type 0 where
  pub actor : Actor
  pub clearance : Option RegulatoryClearance
  pub do_not_fund_override_id : Option ℕ

abbrev event_actor : Actor → EventActor
event_actor a = record { id = a.id; kind = a.kind }

abbrev pub reason_of : NotOk → Option Refusal
reason_of (NotOk.refusal r) = some r
reason_of _ = none

module _ (w : Services) (q : ChainRequest) where
  abbrev pub authenticated : Found Actor → Step Actor
  authenticated threw = block_at authentication NotOk.threw
  authenticated absent = block_at authentication (NotOk.refusal unknown_actor)
  authenticated (found actor) = do push authentication passed; pure actor

  -- 1. Authentication
  unfoldable pub authenticate : Step Actor
  authenticate = authenticated (find_actor w.actors q.actor_id)

  abbrev pub cross_tenant_event : Actor → Event
  cross_tenant_event actor = record {
    tenant_id = actor.tenant_id;
    type = "tenancy.cross_tenant_access_blocked";
    actor = event_actor actor;
    client_id = none;
    correlation_id = none;
    payload = Payload.tenant_attempted q.action q.tenant_id;
  }

  -- a check that passes, or appends its event and blocks
  abbrev pub pass_or_record : {A : Type 0} → MiddlewareStep → Event → Outcome A → Step (Unit {0})
  pass_or_record s e (ok a) = push s passed
  pass_or_record s e (not_ok x) = do append_event w.accepts e; block_at s x

  -- 2. Tenant scope
  unfoldable pub check_scope : Actor → Step (Unit {0})
  check_scope actor =
      pass_or_record tenant_scope (cross_tenant_event actor)
        (assert_same_tenant actor.tenant_id q.tenant_id)

  abbrev pub action_blocked_event : Actor → Event
  action_blocked_event actor = record {
    tenant_id = q.tenant_id;
    type = "authority.action_blocked";
    actor = event_actor actor;
    client_id = q.client_id;
    correlation_id = none;
    payload = Payload.action_blocked q.action actor.authority_level (is_prohibited_action q.action);
  }

  -- 3. Authority Level
  unfoldable pub check_authority : Actor → Step (Unit {0})
  check_authority actor =
      pass_or_record authority_level (action_blocked_event actor)
        (decide_authority actor.authority_level q.action)

  abbrev pub placement_refused_event : Actor → ℕ → ComplianceState → NotOk → Event
  placement_refused_event actor client state x = record {
    tenant_id = q.tenant_id;
    type = "placement.refused";
    actor = event_actor actor;
    client_id = some client;
    correlation_id = none;
    payload = Payload.placement_refused q.action (reason_of x) state;
  }

  -- a check of step 4: its value, or the event and the block; a thrown check appends nothing
  abbrev pub gate_check : {A : Type 0} → Actor → Client → Outcome A → Step A
  gate_check actor client (ok a) = pure a
  gate_check actor client (not_ok NotOk.threw) = block_at firewall NotOk.threw
  gate_check actor client (not_ok x) = do
    append_event w.accepts (placement_refused_event actor client.id client.compliance_state x)
    block_at firewall x

  abbrev pub resolve_client : Outcome Client → Step Client
  resolve_client (ok c) = pure c
  resolve_client (not_ok x) = block_at firewall x

  -- the `else` branch of step 4
  unfoldable pub check_gate : Actor → ℕ → Step (Option ℕ)
  check_gate actor client_id = do
    client ← resolve_client (find_client w.clients q.tenant_id client_id)
    dnf ← gate_check actor client (check_do_not_fund w.risk q.tenant_id client_id q.action)
    gate_check actor client (w.check_conduct q.tenant_id client_id q.action)
    gate_check actor client (evaluate_gate w.firewall_rows client_id client.compliance_state)
    push firewall passed
    pure dnf.override_id

  abbrev pub gate_unless_skipped : Actor → Option ℕ → Bool → Step (Option ℕ)
  gate_unless_skipped actor none governance = do push firewall skipped; pure none
  gate_unless_skipped actor (some client_id) true = do push firewall skipped; pure none
  gate_unless_skipped actor (some client_id) false = check_gate actor client_id

  -- 4. Firewall and compliance state; the result is the override that step 4 relied on
  unfoldable pub check_firewall : Actor → Step (Option ℕ)
  check_firewall actor = gate_unless_skipped actor q.client_id (is_governance_action q.action)

  abbrev pub jurisdiction_input : JurisdictionInput
  jurisdiction_input = record {
    tenant_id = q.tenant_id;
    state = q.jurisdiction;
    product_kind = q.product_kind;
    provider_id = q.provider_id;
  }

  abbrev pub cleared : Outcome RegulatoryClearance → Step (Option RegulatoryClearance)
  cleared (not_ok x) = block_at regulatory x
  cleared (ok clearance) = do push regulatory passed; pure (some clearance)

  abbrev pub regulate : Option String → Step (Option RegulatoryClearance)
  regulate none = do push regulatory skipped; pure none
  regulate (some text) = cleared (w.check_jurisdiction jurisdiction_input)

  -- 5. Regulatory
  unfoldable pub check_regulatory : Step (Option RegulatoryClearance)
  check_regulatory = regulate q.client_facing_content

  abbrev payload_of : Option ℕ → Payload
  payload_of (some p) = Payload.supplied p
  payload_of none = Payload.action_taken q.action

  abbrev pub action_event : Actor → Event
  action_event actor = record {
    tenant_id = q.tenant_id;
    type = q.event_type;
    actor = event_actor actor;
    client_id = q.client_id;
    correlation_id = q.correlation_id;
    payload = payload_of q.event_payload;
  }

  abbrev pub emitted : Bool → Step (Unit {0})
  emitted true = push event_emission passed
  emitted false = block_at event_emission (NotOk.failure append_failed)

  -- 6. Event emission
  unfoldable pub emit : Actor → Step (Unit {0})
  emit actor = do emitted (← try_append w.accepts (action_event actor))

  abbrev pub scan_input : Actor → String → ScanInput
  scan_input actor text = record {
    tenant_id = q.tenant_id;
    text = text;
    actor = event_actor actor;
    client_id = q.client_id;
  }

  abbrev pub append_if_some : Option Event → Step (Unit {0})
  append_if_some none = pure tt
  append_if_some (some e) = append_event w.accepts e

  -- the disclosures that the content does not carry
  abbrev pub missing_disclosures : String → List String → List String
  missing_disclosures text = filter (λ d. not (has_part (codes d) (codes text)))

  abbrev pub none_missing : List String → Step (Unit {0})
  none_missing [] = push compliance_scan passed
  none_missing (d ∷ ds) = block_at compliance_scan (NotOk.refusal disclosure_missing)

  abbrev pub judge : String → ScanResult → Step (Unit {0})
  judge text r =
      if is_blocked r.verdict
      then block_at compliance_scan (NotOk.refusal banned_language)
      else none_missing (missing_disclosures text r.required_disclosures)

  abbrev pub after_scan : String → Outcome (ScanResult × Option Event) → Step (Unit {0})
  after_scan text (not_ok x) = block_at compliance_scan x
  after_scan text (ok (r, e)) = do append_if_some e; judge text r

  abbrev pub scan_unless_absent : Actor → Option String → Step (Unit {0})
  scan_unless_absent actor none = push compliance_scan skipped
  scan_unless_absent actor (some text) =
      after_scan text
        (scan_for_tenant w.matches (w.library q.tenant_id q.jurisdiction) (scan_input actor text))

  -- 7. Compliance scan
  unfoldable pub scan_content : Actor → Step (Unit {0})
  scan_content actor = scan_unless_absent actor q.client_facing_content

  unfoldable pub run_chain : Step ChainResult
  run_chain = do
    actor ← authenticate
    check_scope actor
    check_authority actor
    override_id ← check_firewall actor
    clearance ← check_regulatory
    emit actor
    scan_content actor
    pure (record { actor = actor; clearance = clearance; do_not_fund_override_id = override_id })

  -- the chain, from an empty trace
  unfoldable pub chain : Log → Run ChainResult
  chain log = run_chain [] log
