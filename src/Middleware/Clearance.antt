-- ===== src/Middleware/Clearance.antt =====
-- What clears a request of the chain, and what each run leaves in the Event Ledger
-- (packages/middleware/src/index.ts).
use burkham_wickmont_operati.Core.Outcome.{NotOk, ok, is_ok, Outcome, not_ok}
use burkham_wickmont_operati.Core.Events.{Event}
use burkham_wickmont_operati.Identity.{Actor, found, find_actor, decide_authority, absent}
use burkham_wickmont_operati.Middleware.Steps.{
  MiddlewareStep, authority_level, event_emission, Trace, authentication, compliance_scan,
  last_step, tenant_scope, firewall, regulatory, Log,
}
use burkham_wickmont_operati.Middleware.{
  Services, ChainRequest, ChainResult, cross_tenant_event, placement_refused_event,
  action_blocked_event, RegulatoryClearance, missing_disclosures, action_event, jurisdiction_input,
  scan_input,
}
use burkham_wickmont_operati.Prelude.{
  some, ◌≡◌, Option, ℕ, true, none, Bool, String, false, ◌∷◌, [], ◌⊎◌,
}
use burkham_wickmont_operati.Firewall.{evaluate_gate}
use burkham_wickmont_operati.Clients.{find_client, Client}
use burkham_wickmont_operati.Scanner.{ScanResult, scan_for_tenant, is_blocked}
use burkham_wickmont_operati.Core.Authority.{is_governance_action}
use burkham_wickmont_operati.Risk.Gate.{DoNotFundClearance, check_do_not_fund}
use burkham_wickmont_operati.Tenancy.{assert_same_tenant}

module _ (w : Services) (q : ChainRequest) where
  -- step 4 lets a client through
  abbrev pub GateOpen : Option ℕ → Bool → Option ℕ → Type 0
  GateOpen none governance used = used ≡ none
  GateOpen (some c) true used = used ≡ none
  GateOpen (some c) false used =
      (client : Client) × (dnf : DoNotFundClearance) × (find_client w.clients q.tenant_id c
        ≡ ok client)
      × (check_do_not_fund w.risk q.tenant_id c q.action ≡ ok dnf)
      × (used ≡ dnf.override_id)
      × (is_ok (w.check_conduct q.tenant_id c q.action) ≡ true)
      × (is_ok (evaluate_gate w.firewall_rows c client.compliance_state) ≡ true)

  -- step 5 cleared the content's jurisdiction
  abbrev pub Regulated : Option String → Option RegulatoryClearance → Type 0
  Regulated none clearance = clearance ≡ none
  Regulated (some text) clearance =
      (r : RegulatoryClearance) × (w.check_jurisdiction (jurisdiction_input w q) ≡ ok r)
      × (clearance ≡ some r)

  -- step 7 found nothing banned and every obliged disclosure
  abbrev pub Scanned : Actor → Option String → Type 0
  Scanned actor none = Unit
  Scanned actor (some text) =
      (r : ScanResult) × (scan_for_tenant w.matches (w.library q.tenant_id q.jurisdiction)
          (scan_input w q actor text)
        ≡ ok (r, none))
      × (is_blocked r.verdict ≡ false)
      × (missing_disclosures w q text r.required_disclosures ≡ [])

  pub record Identified (a : Actor) : Type 0 where
    pub authentic : find_actor w.actors q.actor_id ≡ found a
    pub same_tenant : a.tenant_id ≡ q.tenant_id
    pub authorised : is_ok (decide_authority a.authority_level q.action) ≡ true

  pub record Cleared (r : ChainResult) : Type 0 where
    pub identified : Identified r.actor
    pub gate : GateOpen q.client_id (is_governance_action q.action) r.do_not_fund_override_id
    pub regulated : Regulated q.client_facing_content r.clearance
    pub scanned : Scanned r.actor q.client_facing_content

  module _ (log : Log) where
    -- the Ledger after step 7, by what the scan gives: its own event stands on the action's
    abbrev pub scan_log : Actor → Outcome (ScanResult × Option Event) → Log
    scan_log a (not_ok x) = action_event w q a ∷ log
    scan_log a (ok (r, none)) = action_event w q a ∷ log
    scan_log a (ok (r, some e)) = e ∷ action_event w q a ∷ log

    -- one of the three checks of step 4 on a client that is found gave `x`
    abbrev pub Refuses : ℕ → Client → NotOk → Type 0
    Refuses c client x =
        (check_do_not_fund w.risk q.tenant_id c q.action ≡ not_ok x)
        ⊎ ((w.check_conduct q.tenant_id c q.action ≡ not_ok x)
            ⊎ (evaluate_gate w.firewall_rows c client.compliance_state ≡ not_ok x))

    -- why the step blocked with `x`, and the whole Ledger that it leaves
    abbrev pub Leaves : MiddlewareStep → NotOk → Log → Type 0
    Leaves authentication x l = (find_actor w.actors q.actor_id ≡ absent) × (l ≡ log)
    Leaves tenant_scope x l =
        (a : Actor) × (find_actor w.actors q.actor_id ≡ found a)
        × (assert_same_tenant a.tenant_id q.tenant_id ≡ not_ok x)
        × (l ≡ cross_tenant_event w q a ∷ log)
    Leaves authority_level x l =
        (a : Actor) × (find_actor w.actors q.actor_id ≡ found a)
        × (decide_authority a.authority_level q.action ≡ not_ok x)
        × (l ≡ action_blocked_event w q a ∷ log)
    Leaves firewall x l =
        (c : ℕ) × (q.client_id ≡ some c)
        × (((find_client w.clients q.tenant_id c ≡ not_ok x) × (l ≡ log))
            ⊎ ((a : Actor) × (client : Client) × (find_actor w.actors q.actor_id ≡ found a)
                × (find_client w.clients q.tenant_id c ≡ ok client)
                × Refuses c client x
                × (l ≡ placement_refused_event w q a client.id client.compliance_state x ∷ log)))
    Leaves regulatory x l = (w.check_jurisdiction (jurisdiction_input w q) ≡ not_ok x) × (l ≡ log)
    Leaves event_emission x l =
        (a : Actor) × (find_actor w.actors q.actor_id ≡ found a)
        × (w.accepts (action_event w q a) log ≡ false)
        × (l ≡ log)
    Leaves compliance_scan x l =
        (a : Actor) × (text : String) × (find_actor w.actors q.actor_id ≡ found a)
        × (q.client_facing_content ≡ some text)
        × (l
            ≡ scan_log a (
                scan_for_tenant w.matches (w.library q.tenant_id q.jurisdiction)
                  (scan_input w q a text)))

    abbrev pub BlockedAt : NotOk → Trace → Log → Type 0
    BlockedAt x trace l = (s : MiddlewareStep) × (last_step trace ≡ some s) × Leaves s x l

    abbrev pub Granted : ChainResult → Trace → Log → Type 0
    Granted r trace l = (l ≡ action_event w q r.actor ∷ log) × Cleared r
