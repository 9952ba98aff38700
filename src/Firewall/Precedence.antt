-- ===== src/Firewall/Precedence.antt =====
-- The Firewall's precedence, and who may lift it (packages/firewall/src/index.ts).
use burkham_wickmont_operati.Core.Outcome.{ok, refused, is_ok, firewall_triggered}
use burkham_wickmont_operati.Core.Events.{ActorKind, EventActor, Event}
use burkham_wickmont_operati.Firewall.{
  trigger, evaluate_gate, firewall_status, upsert, clear_firewall, clear, triggered, FirewallRow,
}
use burkham_wickmont_operati.Prelude.{
  some, arith, ◌↔◌, String, true, if◌then◌else◌, ◌⊎◌, List, ◌≡◌, ◌==◌, [], ◌∷◌, ◌≢◌, ℕ,
}
use burkham_wickmont_operati.Core.Compliance.{pass_with_findings, ComplianceState, pass}

-- A write for one client is what that client's status reads, and leaves every other client's.
pub firewall_status-upsert :
    (r : FirewallRow) (client : ℕ) (rows : List FirewallRow)
    → firewall_status (upsert r rows) client
      ≡ (if r.client_id == client then r else firewall_status rows client)
unfolding firewall_status upsert
firewall_status-upsert r client [] = ground arith
firewall_status-upsert r client (x ∷ rows) = ground (arith, firewall_status-upsert r client rows)

-- The gate opens exactly for a clear Firewall and a state of Pass or Pass with Findings.
pub evaluate_gate_exact :
    (rows : List FirewallRow) (client : ℕ) (s : ComplianceState)
    → (is_ok (evaluate_gate rows client s) ≡ true)
      ↔ (((firewall_status rows client).state ≡ clear) × ((s ≡ pass) ⊎ (s ≡ pass_with_findings)))
unfolding evaluate_gate is_ok
evaluate_gate_exact rows client s = ground arith

-- Once triggered, the gate refuses that client in every compliance state, and names the Firewall;
-- any other client's gate is as it was.
pub evaluate_gate-trigger :
    (tenant client other : ℕ) (reason : String) (actor : EventActor) (rows : List FirewallRow)
    (s : ComplianceState)
    → client ≢ other
    → let rows' = (trigger tenant client reason actor rows).0 in
      (evaluate_gate rows' client s ≡ refused firewall_triggered)
      × (evaluate_gate rows' other s ≡ evaluate_gate rows other s)
unfolding evaluate_gate trigger
evaluate_gate-trigger tenant client other reason actor rows s ne =
    let set : FirewallRow = record {
      client_id = client;
      state = triggered;
      reason = some reason;
    } in
    ground (arith, firewall_status-upsert set client rows, firewall_status-upsert set other rows)

-- Only a human lifts the Firewall: a call succeeds exactly for an actor of that kind.
pub clear_firewall_exact :
    (tenant client : ℕ) (why : String) (actor : EventActor) (rows : List FirewallRow)
    → (is_ok (clear_firewall tenant client why actor rows) ≡ true) ↔ (actor.kind ≡ ActorKind.human)
unfolding clear_firewall is_ok
clear_firewall_exact tenant client why actor rows = ground arith

-- A call that lifts a client's Firewall leaves it clear, with the justification as its reason, and
-- leaves every other client's status as it was.
pub clear_firewall-status :
    (tenant client other : ℕ) (why : String) (actor : EventActor) (rows : List FirewallRow)
    {rows' : List FirewallRow} {e : Event}
    → clear_firewall tenant client why actor rows ≡ ok (rows', e)
    → firewall_status rows' other ≡ (
        if client == other
        then record { client_id = client; state = clear; reason = some why }
        else firewall_status rows other)
unfolding clear_firewall
clear_firewall-status tenant client other why actor rows h =
    let set : FirewallRow = record { client_id = client; state = clear; reason = some why } in
    ground (arith, firewall_status-upsert set other rows)
