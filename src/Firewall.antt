-- ===== src/Firewall.antt =====
-- packages/firewall/src/index.ts: the Funding Ethics Firewall. Its table has one row a client.
pub mod Precedence
use burkham_wickmont_operati.Core.Outcome.{
  Outcome, ok, refuse_if, ◌>>◌, compliance_fail, not_passing, firewall_triggered,
  needs_human_review, human_required,
}
use burkham_wickmont_operati.Core.Events.{ActorKind, EventActor, Event, Payload}
use burkham_wickmont_operati.Prelude.{
  some, Bool, String, not, none, true, if◌then◌else◌, Option, List, ◌==◌, [], ◌∷◌, false, find, ℕ,
}
use burkham_wickmont_operati.Core.Compliance.{
  requires_human_review, permits_placement, ComplianceState, auto_triggers_firewall,
}

pub data FirewallState : Type 0 where
  clear triggered : FirewallState

pub record FirewallRow : Type 0 where
  pub client_id : ℕ
  pub state : FirewallState
  pub reason : Option String

abbrev clear_row : ℕ → FirewallRow
clear_row client = record { client_id = client; state = clear; reason = none }

-- `status`: no row means clear
unfoldable pub firewall_status : List FirewallRow → ℕ → FirewallRow
firewall_status rows client = elim (find (λ row. row.client_id == client) rows) [
  | none ↦ clear_row client
  | some row ↦ row
]

-- `upsert` on the unique client
unfoldable pub upsert : FirewallRow → List FirewallRow → List FirewallRow
upsert r [] = r ∷ []
upsert r (x ∷ xs) = if x.client_id == r.client_id then r ∷ xs else x ∷ upsert r xs

abbrev pub firewall_event : String → ℕ → ℕ → String → EventActor → Event
firewall_event name tenant client reason actor = record {
  tenant_id = tenant;
  type = name;
  actor = actor;
  client_id = some client;
  correlation_id = none;
  payload = Payload.because reason;
}

-- the table, then the event that is appended
unfoldable pub trigger : ℕ → ℕ → String → EventActor → List FirewallRow → List FirewallRow × Event
trigger tenant client reason actor rows = (
  upsert (record { client_id = client; state = triggered; reason = some reason }) rows,
  firewall_event "firewall.triggered" tenant client reason actor,
)

abbrev is_human : ActorKind → Bool
is_human ActorKind.human = true
is_human _ = false

unfoldable pub clear_firewall :
    ℕ → ℕ → String → EventActor → List FirewallRow → Outcome (List FirewallRow × Event)
clear_firewall tenant client justification actor rows = do
  refuse_if (not (is_human actor.kind)) human_required
  ok (
    upsert (record { client_id = client; state = clear; reason = some justification }) rows,
    firewall_event "firewall.cleared" tenant client justification actor,
  )

pub record PlacementGate : Type 0 where
  pub compliance_state : ComplianceState
  pub firewall_state : FirewallState

abbrev is_triggered : FirewallState → Bool
is_triggered triggered = true
is_triggered clear = false

-- `evaluate`: the Firewall first, then the compliance state
unfoldable pub evaluate_gate : List FirewallRow → ℕ → ComplianceState → Outcome PlacementGate
unfolding auto_triggers_firewall requires_human_review permits_placement
evaluate_gate rows client s = do
  refuse_if (is_triggered (firewall_status rows client).state) firewall_triggered
  refuse_if (auto_triggers_firewall s) compliance_fail
  refuse_if (requires_human_review s) needs_human_review
  refuse_if (not (permits_placement s)) not_passing
  ok (record { compliance_state = s; firewall_state = (firewall_status rows client).state })
