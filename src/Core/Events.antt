-- ===== src/Core/Events.antt =====
-- packages/core/src/events.ts: what an append to the Event Ledger is given. A payload is JSON in
-- the source; here it is a value that only the signature reads.
use burkham_wickmont_operati.Core.Compliance.{ComplianceState}
use burkham_wickmont_operati.Core.Outcome.{Refusal}
use burkham_wickmont_operati.Prelude.{ℕ, String, Option, Bool, List}

pub data ActorKind : Type 0 where
  village_agent human client : ActorKind

pub record EventActor : Type 0 where
  pub id : ℕ
  pub kind : ActorKind

-- The payloads that the modelled packages write, by the event's type.
pub data Payload : Type 0 where
  tenant_attempted : String → ℕ → Payload
  action_blocked : String → ℕ → Bool → Payload
  placement_refused : String → Option Refusal → ComplianceState → Payload
  action_taken : String → Payload
  state_changed : ComplianceState → ComplianceState → Payload
  supplied : ℕ → Payload
  because : String → Payload
  listing_written : ℕ → Bool → Payload
  record_written : ℕ → Payload
  override_written : ℕ → String → Payload
  phrases : List String → Payload
  amount_written : ℕ → ℕ → Payload

pub record LedgerEventInput (P : Type 0) : Type 0 where
  pub tenant_id : ℕ
  pub type : String
  pub actor : EventActor
  pub client_id : Option ℕ
  pub correlation_id : Option ℕ
  pub payload : P

abbrev pub Event : Type 0
Event = LedgerEventInput Payload
