-- ===== src/Clients.antt =====
-- packages/clients/src/index.ts: finding a client within a tenant.
pub mod Transition
use burkham_wickmont_operati.Core.Outcome.{
  Outcome, ok, failed, no_data, unrecognised_state, no_client,
}
use burkham_wickmont_operati.Prelude.{some, String, ◌&&◌, none, str_eq, Option, List, ◌==◌, find, ℕ}
use burkham_wickmont_operati.Core.Compliance.{ComplianceState, state_name, compliance_states}

-- the state column is any text
pub record ClientRow : Type 0 where
  pub id : ℕ
  pub tenant_id : ℕ
  pub compliance_state : String

pub record Client : Type 0 where
  pub id : ℕ
  pub tenant_id : ℕ
  pub compliance_state : ComplianceState

-- `isComplianceState`, with the state that the text names
unfoldable pub compliance_state_of : String → Option ComplianceState
compliance_state_of s = find (λ c. str_eq s (state_name c)) compliance_states

unfoldable pub find_client : List ClientRow → ℕ → ℕ → Outcome Client
find_client rows tenant id = elim (find (λ row. row.id == id && row.tenant_id == tenant) rows) [
  | none ↦ no_data no_client
  | some row ↦ elim (compliance_state_of row.compliance_state) [
    | none ↦ failed unrecognised_state
    | some c ↦ ok (record { id = row.id; tenant_id = row.tenant_id; compliance_state = c })
  ]
]
