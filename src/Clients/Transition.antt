-- ===== src/Clients/Transition.antt =====
-- packages/clients/src/index.ts: `transitionComplianceState`, which lists a client that fails.
pub mod Listed
use burkham_wickmont_operati.Core.Compliance.{fail, state_name, same_state, ComplianceState}
use burkham_wickmont_operati.Prelude.{
  ℕ, update_where, [], ◌∷◌, List, Option, ◌==◌, String, some, none, if◌then◌else◌, ◌++◌,
}
use burkham_wickmont_operati.Clients.{find_client, ClientRow, Client}
use burkham_wickmont_operati.Core.Outcome.{ok, failed, Outcome, listing_not_written}
use burkham_wickmont_operati.Core.Events.{Event, Payload, EventActor}
use burkham_wickmont_operati.Risk.Listings.{RiskDb, auto_list_for_compliance_fail}

pub record FindingRow : Type 0 where
  pub client_id : ℕ
  pub code : String
  pub summary : String

pub record ClientsDb : Type 0 where
  pub clients : List ClientRow
  pub findings : List FindingRow
  pub risk : RiskDb

pub record TransitionInput : Type 0 where
  pub tenant_id : ℕ
  pub client_id : ℕ
  pub to : ComplianceState
  pub reason : String
  -- the code and the summary of each finding
  pub findings : List (String × String)
  pub actor : EventActor
  pub now : ℕ

-- What a call leaves: its outcome, the tables, and the events it appended, newest first. A failure
-- does not undo what was written before it.
pub record TransitionRun : Type 0 where
  pub result : Outcome Client
  pub db : ClientsDb
  pub events : List Event

abbrev pub in_state : ComplianceState → ClientRow → ClientRow
in_state s row = record row { compliance_state = state_name s }

abbrev pub restated : ℕ → ComplianceState → List ClientRow → List ClientRow
restated id s rows = update_where (λ row. row.id == id) (in_state s) rows

abbrev finding_rows : ℕ → List (String × String) → List FindingRow
finding_rows client [] = []
finding_rows client (f ∷ fs) =
    record { client_id = client; code = f.0; summary = f.1 } ∷ finding_rows client fs

abbrev pub changed_event : TransitionInput → ComplianceState → Event
changed_event i before = record {
  tenant_id = i.tenant_id;
  type = "client.compliance_state_changed";
  actor = i.actor;
  client_id = some i.client_id;
  correlation_id = none;
  payload = Payload.state_changed before i.to;
}

-- the tables after the transaction
abbrev pub updated : TransitionInput → ClientsDb → ClientsDb
updated i d = record d {
  clients = restated i.client_id i.to d.clients;
  findings = finding_rows i.client_id i.findings ++ d.findings;
}

abbrev pub with_event : Option Event → List Event → List Event
with_event none es = es
with_event (some e) es = e ∷ es

abbrev pub now_in_state : TransitionInput → Client → Client
now_in_state i c = record c { compliance_state = i.to }

abbrev pub after_listing :
    TransitionInput
    → Client
    → ClientsDb
    → List Event
    → Outcome (RiskDb × Option Event)
    → TransitionRun
after_listing i c d es (ok (risk', e)) = record {
  result = ok (now_in_state i c);
  db = record d { risk = risk' };
  events = with_event e es;
}
after_listing i c d es (Outcome.not_ok x) = record {
  result = failed listing_not_written;
  db = d;
  events = es;
}

-- a transition to Fail lists the client before it returns
abbrev pub list_if_failed : ℕ → TransitionInput → Client → ClientsDb → List Event → TransitionRun
list_if_failed fresh i c d es =
    if same_state i.to fail
    then after_listing i c d es
        (auto_list_for_compliance_fail fresh i.tenant_id i.client_id i.to i.actor i.now d.risk)
    else record { result = ok (now_in_state i c); db = d; events = es }

abbrev pub transitioned : ℕ → TransitionInput → ClientsDb → Outcome Client → TransitionRun
transitioned fresh i d (ok current) =
    list_if_failed fresh i current (updated i d) (changed_event i current.compliance_state ∷ [])
transitioned fresh i d (Outcome.not_ok x) = record {
  result = Outcome.not_ok x;
  db = d;
  events = [];
}

unfoldable pub transition_compliance_state : ℕ → TransitionInput → ClientsDb → TransitionRun
transition_compliance_state fresh i d =
    transitioned fresh i d (find_client d.clients i.tenant_id i.client_id)
