-- ===== src/Tests/Transitions.antt =====
-- A client is moved to Fail, and back.
use burkham_wickmont_operati.Prelude.{◌∷◌, [], refl, ◌≡◌}
use burkham_wickmont_operati.Core.Outcome.{refused, do_not_fund}
use burkham_wickmont_operati.Core.Compliance.{fail}
use burkham_wickmont_operati.Clients.{Client, find_client, compliance_state_of}
use burkham_wickmont_operati.Clients.Transition.{
  ClientsDb, transition_compliance_state, TransitionInput,
}
use burkham_wickmont_operati.Clients.Transition.Listed.{
  Moved, transition-find_client, transition-blocks,
}
use burkham_wickmont_operati.Core.Events.{ActorKind}
use burkham_wickmont_operati.Risk.Listings.{
  active_listing, auto_list_for_compliance_fail, find_unconsumed_override,
}
use burkham_wickmont_operati.Risk.Gate.{check_do_not_fund, is_permitted_while_listed}

abbrev before : ClientsDb
before = record {
  clients = record { id = 3; tenant_id = 7; compliance_state = "pass" } ∷ [];
  findings = [];
  risk = record { listings = []; overrides = [] };
}

abbrev failing : TransitionInput
failing = record {
  tenant_id = 7;
  client_id = 3;
  to = fail;
  reason = "Altered statements";
  findings = ("F1", "Statement altered") ∷ [];
  actor = record { id = 9; kind = ActorKind.human };
  now = 1000;
}

abbrev failed_client : Client
failed_client = record { id = 3; tenant_id = 7; compliance_state = fail }

transition-blocks_example :
    check_do_not_fund
      (transition_compliance_state 50 failing before).db.risk
      7
      3
      "submit_application"
    ≡ refused do_not_fund
unfolding transition_compliance_state find_client compliance_state_of auto_list_for_compliance_fail
    active_listing find_unconsumed_override is_permitted_while_listed
transition-blocks_example =
    transition-blocks 50 failing before "submit_application" {c = failed_client} refl refl refl
      (λ id. refl)

transition-find_client_example :
    Moved failing before failed_client (transition_compliance_state 50 failing before).db
unfolding transition_compliance_state find_client compliance_state_of auto_list_for_compliance_fail
    active_listing
transition-find_client_example = transition-find_client 50 failing before {c = failed_client} refl
