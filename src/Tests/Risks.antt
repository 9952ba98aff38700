-- ===== src/Tests/Risks.antt =====
-- Listing a client, overriding the listing once, and who may.
use burkham_wickmont_operati.Prelude.{
  is_white_space, ◌≤◌, inr, ◌≡◌, ◌∷◌, List, true, [], some, refl, false, trim, none, trimmed_length,
}
use burkham_wickmont_operati.Core.Outcome.{refused, override_spent, do_not_fund, is_ok}
use burkham_wickmont_operati.Risk.Listings.{
  Listing, spent, by_human, list_client, require_approver, active_listing, ListInput, risk_event,
  find_unconsumed_override, Override, RiskDb, new_listing, consume_override, fraud_indicator,
}
use burkham_wickmont_operati.Identity.{find_actor, Actor}
use burkham_wickmont_operati.Core.Authority.{is_authority_level}
use burkham_wickmont_operati.Core.Events.{ActorKind, Payload}
use burkham_wickmont_operati.Risk.Gate.{is_permitted_while_listed, check_do_not_fund}
use burkham_wickmont_operati.Risk.Gate.Enforced.{list_client-blocks, check_do_not_fund_exact}
use burkham_wickmont_operati.Risk.Listings.Approval.{
  Approver, approval_required, consume_override-once, lists,
}

abbrev officer : Actor
officer = record { id = 9; tenant_id = 7; kind = ActorKind.human; authority_level = 3 }

abbrev officers : List Actor
officers = officer ∷ []

abbrev nothing_listed : RiskDb
nothing_listed = record { listings = []; overrides = [] }

abbrev fraud : ListInput
fraud = record {
  tenant_id = 7;
  client_id = 3;
  trigger = fraud_indicator;
  justification = "Bank statements altered.";
  listed_by = 9;
  review_cadence_days = none;
  now = 1000;
}

abbrev listed_row : Listing
listed_row = new_listing 50 7 3 fraud_indicator false 1000 (some 9) 90

abbrev one_listed : RiskDb
one_listed = record { listings = listed_row ∷ []; overrides = [] }

abbrev granted : Override
granted = record {
  id = 60;
  tenant_id = 7;
  listing_id = 50;
  action = "submit_application";
  approved_by = 9;
  approved_at = 2000;
  consumed_at = none;
}

abbrev overridden : RiskDb
overridden = record { listings = listed_row ∷ []; overrides = granted ∷ [] }

check_do_not_fund_exact_example :
    is_ok (check_do_not_fund overridden 7 3 "submit_application") ≡ true
unfolding active_listing find_unconsumed_override is_permitted_while_listed
check_do_not_fund_exact_example =
    (check_do_not_fund_exact overridden 7 3 "submit_application").1
      (inr (inr (listed_row, refl, refl)))

list_client-blocks_example :
    check_do_not_fund one_listed 7 3 "submit_application" ≡ refused do_not_fund
unfolding list_client active_listing require_approver find_actor is_permitted_while_listed
    find_unconsumed_override is_authority_level trimmed_length trim is_white_space
list_client-blocks_example =
    list_client-blocks officers 50 fraud nothing_listed "submit_application" {d' = one_listed}
      {e = risk_event "risk.do_not_fund.listed" 7 3 (by_human 9) (Payload.listing_written 50 false)}
      refl refl refl

approval_required_example : Approver officers 9 × (10 ≤ trimmed_length "Bank statements altered.")
unfolding list_client active_listing require_approver find_actor is_authority_level trimmed_length
    trim is_white_space is_ok
approval_required_example = approval_required officers (lists 50 fraud) nothing_listed refl

consume_override-once_example :
    consume_override 7 3 60 9 4000
      (record { listings = listed_row ∷ []; overrides = spent 3000 granted ∷ [] })
    ≡ refused override_spent
unfolding consume_override
consume_override-once_example =
    consume_override-once 7 3 60 9 3000 3 9 4000 overridden
      {d' = record { listings = listed_row ∷ []; overrides = spent 3000 granted ∷ [] }}
      {e = risk_event "risk.do_not_fund.override_consumed" 7 3 (by_human 9)
        (Payload.override_written 60 "submit_application")}
      refl
