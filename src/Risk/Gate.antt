-- ===== src/Risk/Gate.antt =====
-- packages/risk/src/gate.ts: the Do Not Fund check of a named action.
pub mod Enforced
use burkham_wickmont_operati.Core.Outcome.{Outcome, ok, refused, do_not_fund}
use burkham_wickmont_operati.Risk.Listings.{
  RiskDb, Listing, Override, active_listing, find_unconsumed_override,
}
use burkham_wickmont_operati.Prelude.{
  [], ℕ, none, ◌∷◌, String, List, if◌then◌else◌, true, false, Bool, includes, some, Option,
}

abbrev pub do_not_fund_permitted_actions : List String
do_not_fund_permitted_actions =
    "read_document" ∷ "analyze_file" ∷ "generate_internal_report" ∷ "draft_communication"
    ∷ "send_client_communication" ∷ "send_document_request" ∷ []

unfoldable pub is_permitted_while_listed : String → Bool
is_permitted_while_listed action = includes do_not_fund_permitted_actions action

pub record DoNotFundClearance : Type 0 where
  pub listed : Bool
  pub listing : Option Listing
  pub override_id : Option ℕ

abbrev by_override : Listing → Option Override → Outcome DoNotFundClearance
by_override listing (some o) =
    ok (record { listed = true; listing = some listing; override_id = some o.id })
by_override listing none = refused do_not_fund

abbrev while_listed : RiskDb → ℕ → Listing → String → Outcome DoNotFundClearance
while_listed d tenant listing action =
    if is_permitted_while_listed action
    then ok (record { listed = true; listing = some listing; override_id = none })
    else by_override listing (find_unconsumed_override d tenant listing.id action)

unfoldable pub check_do_not_fund : RiskDb → ℕ → ℕ → String → Outcome DoNotFundClearance
check_do_not_fund d tenant client action = elim (active_listing d tenant client) [
  | none ↦ ok (record { listed = false; listing = none; override_id = none })
  | some listing ↦ while_listed d tenant listing action
]
