-- ===== src/Risk/Listings.antt =====
-- packages/risk/src/listings.ts: listing, reviewing, removing and overriding. Times are epoch
-- milliseconds; identifiers are numbers, ordered as the database orders them; a row's new
-- identifier, which the database generates, is an argument.
pub mod Approval
use burkham_wickmont_operati.Core.Outcome.{
  Outcome, ok, refused, refuse_if, not_ok, no_data, ◌>>=◌, ◌>>◌, NotOk, Missing, unknown_actor,
  not_human, level_too_low, no_justification, not_a_fail, already_listed, override_spent,
  no_listing, no_override,
}
use burkham_wickmont_operati.Core.Events.{EventActor, Event, ActorKind, human, Payload}
use burkham_wickmont_operati.Identity.{Actor, find_actor, absent, found, threw}
use burkham_wickmont_operati.Prelude.{
  update_where, ◌&&◌, ◌||◌, trimmed_length, is_some, ℕ, none, ◌∷◌, ltb, not, str_eq, String, List,
  first_by, find, ◌*◌, true, false, ◌+◌, Bool, some, ◌==◌, Option, filter,
}
use burkham_wickmont_operati.Core.Compliance.{ComplianceState, fail, same_state}

pub data ListingStatus : Type 0 where
  listed removed : ListingStatus

pub data DoNotFundTrigger : Type 0 where
  compliance_fail_trigger fraud_indicator material_misrepresentation : DoNotFundTrigger
  repeated_default regulatory_action client_conduct other_trigger : DoNotFundTrigger

abbrev pub required_authority_level : ℕ
required_authority_level = 3

abbrev pub default_review_cadence_days : ℕ
default_review_cadence_days = 90

abbrev pub day_ms : ℕ
day_ms = 24 * 60 * 60 * 1000

pub record Listing : Type 0 where
  pub id : ℕ
  pub tenant_id : ℕ
  pub client_id : ℕ
  pub status : ListingStatus
  pub trigger : DoNotFundTrigger
  pub automatic : Bool
  pub listed_at : ℕ
  pub listed_by : Option ℕ
  pub review_cadence_days : ℕ
  pub last_reviewed_at : Option ℕ
  pub removed_at : Option ℕ

pub record Override : Type 0 where
  pub id : ℕ
  pub tenant_id : ℕ
  pub listing_id : ℕ
  pub action : String
  pub approved_by : ℕ
  pub approved_at : ℕ
  pub consumed_at : Option ℕ

pub record RiskDb : Type 0 where
  pub listings : List Listing
  pub overrides : List Override

abbrev reviewed_or_listed : Listing → ℕ
reviewed_or_listed row = elim row.last_reviewed_at [ none ↦ row.listed_at | some t ↦ t ]

unfoldable pub review_due_at : Listing → ℕ
review_due_at row = reviewed_or_listed row + row.review_cadence_days * day_ms

unfoldable pub review_is_overdue : Listing → ℕ → Bool
unfolding review_due_at
review_is_overdue row now = ltb (review_due_at row) now

abbrev pub is_listed : ListingStatus → Bool
is_listed listed = true
is_listed removed = false

-- `orderBy: [{ listedAt: 'desc' }, { id: 'asc' }]`
abbrev pub newer : Listing → Listing → Bool
newer a b = ltb b.listed_at a.listed_at || (a.listed_at == b.listed_at && ltb a.id b.id)

abbrev pub is_active_for : ℕ → ℕ → Listing → Bool
is_active_for tenant client row =
    row.tenant_id == tenant && row.client_id == client && is_listed row.status

unfoldable pub active_listing : RiskDb → ℕ → ℕ → Option Listing
active_listing d tenant client = first_by newer (filter (is_active_for tenant client) d.listings)

abbrev is_human_kind : ActorKind → Bool
is_human_kind human = true
is_human_kind _ = false

unfoldable pub require_approver : List Actor → ℕ → Outcome ℕ
require_approver actors id = elim (find_actor actors id) [
  | threw ↦ not_ok NotOk.threw
  | absent ↦ refused unknown_actor
  | found actor ↦ do
    refuse_if (not (is_human_kind actor.kind)) not_human
    refuse_if (ltb actor.authority_level required_authority_level) level_too_low
    ok actor.id
]

-- An operation gives the new tables and the event that it appends.
abbrev pub Written : Type 0
Written = RiskDb × Event

abbrev pub risk_event : String → ℕ → ℕ → EventActor → Payload → Event
risk_event name tenant client actor payload = record {
  tenant_id = tenant;
  type = name;
  actor = actor;
  client_id = some client;
  correlation_id = none;
  payload = payload;
}

abbrev pub by_human : ℕ → EventActor
by_human id = record { id = id; kind = human }

abbrev pub new_listing : ℕ → ℕ → ℕ → DoNotFundTrigger → Bool → ℕ → Option ℕ → ℕ → Listing
new_listing id tenant client trigger automatic now by cadence = record {
  id = id;
  tenant_id = tenant;
  client_id = client;
  status = listed;
  trigger = trigger;
  automatic = automatic;
  listed_at = now;
  listed_by = by;
  review_cadence_days = cadence;
  last_reviewed_at = none;
  removed_at = none;
}

abbrev pub add_listing : Listing → RiskDb → RiskDb
add_listing row d = record d { listings = row ∷ d.listings }

pub record ListInput : Type 0 where
  pub tenant_id : ℕ
  pub client_id : ℕ
  pub trigger : DoNotFundTrigger
  pub justification : String
  pub listed_by : ℕ
  pub review_cadence_days : Option ℕ
  pub now : ℕ

abbrev pub cadence_or_default : Option ℕ → ℕ
cadence_or_default none = default_review_cadence_days
cadence_or_default (some n) = n

unfoldable pub list_client : List Actor → ℕ → ListInput → RiskDb → Outcome Written
list_client actors fresh i d = do
  refuse_if (ltb (trimmed_length i.justification) 10) no_justification
  refuse_if (is_some (active_listing d i.tenant_id i.client_id)) already_listed
  require_approver actors i.listed_by
  ok (
    add_listing
        (new_listing fresh i.tenant_id i.client_id i.trigger false i.now (some i.listed_by)
          (cadence_or_default i.review_cadence_days))
        d,
    risk_event "risk.do_not_fund.listed" i.tenant_id i.client_id (by_human i.listed_by)
        (Payload.listing_written fresh false),
  )

-- The second part is the event, where a listing was created.
unfoldable pub auto_list_for_compliance_fail :
    ℕ → ℕ → ℕ → ComplianceState → EventActor → ℕ → RiskDb → Outcome (RiskDb × Option Event)
auto_list_for_compliance_fail fresh tenant client state triggered_by now d = do
  refuse_if (not (same_state state fail)) not_a_fail
  elim (active_listing d tenant client) [
    | some existing ↦ ok (d, none)
    | none ↦ ok (
      add_listing
          (new_listing fresh tenant client compliance_fail_trigger true now none
            default_review_cadence_days)
          d,
      some (
          risk_event "risk.do_not_fund.listed" tenant client triggered_by
            (Payload.listing_written fresh true)),
    )
  ]

-- `if (!existing) return noData(…)`
abbrev pub or_no_data : {A : Type 0} → Option A → Missing → Outcome A
or_no_data none m = no_data m
or_no_data (some a) m = ok a

abbrev update_listing : ℕ → (Listing → Listing) → RiskDb → RiskDb
update_listing id f d = record d { listings = update_where (λ row. row.id == id) f d.listings }

abbrev pub reviewed : ℕ → Listing → Listing
reviewed now row = record row { last_reviewed_at = some now }

unfoldable pub record_review : List Actor → ℕ → ℕ → ℕ → ℕ → RiskDb → Outcome Written
record_review actors tenant client reviewed_by now d = do
  existing ← or_no_data (active_listing d tenant client) no_listing
  require_approver actors reviewed_by
  ok (
    update_listing existing.id (reviewed now) d,
    risk_event "risk.do_not_fund.reviewed" tenant client (by_human reviewed_by)
        (Payload.record_written existing.id),
  )

abbrev pub delisted : ℕ → Listing → Listing
delisted now row = record row { status = removed; removed_at = some now }

unfoldable pub remove_listing : List Actor → ℕ → ℕ → ℕ → String → ℕ → RiskDb → Outcome Written
remove_listing actors tenant client removed_by justification now d = do
  refuse_if (ltb (trimmed_length justification) 10) no_justification
  existing ← or_no_data (active_listing d tenant client) no_listing
  require_approver actors removed_by
  ok (
    update_listing existing.id (delisted now) d,
    risk_event "risk.do_not_fund.removed" tenant client (by_human removed_by)
        (Payload.record_written existing.id),
  )

abbrev add_override : Override → RiskDb → RiskDb
add_override row d = record d { overrides = row ∷ d.overrides }

unfoldable pub grant_override :
    List Actor → ℕ → ℕ → ℕ → String → String → ℕ → ℕ → RiskDb → Outcome Written
grant_override actors fresh tenant client action justification approved_by now d = do
  refuse_if (ltb (trimmed_length justification) 10) no_justification
  existing ← or_no_data (active_listing d tenant client) no_listing
  require_approver actors approved_by
  ok (
    add_override
        (record {
          id = fresh;
          tenant_id = tenant;
          listing_id = existing.id;
          action = action;
          approved_by = approved_by;
          approved_at = now;
          consumed_at = none;
        })
        d,
    risk_event "risk.do_not_fund.override_granted" tenant client (by_human approved_by)
        (Payload.override_written fresh action),
  )

-- `orderBy: [{ approvedAt: 'asc' }, { id: 'asc' }]`
abbrev pub older : Override → Override → Bool
older a b = ltb a.approved_at b.approved_at || (a.approved_at == b.approved_at && ltb a.id b.id)

abbrev pub is_unspent_for : ℕ → ℕ → String → Override → Bool
is_unspent_for tenant listing_id action o =
    o.tenant_id == tenant
    && o.listing_id == listing_id
    && str_eq o.action action
    && not (is_some o.consumed_at)

unfoldable pub find_unconsumed_override : RiskDb → ℕ → ℕ → String → Option Override
find_unconsumed_override d tenant listing_id action =
    first_by older (filter (is_unspent_for tenant listing_id action) d.overrides)

abbrev pub spent : ℕ → Override → Override
spent now o = record o { consumed_at = some now }

unfoldable pub consume_override : ℕ → ℕ → ℕ → ℕ → ℕ → RiskDb → Outcome Written
consume_override tenant client override_id actor_id now d = do
  o ← or_no_data (find (λ o. o.tenant_id == tenant && o.id == override_id) d.overrides) no_override
  refuse_if (is_some o.consumed_at) override_spent
  ok (
    record d { overrides = update_where (λ x. x.id == o.id) (spent now) d.overrides },
    risk_event "risk.do_not_fund.override_consumed" tenant client (by_human actor_id)
        (Payload.override_written o.id o.action),
  )

unfoldable pub listings_due_for_review : RiskDb → ℕ → ℕ → List Listing
unfolding review_is_overdue
listings_due_for_review d tenant now =
    filter (λ row. is_listed row.status && review_is_overdue row now)
      (filter (λ row. row.tenant_id == tenant && is_listed row.status) d.listings)
