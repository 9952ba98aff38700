-- ===== src/Billing/Refunds.antt =====
-- packages/billing/src/refunds.ts: what the tables say is owed, paying it and declining it. The
-- texts of an entitlement's basis are left out. A figure that leaves the exact integers ends a call
-- as an exception does here.
pub mod Triggers
pub mod Decisions
pub mod Settled
use burkham_wickmont_operati.Prelude.{
  ℕ, ◌∷◌, if◌then◌else◌, ltb, List, false, sum_of, ◌&&◌, map, some, length, none, has_part, codes,
  Option, not, true, ◌++◌, is_some, find, Bool, ◌==◌, ◌-◌, [], leb, filter,
}
use burkham_wickmont_operati.Core.Outcome.{◌>>=◌, Outcome, ok, NotOk, not_ok}
use burkham_wickmont_operati.Billing.Tables.{
  Disposition, RefundTrigger, BillingDb, Engagement, engagement_quality_failure, days_between,
  approved_not_funded_60_days, find_engagement, cancelled, BillingRecord, is_payment,
  EngagementStatus, FundingOutcome, unearned_prepay_on_cancellation, is_charge, rows_of,
  RefundRecord,
}
use burkham_wickmont_operati.Billing.Money.{
  toward_client, cents, inexact, Cents, thrown, proportion_of,
}
use burkham_wickmont_operati.Risk.Listings.Approval.{decided}

abbrev pub approved_not_funded_days : ℕ
approved_not_funded_days = 60

pub data Resolution : Type 0 where
  unresolved : Resolution
  resolved : Disposition → Resolution

pub record Entitlement : Type 0 where
  pub engagement_id : ℕ
  pub client_id : ℕ
  pub refund_trigger : RefundTrigger
  pub amount_cents : ℕ
  pub resolution : Resolution

abbrev same_limit : ℕ → Option ℕ → Bool
same_limit limit none = false
same_limit limit (some n) = n == limit

abbrev pub entitlement : Engagement → RefundTrigger → ℕ → Entitlement
entitlement e t amount = record {
  engagement_id = e.id;
  client_id = e.client_id;
  refund_trigger = t;
  amount_cents = amount;
  resolution = unresolved;
}

-- `fundedOn === null` and more than sixty days elapsed
abbrev pub is_stale : ℕ → FundingOutcome → Bool
is_stale today o =
    not (is_some o.funded_on) && ltb approved_not_funded_days (days_between o.approved_on today)

-- the success-fee line of an approval
abbrev pub fee_of : List BillingRecord → FundingOutcome → Option BillingRecord
fee_of charges o =
    find (λ r. same_limit o.approved_credit_limit_cents r.approved_credit_limit_cents) charges

abbrev with_fee : Engagement → Option BillingRecord → List Entitlement → List Entitlement
with_fee e none rest = rest
with_fee e (some fee) rest = entitlement e approved_not_funded_60_days fee.amount_cents ∷ rest

-- the loop over the engagement's outcomes
unfoldable pub stale_fees :
    Engagement → List BillingRecord → ℕ → List FundingOutcome → List Entitlement
stale_fees e charges today [] = []
stale_fees e charges today (o ∷ os) =
    let rest = stale_fees e charges today os in
    if is_stale today o then with_fee e (fee_of charges o) rest else rest

abbrev pub charges_on : BillingDb → ℕ → ℕ → List BillingRecord
charges_on d tenant engagement = filter (rows_of is_charge tenant engagement) d.records

abbrev pub outcomes_on : BillingDb → ℕ → ℕ → List FundingOutcome
outcomes_on d tenant engagement =
    filter (λ o. o.tenant_id == tenant && o.engagement_id == engagement) d.outcomes

unfoldable pub approved_not_funded : BillingDb → ℕ → ℕ → ℕ → List Entitlement
unfolding stale_fees
approved_not_funded d tenant engagement today = elim (find_engagement d tenant engagement) [
  | none ↦ []
  | some e ↦ stale_fees e (charges_on d tenant engagement) today (outcomes_on d tenant engagement)
]

-- `description: { contains: 'etainer' }`
abbrev pub is_retainer : BillingRecord → Bool
is_retainer r = has_part (codes "etainer") (codes r.description)

abbrev reached : ℕ → Option ℕ → Bool
reached today none = false
reached today (some end_) = leb end_ today

abbrev retainer_entitlement : Engagement → Option BillingRecord → List Entitlement
retainer_entitlement e none = []
retainer_entitlement e (some r) = entitlement e engagement_quality_failure r.amount_cents ∷ []

unfoldable pub quality_failure : BillingDb → ℕ → ℕ → ℕ → List Entitlement
quality_failure d tenant engagement today = elim (find_engagement d tenant engagement) [
  | none ↦ []
  | some e ↦
      if not (reached today e.committed_through)
      then []
      else if ltb 0 (length (outcomes_on d tenant engagement))
      then []
      else retainer_entitlement e (find is_retainer (charges_on d tenant engagement))
]

abbrev is_cancelled : EngagementStatus → Bool
is_cancelled cancelled = true
is_cancelled _ = false

abbrev pub paid_on : BillingDb → ℕ → ℕ → ℕ
paid_on d tenant engagement =
    sum_of (λ r. r.amount_cents) (filter (rows_of is_payment tenant engagement) d.records)

abbrev pub owed : Engagement → Cents → Outcome (List Entitlement)
owed e thrown = not_ok NotOk.threw
owed e inexact = not_ok NotOk.threw
owed e (cents n) = ok (if n == 0 then [] else entitlement e unearned_prepay_on_cancellation n ∷ [])

-- the figure, from what was paid and the days of the term and of its use
unfoldable pub prorated : Engagement → ℕ → ℕ → ℕ → Outcome (List Entitlement)
unfolding proportion_of
prorated e amount term used =
    if amount == 0
    then ok []
    else if term == 0
    then ok []
    else if term - used == 0
    then ok []
    else owed e (proportion_of amount (term - used) term toward_client)

abbrev pub prepay_of : Engagement → ℕ → Option ℕ → Option ℕ → Outcome (List Entitlement)
unfolding prorated
prepay_of e amount none end_ = ok []
prepay_of e amount (some stop) none = ok []
prepay_of e amount (some stop) (some end_) =
    prorated e amount (days_between e.started_on end_) (days_between e.started_on stop)

unfoldable pub unearned_prepay : BillingDb → ℕ → ℕ → Outcome (List Entitlement)
unearned_prepay d tenant engagement = elim (find_engagement d tenant engagement) [
  | none ↦ ok []
  | some e ↦
      if not e.annual_prepay
      then ok []
      else if not (is_cancelled e.status)
      then ok []
      else prepay_of e (paid_on d tenant engagement) e.cancelled_on e.committed_through
]

abbrev pub same_trigger : RefundTrigger → RefundTrigger → Bool
same_trigger approved_not_funded_60_days approved_not_funded_60_days = true
same_trigger engagement_quality_failure engagement_quality_failure = true
same_trigger unearned_prepay_on_cancellation unearned_prepay_on_cancellation = true
same_trigger _ _ = false

abbrev resolve : Entitlement → Option RefundRecord → Entitlement
resolve e none = e
resolve e (some r) = record e { resolution = resolved r.disposition }

abbrev pub refunds_on : BillingDb → ℕ → ℕ → List RefundRecord
refunds_on d tenant engagement =
    filter (λ r. r.tenant_id == tenant && r.engagement_id == engagement) d.refunds

abbrev pub settle : List RefundRecord → Entitlement → Entitlement
settle decided e = resolve e (
    find (λ r. same_trigger r.refund_trigger e.refund_trigger && r.amount_cents == e.amount_cents)
      decided)

unfoldable pub refunds_due : BillingDb → ℕ → ℕ → ℕ → Outcome (List Entitlement)
unfolding approved_not_funded quality_failure unearned_prepay
refunds_due d tenant engagement today = do
  prepay ← unearned_prepay d tenant engagement
  ok (
      map (settle (refunds_on d tenant engagement)) (
        approved_not_funded d tenant engagement today
        ++ quality_failure d tenant engagement today
        ++ prepay))

abbrev is_unresolved : Resolution → Bool
is_unresolved unresolved = true
is_unresolved (resolved d) = false

unfoldable pub unresolved_refunds : BillingDb → ℕ → ℕ → ℕ → Outcome (List Entitlement)
unfolding refunds_due
unresolved_refunds d tenant engagement today = do
  due ← refunds_due d tenant engagement today
  ok (filter (λ e. is_unresolved e.resolution) due)
