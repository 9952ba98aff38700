-- ===== src/Billing/Refunds/Decisions.antt =====
-- packages/billing/src/refunds.ts: `payRefund`, `declineRefund` and the two writes of the funding
-- outcomes. New rows' identifiers, which the database generates, are arguments.
use burkham_wickmont_operati.Prelude.{
  ℕ, ◌∷◌, is_blank, if◌then◌else◌, update_where, List, false, String, ◌&&◌, some, none, Option,
  true, find, Bool, ◌==◌, leb, str_append,
}
use burkham_wickmont_operati.Billing.Refunds.{refunds_due, Entitlement, same_trigger}
use burkham_wickmont_operati.Identity.{threw, found, Actor, absent, Found, find_actor}
use burkham_wickmont_operati.Core.Outcome.{
  ◌>>=◌, ◌>>◌, refused, Refusal, refuse_if, no_reason, Outcome, ok, no_entitlement, NotOk,
  no_funding_outcome, not_ok, no_data, decline_needs_human, nothing_owed,
}
use burkham_wickmont_operati.Core.Events.{human, Payload, ActorKind, Event, EventActor}
use burkham_wickmont_operati.Billing.Tables.{
  Disposition, RefundTrigger, BillingDb, paid, BillingRecord, declined, FundingOutcome,
  RefundRecord, refund, unearned_prepay_on_cancellation, engagement_quality_failure,
  approved_not_funded_60_days,
}

pub record RefundInput : Type 0 where
  pub tenant_id : ℕ
  pub engagement_id : ℕ
  pub refund_trigger : RefundTrigger
  pub amount_cents : ℕ
  pub decided_at : ℕ
  pub actor : EventActor

abbrev pub is_asked : RefundInput → Entitlement → Bool
is_asked i e = same_trigger e.refund_trigger i.refund_trigger && e.amount_cents == i.amount_cents

abbrev pub refund_record : ℕ → RefundInput → Disposition → RefundRecord
refund_record fresh i how = record {
  id = fresh;
  tenant_id = i.tenant_id;
  engagement_id = i.engagement_id;
  refund_trigger = i.refund_trigger;
  amount_cents = i.amount_cents;
  disposition = how;
}

-- the trigger, as it is written
abbrev trigger_name : RefundTrigger → String
trigger_name approved_not_funded_60_days = "approved_not_funded_60_days"
trigger_name engagement_quality_failure = "engagement_quality_failure"
trigger_name unearned_prepay_on_cancellation = "unearned_prepay_on_cancellation"

abbrev refund_row : ℕ → RefundInput → BillingRecord
refund_row fresh i = record {
  id = fresh;
  tenant_id = i.tenant_id;
  engagement_id = i.engagement_id;
  kind = refund;
  amount_cents = i.amount_cents;
  description = str_append "Refund: " (trigger_name i.refund_trigger);
  approved_credit_limit_cents = none;
  occurred_on = i.decided_at;
}

abbrev pub billing_event : String → ℕ → ℕ → EventActor → Payload → Event
billing_event name tenant client actor payload = record {
  tenant_id = tenant;
  type = name;
  actor = actor;
  client_id = some client;
  correlation_id = none;
  payload = payload;
}

-- the tables after a payment
abbrev pub after_payment : ℕ → RefundInput → BillingDb → BillingDb
after_payment fresh i d = record d {
  refunds = refund_record fresh i paid ∷ d.refunds;
  records = refund_row fresh i ∷ d.records;
}

abbrev pub or_refused : {A : Type 0} → Option A → Refusal → Outcome A
or_refused none r = refused r
or_refused (some a) r = ok a

unfoldable pub pay_refund : ℕ → RefundInput → BillingDb → Outcome (BillingDb × Event)
pay_refund fresh i d = do
  due ← refunds_due d i.tenant_id i.engagement_id i.decided_at
  e ← or_refused (find (is_asked i) due) no_entitlement
  ok (
    after_payment fresh i d,
    billing_event "billing.refund.paid" i.tenant_id e.client_id i.actor
        (Payload.amount_written i.engagement_id i.amount_cents),
  )

abbrev is_human : ActorKind → Bool
is_human human = true
is_human _ = false

-- a human at Level 3 or above
abbrev pub may_decline : Actor → Bool
may_decline a = is_human a.kind && leb 3 a.authority_level

abbrev require_decliner : Found Actor → Outcome Actor
require_decliner absent = refused decline_needs_human
require_decliner (found a) = if may_decline a then ok a else refused decline_needs_human
require_decliner threw = not_ok NotOk.threw

abbrev or_nothing_to_decline : Option Entitlement → Outcome Entitlement
or_nothing_to_decline none = no_data nothing_owed
or_nothing_to_decline (some e) = ok e

abbrev pub after_decline : ℕ → RefundInput → BillingDb → BillingDb
after_decline fresh i d = record d { refunds = refund_record fresh i declined ∷ d.refunds }

unfoldable pub decline_refund :
    List Actor → ℕ → String → RefundInput → BillingDb → Outcome (BillingDb × Event)
decline_refund actors fresh reason i d = do
  refuse_if (is_blank reason) no_reason
  actor ← require_decliner (find_actor actors i.actor.id)
  due ← refunds_due d i.tenant_id i.engagement_id i.decided_at
  e ← or_nothing_to_decline (find (is_asked i) due)
  ok (
    after_decline fresh i d,
    billing_event "billing.refund.declined" i.tenant_id e.client_id i.actor
        (Payload.amount_written i.engagement_id i.amount_cents),
  )

unfoldable pub record_funding_outcome : FundingOutcome → EventActor → BillingDb → BillingDb × Event
record_funding_outcome row actor d = (
  record d { outcomes = row ∷ d.outcomes },
  billing_event "billing.funding_outcome.recorded" row.tenant_id row.client_id actor
      (Payload.amount_written row.engagement_id row.approved_credit_limit_cents),
)

abbrev pub funded : ℕ → ℕ → FundingOutcome → FundingOutcome
funded on_ amount o = record o { funded_on = some on_; funded_cents = some amount }

abbrev pub or_no_outcome : Option FundingOutcome → Outcome FundingOutcome
or_no_outcome none = no_data no_funding_outcome
or_no_outcome (some o) = ok o

unfoldable pub mark_funded : ℕ → ℕ → ℕ → ℕ → EventActor → BillingDb → Outcome (BillingDb × Event)
mark_funded tenant id funded_on amount actor d = do
  existing ← or_no_outcome (find (λ o. o.tenant_id == tenant && o.id == id) d.outcomes)
  ok (
    record d { outcomes = update_where (λ o. o.id == id) (funded funded_on amount) d.outcomes },
    billing_event "billing.funding_outcome.funded" tenant existing.client_id actor
        (Payload.amount_written id amount),
  )
