-- ===== src/Billing/Credit.antt =====
-- packages/billing/src/credit.ts: the credit chain across the offer ladder.
pub mod Draws
use burkham_wickmont_operati.Core.Outcome.{
  Outcome, ok, refuse_if, ◌>>=◌, ◌>>◌, no_data, not_cents, no_engagement, exceeds_credit,
  no_rationale, Missing,
}
use burkham_wickmont_operati.Core.Events.{Event, EventActor, Payload}
use burkham_wickmont_operati.Prelude.{
  [], min, ◌++◌, ◌==◌, if◌then◌else◌, order_by, not, none, sum_of, ◌&&◌, Bool, String, ◌∷◌, List,
  filter, ℕ, some, Option, find, ltb, ◌-◌, is_blank, str_append,
}
use burkham_wickmont_operati.Billing.Tables.{
  rows_of, BillingRecord, earlier, Engagement, is_payment, BillingDb, is_refund, credit_applied,
  CreditApplication,
}

pub record CreditSource : Type 0 where
  pub record_id : ℕ
  pub engagement_id : ℕ
  pub paid_cents : ℕ
  pub already_drawn_cents : ℕ
  pub available_cents : ℕ

-- `aggregate({ _sum })` over the applications that draw on a record
unfoldable pub drawn : BillingDb → ℕ → ℕ → ℕ
drawn d tenant record_id =
    sum_of (λ c. c.amount_cents)
      (filter (λ c. c.tenant_id == tenant && c.source_record_id == record_id) d.credits)

-- The loop over an engagement's payments, oldest first; the refunds reduce the oldest first. The
-- second argument is what has been drawn on a record.
unfoldable pub payment_sources : (ℕ → ℕ) → ℕ → List BillingRecord → List CreditSource
payment_sources already refund_remaining [] = []
payment_sources already refund_remaining (p ∷ ps) =
    let offset_by_refund = min refund_remaining p.amount_cents in
    let available = p.amount_cents - offset_by_refund - already p.id in
    let rest = payment_sources already (refund_remaining - offset_by_refund) ps in
    if available == 0
    then rest
    else record {
      record_id = p.id;
      engagement_id = p.engagement_id;
      paid_cents = p.amount_cents;
      already_drawn_cents = already p.id;
      available_cents = available;
    }
      ∷ rest

abbrev pub refunded_on : BillingDb → ℕ → ℕ → ℕ
refunded_on d tenant engagement =
    sum_of (λ r. r.amount_cents) (filter (rows_of is_refund tenant engagement) d.records)

abbrev pub payments_on : BillingDb → ℕ → ℕ → List BillingRecord
payments_on d tenant engagement =
    order_by earlier (filter (rows_of is_payment tenant engagement) d.records)

abbrev pub engagement_sources : BillingDb → ℕ → List Engagement → List CreditSource
engagement_sources d tenant [] = []
engagement_sources d tenant (e ∷ es) =
    payment_sources (drawn d tenant) (refunded_on d tenant e.id) (payments_on d tenant e.id)
    ++ engagement_sources d tenant es

unfoldable pub available_credit : BillingDb → ℕ → ℕ → List CreditSource
unfolding payment_sources drawn
available_credit d tenant client_id =
    engagement_sources d tenant
      (filter (λ e. e.tenant_id == tenant && e.client_id == client_id) d.engagements)

abbrev pub total_available : List CreditSource → ℕ
total_available = sum_of (λ s. s.available_cents)

pub record ApplyCreditInput : Type 0 where
  pub tenant_id : ℕ
  pub client_id : ℕ
  pub to_engagement_id : ℕ
  pub amount_cents : ℕ
  pub rationale : String
  pub applied_on : ℕ
  pub actor : EventActor

-- The loop of the transaction: one application for each source until nothing remains.
unfoldable pub draws : ℕ → ℕ → ℕ → List CreditSource → List CreditApplication
draws tenant target remaining [] = []
draws tenant target remaining (s ∷ ss) =
    let draw = min remaining s.available_cents in
    let rest = draws tenant target (remaining - draw) ss in
    if remaining == 0
    then []
    else record {
      tenant_id = tenant;
      source_record_id = s.record_id;
      to_engagement_id = target;
      amount_cents = draw;
    }
      ∷ rest

abbrev pub usable_sources : BillingDb → ApplyCreditInput → List CreditSource
usable_sources d i =
    filter (λ s. not (s.engagement_id == i.to_engagement_id))
      (available_credit d i.tenant_id i.client_id)

abbrev pub credited : ApplyCreditInput → ℕ → BillingDb → BillingDb
credited i fresh d = record d {
  credits = draws i.tenant_id i.to_engagement_id i.amount_cents (usable_sources d i) ++ d.credits;
  records =
      record {
        id = fresh;
        tenant_id = i.tenant_id;
        engagement_id = i.to_engagement_id;
        kind = credit_applied;
        amount_cents = i.amount_cents;
        description = str_append "Credit carried forward: " i.rationale;
        approved_credit_limit_cents = none;
        occurred_on = i.applied_on;
      }
      ∷ d.records;
}

abbrev pub is_target : ApplyCreditInput → Engagement → Bool
is_target i e =
    e.tenant_id == i.tenant_id && e.id == i.to_engagement_id && e.client_id == i.client_id

abbrev pub or_missing : {A : Type 0} → Option A → Missing → Outcome A
or_missing none m = no_data m
or_missing (some a) m = ok a

unfoldable pub apply_credit : ℕ → ApplyCreditInput → BillingDb → Outcome (BillingDb × Event)
apply_credit fresh i d = do
  refuse_if (i.amount_cents == 0) not_cents
  refuse_if (is_blank i.rationale) no_rationale
  target ← or_missing (find (is_target i) d.engagements) no_engagement
  refuse_if (ltb (total_available (usable_sources d i)) i.amount_cents) exceeds_credit
  ok (
    credited i fresh d,
    record {
      tenant_id = i.tenant_id;
      type = "billing.credit.applied";
      actor = i.actor;
      client_id = some i.client_id;
      correlation_id = none;
      payload = Payload.amount_written i.to_engagement_id i.amount_cents;
    },
  )
