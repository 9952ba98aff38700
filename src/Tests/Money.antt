-- ===== src/Tests/Money.antt =====
-- Fees, credit and refunds of one engagement.
use burkham_wickmont_operati.Prelude.{
  ℕ, is_white_space, ◌<◌, ◌≤◌, Option, ◌-◌, String, ◌≡◌, ◌++◌, ◌∷◌, arith, List, true, ◌*◌, [],
  some, is_blank, refl, false, trim, ◌+◌, none, trimmed_length, sum_of, All,
}
use burkham_wickmont_operati.Core.Outcome.{is_ok}
use burkham_wickmont_operati.Billing.Tables.{
  active, charge, BillingDb, CreditApplication, approved_not_funded_60_days, BillingRecord,
  Engagement, RecordKind, FundingOutcome, payment, unearned_prepay_on_cancellation,
}
use burkham_wickmont_operati.Identity.{found, find_actor, Actor}
use burkham_wickmont_operati.Core.Authority.{is_authority_level}
use burkham_wickmont_operati.Core.Events.{EventActor, ActorKind, Payload}
use burkham_wickmont_operati.Billing.Credit.{
  drawn, credited, available_credit, ApplyCreditInput, apply_credit, usable_sources,
  payment_sources,
}
use burkham_wickmont_operati.Billing.Money.{proportion_of}
use burkham_wickmont_operati.Billing.Refunds.{
  stale_fees, unearned_prepay, refunds_due, quality_failure, approved_not_funded, prorated,
  entitlement,
}
use burkham_wickmont_operati.Billing.Credit.Draws.{
  payment_sources-absorbed, Backed, Within, apply_credit-conserves,
}
use burkham_wickmont_operati.Billing.Refunds.Settled.{decline_refund-human, pay_refund-settled}
use burkham_wickmont_operati.Billing.Refunds.Decisions.{
  RefundInput, decline_refund, after_payment, after_decline, pay_refund,
}
use burkham_wickmont_operati.Billing.Refunds.Triggers.{prorated_tight}

abbrev day : ℕ
day = 86400000

abbrev billed : ℕ → ℕ → RecordKind → ℕ → String → Option ℕ → ℕ → BillingRecord
billed id engagement kind amount text limit on_ = record {
  id = id;
  tenant_id = 7;
  engagement_id = engagement;
  kind = kind;
  amount_cents = amount;
  description = text;
  approved_credit_limit_cents = limit;
  occurred_on = on_;
}

abbrev engaged : ℕ → Engagement
engaged id = record {
  id = id;
  tenant_id = 7;
  client_id = 3;
  status = active;
  started_on = 0;
  committed_through = none;
  annual_prepay = false;
  cancelled_on = none;
}

abbrev approval : FundingOutcome
approval = record {
  id = 40;
  tenant_id = 7;
  engagement_id = 20;
  client_id = 3;
  approved_credit_limit_cents = 5000000;
  approved_on = 0;
  funded_on = none;
  funded_cents = none;
}

abbrev billing : BillingDb
billing = record {
  engagements = engaged 20 ∷ engaged 21 ∷ [];
  records =
      billed 30 20 payment 5000 "First payment" none 1
      ∷ billed 31 20 payment 3000 "Second payment" none 2
      ∷ billed 32 20 charge 425000 "Success fee" (some 5000000) 3
      ∷ [];
  credits = [];
  outcomes = approval ∷ [];
  refunds = [];
}

abbrev officer : EventActor
officer = record { id = 9; kind = ActorKind.human }

abbrev upgrade : ApplyCreditInput
upgrade = record {
  tenant_id = 7;
  client_id = 3;
  to_engagement_id = 21;
  amount_cents = 6000;
  rationale = "Upgrade";
  applied_on = 10;
  actor = officer;
}

apply_credit-conserves_example :
    (new : List CreditApplication) × ((credited upgrade 33 billing).credits ≡ new ++ [])
    × (sum_of (λ c. c.amount_cents) new ≡ 6000)
    × Within new (usable_sources billing upgrade)
    × All (Backed billing 7) (usable_sources billing upgrade)
unfolding apply_credit available_credit payment_sources drawn is_blank trimmed_length trim
    is_white_space
apply_credit-conserves_example =
    apply_credit-conserves 33 upgrade billing {d' = credited upgrade 33 billing}
      {e = record {
        tenant_id = 7;
        type = "billing.credit.applied";
        actor = officer;
        client_id = some 3;
        correlation_id = none;
        payload = Payload.amount_written 21 6000;
      }}
      refl

payment_sources-absorbed_example :
    payment_sources (λ id. 5000) 4000 (billed 30 20 payment 5000 "First payment" none 1 ∷ [])
    ≡ payment_sources (λ id. 5000) 0 (billed 30 20 payment 5000 "First payment" none 1 ∷ [])
payment_sources-absorbed_example =
    payment_sources-absorbed (λ id. 5000) 4000 (billed 30 20 payment 5000 "First payment" none 1) []
      refl (omega arith)

-- 1,000.00 prepaid for 365 days and cancelled after 100: 726.02 is refunded, not 726.03
prorated_tight_example :
    (72602 * 365 ≤ 100000 * (365 - 100))
    × (100000 * (365 - 100) < (72602 + 1) * 365)
    × (72602 ≤ 100000)
unfolding prorated proportion_of
prorated_tight_example =
    prorated_tight (engaged 20) 100000 365 100
      {x = entitlement (engaged 20) unearned_prepay_on_cancellation 72602} refl

abbrev asked : RefundInput
asked = record {
  tenant_id = 7;
  engagement_id = 20;
  refund_trigger = approved_not_funded_60_days;
  amount_cents = 425000;
  decided_at = 61 * day;
  actor = officer;
}

pay_refund-settled_example :
    (is_ok (pay_refund 70 asked (after_payment 71 asked billing)) ≡ true)
    × (is_ok (pay_refund 70 asked (after_decline 71 asked billing)) ≡ true)
unfolding pay_refund refunds_due approved_not_funded quality_failure unearned_prepay is_ok
    stale_fees
pay_refund-settled_example = pay_refund-settled 70 71 asked billing refl

abbrev officers : List Actor
officers = record { id = 9; tenant_id = 7; kind = ActorKind.human; authority_level = 3 } ∷ []

decline_refund-human_example :
    (is_blank "Fee waived in writing." ≡ false)
    × ((a : Actor) × (find_actor officers 9 ≡ found a)
        × (a.kind ≡ ActorKind.human)
        × (3 ≤ a.authority_level))
    × (is_ok (pay_refund 70 asked billing) ≡ true)
unfolding decline_refund is_blank trimmed_length trim is_white_space find_actor is_authority_level
    refunds_due approved_not_funded quality_failure unearned_prepay is_ok stale_fees
decline_refund-human_example =
    decline_refund-human officers 70 "Fee waived in writing." asked billing refl
