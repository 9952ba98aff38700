-- ===== src/Billing/Tables.antt =====
-- The tables of packages/billing, prisma/schema.prisma's models without their text columns. Amounts
-- are the non-negative numbers that `recordBilling` accepts, of 32-bit columns, so the sums stay
-- within the safe integers. Times are epoch milliseconds.
use burkham_wickmont_operati.Prelude.{
  ◌==◌, ◌*◌, ◌&&◌, Bool, ◌||◌, String, List, ℕ, true, Option, false, ◌/◌, find, ltb, ◌-◌,
}

pub data RecordKind : Type 0 where
  charge payment refund credit_applied : RecordKind

pub record BillingRecord : Type 0 where
  pub id : ℕ
  pub tenant_id : ℕ
  pub engagement_id : ℕ
  pub kind : RecordKind
  pub amount_cents : ℕ
  pub description : String
  pub approved_credit_limit_cents : Option ℕ
  pub occurred_on : ℕ

pub data EngagementStatus : Type 0 where
  active completed cancelled : EngagementStatus

pub record Engagement : Type 0 where
  pub id : ℕ
  pub tenant_id : ℕ
  pub client_id : ℕ
  pub status : EngagementStatus
  pub started_on : ℕ
  pub committed_through : Option ℕ
  pub annual_prepay : Bool
  pub cancelled_on : Option ℕ

pub record CreditApplication : Type 0 where
  pub tenant_id : ℕ
  pub source_record_id : ℕ
  pub to_engagement_id : ℕ
  pub amount_cents : ℕ

pub record FundingOutcome : Type 0 where
  pub id : ℕ
  pub tenant_id : ℕ
  pub engagement_id : ℕ
  pub client_id : ℕ
  pub approved_credit_limit_cents : ℕ
  pub approved_on : ℕ
  pub funded_on : Option ℕ
  pub funded_cents : Option ℕ

pub data RefundTrigger : Type 0 where
  approved_not_funded_60_days engagement_quality_failure : RefundTrigger
  unearned_prepay_on_cancellation : RefundTrigger

pub data Disposition : Type 0 where
  paid declined : Disposition

pub record RefundRecord : Type 0 where
  pub id : ℕ
  pub tenant_id : ℕ
  pub engagement_id : ℕ
  pub refund_trigger : RefundTrigger
  pub amount_cents : ℕ
  pub disposition : Disposition

pub record BillingDb : Type 0 where
  pub engagements : List Engagement
  pub records : List BillingRecord
  pub credits : List CreditApplication
  pub outcomes : List FundingOutcome
  pub refunds : List RefundRecord

abbrev pub is_charge : RecordKind → Bool
is_charge charge = true
is_charge _ = false

abbrev pub is_payment : RecordKind → Bool
is_payment payment = true
is_payment _ = false

abbrev pub is_refund : RecordKind → Bool
is_refund refund = true
is_refund _ = false

-- `orderBy: [{ occurredOn: 'asc' }, { id: 'asc' }]`
abbrev pub earlier : BillingRecord → BillingRecord → Bool
earlier a b = ltb a.occurred_on b.occurred_on || (a.occurred_on == b.occurred_on && ltb a.id b.id)

-- one engagement's rows of a kind
abbrev pub rows_of : (RecordKind → Bool) → ℕ → ℕ → BillingRecord → Bool
rows_of is_kind tenant engagement r =
    is_kind r.kind && (r.tenant_id == tenant && r.engagement_id == engagement)

abbrev pub find_engagement : BillingDb → ℕ → ℕ → Option Engagement
find_engagement d tenant id = find (λ e. e.tenant_id == tenant && e.id == id) d.engagements

abbrev pub day_in_ms : ℕ
day_in_ms = 24 * 60 * 60 * 1000

-- `Math.floor((to - from) / DAY_MS)`. Every reader treats a negative number of days as none.
abbrev pub days_between : ℕ → ℕ → ℕ
days_between start end_ = (end_ - start) / day_in_ms
