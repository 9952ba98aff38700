-- ===== src/Billing/Refunds/Triggers.antt =====
-- What triggers a refund, and its amount.
use native.Mathlib.Nat.{div-mul-le_self, lt-div-mul-add, le_of_mul-le-mul_right, mul-le-mul_left}
use burkham_wickmont_operati.Prelude.{
  min, ℕ, ◌∷◌, ◌↔◌, ◌+◌, none, ◌≤◌, true, ◌*◌, arith, ◌<◌, ◌≡◌, ◌-◌, [], ◌≢◌, ◌/◌,
}
use burkham_wickmont_operati.Billing.Refunds.{prorated, Entitlement, is_stale, owed}
use burkham_wickmont_operati.Core.Outcome.{ok}
use burkham_wickmont_operati.Billing.Tables.{Engagement, FundingOutcome, day_in_ms}
use burkham_wickmont_operati.Billing.Money.{
  proportion_of, Cents, cents, toward_client, inexact, thrown,
}

-- The sixty-day trigger fires on the first millisecond of day 61 and not before, and never on an
-- approval that funded.
pub is_stale_exact :
    (o : FundingOutcome) (today : ℕ)
    → (is_stale today o ≡ true) ↔ ((o.funded_on ≡ none) × (o.approved_on + 61 * day_in_ms ≤ today))
is_stale_exact o today = ground arith

owed-amount :
    (e : Engagement) (c : Cents) {x : Entitlement}
    → owed e c ≡ ok (x ∷ [])
    → c ≡ cents x.amount_cents
owed-amount e (cents n) h = ground arith
owed-amount e thrown h = ground arith
owed-amount e inexact h = ground arith

prorated-amount :
    (e : Engagement) (amount term used : ℕ) {x : Entitlement}
    → prorated e amount term used ≡ ok (x ∷ [])
    → (term ≢ 0) × (proportion_of amount (term - used) term toward_client ≡ cents x.amount_cents)
unfolding prorated
prorated-amount e amount term used h =
    ground (arith, owed-amount e (proportion_of amount (term - used) term toward_client))

proportion_of-quotient :
    (amount part whole x : ℕ)
    → part ≤ whole
    → proportion_of amount part whole toward_client ≡ cents x
    → x ≡ amount * part / whole
unfolding proportion_of
proportion_of-quotient amount part whole x h e =
    let m : min part whole ≡ part = omega arith in ground (arith, rw m at e)

-- A proportion rounded toward the client is the greatest whole number of cents that does not exceed
-- the exact figure.
proportion_of_floor :
    (amount part whole x : ℕ)
    → part ≤ whole
    → whole ≢ 0
    → proportion_of amount part whole toward_client ≡ cents x
    → (x * whole ≤ amount * part) × (amount * part < (x + 1) * whole) × (x ≤ amount)
unfolding proportion_of
proportion_of_floor amount part whole x h nz e =
    let d : x ≡ amount * part / whole = proportion_of-quotient amount part whole x h e in
    rw d (
      div-mul-le_self (amount * part) whole,
      omega (arith, lt-div-mul-add {a = amount * part} {b = whole} (omega arith)),
      le_of_mul-le-mul_right {k = whole}
          (omega (arith, div-mul-le_self (amount * part) whole, mul-le-mul_left amount h))
          (omega arith),
    )

-- The refund of an unearned prepay is the greatest whole number of cents that does not exceed the
-- paid amount's share of the unused days, and so never more than was paid: the remainder of the
-- division, where there is one, is kept from the client.
pub prorated_tight :
    (e : Engagement) (amount term used : ℕ) {x : Entitlement}
    → prorated e amount term used ≡ ok (x ∷ [])
    → (x.amount_cents * term ≤ amount * (term - used))
      × (amount * (term - used) < (x.amount_cents + 1) * term)
      × (x.amount_cents ≤ amount)
prorated_tight e amount term used {x} h =
    let (nz, p) = prorated-amount e amount term used h in
    proportion_of_floor amount (term - used) term x.amount_cents (omega arith) nz p
