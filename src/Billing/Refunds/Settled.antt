-- ===== src/Billing/Refunds/Settled.antt =====
-- What the decisions on a refund leave as they were, and who takes them.
use burkham_wickmont_operati.Core.Outcome.{
  ◌>>=◌, ok, is_ok, Outcome, no_entitlement, ok-injective, bind-ok,
}
use burkham_wickmont_operati.Identity.{found, find_actor, Actor}
use burkham_wickmont_operati.Prelude.{
  ◌≤◌, ℕ, update_where, String, ◌∷◌, is_blank, is_some, List, ◌≡◌, [], true, ◌==◌, false, All, refl,
  map, find, arith, ◌++◌, ap, ◌&&◌,
}
use burkham_wickmont_operati.Billing.Refunds.{
  Entitlement, refunds_due, settle, is_stale, refunds_on, unearned_prepay, approved_not_funded,
  quality_failure,
}
use burkham_wickmont_operati.Billing.Refunds.Decisions.{
  pay_refund, is_asked, after_payment, RefundInput, after_decline, mark_funded, decline_refund,
  funded, or_refused, billing_event, or_no_outcome,
}
use burkham_wickmont_operati.Core.Events.{EventActor, Event, Payload, human}
use burkham_wickmont_operati.Billing.Tables.{RefundRecord, FundingOutcome, BillingDb}
use burkham_wickmont_operati.Risk.Listings.Approval.{decided}

-- Whether the tables still show an entitlement does not depend on the decisions taken on it.
find-settle :
    (i : RefundInput) (decided : List RefundRecord) (es : List Entitlement)
    → is_some (find (is_asked i) (map (settle decided) es)) ≡ is_some (find (is_asked i) es)
find-settle i decided [] = refl
find-settle i decided (e ∷ es) = ground (arith, find-settle i decided es)

abbrev with_prepay :
    List Entitlement
    → List Entitlement
    → List RefundRecord
    → Outcome (List Entitlement)
    → Outcome (List Entitlement)
with_prepay xs ys decided prepay_result = do
  prepay ← prepay_result
  ok (map (settle decided) (xs ++ ys ++ prepay))

-- `payRefund` from what the triggers give and what has been decided
abbrev pay_with :
    ℕ
    → RefundInput
    → BillingDb
    → List Entitlement
    → List Entitlement
    → List RefundRecord
    → Outcome (List Entitlement)
    → Outcome (BillingDb × Event)
pay_with f i d xs ys decided prepay_result = do
  due ← with_prepay xs ys decided prepay_result
  e ← or_refused (find (is_asked i) due) no_entitlement
  ok (
    after_payment f i d,
    billing_event "billing.refund.paid" i.tenant_id e.client_id i.actor
        (Payload.amount_written i.engagement_id i.amount_cents),
  )

pay_with-settled :
    (f g : ℕ) (i : RefundInput) (c d : BillingDb) (xs ys : List Entitlement)
    (a b : List RefundRecord) (o : Outcome (List Entitlement))
    → is_ok (pay_with f i c xs ys a o) ≡ true
    → is_ok (pay_with g i d xs ys b o) ≡ true
unfolding is_ok
pay_with-settled f g i c d xs ys a b (ok prepay) h =
    ground (arith, find-settle i a (xs ++ ys ++ prepay), find-settle i b (xs ++ ys ++ prepay))
pay_with-settled f g i c d xs ys a b (Outcome.not_ok n) h = cc

-- Whether a refund can be paid does not depend on an earlier payment of it, nor on its having been
-- declined: what could be paid once can be paid again.
pub pay_refund-settled :
    (f g : ℕ) (i : RefundInput) (d : BillingDb)
    → is_ok (pay_refund f i d) ≡ true
    → (is_ok (pay_refund f i (after_payment g i d)) ≡ true)
      × (is_ok (pay_refund f i (after_decline g i d)) ≡ true)
unfolding pay_refund refunds_due approved_not_funded quality_failure unearned_prepay
pay_refund-settled f g i d h =
    let repeat : (c : BillingDb) (decided : List RefundRecord) → _ = λ c decided.
      pay_with-settled f f i d c (approved_not_funded d i.tenant_id i.engagement_id i.decided_at)
        (quality_failure d i.tenant_id i.engagement_id i.decided_at)
        (refunds_on d i.tenant_id i.engagement_id) decided
        (unearned_prepay d i.tenant_id i.engagement_id) h in
    (
      repeat (after_payment g i d) (refunds_on (after_payment g i d) i.tenant_id i.engagement_id),
      repeat (after_decline g i d) (refunds_on (after_decline g i d) i.tenant_id i.engagement_id),
    )

-- A refund is declined only for a reason that is not blank, by a human whose recorded level is 3 or
-- above, and only where the tables show the entitlement.
pub decline_refund-human :
    (actors : List Actor) (fresh : ℕ) (reason : String) (i : RefundInput) (d : BillingDb)
    → is_ok (decline_refund actors fresh reason i d) ≡ true
    → (is_blank reason ≡ false)
      × ((a : Actor) × (find_actor actors i.actor.id ≡ found a)
          × (a.kind ≡ human)
          × (3 ≤ a.authority_level))
      × (is_ok (pay_refund fresh i d) ≡ true)
unfolding decline_refund is_ok pay_refund
decline_refund-human actors fresh reason i d h = ground arith

retired :
    (id t amount today : ℕ) (os : List FundingOutcome)
    → All
        (λ o. (o.id == id && is_stale today o) ≡ false)
        (update_where (λ o. o.id == id) (funded t amount) os)
retired id t amount today [] = tt
retired id t amount today (o ∷ os) = ground (arith, retired id t amount today os)

-- After an approval is marked as funded, no outcome of its identifier is in the sixty-day trigger,
-- whatever the day.
pub mark_funded-retired :
    (tenant id t amount today : ℕ) (actor : EventActor) (d : BillingDb) {d' : BillingDb} {e : Event}
    → mark_funded tenant id t amount actor d ≡ ok (d', e)
    → All (λ o. (o.id == id && is_stale today o) ≡ false) d'.outcomes
unfolding mark_funded
mark_funded-retired tenant id t amount today actor d h =
    let (o, seen, w) =
      bind-ok (or_no_outcome (find (λ o. o.tenant_id == tenant && o.id == id) d.outcomes)) _ h in
    rw (← ap (λ r. r.0) (ok-injective w)) (retired id t amount today d.outcomes)
