-- ===== src/Billing/Credit/Draws.antt =====
-- Credit is conserved, and where the refund offset is lost (packages/billing/src/credit.ts).
use burkham_wickmont_operati.Billing.Credit.{
  draws, CreditSource, payment_sources, total_available, usable_sources, ApplyCreditInput,
  apply_credit, available_credit, or_missing, payments_on, is_target, refunded_on,
  engagement_sources, drawn,
}
use burkham_wickmont_operati.Prelude.{
  [], min, ◌≤◌, ◌≡◌, sum_of, ◌∷◌, List, All, arith, ℕ, ◌+◌, ◌-◌, ◌++◌, filter, not, ltb, ap, find,
  ◌&&◌, is_blank, refl, ◌==◌, filter-All, append-All, inl, any-order_by, true, leb, any-filter, inr,
  any, Bool-cases, Bool, All-weaken, ==_iff,
}
use burkham_wickmont_operati.Billing.Tables.{
  BillingRecord, CreditApplication, BillingDb, Engagement, earlier, is_payment, rows_of,
}
use burkham_wickmont_operati.Core.Outcome.{
  ok, no_rationale, ok-injective, refuse_if-ok, bind-ok, no_engagement, exceeds_credit, not_cents,
}
use burkham_wickmont_operati.Core.Events.{Event}

-- each application draws at most what its source has, in the order of the sources
abbrev pub Within : List CreditApplication → List CreditSource → Type 0
Within [] ss = Unit
Within (a ∷ as_) [] = ⊥
Within (a ∷ as_) (s ∷ ss) =
    (a.source_record_id ≡ s.record_id) × (a.amount_cents ≤ s.available_cents) × Within as_ ss

draws-Within : (t g n : ℕ) (ss : List CreditSource) → Within (draws t g n ss) ss
unfolding draws
draws-Within t g n [] = tt
draws-Within t g n (s ∷ ss) = ground (arith, draws-Within t g (n - min n s.available_cents) ss)

sum-draws :
    (t g n : ℕ) (ss : List CreditSource)
    → n ≤ total_available ss
    → sum_of (λ c. c.amount_cents) (draws t g n ss) ≡ n
unfolding draws
sum-draws t g n [] h = omega arith
sum-draws t g n (s ∷ ss) h = ground (arith, sum-draws t g (n - min n s.available_cents) ss)

-- the payment that a source stands for, which pays both what the source offers and what `already` says
-- was drawn on it
abbrev pays : (ℕ → ℕ) → CreditSource → BillingRecord → Bool
pays already s p =
    p.id == s.record_id
    && (p.engagement_id == s.engagement_id
        && leb (s.available_cents + already s.record_id) p.amount_cents)

pays_first :
    (already : ℕ → ℕ) (p : BillingRecord) (available : ℕ)
    → available + already p.id ≤ p.amount_cents
    → pays already
        (record {
          record_id = p.id;
          engagement_id = p.engagement_id;
          paid_cents = p.amount_cents;
          already_drawn_cents = already p.id;
          available_cents = available;
        })
        p
      ≡ true
pays_first already p available h =
    rw ((==_iff p.id p.id).1 refl, (==_iff p.engagement_id p.engagement_id).1 refl) (ground arith)

payment_sources-paid :
    (already : ℕ → ℕ) (r : ℕ) (ps : List BillingRecord)
    → All (λ s. any (pays already s) ps ≡ true) (payment_sources already r ps)
unfolding payment_sources
payment_sources-paid already r [] = tt
payment_sources-paid already r (p ∷ ps) =
    let offset = min r p.amount_cents in
    let available = p.amount_cents - offset - already p.id in
    let rest = payment_sources already (r - offset) ps in
    let later : All (λ s. any (pays already s) (p ∷ ps) ≡ true) rest =
      All-weaken (λ s. any (pays already s) ps ≡ true) (λ s. any (pays already s) (p ∷ ps) ≡ true)
        rest (λ s h. ground arith) (payment_sources-paid already (r - offset) ps) in
    elim (Bool-cases (available == 0)) [
      | inl e ↦ rw e later
      | inr e ↦ rw e (ground (arith, pays_first already p available (ground arith)), later)
    ]

-- A row of the billing table that is a payment to the tenant on the source's engagement, under the
-- source's identifier, and that pays what the source offers together with all that the
-- applications in the tables have drawn on it.
abbrev pub Backed : BillingDb → ℕ → CreditSource → Type 0
Backed d tenant s =
    any
      (λ p.
        is_payment p.kind
        && (p.tenant_id == tenant && p.engagement_id == s.engagement_id)
        && (p.id == s.record_id
            && leb
                (s.available_cents
                  + sum_of (λ c. c.amount_cents)
                      (filter (λ c. c.tenant_id == tenant && c.source_record_id == s.record_id)
                        d.credits))
                p.amount_cents))
      d.records
    ≡ true

any_weaken :
    (p q : BillingRecord → Bool) (rows : List BillingRecord)
    → ((r : BillingRecord) → p r ≡ true → q r ≡ true)
    → any p rows ≡ true
    → any q rows ≡ true
any_weaken p q [] w h = h
any_weaken p q (r ∷ rows) w h = elim (Bool-cases (p r)) [
  | inl e ↦ rw (w r e) refl
  | inr e ↦ ground (arith, any_weaken p q rows w (rw (any, e) at h))
]

paid-Backed :
    (d : BillingDb) (tenant engagement : ℕ) (s : CreditSource)
    → any (pays (drawn d tenant) s) (payments_on d tenant engagement) ≡ true
    → Backed d tenant s
unfolding drawn
paid-Backed d tenant engagement s h =
    let of_engagement = rows_of is_payment tenant engagement in
    let found_row =
      any-filter of_engagement (pays (drawn d tenant) s) d.records (
        rw (any-order_by earlier (pays (drawn d tenant) s) (filter of_engagement d.records)) at
          h) in
    any_weaken (λ p. of_engagement p && pays (drawn d tenant) s p) _ d.records (λ p k. ground arith)
      found_row

engagement_sources-Backed :
    (d : BillingDb) (tenant : ℕ) (es : List Engagement)
    → All (Backed d tenant) (engagement_sources d tenant es)
engagement_sources-Backed d tenant [] = tt
engagement_sources-Backed d tenant (e ∷ es) =
    let sources =
      payment_sources (drawn d tenant) (refunded_on d tenant e.id) (payments_on d tenant e.id) in
    append-All (Backed d tenant) sources (engagement_sources d tenant es)
      (All-weaken (λ s. any (pays (drawn d tenant) s) (payments_on d tenant e.id) ≡ true)
        (Backed d tenant) sources (λ s h. paid-Backed d tenant e.id s h)
        (payment_sources-paid (drawn d tenant) (refunded_on d tenant e.id)
          (payments_on d tenant e.id)))
      (engagement_sources-Backed d tenant es)

usable_sources-Backed :
    (d : BillingDb) (i : ApplyCreditInput) → All (Backed d i.tenant_id) (usable_sources d i)
unfolding available_credit
usable_sources-Backed d i =
    filter-All (Backed d i.tenant_id) (λ s. not (s.engagement_id == i.to_engagement_id))
      (available_credit d i.tenant_id i.client_id)
      (engagement_sources-Backed d i.tenant_id
        (filter (λ e. e.tenant_id == i.tenant_id && e.client_id == i.client_id) d.engagements))

-- What an application that succeeds does: the new applications sum to exactly the amount asked,
-- each draws on one source in turn and within what is available of it, and each source stands for a
-- payment in the tables whose amount covers what is available of it together with all that was
-- drawn on it before.
pub apply_credit-conserves :
    (fresh : ℕ) (i : ApplyCreditInput) (d : BillingDb) {d' : BillingDb} {e : Event}
    → apply_credit fresh i d ≡ ok (d', e)
    → (new : List CreditApplication) × (d'.credits ≡ new ++ d.credits)
      × (sum_of (λ c. c.amount_cents) new ≡ i.amount_cents)
      × Within new (usable_sources d i)
      × All (Backed d i.tenant_id) (usable_sources d i)
unfolding apply_credit
apply_credit-conserves fresh i d h =
    let (cents_given, h1) = refuse_if-ok (i.amount_cents == 0) not_cents _ h in
    let (reason_given, h2) = refuse_if-ok (is_blank i.rationale) no_rationale _ h1 in
    let (target, seen, h3) =
      bind-ok (or_missing (find (is_target i) d.engagements) no_engagement) _ h2 in
    let (enough, h4) =
      refuse_if-ok (ltb (total_available (usable_sources d i)) i.amount_cents) exceeds_credit _
        h3 in
    let tables = ap (λ r. r.0) (ok-injective h4) in
    let drawn_now = draws i.tenant_id i.to_engagement_id i.amount_cents (usable_sources d i) in
    (
      drawn_now,
      rw (← tables) refl,
      sum-draws i.tenant_id i.to_engagement_id i.amount_cents (usable_sources d i)
          (ground (arith, enough)),
      draws-Within i.tenant_id i.to_engagement_id i.amount_cents (usable_sources d i),
      usable_sources-Backed d i,
    )

-- A refund that is not more than the oldest payment reduces nothing where that payment is already
-- drawn in full: the sources of credit are those without the refund.
pub payment_sources-absorbed :
    (already : ℕ → ℕ) (r : ℕ) (p : BillingRecord) (ps : List BillingRecord)
    → already p.id ≡ p.amount_cents
    → r ≤ p.amount_cents
    → payment_sources already r (p ∷ ps) ≡ payment_sources already 0 (p ∷ ps)
unfolding payment_sources
payment_sources-absorbed already r p ps h k = ground arith
