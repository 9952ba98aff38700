-- ===== src/Risk/Listings/Approval.antt =====
-- Who may list, review, remove and override, and that an override is spent once
-- (packages/risk/src/listings.ts).
use burkham_wickmont_operati.Core.Outcome.{
  ok, refused, is_ok, override_spent, refuse_if-ok, ok-injective, bind-ok, no_override, Outcome,
}
use burkham_wickmont_operati.Core.Events.{human, Event}
use burkham_wickmont_operati.Identity.{found, Actor, find_actor}
use burkham_wickmont_operati.Prelude.{
  ℕ, some, [], trimmed_length, List, String, ◌≡◌, arith, ◌&&◌, ◌≤◌, true, ◌==◌, ◌∷◌, find,
  update_where, is_some, ap, inl, Bool-cases, if◌then◌else◌, ==_iff, inr, refl,
}
use burkham_wickmont_operati.Risk.Listings.{
  require_approver, RiskDb, record_review, list_client, remove_listing, ListInput, Override,
  grant_override, consume_override, spent, or_no_data, Written,
}

-- the approver is a recorded human of level 3 or above
abbrev pub Approver : List Actor → ℕ → Type 0
Approver actors id =
    (a : Actor) × (find_actor actors id ≡ found a) × (a.kind ≡ human) × (3 ≤ a.authority_level)

require_approver-Approver :
    (actors : List Actor) (id n : ℕ) → require_approver actors id ≡ ok n → Approver actors id
unfolding require_approver
require_approver-Approver actors id n h = ground arith

-- the decisions that are a human's: of `listClient`, `recordReview`, `removeListing`, `grantOverride`
pub data RiskDecision : Type 0 where
  lists : ℕ → ListInput → RiskDecision
  reviews : ℕ → ℕ → ℕ → ℕ → RiskDecision
  removes : ℕ → ℕ → ℕ → String → ℕ → RiskDecision
  grants : ℕ → ℕ → ℕ → String → String → ℕ → ℕ → RiskDecision

abbrev pub decided : List Actor → RiskDecision → RiskDb → Outcome Written
decided actors (lists fresh i) d = list_client actors fresh i d
decided actors (reviews tenant client_id by_ now) d =
    record_review actors tenant client_id by_ now d
decided actors (removes tenant client_id by_ why now) d =
    remove_listing actors tenant client_id by_ why now d
decided actors (grants fresh tenant client_id action why by_ now) d =
    grant_override actors fresh tenant client_id action why by_ now d

abbrev pub decided_by : RiskDecision → ℕ
decided_by (lists fresh i) = i.listed_by
decided_by (reviews tenant client_id by_ now) = by_
decided_by (removes tenant client_id by_ why now) = by_
decided_by (grants fresh tenant client_id action why by_ now) = by_

-- ten characters or more, where the decision takes a justification
abbrev pub Justified : RiskDecision → Type 0
Justified (lists fresh i) = 10 ≤ trimmed_length i.justification
Justified (reviews tenant client_id by_ now) = Unit
Justified (removes tenant client_id by_ why now) = 10 ≤ trimmed_length why
Justified (grants fresh tenant client_id action why by_ now) = 10 ≤ trimmed_length why

-- Listing, reviewing, removing and granting an override each succeed only for a recorded human of
-- level 3 or above, and all but a review only with a justification of ten characters or more.
pub approval_required :
    (actors : List Actor) (choice : RiskDecision) (d : RiskDb)
    → is_ok (decided actors choice d) ≡ true
    → Approver actors (decided_by choice) × Justified choice
unfolding require_approver is_ok list_client record_review remove_listing grant_override
approval_required actors (lists fresh i) d h = ground arith
approval_required actors (reviews tenant client_id by_ now) d h = ground arith
approval_required actors (removes tenant client_id by_ why now) d h = ground arith
approval_required actors (grants fresh tenant client_id action why by_ now) d h = ground arith

-- Spending the overrides of an identifier, and then looking a row up by its tenant and identifier.
find-spent :
    (tenant id now k : ℕ) (os : List Override) {o : Override}
    → find (λ o. o.tenant_id == tenant && o.id == id) os ≡ some o
    → find (λ o. o.tenant_id == tenant && o.id == id) (update_where (λ x. x.id == k) (spent now) os)
      ≡ some (if o.id == k then spent now o else o)
find-spent tenant id now k [] h = cc
find-spent tenant id now k (x ∷ os) {o} h = elim (Bool-cases (x.id == k)) [
  | inl e ↦ rw e (ground (arith, find-spent tenant id now k os {o = o}))
  | inr e ↦ rw e (ground (arith, find-spent tenant id now k os {o = o}))
]

consumed_again :
    (tenant client_id id by_ now later : ℕ) (d : RiskDb) (o : Override)
    → find (λ o. o.tenant_id == tenant && o.id == id) d.overrides ≡ some o
    → consume_override tenant client_id id by_ later
        (record d { overrides = update_where (λ x. x.id == o.id) (spent now) d.overrides })
      ≡ refused override_spent
unfolding consume_override
consumed_again tenant client_id id by_ now later d o h =
    let same : (o.id == o.id) ≡ true = (==_iff o.id o.id).1 refl in
    rw (find-spent tenant id now o.id d.overrides h, same) refl

find_of_present :
    (tenant id : ℕ) (os : List Override) {o : Override}
    → or_no_data (find (λ o. o.tenant_id == tenant && o.id == id) os) no_override ≡ ok o
    → find (λ o. o.tenant_id == tenant && o.id == id) os ≡ some o
find_of_present tenant id os h = ground arith

-- A consumption leaves tables on which the next one of the same override, by any actor, for any client
-- and at any time, is refused. It is about calls one after the other, each on the tables that the
-- one before left; two calls that both read before either writes are not covered.
pub consume_override-once :
    (tenant client_id id by_ now other_client other_by later : ℕ) (d : RiskDb) {d' : RiskDb}
    {e : Event}
    → consume_override tenant client_id id by_ now d ≡ ok (d', e)
    → consume_override tenant other_client id other_by later d' ≡ refused override_spent
unfolding consume_override
consume_override-once tenant client_id id by_ now other_client other_by later d h =
    let (o, seen, h1) =
      bind-ok (or_no_data (find (λ o. o.tenant_id == tenant && o.id == id) d.overrides) no_override)
        _ h in
    let (unspent, h2) = refuse_if-ok (is_some o.consumed_at) override_spent _ h1 in
    let tables = ap (λ r. r.0) (ok-injective h2) in
    rw (← tables) (
      consumed_again tenant other_client id other_by now later d o
        (find_of_present tenant id d.overrides seen))
