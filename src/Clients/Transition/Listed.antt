-- ===== src/Clients/Transition/Listed.antt =====
-- A client whose state is moved to Fail is blocked at once (packages/clients/src/index.ts).
use burkham_wickmont_operati.Core.Compliance.{
  pending_assessment, pass, pass_with_findings, needs_review, fail, state_name, ComplianceState,
  same_state,
}
use burkham_wickmont_operati.Prelude.{
  ℕ, Option, true, String, some, false, is_some, none, ◌≡◌, Bool-cases, ◌∷◌, Option-cases, inl,
  find, List, [], ◌&&◌, inr, ◌==◌, ap, arith, refl, ◌⊎◌, sym,
}
use burkham_wickmont_operati.Clients.Transition.{
  transition_compliance_state, ClientsDb, TransitionInput, changed_event, in_state, updated,
  after_listing, list_if_failed, transitioned, restated, now_in_state,
}
use burkham_wickmont_operati.Core.Outcome.{ok, refused, do_not_fund, Outcome, ok-injective}
use burkham_wickmont_operati.Risk.Listings.{
  RiskDb, auto_list_for_compliance_fail, find_unconsumed_override, active_listing, new_listing,
  default_review_cadence_days, compliance_fail_trigger,
}
use burkham_wickmont_operati.Clients.{compliance_state_of, find_client, Client, ClientRow}
use burkham_wickmont_operati.Core.Events.{Event, EventActor}
use burkham_wickmont_operati.Risk.Gate.{check_do_not_fund, is_permitted_while_listed}
use burkham_wickmont_operati.Risk.Gate.Enforced.{active_listing-add}

auto_list-active :
    (fresh tenant client_id : ℕ) (actor : EventActor) (now : ℕ) (d : RiskDb) {d' : RiskDb}
    {e : Option Event}
    → auto_list_for_compliance_fail fresh tenant client_id fail actor now d ≡ ok (d', e)
    → is_some (active_listing d' tenant client_id) ≡ true
unfolding auto_list_for_compliance_fail
auto_list-active fresh tenant client_id actor now d h =
    let row =
      new_listing fresh tenant client_id compliance_fail_trigger true now none
        default_review_cadence_days in
    elim (Option-cases (active_listing d tenant client_id)) [
      | inl e ↦
          let tables = ap (λ r. r.0) (ok-injective (rw e at h)) in
          let added = active_listing-add d row tenant client_id (rw e refl) refl refl refl in
          rw (← tables, added) refl
      | inr p ↦ let tables = ap (λ r. r.0) (ok-injective (rw p.1 at h)) in rw (← tables, p.1) refl
    ]

-- the listing of a transition to Fail, by how the write of it ends
after_listing-active :
    (fresh : ℕ) (i : TransitionInput) (c : Client) (d : ClientsDb) (es : List Event)
    (o : Outcome (RiskDb × Option Event)) {c' : Client}
    → auto_list_for_compliance_fail fresh i.tenant_id i.client_id fail i.actor i.now d.risk ≡ o
    → (after_listing i c d es o).result ≡ ok c'
    → is_some (active_listing (after_listing i c d es o).db.risk i.tenant_id i.client_id) ≡ true
after_listing-active fresh i c d es (ok (risk', e)) h r =
    auto_list-active fresh i.tenant_id i.client_id i.actor i.now d.risk h
after_listing-active fresh i c d es (Outcome.not_ok x) h r = cc

transitioned-active :
    (fresh : ℕ) (i : TransitionInput) (d : ClientsDb) (o : Outcome Client) {c : Client}
    → i.to ≡ fail
    → (transitioned fresh i d o).result ≡ ok c
    → is_some (active_listing (transitioned fresh i d o).db.risk i.tenant_id i.client_id) ≡ true
transitioned-active fresh i d (Outcome.not_ok x) f r = cc
transitioned-active fresh i d (ok current) f r =
    let same : same_state i.to fail ≡ true = rw f refl in
    rw same (
      after_listing-active fresh i current (updated i d)
        (changed_event i current.compliance_state ∷ [])
        (auto_list_for_compliance_fail fresh i.tenant_id i.client_id i.to i.actor i.now d.risk)
        (rw f refl) (rw same at r))

refused_while_listed :
    (d : RiskDb) (tenant client_id : ℕ) (action : String)
    → is_some (active_listing d tenant client_id) ≡ true
    → is_permitted_while_listed action ≡ false
    → ((id : ℕ) → find_unconsumed_override d tenant id action ≡ none)
    → check_do_not_fund d tenant client_id action ≡ refused do_not_fund
unfolding check_do_not_fund
refused_while_listed d tenant client_id action l p none_left =
    elim (Option-cases (active_listing d tenant client_id)) [
      | inl e ↦ ground (arith, rw e at l)
      | inr q ↦ ground (arith, q.1, none_left q.0.id)
    ]

-- When a transition to Fail has returned normally, each action on the client that is not permitted
-- while listed, and for which no unspent override exists, is refused.
pub transition-blocks :
    (fresh : ℕ) (i : TransitionInput) (d : ClientsDb) (action : String) {c : Client}
    → (transition_compliance_state fresh i d).result ≡ ok c
    → i.to ≡ fail
    → is_permitted_while_listed action ≡ false
    → ((id : ℕ)
        → find_unconsumed_override
            (transition_compliance_state fresh i d).db.risk
            i.tenant_id
            id
            action
          ≡ none)
    → check_do_not_fund
        (transition_compliance_state fresh i d).db.risk
        i.tenant_id
        i.client_id
        action
      ≡ refused do_not_fund
unfolding transition_compliance_state
transition-blocks fresh i d action h f p none_left =
    refused_while_listed (transition_compliance_state fresh i d).db.risk i.tenant_id i.client_id
      action (transitioned-active fresh i d (find_client d.clients i.tenant_id i.client_id) f h) p
      none_left

state_name-round : (s : ComplianceState) → compliance_state_of (state_name s) ≡ some s
unfolding compliance_state_of
state_name-round pending_assessment = refl
state_name-round pass = refl
state_name-round pass_with_findings = refl
state_name-round needs_review = refl
state_name-round fail = refl

find-restated :
    (tenant id : ℕ) (s : ComplianceState) (rows : List ClientRow) {row : ClientRow}
    → find (λ row. row.id == id && row.tenant_id == tenant) rows ≡ some row
    → find (λ row. row.id == id && row.tenant_id == tenant) (restated id s rows)
      ≡ some (in_state s row)
find-restated tenant id s [] h = cc
find-restated tenant id s (x ∷ rows) {row} h = elim (Bool-cases (x.id == id)) [
  | inl e ↦ rw e (ground (arith, find-restated tenant id s rows {row = row}))
  | inr e ↦ rw e (ground (arith, find-restated tenant id s rows {row = row}))
]

find_client-restated :
    (tenant id : ℕ) (s : ComplianceState) (rows : List ClientRow) (c : Client)
    → find_client rows tenant id ≡ ok c
    → find_client (restated id s rows) tenant id ≡ ok (record c { compliance_state = s })
unfolding find_client
find_client-restated tenant id s rows c h =
    elim (Option-cases (find (λ row. row.id == id && row.tenant_id == tenant) rows)) [
      | inl e ↦ ground (arith, rw (find_client, e) at h)
      | inr p ↦ elim (Option-cases (compliance_state_of p.0.compliance_state)) [
        | inl e ↦ ground (arith, rw (find_client, p.1, e) at h)
        | inr q ↦
            let same = ok-injective (rw (find_client, p.1, q.1) at h) in
            rw (find_client, find-restated tenant id s rows p.1, state_name-round s, ← same) refl
      ]
    ]

after_listing-state :
    (i : TransitionInput) (c : Client) (d : ClientsDb) (es : List Event)
    (o : Outcome (RiskDb × Option Event)) {c' : Client}
    → (after_listing i c d es o).result ≡ ok c'
    → (now_in_state i c ≡ c') × ((after_listing i c d es o).db.clients ≡ d.clients)
after_listing-state i c d es (ok (risk', e)) r = (ok-injective r, refl)
after_listing-state i c d es (Outcome.not_ok x) r = cc

list_if_failed-state :
    (fresh : ℕ) (i : TransitionInput) (c : Client) (d : ClientsDb) (es : List Event) {c' : Client}
    → (list_if_failed fresh i c d es).result ≡ ok c'
    → (now_in_state i c ≡ c') × ((list_if_failed fresh i c d es).db.clients ≡ d.clients)
list_if_failed-state fresh i c d es r = elim (Bool-cases (same_state i.to fail)) [
  | inl e ↦ rw e (
      after_listing-state i c d es
        (auto_list_for_compliance_fail fresh i.tenant_id i.client_id i.to i.actor i.now d.risk)
        (rw e at r))
  | inr e ↦ rw e (ok-injective (rw e at r), refl)
]

find-elsewhere :
    (tenant id other : ℕ) (s : ComplianceState) (rows : List ClientRow)
    → (other == id) ≡ false
    → find (λ row. row.id == other && row.tenant_id == tenant) (restated id s rows)
      ≡ find (λ row. row.id == other && row.tenant_id == tenant) rows
find-elsewhere tenant id other s [] h = refl
find-elsewhere tenant id other s (x ∷ rows) h = elim (Bool-cases (x.id == id)) [
  | inl e ↦ rw e (ground (arith, find-elsewhere tenant id other s rows h))
  | inr e ↦ rw e (ground (arith, find-elsewhere tenant id other s rows h))
]

find_client-elsewhere :
    (tenant id other : ℕ) (s : ComplianceState) (rows : List ClientRow)
    → (other == id) ≡ false
    → find_client (restated id s rows) tenant other ≡ find_client rows tenant other
unfolding find_client
find_client-elsewhere tenant id other s rows h =
    rw (find_client, find-elsewhere tenant id other s rows h) refl

-- what a transition of a client leaves: the client as it was found, in the new state, and each
-- client of another identifier, in any tenant, as it was
abbrev pub Moved : TransitionInput → ClientsDb → Client → ClientsDb → Type 0
Moved i d c d' =
    (c0 : Client) × (find_client d.clients i.tenant_id i.client_id ≡ ok c0)
    × (c ≡ record c0 { compliance_state = i.to })
    × (find_client d'.clients i.tenant_id i.client_id ≡ ok c)
    × ((tenant other : ℕ)
        → ((other == i.client_id) ≡ true)
          ⊎ (find_client d'.clients tenant other ≡ find_client d.clients tenant other))

transitioned-Moved :
    (fresh : ℕ) (i : TransitionInput) (d : ClientsDb) (o : Outcome Client) {c : Client}
    → find_client d.clients i.tenant_id i.client_id ≡ o
    → (transitioned fresh i d o).result ≡ ok c
    → Moved i d c (transitioned fresh i d o).db
transitioned-Moved fresh i d (Outcome.not_ok x) e r = cc
transitioned-Moved fresh i d (ok current) e r =
    let (state, kept) =
      list_if_failed-state fresh i current (updated i d)
        (changed_event i current.compliance_state ∷ []) r in
    (
      current,
      e,
      sym state,
      rw (kept, ← state) (find_client-restated i.tenant_id i.client_id i.to d.clients current e),
      λ tenant other. elim (Bool-cases (other == i.client_id)) [
        | inl same ↦ inl same
        | inr apart ↦
            inr (rw kept (find_client-elsewhere tenant i.client_id other i.to d.clients apart))
      ],
    )

-- After a transition that returned normally, the client that is found is the one found before with
-- the state that was asked for and all else as it was; it is also what the call returned. Each client
-- of another identifier is found as before.
pub transition-find_client :
    (fresh : ℕ) (i : TransitionInput) (d : ClientsDb) {c : Client}
    → (transition_compliance_state fresh i d).result ≡ ok c
    → Moved i d c (transition_compliance_state fresh i d).db
unfolding transition_compliance_state
transition-find_client fresh i d h =
    transitioned-Moved fresh i d (find_client d.clients i.tenant_id i.client_id) refl h
