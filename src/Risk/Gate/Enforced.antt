-- ===== src/Risk/Gate/Enforced.antt =====
-- When the Do Not Fund check of packages/risk/src/gate.ts lets an action through.
use burkham_wickmont_operati.Core.Outcome.{
  ok, refused, do_not_fund, is_ok, refuse_if-ok, already_listed, ok-injective, no_justification,
  bind-ok,
}
use burkham_wickmont_operati.Prelude.{
  ℕ, some, [], first_by, false, refl, List, String, ◌≡◌, arith, none, true, ◌↔◌, ◌⊎◌, ◌∷◌, filter,
  is_some, trimmed_length, ltb, ap, Bool, ◌&&◌, includes, any, ◌==◌, str_eq, inr, Option-cases, sym,
  not, inl,
}
use burkham_wickmont_operati.Risk.Gate.{check_do_not_fund, is_permitted_while_listed}
use burkham_wickmont_operati.Identity.{Actor}
use burkham_wickmont_operati.Core.Events.{Event}
use burkham_wickmont_operati.Risk.Listings.{
  is_listed, listed, RiskDb, newer, list_client, Listing, ListInput, Override, active_listing,
  find_unconsumed_override, require_approver, add_listing, cadence_or_default, is_active_for,
  new_listing, is_unspent_for, older,
}

first_by-is_some :
    {A : Type 0} (before : A → A → Bool) (p : A → Bool) (xs : List A)
    → is_some (first_by before (filter p xs)) ≡ any p xs
first_by-is_some before p [] = refl
first_by-is_some before p (x ∷ xs) = ground (arith, first_by-is_some before p xs)

-- a row of the client that is still listed
abbrev pub lists_client : ℕ → ℕ → Listing → Bool
lists_client tenant client_id row =
    row.tenant_id == tenant && row.client_id == client_id && is_listed row.status

-- an override of the listing for the action that nobody has consumed
abbrev pub still_lets : ℕ → ℕ → String → Override → Bool
still_lets tenant listing_id action o =
    o.tenant_id == tenant
    && o.listing_id == listing_id
    && str_eq o.action action
    && not (is_some o.consumed_at)

lists_client-active_listing :
    (d : RiskDb) (tenant client_id : ℕ)
    → any (lists_client tenant client_id) d.listings ≡ is_some (active_listing d tenant client_id)
unfolding active_listing
lists_client-active_listing d tenant client_id =
    sym (first_by-is_some newer (is_active_for tenant client_id) d.listings)

still_lets-find_unconsumed_override :
    (d : RiskDb) (tenant id : ℕ) (action : String)
    → any (still_lets tenant id action) d.overrides
      ≡ is_some (find_unconsumed_override d tenant id action)
unfolding find_unconsumed_override
still_lets-find_unconsumed_override d tenant id action =
    sym (first_by-is_some older (is_unspent_for tenant id action) d.overrides)

-- An action is let through exactly when no row lists the client, or the action is one of the six that
-- are permitted while listed, or the table of overrides holds one of the client's newest listing for
-- that very action which is not consumed.
pub check_do_not_fund_exact :
    (d : RiskDb) (tenant client_id : ℕ) (action : String)
    → (is_ok (check_do_not_fund d tenant client_id action) ≡ true) ↔ (
        (any (lists_client tenant client_id) d.listings ≡ false)
        ⊎ ((includes
                ("read_document" ∷ "analyze_file" ∷ "generate_internal_report"
                  ∷ "draft_communication" ∷ "send_client_communication" ∷ "send_document_request"
                  ∷ [])
                action
              ≡ true)
            ⊎ ((row : Listing) × (active_listing d tenant client_id ≡ some row)
                × (any (still_lets tenant row.id action) d.overrides ≡ true))))
unfolding check_do_not_fund is_ok is_permitted_while_listed
check_do_not_fund_exact d tenant client_id action =
    elim (Option-cases (active_listing d tenant client_id)) [
      | inl e ↦
          let unlisted = lists_client-active_listing d tenant client_id in
          ground (arith, e, unlisted)
      | inr (row, e) ↦
          let on_file = lists_client-active_listing d tenant client_id in
          let by_override = still_lets-find_unconsumed_override d tenant row.id action in
          ground (arith, e, on_file, by_override)
    ]

first_by-none : (xs : List Listing) → first_by newer xs ≡ none → xs ≡ []
first_by-none [] h = refl
first_by-none (x ∷ xs) h = ground arith

-- A row added for a client without an active listing is that client's active listing.
pub active_listing-add :
    (d : RiskDb) (row : Listing) (tenant client_id : ℕ)
    → is_some (active_listing d tenant client_id) ≡ false
    → row.tenant_id ≡ tenant
    → row.client_id ≡ client_id
    → row.status ≡ listed
    → active_listing (add_listing row d) tenant client_id ≡ some row
unfolding active_listing
active_listing-add d row tenant client_id h t c s =
    ground (arith, first_by-none (filter (is_active_for tenant client_id) d.listings))

-- After a listing that succeeds, each action on the client that is not permitted while listed is
-- refused, unless an unspent override of that very listing exists for it.
pub list_client-blocks :
    (actors : List Actor) (fresh : ℕ) (i : ListInput) (d : RiskDb) (action : String) {d' : RiskDb}
    {e : Event}
    → list_client actors fresh i d ≡ ok (d', e)
    → is_permitted_while_listed action ≡ false
    → find_unconsumed_override d' i.tenant_id fresh action ≡ none
    → check_do_not_fund d' i.tenant_id i.client_id action ≡ refused do_not_fund
unfolding check_do_not_fund list_client active_listing
list_client-blocks actors fresh i d action h not_permitted no_override_left =
    let (justified, h1) =
      refuse_if-ok (ltb (trimmed_length i.justification) 10) no_justification _ h in
    let (unlisted, h2) =
      refuse_if-ok (is_some (active_listing d i.tenant_id i.client_id)) already_listed _ h1 in
    let (n, by_human_3, h3) = bind-ok (require_approver actors i.listed_by) _ h2 in
    let tables = ap (λ r. r.0) (ok-injective h3) in
    let row =
      new_listing fresh i.tenant_id i.client_id i.trigger false i.now (some i.listed_by)
        (cadence_or_default i.review_cadence_days) in
    let now_listed = active_listing-add d row i.tenant_id i.client_id unlisted refl refl refl in
    rw (← tables) (ground (arith, now_listed, rw (← tables) at no_override_left))
