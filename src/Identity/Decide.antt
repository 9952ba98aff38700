-- ===== src/Identity/Decide.antt =====
-- Who may attempt what: the decision of packages/identity/src/index.ts on every branch.
use burkham_wickmont_operati.Prelude.{
  ℕ, String, true, false, ◌≡◌, ◌≤◌, ◌⊎◌, ◌↔◌, arith, all-includes, includes, all, refl, ◌&&◌, not,
}
use burkham_wickmont_operati.Core.Outcome.{is_ok}
use burkham_wickmont_operati.Core.Authority.{
  inherited, level, minimum_level, is_prohibited_action, prohibited_actions, is_permitted_action,
  is_governance_action, object_prototype, is_inherited, governance_actions,
}
use burkham_wickmont_operati.Identity.{decide_authority}

-- A higher level may attempt all that a lower one may.
pub decide_authority_mono :
    (low high : ℕ) (action : String)
    → low ≤ high
    → is_ok (decide_authority low action) ≡ true
    → is_ok (decide_authority high action) ≡ true
unfolding decide_authority is_ok
decide_authority_mono low high action h p = ground arith

-- An action is granted exactly when it is not prohibited and its level is declared and held, or
-- its name is one that every object inherits.
pub decide_authority_exact :
    (held : ℕ) (action : String)
    → (is_ok (decide_authority held action) ≡ true) ↔ (
        (is_prohibited_action action ≡ false)
        × (((n : ℕ) × (minimum_level action ≡ level n) × (n ≤ held))
            ⊎ (minimum_level action ≡ inherited)))
unfolding decide_authority is_ok
decide_authority_exact held action = ground arith

inherited_names_open :
    all (λ a. not (is_prohibited_action a) && is_inherited (minimum_level a)) object_prototype
    ≡ true
unfolding is_prohibited_action minimum_level
inherited_names_open = refl

-- Any actor, at any level, is granted any action that is spelled like a property of
-- `Object.prototype`, though no table declares it.
pub decide_authority-inherited :
    (held : ℕ) (action : String)
    → includes object_prototype action ≡ true
    → is_ok (decide_authority held action) ≡ true
unfolding decide_authority is_ok
decide_authority-inherited held action h = ground (
  arith,
  all-includes (λ a. not (is_prohibited_action a) && is_inherited (minimum_level a))
      object_prototype action inherited_names_open h,
)

governance_declared : all is_permitted_action governance_actions ≡ true
unfolding is_permitted_action
governance_declared = refl

prohibited_undeclared : all (λ a. not (is_permitted_action a)) prohibited_actions ≡ true
unfolding is_permitted_action
prohibited_undeclared = refl

-- Every governance action has a declared level, and no prohibited action has one.
pub tables_agree :
    (action : String)
    → ((is_governance_action action && not (is_permitted_action action)) ≡ false)
      × ((is_prohibited_action action && is_permitted_action action) ≡ false)
unfolding is_governance_action is_prohibited_action
tables_agree action = ground (
  arith,
  all-includes is_permitted_action governance_actions action governance_declared,
  all-includes (λ a. not (is_permitted_action a)) prohibited_actions action prohibited_undeclared,
)
