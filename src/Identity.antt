-- ===== src/Identity.antt =====
-- packages/identity/src/index.ts: actors and the decision about their Authority Level.
pub mod RateLimit
pub mod Decide
use burkham_wickmont_operati.Prelude.{
  ℕ, String, Bool, true, false, List, none, some, find, ◌==◌, if◌then◌else◌,
}
use burkham_wickmont_operati.Core.Outcome.{
  Outcome, ok, refuse_if, ◌>>◌, prohibited_action, undeclared_action, insufficient_level,
}
use burkham_wickmont_operati.Core.Authority.{
  Property, undefined, is_authority_level, is_prohibited_action, minimum_level, below,
}
use burkham_wickmont_operati.Core.Events.{ActorKind}

-- a row of the actor table; the level is any number the column holds
pub record Actor : Type 0 where
  pub id : ℕ
  pub tenant_id : ℕ
  pub kind : ActorKind
  pub authority_level : ℕ

pub data Found (A : Type 0) : Type 0 where
  absent : Found A
  found : A → Found A
  threw : Found A

-- throws on a level that is not 0-3
unfoldable pub find_actor : List Actor → ℕ → Found Actor
unfolding is_authority_level
find_actor actors id = elim (find (λ row. row.id == id) actors) [
  | none ↦ absent
  | some row ↦ if is_authority_level row.authority_level then found row else threw
]

pub record AuthorityDecision : Type 0 where
  pub action : String
  pub prohibited : Bool
  pub required_level : Property
  pub actor_level : ℕ

abbrev is_undefined : Property → Bool
is_undefined undefined = true
is_undefined _ = false

unfoldable pub decide_authority : ℕ → String → Outcome AuthorityDecision
decide_authority held action = do
  refuse_if (is_prohibited_action action) prohibited_action
  refuse_if (is_undefined (minimum_level action)) undeclared_action
  refuse_if (below held (minimum_level action)) insufficient_level
  ok (record {
    action = action;
    prohibited = false;
    required_level = minimum_level action;
    actor_level = held;
  })
