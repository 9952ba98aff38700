-- ===== src/Core/Outcome.antt =====
-- packages/core/src/outcome.ts: honest refusals. A reason is a text in the source; here each
-- place that refuses has a constructor of its own, which stands for its reason and its principle.
use burkham_wickmont_operati.Prelude.{String, Bool, true, false, not, ◌≡◌, arith, refl}

pub data Refusal : Type 0 where
  unknown_actor cross_tenant : Refusal
  prohibited_action undeclared_action insufficient_level : Refusal
  firewall_triggered compliance_fail needs_human_review not_passing : Refusal
  human_required : Refusal
  do_not_fund : Refusal
  conduct_paused : Refusal
  jurisdiction_unknown state_not_active counsel_review provider_not_permitted : Refusal
  empty_library banned_language disclosure_missing : Refusal
  no_justification already_listed not_human level_too_low not_a_fail override_spent : Refusal
  not_cents no_rationale exceeds_credit no_entitlement no_reason decline_needs_human : Refusal
  not_waiting invalid_playbook not_an_upgrade cron_invalid self_triggering : Refusal

pub data Missing : Type 0 where
  no_client no_listing no_override no_engagement no_funding_outcome no_workflow_task : Missing
  no_playbook no_offer nothing_owed : Missing

pub data Failure : Type 0 where
  unrecognised_state append_failed listing_not_written : Failure
  start_node_unresolved task_vanished instance_gone not_a_wait_node : Failure
  node_unresolvable not_external : Failure

-- `Outcome<never>`: the variants without a value
pub data NotOk : Type 0 where
  refusal : Refusal → NotOk
  not_built : String → NotOk
  missing : Missing → NotOk
  failure : Failure → NotOk
  -- a rejected promise, which an `Outcome` does not carry
  threw : NotOk

pub data Outcome (A : Type 0) : Type 0 where
  ok : A → Outcome A
  not_ok : NotOk → Outcome A

pattern abbrev pub refused : {A : Type 0} → Refusal → Outcome A
refused r = not_ok (NotOk.refusal r)

pattern abbrev pub no_data : {A : Type 0} → Missing → Outcome A
no_data m = not_ok (NotOk.missing m)

pattern abbrev pub failed : {A : Type 0} → Failure → Outcome A
failed f = not_ok (NotOk.failure f)

module _ {A : Type 0} where
  unfoldable pub is_ok : Outcome A → Bool
  is_ok (Outcome.ok a) = true
  is_ok (Outcome.not_ok x) = false

  unfoldable pub is_not_ok : Outcome A → Bool
  unfolding is_ok
  is_not_ok o = not (is_ok o)

-- `if (x.status !== 'ok') return x;`
infixl 5 ◌>>=◌ ◌>>◌
abbrev pub ◌>>=◌ : {A B : Type 0} → Outcome A → (A → Outcome B) → Outcome B
◌>>=◌ (Outcome.ok a) f = f a
◌>>=◌ (Outcome.not_ok x) f = Outcome.not_ok x

abbrev pub ◌>>◌ : {A B : Type 0} → Outcome A → Outcome B → Outcome B
m >> k = m >>= λ _. k

-- an early `return refused(…)`
abbrev pub refuse_if : Bool → Refusal → Outcome (Unit {0})
refuse_if b r = elim b [ true ↦ refused r | false ↦ Outcome.ok tt ]

-- How an operation that succeeds got there.
module _ {A : Type 0} where
  pub bind-ok :
      {B : Type 0} (m : Outcome A) (f : A → Outcome B) {b : B}
      → (m >>= f) ≡ Outcome.ok b
      → (a : A) × (m ≡ Outcome.ok a) × (f a ≡ Outcome.ok b)
  bind-ok (Outcome.ok a) f h = (a, refl, h)
  bind-ok (Outcome.not_ok x) f h = cc

  pub ok-injective : {a b : A} → Outcome.ok a ≡ Outcome.ok b → a ≡ b
  ok-injective h = cc

  pub refuse_if-ok :
      (p : Bool) (r : Refusal) (k : Outcome A) {a : A}
      → (refuse_if p r >> k) ≡ Outcome.ok a
      → (p ≡ false) × (k ≡ Outcome.ok a)
  refuse_if-ok p r k h = ground arith
