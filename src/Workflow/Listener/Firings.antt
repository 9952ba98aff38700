-- ===== src/Workflow/Listener/Firings.antt =====
-- A trigger of packages/workflow/src/listener.ts starts at most one workflow for an event.
use burkham_wickmont_operati.Prelude.{
  ◌≡◌, some, any, true, false, List, ℕ, inl, inr, arith, update_where, ◌∷◌, [], Bool-cases, ◌==◌,
  ◌≢◌, refl, none, ==_iff,
}
use burkham_wickmont_operati.Core.Outcome.{ok, not_ok, NotOk, Outcome}
use burkham_wickmont_operati.Workflow.State.{Invocation, WorkflowInstance, EngineState}
use burkham_wickmont_operati.Workflow.Listener.{
  valid, LedgerRow, Trigger, is_firing, trigger_fired_once, claim_and_start, Firing, ListenerState,
  FireOutcome, after_trigger, fire_trigger, fire_if, condition_result, duplicate, trigger_start,
}
use burkham_wickmont_operati.Workflow.Instances.{start_instance}
use burkham_wickmont_operati.Workflow.Predicate.{throws, EvaluationResult, invalid}

relabelled :
    (t : Trigger) (e : LedgerRow) (id : ℕ) (fs : List Firing)
    → any (is_firing t e) fs ≡ true
    → any
        (is_firing t e)
        (update_where (is_firing t e) (λ (f : Firing). record f { instance_id = some id }) fs)
      ≡ true
relabelled t e id [] h = h
relabelled t e id (f ∷ fs) h = ground (arith, relabelled t e id fs)

claimed_after :
    (run : Invocation) (t : Trigger) (e : LedgerRow) (s : ListenerState)
    (x : Outcome WorkflowInstance × EngineState)
    → any (is_firing t e) s.firings ≡ true
    → any (is_firing t e) (after_trigger run t e s x).1.firings ≡ true
claimed_after run t e s (ok i, es) h = relabelled t e i.id s.firings h
claimed_after run t e s (not_ok (NotOk.refusal y), es) h = h
claimed_after run t e s (not_ok (NotOk.not_built y), es) h = h
claimed_after run t e s (not_ok (NotOk.missing y), es) h = h
claimed_after run t e s (not_ok (NotOk.failure y), es) h = h
claimed_after run t e s (not_ok NotOk.threw, es) h = h

==_refl : (n : ℕ) → (n == n) ≡ true
==_refl n = (==_iff n n).1 refl

duplicate_refused :
    (run : Invocation) (t : Trigger) (e : LedgerRow) (s : ListenerState)
    → any (is_firing t e) s.firings ≡ true
    → claim_and_start run t e s ≡ (duplicate, s)
unfolding claim_and_start
duplicate_refused run t e s h = rw h refl

claimed_pair :
    (run : Invocation) (t : Trigger) (e : LedgerRow) (s : ListenerState)
    → any (is_firing t e) (claim_and_start run t e s).1.firings ≡ true
unfolding claim_and_start
claimed_pair run t e s = elim (Bool-cases (any (is_firing t e) s.firings)) [
  | inl there ↦ rw there there
  | inr new_pair ↦ rw new_pair (
      claimed_after run t e
        (record s {
          firings =
              record { trigger_id = t.id; ledger_event_id = e.id; instance_id = none } ∷ s.firings;
        })
        (start_instance run (trigger_start t e) s.engine) (rw (==_refl t.id, ==_refl e.id) refl))
]

-- a call that started no workflow on these tables: no instance, no task and no firing is new
abbrev pub StartsNone : ListenerState → FireOutcome × ListenerState → Type 0
StartsNone s (outcome, s') =
    (outcome ≢ trigger_fired_once)
    × (s'.engine.instances ≡ s.engine.instances)
    × (s'.engine.tasks ≡ s.engine.tasks)
    × (s'.firings ≡ s.firings)

-- A trigger starts at most one workflow for an event: once a call has started one, a later call for the
-- same trigger and event on the tables that it left does not answer that it has started one, and
-- leaves the instances, the tasks and the firings as they are, whatever its condition then gives.
pub fire_trigger-once :
    (run run' : Invocation) (t : Trigger) (e : LedgerRow) (s : ListenerState)
    → (fire_trigger run t e s).0 ≡ trigger_fired_once
    → StartsNone (fire_trigger run t e s).1 (fire_trigger run' t e (fire_trigger run t e s).1)
unfolding fire_trigger
fire_trigger-once run run' t e s fired =
    by_condition (condition_result t.condition e s.engine) fired
  where
    again :
        (r : EvaluationResult) (s' : ListenerState)
        → any (is_firing t e) s'.firings ≡ true
        → StartsNone s' (fire_if r run' t e s')
    again (invalid p) s' h = (λ k. cc, refl, refl, refl)
    again throws s' h = (λ k. cc, refl, refl, refl)
    again (valid false) s' h = (λ k. cc, refl, refl, refl)
    again (valid true) s' h = rw (duplicate_refused run' t e s' h) (λ k. cc, refl, refl, refl)

    by_condition :
        (r : EvaluationResult)
        → (fire_if r run t e s).0 ≡ trigger_fired_once
        → StartsNone (fire_if r run t e s).1 (
            fire_if
              (condition_result t.condition e (fire_if r run t e s).1.engine)
              run'
              t
              e
              (fire_if r run t e s).1)
    by_condition (invalid p) h = cc
    by_condition throws h = cc
    by_condition (valid false) h = cc
    by_condition (valid true) h =
        again (condition_result t.condition e (claim_and_start run t e s).1.engine)
          (claim_and_start run t e s).1 (claimed_pair run t e s)
