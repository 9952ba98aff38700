-- ===== src/Workflow/Resume/Stranded.antt =====
-- What a failure in the middle of resuming an event wait of packages/workflow/src/engine.ts leaves.
use mathlib.Core.Path.{subst}
use mathlib.Core.Option.{some-injective}
use burkham_wickmont_operati.Prelude.{
  ◌∷◌, update_where, false, arith, ℕ, [], refl, any, ◌≡◌, some, Option, inr, none, Bool-cases, inl,
  ◌==◌, ◌&&◌, true, sym, ◌∙◌, Bool,
}
use burkham_wickmont_operati.Core.Outcome.{Outcome, not_ok, failed, NotOk, not_a_wait_node, Failure}
use burkham_wickmont_operati.Workflow.Resume.{
  is_awaiting, resumed, resume_task, resolve_event_wait, find_in_tenant,
}
use burkham_wickmont_operati.Workflow.State.{
  WorkflowInstance, EngineState, find_instance, Invocation,
}
use burkham_wickmont_operati.Workflow.Queue.{
  Tasks, Task, is_waiting, is_running, is_stranded, reclaimed, reclaim_expired_leases,
}
use burkham_wickmont_operati.Workflow.Engine.{node_in}
use burkham_wickmont_operati.Workflow.Instances.{definition_for_instance}

here_resumed :
    (tenant id : ℕ) (t : Task) (ts : Tasks)
    → (t.id == id && t.tenant_id == tenant) ≡ true
    → is_waiting t.status ≡ true
    → find_in_tenant tenant id (update_where (is_awaiting tenant id) resumed (t ∷ ts))
      ≡ some (resumed t)
unfolding find_in_tenant
here_resumed tenant id t ts here w = ground arith

later_resumed :
    (tenant id : ℕ) (u : Task) (ts : Tasks)
    → (u.id == id && u.tenant_id == tenant) ≡ false
    → find_in_tenant tenant id (update_where (is_awaiting tenant id) resumed (u ∷ ts))
      ≡ find_in_tenant tenant id (update_where (is_awaiting tenant id) resumed ts)
unfolding find_in_tenant
later_resumed tenant id u ts other_one = ground arith

first_resumed :
    (tenant id : ℕ) (t : Task) (ts : Tasks)
    → find_in_tenant tenant id ts ≡ some t
    → is_waiting t.status ≡ true
    → find_in_tenant tenant id (update_where (is_awaiting tenant id) resumed ts) ≡ some (resumed t)
unfolding find_in_tenant
first_resumed tenant id t [] e w = cc
first_resumed tenant id t (u ∷ ts) e w = elim (Bool-cases (u.id == id && u.tenant_id == tenant)) [
  | inl this ↦
      let same : u ≡ t = some-injective _ _ (rw this at e) in
      subst
        (λ v.
          find_in_tenant tenant id (update_where (is_awaiting tenant id) resumed (v ∷ ts))
          ≡ some (resumed t))
        (sym same)
        (here_resumed tenant id t ts
          (subst (λ v. (v.id == id && v.tenant_id == tenant) ≡ true) same this) w)
  | inr other_one ↦
      later_resumed tenant id u ts other_one ∙ first_resumed tenant id t ts (rw other_one at e) w
]

-- running, under this identifier
abbrev pub is_stuck : ℕ → Task → Bool
is_stuck id t = t.id == id && is_running t.status

never_reclaimed :
    (tenant id now : ℕ) (t : Task) (ts : Tasks)
    → find_in_tenant tenant id ts ≡ some t
    → is_running t.status ≡ true
    → t.lease_expires_at ≡ none
    → any (is_stuck id) (reclaim_expired_leases now none ts) ≡ true
unfolding find_in_tenant reclaim_expired_leases
never_reclaimed tenant id now t [] e r l = cc
never_reclaimed tenant id now t (u ∷ ts) e r l =
    elim (Bool-cases (u.id == id && u.tenant_id == tenant)) [
      | inl this ↦
          let same : u ≡ t = some-injective _ _ (rw this at e) in
          stuck_here (subst (λ v. is_running v.status ≡ true) (sym same) r)
            (subst (λ v. v.lease_expires_at ≡ none) (sym same) l) this
      | inr other_one ↦ stuck_later (never_reclaimed tenant id now t ts (rw other_one at e) r l)
    ]
  where
    stuck_here :
        is_running u.status ≡ true
        → u.lease_expires_at ≡ none
        → (u.id == id && u.tenant_id == tenant) ≡ true
        → any (is_stuck id) (update_where (is_stranded now none) reclaimed (u ∷ ts)) ≡ true
    stuck_here a b c = ground arith

    stuck_later :
        any (is_stuck id) (update_where (is_stranded now none) reclaimed ts) ≡ true
        → any (is_stuck id) (update_where (is_stranded now none) reclaimed (u ∷ ts)) ≡ true
    stuck_later a = rw a (ground arith)

resume_task-unresolved :
    (run : Invocation) (tenant id : ℕ) (t : Task) (i : WorkflowInstance) (s : EngineState)
    → find_in_tenant tenant id s.tasks ≡ some t
    → find_instance t.instance_id s ≡ some i
    → node_in (definition_for_instance i s) t.node_key ≡ none
    → resume_task run tenant id s ≡ (failed not_a_wait_node, s)
unfolding resume_task
resume_task-unresolved run tenant id t i s a b c = rw (resume_task, a, b, c) refl

abbrev pub failure_of : Outcome WorkflowInstance → Option Failure
failure_of (not_ok (NotOk.failure f)) = some f
failure_of _ = none

-- A wait whose node cannot be resolved any more is stranded by the call that should resume it: the
-- call fails, its row stays running without a lease, and crash recovery at any later time passes it
-- over.
pub resolve_event_wait-strands :
    (run : Invocation) (tenant id now : ℕ) (t : Task) (i : WorkflowInstance) (s : EngineState)
    → find_in_tenant tenant id s.tasks ≡ some t
    → any (is_awaiting tenant id) s.tasks ≡ true
    → is_waiting t.status ≡ true
    → t.lease_expires_at ≡ none
    → find_instance t.instance_id s ≡ some i
    → node_in (definition_for_instance i s) t.node_key ≡ none
    → (failure_of (resolve_event_wait run tenant id s).0 ≡ some not_a_wait_node)
      × (any
            (is_stuck id)
            (reclaim_expired_leases now none (resolve_event_wait run tenant id s).1.tasks)
          ≡ true)
unfolding resolve_event_wait find_instance definition_for_instance
resolve_event_wait-strands run tenant id now t i s e there w l instance_there no_node =
    let s1 : EngineState = record s {
      tasks = update_where (is_awaiting tenant id) resumed s.tasks;
    } in
    let called : resolve_event_wait run tenant id s ≡ (failed not_a_wait_node, s1) =
      rw (there, resolve_event_wait)
        (resume_task-unresolved run tenant id (resumed t) i s1
          (first_resumed tenant id t s.tasks e w) instance_there no_node) in
    rw called (
      refl,
      never_reclaimed tenant id now (resumed t) s1.tasks (first_resumed tenant id t s.tasks e w)
          refl l,
    )
