-- ===== src/Workflow/Resume/Waits.antt =====
-- An event wait of packages/workflow/src/engine.ts is resumed once.
use mathlib.Core.Path.{subst}
use burkham_wickmont_operati.Prelude.{
  ◌∷◌, update_where, false, arith, ℕ, [], refl, All, any, ◌≡◌, some, Option, inr, ◌≢◌, none,
  Bool-cases, inl, ap,
}
use burkham_wickmont_operati.Core.Outcome.{
  Outcome, not_ok, refused, failed, NotOk, instance_gone, ok, task_vanished, not_waiting,
  not_a_wait_node,
}
use burkham_wickmont_operati.Workflow.Resume.{
  finished, rejected, threw, wait, is_awaiting, resumed, resume_wait, found_again, resume_task,
  resolve_event_wait, find_in_tenant,
}
use burkham_wickmont_operati.Workflow.State.{
  WorkflowInstance, EngineState, Ran, find_instance, Invocation,
}
use burkham_wickmont_operati.Workflow.Queue.{Tasks, Task}
use burkham_wickmont_operati.Workflow.State.Ensures.{OnTasks, Ensures}
use burkham_wickmont_operati.Workflow.Playbook.{
  unknown_node, PlaybookNode, PlaybookDefinition, human_checkpoint_node, wait_node, agent_task_node,
  decision_node, terminal_node,
}
use burkham_wickmont_operati.Workflow.Engine.{node_in, advance_to}
use burkham_wickmont_operati.Workflow.Instances.{definition_for_instance}
use burkham_wickmont_operati.Workflow.Engine.Kept.{advance_to-kept}

NotAwaiting : ℕ → ℕ → Task → Type 0
NotAwaiting tenant id t = is_awaiting tenant id t ≡ false

none_awaiting :
    (tenant id : ℕ) (ts : Tasks)
    → All (NotAwaiting tenant id) ts
    → any (is_awaiting tenant id) ts ≡ false
unfolding NotAwaiting
none_awaiting tenant id [] h = refl
none_awaiting tenant id (t ∷ ts) h = rw h.0 (none_awaiting tenant id ts h.1)

All-resumed :
    (tenant id : ℕ) (ts : Tasks)
    → All (NotAwaiting tenant id) (update_where (is_awaiting tenant id) resumed ts)
unfolding NotAwaiting
All-resumed tenant id [] = tt
All-resumed tenant id (t ∷ ts) = (ground arith, All-resumed tenant id ts)

-- what the outcome leaves, unless the promise is rejected
Leaves : ℕ → ℕ → Outcome WorkflowInstance × EngineState → Type 0
Leaves tenant id (not_ok NotOk.threw, s) = Unit
Leaves tenant id (o, s) = OnTasks (NotAwaiting tenant id) s

module _ (run : Invocation) (tenant id : ℕ) where
  found_again-Leaves :
      (i : ℕ) (m : Ran Unit)
      → Ensures (λ _ s. OnTasks (NotAwaiting tenant id) s) m
      → Leaves tenant id (found_again i m)
  unfolding Leaves found_again
  found_again-Leaves i (rejected s) h = tt
  found_again-Leaves i (finished u s) h = by_instance (find_instance i s)
    where
      by_instance :
          (o : Option WorkflowInstance)
          → Leaves tenant id (elim o [ none ↦ (failed instance_gone, s) | some j ↦ (ok j, s) ])
      by_instance none = h
      by_instance (some j) = h

  resume_wait-Leaves :
      (t : Task) (i : WorkflowInstance) (d : PlaybookDefinition) (n : PlaybookNode)
      (s : EngineState)
      → OnTasks (NotAwaiting tenant id) s
      → Leaves tenant id (resume_wait run t i d n s)
  unfolding resume_wait Leaves NotAwaiting
  resume_wait-Leaves t i d (wait_node n) s h =
      found_again-Leaves i.id (advance_to run (record t { kind = wait }) i d n.next none s) (
        advance_to-kept (NotAwaiting tenant id) (λ u. ground arith) (λ e u. ground arith)
          (λ e at u. ground arith) (λ f j now. ground arith) run (record t { kind = wait }) i d
          n.next none s h)
  resume_wait-Leaves t i d (agent_task_node n) s h = h
  resume_wait-Leaves t i d (human_checkpoint_node n) s h = h
  resume_wait-Leaves t i d (decision_node n) s h = h
  resume_wait-Leaves t i d (terminal_node o) s h = h
  resume_wait-Leaves t i d unknown_node s h = h

  resume_task-Leaves :
      (s : EngineState)
      → OnTasks (NotAwaiting tenant id) s
      → Leaves tenant id (resume_task run tenant id s)
  unfolding resume_task Leaves
  resume_task-Leaves s h = by_task (find_in_tenant tenant id s.tasks)
    where
      by_node :
          (t : Task) (i : WorkflowInstance) (o : Option (PlaybookDefinition × PlaybookNode))
          → Leaves tenant id (elim o [
            | none ↦ (failed not_a_wait_node, s)
            | some (d, n) ↦ resume_wait run t i d n s
          ])
      by_node t i none = h
      by_node t i (some (d, n)) = resume_wait-Leaves t i d n s h

      by_instance :
          (t : Task) (o : Option WorkflowInstance)
          → Leaves tenant id (elim o [
            | none ↦ (failed instance_gone, s)
            | some i ↦ elim (node_in (definition_for_instance i s) t.node_key) [
              | none ↦ (failed not_a_wait_node, s)
              | some (d, n) ↦ resume_wait run t i d n s
            ]
          ])
      by_instance t none = h
      by_instance t (some i) = by_node t i (node_in (definition_for_instance i s) t.node_key)

      by_task :
          (o : Option Task)
          → Leaves tenant id (elim o [
            | none ↦ (failed task_vanished, s)
            | some t ↦ elim (find_instance t.instance_id s) [
              | none ↦ (failed instance_gone, s)
              | some i ↦ elim (node_in (definition_for_instance i s) t.node_key) [
                | none ↦ (failed not_a_wait_node, s)
                | some (d, n) ↦ resume_wait run t i d n s
              ]
            ]
          ])
      by_task none = h
      by_task (some t) = by_instance t (find_instance t.instance_id s)

refused_when :
    (run : Invocation) (tenant id : ℕ) (o : Outcome WorkflowInstance) (s : EngineState)
    → o ≢ not_ok threw
    → Leaves tenant id (o, s)
    → resolve_event_wait run tenant id s ≡ (refused not_waiting, s)
unfolding Leaves resolve_event_wait
refused_when run tenant id (ok i) s k h = rw (none_awaiting tenant id s.tasks h) refl
refused_when run tenant id (not_ok (NotOk.refusal r)) s k h =
    rw (none_awaiting tenant id s.tasks h) refl
refused_when run tenant id (not_ok (NotOk.not_built r)) s k h =
    rw (none_awaiting tenant id s.tasks h) refl
refused_when run tenant id (not_ok (NotOk.missing r)) s k h =
    rw (none_awaiting tenant id s.tasks h) refl
refused_when run tenant id (not_ok (NotOk.failure r)) s k h =
    rw (none_awaiting tenant id s.tasks h) refl
refused_when run tenant id (not_ok NotOk.threw) s k h = absurd (k refl)

-- A wait is resumed at most once: whatever the first call for it returns, unless its promise is
-- rejected, a later call from any pass, with the tables as the first one left them, is refused and
-- changes nothing.
pub resolve_event_wait-once :
    (run run' : Invocation) (tenant id : ℕ) (o : Outcome WorkflowInstance) (s s' : EngineState)
    → resolve_event_wait run tenant id s ≡ (o, s')
    → o ≢ not_ok threw
    → resolve_event_wait run' tenant id s' ≡ (refused not_waiting, s')
unfolding resolve_event_wait
resolve_event_wait-once run run' tenant id o s s' e k =
    elim (Bool-cases (any (is_awaiting tenant id) s.tasks)) [
      | inl there ↦ refused_when run' tenant id o s' k (
          subst (Leaves tenant id) (rw there at e) (
            resume_task-Leaves run tenant id
              (record s { tasks = update_where (is_awaiting tenant id) resumed s.tasks })
              (All-resumed tenant id s.tasks)))
      | inr gone ↦
          subst (λ z. resolve_event_wait run' tenant id z ≡ (refused not_waiting, z))
            (ap (λ (x : Outcome WorkflowInstance × EngineState). x.1) (rw gone at e))
            (rw (gone, resolve_event_wait) refl)
    ]
