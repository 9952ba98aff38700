-- ===== src/Workflow/Engine/Settled.antt =====
-- What packages/workflow/src/engine.ts leaves of a task that it executes.
use burkham_wickmont_operati.Prelude.{
  ◌&&◌, ◌==◌, ◌≡◌, arith, false, String, ℕ, none, some, Option-cases, inl, inr, refl, Option,
}
use burkham_wickmont_operati.Workflow.State.{
  finished, log, EngineState, instance_failed, on_tasks, Invocation, task_failed, BranchTaken,
  ◌awaits◌, update_instance, WorkflowInstance, task_succeeded, Ran, task_dead_lettered,
  workflow_failed,
}
use burkham_wickmont_operati.Workflow.Engine.{
  failure_written, record_failure, after_failure, ended, advance_to, advance_along, log_decision,
  moved, ExecutionOutcome, then_outcome,
}
use burkham_wickmont_operati.Workflow.Queue.{
  fail_task, enqueued, Task, is_running, EnqueueInput, FailureDisposition, update_task,
  retry_scheduled, dead_lettered, succeeded, succeed, released, enqueue,
}
use burkham_wickmont_operati.Workflow.State.Ensures.{
  OnTasks, Ensures, awaits-Ensures, update_instance-OnTasks, fail_task-sets, on_tasks-sets,
}
use burkham_wickmont_operati.Workflow.Playbook.{PlaybookNode, node_at, PlaybookDefinition}
use burkham_wickmont_operati.Workflow.Instances.{node_input, enqueue_node}

-- the row with this identifier, if it is there, is not running
abbrev pub IsSettled : ℕ → Task → Type 0
IsSettled id t = (t.id == id && is_running t.status) ≡ false

other_row : (id : ℕ) (t : Task) → (t.id == id) ≡ false → IsSettled id t
other_row id t h = ground arith

enqueued-IsSettled :
    (id fresh : ℕ) (i : EnqueueInput) (now : ℕ) → IsSettled id (enqueued fresh i now)
enqueued-IsSettled id fresh i now = ground arith

unfoldable pub AllSettled : ℕ → EngineState → Type 0
AllSettled id s = OnTasks (IsSettled id) s

-- the two ways in which a row leaves the state of running
pub set_to :
    (id : ℕ) (f : Task → Task) (s : EngineState)
    → ((t : Task) → is_running (f t).status ≡ false)
    → Ensures (λ _ s'. AllSettled id s') (on_tasks (update_task id f) s)
unfolding AllSettled
set_to id f s h =
    on_tasks-sets (IsSettled id) id f s (λ t e. ground (arith, h t)) (λ t e. other_row id t e)

pub record_failure-settles :
    (run : Invocation) (t : Task) (error : String) (s : EngineState)
    → Ensures (λ _ s'. AllSettled t.id s') (record_failure run t error s)
unfolding record_failure AllSettled after_failure
record_failure-settles run t error s =
    awaits-Ensures (λ _ s'. AllSettled t.id s') (λ _ s'. AllSettled t.id s')
      (failure_written (fail_task t error run.now s.tasks) s) _
      (fail_task-sets (IsSettled t.id) t error run.now s (λ u e. ground arith)
        (λ next_at u e. ground arith) (λ u e. other_row t.id u e))
      (λ r s' h. after r s' h)
  where
    after :
        (r : FailureDisposition) (s' : EngineState)
        → AllSettled t.id s'
        → Ensures
            (λ _ s''. AllSettled t.id s'')
            (after_failure run t error r (
              log t.tenant_id run none
                (task_failed t.id t.instance_id t.node_key error t.attempts)
                s'))
    after (retry_scheduled next_at attempt) s' h = h
    after (dead_lettered attempts) s' h =
        let s1 = log t.tenant_id run none (task_dead_lettered t.id t.instance_id attempts) (
          log t.tenant_id run none (task_failed t.id t.instance_id t.node_key error t.attempts)
            s') in
        awaits-Ensures (λ _ s''. AllSettled t.id s'') (λ _ s''. AllSettled t.id s'')
          (update_instance t.instance_id (ended instance_failed run.now) s1)
          (λ _ s''.
            finished tt
              (log t.tenant_id run none (workflow_failed t.instance_id t.node_key error) s''))
          (update_instance-OnTasks (IsSettled t.id) t.instance_id (ended instance_failed run.now) s1
            h)
          (λ _ s'' k. k)

-- The steps after the first, which settles the row, keep it settled.
module _ (id : ℕ) where
  keeps_settled :
      {A : Type 0} (m : Ran A) (f : A → EngineState → Ran Unit)
      → Ensures (λ _ s. AllSettled id s) m
      → ((a : A) (s : EngineState) → AllSettled id s → Ensures (λ _ s'. AllSettled id s') (f a s))
      → Ensures (λ _ s. AllSettled id s) (m awaits f)
  keeps_settled m f h k = awaits-Ensures (λ _ s. AllSettled id s) (λ _ s. AllSettled id s) m f h k

  pub with_outcome :
      (o : ExecutionOutcome) (m : Ran Unit)
      → Ensures (λ _ s. AllSettled id s) m
      → Ensures (λ _ s. AllSettled id s) (then_outcome o m)
  with_outcome o m h =
      awaits-Ensures (λ _ s. AllSettled id s) (λ _ s. AllSettled id s) m _ h (λ _ s k. k)

  pub instance-settled :
      (i : ℕ) (f : WorkflowInstance → WorkflowInstance) (s : EngineState)
      → AllSettled id s
      → Ensures (λ _ s'. AllSettled id s') (update_instance i f s)
  unfolding AllSettled
  instance-settled i f s h = update_instance-OnTasks (IsSettled id) i f s h

  pub enqueue_node-settled :
      (i tenant : ℕ) (key : String) (n : PlaybookNode) (now : ℕ) (s : EngineState)
      → AllSettled id s
      → Ensures (λ _ s'. AllSettled id s') (enqueue_node i tenant key n now s)
  unfolding enqueue_node AllSettled enqueue
  enqueue_node-settled i tenant key n now s h =
      elim (Option-cases (node_input i tenant key n now)) [
        | inl bad ↦ rw bad tt
        | inr (input, good) ↦ rw good (enqueued-IsSettled id s.next_id input now, h)
      ]

settled-logged :
    (run : Invocation) (t : Task) (i : WorkflowInstance) (next_key : String)
    (b : Option BranchTaken) (s : EngineState)
    → AllSettled t.id s
    → AllSettled t.id (
        log t.tenant_id run none
          (task_succeeded i.id t.id t.node_key next_key)
          (log_decision b run t i s))
unfolding AllSettled
settled-logged run t i next_key none s h = h
settled-logged run t i next_key (some b) s h = h

advance_along-settles :
    (run : Invocation) (t : Task) (i : WorkflowInstance) (next_key : String) (n : PlaybookNode)
    (taken : Option BranchTaken) (s : EngineState)
    → Ensures (λ _ s'. AllSettled t.id s') (advance_along run t i next_key n taken s)
unfolding advance_along succeed
advance_along-settles run t i next_key n taken s =
    keeps_settled t.id (on_tasks (succeed t.id) s) _
      (set_to t.id (released succeeded) s (λ u. refl))
      (λ _ s1 h1.
        keeps_settled t.id (update_instance i.id (moved next_key) s1) _
          (instance-settled t.id i.id (moved next_key) s1 h1)
          (λ _ s2 h2.
            keeps_settled t.id (enqueue_node i.id t.tenant_id next_key n run.now s2) _
              (enqueue_node-settled t.id i.id t.tenant_id next_key n run.now s2 h2)
              (λ _ s3 h3. settled-logged run t i next_key taken s3 h3)))

pub advance_to-settles :
    (run : Invocation) (t : Task) (i : WorkflowInstance) (d : PlaybookDefinition)
    (next_key : String) (taken : Option BranchTaken) (s : EngineState)
    → Ensures (λ _ s'. AllSettled t.id s') (advance_to run t i d next_key taken s)
unfolding advance_to
advance_to-settles run t i d next_key taken s = by_target (node_at d.nodes next_key)
  where
    by_target :
        (o : Option PlaybookNode)
        → Ensures
            (λ _ s'. AllSettled t.id s')
            (elim o [
              | none ↦ record_failure run t "next node not found" s
              | some n ↦ advance_along run t i next_key n taken s
            ])
    by_target none = record_failure-settles run t "next node not found" s
    by_target (some n) = advance_along-settles run t i next_key n taken s
