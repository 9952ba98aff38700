-- ===== src/Workflow/Engine/Kept.antt =====
-- What every row of the queue keeps while packages/workflow/src/engine.ts advances an instance.
use burkham_wickmont_operati.Prelude.{Option-cases, Option, ℕ, inr, String, none, inl, some}
use burkham_wickmont_operati.Workflow.State.{
  log, on_tasks, WorkflowInstance, instance_failed, EngineState, task_dead_lettered,
  update_instance, task_succeeded, task_failed, Invocation, BranchTaken,
}
use burkham_wickmont_operati.Workflow.Playbook.{PlaybookDefinition, node_at, PlaybookNode}
use burkham_wickmont_operati.Workflow.Engine.{
  advance_along, failure_written, moved, record_failure, log_decision, advance_to, after_failure,
  ended,
}
use burkham_wickmont_operati.Workflow.Queue.{
  released, fail_task, EnqueueInput, retried, succeed, buried, FailureDisposition, succeeded,
  enqueue, retry_scheduled, enqueued, Task, dead_lettered,
}
use burkham_wickmont_operati.Workflow.Instances.{node_input, enqueue_node}
use burkham_wickmont_operati.Workflow.State.Ensures.{
  Ensures, fail_task-keeps, awaits-Ensures, OnTasks, on_tasks-keeps, update_instance-OnTasks,
}

-- A property that the four new states of a row have.
module _ (Q : Task → Type 0) (done_row : (u : Task) → Q (released succeeded u))
    (dead_row : (error : String) (u : Task) → Q (buried error u))
    (again_row : (error : String) (next_at : ℕ) (u : Task) → Q (retried error next_at u))
    (new_row : (fresh : ℕ) (i : EnqueueInput) (now : ℕ) → Q (enqueued fresh i now)) where
  Kept : EngineState → Type 0
  Kept s = OnTasks Q s

  written-Kept :
      (t : Task) (error : String) (now : ℕ) (s : EngineState)
      → Kept s
      → Ensures (λ _ s'. Kept s') (failure_written (fail_task t error now s.tasks) s)
  unfolding Kept
  written-Kept t error now s h =
      fail_task-keeps Q t error now s (λ u. dead_row error u) (λ at u. again_row error at u) h

  after_failure-Kept :
      (run : Invocation) (t : Task) (error : String) (r : FailureDisposition) (s : EngineState)
      → Kept s
      → Ensures (λ _ s'. Kept s') (after_failure run t error r s)
  unfolding after_failure Kept
  after_failure-Kept run t error (retry_scheduled at attempt) s h = h
  after_failure-Kept run t error (dead_lettered attempts) s h =
      let s1 = log t.tenant_id run none (task_dead_lettered t.id t.instance_id attempts) s in
      awaits-Ensures (λ _ s'. Kept s') (λ _ s'. Kept s')
        (update_instance t.instance_id (ended instance_failed run.now) s1) _
        (update_instance-OnTasks Q t.instance_id (ended instance_failed run.now) s1 h) (λ _ s' k. k)

  record_failure-Kept :
      (run : Invocation) (t : Task) (error : String) (s : EngineState)
      → Kept s
      → Ensures (λ _ s'. Kept s') (record_failure run t error s)
  unfolding record_failure Kept
  record_failure-Kept run t error s h =
      awaits-Ensures (λ _ s'. Kept s') (λ _ s'. Kept s')
        (failure_written (fail_task t error run.now s.tasks) s) _ (written-Kept t error run.now s h)
        (λ r s1 k.
          after_failure-Kept run t error r
            (log t.tenant_id run none (task_failed t.id t.instance_id t.node_key error t.attempts)
              s1)
            (logged s1 k))
    where
      logged :
          (s1 : EngineState)
          → Kept s1
          → Kept (
              log t.tenant_id run none
                (task_failed t.id t.instance_id t.node_key error t.attempts)
                s1)
      logged s1 k = k

  enqueue_node-Kept :
      (i tenant : ℕ) (key : String) (n : PlaybookNode) (now : ℕ) (s : EngineState)
      → Kept s
      → Ensures (λ _ s'. Kept s') (enqueue_node i tenant key n now s)
  unfolding enqueue_node Kept enqueue
  enqueue_node-Kept i tenant key n now s h = elim (Option-cases (node_input i tenant key n now)) [
    | inl bad ↦ rw bad tt
    | inr (input, good) ↦ rw good (new_row s.next_id input now, h)
  ]

  advanced-Kept :
      (run : Invocation) (t : Task) (i : WorkflowInstance) (key : String) (b : Option BranchTaken)
      (s : EngineState)
      → Kept s
      → Kept (
          log t.tenant_id run none
            (task_succeeded i.id t.id t.node_key key)
            (log_decision b run t i s))
  unfolding Kept
  advanced-Kept run t i key none s h = h
  advanced-Kept run t i key (some b) s h = h

  advance_along-Kept :
      (run : Invocation) (t : Task) (i : WorkflowInstance) (key : String) (n : PlaybookNode)
      (b : Option BranchTaken) (s : EngineState)
      → Kept s
      → Ensures (λ _ s'. Kept s') (advance_along run t i key n b s)
  unfolding advance_along succeed Kept
  advance_along-Kept run t i key n b s h =
      awaits-Ensures (λ _ s'. Kept s') (λ _ s'. Kept s') (on_tasks (succeed t.id) s) _
        (on_tasks-keeps Q t.id (released succeeded) s (λ u _. done_row u) h)
        (λ _ s1 h1.
          awaits-Ensures (λ _ s'. Kept s') (λ _ s'. Kept s') (update_instance i.id (moved key) s1) _
            (update_instance-OnTasks Q i.id (moved key) s1 h1)
            (λ _ s2 h2.
              awaits-Ensures (λ _ s'. Kept s') (λ _ s'. Kept s')
                (enqueue_node i.id t.tenant_id key n run.now s2) _
                (enqueue_node-Kept i.id t.tenant_id key n run.now s2 h2)
                (λ _ s3 h3. advanced-Kept run t i key b s3 h3)))

  pub advance_to-kept :
      (run : Invocation) (t : Task) (i : WorkflowInstance) (d : PlaybookDefinition) (key : String)
      (b : Option BranchTaken) (s : EngineState)
      → OnTasks Q s
      → Ensures (λ _ s'. OnTasks Q s') (advance_to run t i d key b s)
  unfolding advance_to Kept
  advance_to-kept run t i d key b s h = by_target (node_at d.nodes key)
    where
      by_target :
          (o : Option PlaybookNode)
          → Ensures
              (λ _ s'. OnTasks Q s')
              (elim o [
                | none ↦ record_failure run t "next node not found" s
                | some n ↦ advance_along run t i key n b s
              ])
      by_target none = record_failure-Kept run t "next node not found" s h
      by_target (some n) = advance_along-Kept run t i key n b s h
