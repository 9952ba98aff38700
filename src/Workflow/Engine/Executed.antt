-- ===== src/Workflow/Engine/Executed.antt =====
-- No task that packages/workflow/src/engine.ts executes is left running.
use burkham_wickmont_operati.Prelude.{
  ◌≡◌, String, ℕ, none, some, inl, inr, refl, Option, Bool-cases, leb, ◌≢◌, All, ap,
}
use burkham_wickmont_operati.Workflow.State.{
  finished, log, rejected, EngineState, on_tasks, Invocation, update_instance, WorkflowInstance,
  wait_resolved, wait_deferred, find_instance,
}
use burkham_wickmont_operati.Workflow.Engine.{
  event, advance_to, ExecutionOutcome, then_outcome, offset_or_zero, execute_wait, remind_at,
  Decided, defer_or_advance, fails_with, execute_decision, build_scope, advanced, broken_predicate,
  moment_of, execution_failed, takes_branch, decide, park_wait, parked, agent_assignment, dispatch,
  human_assignment, execute_node, at_terminal, execute_terminal, Assignment, execute_task, node_in,
  missing_node, missing_instance, predicate_throws,
}
use burkham_wickmont_operati.Workflow.Queue.{
  Task, succeeded, succeed, released, defer_until, park, waiting, schedule_reminder, pending,
}
use burkham_wickmont_operati.Workflow.State.Ensures.{
  Ensures, awaits-Ensures, on_tasks-keeps, Ensures-finished,
}
use burkham_wickmont_operati.Workflow.Playbook.{
  PlaybookNode, PlaybookDefinition, WaitNode, at_context_field, WaitUntil, JsonNumber, DecisionNode,
  no_moment, duration_minutes, agent_task_node, unknown_node, terminal_node, decision_node,
  TerminalOutcome, human_checkpoint_node, wait_node,
}
use burkham_wickmont_operati.Workflow.Instances.{later, definition_for}
use burkham_wickmont_operati.Workflow.Predicate.{own_field}
use burkham_wickmont_operati.Workflow.Engine.Settled.{
  instance-settled, set_to, IsSettled, with_outcome, advance_to-settles, record_failure-settles,
  AllSettled,
}

module _ (run : Invocation) (t : Task) (i : WorkflowInstance) (d : PlaybookDefinition) where
  decision-settles :
      (n : DecisionNode) (s : EngineState)
      → Ensures (λ _ s'. AllSettled t.id s') (execute_decision run t i d n s)
  unfolding execute_decision
  decision-settles n s = decided (decide (build_scope i s) n.branches n.otherwise)
    where
      decided :
          (c : Decided)
          → Ensures
              (λ _ s'. AllSettled t.id s')
              (elim c [
                | broken_predicate ↦ fails_with run t "decision predicate invalid" s
                | predicate_throws ↦ rejected s
                | takes_branch b ↦ then_outcome advanced (advance_to run t i d b.target (some b) s)
              ])
      decided broken_predicate =
          with_outcome t.id execution_failed _
            (record_failure-settles run t "decision predicate invalid" s)
      decided predicate_throws = tt
      decided (takes_branch b) =
          with_outcome t.id advanced _ (advance_to-settles run t i d b.target (some b) s)

  wait_parks :
      (n : WaitNode) (s : EngineState)
      → Ensures (λ _ s'. AllSettled t.id s') (park_wait run t i n s)
  unfolding park schedule_reminder AllSettled
  wait_parks n s =
      awaits-Ensures (λ _ s'. AllSettled t.id s') (λ _ s'. AllSettled t.id s')
        (on_tasks (park t.id) s) _ (set_to t.id (released waiting) s (λ u. refl))
        (λ _ s1 h1.
          awaits-Ensures (λ _ s'. AllSettled t.id s') (λ _ s'. AllSettled t.id s')
            (remind_at run t n.remind_after_minutes s1) _ (reminded n.remind_after_minutes s1 h1)
            (λ _ s2 h2. h2))
    where
      scheduled :
          (due : Option ℕ) (s1 : EngineState)
          → AllSettled t.id s1
          → Ensures
              (λ _ s'. AllSettled t.id s')
              (elim due [ none ↦ rejected s1 | some at ↦ on_tasks (schedule_reminder t.id at) s1 ])
      scheduled none s1 h = tt
      scheduled (some at) s1 h = on_tasks-keeps (IsSettled t.id) t.id _ s1 (λ u k. k) h

      reminded :
          (o : Option JsonNumber) (s1 : EngineState)
          → AllSettled t.id s1
          → Ensures (λ _ s'. AllSettled t.id s') (remind_at run t o s1)
      reminded none s1 h = h
      reminded (some minutes) s1 h = scheduled (later run.now minutes) s1 h

  wait-settles :
      (n : WaitNode) (s : EngineState)
      → Ensures (λ _ s'. AllSettled t.id s') (execute_wait run t i d n s)
  unfolding execute_wait defer_until AllSettled
  wait-settles n s = by_moment n.until
    where
      logged : EngineState
      logged = log t.tenant_id run none (wait_resolved i.id t.node_key) s

      deferred :
          (key : String) (o : Option ℕ)
          → Ensures (λ _ s'. AllSettled t.id s') (defer_or_advance run t i d n key o s)
      deferred key none = tt
      deferred key (some run_at) = elim (Bool-cases (leb run_at run.now)) [
        | inl past ↦
            rw past (with_outcome t.id advanced _ (advance_to-settles run t i d n.next none logged))
        | inr future ↦ rw future (
            awaits-Ensures (λ _ s'. AllSettled t.id s') (λ _ s'. AllSettled t.id s')
              (on_tasks (defer_until t.id run_at) s)
              (λ _ s'.
                finished parked
                  (log t.tenant_id run none (wait_deferred i.id t.node_key key run_at) s'))
              (set_to t.id (λ u. record (released pending u) { run_at = run_at }) s (λ u. refl))
              (λ _ s1 k. k))
      ]

      resolved :
          (key : String) (o : Option JsonNumber) (m : Option ℕ)
          → Ensures
              (λ _ s'. AllSettled t.id s')
              (elim m [
                | none ↦ fails_with run t "wait needs a date" s
                | some moment ↦ defer_or_advance run t i d n key (later moment (offset_or_zero o)) s
              ])
      resolved key o none =
          with_outcome t.id execution_failed _ (record_failure-settles run t "wait needs a date" s)
      resolved key o (some moment) = deferred key (later moment (offset_or_zero o))

      by_moment :
          (u : WaitUntil)
          → Ensures
              (λ _ s'. AllSettled t.id s')
              (elim u [
                | at_context_field key offset ↦ elim (moment_of run (own_field i.context key)) [
                  | none ↦ fails_with run t "wait needs a date" s
                  | some moment ↦
                      defer_or_advance run t i d n key (later moment (offset_or_zero offset)) s
                ]
                | duration_minutes minutes ↦
                    then_outcome advanced (advance_to run t i d n.next none logged)
                | event name ↦ park_wait run t i n s
                | no_moment ↦ park_wait run t i n s
              ])
      by_moment (at_context_field key offset) =
          resolved key offset (moment_of run (own_field i.context key))
      by_moment (duration_minutes minutes) =
          with_outcome t.id advanced _ (advance_to-settles run t i d n.next none logged)
      by_moment (event name) = wait_parks n s
      by_moment no_moment = wait_parks n s

  dispatch-settles :
      (a : Assignment) (s : EngineState)
      → Ensures (λ _ s'. AllSettled t.id s') (dispatch run t i a s)
  unfolding dispatch park AllSettled
  dispatch-settles a s =
      awaits-Ensures (λ _ s'. AllSettled t.id s') (λ _ s'. AllSettled t.id s')
        (on_tasks (park t.id) s) _ (set_to t.id (released waiting) s (λ u. refl)) (λ _ s1 k. k)

  terminal-settles :
      (o : TerminalOutcome) (s : EngineState)
      → Ensures (λ _ s'. AllSettled t.id s') (execute_terminal run t i o s)
  unfolding execute_terminal succeed AllSettled
  terminal-settles o s =
      awaits-Ensures (λ _ s'. AllSettled t.id s') (λ _ s'. AllSettled t.id s')
        (on_tasks (succeed t.id) s) _ (set_to t.id (released succeeded) s (λ u. refl))
        (λ _ s1 h1.
          awaits-Ensures (λ _ s'. AllSettled t.id s') (λ _ s'. AllSettled t.id s')
            (update_instance i.id (at_terminal o t.node_key run.now) s1) _
            (instance-settled t.id i.id (at_terminal o t.node_key run.now) s1 h1) (λ _ s2 h2. h2))

  node-settles :
      (n : PlaybookNode) (s : EngineState)
      → n ≢ unknown_node
      → Ensures (λ _ s'. AllSettled t.id s') (execute_node run t i d n s)
  unfolding execute_node
  node-settles (terminal_node o) s k = terminal-settles o s
  node-settles (decision_node n) s k = decision-settles n s
  node-settles (wait_node n) s k = wait-settles n s
  node-settles (agent_task_node n) s k = dispatch-settles (agent_assignment n) s
  node-settles (human_checkpoint_node n) s k = dispatch-settles (human_assignment n) s
  node-settles unknown_node s k = absurd (k refl)

-- the node that the task is executed at, if it can still be resolved
unfoldable pub node_of_task : Task → EngineState → Option PlaybookNode
unfolding find_instance definition_for
node_of_task t s = elim (find_instance t.instance_id s) [
  | none ↦ none
  | some i ↦ elim (node_in (definition_for i.playbook_key i.playbook_version s) t.node_key) [
    | none ↦ none
    | some (d, n) ↦ some n
  ]
]

task-settles :
    (run : Invocation) (t : Task) (s : EngineState)
    → node_of_task t s ≢ some unknown_node
    → Ensures (λ _ s'. AllSettled t.id s') (execute_task run t s)
unfolding execute_task node_of_task
task-settles run t s h = by_instance (find_instance t.instance_id s) h
  where
    by_node :
        (i : WorkflowInstance) (o : Option (PlaybookDefinition × PlaybookNode))
        → (elim o [ none ↦ none | some (d, n) ↦ some n ]) ≢ some unknown_node
        → Ensures
            (λ _ s'. AllSettled t.id s')
            (elim o [
              | none ↦ fails_with run t missing_node s
              | some (d, n) ↦ execute_node run t i d n s
            ])
    by_node i none k =
        with_outcome t.id execution_failed _ (record_failure-settles run t missing_node s)
    by_node i (some (d, n)) k = node-settles run t i d n s (λ e. k (ap some e))

    by_instance :
        (o : Option WorkflowInstance)
        → (elim o [
          | none ↦ none
          | some i ↦
              elim (node_in (definition_for i.playbook_key i.playbook_version s) t.node_key) [
                | none ↦ none
                | some (d, n) ↦ some n
              ]
        ])
          ≢ some unknown_node
        → Ensures
            (λ _ s'. AllSettled t.id s')
            (elim o [
              | none ↦ fails_with run t missing_instance s
              | some i ↦
                  elim (node_in (definition_for i.playbook_key i.playbook_version s) t.node_key) [
                    | none ↦ fails_with run t missing_node s
                    | some (d, n) ↦ execute_node run t i d n s
                  ]
            ])
    by_instance none k =
        with_outcome t.id execution_failed _ (record_failure-settles run t missing_instance s)
    by_instance (some i) k =
        by_node i (node_in (definition_for i.playbook_key i.playbook_version s) t.node_key) k

-- No task is left behind: when the execution of a task at a node of a known kind is over, whatever
-- the node, the outcome or the error, no row of that identifier is running any more.
pub execute_task-settles :
    (run : Invocation) (t : Task) (o : ExecutionOutcome) (s s' : EngineState)
    → node_of_task t s ≢ some unknown_node
    → execute_task run t s ≡ finished o s'
    → All (IsSettled t.id) s'.tasks
unfolding AllSettled
execute_task-settles run t o s s' h e =
    Ensures-finished (λ _ s''. AllSettled t.id s'') (execute_task run t s) (task-settles run t s h)
      e
