-- ===== src/Workflow/Engine/Edges.antt =====
-- Executing a task in packages/workflow/src/engine.ts moves its instance along an edge, or not at all.
use mathlib.Core.Path.{subst}
use mathlib.Core.Option.{some-injective, none-ne-some}
use burkham_wickmont_operati.Prelude.{
  inr, arith, true, eq_refl, leb, none, all, ◌∷◌, ◌≡◌, map, ◌++◌, some, ℕ, includes, String, [],
  inl, refl, Option, List, Bool-cases, &&_split,
}
use burkham_wickmont_operati.Workflow.State.{
  finished, log, rejected, BranchTaken, EngineState, find_instance, Invocation, update_instance,
  wait_resolved, wait_deferred, on_tasks, Ran, WorkflowInstance,
}
use burkham_wickmont_operati.Workflow.Playbook.{
  Branch, DecisionNode, WaitNode, decision_node, TerminalOutcome, outgoing, wait_node,
  human_checkpoint_node, unknown_node, agent_task_node, terminal_node, duration_minutes,
  PlaybookDefinition, JsonNumber, PlaybookNode, at_context_field, WaitUntil, no_moment,
}
use burkham_wickmont_operati.Workflow.Engine.{
  event, execution_failed, ExecutionOutcome, execute_terminal, broken_predicate, Decided,
  human_assignment, decide, advance_to, execute_task, node_in, park_wait, remind_at, parked,
  takes_branch, execute_wait, offset_or_zero, build_scope, execute_node, agent_assignment, dispatch,
  execute_decision, then_outcome, at_terminal, advanced, fails_with, moment_of, defer_or_advance,
  Assignment, record_failure, predicate_throws,
}
use burkham_wickmont_operati.Workflow.Queue.{succeed, defer_until, Task, schedule_reminder, park}
use burkham_wickmont_operati.Workflow.Instances.{later, definition_for}
use burkham_wickmont_operati.Workflow.Predicate.{own_field}
use burkham_wickmont_operati.Workflow.Playbook.Collected.{includes-later, includes-here}
use burkham_wickmont_operati.Workflow.State.Ensures.{awaits-Ensures, Ensures, Ensures-finished}
use burkham_wickmont_operati.Workflow.Engine.Branches.{decide-target}
use burkham_wickmont_operati.Workflow.Engine.Walks.{
  moves, stands_at, AllAt, advance_to-at, record_failure-at, instance-at, on_tasks-at,
}

module _ (run : Invocation) (t : Task) (i : WorkflowInstance) (d : PlaybookDefinition)
    (ts : List String) where
  allowed : List String
  allowed = t.node_key ∷ ts

  Stands : EngineState → Type 0
  unfolding allowed
  Stands s = AllAt i.id allowed s

  edge_allowed : (key : String) → includes ts key ≡ true → includes allowed key ≡ true
  unfolding allowed
  edge_allowed key m = includes-later key t.node_key ts m

  with_outcome-Stands :
      (o : ExecutionOutcome) (m : Ran Unit)
      → Ensures (λ _ s. Stands s) m
      → Ensures (λ _ s. Stands s) (then_outcome o m)
  with_outcome-Stands o m h = awaits-Ensures (λ _ s. Stands s) (λ _ s. Stands s) m _ h (λ _ s k. k)

  fails-Stands :
      (error : String) (s : EngineState)
      → Stands s
      → Ensures (λ _ s'. Stands s') (fails_with run t error s)
  unfolding Stands fails_with record_failure
  fails-Stands error s h =
      with_outcome-Stands execution_failed (record_failure run t error s)
        (record_failure-at i.id allowed run t error s h)

  advances-Stands :
      (key : String) (b : Option BranchTaken) (s : EngineState)
      → includes ts key ≡ true
      → Stands s
      → Ensures (λ _ s'. Stands s') (then_outcome advanced (advance_to run t i d key b s))
  unfolding Stands
  advances-Stands key b s m h =
      with_outcome-Stands advanced (advance_to run t i d key b s)
        (advance_to-at i.id allowed run t i d key b s (edge_allowed key m) h)

  decision-Stands :
      (n : DecisionNode) (s : EngineState)
      → outgoing (decision_node n) ≡ some ts
      → Stands s
      → Ensures (λ _ s'. Stands s') (execute_decision run t i d n s)
  unfolding execute_decision
  decision-Stands n s e h =
      decided (decide (build_scope i s) n.branches n.otherwise)
        (decide-target (build_scope i s) n.branches n.otherwise)
    where
      decided :
          (c : Decided)
          → ((b : BranchTaken)
              → c ≡ takes_branch b
              → includes (map (λ (c' : Branch). c'.next) n.branches ++ n.otherwise ∷ []) b.target
                ≡ true)
          → Ensures
              (λ _ s'. Stands s')
              (elim c [
                | broken_predicate ↦ fails_with run t "decision predicate invalid" s
                | predicate_throws ↦ rejected s
                | takes_branch b ↦ then_outcome advanced (advance_to run t i d b.target (some b) s)
              ])
      decided broken_predicate k = fails-Stands "decision predicate invalid" s h
      decided predicate_throws k = tt
      decided (takes_branch b) k =
          advances-Stands b.target (some b) s
            (subst (λ us. includes us b.target ≡ true) (some-injective _ _ e) (k b refl)) h

  parks-Stands :
      (n : WaitNode) (s : EngineState)
      → Stands s
      → Ensures (λ _ s'. Stands s') (park_wait run t i n s)
  unfolding Stands remind_at park_wait
  parks-Stands n s h =
      moves i.id allowed (on_tasks (park t.id) s) _ (on_tasks-at i.id allowed (park t.id) s h)
        (λ _ s1 h1.
          moves i.id allowed (remind_at run t n.remind_after_minutes s1) _
            (reminded n.remind_after_minutes s1 h1) (λ _ s2 h2. h2))
    where
      scheduled :
          (due : Option ℕ) (s1 : EngineState)
          → AllAt i.id allowed s1
          → Ensures
              (λ _ s'. AllAt i.id allowed s')
              (elim due [ none ↦ rejected s1 | some at ↦ on_tasks (schedule_reminder t.id at) s1 ])
      scheduled none s1 k = tt
      scheduled (some at) s1 k = on_tasks-at i.id allowed (schedule_reminder t.id at) s1 k

      reminded :
          (o : Option JsonNumber) (s1 : EngineState)
          → AllAt i.id allowed s1
          → Ensures (λ _ s'. AllAt i.id allowed s') (remind_at run t o s1)
      reminded none s1 k = k
      reminded (some minutes) s1 k = scheduled (later run.now minutes) s1 k

  wait-Stands :
      (n : WaitNode) (s : EngineState)
      → includes ts n.next ≡ true
      → Stands s
      → Ensures (λ _ s'. Stands s') (execute_wait run t i d n s)
  unfolding execute_wait Stands defer_or_advance
  wait-Stands n s m h = by_moment n.until
    where
      logged : EngineState
      logged = log t.tenant_id run none (wait_resolved i.id t.node_key) s

      deferred :
          (key : String) (o : Option ℕ)
          → Ensures (λ _ s'. Stands s') (defer_or_advance run t i d n key o s)
      deferred key none = tt
      deferred key (some run_at) = elim (Bool-cases (leb run_at run.now)) [
        | inl past ↦ rw past (advances-Stands n.next none logged m h)
        | inr future ↦ rw future (
            moves i.id allowed (on_tasks (defer_until t.id run_at) s)
              (λ _ s'.
                finished parked
                  (log t.tenant_id run none (wait_deferred i.id t.node_key key run_at) s'))
              (on_tasks-at i.id allowed (defer_until t.id run_at) s h) (λ _ s1 k. k))
      ]

      resolved :
          (key : String) (o : Option JsonNumber) (moment : Option ℕ)
          → Ensures
              (λ _ s'. Stands s')
              (elim moment [
                | none ↦ fails_with run t "wait needs a date" s
                | some at ↦ defer_or_advance run t i d n key (later at (offset_or_zero o)) s
              ])
      resolved key o none = fails-Stands "wait needs a date" s h
      resolved key o (some at) = deferred key (later at (offset_or_zero o))

      by_moment :
          (u : WaitUntil)
          → Ensures
              (λ _ s'. Stands s')
              (elim u [
                | at_context_field key offset ↦ elim (moment_of run (own_field i.context key)) [
                  | none ↦ fails_with run t "wait needs a date" s
                  | some moment ↦
                      defer_or_advance run t i d n key (later moment (offset_or_zero offset)) s
                ]
                | duration_minutes minutes ↦
                    then_outcome advanced (advance_to run t i d n.next none logged)
                | event name ↦ park_wait run t i n s
                | no_moment ↦ park_wait run t i n s
              ])
      by_moment (at_context_field key offset) =
          resolved key offset (moment_of run (own_field i.context key))
      by_moment (duration_minutes minutes) = advances-Stands n.next none logged m h
      by_moment (event name) = parks-Stands n s h
      by_moment no_moment = parks-Stands n s h

  dispatch-Stands :
      (a : Assignment) (s : EngineState)
      → Stands s
      → Ensures (λ _ s'. Stands s') (dispatch run t i a s)
  unfolding dispatch Stands
  dispatch-Stands a s h =
      moves i.id allowed (on_tasks (park t.id) s) _ (on_tasks-at i.id allowed (park t.id) s h)
        (λ _ s1 k. k)

  terminal-Stands :
      (o : TerminalOutcome) (s : EngineState)
      → Stands s
      → Ensures (λ _ s'. Stands s') (execute_terminal run t i o s)
  unfolding execute_terminal Stands allowed
  terminal-Stands o s h =
      moves i.id allowed (on_tasks (succeed t.id) s) _ (on_tasks-at i.id allowed (succeed t.id) s h)
        (λ _ s1 h1.
          moves i.id allowed (update_instance i.id (at_terminal o t.node_key run.now) s1) _
            (instance-at i.id allowed i.id (at_terminal o t.node_key run.now) s1
              (λ j _. rw (eq_refl t.node_key) (ground arith)) h1)
            (λ _ s2 h2. h2))

  node-Stands :
      (n : PlaybookNode) (s : EngineState)
      → outgoing n ≡ some ts
      → Stands s
      → Ensures (λ _ s'. Stands s') (execute_node run t i d n s)
  unfolding execute_node
  node-Stands (terminal_node o) s e h = terminal-Stands o s h
  node-Stands (decision_node n) s e h = decision-Stands n s e h
  node-Stands (wait_node n) s e h =
      wait-Stands n s
        (subst (λ us. includes us n.next ≡ true) (some-injective _ _ e) (includes-here n.next [])) h
  node-Stands (agent_task_node n) s e h = dispatch-Stands (agent_assignment n) s h
  node-Stands (human_checkpoint_node n) s e h = dispatch-Stands (human_assignment n) s h
  node-Stands unknown_node s e h = absurd (none-ne-some _ e)

one_of_more :
    (id : ℕ) (key : String) (ts : List String) (is : List WorkflowInstance)
    → all (stands_at id (key ∷ [])) is ≡ true
    → all (stands_at id (key ∷ ts)) is ≡ true
one_of_more id key ts [] h = refl
one_of_more id key ts (i ∷ is) h =
    let (a, b) = &&_split (stands_at id (key ∷ []) i) (all (stands_at id (key ∷ [])) is) h in
    let more : stands_at id (key ∷ ts) i ≡ true = ground arith in
    rw more (one_of_more id key ts is b)

-- The engine refines the graph: executing, to its end, a task whose instance stands at the task's
-- node leaves the instance there, or moves it along one of the edges that the pinned playbook gives
-- that node, whatever the outcome.
pub execute_task-walks :
    (run : Invocation) (t : Task) (i : WorkflowInstance) (d : PlaybookDefinition) (n : PlaybookNode)
    (ts : List String) (o : ExecutionOutcome) (s s' : EngineState)
    → find_instance t.instance_id s ≡ some i
    → node_in (definition_for i.playbook_key i.playbook_version s) t.node_key ≡ some (d, n)
    → outgoing n ≡ some ts
    → all (stands_at i.id (t.node_key ∷ [])) s.instances ≡ true
    → execute_task run t s ≡ finished o s'
    → all (stands_at i.id (t.node_key ∷ ts)) s'.instances ≡ true
unfolding execute_task Stands allowed
execute_task-walks run t i d n ts o s s' there resolved known at_node e =
    Ensures-finished (λ _ s''. Stands run t i d ts s'') (execute_node run t i d n s)
      (node-Stands run t i d ts n s known (one_of_more i.id t.node_key ts s.instances at_node))
      (rw (execute_task, there, resolved) at e)
