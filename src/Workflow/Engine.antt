-- ===== src/Workflow/Engine.antt =====
-- packages/workflow/src/engine.ts: what executing one claimed task does. The text of an error is its
-- fixed part.
pub mod Branches
pub mod Walks
pub mod Edges
pub mod Settled
pub mod Executed
pub mod Failures
pub mod Kept
use burkham_wickmont_operati.Prelude.{
  false, ◌∷◌, none, true, ℕ, [], if◌then◌else◌, List, some, String, leb, Option,
}
use burkham_wickmont_operati.Clients.{Client, find_client}
use burkham_wickmont_operati.Core.Compliance.{state_name}
use burkham_wickmont_operati.Core.Outcome.{not_ok, Outcome, ok}
use burkham_wickmont_operati.Workflow.State.{
  raise, finished, log, rejected, InstanceStatus, task_succeeded, find_instance, Ran, on_tasks,
  WorkflowInstance, update_instance, EngineState, Invocation, instance_waiting, task_dead_lettered,
  wait_resolved, decision_evaluated, instance_running, ◌awaits◌, workflow_cancelled, WorkflowEvent,
  BranchTaken, task_retry_scheduled, task_failed, instance_completed, instance_cancelled,
  instance_failed, workflow_completed, workflow_failed, task_dispatched, wait_parked, wait_deferred,
}
use burkham_wickmont_operati.Workflow.Playbook.{
  event, whole, at_context_field, DecisionNode, AgentTaskNode, TerminalOutcome, agent_task_node,
  unknown_node, JsonNumber, decision_node, PlaybookNode, duration_minutes, WaitNode, node_at,
  no_moment, ends_completed, wait_node, terminal_node, HumanCheckpointNode, human_checkpoint_node,
  Branch, PlaybookDefinition, ends_cancelled,
}
use burkham_wickmont_operati.Workflow.Queue.{
  agent_task, human_checkpoint, dead_lettered, FailureDisposition, succeed, Task, TaskKind, Tasks,
  retry_scheduled, fail_task, park, defer_until, schedule_reminder,
}
use burkham_wickmont_operati.Workflow.Instances.{later, enqueue_node, definition_for}
use burkham_wickmont_operati.Workflow.Predicate.{
  no_fields, number, date, field, object, text, undefined_value, valid, EvaluationScope,
  value_found, Value, Resolved, invalid, throws, own_field, evaluate,
}

abbrev pub missing_instance : String
missing_instance = "instance no longer exists"

abbrev pub missing_node : String
missing_node = "node not found"

-- `data: { status, completedAt: now }`
abbrev pub ended : InstanceStatus → ℕ → WorkflowInstance → WorkflowInstance
ended status now i = record i { status = status; completed_at = some now }

abbrev pub after_failure : Invocation → Task → String → FailureDisposition → EngineState → Ran Unit
unfolding update_instance
after_failure run t error (retry_scheduled next_run_at attempt) s =
    finished tt
      (log t.tenant_id run none (task_retry_scheduled t.id t.instance_id attempt next_run_at) s)
after_failure run t error (dead_lettered attempts) s =
    update_instance t.instance_id (ended instance_failed run.now)
      (log t.tenant_id run none (task_dead_lettered t.id t.instance_id attempts) s)
    awaits λ _ s'.
        finished tt (log t.tenant_id run none (workflow_failed t.instance_id t.node_key error) s')

abbrev pub failure_written :
    Option (Tasks × FailureDisposition) → EngineState → Ran FailureDisposition
failure_written none s = rejected s
failure_written (some (ts, r)) s = finished r (record s { tasks = ts })

unfoldable pub record_failure : Invocation → Task → String → EngineState → Ran Unit
unfolding fail_task
record_failure run t error s = failure_written (fail_task t error run.now s.tasks) s awaits λ r s'.
    after_failure run t error r
      (log t.tenant_id run none (task_failed t.id t.instance_id t.node_key error t.attempts) s')

abbrev pub moved : String → WorkflowInstance → WorkflowInstance
moved key i = record i { status = instance_running; current_node_key = some key }

abbrev pub log_decision :
    Option BranchTaken → Invocation → Task → WorkflowInstance → EngineState → EngineState
log_decision none run t i s = s
log_decision (some b) run t i s =
    log t.tenant_id run i.client_id (decision_evaluated i.id t.node_key b) s

abbrev pub advance_along :
    Invocation
    → Task
    → WorkflowInstance
    → String
    → PlaybookNode
    → Option BranchTaken
    → EngineState
    → Ran Unit
unfolding succeed update_instance enqueue_node
advance_along run t i next_key n taken s = on_tasks (succeed t.id) s awaits λ _ s1.
    update_instance i.id (moved next_key) s1 awaits λ _ s2.
    enqueue_node i.id t.tenant_id next_key n run.now s2 awaits λ _ s3. finished tt (
      log t.tenant_id run none (task_succeeded i.id t.id t.node_key next_key)
        (log_decision taken run t i s3))

unfoldable pub advance_to :
    Invocation
    → Task
    → WorkflowInstance
    → PlaybookDefinition
    → String
    → Option BranchTaken
    → EngineState
    → Ran Unit
unfolding node_at record_failure
advance_to run t i d next_key taken s = elim (node_at d.nodes next_key) [
  | none ↦ record_failure run t "next node not found" s
  | some n ↦ advance_along run t i next_key n taken s
]

abbrev pub instance_status_name : InstanceStatus → String
instance_status_name instance_running = "running"
instance_status_name instance_waiting = "waiting"
instance_status_name instance_completed = "completed"
instance_status_name instance_failed = "failed"
instance_status_name instance_cancelled = "cancelled"

abbrev pub client_facts : (ℕ → String) → Outcome Client → Value
client_facts names (ok c) = object (
    field "id" (number c.id) (
      field "legalName" (text (names c.id))
        (field "complianceState" (text (state_name c.compliance_state)) no_fields)))
client_facts names (not_ok x) = undefined_value

abbrev pub client_scope : ℕ → Option ℕ → EngineState → Value
unfolding find_client
client_scope tenant none s = undefined_value
client_scope tenant (some id) s = client_facts s.legal_names (find_client s.clients tenant id)

unfoldable pub build_scope : WorkflowInstance → EngineState → EvaluationScope
build_scope i s = record {
  client = client_scope i.tenant_id i.client_id s;
  context = object i.context;
  instance_ = object (
      field "playbookKey" (text i.playbook_key) (
        field "playbookVersion" (number i.playbook_version)
          (field "status" (text (instance_status_name i.status)) no_fields)));
}

pub data Decided : Type 0 where
  takes_branch : BranchTaken → Decided
  broken_predicate : Decided
  predicate_throws : Decided

-- the loop over the branches
unfoldable pub decide : EvaluationScope → List Branch → String → Decided
decide scope [] otherwise = takes_branch (record { target = otherwise; via_otherwise = true })
decide scope (b ∷ bs) otherwise =
    let rest = decide scope bs otherwise in
    elim (evaluate scope b.condition) [
      | invalid p ↦ broken_predicate
      | throws ↦ predicate_throws
      | valid true ↦ takes_branch (record { target = b.next; via_otherwise = false })
      | valid false ↦ rest
    ]

pub data ExecutionOutcome : Type 0 where
  advanced parked execution_failed : ExecutionOutcome

abbrev pub then_outcome : ExecutionOutcome → Ran Unit → Ran ExecutionOutcome
then_outcome o m = m awaits λ _ s. finished o s

abbrev pub fails_with : Invocation → Task → String → EngineState → Ran ExecutionOutcome
unfolding record_failure
fails_with run t error s = then_outcome execution_failed (record_failure run t error s)

abbrev pub outcome_status : TerminalOutcome → InstanceStatus
outcome_status ends_completed = instance_completed
outcome_status ends_cancelled = instance_cancelled

abbrev pub outcome_event : TerminalOutcome → ℕ → String → WorkflowEvent
outcome_event ends_completed = workflow_completed
outcome_event ends_cancelled = workflow_cancelled

abbrev pub at_terminal : TerminalOutcome → String → ℕ → WorkflowInstance → WorkflowInstance
at_terminal o key now i = record (ended (outcome_status o) now i) { current_node_key = some key }

unfoldable pub execute_terminal :
    Invocation → Task → WorkflowInstance → TerminalOutcome → EngineState → Ran ExecutionOutcome
unfolding succeed update_instance
execute_terminal run t i o s = on_tasks (succeed t.id) s awaits λ _ s1.
    update_instance i.id (at_terminal o t.node_key run.now) s1 awaits λ _ s2.
    finished advanced (log t.tenant_id run i.client_id (outcome_event o i.id t.node_key) s2)

unfoldable pub execute_decision :
    Invocation
    → Task
    → WorkflowInstance
    → PlaybookDefinition
    → DecisionNode
    → EngineState
    → Ran ExecutionOutcome
unfolding decide build_scope advance_to
execute_decision run t i d n s = elim (decide (build_scope i s) n.branches n.otherwise) [
  | broken_predicate ↦ fails_with run t "decision predicate invalid" s
  | predicate_throws ↦ rejected s
  | takes_branch b ↦ then_outcome advanced (advance_to run t i d b.target (some b) s)
]

-- `new Date(raw)` of a text or a date; the context is JSON
abbrev pub moment_of : Invocation → Resolved → Option ℕ
moment_of run (value_found (text s)) = run.parse_date s
moment_of run (value_found (date t)) = some t
moment_of run _ = none

-- `offsetMinutes ?? 0`
abbrev pub offset_or_zero : Option JsonNumber → JsonNumber
offset_or_zero none = whole 0
offset_or_zero (some n) = n

abbrev pub defer_or_advance :
    Invocation
    → Task
    → WorkflowInstance
    → PlaybookDefinition
    → WaitNode
    → String
    → Option ℕ
    → EngineState
    → Ran ExecutionOutcome
unfolding advance_to defer_until
defer_or_advance run t i d n key none s = rejected s
defer_or_advance run t i d n key (some run_at) s =
    if leb run_at run.now
    then then_outcome advanced (
        advance_to run t i d n.next none
          (log t.tenant_id run none (wait_resolved i.id t.node_key) s))
    else (on_tasks (defer_until t.id run_at) s awaits λ _ s'.
        finished parked (log t.tenant_id run none (wait_deferred i.id t.node_key key run_at) s'))

abbrev pub remind_at : Invocation → Task → Option JsonNumber → EngineState → Ran Unit
unfolding schedule_reminder
remind_at run t none s = finished tt s
remind_at run t (some minutes) s = elim (later run.now minutes) [
  | none ↦ rejected s
  | some due ↦ on_tasks (schedule_reminder t.id due) s
]

abbrev pub park_wait :
    Invocation → Task → WorkflowInstance → WaitNode → EngineState → Ran ExecutionOutcome
unfolding park
park_wait run t i n s = on_tasks (park t.id) s awaits λ _ s1.
    remind_at run t n.remind_after_minutes s1 awaits λ _ s2.
    finished parked
      (log t.tenant_id run none (wait_parked i.id t.node_key n.until n.remind_after_minutes) s2)

unfoldable pub execute_wait :
    Invocation
    → Task
    → WorkflowInstance
    → PlaybookDefinition
    → WaitNode
    → EngineState
    → Ran ExecutionOutcome
unfolding advance_to
execute_wait run t i d n s = elim n.until [
  | at_context_field key offset ↦ elim (moment_of run (own_field i.context key)) [
    | none ↦ fails_with run t "wait needs a date" s
    | some moment ↦ defer_or_advance run t i d n key (later moment (offset_or_zero offset)) s
  ]
  | duration_minutes minutes ↦ then_outcome advanced (
      advance_to run t i d n.next none (log t.tenant_id run none (wait_resolved i.id t.node_key) s))
  | event name ↦ park_wait run t i n s
  | no_moment ↦ park_wait run t i n s
]

-- where an agent task or a human checkpoint is sent, under what name
pub record Assignment : Type 0 where
  pub assigned_to : String
  pub kind : TaskKind
  pub kind_name : String
  pub summary : String

abbrev pub agent_assignment : AgentTaskNode → Assignment
agent_assignment n = record {
  assigned_to = n.department;
  kind = agent_task;
  kind_name = "agent_task";
  summary = n.action;
}

abbrev pub human_assignment : HumanCheckpointNode → Assignment
human_assignment n = record {
  assigned_to = n.queue;
  kind = human_checkpoint;
  kind_name = "human_checkpoint";
  summary = n.summary;
}

unfoldable pub dispatch :
    Invocation → Task → WorkflowInstance → Assignment → EngineState → Ran ExecutionOutcome
unfolding park
dispatch run t i a s = on_tasks (park t.id) s awaits λ _ s'. finished parked (
    log t.tenant_id run i.client_id (task_dispatched i.id t.id t.node_key a.kind a.assigned_to) (
      raise
        (record {
          tenant_id = t.tenant_id;
          assigned_to = a.assigned_to;
          kind = a.kind_name;
          summary = a.summary;
          actor = run.actor;
          workflow_task_id = t.id;
          client_id = i.client_id;
          sla_due_at = t.sla_due_at;
        })
        s'))

-- the `switch` over the kinds; a node of no kind leaves it without a value or an effect, which the
-- tick counts as a failure
unfoldable pub execute_node :
    Invocation
    → Task
    → WorkflowInstance
    → PlaybookDefinition
    → PlaybookNode
    → EngineState
    → Ran ExecutionOutcome
unfolding execute_terminal execute_decision execute_wait dispatch
execute_node run t i d (terminal_node o) s = execute_terminal run t i o s
execute_node run t i d (decision_node n) s = execute_decision run t i d n s
execute_node run t i d (wait_node n) s = execute_wait run t i d n s
execute_node run t i d (agent_task_node n) s = dispatch run t i (agent_assignment n) s
execute_node run t i d (human_checkpoint_node n) s = dispatch run t i (human_assignment n) s
execute_node run t i d unknown_node s = finished execution_failed s

-- `definition?.nodes[key]`, with the definition that it is read from
abbrev pub node_in : Option PlaybookDefinition → String → Option (PlaybookDefinition × PlaybookNode)
unfolding node_at
node_in none key = none
node_in (some d) key = elim (node_at d.nodes key) [ none ↦ none | some n ↦ some (d, n) ]

unfoldable pub execute_task : Invocation → Task → EngineState → Ran ExecutionOutcome
unfolding find_instance definition_for execute_node
execute_task run t s = elim (find_instance t.instance_id s) [
  | none ↦ fails_with run t missing_instance s
  | some i ↦ elim (node_in (definition_for i.playbook_key i.playbook_version s) t.node_key) [
    | none ↦ fails_with run t missing_node s
    | some (d, n) ↦ execute_node run t i d n s
  ]
]
