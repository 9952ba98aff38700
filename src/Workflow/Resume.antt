-- ===== src/Workflow/Resume.antt =====
-- packages/workflow/src/engine.ts: what resumes a parked task, the arrival of an event or the
-- completion of external work.
pub mod Waits
pub mod Stranded
pub mod Completion
use burkham_wickmont_operati.Prelude.{
  ◌==◌, Bool, ◌&&◌, any, some, find, str_eq, none, ℕ, Option, update_where, String, if◌then◌else◌,
}
use burkham_wickmont_operati.Core.Outcome.{
  threw, not_external, not_a_wait_node, ok, failed, no_data, refused, not_waiting, Outcome,
  instance_gone, node_unresolvable, no_workflow_task, task_vanished, not_ok,
}
use burkham_wickmont_operati.Workflow.State.{
  finished, rejected, ◌awaits◌, EngineState, WorkflowInstance, Ran, find_instance, update_instance,
  Invocation,
}
use burkham_wickmont_operati.Workflow.Playbook.{
  PlaybookDefinition, human_checkpoint_node, PlaybookNode, wait_node, agent_task_node,
}
use burkham_wickmont_operati.Workflow.Engine.{node_in, advance_to}
use burkham_wickmont_operati.Workflow.Queue.{
  human_checkpoint, agent_task, wait, Task, running, is_waiting, TaskKind, Tasks,
}
use burkham_wickmont_operati.Workflow.Instances.{definition_for, definition_for_instance}
use burkham_wickmont_operati.Workflow.Predicate.{no_fields, field, Fields, Value}

-- `findFirst({ where: { id, tenantId } })`
unfoldable pub find_in_tenant : ℕ → ℕ → Tasks → Option Task
find_in_tenant tenant id ts = find (λ t. t.id == id && t.tenant_id == tenant) ts

abbrev pub is_awaiting : ℕ → ℕ → Task → Bool
is_awaiting tenant id t = t.id == id && (t.tenant_id == tenant && is_waiting t.status)

abbrev pub resumed : Task → Task
resumed t = record t { status = running }

-- `instance vanished` cannot be seen here: the tables are read in the state that the advance left
abbrev pub found_again : ℕ → Ran Unit → Outcome WorkflowInstance × EngineState
unfolding find_instance
found_again id (rejected s) = (not_ok threw, s)
found_again id (finished _ s) = elim (find_instance id s) [
  | none ↦ (failed instance_gone, s)
  | some i ↦ (ok i, s)
]

abbrev pub resume_wait :
    Invocation
    → Task
    → WorkflowInstance
    → PlaybookDefinition
    → PlaybookNode
    → EngineState
    → Outcome WorkflowInstance × EngineState
unfolding advance_to
resume_wait run t i d (wait_node n) s =
    found_again i.id (advance_to run (record t { kind = wait }) i d n.next none s)
resume_wait run t i d _ s = (failed not_a_wait_node, s)

-- after the guarded update
abbrev pub resume_task : Invocation → ℕ → ℕ → EngineState → Outcome WorkflowInstance × EngineState
unfolding find_in_tenant find_instance definition_for_instance
resume_task run tenant id s = elim (find_in_tenant tenant id s.tasks) [
  | none ↦ (failed task_vanished, s)
  | some t ↦ elim (find_instance t.instance_id s) [
    | none ↦ (failed instance_gone, s)
    | some i ↦ elim (node_in (definition_for_instance i s) t.node_key) [
      | none ↦ (failed not_a_wait_node, s)
      | some (d, n) ↦ resume_wait run t i d n s
    ]
  ]
]

unfoldable pub resolve_event_wait :
    Invocation → ℕ → ℕ → EngineState → Outcome WorkflowInstance × EngineState
resolve_event_wait run tenant id s =
    if any (is_awaiting tenant id) s.tasks
    then resume_task run tenant id
        (record s { tasks = update_where (is_awaiting tenant id) resumed s.tasks })
    else (refused not_waiting, s)

-- `{ ...context, [name]: v }`
abbrev pub with_field : String → Value → Fields → Fields
with_field name v no_fields = field name v no_fields
with_field name v (field other_name u fs) =
    if str_eq name other_name then field name v fs else field other_name u (with_field name v fs)

-- `{ ...context, ...patch }`
unfoldable pub merge : Fields → Fields → Fields
merge context no_fields = context
merge context (field name v fs) = with_field name v (merge context fs)

abbrev pub external_next : PlaybookNode → Option (TaskKind × String)
external_next (agent_task_node n) = some (agent_task, n.next)
external_next (human_checkpoint_node n) = some (human_checkpoint, n.next)
external_next _ = none

abbrev pub patched : Fields → WorkflowInstance → WorkflowInstance
unfolding merge
patched base i = record i { context = base }

abbrev pub complete_at :
    Invocation
    → Task
    → WorkflowInstance
    → PlaybookDefinition
    → TaskKind × String
    → Fields
    → EngineState
    → Ran Unit
unfolding update_instance merge advance_to
complete_at run t i d (kind, next_key) patch s =
    update_instance i.id (patched (merge i.context patch)) s awaits λ _ s'.
    advance_to run (record t { kind = kind }) i d next_key none s'

abbrev pub complete_node :
    Invocation
    → Task
    → WorkflowInstance
    → PlaybookDefinition
    → PlaybookNode
    → Fields
    → EngineState
    → Outcome WorkflowInstance × EngineState
complete_node run t i d n patch s = elim (external_next n) [
  | none ↦ (failed not_external, s)
  | some to ↦ found_again i.id (complete_at run t i d to patch s)
]

abbrev pub complete_task :
    Invocation → Task → Fields → EngineState → Outcome WorkflowInstance × EngineState
unfolding find_instance definition_for
complete_task run t patch s = elim (find_instance t.instance_id s) [
  | none ↦ (failed instance_gone, s)
  | some i ↦ elim (node_in (definition_for i.playbook_key i.playbook_version s) t.node_key) [
    | none ↦ (failed node_unresolvable, s)
    | some (d, n) ↦ complete_node run t i d n patch s
  ]
]

unfoldable pub complete_external_task :
    Invocation → ℕ → ℕ → Fields → EngineState → Outcome WorkflowInstance × EngineState
unfolding find_in_tenant
complete_external_task run tenant id patch s = elim (find_in_tenant tenant id s.tasks) [
  | none ↦ (no_data no_workflow_task, s)
  | some t ↦ if is_waiting t.status then complete_task run t patch s else (refused not_waiting, s)
]
