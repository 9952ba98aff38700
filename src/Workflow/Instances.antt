-- ===== src/Workflow/Instances.antt =====
-- packages/workflow/src/definition.ts, and the playbooks and instances of
-- packages/workflow/src/engine.ts: publishing, starting and listing.
pub mod Published
pub mod Latest
use burkham_wickmont_operati.Prelude.{
  String, is_some, str_eq, ◌&&◌, true, [], false, find, ◌==◌, ℕ, take, order_by, none, length, min,
  ltb, Bool, ◌-◌, update_where, ◌||◌, ◌*◌, ◌∷◌, ◌+◌, some, List, Option, first_by, suc, filter,
}
use burkham_wickmont_operati.Core.Outcome.{
  threw, start_node_unresolved, Outcome, no_playbook, no_data, invalid_playbook, ok, refused,
  failed, not_ok,
}
use burkham_wickmont_operati.Workflow.State.{
  finished, log, rejected, PlaybookStatus, workflow_started, Ran, PlaybookRow, instance_running,
  InstanceStatus, playbook_published, instance_cancelled, instance_failed, WorkflowInstance,
  instance_completed, instance_waiting, EngineState, playbook_active, ◌awaits◌, Invocation,
}
use burkham_wickmont_operati.Workflow.Playbook.{
  below, issues, whole, decision_node, wait_node, agent_task_node, human_checkpoint_node,
  duration_minutes, WaitUntil, unknown_node, PlaybookDefinition, validate_throws, JsonNumber,
  PlaybookNode, validate_loops, terminal_node, node_at, not_finite, validate,
}
use burkham_wickmont_operati.Workflow.Queue.{
  terminal, wait, decision, human_checkpoint, agent_task, enqueue, TaskKind, EnqueueInput,
}
use burkham_wickmont_operati.Workflow.Predicate.{Fields}

-- `row.key === key && row.version === version`
abbrev pub is_version : String → ℕ → PlaybookRow → Bool
is_version key version row = str_eq row.key key && row.version == version

abbrev pub definition_of : Option PlaybookRow → Option PlaybookDefinition
definition_of none = none
definition_of (some row) = some row.definition

unfoldable pub definition_for : String → ℕ → EngineState → Option PlaybookDefinition
definition_for key version s = definition_of (find (is_version key version) s.playbooks)

unfoldable pub definition_for_instance : WorkflowInstance → EngineState → Option PlaybookDefinition
unfolding definition_for
definition_for_instance i s = definition_for i.playbook_key i.playbook_version s

abbrev pub is_active_playbook : PlaybookStatus → Bool
is_active_playbook playbook_active = true
is_active_playbook _ = false

-- `orderBy: [{ version: 'desc' }, { id: 'asc' }]`
abbrev pub later_version : PlaybookRow → PlaybookRow → Bool
later_version a b = ltb b.version a.version || (a.version == b.version && ltb a.id b.id)

abbrev pub is_active_under : String → PlaybookRow → Bool
is_active_under key row = str_eq row.key key && is_active_playbook row.status

unfoldable pub latest_active : String → EngineState → Option PlaybookRow
latest_active key s = first_by later_version (filter (is_active_under key) s.playbooks)

pub record PublishInput : Type 0 where
  pub key : String
  pub version : ℕ
  pub phase : ℕ
  pub definition : PlaybookDefinition
  pub tenant_id : ℕ

abbrev pub republished : PublishInput → ℕ → PlaybookRow → PlaybookRow
republished i now row = record row {
  phase = i.phase;
  status = playbook_active;
  definition = i.definition;
  published_at = some now;
}

abbrev pub published_row : PublishInput → ℕ → ℕ → PlaybookRow
published_row i fresh now = record {
  id = fresh;
  key = i.key;
  version = i.version;
  phase = i.phase;
  status = playbook_active;
  definition = i.definition;
  published_at = some now;
}

-- `playbook.upsert`, after the look-up that says which of the two it does
abbrev pub upsert_playbook : Option PlaybookRow → PublishInput → ℕ → EngineState → EngineState
upsert_playbook none i now s = record s {
  playbooks = published_row i s.next_id now ∷ s.playbooks;
  next_id = suc s.next_id;
}
upsert_playbook (some row) i now s = record s {
  playbooks = update_where (is_version i.key i.version) (republished i now) s.playbooks;
}

abbrev pub row_id : Option PlaybookRow → EngineState → ℕ
row_id none s = s.next_id
row_id (some row) s = row.id

abbrev pub write_playbook : Invocation → PublishInput → EngineState → Outcome ℕ × EngineState
write_playbook run i s =
    let existing = find (is_version i.key i.version) s.playbooks in
    (
      ok (row_id existing s),
      log i.tenant_id run none
          (playbook_published (row_id existing s) i.key i.version i.phase
            (length i.definition.nodes) (is_some existing))
          (upsert_playbook existing i run.now s),
    )

unfoldable pub publish_playbook : Invocation → PublishInput → EngineState → Outcome ℕ × EngineState
unfolding validate
publish_playbook run i s = elim (validate i.definition) [
  | issues [] ↦ write_playbook run i s
  | issues (_ ∷ _) ↦ (refused invalid_playbook, s)
  | validate_throws ↦ (not_ok threw, s)
  | validate_loops ↦ (not_ok threw, s)
]

-- `new Date(now + minutes * 60_000)`; `none` is an invalid date, which the database rejects
abbrev pub later : ℕ → JsonNumber → Option ℕ
later now (whole n) = some (now + n * 60000)
later now (below n) = some (now - n * 60000)
later now not_finite = none

abbrev pub kind_of : PlaybookNode → Option TaskKind
kind_of (agent_task_node n) = some agent_task
kind_of (human_checkpoint_node n) = some human_checkpoint
kind_of (decision_node n) = some decision
kind_of (wait_node n) = some wait
kind_of (terminal_node o) = some terminal
kind_of unknown_node = none

abbrev pub sla_due : ℕ → Option ℕ → Option ℕ
sla_due now none = none
sla_due now (some minutes) = some (now + minutes * 60000)

abbrev pub wait_run_at : ℕ → WaitUntil → Option ℕ
wait_run_at now (duration_minutes n) = later now n
wait_run_at now _ = some now

abbrev pub enqueue_input : ℕ → ℕ → String → TaskKind → ℕ → EnqueueInput
enqueue_input instance_id tenant key kind run_at = record {
  tenant_id = tenant;
  instance_id = instance_id;
  node_key = key;
  kind = kind;
  department = none;
  priority = none;
  run_at = some run_at;
  max_attempts = none;
  backoff_seconds = none;
  sla_due_at = none;
}

abbrev pub at_moment : (ℕ → EnqueueInput) → Option ℕ → Option EnqueueInput
at_moment f none = none
at_moment f (some t) = some (f t)

-- the queue's input for a node; `none` where the database rejects it
unfoldable pub node_input : ℕ → ℕ → String → PlaybookNode → ℕ → Option EnqueueInput
node_input instance_id tenant key (agent_task_node n) now =
    some (record (enqueue_input instance_id tenant key agent_task now) {
      department = some n.department;
      max_attempts = n.max_attempts;
      backoff_seconds = n.backoff_seconds;
      sla_due_at = sla_due now n.sla_minutes;
    })
node_input instance_id tenant key (human_checkpoint_node n) now =
    some (record (enqueue_input instance_id tenant key human_checkpoint now) {
      sla_due_at = sla_due now n.sla_minutes;
    })
node_input instance_id tenant key (decision_node n) now =
    some (enqueue_input instance_id tenant key decision now)
node_input instance_id tenant key (wait_node n) now =
    at_moment (enqueue_input instance_id tenant key wait) (wait_run_at now n.until)
node_input instance_id tenant key (terminal_node o) now =
    some (enqueue_input instance_id tenant key terminal now)
node_input instance_id tenant key unknown_node now = none

abbrev pub enqueue_or_reject : Option EnqueueInput → ℕ → EngineState → Ran Unit
unfolding enqueue
enqueue_or_reject none now s = rejected s
enqueue_or_reject (some i) now s =
    finished tt (record s { tasks = enqueue s.next_id i now s.tasks; next_id = suc s.next_id })

unfoldable pub enqueue_node : ℕ → ℕ → String → PlaybookNode → ℕ → EngineState → Ran Unit
unfolding node_input
enqueue_node instance_id tenant key n now s =
    enqueue_or_reject (node_input instance_id tenant key n now) now s

pub record StartInput : Type 0 where
  pub tenant_id : ℕ
  pub playbook_key : String
  pub client_id : Option ℕ
  pub context : Fields

abbrev pub new_instance : StartInput → PlaybookRow → ℕ → ℕ → WorkflowInstance
new_instance i row fresh now = record {
  id = fresh;
  tenant_id = i.tenant_id;
  client_id = i.client_id;
  playbook_key = i.playbook_key;
  playbook_version = row.version;
  status = instance_running;
  current_node_key = some row.definition.start_node;
  context = i.context;
  started_at = now;
  completed_at = none;
}

abbrev pub start_at :
    Invocation → StartInput → PlaybookRow → PlaybookNode → EngineState → Ran WorkflowInstance
unfolding enqueue_node
start_at run i row n s =
    let created = new_instance i row s.next_id run.now in
    enqueue_node created.id i.tenant_id row.definition.start_node n run.now
      (record s { instances = created ∷ s.instances; next_id = suc s.next_id })
    awaits λ _ s'. finished created (
        log i.tenant_id run i.client_id (workflow_started created.id i.playbook_key row.version) s')

abbrev pub outcome_of : {A : Type 0} → Ran A → Outcome A × EngineState
outcome_of (finished a s) = (ok a, s)
outcome_of (rejected s) = (not_ok threw, s)

-- `start` of the engine
unfoldable pub start_instance :
    Invocation → StartInput → EngineState → Outcome WorkflowInstance × EngineState
unfolding latest_active node_at
start_instance run i s = elim (latest_active i.playbook_key s) [
  | none ↦ (no_data no_playbook, s)
  | some row ↦ elim (node_at row.definition.nodes row.definition.start_node) [
    | none ↦ (failed start_node_unresolved, s)
    | some n ↦ outcome_of (start_at run i row n s)
  ]
]

pub record InstanceFilter : Type 0 where
  pub status : Option InstanceStatus
  pub client_id : Option ℕ
  pub playbook_key : Option String
  pub limit : Option ℕ

abbrev pub same_status : InstanceStatus → InstanceStatus → Bool
same_status instance_running instance_running = true
same_status instance_waiting instance_waiting = true
same_status instance_completed instance_completed = true
same_status instance_failed instance_failed = true
same_status instance_cancelled instance_cancelled = true
same_status _ _ = false

-- a condition that is left out holds of every row
abbrev pub if_given {ℓ} : {A : Type ℓ} → Option A → (A → Bool) → Bool
if_given none p = true
if_given (some a) p = p a

abbrev pub is_client : Option ℕ → ℕ → Bool
is_client none id = false
is_client (some c) id = c == id

abbrev pub is_listed : ℕ → InstanceFilter → WorkflowInstance → Bool
is_listed tenant f i =
    i.tenant_id == tenant
    && (if_given f.status (same_status i.status)
        && (if_given f.client_id (is_client i.client_id)
            && if_given f.playbook_key (str_eq i.playbook_key)))

-- `orderBy: [{ startedAt: 'desc' }, { id: 'asc' }]`
abbrev pub newer_instance : WorkflowInstance → WorkflowInstance → Bool
newer_instance a b =
    ltb b.started_at a.started_at || (a.started_at == b.started_at && ltb a.id b.id)

abbrev pub page_size : Option ℕ → ℕ
page_size none = 50
page_size (some n) = min n 200

unfoldable pub instances_for : ℕ → InstanceFilter → EngineState → List WorkflowInstance
instances_for tenant f s =
    take (page_size f.limit) (order_by newer_instance (filter (is_listed tenant f) s.instances))
