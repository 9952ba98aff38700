-- ===== src/Workflow/Tick.antt =====
-- packages/workflow/src/engine.ts: one pass of the worker over the queue.
pub mod Tallied
use burkham_wickmont_operati.Prelude.{
  leb, length, [], Bool, ◌+◌, true, str_append, some, filter, false, ◌∷◌, none, ℕ, Option, suc,
  String, if◌then◌else◌,
}
use burkham_wickmont_operati.Workflow.State.{
  raise, finished, log, rejected, on_tasks, ◌awaits◌, RaiseInput, EngineState, task_lease_reclaimed,
  WorkflowInstance, Ran, find_instance, reminder_raised, sla_breached, Invocation,
}
use burkham_wickmont_operati.Workflow.Playbook.{
  below, whole, WaitNode, PlaybookNode, wait_node, JsonNumber, not_finite,
}
use burkham_wickmont_operati.Workflow.Engine.{
  execute_task, execution_failed, node_in, ExecutionOutcome,
}
use burkham_wickmont_operati.Workflow.Queue.{
  claim, Task, breached_slas, mark_escalated, is_stranded, default_lease_seconds, mark_reminded,
  due_reminders, reclaim_expired_leases, Tasks,
}
use burkham_wickmont_operati.Workflow.Instances.{later, definition_for_instance}

-- `for (const x of xs) await f(x)`, with how many said `true`
abbrev pub count_each : (Task → EngineState → Ran Bool) → Tasks → EngineState → Ran ℕ
count_each f [] s = finished 0 s
count_each f (t ∷ ts) s =
    f t s awaits λ b s1. count_each f ts s1 awaits λ n s2. finished (if b then suc n else n) s2

abbrev pub log_reclaimed : Invocation → Tasks → EngineState → EngineState
log_reclaimed run [] s = s
log_reclaimed run (t ∷ ts) s =
    log_reclaimed run ts
      (log t.tenant_id run none (task_lease_reclaimed t.id t.instance_id t.node_key) s)

-- the rows that are reclaimed, and the state after their events
unfoldable pub reclaim : Invocation → Option ℕ → EngineState → EngineState
unfolding reclaim_expired_leases
reclaim run tenant s =
    log_reclaimed run (filter (is_stranded run.now tenant) s.tasks)
      (record s { tasks = reclaim_expired_leases run.now tenant s.tasks })

abbrev pub sla_notice : Invocation → Task → RaiseInput
sla_notice run t = record {
  tenant_id = t.tenant_id;
  assigned_to = "compliance_and_evidence";
  kind = "sla_breach";
  summary = str_append "Workflow task " (str_append t.node_key " breached its SLA");
  actor = run.actor;
  workflow_task_id = t.id;
  client_id = none;
  sla_due_at = none;
}

unfoldable pub escalate : Invocation → Task → EngineState → Ran Bool
unfolding mark_escalated
escalate run t s = on_tasks (mark_escalated t.id run.now) s awaits λ _ s'. finished true (
    raise (sla_notice run t)
      (log t.tenant_id run none (sla_breached t.id t.instance_id t.node_key t.department) s'))

abbrev pub text_or : String → Option String → String
text_or d none = d
text_or d (some s) = s

-- `sent >= cap`
abbrev pub reaches : ℕ → JsonNumber → Bool
reaches sent (whole cap) = leb cap sent
reaches sent (below n) = true
reaches sent not_finite = false

-- `maxReminders ?? 1`
abbrev pub cap_of : Option JsonNumber → JsonNumber
cap_of none = whole 1
cap_of (some n) = n

abbrev pub reminder_notice : Invocation → Task → WaitNode → RaiseInput
reminder_notice run t n = record {
  tenant_id = t.tenant_id;
  assigned_to = text_or "concierge_desk" n.remind_queue;
  kind = "workflow_reminder";
  summary = text_or (str_append "Chase " t.node_key) n.remind_summary;
  actor = run.actor;
  workflow_task_id = t.id;
  client_id = none;
  sla_due_at = none;
}

abbrev pub mark_next : Task → Option (Option ℕ) → EngineState → Ran Unit
unfolding mark_reminded
mark_next t none s = rejected s
mark_next t (some due) s = on_tasks (mark_reminded t.id due) s

abbrev pub moment_if_valid : Option ℕ → Option (Option ℕ)
moment_if_valid none = none
moment_if_valid (some t) = some (some t)

-- the next due time, `some none` at the cap; `none` is an invalid date
abbrev pub next_reminder : Invocation → ℕ → WaitNode → JsonNumber → Option (Option ℕ)
next_reminder run sent n minutes =
    if reaches sent (cap_of n.max_reminders)
    then some none
    else moment_if_valid (later run.now minutes)

abbrev pub chase :
    Invocation → Task → WorkflowInstance → WaitNode → JsonNumber → EngineState → Ran Bool
chase run t i n minutes s =
    mark_next t (next_reminder run (t.reminders_sent + 1) n minutes) (
      log t.tenant_id run i.client_id
        (reminder_raised i.id t.node_key (t.reminders_sent + 1) (cap_of n.max_reminders)
          n.remind_queue)
        (raise (reminder_notice run t n) s))
    awaits λ _ s'. finished true s'

-- nothing to chase any more: the schedule is cleared
abbrev pub clear_schedule : Task → EngineState → Ran Bool
unfolding mark_reminded
clear_schedule t s = on_tasks (mark_reminded t.id none) s awaits λ _ s'. finished false s'

abbrev pub chase_node : Invocation → Task → WorkflowInstance → PlaybookNode → EngineState → Ran Bool
chase_node run t i (wait_node n) s = elim n.remind_after_minutes [
  | none ↦ clear_schedule t s
  | some minutes ↦ chase run t i n minutes s
]
chase_node run t i _ s = clear_schedule t s

unfoldable pub remind : Invocation → Task → EngineState → Ran Bool
unfolding find_instance definition_for_instance
remind run t s = elim (find_instance t.instance_id s) [
  | none ↦ clear_schedule t s
  | some i ↦ elim (node_in (definition_for_instance i s) t.node_key) [
    | none ↦ clear_schedule t s
    | some (d, n) ↦ chase_node run t i n s
  ]
]

pub record Tally : Type 0 where
  pub advanced : ℕ
  pub parked : ℕ
  pub failed : ℕ

abbrev pub no_tasks : Tally
no_tasks = record { advanced = 0; parked = 0; failed = 0 }

abbrev pub tallied : ExecutionOutcome → Tally → Tally
tallied ExecutionOutcome.advanced n = record n { advanced = suc n.advanced }
tallied ExecutionOutcome.parked n = record n { parked = suc n.parked }
tallied execution_failed n = record n { failed = suc n.failed }

unfoldable pub execute_each : Invocation → Tasks → EngineState → Ran Tally
unfolding execute_task
execute_each run [] s = finished no_tasks s
execute_each run (t ∷ ts) s = execute_task run t s awaits λ o s1.
    execute_each run ts s1 awaits λ n s2. finished (tallied o n) s2

pub record TickOptions : Type 0 where
  pub worker_id : String
  pub batch_size : Option ℕ
  pub tenant_id : Option ℕ
  -- the rows that other transactions hold
  pub locked : ℕ → Bool

pub record TickResult : Type 0 where
  pub reclaimed : ℕ
  pub claimed : ℕ
  pub tally : Tally
  pub escalated : ℕ
  pub reminded : ℕ

abbrev pub batch_or_twenty : Option ℕ → ℕ
batch_or_twenty none = 20
batch_or_twenty (some n) = n

abbrev pub claimed_by : Invocation → TickOptions → EngineState → Tasks × Tasks
unfolding claim
claimed_by run o s =
    claim o.worker_id (batch_or_twenty o.batch_size) run.now default_lease_seconds o.tenant_id
      o.locked s.tasks

unfoldable pub tick : Invocation → TickOptions → EngineState → Ran TickResult
unfolding reclaim escalate remind execute_each breached_slas due_reminders
tick run o s =
    let s0 = reclaim run o.tenant_id s in
    count_each (escalate run) (breached_slas run.now o.tenant_id s0.tasks) s0 awaits λ escalated s1.
    count_each (remind run) (due_reminders run.now o.tenant_id s1.tasks) s1 awaits λ reminded s2.
    let chosen = claimed_by run o s2 in
    execute_each run chosen.1 (record s2 { tasks = chosen.0 }) awaits λ tally s3.
    finished
      (record {
        reclaimed = length (filter (is_stranded run.now o.tenant_id) s.tasks);
        claimed = length chosen.1;
        tally = tally;
        escalated = escalated;
        reminded = reminded;
      })
      s3
