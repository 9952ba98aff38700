-- ===== src/Workflow/State.antt =====
-- The tables and the clock that packages/workflow/src/engine.ts works on. An identifier is the next
-- number; the database gives any fresh one in the source. A ledger event and a notification are
-- what `append` and `raise` are called with, newest first; the errors that the two may end in are
-- not looked at by the engine.
pub mod Ensures
use burkham_wickmont_operati.Prelude.{
  String, find, refl, ◌==◌, if◌then◌else◌, ℕ, none, Bool, update_where, ◌≡◌, ◌∷◌, some, List,
  Option, any,
}
use burkham_wickmont_operati.Clients.{ClientRow}
use burkham_wickmont_operati.Core.Events.{EventActor}
use burkham_wickmont_operati.Workflow.Playbook.{WaitUntil, PlaybookDefinition, JsonNumber}
use burkham_wickmont_operati.Workflow.Queue.{TaskKind, Tasks}
use burkham_wickmont_operati.Workflow.Predicate.{Fields}

pub data InstanceStatus : Type 0 where
  instance_running instance_waiting instance_completed instance_failed : InstanceStatus
  instance_cancelled : InstanceStatus

pub record WorkflowInstance : Type 0 where
  pub id : ℕ
  pub tenant_id : ℕ
  pub client_id : Option ℕ
  pub playbook_key : String
  pub playbook_version : ℕ
  pub status : InstanceStatus
  pub current_node_key : Option String
  pub context : Fields
  pub started_at : ℕ
  pub completed_at : Option ℕ

pub data PlaybookStatus : Type 0 where
  playbook_draft playbook_review playbook_active playbook_retired : PlaybookStatus

pub record PlaybookRow : Type 0 where
  pub id : ℕ
  pub key : String
  pub version : ℕ
  pub phase : ℕ
  pub status : PlaybookStatus
  pub definition : PlaybookDefinition
  pub published_at : Option ℕ

-- what a decision's event says of the branch that was taken
pub record BranchTaken : Type 0 where
  pub target : String
  pub via_otherwise : Bool

-- the events that the engine, the listener and the scheduler append, with their payloads
pub data WorkflowEvent : Type 0 where
  playbook_published : ℕ → String → ℕ → ℕ → ℕ → Bool → WorkflowEvent
  workflow_started : ℕ → String → ℕ → WorkflowEvent
  task_lease_reclaimed : ℕ → ℕ → String → WorkflowEvent
  sla_breached : ℕ → ℕ → String → Option String → WorkflowEvent
  reminder_raised : ℕ → String → ℕ → JsonNumber → Option String → WorkflowEvent
  workflow_completed workflow_cancelled : ℕ → String → WorkflowEvent
  wait_resolved : ℕ → String → WorkflowEvent
  wait_resolved_by_event : ℕ → String → String → ℕ → WorkflowEvent
  wait_deferred : ℕ → String → String → ℕ → WorkflowEvent
  wait_parked : ℕ → String → WaitUntil → Option JsonNumber → WorkflowEvent
  task_dispatched : ℕ → ℕ → String → TaskKind → String → WorkflowEvent
  decision_evaluated : ℕ → String → BranchTaken → WorkflowEvent
  task_succeeded : ℕ → ℕ → String → String → WorkflowEvent
  task_failed : ℕ → ℕ → String → String → ℕ → WorkflowEvent
  task_retry_scheduled : ℕ → ℕ → ℕ → ℕ → WorkflowEvent
  task_dead_lettered : ℕ → ℕ → ℕ → WorkflowEvent
  workflow_failed : ℕ → String → String → WorkflowEvent
  trigger_failed : ℕ → String → WorkflowEvent
  trigger_fired : ℕ → String → String → ℕ → WorkflowEvent
  schedule_late : String → ℕ → ℕ → ℕ → WorkflowEvent
  schedule_failed : String → String → WorkflowEvent
  schedule_fired : String → ℕ → String → ℕ → WorkflowEvent

pub record Logged : Type 0 where
  pub tenant_id : ℕ
  pub actor : EventActor
  pub client_id : Option ℕ
  pub event : WorkflowEvent

pub record RaiseInput : Type 0 where
  pub tenant_id : ℕ
  pub assigned_to : String
  pub kind : String
  pub summary : String
  pub actor : EventActor
  pub workflow_task_id : ℕ
  pub client_id : Option ℕ
  pub sla_due_at : Option ℕ

pub record EngineState : Type 0 where
  pub playbooks : List PlaybookRow
  pub instances : List WorkflowInstance
  pub tasks : Tasks
  pub clients : List ClientRow
  -- the clients' column `legalName`, by identifier
  pub legal_names : ℕ → String
  pub next_id : ℕ
  pub events : List Logged
  pub notifications : List RaiseInput

-- what one call is given: the caller, the clock, and `Date.parse`
pub record Invocation : Type 0 where
  pub actor : EventActor
  pub now : ℕ
  pub parse_date : String → Option ℕ

-- A promise that is fulfilled or rejected, with the tables that it leaves: there is no transaction.
pub data Ran (A : Type 0) : Type 0 where
  finished : A → EngineState → Ran A
  rejected : EngineState → Ran A

-- `await`
infixl 5 ◌awaits◌
abbrev pub ◌awaits◌ : {A B : Type 0} → Ran A → (A → EngineState → Ran B) → Ran B
finished a s awaits f = f a s
rejected s awaits f = rejected s

abbrev pub log : ℕ → Invocation → Option ℕ → WorkflowEvent → EngineState → EngineState
log tenant run client_id e s = record s {
  events =
      record { tenant_id = tenant; actor = run.actor; client_id = client_id; event = e } ∷ s.events;
}

abbrev pub raise : RaiseInput → EngineState → EngineState
raise i s = record s { notifications = i ∷ s.notifications }

abbrev pub tasks_or_reject : Option Tasks → EngineState → Ran Unit
tasks_or_reject none s = rejected s
tasks_or_reject (some ts) s = finished tt (record s { tasks = ts })

-- an operation of the queue
abbrev pub on_tasks : (Tasks → Option Tasks) → EngineState → Ran Unit
on_tasks f s = tasks_or_reject (f s.tasks) s

abbrev pub has_instance : List WorkflowInstance → ℕ → Bool
has_instance is id = any (λ (i : WorkflowInstance). i.id == id) is

-- `workflowInstance.update({ where: { id } })`, which rejects where no row has the identifier
unfoldable pub update_instance : ℕ → (WorkflowInstance → WorkflowInstance) → EngineState → Ran Unit
update_instance id f s =
    if has_instance s.instances id
    then finished tt
        (record s { instances = update_where (λ (i : WorkflowInstance). i.id == id) f s.instances })
    else rejected s

unfoldable pub find_instance : ℕ → EngineState → Option WorkflowInstance
find_instance id s = find (λ (i : WorkflowInstance). i.id == id) s.instances

-- How a call that is fulfilled got there.
pub awaits-finished :
    {A B : Type 0} (m : Ran A) (f : A → EngineState → Ran B) {b : B} {s : EngineState}
    → (m awaits f) ≡ finished b s
    → (a : A) × (s' : EngineState) × (m ≡ finished a s') × (f a s' ≡ finished b s)
awaits-finished (finished a s') f h = (a, s', refl, h)
awaits-finished (rejected s') f h = cc
