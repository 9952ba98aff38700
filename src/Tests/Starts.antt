-- ===== src/Tests/Starts.antt =====
-- Publishing and starting, by hand, by an event and on a schedule.
use burkham_wickmont_operati.Workflow.Predicate.{no_fields}
use burkham_wickmont_operati.Prelude.{
  arith, ◌<◌, [], true, All, ℕ, ◌+◌, none, ◌∷◌, String, ◌≡◌, some, refl,
}
use burkham_wickmont_operati.Tests.Playbooks.{onboarding_valid, onboarding}
use burkham_wickmont_operati.Core.Outcome.{ok}
use burkham_wickmont_operati.Core.Events.{ActorKind}
use burkham_wickmont_operati.Workflow.State.{
  EngineState, WorkflowInstance, PlaybookRow, workflow_started, Invocation, playbook_active,
}
use burkham_wickmont_operati.Workflow.Playbook.{node_at}
use burkham_wickmont_operati.Workflow.Scheduler.{
  SchedulerState, Schedule, fire_schedule, Cron, lost_to_another,
}
use burkham_wickmont_operati.Workflow.Listener.{
  trigger_fired_once, Trigger, fire_trigger, ListenerState, LedgerRow, event_scope,
}
use burkham_wickmont_operati.Workflow.Queue.{decision, enqueued, enqueue}
use burkham_wickmont_operati.Workflow.Instances.{
  PublishInput, StartInput, node_input, publish_playbook, latest_active, enqueue_input,
  new_instance, start_instance, enqueue_node,
}
use burkham_wickmont_operati.Workflow.Scheduler.Once.{fire_schedule-once}
use burkham_wickmont_operati.Workflow.Listener.Firings.{fire_trigger-once, StartsNone}
use burkham_wickmont_operati.Workflow.Instances.Published.{IsValidRow, publish_playbook-valid}
use burkham_wickmont_operati.Workflow.Instances.Latest.{IsLatest, start_instance-IsLatest}

abbrev officer : Invocation
officer = record {
  actor = record { id = 1; kind = ActorKind.human };
  now = 100000;
  parse_date = λ _. none;
}

abbrev later_officer : Invocation
later_officer = record officer { now = 100001 }

abbrev version_row : ℕ → ℕ → PlaybookRow
version_row id version = record {
  id = id;
  key = "onboarding";
  version = version;
  phase = 0;
  status = playbook_active;
  definition = onboarding;
  published_at = some 0;
}

abbrev two_versions : EngineState
two_versions = record {
  playbooks = version_row 1 1 ∷ version_row 2 2 ∷ [];
  instances = [];
  tasks = [];
  clients = [];
  legal_names = λ _. "";
  next_id = 3;
  events = [];
  notifications = [];
}

abbrev third_version : PublishInput
third_version = record {
  key = "onboarding";
  version = 3;
  phase = 0;
  definition = onboarding;
  tenant_id = 7;
}

publish_playbook-valid_example :
    All IsValidRow (publish_playbook officer third_version two_versions).1.playbooks
publish_playbook-valid_example =
    publish_playbook-valid officer third_version two_versions
      (onboarding_valid, (onboarding_valid, tt))

abbrev for_nobody : StartInput
for_nobody = record {
  tenant_id = 7;
  playbook_key = "onboarding";
  client_id = none;
  context = no_fields;
}

abbrev second_started : WorkflowInstance
second_started = new_instance for_nobody (version_row 2 2) 3 100000

abbrev started_state : EngineState
started_state = record two_versions {
  instances = second_started ∷ [];
  tasks = enqueued 4 (enqueue_input 3 7 "check" decision 100000) 100000 ∷ [];
  next_id = 5;
  events =
      record {
        tenant_id = 7;
        actor = officer.actor;
        client_id = none;
        event = workflow_started 3 "onboarding" 2;
      }
      ∷ [];
}

started : start_instance officer for_nobody two_versions ≡ (ok second_started, started_state)
unfolding start_instance latest_active node_at enqueue_node node_input enqueue
started = refl

start_instance-IsLatest_example : IsLatest "onboarding" two_versions.playbooks 2
start_instance-IsLatest_example =
    start_instance-IsLatest officer for_nobody second_started two_versions started_state started

abbrev on_upload : Trigger
on_upload = record {
  id = 8;
  tenant_id = 7;
  event_type = "evidence.uploaded";
  playbook_key = "onboarding";
  condition = none;
  enabled = true;
}

abbrev upload : LedgerRow
upload = record {
  id = 9;
  tenant_id = 7;
  seq = 1;
  type = "evidence.uploaded";
  client_id = none;
  payload = no_fields;
}

abbrev listening : ListenerState
listening = record {
  ledger = upload ∷ [];
  triggers = on_upload ∷ [];
  firings = [];
  cursor = λ _. 0;
  engine = two_versions;
}

upload_fires : (fire_trigger officer on_upload upload listening).0 ≡ trigger_fired_once
unfolding fire_trigger event_scope start_instance latest_active node_at enqueue_node node_input
    enqueue
upload_fires = refl

fire_trigger-once_example :
    StartsNone
      (fire_trigger officer on_upload upload listening).1
      (fire_trigger officer on_upload upload (fire_trigger officer on_upload upload listening).1)
fire_trigger-once_example =
    fire_trigger-once officer officer on_upload upload listening upload_fires

-- every hour
abbrev hourly : Cron
hourly expression zone t = some (t + 3600000)

hourly_strict : (expression zone : String) (t u : ℕ) → hourly expression zone t ≡ some u → t < u
hourly_strict expression zone t u e = ground arith

abbrev brief : Schedule
brief = record {
  id = 11;
  tenant_id = 7;
  key = "brief";
  playbook_key = "onboarding";
  cron_expression = "0 * * * *";
  timezone = "UTC";
  next_run_at = 90000;
  last_run_at = none;
  enabled = true;
}

abbrev scheduled_state : SchedulerState
scheduled_state = record { schedules = brief ∷ []; engine = two_versions }

fire_schedule-once_example :
    fire_schedule later_officer hourly brief (fire_schedule officer hourly brief scheduled_state).1
    ≡ (lost_to_another, (fire_schedule officer hourly brief scheduled_state).1)
fire_schedule-once_example =
    fire_schedule-once hourly officer later_officer brief 3700000 3700001 scheduled_state
      hourly_strict (omega arith) refl refl refl
