-- ===== src/Tests/EngineRuns.antt =====
-- One instance of a playbook, through its decision, its wait and its failures.
use burkham_wickmont_operati.Workflow.Predicate.{no_fields}
use burkham_wickmont_operati.Prelude.{
  Option, [], true, All, ℕ, any, all, none, ◌∷◌, String, ◌≡◌, some, refl, ◌≢◌,
}
use burkham_wickmont_operati.Clients.{find_client}
use burkham_wickmont_operati.Tests.Playbooks.{ready_decision, onboarding}
use burkham_wickmont_operati.Core.Outcome.{
  threw, not_ok, not_waiting, not_a_wait_node, ok, refused, Outcome,
}
use burkham_wickmont_operati.Core.Events.{ActorKind, EventActor}
use burkham_wickmont_operati.Workflow.Resume.{resolve_event_wait, resumed, find_in_tenant}
use burkham_wickmont_operati.Workflow.State.{
  finished, update_instance, instance_failed, EngineState, WorkflowInstance, instance_running,
  workflow_failed, find_instance, decision_evaluated, PlaybookRow, task_dead_lettered,
  task_succeeded, Invocation, task_failed, playbook_active,
}
use burkham_wickmont_operati.Workflow.Playbook.{decision_node, unknown_node, node_at}
use burkham_wickmont_operati.Workflow.Engine.{
  moved, execute_node, advanced, build_scope, decide, node_in, record_failure, execute_task,
  advance_to, ended, execute_decision,
}
use burkham_wickmont_operati.Workflow.Queue.{
  decision, wait, released, fail_task, enqueued, Task, enqueue, reclaim_expired_leases, succeeded,
  succeed, running, buried, waiting,
}
use burkham_wickmont_operati.Workflow.Instances.{
  definition_for_instance, node_input, definition_for, enqueue_input, enqueue_node,
}
use burkham_wickmont_operati.Workflow.Engine.Edges.{execute_task-walks}
use burkham_wickmont_operati.Workflow.Engine.Settled.{IsSettled}
use burkham_wickmont_operati.Workflow.Engine.Failures.{is_buried, record_failure-last, is_failed_at}
use burkham_wickmont_operati.Workflow.Engine.Executed.{execute_task-settles, node_of_task}
use burkham_wickmont_operati.Workflow.Engine.Walks.{stands_at}
use burkham_wickmont_operati.Workflow.Resume.Waits.{resolve_event_wait-once}
use burkham_wickmont_operati.Workflow.Resume.Stranded.{
  resolve_event_wait-strands, failure_of, is_stuck,
}

abbrev clerk : EventActor
clerk = record { id = 1; kind = ActorKind.human }

abbrev no_date : String → Option ℕ
no_date s = none

abbrev at_ten : Invocation
at_ten = record { actor = clerk; now = 10; parse_date = no_date }

abbrev at_twenty : Invocation
at_twenty = record { actor = clerk; now = 20; parse_date = no_date }

abbrev stored : PlaybookRow
stored = record {
  id = 1;
  key = "onboarding";
  version = 1;
  phase = 0;
  status = playbook_active;
  definition = onboarding;
  published_at = some 0;
}

abbrev under_way : WorkflowInstance
under_way = record {
  id = 2;
  tenant_id = 7;
  client_id = none;
  playbook_key = "onboarding";
  playbook_version = 1;
  status = instance_running;
  current_node_key = some "check";
  context = no_fields;
  started_at = 0;
  completed_at = none;
}

abbrev checking : Task
checking = record (enqueued 3 (enqueue_input 2 7 "check" decision 0) 0) {
  status = running;
  attempts = 3;
  locked_by = some "w";
  lease_expires_at = some 300010;
}

abbrev before_check : EngineState
before_check = record {
  playbooks = stored ∷ [];
  instances = under_way ∷ [];
  tasks = checking ∷ [];
  clients = [];
  legal_names = λ _. "";
  next_id = 4;
  events = [];
  notifications = [];
}

abbrev after_check : EngineState
after_check = record before_check {
  instances = moved "docs" under_way ∷ [];
  tasks = enqueued 4 (enqueue_input 2 7 "docs" wait 10) 10 ∷ released succeeded checking ∷ [];
  next_id = 5;
  events =
      record {
        tenant_id = 7;
        actor = clerk;
        client_id = none;
        event = task_succeeded 2 3 "check" "docs";
      }
      ∷ record {
        tenant_id = 7;
        actor = clerk;
        client_id = none;
        event = decision_evaluated 2 "check" (record { target = "docs"; via_otherwise = true });
      }
      ∷ [];
}

-- the branch is not true of an empty context, so the instance goes to the wait
checked : execute_task at_ten checking before_check ≡ finished advanced after_check
unfolding execute_task find_instance definition_for execute_node execute_decision decide build_scope
    advance_to node_at succeed update_instance enqueue_node node_input enqueue find_client
checked = refl

check_instance : find_instance 2 before_check ≡ some under_way
unfolding find_instance
check_instance = refl

check_node :
    node_in (definition_for "onboarding" 1 before_check) "check"
    ≡ some (onboarding, decision_node ready_decision)
unfolding definition_for node_at
check_node = refl

execute_task-walks_example :
    all (stands_at 2 ("check" ∷ "done" ∷ "docs" ∷ [])) after_check.instances ≡ true
execute_task-walks_example =
    execute_task-walks at_ten checking under_way onboarding (decision_node ready_decision)
      ("done" ∷ "docs" ∷ []) advanced before_check after_check check_instance check_node refl refl
      checked

known_node : node_of_task checking before_check ≢ some unknown_node
unfolding node_of_task find_instance definition_for node_at
known_node e = cc

execute_task-settles_example : All (IsSettled 3) after_check.tasks
execute_task-settles_example =
    execute_task-settles at_ten checking advanced before_check after_check known_node checked

abbrev after_last : EngineState
after_last = record before_check {
  instances = ended instance_failed 10 under_way ∷ [];
  tasks = buried "node not found" checking ∷ [];
  events =
      record {
        tenant_id = 7;
        actor = clerk;
        client_id = none;
        event = workflow_failed 2 "check" "node not found";
      }
      ∷ record { tenant_id = 7; actor = clerk; client_id = none; event = task_dead_lettered 3 2 3 }
      ∷ record {
        tenant_id = 7;
        actor = clerk;
        client_id = none;
        event = task_failed 3 2 "check" "node not found" 3;
      }
      ∷ [];
}

failed_last : record_failure at_ten checking "node not found" before_check ≡ finished tt after_last
unfolding record_failure fail_task update_instance
failed_last = refl

record_failure-last_example :
    (all (is_failed_at 2 10) after_last.instances ≡ true)
    × (all (is_buried 3) after_last.tasks ≡ true)
record_failure-last_example =
    record_failure-last at_ten checking "node not found" before_check after_last refl failed_last

abbrev waiting_task : Task
waiting_task = released waiting (enqueued 4 (enqueue_input 2 7 "docs" wait 10) 10)

abbrev parked_state : EngineState
parked_state = record before_check {
  instances = moved "docs" under_way ∷ [];
  tasks = waiting_task ∷ [];
  next_id = 5;
}

abbrev resumed_state : EngineState
resumed_state = record before_check {
  instances = moved "check" under_way ∷ [];
  tasks =
      enqueued 5 (enqueue_input 2 7 "check" decision 20) 20
      ∷ released succeeded (resumed waiting_task)
      ∷ [];
  next_id = 6;
  events =
      record {
        tenant_id = 7;
        actor = clerk;
        client_id = none;
        event = task_succeeded 2 4 "docs" "check";
      }
      ∷ [];
}

resumed_once :
    resolve_event_wait at_twenty 7 4 parked_state ≡ (ok (moved "check" under_way), resumed_state)
unfolding resolve_event_wait find_in_tenant find_instance definition_for_instance definition_for
    node_at advance_to succeed update_instance enqueue_node node_input enqueue
resumed_once = refl

not_thrown : {i : WorkflowInstance} → Outcome.ok i ≢ not_ok threw
not_thrown e = cc

resolve_event_wait-once_example :
    resolve_event_wait at_twenty 7 4 resumed_state ≡ (refused not_waiting, resumed_state)
resolve_event_wait-once_example =
    resolve_event_wait-once at_twenty at_twenty 7 4 (ok (moved "check" under_way)) parked_state
      resumed_state resumed_once not_thrown

-- the version was rewritten without the wait
abbrev rewritten_state : EngineState
rewritten_state = record parked_state {
  playbooks = record stored { definition = record onboarding { nodes = [] } } ∷ [];
}

waiting_found : find_in_tenant 7 4 rewritten_state.tasks ≡ some waiting_task
unfolding find_in_tenant
waiting_found = refl

waiting_instance : find_instance 2 rewritten_state ≡ some (moved "docs" under_way)
unfolding find_instance
waiting_instance = refl

wait_gone : node_in (definition_for_instance (moved "docs" under_way) rewritten_state) "docs" ≡ none
unfolding definition_for_instance definition_for node_at
wait_gone = refl

resolve_event_wait-strands_example :
    (failure_of (resolve_event_wait at_twenty 7 4 rewritten_state).0 ≡ some not_a_wait_node)
    × (any (is_stuck 4) (
          reclaim_expired_leases 900000 none
            (resolve_event_wait at_twenty 7 4 rewritten_state).1.tasks)
        ≡ true)
resolve_event_wait-strands_example =
    resolve_event_wait-strands at_twenty 7 4 900000 waiting_task (moved "docs" under_way)
      rewritten_state waiting_found refl refl refl waiting_instance wait_gone
