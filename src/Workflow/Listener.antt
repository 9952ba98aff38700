-- ===== src/Workflow/Listener.antt =====
-- packages/workflow/src/listener.ts: what an event of the Ledger wakes and starts. The Ledger's rows
-- are those that `read` gives, in the order of their sequence numbers; what a pass appends comes
-- after them, with the next pass.
pub mod Firings
use burkham_wickmont_operati.Prelude.{
  if◌then◌else◌, ◌&&◌, some, any, true, max, Bool, false, List, ℕ, ◌==◌, none, update_where, String,
  ◌∷◌, Option, suc, find, [], filter, str_eq,
}
use burkham_wickmont_operati.Core.Outcome.{ok, not_ok, NotOk, self_triggering, Outcome, refused}
use burkham_wickmont_operati.Workflow.Resume.{resolve_event_wait, with_field}
use burkham_wickmont_operati.Workflow.State.{
  finished, rejected, log, Invocation, WorkflowInstance, wait_resolved_by_event, EngineState,
  trigger_failed, Ran, find_instance, trigger_fired,
}
use burkham_wickmont_operati.Workflow.Tick.{count_each}
use burkham_wickmont_operati.Workflow.Playbook.{event, wait_node, PlaybookNode}
use burkham_wickmont_operati.Workflow.Engine.{client_scope, node_in}
use burkham_wickmont_operati.Workflow.Queue.{wait, is_waiting, TaskKind, Task}
use burkham_wickmont_operati.Workflow.Instances.{
  start_instance, definition_for_instance, StartInput,
}
use burkham_wickmont_operati.Workflow.Predicate.{
  field, no_fields, text, number, object, valid, invalid, throws, EvaluationScope, Predicate,
  Fields, evaluate, EvaluationResult,
}

pub record LedgerRow : Type 0 where
  pub id : ℕ
  pub tenant_id : ℕ
  pub seq : ℕ
  pub type : String
  pub client_id : Option ℕ
  pub payload : Fields

pub record Trigger : Type 0 where
  pub id : ℕ
  pub tenant_id : ℕ
  pub event_type : String
  pub playbook_key : String
  pub condition : Option Predicate
  pub enabled : Bool

-- a row of `workflowTriggerFiring`, unique in the first two columns
pub record Firing : Type 0 where
  pub trigger_id : ℕ
  pub ledger_event_id : ℕ
  pub instance_id : Option ℕ

pub record ListenerState : Type 0 where
  pub ledger : List LedgerRow
  pub triggers : List Trigger
  pub firings : List Firing
  -- the last sequence number that was handled, by tenant
  pub cursor : ℕ → ℕ
  pub engine : EngineState

pub record TriggerInput : Type 0 where
  pub tenant_id : ℕ
  pub event_type : String
  pub playbook_key : String
  pub condition : Option Predicate

abbrev pub is_trigger : TriggerInput → Trigger → Bool
is_trigger i row =
    row.tenant_id == i.tenant_id
    && (str_eq row.event_type i.event_type && str_eq row.playbook_key i.playbook_key)

abbrev pub new_trigger : TriggerInput → ℕ → Trigger
new_trigger i fresh = record {
  id = fresh;
  tenant_id = i.tenant_id;
  event_type = i.event_type;
  playbook_key = i.playbook_key;
  condition = i.condition;
  enabled = true;
}

abbrev pub retriggered : TriggerInput → Trigger → Trigger
retriggered i row = record row { condition = i.condition; enabled = true }

abbrev pub write_trigger : Option Trigger → TriggerInput → ListenerState → Trigger × ListenerState
write_trigger none i s =
    let row = new_trigger i s.engine.next_id in
    (
      row,
      record s {
        triggers = row ∷ s.triggers;
        engine = record s.engine { next_id = suc s.engine.next_id };
      },
    )
write_trigger (some old) i s = (
  retriggered i old,
  record s { triggers = update_where (is_trigger i) (retriggered i) s.triggers },
)

unfoldable pub upsert_trigger : TriggerInput → ListenerState → Trigger × ListenerState
upsert_trigger i s = write_trigger (find (is_trigger i) s.triggers) i s

unfoldable pub set_trigger_enabled : ℕ → Bool → ListenerState → Option ListenerState
set_trigger_enabled id b s =
    if any (λ (t : Trigger). t.id == id) s.triggers
    then some (record s {
      triggers =
          update_where (λ (t : Trigger). t.id == id) (λ t. record t { enabled = b }) s.triggers;
    })
    else none

-- the highest sequence number of the tenant, or 0
abbrev pub tail_seq : ℕ → List LedgerRow → ℕ
tail_seq tenant [] = 0
tail_seq tenant (r ∷ rows) = max (if r.tenant_id == tenant then r.seq else 0) (tail_seq tenant rows)

abbrev pub write_cursor : ℕ → ℕ → ListenerState → ListenerState
write_cursor tenant seq s = record s { cursor = λ u. if u == tenant then seq else s.cursor u }

unfoldable pub seek_to_latest : ℕ → ListenerState → ℕ × ListenerState
seek_to_latest tenant s = let seq = tail_seq tenant s.ledger in (seq, write_cursor tenant seq s)

-- the wait of an instance with a client is only for an event about that client
abbrev pub concerns : Option ℕ → Option ℕ → Bool
concerns none e = true
concerns (some c) none = false
concerns (some c) (some e) = c == e

abbrev pub awaits_event : PlaybookNode → String → Bool
awaits_event (wait_node n) type = elim n.until [ event name ↦ str_eq name type | _ ↦ false ]
awaits_event _ type = false

abbrev pub is_wait_kind : TaskKind → Bool
is_wait_kind wait = true
is_wait_kind _ = false

abbrev pub is_parked_wait : ℕ → Task → Bool
is_parked_wait tenant t = t.tenant_id == tenant && (is_wait_kind t.kind && is_waiting t.status)

abbrev pub log_resolved :
    Invocation → LedgerRow → Task → WorkflowInstance → EngineState → EngineState
log_resolved run e t i s =
    log e.tenant_id run i.client_id (wait_resolved_by_event i.id t.node_key e.type e.id) s

-- a resumed wait is `true`; what is refused is passed over
abbrev pub after_resume :
    Invocation
    → LedgerRow
    → Task
    → WorkflowInstance
    → Outcome WorkflowInstance × EngineState
    → Ran Bool
after_resume run e t i (ok j, s) = finished true (log_resolved run e t i s)
after_resume run e t i (not_ok NotOk.threw, s) = rejected s
after_resume run e t i (not_ok x, s) = finished false s

abbrev pub resume_if_awaited :
    Invocation → LedgerRow → Task → WorkflowInstance → EngineState → Ran Bool
unfolding definition_for_instance resolve_event_wait
resume_if_awaited run e t i s = elim (node_in (definition_for_instance i s) t.node_key) [
  | none ↦ finished false s
  | some (d, n) ↦
      if concerns i.client_id e.client_id && awaits_event n e.type
      then after_resume run e t i (resolve_event_wait run e.tenant_id t.id s)
      else finished false s
]

unfoldable pub resolve_wait : Invocation → LedgerRow → Task → EngineState → Ran Bool
unfolding find_instance
resolve_wait run e t s = elim (find_instance t.instance_id s) [
  | none ↦ finished false s
  | some i ↦ resume_if_awaited run e t i s
]

unfoldable pub resolve_waits : Invocation → LedgerRow → EngineState → Ran ℕ
unfolding resolve_wait
resolve_waits run e s =
    count_each (resolve_wait run e) (filter (is_parked_wait e.tenant_id) s.tasks) s

-- what a condition may read of the event and its client
unfoldable pub event_scope : LedgerRow → EngineState → EvaluationScope
event_scope e s = record {
  client = client_scope e.tenant_id e.client_id s;
  context = object (with_field "eventType" (text e.type) e.payload);
  instance_ = object (field "eventType" (text e.type) (field "seq" (number e.seq) no_fields));
}

pub data FireOutcome : Type 0 where
  trigger_fired_once duplicate condition_not_met trigger_failed_to_start : FireOutcome
  firing_rejected : FireOutcome

abbrev pub disabled_trigger : Invocation → Trigger → ListenerState → ListenerState
disabled_trigger run t s = record s {
  triggers =
      update_where (λ (u : Trigger). u.id == t.id) (λ u. record u { enabled = false }) s.triggers;
  engine = log t.tenant_id run none (trigger_failed t.id "trigger condition invalid") s.engine;
}

abbrev pub is_firing : Trigger → LedgerRow → Firing → Bool
is_firing t e f = f.trigger_id == t.id && f.ledger_event_id == e.id

abbrev pub trigger_start : Trigger → LedgerRow → StartInput
trigger_start t e = record {
  tenant_id = t.tenant_id;
  playbook_key = t.playbook_key;
  client_id = e.client_id;
  context = field "triggeredByEvent" (text e.type) (field "ledgerEventId" (number e.id) no_fields);
}

abbrev pub after_trigger :
    Invocation
    → Trigger
    → LedgerRow
    → ListenerState
    → Outcome WorkflowInstance × EngineState
    → FireOutcome × ListenerState
after_trigger run t e s (ok i, es) = (
  trigger_fired_once,
  record s {
    firings =
        update_where (is_firing t e) (λ (f : Firing). record f { instance_id = some i.id })
          s.firings;
    engine = log t.tenant_id run e.client_id (trigger_fired t.id e.type t.playbook_key i.id) es;
  },
)
after_trigger run t e s (not_ok NotOk.threw, es) = (firing_rejected, record s { engine = es })
after_trigger run t e s (not_ok x, es) = (
  trigger_failed_to_start,
  record s { engine = log t.tenant_id run none (trigger_failed t.id "could not start") es },
)

-- the pair is inserted first: a unique violation is an event that was handled before
abbrev pub claim_and_start :
    Invocation → Trigger → LedgerRow → ListenerState → FireOutcome × ListenerState
unfolding start_instance
claim_and_start run t e s =
    if any (is_firing t e) s.firings
    then (duplicate, s)
    else after_trigger run t e
        (record s {
          firings =
              record { trigger_id = t.id; ledger_event_id = e.id; instance_id = none } ∷ s.firings;
        })
        (start_instance run (trigger_start t e) s.engine)

abbrev pub fire_if :
    EvaluationResult
    → Invocation
    → Trigger
    → LedgerRow
    → ListenerState
    → FireOutcome × ListenerState
fire_if (invalid p) run t e s = (trigger_failed_to_start, disabled_trigger run t s)
fire_if throws run t e s = (firing_rejected, s)
fire_if (valid false) run t e s = (condition_not_met, s)
fire_if (valid true) run t e s = claim_and_start run t e s

abbrev pub condition_result : Option Predicate → LedgerRow → EngineState → EvaluationResult
unfolding event_scope
condition_result none e s = valid true
condition_result (some p) e s = evaluate (event_scope e s) p

unfoldable pub fire_trigger :
    Invocation → Trigger → LedgerRow → ListenerState → FireOutcome × ListenerState
fire_trigger run t e s = fire_if (condition_result t.condition e s.engine) run t e s

unfoldable pub assert_not_self_triggering : String → Outcome Unit
assert_not_self_triggering type =
    if str_eq type "workflow.started" then refused self_triggering else ok tt
