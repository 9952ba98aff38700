-- ===== src/Workflow/Scheduler.antt =====
-- packages/workflow/src/scheduler.ts: recurring workflows. cron-parser is a parameter, which is given
-- the expression, the zone and the time after which the next occurrence is wanted; `none` is an
-- expression or a zone that it cannot evaluate. A time in a context is kept as a date where the
-- source writes its ISO text.
pub mod Once
use burkham_wickmont_operati.Workflow.Predicate.{field, no_fields, text, date}
use burkham_wickmont_operati.Prelude.{
  false, ◌+◌, find, ◌∷◌, update_where, true, ℕ, none, Option, leb, str_eq, any, ltb, List,
  if◌then◌else◌, Bool, ◌&&◌, suc, ◌/◌, some, ◌-◌, [], String, filter, ◌==◌,
}
use burkham_wickmont_operati.Ledger.{read}
use burkham_wickmont_operati.Core.Outcome.{ok, not_ok, refused, cron_invalid, NotOk, Outcome}
use burkham_wickmont_operati.Workflow.State.{
  log, schedule_late, WorkflowInstance, EngineState, schedule_failed, schedule_fired, Invocation,
}
use burkham_wickmont_operati.Workflow.Instances.{StartInput, start_instance, if_given}

pub record Schedule : Type 0 where
  pub id : ℕ
  pub tenant_id : ℕ
  pub key : String
  pub playbook_key : String
  pub cron_expression : String
  pub timezone : String
  pub next_run_at : ℕ
  pub last_run_at : Option ℕ
  pub enabled : Bool

abbrev pub Cron : Type 0
Cron = String → String → ℕ → Option ℕ

-- the scheduler's table beside those of the engine
pub record SchedulerState : Type 0 where
  pub schedules : List Schedule
  pub engine : EngineState

unfoldable pub next_occurrence : Cron → String → String → ℕ → Outcome ℕ
next_occurrence cron expression zone after_time = elim (cron expression zone after_time) [
  | none ↦ refused cron_invalid
  | some t ↦ ok t
]

pub record ScheduleInput : Type 0 where
  pub tenant_id : ℕ
  pub key : String
  pub playbook_key : String
  pub cron_expression : String
  pub timezone : String

abbrev pub is_schedule : ℕ → String → Schedule → Bool
is_schedule tenant key row = row.tenant_id == tenant && str_eq row.key key

unfoldable pub find_schedule : ℕ → String → SchedulerState → Option Schedule
find_schedule tenant key s = find (is_schedule tenant key) s.schedules

abbrev pub new_schedule : ScheduleInput → ℕ → ℕ → Schedule
new_schedule i fresh next_at = record {
  id = fresh;
  tenant_id = i.tenant_id;
  key = i.key;
  playbook_key = i.playbook_key;
  cron_expression = i.cron_expression;
  timezone = i.timezone;
  next_run_at = next_at;
  last_run_at = none;
  enabled = true;
}

abbrev pub rescheduled : ScheduleInput → ℕ → Schedule → Schedule
rescheduled i next_at row = record row {
  playbook_key = i.playbook_key;
  cron_expression = i.cron_expression;
  timezone = i.timezone;
  next_run_at = next_at;
}

abbrev pub write_schedule :
    Option Schedule → ScheduleInput → ℕ → SchedulerState → Outcome Schedule × SchedulerState
write_schedule none i next_at s =
    let row = new_schedule i s.engine.next_id next_at in
    (
      ok row,
      record s {
        schedules = row ∷ s.schedules;
        engine = record s.engine { next_id = suc s.engine.next_id };
      },
    )
write_schedule (some old) i next_at s = (
  ok (rescheduled i next_at old),
  record s {
    schedules = update_where (is_schedule i.tenant_id i.key) (rescheduled i next_at) s.schedules;
  },
)

unfoldable pub upsert_schedule :
    Cron → ℕ → ScheduleInput → SchedulerState → Outcome Schedule × SchedulerState
unfolding next_occurrence find_schedule
upsert_schedule cron now i s = elim (next_occurrence cron i.cron_expression i.timezone now) [
  | ok next_at ↦ write_schedule (find_schedule i.tenant_id i.key s) i next_at s
  | not_ok x ↦ (not_ok x, s)
]

-- `update`, which rejects where there is no such schedule
unfoldable pub set_schedule_enabled : ℕ → String → Bool → SchedulerState → Option SchedulerState
set_schedule_enabled tenant key b s =
    if any (is_schedule tenant key) s.schedules
    then some (record s {
      schedules =
          update_where (is_schedule tenant key) (λ row. record row { enabled = b }) s.schedules;
    })
    else none

pub data ScheduleOutcome : Type 0 where
  schedule_fired_once lost_to_another could_not_fire pass_rejected : ScheduleOutcome

abbrev pub disable : ℕ → List Schedule → List Schedule
disable id rows =
    update_where (λ (r : Schedule). r.id == id) (λ r. record r { enabled = false }) rows

-- `where: { id, nextRunAt: schedule.nextRunAt }`, with the value that was read
abbrev pub still_due : Schedule → Schedule → Bool
still_due read row = row.id == read.id && row.next_run_at == read.next_run_at

abbrev pub advanced_to : ℕ → ℕ → Schedule → Schedule
advanced_to now next_at row = record row { next_run_at = next_at; last_run_at = some now }

-- `Math.round(lateByMs / 1000)`, and only past a minute
abbrev pub log_if_late : Invocation → Schedule → EngineState → EngineState
log_if_late run r s =
    if ltb 60000 (run.now - r.next_run_at)
    then log r.tenant_id run none
        (schedule_late r.key r.next_run_at run.now ((run.now - r.next_run_at + 500) / 1000)) s
    else s

abbrev pub schedule_input : Schedule → StartInput
schedule_input r = record {
  tenant_id = r.tenant_id;
  playbook_key = r.playbook_key;
  client_id = none;
  context = field "scheduleKey" (text r.key) (field "scheduledFor" (date r.next_run_at) no_fields);
}

abbrev pub after_start :
    Invocation
    → Schedule
    → ℕ
    → List Schedule
    → Outcome WorkflowInstance × EngineState
    → ScheduleOutcome × SchedulerState
after_start run r next_at rows (ok i, s) = (
  schedule_fired_once,
  record {
    schedules = rows;
    engine = log r.tenant_id run none (schedule_fired r.key i.id r.playbook_key next_at) s;
  },
)
after_start run r next_at rows (not_ok NotOk.threw, s) =
    (pass_rejected, record { schedules = rows; engine = s })
after_start run r next_at rows (not_ok x, s) = (
  could_not_fire,
  record {
    schedules = rows;
    engine = log r.tenant_id run none (schedule_failed r.key "could not start") s;
  },
)

-- the body of the loop, for a schedule as it was read; its row may have changed since
unfoldable pub fire_schedule :
    Invocation → Cron → Schedule → SchedulerState → ScheduleOutcome × SchedulerState
unfolding next_occurrence start_instance
fire_schedule run cron r s = elim (next_occurrence cron r.cron_expression r.timezone run.now) [
  | not_ok x ↦ (
    could_not_fire,
    record {
      schedules = disable r.id s.schedules;
      engine =
          log r.tenant_id run none (schedule_failed r.key "schedule disabled until corrected")
            s.engine;
    },
  )
  | ok next_at ↦
      if any (still_due r) s.schedules
      then after_start run r next_at
          (update_where (still_due r) (advanced_to run.now next_at) s.schedules)
          (start_instance run (schedule_input r) (log_if_late run r s.engine))
      else (lost_to_another, s)
]

abbrev pub is_due : ℕ → Option ℕ → Schedule → Bool
is_due now tenant r =
    r.enabled && (leb r.next_run_at now && if_given tenant (λ t. r.tenant_id == t))

pub record SchedulerResult : Type 0 where
  pub fired : ℕ
  pub skipped_lost : ℕ
  pub failed : ℕ

abbrev pub counted : ScheduleOutcome → SchedulerResult → SchedulerResult
counted schedule_fired_once n = record n { fired = suc n.fired }
counted lost_to_another n = record n { skipped_lost = suc n.skipped_lost }
counted could_not_fire n = record n { failed = suc n.failed }
counted pass_rejected n = n

abbrev pub add_count :
    ScheduleOutcome
    → Option SchedulerResult × SchedulerState
    → Option SchedulerResult × SchedulerState
add_count o (none, s) = (none, s)
add_count o (some n, s) = (some (counted o n), s)

abbrev pub stop_or_count :
    ScheduleOutcome
    → SchedulerState
    → Option SchedulerResult × SchedulerState
    → Option SchedulerResult × SchedulerState
stop_or_count pass_rejected s rest = (none, s)
stop_or_count o s rest = add_count o rest

-- the loop; `none` is a rejected promise
unfoldable pub fire_each :
    Invocation → Cron → List Schedule → SchedulerState → Option SchedulerResult × SchedulerState
unfolding fire_schedule
fire_each run cron [] s = (some (record { fired = 0; skipped_lost = 0; failed = 0 }), s)
fire_each run cron (r ∷ rs) s =
    let (o, s') = fire_schedule run cron r s in
    let rest = fire_each run cron rs s' in stop_or_count o s' rest

unfoldable pub scheduler_pass :
    Invocation → Cron → Option ℕ → SchedulerState → Option SchedulerResult × SchedulerState
unfolding fire_each
scheduler_pass run cron tenant s = fire_each run cron (filter (is_due run.now tenant) s.schedules) s
