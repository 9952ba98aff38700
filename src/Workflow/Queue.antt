-- ===== src/Workflow/Queue.antt =====
-- packages/workflow/src/queue.ts: the durable task queue. Times are epoch milliseconds. The column
-- `updatedAt`, which nothing in the queue reads, is left out, and `none` is a rejected promise.
-- Priorities, backoffs and maxima are natural numbers: the source does not check them, and what it
-- does with a negative or fractional one is outside the model.
pub mod Leases
pub mod Claims
pub mod Retries
pub mod Crashes
use burkham_wickmont_operati.Prelude.{
  ℕ, is_some, update_where, ◌∷◌, find, ◌+◌, ◌*◌, some, take, filter, leb, Option, true, ◌||◌, min,
  String, ◌==◌, List, Bool, not, ◌^◌, order_by, ◌&&◌, any, ltb, none, ◌-◌, false, if◌then◌else◌,
}
use burkham_wickmont_operati.Ledger.{after}

pub data TaskStatus : Type 0 where
  pending running waiting succeeded failed_task dead_letter cancelled_task : TaskStatus

pub data TaskKind : Type 0 where
  agent_task human_checkpoint decision wait terminal : TaskKind

pub record Task : Type 0 where
  pub id : ℕ
  pub tenant_id : ℕ
  pub instance_id : ℕ
  pub node_key : String
  pub kind : TaskKind
  pub status : TaskStatus
  pub department : Option String
  pub priority : ℕ
  pub run_at : ℕ
  pub attempts : ℕ
  pub max_attempts : ℕ
  pub backoff_seconds : ℕ
  pub last_error : Option String
  pub sla_due_at : Option ℕ
  pub escalated_at : Option ℕ
  pub remind_due_at : Option ℕ
  pub reminders_sent : ℕ
  pub locked_by : Option String
  pub lease_expires_at : Option ℕ

abbrev pub Tasks : Type 0
Tasks = List Task

pub record EnqueueInput : Type 0 where
  pub tenant_id : ℕ
  pub instance_id : ℕ
  pub node_key : String
  pub kind : TaskKind
  pub department : Option String
  pub priority : Option ℕ
  pub run_at : Option ℕ
  pub max_attempts : Option ℕ
  pub backoff_seconds : Option ℕ
  pub sla_due_at : Option ℕ

abbrev pub default_lease_seconds : ℕ
default_lease_seconds = 300

abbrev pub max_backoff_seconds : ℕ
max_backoff_seconds = 24 * 60 * 60

-- `value ?? other`
abbrev or_else : Option ℕ → ℕ → ℕ
or_else none n = n
or_else (some m) n = m

-- the row's new identifier is given by the database
abbrev pub enqueued : ℕ → EnqueueInput → ℕ → Task
enqueued fresh i now = record {
  id = fresh;
  tenant_id = i.tenant_id;
  instance_id = i.instance_id;
  node_key = i.node_key;
  kind = i.kind;
  status = pending;
  department = i.department;
  priority = or_else i.priority 0;
  run_at = or_else i.run_at now;
  attempts = 0;
  max_attempts = or_else i.max_attempts 3;
  backoff_seconds = or_else i.backoff_seconds 30;
  last_error = none;
  sla_due_at = i.sla_due_at;
  escalated_at = none;
  remind_due_at = none;
  reminders_sent = 0;
  locked_by = none;
  lease_expires_at = none;
}

unfoldable pub enqueue : ℕ → EnqueueInput → ℕ → Tasks → Tasks
enqueue fresh i now ts = enqueued fresh i now ∷ ts

abbrev pub is_pending : TaskStatus → Bool
is_pending pending = true
is_pending _ = false

abbrev pub is_running : TaskStatus → Bool
is_running running = true
is_running _ = false

abbrev pub is_waiting : TaskStatus → Bool
is_waiting waiting = true
is_waiting _ = false

abbrev pub in_scope : Option ℕ → Task → Bool
in_scope none t = true
in_scope (some tenant) t = t.tenant_id == tenant

-- `status = 'pending' AND "runAt" <= now`, in the tenant's scope
abbrev pub is_claimable : ℕ → Option ℕ → Task → Bool
is_claimable now tenant t = is_pending t.status && (leb t.run_at now && in_scope tenant t)

-- `ORDER BY priority DESC, "runAt" ASC`
abbrev pub more_urgent : Task → Task → Bool
more_urgent a b = ltb b.priority a.priority || (a.priority == b.priority && ltb a.run_at b.run_at)

-- `FOR UPDATE SKIP LOCKED LIMIT`: `locked` says which rows other transactions hold
abbrev pub batch : ℕ → ℕ → Option ℕ → (ℕ → Bool) → Tasks → Tasks
batch limit now tenant locked ts =
    take limit
      (filter (λ t. not (locked t.id)) (order_by more_urgent (filter (is_claimable now tenant) ts)))

abbrev pub has_id : Tasks → ℕ → Bool
has_id ts id = any (λ t. t.id == id) ts

abbrev pub claimed : String → ℕ → Task → Task
claimed worker expiry t = record t {
  status = running;
  attempts = t.attempts + 1;
  locked_by = some worker;
  lease_expires_at = some expiry;
}

-- the table after the claim, and the rows that it returns
unfoldable pub claim : String → ℕ → ℕ → ℕ → Option ℕ → (ℕ → Bool) → Tasks → Tasks × Tasks
claim worker limit now lease_seconds tenant locked ts =
    let chosen = batch limit now tenant locked ts in
    let after =
      update_where (λ t. has_id chosen t.id) (claimed worker (now + lease_seconds * 1000)) ts in
    (after, filter (λ t. has_id chosen t.id) after)

abbrev pub expired : ℕ → Option ℕ → Bool
expired now none = false
expired now (some expiry) = ltb expiry now

abbrev pub is_stranded : ℕ → Option ℕ → Task → Bool
is_stranded now tenant t =
    is_running t.status && (expired now t.lease_expires_at && in_scope tenant t)

-- `COALESCE(t."lastError", …)`
abbrev or_presumed_dead : Option String → Option String
or_presumed_dead none = some "lease expired; worker presumed dead"
or_presumed_dead (some e) = some e

abbrev pub reclaimed : Task → Task
reclaimed t = record t {
  status = pending;
  locked_by = none;
  lease_expires_at = none;
  last_error = or_presumed_dead t.last_error;
}

unfoldable pub reclaim_expired_leases : ℕ → Option ℕ → Tasks → Tasks
reclaim_expired_leases now tenant ts = update_where (is_stranded now tenant) reclaimed ts

-- `update({ where: { id } })`, which rejects where no row has the identifier
abbrev pub update_task : ℕ → (Task → Task) → Tasks → Option Tasks
update_task id f ts = if has_id ts id then some (update_where (λ t. t.id == id) f ts) else none

-- a status, with the lease released
abbrev pub released : TaskStatus → Task → Task
released s t = record t { status = s; locked_by = none; lease_expires_at = none }

unfoldable pub succeed : ℕ → Tasks → Option Tasks
succeed id ts = update_task id (released succeeded) ts

-- Exact: what a double would round is cut off by the cap, and a base of 0 gives 0 for the attempts
-- up to 1,024.
unfoldable pub backoff_for : ℕ → ℕ → ℕ
backoff_for attempts base_seconds = min (base_seconds * 2 ^ (attempts - 1)) max_backoff_seconds

pub data FailureDisposition : Type 0 where
  retry_scheduled : ℕ → ℕ → FailureDisposition
  dead_lettered : ℕ → FailureDisposition

abbrev pub buried : String → Task → Task
buried error t = record t {
  status = dead_letter;
  last_error = some error;
  locked_by = none;
  lease_expires_at = none;
}

abbrev pub retried : String → ℕ → Task → Task
retried error next_run_at t = record t {
  status = pending;
  last_error = some error;
  run_at = next_run_at;
  locked_by = none;
  lease_expires_at = none;
}

abbrev pub with_disposition :
    FailureDisposition → Option Tasks → Option (Tasks × FailureDisposition)
with_disposition r none = none
with_disposition r (some ts) = some (ts, r)

abbrev pub next_run : Task → ℕ → ℕ
unfolding backoff_for
next_run task now = now + backoff_for task.attempts task.backoff_seconds * 1000

-- `task` is the caller's copy of the row
unfoldable pub fail_task : Task → String → ℕ → Tasks → Option (Tasks × FailureDisposition)
fail_task task error now ts =
    if leb task.max_attempts task.attempts
    then with_disposition (dead_lettered task.attempts) (update_task task.id (buried error) ts)
    else with_disposition (retry_scheduled (next_run task now) task.attempts)
        (update_task task.id (retried error (next_run task now)) ts)

unfoldable pub park : ℕ → Tasks → Option Tasks
park id ts = update_task id (released waiting) ts

unfoldable pub find_task : ℕ → Tasks → Option Task
find_task id ts = find (λ t. t.id == id) ts

abbrev is_open_status : TaskStatus → Bool
is_open_status pending = true
is_open_status running = true
is_open_status waiting = true
is_open_status _ = false

abbrev before : ℕ → Option ℕ → Bool
before now none = false
before now (some t) = ltb t now

unfoldable pub breached_slas : ℕ → Option ℕ → Tasks → Tasks
breached_slas now tenant ts =
    filter
      (λ t.
        is_open_status t.status
        && (before now t.sla_due_at && (not (is_some t.escalated_at) && in_scope tenant t)))
      ts

unfoldable pub schedule_reminder : ℕ → ℕ → Tasks → Option Tasks
schedule_reminder id due_at ts = update_task id (λ t. record t { remind_due_at = some due_at }) ts

unfoldable pub defer_until : ℕ → ℕ → Tasks → Option Tasks
defer_until id run_at ts = update_task id (λ t. record (released pending t) { run_at = run_at }) ts

abbrev not_after : ℕ → Option ℕ → Bool
not_after now none = false
not_after now (some t) = leb t now

unfoldable pub due_reminders : ℕ → Option ℕ → Tasks → Tasks
due_reminders now tenant ts =
    filter (λ t. is_waiting t.status && (not_after now t.remind_due_at && in_scope tenant t)) ts

unfoldable pub mark_reminded : ℕ → Option ℕ → Tasks → Option Tasks
mark_reminded id next_due_at ts =
    update_task id
      (λ t. record t { reminders_sent = t.reminders_sent + 1; remind_due_at = next_due_at }) ts

unfoldable pub mark_escalated : ℕ → ℕ → Tasks → Option Tasks
mark_escalated id now ts = update_task id (λ t. record t { escalated_at = some now }) ts
