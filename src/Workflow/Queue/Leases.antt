-- ===== src/Workflow/Queue/Leases.antt =====
-- Every operation of the queue keeps a lease on exactly the running rows.
use mathlib.Core.Option.{some-injective, none-ne-some}
use burkham_wickmont_operati.Prelude.{
  ℕ, Bool-cases, is_some, update_where, ◌∷◌, some, [], inl, ◌==◌, Bool, inr, All, ◌≡◌, refl, String,
  ◌+◌, Option, none, ◌*◌, false, leb, arith, if◌then◌else◌, true, ltb,
}
use burkham_wickmont_operati.Workflow.Queue.{
  Tasks, has_id, is_running, update_task, Task, succeed, EnqueueInput, mark_escalated, enqueue,
  claim, park, mark_reminded, claimed, is_stranded, reclaimed, fail_task, defer_until,
  FailureDisposition, schedule_reminder, reclaim_expired_leases, buried, next_run, dead_lettered,
  retried, retry_scheduled, with_disposition, batch,
}

-- a lease and its holder are there exactly while the row is running
abbrev pub Leased : Task → Type 0
Leased t =
    (is_some t.lease_expires_at ≡ is_running t.status) × (is_some t.locked_by ≡ is_running t.status)

update_where-All :
    (p : Task → Bool) (f : Task → Task) (ts : Tasks)
    → ((t : Task) → Leased t → Leased (f t))
    → All Leased ts
    → All Leased (update_where p f ts)
update_where-All p f [] keep h = tt
update_where-All p f (t ∷ ts) keep h = elim (Bool-cases (p t)) [
  | inl e ↦ rw e (keep t h.0, update_where-All p f ts keep h.1)
  | inr e ↦ rw e (h.0, update_where-All p f ts keep h.1)
]

update_task-All :
    (id : ℕ) (f : Task → Task) (ts : Tasks) {ts' : Tasks}
    → ((t : Task) → Leased t → Leased (f t))
    → All Leased ts
    → update_task id f ts ≡ some ts'
    → All Leased ts'
update_task-All id f ts keep h e = elim (Bool-cases (has_id ts id)) [
  | inl there ↦
      rw (← some-injective _ _ (rw there at e)) (update_where-All (λ t. t.id == id) f ts keep h)
  | inr gone ↦ absurd (none-ne-some _ (rw gone at e))
]

claimed-Leased :
    (worker : String) (expiry : ℕ) (t : Task) → Leased t → Leased (claimed worker expiry t)
claimed-Leased worker expiry t h = (refl, refl)

-- one operation of the queue, whoever calls it and with what
pub data QueueStep : Tasks → Tasks → Type 0 where
  enqueues :
      (fresh : ℕ) (i : EnqueueInput) (now : ℕ) (ts : Tasks) → QueueStep ts (enqueue fresh i now ts)
  claims :
      (worker : String) (limit now lease : ℕ) (tenant : Option ℕ) (locked : ℕ → Bool) (ts : Tasks)
      → QueueStep ts (claim worker limit now lease tenant locked ts).0
  reclaims :
      (now : ℕ) (tenant : Option ℕ) (ts : Tasks)
      → QueueStep ts (reclaim_expired_leases now tenant ts)
  succeeds : (id : ℕ) {ts ts' : Tasks} → succeed id ts ≡ some ts' → QueueStep ts ts'
  fails :
      (task : Task) (error : String) (now : ℕ) (r : FailureDisposition) {ts ts' : Tasks}
      → fail_task task error now ts ≡ some (ts', r)
      → QueueStep ts ts'
  parks : (id : ℕ) {ts ts' : Tasks} → park id ts ≡ some ts' → QueueStep ts ts'
  schedules :
      (id due_at : ℕ) {ts ts' : Tasks}
      → schedule_reminder id due_at ts ≡ some ts'
      → QueueStep ts ts'
  defers : (id run_at : ℕ) {ts ts' : Tasks} → defer_until id run_at ts ≡ some ts' → QueueStep ts ts'
  reminds :
      (id : ℕ) (after_step : Option ℕ) {ts ts' : Tasks}
      → mark_reminded id after_step ts ≡ some ts'
      → QueueStep ts ts'
  escalates : (id now : ℕ) {ts ts' : Tasks} → mark_escalated id now ts ≡ some ts' → QueueStep ts ts'

fail_task-Leased :
    (task : Task) (error : String) (now : ℕ) (r : FailureDisposition) (ts : Tasks) {ts' : Tasks}
    → All Leased ts
    → fail_task task error now ts ≡ some (ts', r)
    → All Leased ts'
unfolding fail_task
fail_task-Leased task error now r ts {ts'} h e =
    elim (Bool-cases (leb task.max_attempts task.attempts)) [
      | inl done_ ↦
          buried_or_retried (dead_lettered task.attempts) (buried error) (λ t k. (refl, refl))
            (rw done_ at e)
      | inr more ↦
          buried_or_retried (retry_scheduled (next_run task now) task.attempts)
            (retried error (next_run task now)) (λ t k. (refl, refl)) (rw more at e)
    ]
  where
    buried_or_retried :
        (d : FailureDisposition) (f : Task → Task)
        → ((t : Task) → Leased t → Leased (f t))
        → with_disposition d (update_task task.id f ts) ≡ some (ts', r)
        → All Leased ts'
    buried_or_retried d f keep w = update_task-All task.id f ts keep h (ground arith)

step-Leased : {ts ts' : Tasks} → QueueStep ts ts' → All Leased ts → All Leased ts'
unfolding enqueue claim reclaim_expired_leases succeed park schedule_reminder defer_until
    mark_reminded mark_escalated
step-Leased (enqueues fresh i now ts) h = ((refl, refl), h)
step-Leased (claims worker limit now lease tenant locked ts) h =
    update_where-All (λ t. has_id (batch limit now tenant locked ts) t.id)
      (claimed worker (now + lease * 1000)) ts (claimed-Leased worker (now + lease * 1000)) h
step-Leased (reclaims now tenant ts) h =
    update_where-All (is_stranded now tenant) reclaimed ts (λ t k. (refl, refl)) h
step-Leased (succeeds id {ts} e) h = update_task-All id _ ts (λ t k. (refl, refl)) h e
step-Leased (fails task error now r {ts} e) h = fail_task-Leased task error now r ts h e
step-Leased (parks id {ts} e) h = update_task-All id _ ts (λ t k. (refl, refl)) h e
step-Leased (schedules id due_at {ts} e) h = update_task-All id _ ts (λ t k. k) h e
step-Leased (defers id run_at {ts} e) h = update_task-All id _ ts (λ t k. (refl, refl)) h e
step-Leased (reminds id after_step {ts} e) h = update_task-All id _ ts (λ t k. k) h e
step-Leased (escalates id now {ts} e) h = update_task-All id _ ts (λ t k. k) h e

-- the tables that any sequence of operations leads to from the empty one
pub data Reachable : Tasks → Type 0 where
  from_empty : Reachable []
  after_step : {ts ts' : Tasks} → Reachable ts → QueueStep ts ts' → Reachable ts'

-- After any sequence of the queue's operations, from the empty table on, a row holds a lease and a
-- holder's name exactly while it is running.
pub Reachable-Leased : (ts : Tasks) → Reachable ts → All Leased ts
Reachable-Leased _ from_empty = tt
Reachable-Leased _ (after_step r s) = step-Leased s (Reachable-Leased _ r)

-- no lease, or one that has run out
abbrev pub is_lapsed : ℕ → Option ℕ → Bool
is_lapsed now none = true
is_lapsed now (some expiry) = ltb expiry now

abbrev pub Lapsed : ℕ → Task → Type 0
Lapsed now t = is_lapsed now t.lease_expires_at ≡ true

row_recovered :
    (now : ℕ) (t : Task)
    → Leased t
    → Lapsed now t
    → is_running (if is_stranded now none t then reclaimed t else t).status ≡ false
row_recovered now t l h = ground arith

recovered :
    (now : ℕ) (ts : Tasks)
    → All Leased ts
    → All (Lapsed now) ts
    → All (λ t. is_running t.status ≡ false) (update_where (is_stranded now none) reclaimed ts)
recovered now [] l h = tt
recovered now (t ∷ ts) l h = (row_recovered now t l.0 h.0, recovered now ts l.1 h.1)

-- Crash recovery is complete: after any sequence of the queue's operations, once every lease has
-- run out, one pass over all tenants leaves no row running.
pub reclaim-recovers :
    (now : ℕ) (ts : Tasks)
    → Reachable ts
    → All (Lapsed now) ts
    → All (λ t. is_running t.status ≡ false) (reclaim_expired_leases now none ts)
unfolding reclaim_expired_leases
reclaim-recovers now ts r h = recovered now ts (Reachable-Leased ts r) h
