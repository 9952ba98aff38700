-- ===== src/Workflow/Scheduler/Once.antt =====
-- A due occurrence of packages/workflow/src/scheduler.ts is taken once.
use burkham_wickmont_operati.Prelude.{
  false, ◌∷◌, update_where, refl, true, ℕ, arith, ◌≤◌, ◌<◌, any, List, some, [], String, ◌≡◌,
}
use burkham_wickmont_operati.Core.Outcome.{ok, not_ok, Outcome, NotOk}
use burkham_wickmont_operati.Workflow.State.{WorkflowInstance, EngineState, Invocation}
use burkham_wickmont_operati.Workflow.Scheduler.{
  after_start, fire_schedule, next_occurrence, lost_to_another, Schedule, still_due, advanced_to,
  Cron, SchedulerState, log_if_late, schedule_input,
}
use burkham_wickmont_operati.Workflow.Instances.{start_instance}

not_due_again :
    (r : Schedule) (now next_at : ℕ) (rows : List Schedule)
    → r.next_run_at < next_at
    → any (still_due r) (update_where (still_due r) (advanced_to now next_at) rows) ≡ false
not_due_again r now next_at [] h = refl
not_due_again r now next_at (row ∷ rows) h = ground (arith, not_due_again r now next_at rows h)

after_start-schedules :
    (run : Invocation) (r : Schedule) (next_at : ℕ) (rows : List Schedule)
    (x : Outcome WorkflowInstance × EngineState)
    → (after_start run r next_at rows x).1.schedules ≡ rows
after_start-schedules run r next_at rows (ok i, s) = refl
after_start-schedules run r next_at rows (not_ok (NotOk.refusal y), s) = refl
after_start-schedules run r next_at rows (not_ok (NotOk.not_built y), s) = refl
after_start-schedules run r next_at rows (not_ok (NotOk.missing y), s) = refl
after_start-schedules run r next_at rows (not_ok (NotOk.failure y), s) = refl
after_start-schedules run r next_at rows (not_ok NotOk.threw, s) = refl

taken_rows :
    (cron : Cron) (run : Invocation) (r : Schedule) (next_at : ℕ) (s : SchedulerState)
    → cron r.cron_expression r.timezone run.now ≡ some next_at
    → any (still_due r) s.schedules ≡ true
    → (fire_schedule run cron r s).1.schedules
      ≡ update_where (still_due r) (advanced_to run.now next_at) s.schedules
unfolding fire_schedule next_occurrence
taken_rows cron run r next_at s first there =
    rw (fire_schedule, first, there)
      (after_start-schedules run r next_at
        (update_where (still_due r) (advanced_to run.now next_at) s.schedules)
        (start_instance run (schedule_input r) (log_if_late run r s.engine)))

lost :
    (cron : Cron) (run : Invocation) (r : Schedule) (next_at : ℕ) (s : SchedulerState)
    → cron r.cron_expression r.timezone run.now ≡ some next_at
    → any (still_due r) s.schedules ≡ false
    → fire_schedule run cron r s ≡ (lost_to_another, s)
unfolding fire_schedule next_occurrence
lost cron run r next_at s second gone = rw (fire_schedule, second, gone) refl

-- Two workers that read the same due schedule do not both fire it: when the first one's call found
-- the row still due and took it, the second one, which goes by the same reading, loses it and starts
-- nothing, provided that cron-parser answers with a time that is after the one it is given.
pub fire_schedule-once :
    (cron : Cron) (run run' : Invocation) (r : Schedule) (next_at next_at' : ℕ) (s : SchedulerState)
    → ((expression zone : String) (t u : ℕ) → cron expression zone t ≡ some u → t < u)
    → r.next_run_at ≤ run.now
    → cron r.cron_expression r.timezone run.now ≡ some next_at
    → cron r.cron_expression r.timezone run'.now ≡ some next_at'
    → any (still_due r) s.schedules ≡ true
    → fire_schedule run' cron r (fire_schedule run cron r s).1
      ≡ (lost_to_another, (fire_schedule run cron r s).1)
fire_schedule-once cron run run' r next_at next_at' s strictly due first second there =
    let after_it = (fire_schedule run cron r s).1 in
    lost cron run' r next_at' after_it second (
      rw (taken_rows cron run r next_at s first there) (
        not_due_again r run.now next_at s.schedules
          (omega (arith, strictly r.cron_expression r.timezone run.now next_at first))))
