-- ===== src/Tests/QueueRuns.antt =====
-- The queue with two tasks and two workers.
use burkham_wickmont_operati.Workflow.Queue.Crashes.{crashes-pending, crashes, Survives}
use burkham_wickmont_operati.Prelude.{
  ℕ, ◌<◌, ◌≤◌, ◌⊎◌, Bool, ◌≡◌, ◌∷◌, arith, [], some, All, refl, false, ◌+◌, none, ◌-◌, min, ◌*◌,
  ◌^◌,
}
use burkham_wickmont_operati.Workflow.Queue.{
  claim, Tasks, EnqueueInput, is_running, backoff_for, claimed, agent_task, retry_scheduled, Task,
  enqueue, enqueued, fail_task, reclaim_expired_leases, pending, retried, has_id, dead_lettered,
  dead_letter,
}
use burkham_wickmont_operati.Workflow.Queue.Claims.{claim-disjoint}
use burkham_wickmont_operati.Workflow.Queue.Retries.{fail_task_exact, FailedInto, RowByRow}
use burkham_wickmont_operati.Workflow.Queue.Leases.{
  Reachable, from_empty, after_step, claims, enqueues, reclaim-recovers,
}

abbrev asked : EnqueueInput
asked = record {
  tenant_id = 7;
  instance_id = 80;
  node_key = "collect";
  kind = agent_task;
  department = none;
  priority = none;
  run_at = some 0;
  max_attempts = none;
  backoff_seconds = none;
  sla_due_at = none;
}

abbrev first_task : Task
first_task = enqueued 1 asked 0

abbrev two_tasks : Tasks
two_tasks = enqueued 2 asked 0 ∷ first_task ∷ []

abbrev free : ℕ → Bool
free id = false

claim-disjoint_example :
    let first = claim "a" 1 1000 300 none free two_tasks in
    let second = claim "b" 2 1000 300 none free first.0 in
    All (λ t. has_id first.1 t.id ≡ false) second.1
claim-disjoint_example = claim-disjoint "a" "b" 1 2 1000 1000 300 300 none none free free two_tasks

abbrev one_enqueued : Tasks
one_enqueued = first_task ∷ []

abbrev one_claimed : Tasks
one_claimed = claimed "a" 301000 first_task ∷ []

enqueued-Reachable : Reachable one_enqueued
unfolding enqueue
enqueued-Reachable = after_step from_empty (enqueues 1 asked 0 [])

claimed-Reachable : Reachable one_claimed
unfolding claim
claimed-Reachable = after_step enqueued-Reachable (claims "a" 1 1000 300 none free one_enqueued)

reclaim-recovers_example :
    All (λ t. is_running t.status ≡ false) (reclaim_expired_leases 400000 none one_claimed)
reclaim-recovers_example = reclaim-recovers 400000 one_claimed claimed-Reachable (refl, tt)

abbrev timed_out : Tasks
timed_out = retried "timeout" 31000 (claimed "a" 301000 first_task) ∷ []

fail_task_exact_example :
    ((3 ≤ 1)
      × (retry_scheduled 31000 1 ≡ dead_lettered 1)
      × RowByRow (FailedInto 1 "timeout" dead_letter (λ t. t.run_at)) one_claimed timed_out)
    ⊎ ((1 < 3)
        × ((at_ : ℕ) × (retry_scheduled 31000 1 ≡ retry_scheduled at_ 1)
            × (at_ ≡ 1000 + min (30 * 2 ^ (1 - 1)) 86400 * 1000)
            × RowByRow (FailedInto 1 "timeout" pending (λ t. at_)) one_claimed timed_out))
unfolding fail_task backoff_for
fail_task_exact_example =
    fail_task_exact (claimed "a" 301000 first_task) "timeout" 1000 one_claimed {ts' = timed_out}
      {r = retry_scheduled 31000 1} refl

crashes-pending_example : RowByRow (Survives 5) two_tasks (crashes 5 2 "a" 300 1000 two_tasks)
crashes-pending_example =
    crashes-pending 5 2 "a" 300 1000 two_tasks ((refl, omega arith), ((refl, omega arith), tt))
      (omega arith)
