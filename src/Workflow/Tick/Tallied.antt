-- ===== src/Workflow/Tick/Tallied.antt =====
-- The counts of a pass of packages/workflow/src/engine.ts.
use burkham_wickmont_operati.Prelude.{ap, ℕ, ◌≡◌, ◌+◌, ◌∷◌, arith, suc, length, [], refl, ◌∙◌}
use burkham_wickmont_operati.Workflow.State.{rejected, finished, Invocation, EngineState, Ran}
use burkham_wickmont_operati.Workflow.Tick.{
  tallied, Tally, execute_each, remind, TickOptions, escalate, reclaim, count_each, claimed_by,
  tick, TickResult,
}
use burkham_wickmont_operati.Workflow.Engine.{ExecutionOutcome, execute_task, execution_failed}
use burkham_wickmont_operati.Workflow.Queue.{Tasks, due_reminders, breached_slas}
use burkham_wickmont_operati.Workflow.State.Ensures.{Ensures, awaits-Ensures, Ensures-finished}

no_condition : {A : Type 0} (m : Ran A) → Ensures (λ _ _. Unit) m
no_condition (finished o s') = tt
no_condition (rejected s') = tt

abbrev total : Tally → ℕ
total n = n.advanced + n.parked + n.failed

total-tallied : (o : ExecutionOutcome) (n : Tally) → total (tallied o n) ≡ suc (total n)
total-tallied ExecutionOutcome.advanced n = omega arith
total-tallied ExecutionOutcome.parked n = omega arith
total-tallied execution_failed n = omega arith

each_counted :
    (run : Invocation) (ts : Tasks) (s : EngineState)
    → Ensures (λ n _. total n ≡ length ts) (execute_each run ts s)
unfolding execute_each
each_counted run [] s = refl
each_counted run (t ∷ ts) s =
    awaits-Ensures (λ _ _. Unit) (λ n _. total n ≡ length (t ∷ ts)) (execute_task run t s) _
      (no_condition (execute_task run t s))
      (λ o s1 _.
        awaits-Ensures (λ n _. total n ≡ length ts) (λ n _. total n ≡ length (t ∷ ts))
          (execute_each run ts s1) _ (each_counted run ts s1)
          (λ n s2 h. total-tallied o n ∙ ap suc h))

counted :
    (run : Invocation) (o : TickOptions) (s : EngineState)
    → Ensures (λ r _. total r.tally ≡ r.claimed) (tick run o s)
unfolding tick
counted run o s =
    let s0 = reclaim run o.tenant_id s in
    awaits-Ensures (λ _ _. Unit) (λ r _. total r.tally ≡ r.claimed)
      (count_each (escalate run) (breached_slas run.now o.tenant_id s0.tasks) s0) _
      (no_condition (count_each (escalate run) (breached_slas run.now o.tenant_id s0.tasks) s0))
      (λ escalated s1 _.
        awaits-Ensures (λ _ _. Unit) (λ r _. total r.tally ≡ r.claimed)
          (count_each (remind run) (due_reminders run.now o.tenant_id s1.tasks) s1) _
          (no_condition (count_each (remind run) (due_reminders run.now o.tenant_id s1.tasks) s1))
          (λ reminded s2 _.
            awaits-Ensures (λ n _. total n ≡ length (claimed_by run o s2).1)
              (λ r _. total r.tally ≡ r.claimed)
              (execute_each run (claimed_by run o s2).1
                (record s2 { tasks = (claimed_by run o s2).0 }))
              _
              (each_counted run (claimed_by run o s2).1
                (record s2 { tasks = (claimed_by run o s2).0 }))
              (λ n s3 h. h)))

-- Every task that a pass claims is accounted for: it is counted once, as advanced, as parked or as
-- failed.
tick-counts :
    (run : Invocation) (o : TickOptions) (r : TickResult) (s s' : EngineState)
    → tick run o s ≡ finished r s'
    → r.tally.advanced + r.tally.parked + r.tally.failed ≡ r.claimed
tick-counts run o r s s' e =
    Ensures-finished (λ r' _. total r'.tally ≡ r'.claimed) (tick run o s) (counted run o s) e
