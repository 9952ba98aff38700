-- ===== src/Workflow/Engine/Failures.antt =====
-- How packages/workflow/src/engine.ts records a failure: on the task, and on its instance.
use mathlib.Core.Path.{subst}
use burkham_wickmont_operati.Prelude.{
  leb, none, ℕ, update_where, refl, not, ◌||◌, Bool-cases, inr, true, Bool, String, ◌==◌, inl, [],
  all, false, Option, ◌∷◌, arith, ◌≡◌, ◌&&◌, some, List, sym,
}
use burkham_wickmont_operati.Workflow.State.{
  log, finished, WorkflowInstance, EngineState, instance_failed, update_instance, Invocation,
  task_failed, task_dead_lettered, has_instance,
}
use burkham_wickmont_operati.Workflow.Engine.{failure_written, record_failure, after_failure, ended}
use burkham_wickmont_operati.Workflow.Queue.{
  FailureDisposition, Task, TaskStatus, fail_task, dead_lettered, dead_letter, buried, has_id,
}
use burkham_wickmont_operati.Workflow.Instances.{same_status}
use burkham_wickmont_operati.Workflow.State.Ensures.{Ensures-finished, awaits-Ensures, Ensures}

abbrev pub is_time : ℕ → Option ℕ → Bool
is_time now none = false
is_time now (some t) = t == now

-- an instance with this identifier has ended in failure, at this time
abbrev pub is_failed_at : ℕ → ℕ → WorkflowInstance → Bool
is_failed_at id now i =
    not (i.id == id) || (same_status i.status instance_failed && is_time now i.completed_at)

abbrev pub is_dead : TaskStatus → Bool
is_dead dead_letter = true
is_dead _ = false

abbrev pub is_buried : ℕ → Task → Bool
is_buried id t = not (t.id == id) || is_dead t.status

pub update_where-all :
    {A : Type 0} (q p : A → Bool) (f : A → A) (xs : List A)
    → ((x : A) → p x ≡ true → q (f x) ≡ true)
    → ((x : A) → p x ≡ false → q x ≡ true)
    → all q (update_where p f xs) ≡ true
update_where-all q p f [] h k = refl
update_where-all q p f (x ∷ xs) h k = elim (Bool-cases (p x)) [
  | inl e ↦ rw (e, h x e) (update_where-all q p f xs h k)
  | inr e ↦ rw (e, k x e) (update_where-all q p f xs h k)
]

pub update_instance-finished :
    (id : ℕ) (f : WorkflowInstance → WorkflowInstance) (s : EngineState) {u : Unit}
    {s' : EngineState}
    → update_instance id f s ≡ finished u s'
    → s'
      ≡ record s { instances = update_where (λ (i : WorkflowInstance). i.id == id) f s.instances }
unfolding update_instance
update_instance-finished id f s e = ground arith

IsLast : Task → FailureDisposition → EngineState → Type 0
IsLast t r s = (r ≡ dead_lettered t.attempts) × (all (is_buried t.id) s.tasks ≡ true)

written-IsLast :
    (t : Task) (error : String) (now : ℕ) (s : EngineState)
    → leb t.max_attempts t.attempts ≡ true
    → Ensures (IsLast t) (failure_written (fail_task t error now s.tasks) s)
unfolding fail_task IsLast
written-IsLast t error now s last = elim (Bool-cases (has_id s.tasks t.id)) [
  | inl there ↦
      rw (last, there)
        (
          refl,
          update_where-all (is_buried t.id) (λ u. u.id == t.id) (buried error) s.tasks
              (λ u e. ground arith) (λ u e. ground arith),
        )
  | inr gone ↦ rw (last, gone) tt
]

IsOver : ℕ → Task → EngineState → Type 0
IsOver now t s =
    (all (is_failed_at t.instance_id now) s.instances ≡ true)
    × (all (is_buried t.id) s.tasks ≡ true)

instance-IsOver :
    (now : ℕ) (t : Task) (s : EngineState)
    → all (is_buried t.id) s.tasks ≡ true
    → Ensures
        (λ _ s'. IsOver now t s')
        (update_instance t.instance_id (ended instance_failed now) s)
unfolding update_instance IsOver
instance-IsOver now t s h = elim (Bool-cases (has_instance s.instances t.instance_id)) [
  | inl there ↦ rw there (
    update_where-all (is_failed_at t.instance_id now)
        (λ (i : WorkflowInstance). i.id == t.instance_id) (ended instance_failed now) s.instances
        (λ i e. ground arith) (λ i e. ground arith),
    h,
  )
  | inr gone ↦ rw gone tt
]

over :
    (run : Invocation) (t : Task) (error : String) (attempts : ℕ) (s : EngineState)
    → all (is_buried t.id) s.tasks ≡ true
    → Ensures (λ _ s'. IsOver run.now t s') (after_failure run t error (dead_lettered attempts) s)
unfolding after_failure IsOver
over run t error attempts s h =
    awaits-Ensures (λ _ s'. IsOver run.now t s') (λ _ s'. IsOver run.now t s')
      (update_instance t.instance_id (ended instance_failed run.now)
        (log t.tenant_id run none (task_dead_lettered t.id t.instance_id attempts) s))
      _
      (instance-IsOver run.now t
        (log t.tenant_id run none (task_dead_lettered t.id t.instance_id attempts) s) h)
      (λ _ s' k. k)

-- A task that has used up its attempts cannot fail in silence: when the failure is recorded, its row
-- is dead-lettered, and its instance has ended in failure at that moment.
pub record_failure-last :
    (run : Invocation) (t : Task) (error : String) (s s' : EngineState)
    → leb t.max_attempts t.attempts ≡ true
    → record_failure run t error s ≡ finished tt s'
    → (all (is_failed_at t.instance_id run.now) s'.instances ≡ true)
      × (all (is_buried t.id) s'.tasks ≡ true)
unfolding record_failure IsLast IsOver
record_failure-last run t error s s' last e =
    Ensures-finished (λ _ s''. IsOver run.now t s'') (record_failure run t error s)
      (awaits-Ensures (IsLast t) (λ _ s''. IsOver run.now t s'')
        (failure_written (fail_task t error run.now s.tasks) s) _
        (written-IsLast t error run.now s last)
        (λ r s1 h.
          subst
            (λ d.
              Ensures (λ _ s''. IsOver run.now t s'')
                (after_failure run t error d (
                  log t.tenant_id run none
                    (task_failed t.id t.instance_id t.node_key error t.attempts) s1)))
            (sym h.0)
            (over run t error t.attempts
              (log t.tenant_id run none (task_failed t.id t.instance_id t.node_key error t.attempts)
                s1)
              h.1)))
      e
