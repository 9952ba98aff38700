-- ===== src/Workflow/State/Ensures.antt =====
-- What holds of the tables after a call of packages/workflow/src/engine.ts that is fulfilled, step by
-- step.
use mathlib.Core.Path.{subst}
use burkham_wickmont_operati.Prelude.{
  update_where, Bool, [], All, ◌==◌, inr, ◌≡◌, false, true, ◌∷◌, Bool-cases, inl, ℕ, none, Option,
  String, leb, some,
}
use burkham_wickmont_operati.Workflow.State.{
  rejected, finished, on_tasks, ◌awaits◌, has_instance, Ran, EngineState, WorkflowInstance,
  update_instance, tasks_or_reject,
}
use burkham_wickmont_operati.Workflow.Queue.{
  Task, has_id, update_task, Tasks, next_run, buried, fail_task, FailureDisposition, retried,
  retry_scheduled, with_disposition, dead_lettered,
}
use burkham_wickmont_operati.Workflow.Engine.{failure_written}

abbrev pub Ensures : {A : Type 0} → (A → EngineState → Type 0) → Ran A → Type 0
Ensures P (finished a s) = P a s
Ensures P (rejected s) = Unit

module _ {A : Type 0} where
  pub Ensures-finished :
      (P : A → EngineState → Type 0) (m : Ran A) {a : A} {s : EngineState}
      → Ensures P m
      → m ≡ finished a s
      → P a s
  Ensures-finished P m h e = subst (Ensures P) e h

  pub awaits-Ensures :
      {B : Type 0} (P : A → EngineState → Type 0) (Q : B → EngineState → Type 0) (m : Ran A)
      (f : A → EngineState → Ran B)
      → Ensures P m
      → ((a : A) (s : EngineState) → P a s → Ensures Q (f a s))
      → Ensures Q (m awaits f)
  awaits-Ensures P Q (finished a s) f h k = k a s h
  awaits-Ensures P Q (rejected s) f h k = tt

-- what holds of every row of the queue, or of every instance
abbrev pub OnTasks : (Task → Type 0) → EngineState → Type 0
OnTasks P s = All P s.tasks

module _ (Q : Task → Type 0) where
  update_where-every :
      (p : Task → Bool) (f : Task → Task) (ts : Tasks)
      → ((t : Task) → p t ≡ true → Q (f t))
      → ((t : Task) → p t ≡ false → Q t)
      → All Q (update_where p f ts)
  update_where-every p f [] h k = tt
  update_where-every p f (t ∷ ts) h k = elim (Bool-cases (p t)) [
    | inl e ↦ rw e (h t e, update_where-every p f ts h k)
    | inr e ↦ rw e (k t e, update_where-every p f ts h k)
  ]

  update_where-kept :
      (p : Task → Bool) (f : Task → Task) (ts : Tasks)
      → ((t : Task) → Q t → Q (f t))
      → All Q ts
      → All Q (update_where p f ts)
  update_where-kept p f [] h k = tt
  update_where-kept p f (t ∷ ts) h k = elim (Bool-cases (p t)) [
    | inl e ↦ rw e (h t k.0, update_where-kept p f ts h k.1)
    | inr e ↦ rw e (k.0, update_where-kept p f ts h k.1)
  ]

  -- an update of a row that gives it the property, which the other rows have anyway
  pub on_tasks-sets :
      (id : ℕ) (f : Task → Task) (s : EngineState)
      → ((t : Task) → (t.id == id) ≡ true → Q (f t))
      → ((t : Task) → (t.id == id) ≡ false → Q t)
      → Ensures (λ _ s'. OnTasks Q s') (on_tasks (update_task id f) s)
  on_tasks-sets id f s h k = elim (Bool-cases (has_id s.tasks id)) [
    | inl there ↦ rw there (update_where-every (λ t. t.id == id) f s.tasks h k)
    | inr gone ↦ rw gone tt
  ]

  pub on_tasks-keeps :
      (id : ℕ) (f : Task → Task) (s : EngineState)
      → ((t : Task) → Q t → Q (f t))
      → OnTasks Q s
      → Ensures (λ _ s'. OnTasks Q s') (on_tasks (update_task id f) s)
  on_tasks-keeps id f s h k = elim (Bool-cases (has_id s.tasks id)) [
    | inl there ↦ rw there (update_where-kept (λ t. t.id == id) f s.tasks h k)
    | inr gone ↦ rw gone tt
  ]

  pub update_instance-OnTasks :
      (id : ℕ) (f : WorkflowInstance → WorkflowInstance) (s : EngineState)
      → OnTasks Q s
      → Ensures (λ _ s'. OnTasks Q s') (update_instance id f s)
  unfolding update_instance
  update_instance-OnTasks id f s h = elim (Bool-cases (has_instance s.instances id)) [
    | inl there ↦ rw there h
    | inr gone ↦ rw gone tt
  ]

  written_as_updated :
      (r : FailureDisposition) (o : Option Tasks) (s : EngineState)
      → Ensures (λ _ s'. OnTasks Q s') (tasks_or_reject o s)
      → Ensures (λ _ s'. OnTasks Q s') (failure_written (with_disposition r o) s)
  written_as_updated r none s h = tt
  written_as_updated r (some ts) s h = h

  -- the two ways of recording a failure
  pub fail_task-sets :
      (t : Task) (error : String) (now : ℕ) (s : EngineState)
      → ((u : Task) → (u.id == t.id) ≡ true → Q (buried error u))
      → ((next_at : ℕ) (u : Task) → (u.id == t.id) ≡ true → Q (retried error next_at u))
      → ((u : Task) → (u.id == t.id) ≡ false → Q u)
      → Ensures (λ _ s'. OnTasks Q s') (failure_written (fail_task t error now s.tasks) s)
  unfolding fail_task
  fail_task-sets t error now s b r k = elim (Bool-cases (leb t.max_attempts t.attempts)) [
    | inl last ↦ rw last (
        written_as_updated (dead_lettered t.attempts) (update_task t.id (buried error) s.tasks) s
          (on_tasks-sets t.id (buried error) s b k))
    | inr more ↦ rw more (
        written_as_updated (retry_scheduled (next_run t now) t.attempts)
          (update_task t.id (retried error (next_run t now)) s.tasks) s
          (on_tasks-sets t.id (retried error (next_run t now)) s (r (next_run t now)) k))
  ]

  pub fail_task-keeps :
      (t : Task) (error : String) (now : ℕ) (s : EngineState)
      → ((u : Task) → Q (buried error u))
      → ((next_at : ℕ) (u : Task) → Q (retried error next_at u))
      → OnTasks Q s
      → Ensures (λ _ s'. OnTasks Q s') (failure_written (fail_task t error now s.tasks) s)
  unfolding fail_task
  fail_task-keeps t error now s b r h = elim (Bool-cases (leb t.max_attempts t.attempts)) [
    | inl last ↦ rw last (
        written_as_updated (dead_lettered t.attempts) (update_task t.id (buried error) s.tasks) s
          (on_tasks-keeps t.id (buried error) s (λ u _. b u) h))
    | inr more ↦ rw more (
        written_as_updated (retry_scheduled (next_run t now) t.attempts)
          (update_task t.id (retried error (next_run t now)) s.tasks) s
          (on_tasks-keeps t.id (retried error (next_run t now)) s (λ u _. r (next_run t now) u) h))
  ]
