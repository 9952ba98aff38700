-- ===== src/Workflow/Engine/Walks.antt =====
-- An instance of packages/workflow/src/engine.ts walks along the edges of its playbook's graph.
use burkham_wickmont_operati.Prelude.{
  Bool, not, ◌==◌, arith, inl, all, String, [], some, false, ◌≡◌, includes, update_where, refl, ℕ,
  &&_split, Option, none, true, List, Bool-cases, ◌∷◌, inr, ◌||◌,
}
use burkham_wickmont_operati.Workflow.State.{
  log, update_instance, Ran, WorkflowInstance, EngineState, Invocation, on_tasks, has_instance,
  task_failed, ◌awaits◌, BranchTaken, task_succeeded, tasks_or_reject, task_dead_lettered,
  instance_failed,
}
use burkham_wickmont_operati.Workflow.Playbook.{PlaybookDefinition, PlaybookNode, node_at}
use burkham_wickmont_operati.Workflow.Engine.{
  ended, record_failure, advance_along, log_decision, advance_to, moved, after_failure,
  failure_written,
}
use burkham_wickmont_operati.Workflow.Queue.{
  FailureDisposition, retry_scheduled, fail_task, dead_lettered, Tasks, succeed, EnqueueInput, Task,
  enqueue,
}
use burkham_wickmont_operati.Workflow.Instances.{enqueue_node, node_input, enqueue_or_reject}
use burkham_wickmont_operati.Workflow.State.Ensures.{Ensures, awaits-Ensures}

abbrev pub is_among : List String → Option String → Bool
is_among keys none = false
is_among keys (some key) = includes keys key

-- a row of this identifier stands at one of these nodes
abbrev pub stands_at : ℕ → List String → WorkflowInstance → Bool
stands_at id keys i = not (i.id == id) || is_among keys i.current_node_key

abbrev pub AllAt : ℕ → List String → EngineState → Type 0
AllAt id keys s = all (stands_at id keys) s.instances ≡ true

-- an update of an instance that moves it to one of the nodes, or leaves it where it is
pub update_where-kept :
    (q p : WorkflowInstance → Bool) (f : WorkflowInstance → WorkflowInstance)
    (is : List WorkflowInstance)
    → ((i : WorkflowInstance) → q i ≡ true → q (f i) ≡ true)
    → all q is ≡ true
    → all q (update_where p f is) ≡ true
update_where-kept q p f [] h k = refl
update_where-kept q p f (i ∷ is) h k =
    let (a, b) = &&_split (q i) (all q is) k in
    elim (Bool-cases (p i)) [
      | inl e ↦ rw (e, h i a) (update_where-kept q p f is h b)
      | inr e ↦ rw (e, a) (update_where-kept q p f is h b)
    ]

module _ (id : ℕ) (keys : List String) where
  pub instance-at :
      (j : ℕ) (f : WorkflowInstance → WorkflowInstance) (s : EngineState)
      → ((i : WorkflowInstance) → stands_at id keys i ≡ true → stands_at id keys (f i) ≡ true)
      → AllAt id keys s
      → Ensures (λ _ s'. AllAt id keys s') (update_instance j f s)
  unfolding update_instance
  instance-at j f s h k = elim (Bool-cases (has_instance s.instances j)) [
    | inl there ↦ rw there (
        update_where-kept (stands_at id keys) (λ (i : WorkflowInstance). i.id == j) f s.instances h
          k)
    | inr gone ↦ rw gone tt
  ]

  pub on_tasks-at :
      (f : Tasks → Option Tasks) (s : EngineState)
      → AllAt id keys s
      → Ensures (λ _ s'. AllAt id keys s') (on_tasks f s)
  on_tasks-at f s h = written (f s.tasks)
    where
      written : (o : Option Tasks) → Ensures (λ _ s'. AllAt id keys s') (tasks_or_reject o s)
      written none = tt
      written (some ts) = h

  pub moves :
      {A B : Type 0} (m : Ran A) (f : A → EngineState → Ran B)
      → Ensures (λ _ s'. AllAt id keys s') m
      → ((a : A) (s : EngineState) → AllAt id keys s → Ensures (λ _ s'. AllAt id keys s') (f a s))
      → Ensures (λ _ s'. AllAt id keys s') (m awaits f)
  moves m f h k = awaits-Ensures (λ _ s'. AllAt id keys s') (λ _ s'. AllAt id keys s') m f h k

  after_failure-at :
      (run : Invocation) (t : Task) (error : String) (r : FailureDisposition) (s : EngineState)
      → AllAt id keys s
      → Ensures (λ _ s'. AllAt id keys s') (after_failure run t error r s)
  unfolding after_failure
  after_failure-at run t error (retry_scheduled at attempt) s h = h
  after_failure-at run t error (dead_lettered attempts) s h =
      moves
        (update_instance t.instance_id (ended instance_failed run.now)
          (log t.tenant_id run none (task_dead_lettered t.id t.instance_id attempts) s))
        _
        (instance-at t.instance_id (ended instance_failed run.now)
          (log t.tenant_id run none (task_dead_lettered t.id t.instance_id attempts) s) (λ i k. k)
          h)
        (λ _ s' k. k)

  pub record_failure-at :
      (run : Invocation) (t : Task) (error : String) (s : EngineState)
      → AllAt id keys s
      → Ensures (λ _ s'. AllAt id keys s') (record_failure run t error s)
  unfolding record_failure
  record_failure-at run t error s h =
      moves (failure_written (fail_task t error run.now s.tasks) s) _
        (written (fail_task t error run.now s.tasks))
        (λ r s1 k.
          after_failure-at run t error r
            (log t.tenant_id run none (task_failed t.id t.instance_id t.node_key error t.attempts)
              s1)
            k)
    where
      written :
          (o : Option (Tasks × FailureDisposition))
          → Ensures (λ _ s'. AllAt id keys s') (failure_written o s)
      written none = tt
      written (some (ts, r)) = h

  enqueue_node-at :
      (i tenant : ℕ) (key : String) (n : PlaybookNode) (now : ℕ) (s : EngineState)
      → AllAt id keys s
      → Ensures (λ _ s'. AllAt id keys s') (enqueue_node i tenant key n now s)
  unfolding enqueue_node enqueue
  enqueue_node-at i tenant key n now s h = queued (node_input i tenant key n now)
    where
      queued :
          (o : Option EnqueueInput) → Ensures (λ _ s'. AllAt id keys s') (enqueue_or_reject o now s)
      queued none = tt
      queued (some input) = h

  moved-at :
      (key : String) (i : WorkflowInstance)
      → includes keys key ≡ true
      → stands_at id keys (moved key i) ≡ true
  moved-at key i m = rw m (ground arith)

  logged-at :
      (run : Invocation) (t : Task) (i : WorkflowInstance) (key : String) (b : Option BranchTaken)
      (s : EngineState)
      → AllAt id keys s
      → AllAt id keys (
          log t.tenant_id run none
            (task_succeeded i.id t.id t.node_key key)
            (log_decision b run t i s))
  logged-at run t i key none s h = h
  logged-at run t i key (some b) s h = h

  advance_along-at :
      (run : Invocation) (t : Task) (i : WorkflowInstance) (key : String) (n : PlaybookNode)
      (b : Option BranchTaken) (s : EngineState)
      → includes keys key ≡ true
      → AllAt id keys s
      → Ensures (λ _ s'. AllAt id keys s') (advance_along run t i key n b s)
  unfolding advance_along
  advance_along-at run t i key n b s m h =
      moves (on_tasks (succeed t.id) s) _ (on_tasks-at (succeed t.id) s h) (λ _ s1 h1.
        moves (update_instance i.id (moved key) s1) _
          (instance-at i.id (moved key) s1 (λ j _. moved-at key j m) h1)
          (λ _ s2 h2.
            moves (enqueue_node i.id t.tenant_id key n run.now s2) _
              (enqueue_node-at i.id t.tenant_id key n run.now s2 h2)
              (λ _ s3 h3. logged-at run t i key b s3 h3)))

  pub advance_to-at :
      (run : Invocation) (t : Task) (i : WorkflowInstance) (d : PlaybookDefinition) (key : String)
      (b : Option BranchTaken) (s : EngineState)
      → includes keys key ≡ true
      → AllAt id keys s
      → Ensures (λ _ s'. AllAt id keys s') (advance_to run t i d key b s)
  unfolding advance_to
  advance_to-at run t i d key b s m h = by_target (node_at d.nodes key)
    where
      by_target :
          (o : Option PlaybookNode)
          → Ensures
              (λ _ s'. AllAt id keys s')
              (elim o [
                | none ↦ record_failure run t "next node not found" s
                | some n ↦ advance_along run t i key n b s
              ])
      by_target none = record_failure-at run t "next node not found" s h
      by_target (some n) = advance_along-at run t i key n b s m h
