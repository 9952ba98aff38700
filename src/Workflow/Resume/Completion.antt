-- ===== src/Workflow/Resume/Completion.antt =====
-- What completing external work in packages/workflow/src/engine.ts does to the context, and what a
-- refusal leaves.
use burkham_wickmont_operati.Prelude.{
  none, if◌then◌else◌, inl, arith, ℕ, refl, Bool-cases, String, some, ◌⊎◌, true, false, str_eq, inr,
  Option, ◌≡◌, Bool, eq_iff,
}
use burkham_wickmont_operati.Core.Outcome.{
  Outcome, refused, node_unresolvable, not_external, instance_gone, ok, no_data, not_waiting,
  no_workflow_task, failed,
}
use burkham_wickmont_operati.Workflow.Resume.{
  finished, rejected, found_again, find_in_tenant, with_field, merge, complete_node,
  complete_external_task, complete_task, external_next, complete_at,
}
use burkham_wickmont_operati.Workflow.State.{
  find_instance, Ran, EngineState, Invocation, WorkflowInstance,
}
use burkham_wickmont_operati.Workflow.Playbook.{PlaybookNode, PlaybookDefinition}
use burkham_wickmont_operati.Workflow.Engine.{node_in}
use burkham_wickmont_operati.Workflow.Queue.{is_waiting, Task, TaskKind}
use burkham_wickmont_operati.Workflow.Instances.{definition_for}
use burkham_wickmont_operati.Workflow.Predicate.{
  no_fields, field, own_field, Resolved, Value, Fields, value_found, missing_value,
}

own_field-with_field :
    (k name : String) (v : Value) (fs : Fields)
    → own_field (with_field name v fs) k ≡ (if str_eq k name then value_found v else own_field fs k)
own_field-with_field k name v no_fields = refl
own_field-with_field k name v (field other_name u fs) = elim (Bool-cases (str_eq name other_name)) [
  | inl e ↦ rw e (ground (arith, eq_iff k other_name, eq_iff k name, eq_iff name other_name))
  | inr e ↦ rw e (
      ground (
        arith,
        eq_iff k other_name,
        eq_iff k name,
        eq_iff name other_name,
        own_field-with_field k name v fs,
      ))
]

abbrev pub or_found : Resolved → Resolved → Resolved
or_found missing_value r = r
or_found (value_found v) r = value_found v

-- A completed task's result is merged into the context: a key of the patch reads as the patch has
-- it, and every other key keeps the value that it had, so no completion erases another's result.
own_field-merge :
    (context patch : Fields) (k : String)
    → own_field (merge context patch) k ≡ or_found (own_field patch k) (own_field context k)
unfolding merge
own_field-merge context no_fields k = refl
own_field-merge context (field name v fs) k = elim (Bool-cases (str_eq k name)) [
  | inl e ↦ rw (own_field-with_field k name v (merge context fs), e) refl
  | inr e ↦ rw (own_field-with_field k name v (merge context fs), e) (own_field-merge context fs k)
]

-- the calls that end without the advance
abbrev pub is_early : Outcome WorkflowInstance → Bool
is_early (refused r) = true
is_early (no_data m) = true
is_early (failed node_unresolvable) = true
is_early (failed not_external) = true
is_early _ = false

found_again-late : (i : ℕ) (m : Ran Unit) → is_early (found_again i m).0 ≡ false
unfolding found_again
found_again-late i (rejected s) = refl
found_again-late i (finished u s) = by_instance (find_instance i s)
  where
    by_instance :
        (o : Option WorkflowInstance)
        → is_early
            (elim o as (λ _. Outcome WorkflowInstance × EngineState) [
              | none ↦ (failed instance_gone, s)
              | some j ↦ (ok j, s)
            ]).0
          ≡ false
    by_instance none = refl
    by_instance (some j) = refl

-- whether an early end leaves the tables alone
IsUntouched : EngineState → Outcome WorkflowInstance × EngineState → Type 0
IsUntouched s r = (is_early r.0 ≡ false) ⊎ (r.1 ≡ s)

module _ (run : Invocation) (t : Task) (patch : Fields) (s : EngineState) where
  complete_node-IsUntouched :
      (i : WorkflowInstance) (d : PlaybookDefinition) (n : PlaybookNode)
      → IsUntouched s (complete_node run t i d n patch s)
  unfolding IsUntouched
  complete_node-IsUntouched i d n = by_next (external_next n)
    where
      by_next :
          (o : Option (TaskKind × String))
          → IsUntouched s (elim o [
            | none ↦ (failed not_external, s)
            | some to ↦ found_again i.id (complete_at run t i d to patch s)
          ])
      by_next none = inr refl
      by_next (some to) = inl (found_again-late i.id (complete_at run t i d to patch s))

  complete_task-IsUntouched : IsUntouched s (complete_task run t patch s)
  unfolding complete_task IsUntouched
  complete_task-IsUntouched = by_instance (find_instance t.instance_id s)
    where
      by_node :
          (i : WorkflowInstance) (o : Option (PlaybookDefinition × PlaybookNode))
          → IsUntouched s (elim o [
            | none ↦ (failed node_unresolvable, s)
            | some (d, n) ↦ complete_node run t i d n patch s
          ])
      by_node i none = inr refl
      by_node i (some (d, n)) = complete_node-IsUntouched i d n

      by_instance :
          (o : Option WorkflowInstance)
          → IsUntouched s (elim o [
            | none ↦ (failed instance_gone, s)
            | some i ↦
                elim (node_in (definition_for i.playbook_key i.playbook_version s) t.node_key) [
                  | none ↦ (failed node_unresolvable, s)
                  | some (d, n) ↦ complete_node run t i d n patch s
                ]
          ])
      by_instance none = inr refl
      by_instance (some i) =
          by_node i (node_in (definition_for i.playbook_key i.playbook_version s) t.node_key)

-- A completion that is refused, that finds no such task in the tenant, or whose node is gone or is
-- not work that is done outside, changes no table: neither the task, nor the instance's context, nor
-- the ledger.
complete_external_task-untouched :
    (run : Invocation) (tenant id : ℕ) (patch : Fields) (s : EngineState)
    → is_early (complete_external_task run tenant id patch s).0 ≡ true
    → (complete_external_task run tenant id patch s).1 ≡ s
unfolding complete_external_task IsUntouched
complete_external_task-untouched run tenant id patch s h =
    elim (by_task (find_in_tenant tenant id s.tasks)) [ inl late ↦ ground arith | inr same ↦ same ]
  where
    by_status :
        (t : Task) (b : Bool)
        → IsUntouched s (if b then complete_task run t patch s else (refused not_waiting, s))
    by_status t true = complete_task-IsUntouched run t patch s
    by_status t false = inr refl

    by_task :
        (o : Option Task)
        → IsUntouched s (elim o [
          | none ↦ (no_data no_workflow_task, s)
          | some t ↦
              if is_waiting t.status then complete_task run t patch s else (refused not_waiting, s)
        ])
    by_task none = inr refl
    by_task (some t) = by_status t (is_waiting t.status)
