-- ===== src/Workflow/Instances/Latest.antt =====
-- The version that starting in packages/workflow/src/engine.ts pins an instance to.
use mathlib.Core.Path.{subst}
use mathlib.Core.Option.{some-injective, none-ne-some}
use burkham_wickmont_operati.Prelude.{
  inl, none, All, leb, ◌∷◌, some, Option, first_by, true, Bool-cases, List, Bool, refl, ◌≡◌, [],
  inr, Option-cases, sym, arith, All-weaken, filter, not, all, ◌||◌, suc, ap, ◌&&◌, any, ◌==◌, ℕ,
  String, any-filter,
}
use burkham_wickmont_operati.Core.Outcome.{
  Outcome, ok, failed, start_node_unresolved, no_data, ok-injective, no_playbook,
}
use burkham_wickmont_operati.Workflow.State.{
  finished, log, Invocation, EngineState, PlaybookRow, WorkflowInstance, workflow_started, Ran,
  ◌awaits◌,
}
use burkham_wickmont_operati.Workflow.Playbook.{PlaybookNode, node_at}
use burkham_wickmont_operati.Workflow.Instances.{
  rejected, later_version, is_active_under, StartInput, start_instance, start_at, outcome_of,
  latest_active, enqueue_node, new_instance,
}

abbrev NotLater : PlaybookRow → PlaybookRow → Type 0
NotLater y r = leb r.version y.version ≡ true

first_by-none :
    (P : PlaybookRow → Type 0) (rows : List PlaybookRow)
    → first_by later_version rows ≡ none
    → All P rows
first_by-none P [] e = tt
first_by-none P (row ∷ rows) e = elim (Option-cases (first_by later_version rows)) [
  | inl no_rest ↦ absurd (none-ne-some _ (sym (rw (first_by, no_rest) at e)))
  | inr (z, rest) ↦ ground arith
]

first_by-latest :
    (rows : List PlaybookRow) (y : PlaybookRow)
    → first_by later_version rows ≡ some y
    → All (NotLater y) rows
first_by-latest [] y e = tt
first_by-latest (row ∷ rows) y e = elim (Option-cases (first_by later_version rows)) [
  | inl no_rest ↦ (ground arith, first_by-none (NotLater y) rows no_rest)
  | inr (z, rest) ↦ elim (Bool-cases (later_version z row)) [
    | inl later_one ↦
        let same : z ≡ y = some-injective _ _ (rw (first_by, rest, later_one) at e) in
        (
          subst (λ v. NotLater v row) same (ground arith),
          subst (λ v. All (NotLater v) rows) same (first_by-latest rows z rest),
        )
    | inr not_later ↦
        let same : row ≡ y = some-injective _ _ (rw (first_by, rest, not_later) at e) in
        (
          subst (λ v. NotLater v row) same (ground arith),
          subst (λ v. All (NotLater v) rows) same
              (All-weaken (NotLater z) (NotLater row) rows (λ r h. ground arith)
                (first_by-latest rows z rest)),
        )
  ]
]

filtered_latest :
    (p : PlaybookRow → Bool) (y : PlaybookRow) (rows : List PlaybookRow)
    → All (NotLater y) (filter p rows)
    → all (λ r. not (p r) || leb r.version y.version) rows ≡ true
filtered_latest p y [] h = refl
filtered_latest p y (row ∷ rows) h = elim (Bool-cases (p row)) [
  | inl e ↦
      let kept : All (NotLater y) (row ∷ filter p rows) = rw (filter, e) at h in
      rw (e, kept.0) (filtered_latest p y rows kept.1)
  | inr e ↦ rw e (filtered_latest p y rows (rw (filter, e) at h))
]

first_by-version :
    (rows : List PlaybookRow) (y : PlaybookRow)
    → first_by later_version rows ≡ some y
    → any (λ r. r.version == y.version) rows ≡ true
first_by-version [] y e = absurd (none-ne-some _ e)
first_by-version (row ∷ rows) y e = elim (Option-cases (first_by later_version rows)) [
  | inl no_rest ↦
      let same : row ≡ y = some-injective _ _ (rw (first_by, no_rest) at e) in
      subst (λ v. any (λ r. r.version == v.version) (row ∷ rows) ≡ true) same (ground arith)
  | inr (z, rest) ↦ elim (Bool-cases (later_version z row)) [
    | inl later_one ↦
        let same : z ≡ y = some-injective _ _ (rw (first_by, rest, later_one) at e) in
        subst (λ v. any (λ r. r.version == v.version) (row ∷ rows) ≡ true) same
          (ground (arith, first_by-version rows z rest))
    | inr not_later ↦
        let same : row ≡ y = some-injective _ _ (rw (first_by, rest, not_later) at e) in
        subst (λ v. any (λ r. r.version == v.version) (row ∷ rows) ≡ true) same (ground arith)
  ]
]

created_by :
    (m : Ran Unit) (c : WorkflowInstance) (g : EngineState → EngineState) {inst : WorkflowInstance}
    {s' : EngineState}
    → outcome_of (m awaits λ _ s. finished c (g s)) ≡ (ok inst, s')
    → c ≡ inst
created_by (finished u s) c g e =
    ok-injective (ap (λ (x : Outcome WorkflowInstance × EngineState). x.0) e)
created_by (rejected s) c g e = cc

outcome_started :
    (run : Invocation) (i : StartInput) (row : PlaybookRow) (n : PlaybookNode) (s s' : EngineState)
    {inst : WorkflowInstance}
    → outcome_of (start_at run i row n s) ≡ (ok inst, s')
    → inst.playbook_version ≡ row.version
unfolding start_at
outcome_started run i row n s s' e =
    let created = new_instance i row s.next_id run.now in
    sym (
      ap (λ (j : WorkflowInstance). j.playbook_version)
        (created_by
          (enqueue_node created.id i.tenant_id row.definition.start_node n run.now
            (record s { instances = created ∷ s.instances; next_id = suc s.next_id }))
          created
          (λ s''.
            log i.tenant_id run i.client_id (workflow_started created.id i.playbook_key row.version)
              s'')
          e))

-- the version is that of an active row of the key, and no active row of the key has a higher one
abbrev pub IsLatest : String → List PlaybookRow → ℕ → Type 0
IsLatest key rows version =
    (any (λ r. is_active_under key r && r.version == version) rows ≡ true)
    × (all (λ r. not (is_active_under key r) || leb r.version version) rows ≡ true)

-- An instance starts on the latest active version of its playbook, and is pinned to it: its version is
-- that of an active row of its key, and no active row of that key has a higher version.
pub start_instance-IsLatest :
    (run : Invocation) (i : StartInput) (inst : WorkflowInstance) (s s' : EngineState)
    → start_instance run i s ≡ (ok inst, s')
    → IsLatest i.playbook_key s.playbooks inst.playbook_version
unfolding start_instance latest_active
start_instance-IsLatest run i inst s s' e =
    by_row (first_by later_version (filter (is_active_under i.playbook_key) s.playbooks)) refl e
  where
    by_node :
        (row : PlaybookRow) (o : Option PlaybookNode)
        → first_by later_version (filter (is_active_under i.playbook_key) s.playbooks) ≡ some row
        → (elim o as (λ _. Outcome WorkflowInstance × EngineState) [
          | none ↦ (failed start_node_unresolved, s)
          | some n ↦ outcome_of (start_at run i row n s)
        ])
          ≡ (ok inst, s')
        → IsLatest i.playbook_key s.playbooks inst.playbook_version
    by_node row none r h = cc
    by_node row (some n) r h =
        let offered = filter (is_active_under i.playbook_key) s.playbooks in
        subst (IsLatest i.playbook_key s.playbooks) (sym (outcome_started run i row n s s' h)) (
          any-filter (is_active_under i.playbook_key) (λ r. r.version == row.version) s.playbooks
              (first_by-version offered row r),
          filtered_latest (is_active_under i.playbook_key) row s.playbooks
              (first_by-latest offered row r),
        )

    by_row :
        (o : Option PlaybookRow)
        → first_by later_version (filter (is_active_under i.playbook_key) s.playbooks) ≡ o
        → (elim o as (λ _. Outcome WorkflowInstance × EngineState) [
          | none ↦ (no_data no_playbook, s)
          | some row ↦ elim (node_at row.definition.nodes row.definition.start_node) [
            | none ↦ (failed start_node_unresolved, s)
            | some n ↦ outcome_of (start_at run i row n s)
          ]
        ])
          ≡ (ok inst, s')
        → IsLatest i.playbook_key s.playbooks inst.playbook_version
    by_row none r h = cc
    by_row (some row) r h = by_node row (node_at row.definition.nodes row.definition.start_node) r h
