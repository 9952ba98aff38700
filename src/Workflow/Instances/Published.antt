-- ===== src/Workflow/Instances/Published.antt =====
-- What publishing in packages/workflow/src/engine.ts does to the playbooks.
use burkham_wickmont_operati.Prelude.{
  inl, none, All, eq_iff, str_eq, ◌==◌, &&_split, ◌∷◌, some, Option, false, ◌&&◌, String, true,
  Bool-cases, update_where, ==_iff, List, Bool, find, refl, ◌≡◌, [], inr, ℕ,
}
use burkham_wickmont_operati.Core.Outcome.{not_ok, Outcome, refused, invalid_playbook}
use burkham_wickmont_operati.Workflow.State.{Invocation, EngineState, PlaybookRow}
use burkham_wickmont_operati.Workflow.Playbook.{
  issues, PlaybookDefinition, is_valid, Validation, validate, validate_loops, validate_throws,
}
use burkham_wickmont_operati.Workflow.Instances.{
  threw, issues, republished, publish_playbook, definition_for, PublishInput, is_version,
  upsert_playbook, write_playbook,
}

abbrev pub IsValidRow : PlaybookRow → Type 0
IsValidRow row = is_valid row.definition ≡ true

valid_if_no_issue : (d : PlaybookDefinition) → validate d ≡ issues [] → is_valid d ≡ true
unfolding is_valid
valid_if_no_issue d e = rw (is_valid, e) refl

republished-All :
    (i : PublishInput) (now : ℕ) (rows : List PlaybookRow)
    → is_valid i.definition ≡ true
    → All IsValidRow rows
    → All IsValidRow (update_where (is_version i.key i.version) (republished i now) rows)
republished-All i now [] v h = tt
republished-All i now (row ∷ rows) v h = elim (Bool-cases (is_version i.key i.version row)) [
  | inl e ↦ rw e (v, republished-All i now rows v h.1)
  | inr e ↦ rw e (h.0, republished-All i now rows v h.1)
]

upsert_playbook-valid :
    (o : Option PlaybookRow) (i : PublishInput) (now : ℕ) (s : EngineState)
    → is_valid i.definition ≡ true
    → All IsValidRow s.playbooks
    → All IsValidRow (upsert_playbook o i now s).playbooks
upsert_playbook-valid none i now s v h = (v, h)
upsert_playbook-valid (some row) i now s v h = republished-All i now s.playbooks v h

-- No playbook that `validate` finds an issue in is ever stored: publishing, whether it adds a version
-- or rewrites one, keeps every stored definition valid.
pub publish_playbook-valid :
    (run : Invocation) (i : PublishInput) (s : EngineState)
    → All IsValidRow s.playbooks
    → All IsValidRow (publish_playbook run i s).1.playbooks
unfolding publish_playbook
publish_playbook-valid run i s h = by_validation (validate i.definition) refl
  where
    by_validation :
        (v : Validation)
        → validate i.definition ≡ v
        → All IsValidRow
            (elim v as (λ _. Outcome ℕ × EngineState) [
              | issues [] ↦ write_playbook run i s
              | issues (_ ∷ _) ↦ (refused invalid_playbook, s)
              | validate_throws ↦ (not_ok threw, s)
              | validate_loops ↦ (not_ok threw, s)
            ]).1.playbooks
    by_validation (issues []) e =
        upsert_playbook-valid (find (is_version i.key i.version) s.playbooks) i run.now s
          (valid_if_no_issue i.definition e) h
    by_validation (issues (x ∷ xs)) e = h
    by_validation validate_throws e = h
    by_validation validate_loops e = h

find-update_where :
    {A : Type 0} (p q : A → Bool) (f : A → A) (xs : List A)
    → ((x : A) → q x ≡ true → p x ≡ false)
    → ((x : A) → q x ≡ true → p (f x) ≡ false)
    → find p (update_where q f xs) ≡ find p xs
find-update_where p q f [] h k = refl
find-update_where p q f (x ∷ xs) h k = elim (Bool-cases (q x)) [
  | inl e ↦ rw (e, h x e, k x e) (find-update_where p q f xs h k)
  | inr e ↦ rw (e, find-update_where p q f xs h k) refl
]

module _ (key : String) (version : ℕ) (i : PublishInput) where
  other_version :
      (row : PlaybookRow)
      → (str_eq i.key key && i.version == version) ≡ false
      → is_version i.key i.version row ≡ true
      → is_version key version row ≡ false
  other_version row h e =
      let (a, b) = &&_split (str_eq row.key i.key) (row.version == i.version) e in
      let same_key : row.key ≡ i.key = (eq_iff row.key i.key).0 a in
      let same_version : row.version ≡ i.version = (==_iff row.version i.version).0 b in
      rw (same_key, same_version) h

  upsert_playbook-other :
      (o : Option PlaybookRow) (now : ℕ) (s : EngineState)
      → (str_eq i.key key && i.version == version) ≡ false
      → definition_for key version (upsert_playbook o i now s) ≡ definition_for key version s
  unfolding definition_for
  upsert_playbook-other none now s h = rw h refl
  upsert_playbook-other (some row) now s h =
      rw
        (find-update_where (is_version key version) (is_version i.key i.version) (republished i now)
          s.playbooks (λ x e. other_version x h e) (λ x e. other_version x h e))
        refl

  -- The graph that an instance is pinned to does not change when another version is published, or
  -- another playbook.
  publish_playbook-pinned :
      (run : Invocation) (s : EngineState)
      → (str_eq i.key key && i.version == version) ≡ false
      → definition_for key version (publish_playbook run i s).1 ≡ definition_for key version s
  unfolding publish_playbook definition_for
  publish_playbook-pinned run s h = by_validation (validate i.definition)
    where
      by_validation :
          (v : Validation)
          → definition_for key version
              (elim v as (λ _. Outcome ℕ × EngineState) [
                | issues [] ↦ write_playbook run i s
                | issues (_ ∷ _) ↦ (refused invalid_playbook, s)
                | validate_throws ↦ (not_ok threw, s)
                | validate_loops ↦ (not_ok threw, s)
              ]).1
            ≡ definition_for key version s
      by_validation (issues []) =
          upsert_playbook-other (find (is_version i.key i.version) s.playbooks) run.now s h
      by_validation (issues (x ∷ xs)) = refl
      by_validation validate_throws = refl
      by_validation validate_loops = refl
