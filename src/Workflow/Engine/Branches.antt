-- ===== src/Workflow/Engine/Branches.antt =====
-- The branch that a decision of packages/workflow/src/engine.ts takes.
use mathlib.Core.Path.{subst}
use burkham_wickmont_operati.Prelude.{
  ◌++◌, ◌≢◌, includes, All, ◌≡◌, true, List, ◌∷◌, map, false, [], refl, String, ap,
}
use burkham_wickmont_operati.Workflow.State.{BranchTaken}
use burkham_wickmont_operati.Workflow.Playbook.{Branch}
use burkham_wickmont_operati.Workflow.Engine.{
  valid, decide, Decided, takes_branch, broken_predicate, predicate_throws,
}
use burkham_wickmont_operati.Workflow.Predicate.{
  throws, valid, evaluate, EvaluationResult, invalid, EvaluationScope,
}
use burkham_wickmont_operati.Workflow.Playbook.Collected.{includes-here, includes-later}

abbrev IsFalse : EvaluationScope → Branch → Type 0
IsFalse scope b = evaluate scope b.condition ≡ valid false

-- what the first branch that is not false decides
abbrev pub first_choice : Branch → EvaluationResult → Decided
first_choice b (valid v) = takes_branch (record { target = b.next; via_otherwise = false })
first_choice b (invalid p) = broken_predicate
first_choice b throws = predicate_throws

-- Branches are tried in order: after branches that are all false, the first one that is true is
-- taken, and one that cannot be evaluated, or throws, breaks the decision, whatever stands after it.
decide-first :
    (scope : EvaluationScope) (before : List Branch) (b : Branch) (after_it : List Branch)
    (otherwise : String)
    → All (λ (c : Branch). evaluate scope c.condition ≡ valid false) before
    → evaluate scope b.condition ≢ valid false
    → decide scope (before ++ b ∷ after_it) otherwise ≡ first_choice b (evaluate scope b.condition)
unfolding decide
decide-first scope [] b after_it otherwise h k = by_result (evaluate scope b.condition) k
  where
    by_result :
        (r : EvaluationResult)
        → r ≢ valid false
        → (elim r [
          | invalid p ↦ broken_predicate
          | throws ↦ predicate_throws
          | valid true ↦ takes_branch (record { target = b.next; via_otherwise = false })
          | valid false ↦ decide scope after_it otherwise
        ])
          ≡ first_choice b r
    by_result (invalid p) k' = refl
    by_result throws k' = refl
    by_result (valid true) k' = refl
    by_result (valid false) k' = absurd (k' refl)
decide-first scope (c ∷ before) b after_it otherwise h k =
    rw (decide, h.0) (decide-first scope before b after_it otherwise h.1 k)

target_or : String → Decided → String
target_or d (takes_branch b) = b.target
target_or d broken_predicate = d
target_or d predicate_throws = d

-- every target that a decision can take is one of its edges
pub decide-target :
    (scope : EvaluationScope) (bs : List Branch) (otherwise : String) (b : BranchTaken)
    → decide scope bs otherwise ≡ takes_branch b
    → includes (map (λ (c : Branch). c.next) bs ++ otherwise ∷ []) b.target ≡ true
unfolding decide target_or
decide-target scope [] otherwise b e =
    subst (λ key. includes (otherwise ∷ []) key ≡ true) (ap (target_or otherwise) e)
      (includes-here otherwise [])
decide-target scope (c ∷ bs) otherwise b e =
    by_result (evaluate scope c.condition) (decide-target scope bs otherwise) e
  where
    by_result :
        (r : EvaluationResult)
        → ((b' : BranchTaken)
            → decide scope bs otherwise ≡ takes_branch b'
            → includes (map (λ (c' : Branch). c'.next) bs ++ otherwise ∷ []) b'.target ≡ true)
        → (elim r [
          | invalid p ↦ broken_predicate
          | throws ↦ predicate_throws
          | valid true ↦ takes_branch (record { target = c.next; via_otherwise = false })
          | valid false ↦ decide scope bs otherwise
        ])
          ≡ takes_branch b
        → includes (c.next ∷ map (λ (c' : Branch). c'.next) bs ++ otherwise ∷ []) b.target ≡ true
    by_result (invalid p) rest h = cc
    by_result throws rest h = cc
    by_result (valid true) rest h =
        subst
          (λ key.
            includes (c.next ∷ map (λ (c' : Branch). c'.next) bs ++ otherwise ∷ []) key ≡ true)
          (ap (target_or otherwise) h) (includes-here c.next _)
    by_result (valid false) rest h = includes-later b.target c.next _ (rest b h)
