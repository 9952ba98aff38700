-- ===== src/Workflow/Predicate/Complements.antt =====
-- Negation in packages/workflow/src/predicate.ts.
use burkham_wickmont_operati.Prelude.{
  ◌≡◌, true, Option, some, false, String, List, none, refl, arith,
}
use burkham_wickmont_operati.Workflow.Predicate.{
  eq, neq, is_in, not_in, exists, not_exists, no_more, also, negation, valid, invalid, throws,
  comparison, all_of, any_of, evaluate, Predicates, PredicateOperator, Value, and_also, or_also,
  resolve, EvaluationResult, evaluate_any, negate, evaluate_all, Resolved, EvaluationScope,
  compared,
}

-- the operator that says the contrary, where there is one
abbrev pub contrary : PredicateOperator → Option PredicateOperator
contrary eq = some neq
contrary neq = some eq
contrary is_in = some not_in
contrary not_in = some is_in
contrary exists = some not_exists
contrary not_exists = some exists
contrary _ = none

abbrev pub negations : Predicates → Predicates
negations no_more = no_more
negations (also p ps) = also (negation p) (negations ps)

compared-contrary :
    (op op' : PredicateOperator) (r : Resolved) (v : Value)
    → contrary op ≡ some op'
    → compared op' r v ≡ negate (compared op r v)
compared-contrary op op' r v h = ground arith

-- An operator and its contrary answer contrarily on every field and value, a missing field
-- included, and have the same problem where they have one.
pub evaluate-contrary :
    (scope : EvaluationScope) (path : List String) (op op' : PredicateOperator) (v : Value)
    → contrary op ≡ some op'
    → evaluate scope (comparison path op' v) ≡ evaluate scope (negation (comparison path op v))
evaluate-contrary scope path op op' v h = compared-contrary op op' (resolve scope path) v h

negate-and_also : (a b : EvaluationResult) → negate (and_also a b) ≡ or_also (negate a) (negate b)
negate-and_also (valid true) b = refl
negate-and_also (valid false) b = refl
negate-and_also (invalid p) b = refl
negate-and_also throws b = refl

negate-or_also : (a b : EvaluationResult) → negate (or_also a b) ≡ and_also (negate a) (negate b)
negate-or_also (valid true) b = refl
negate-or_also (valid false) b = refl
negate-or_also (invalid p) b = refl
negate-or_also throws b = refl

-- De Morgan's laws, problems and the order of evaluation included: the negation of `all` is `any` of
-- the negations, and the negation of `any` is `all` of them.
pub evaluate-negations :
    (scope : EvaluationScope) (ps : Predicates)
    → (evaluate scope (negation (all_of ps)) ≡ evaluate scope (any_of (negations ps)))
      × (evaluate scope (negation (any_of ps)) ≡ evaluate scope (all_of (negations ps)))
evaluate-negations scope no_more = (refl, refl)
evaluate-negations scope (also p ps) =
    let (a, b) = evaluate-negations scope ps in
    (
      rw (← a) (negate-and_also (evaluate scope p) (evaluate_all scope ps)),
      rw (← b) (negate-or_also (evaluate scope p) (evaluate_any scope ps)),
    )
