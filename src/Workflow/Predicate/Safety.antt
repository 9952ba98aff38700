-- ===== src/Workflow/Predicate/Safety.antt =====
-- What a predicate of packages/workflow/src/predicate.ts cannot reach, and when it has an answer.
use burkham_wickmont_operati.Prelude.{
  ◌∷◌, ◌≡◌, inr, true, Bool, ◌&&◌, Bool-cases, false, inl, String, any, List, refl, [], arith,
  &&_split,
}
use burkham_wickmont_operati.Workflow.Predicate.{
  throws, not_an_object, all_not_an_array, any_not_an_array, unrecognised, array, eq, neq, is_in,
  not_in, exists, not_exists, valid, invalid, comparison, comparison_of_other, all_of, any_of,
  negation, no_more, also, then_read, Predicates, PredicateOperator, Value, is_forbidden, walk,
  resolve, EvaluationResult, Predicate, property, value_found, Resolved, EvaluationScope,
  missing_value, compared, and_also, negate, evaluate, or_also, evaluate_all, evaluate_any,
}

walk-forbidden :
    (ss : List String) (v : Value) → any is_forbidden ss ≡ true → walk ss v ≡ missing_value
walk-forbidden [] v h = cc
walk-forbidden (s ∷ ss) v h = elim (Bool-cases (is_forbidden s)) [
  | inl e ↦ rw e refl
  | inr e ↦
      let later : any is_forbidden ss ≡ true = rw e at h in
      rw e (onward (property v s) (λ u. walk-forbidden ss u later))
]
  where
    onward :
        (r : Resolved)
        → ((u : Value) → walk ss u ≡ missing_value)
        → then_read r (λ u. walk ss u) ≡ missing_value
    onward missing_value k = refl
    onward (value_found u) k = k u

-- A path that names a prototype after its root resolves to nothing, whatever the scope holds.
pub resolve-forbidden :
    (scope : EvaluationScope) (root : String) (rest : List String)
    → any is_forbidden rest ≡ true
    → resolve scope (root ∷ rest) ≡ missing_value
resolve-forbidden scope root rest h = ground (
  arith,
  walk-forbidden rest scope.client h,
  walk-forbidden rest scope.context h,
  walk-forbidden rest scope.instance_ h,
)

abbrev pub is_array : Value → Bool
is_array (array items fs) = true
is_array _ = false

-- an operator that is defined on every field, with a value that it takes
abbrev pub takes : PredicateOperator → Value → Bool
takes eq v = true
takes neq v = true
takes exists v = true
takes not_exists v = true
takes is_in v = is_array v
takes not_in v = is_array v
takes _ v = false

abbrev pub has_answer : EvaluationResult → Bool
has_answer (valid b) = true
has_answer (invalid p) = false
has_answer throws = false

abbrev mutual
  pub is_total : Predicate → Bool
  is_total (comparison path op v) = takes op v
  is_total (comparison_of_other op v) = false
  is_total (all_of ps) = are_total ps
  is_total (any_of ps) = are_total ps
  is_total (negation p) = is_total p
  is_total _ = false

  pub are_total : Predicates → Bool
  are_total no_more = true
  are_total (also p ps) = is_total p && are_total ps

compared-answers :
    (op : PredicateOperator) (r : Resolved) (v : Value)
    → takes op v ≡ true
    → has_answer (compared op r v) ≡ true
compared-answers op r v h = ground arith

has_answer-negate : (r : EvaluationResult) → has_answer r ≡ true → has_answer (negate r) ≡ true
has_answer-negate r h = ground arith

both :
    (a b c : EvaluationResult)
    → has_answer a ≡ true
    → has_answer b ≡ true
    → has_answer c ≡ true
    → (has_answer (and_also a b) ≡ true) × (has_answer (or_also a c) ≡ true)
both a b c h k l = ground arith

mutual
  answers :
      (scope : EvaluationScope) (p : Predicate)
      → is_total p ≡ true
      → has_answer (evaluate scope p) ≡ true
  answers scope (comparison path op v) h = compared-answers op (resolve scope path) v h
  answers scope (all_of ps) h = (all_answer scope ps h).0
  answers scope (any_of ps) h = (all_answer scope ps h).1
  answers scope (negation p) h = has_answer-negate (evaluate scope p) (answers scope p h)
  answers scope not_an_object h = cc
  answers scope all_not_an_array h = cc
  answers scope any_not_an_array h = cc
  answers scope unrecognised h = cc
  answers scope (comparison_of_other op v) h = cc

  all_answer :
      (scope : EvaluationScope) (ps : Predicates)
      → are_total ps ≡ true
      → (has_answer (evaluate_all scope ps) ≡ true) × (has_answer (evaluate_any scope ps) ≡ true)
  all_answer scope no_more h = (refl, refl)
  all_answer scope (also p ps) h =
      let (a, b) = &&_split (is_total p) (are_total ps) h in
      let (x, y) = all_answer scope ps b in
      both (evaluate scope p) (evaluate_all scope ps) (evaluate_any scope ps) (answers scope p a) x
        y

-- A predicate that is built of equality, membership in an array, presence and their negations by
-- `all`, `any` and `not` has an answer in every scope: only an ordered comparison, an unknown
-- operator, a membership without an array or a malformed part can stop a decision point.
pub evaluate-answers :
    (scope : EvaluationScope) (p : Predicate)
    → is_total p ≡ true
    → has_answer (evaluate scope p) ≡ true
evaluate-answers scope p h = answers scope p h
