-- ===== src/Tests/Decisions.antt =====
-- A decision point that reads a client's compliance state and the context.
use burkham_wickmont_operati.Prelude.{refl, [], ◌∷◌, ◌≡◌}
use burkham_wickmont_operati.Workflow.Predicate.{
  no_fields, comparison, exists, undefined_value, Predicate, PredicateOperator, EvaluationScope,
  missing_value, Fields, Value, resolve,
}
use burkham_wickmont_operati.Workflow.Predicate.Safety.{resolve-forbidden}

abbrev scope : EvaluationScope
scope = record {
  client = Value.object (Fields.field "state" (Value.text "pass") no_fields);
  context = Value.object no_fields;
  instance_ = undefined_value;
}

abbrev is_passing : Predicate
is_passing = comparison ("client" ∷ "state" ∷ []) PredicateOperator.eq (Value.text "pass")

abbrev has_amount : Predicate
has_amount = comparison ("context" ∷ "amount" ∷ []) exists undefined_value

resolve-forbidden_example : resolve scope ("client" ∷ "constructor" ∷ "name" ∷ []) ≡ missing_value
resolve-forbidden_example = resolve-forbidden scope "client" ("constructor" ∷ "name" ∷ []) refl
