-- ===== src/Workflow/Predicate.antt =====
-- packages/workflow/src/predicate.ts: the predicates of a playbook's decision points. The values are
-- those that JSON and dates give, with numbers that are not negative and whole; a field is the list
-- of its segments, which `split('.')` gives. A value of a predicate and one of the scope are never the
-- same object, so `===` on arrays, objects and dates is false.
pub mod Complements
pub mod Safety
use burkham_wickmont_operati.Prelude.{
  ℕ, ◌∷◌, not, true, str_eq, Bool, ◌==◌, ◌||◌, if◌then◌else◌, Option, some, false, String, ltb,
  List, none, leb, [],
}

mutual
  pub data Value : Type 0 where
    undefined_value null_value : Value
    boolean : Bool → Value
    number date : ℕ → Value
    text : String → Value
    object : Fields → Value
    -- the items, then the own properties, which are the indices and the length
    array : Values → Fields → Value

  pub data Values : Type 0 where
    no_values : Values
    one_more : Value → Values → Values

  pub data Fields : Type 0 where
    no_fields : Fields
    field : String → Value → Fields → Fields

pub data PredicateOperator : Type 0 where
  eq neq is_in not_in gt gte lt lte exists not_exists : PredicateOperator
  -- a text that names none of them
  unknown_operator : PredicateOperator

mutual
  pub data Predicate : Type 0 where
    comparison : List String → PredicateOperator → Value → Predicate
    -- a comparison whose `field` is there but is no text
    comparison_of_other : PredicateOperator → Value → Predicate
    all_of any_of : Predicates → Predicate
    negation : Predicate → Predicate
    -- what JSON may hold in a predicate's place
    not_an_object all_not_an_array any_not_an_array unrecognised : Predicate

  pub data Predicates : Type 0 where
    no_more : Predicates
    also : Predicate → Predicates → Predicates

pub record EvaluationScope : Type 0 where
  pub client : Value
  pub context : Value
  pub instance_ : Value

pub data Problem : Type 0 where
  must_be_object all_must_be_array any_must_be_array must_be_predicate operator_unknown : Problem
  needs_array not_present not_ordered : Problem

pub data EvaluationResult : Type 0 where
  valid : Bool → EvaluationResult
  invalid : Problem → EvaluationResult
  -- a TypeError
  throws : EvaluationResult

pub data Resolved : Type 0 where
  missing_value : Resolved
  value_found : Value → Resolved

abbrev pub is_forbidden : String → Bool
is_forbidden s = str_eq s "__proto__" || str_eq s "constructor" || str_eq s "prototype"

-- `hasOwnProperty`, then the read
abbrev pub own_field : Fields → String → Resolved
own_field no_fields s = missing_value
own_field (field name v fs) s = if str_eq s name then value_found v else own_field fs s

-- a step of the loop: only an object, an array or a date is of type 'object', and a date has none
abbrev pub property : Value → String → Resolved
property (object fs) s = own_field fs s
property (array items fs) s = own_field fs s
property _ s = missing_value

abbrev pub then_read : Resolved → (Value → Resolved) → Resolved
then_read missing_value f = missing_value
then_read (value_found v) f = f v

-- the loop over the segments after the root
abbrev pub walk : List String → Value → Resolved
walk [] v = value_found v
walk (s ∷ ss) v =
    if is_forbidden s then missing_value else then_read (property v s) (λ u. walk ss u)

abbrev pub resolve : EvaluationScope → List String → Resolved
resolve scope [] = missing_value
resolve scope (root ∷ rest) =
    if str_eq root "client"
    then walk rest scope.client
    else if str_eq root "context"
    then walk rest scope.context
    else if str_eq root "instance"
    then walk rest scope.instance_
    else missing_value

-- `===`
abbrev pub strictly_equal : Value → Value → Bool
strictly_equal undefined_value undefined_value = true
strictly_equal null_value null_value = true
strictly_equal (boolean true) (boolean b) = b
strictly_equal (boolean false) (boolean b) = not b
strictly_equal (number a) (number b) = a == b
strictly_equal (text a) (text b) = str_eq a b
strictly_equal _ _ = false

-- `predicate.value.includes(actual)`
abbrev pub has_value : Values → Value → Bool
has_value no_values v = false
has_value (one_more u us) v = strictly_equal u v || has_value us v

-- `getTime()` of a date, or the number
abbrev pub as_number : Value → Option ℕ
as_number (number n) = some n
as_number (date n) = some n
as_number _ = none

abbrev pub ordered : (ℕ → ℕ → Bool) → Option ℕ → Option ℕ → EvaluationResult
ordered test (some a) (some b) = valid (test a b)
ordered test _ _ = invalid not_ordered

abbrev pub compare_ordered : (ℕ → ℕ → Bool) → Resolved → Value → EvaluationResult
compare_ordered test missing_value v = invalid not_present
compare_ordered test (value_found u) v = ordered test (as_number u) (as_number v)

abbrev pub is_present : Resolved → Bool
is_present missing_value = false
is_present (value_found undefined_value) = false
is_present (value_found null_value) = false
is_present (value_found _) = true

abbrev pub equals : Resolved → Value → Bool
equals missing_value v = false
equals (value_found u) v = strictly_equal u v

abbrev pub among : Resolved → Values → Bool
among missing_value vs = false
among (value_found u) vs = has_value vs u

abbrev pub membership : (Bool → Bool) → Resolved → Value → EvaluationResult
membership f r (array items fs) = valid (f (among r items))
membership f r _ = invalid needs_array

-- the `switch` over the operators
abbrev pub compared : PredicateOperator → Resolved → Value → EvaluationResult
compared exists r v = valid (is_present r)
compared not_exists r v = valid (not (is_present r))
compared eq r v = valid (equals r v)
compared neq r v = valid (not (equals r v))
compared is_in r v = membership (λ b. b) r v
compared not_in r v = membership (λ b. not b) r v
compared gt r v = compare_ordered (λ a b. ltb b a) r v
compared gte r v = compare_ordered (λ a b. leb b a) r v
compared lt r v = compare_ordered ltb r v
compared lte r v = compare_ordered leb r v
compared unknown_operator r v = invalid operator_unknown

-- only a text has `split`; the operator is looked at first
abbrev pub compared_other : PredicateOperator → EvaluationResult
compared_other unknown_operator = invalid operator_unknown
compared_other _ = throws

abbrev pub negate : EvaluationResult → EvaluationResult
negate (valid b) = valid (not b)
negate (invalid p) = invalid p
negate throws = throws

-- the bodies of the two loops: the first problem, or the first value that decides, ends them
abbrev pub and_also : EvaluationResult → EvaluationResult → EvaluationResult
and_also throws rest = throws
and_also (invalid p) rest = invalid p
and_also (valid false) rest = valid false
and_also (valid true) rest = rest

abbrev pub or_also : EvaluationResult → EvaluationResult → EvaluationResult
or_also throws rest = throws
or_also (invalid p) rest = invalid p
or_also (valid true) rest = valid true
or_also (valid false) rest = rest

abbrev mutual
  pub evaluate : EvaluationScope → Predicate → EvaluationResult
  evaluate scope (comparison path op v) = compared op (resolve scope path) v
  evaluate scope (comparison_of_other op v) = compared_other op
  evaluate scope (all_of ps) = evaluate_all scope ps
  evaluate scope (any_of ps) = evaluate_any scope ps
  evaluate scope (negation p) = negate (evaluate scope p)
  evaluate scope not_an_object = invalid must_be_object
  evaluate scope all_not_an_array = invalid all_must_be_array
  evaluate scope any_not_an_array = invalid any_must_be_array
  evaluate scope unrecognised = invalid must_be_predicate

  pub evaluate_all : EvaluationScope → Predicates → EvaluationResult
  evaluate_all scope no_more = valid true
  evaluate_all scope (also p ps) = and_also (evaluate scope p) (evaluate_all scope ps)

  pub evaluate_any : EvaluationScope → Predicates → EvaluationResult
  evaluate_any scope no_more = valid false
  evaluate_any scope (also p ps) = or_also (evaluate scope p) (evaluate_any scope ps)
