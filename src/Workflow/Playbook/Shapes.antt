-- ===== src/Workflow/Playbook/Shapes.antt =====
-- What an accepted predicate of packages/workflow/src/playbook.ts can still fail on at a decision.
use burkham_wickmont_operati.Prelude.{
  arith, some, false, Bool, true, own_property, &&_split, refl, [], String, ◌≡◌, All, not, ◌∷◌, all,
  List, ◌&&◌,
}
use burkham_wickmont_operati.Workflow.Playbook.{
  PlaybookDefinition, DecisionNode, Branch, decision_node, is_valid, is_empty_list,
}
use burkham_wickmont_operati.Workflow.Predicate.{
  all_of, any_of, negation, no_more, also, not_an_object, all_not_an_array, any_not_an_array,
  unrecognised, comparison, comparison_of_other, throws, valid, invalid, any_must_be_array,
  EvaluationScope, all_must_be_array, PredicateOperator, Predicates, evaluate_all, or_also,
  operator_unknown, Value, must_be_object, must_be_predicate, evaluate_any, Predicate, Resolved,
  and_also, negate, EvaluationResult, resolve, Problem, evaluate, compared,
}
use burkham_wickmont_operati.Workflow.Playbook.WellFormed.{
  is_well_shaped, are_well_shaped, node_is_sound, kind_is_sound,
}
use burkham_wickmont_operati.Workflow.Playbook.Accepted.{own_is_sound, is_valid-WellFormed}

-- the problems of a malformed predicate, which `validate` looks for
abbrev pub is_malformed : Problem → Bool
is_malformed must_be_object = true
is_malformed all_must_be_array = true
is_malformed any_must_be_array = true
is_malformed must_be_predicate = true
is_malformed operator_unknown = true
is_malformed _ = false

-- a malformed predicate was found, or the evaluation threw
abbrev pub malformed_result : EvaluationResult → Bool
malformed_result (valid b) = false
malformed_result throws = true
malformed_result (invalid p) = is_malformed p

-- every field that the predicate compares is a text
abbrev mutual
  pub has_text_fields : Predicate → Bool
  has_text_fields (comparison_of_other op v) = false
  has_text_fields (all_of ps) = have_text_fields ps
  has_text_fields (any_of ps) = have_text_fields ps
  has_text_fields (negation p) = has_text_fields p
  has_text_fields _ = true

  have_text_fields : Predicates → Bool
  have_text_fields no_more = true
  have_text_fields (also p ps) = has_text_fields p && have_text_fields ps

compared-malformed :
    (op : PredicateOperator) (r : Resolved) (v : Value)
    → is_well_shaped (comparison [] op v) ≡ true
    → malformed_result (compared op r v) ≡ false
compared-malformed op r v h = ground arith

both_malformed :
    (a b c : EvaluationResult)
    → malformed_result a ≡ false
    → malformed_result b ≡ false
    → malformed_result c ≡ false
    → (malformed_result (and_also a b) ≡ false) × (malformed_result (or_also a c) ≡ false)
both_malformed a b c h k l = ground arith

negate-malformed :
    (r : EvaluationResult) → malformed_result r ≡ false → malformed_result (negate r) ≡ false
negate-malformed r h = ground arith

mutual
  shaped :
      (scope : EvaluationScope) (p : Predicate)
      → is_well_shaped p ≡ true
      → has_text_fields p ≡ true
      → malformed_result (evaluate scope p) ≡ false
  shaped scope (comparison path op v) h t =
      compared-malformed op (resolve scope path) v (ground arith)
  shaped scope (comparison_of_other op v) h t = cc
  shaped scope (all_of ps) h t = (all_shaped scope ps h t).0
  shaped scope (any_of ps) h t = (all_shaped scope ps h t).1
  shaped scope (negation p) h t = negate-malformed (evaluate scope p) (shaped scope p h t)
  shaped scope not_an_object h t = cc
  shaped scope all_not_an_array h t = cc
  shaped scope any_not_an_array h t = cc
  shaped scope unrecognised h t = cc

  all_shaped :
      (scope : EvaluationScope) (ps : Predicates)
      → are_well_shaped ps ≡ true
      → have_text_fields ps ≡ true
      → (malformed_result (evaluate_all scope ps) ≡ false)
        × (malformed_result (evaluate_any scope ps) ≡ false)
  all_shaped scope no_more h t = (refl, refl)
  all_shaped scope (also p ps) h t =
      let (a, b) = &&_split (is_well_shaped p) (are_well_shaped ps) h in
      let (c, d) = &&_split (has_text_fields p) (have_text_fields ps) t in
      let (x, y) = all_shaped scope ps b d in
      both_malformed (evaluate scope p) (evaluate_all scope ps) (evaluate_any scope ps)
        (shaped scope p a c) x y

branches_shaped :
    (scope : EvaluationScope) (bs : List Branch)
    → all (λ (b : Branch). is_well_shaped b.condition) bs ≡ true
    → all (λ (b : Branch). has_text_fields b.condition) bs ≡ true
    → All (λ (b : Branch). malformed_result (evaluate scope b.condition) ≡ false) bs
branches_shaped scope [] h t = tt
branches_shaped scope (b ∷ bs) h t =
    let (x, xs) = &&_split (is_well_shaped b.condition) _ h in
    let (y, ys) = &&_split (has_text_fields b.condition) _ t in
    (shaped scope b.condition x y, branches_shaped scope bs xs ys)

-- A decision of an accepted playbook whose branches compare only fields that are texts never stops on a
-- malformed predicate and never throws, in any scope: what can still stop it is a membership without
-- an array, or an ordered comparison of a field that is absent or that is no number or date.
-- Acceptance does not look at a field's type, so the texts are a condition of their own.
pub is_valid-malformed :
    (d : PlaybookDefinition) (key : String) (n : DecisionNode) (scope : EvaluationScope)
    → is_valid d ≡ true
    → own_property d.nodes key ≡ some (decision_node n)
    → all (λ (b : Branch). has_text_fields b.condition) n.branches ≡ true
    → All (λ (b : Branch). malformed_result (evaluate scope b.condition) ≡ false) n.branches
is_valid-malformed d key n scope h there texts =
    let sound : node_is_sound d.nodes (decision_node n) ≡ true =
      own_is_sound d.nodes d.nodes key (decision_node n) (is_valid-WellFormed d h).nodes_sound
        there in
    let (_, kind) = &&_split _ (kind_is_sound (decision_node n)) sound in
    let (_, conditions) = &&_split (not (is_empty_list n.branches)) _ kind in
    branches_shaped scope n.branches conditions texts
