-- ===== src/Workflow/Playbook/WellFormed.antt =====
-- A well-formed playbook, and when `validate` of packages/workflow/src/playbook.ts finds no issue.
use burkham_wickmont_operati.Prelude.{
  ◌∷◌, ℕ, str_eq, List, Option, false, ◌≡◌, arith, none, some, Bool, refl, ◌++◌, ◌&&◌, [], map, All,
  not, all, true, suc, String, inl, Option-cases, includes, inr,
}
use burkham_wickmont_operati.Workflow.Playbook.{
  item, event, Nodes, has_node, until_issues, is_named, is_whole, says_something, PlaybookNode,
  WaitNode, PlaybookDefinition, duration_minutes, has_terminal, push_if, PredicatePath, no_moment,
  decision_node, is_event, reminder_issues, Branch, predicate_issues, inside_not, outgoing,
  children_issues, cap_is_positive, WaitUntil, JsonNumber, is_positive, at_context_field, wait_node,
  branch_when, offset_is_finite, branches_issues, dangling_issues, is_empty_list,
  unreachable_issues, agent_task_node, human_checkpoint_node, terminal_node, kind_issues,
  entries_issues, unknown_node, node_issues, graph_issues,
}
use burkham_wickmont_operati.Workflow.Predicate.{
  all_of, any_of, negation, no_more, also, not_an_object, all_not_an_array, any_not_an_array,
  unrecognised, comparison, comparison_of_other, unknown_operator, Predicates, Predicate,
}
use burkham_wickmont_operati.Workflow.Playbook.Reachability.{Reaches}

-- a predicate without a malformed part; a field of another type than text is not looked at
abbrev mutual
  pub is_well_shaped : Predicate → Bool
  is_well_shaped (comparison fs unknown_operator v) = false
  is_well_shaped (comparison fs op v) = true
  is_well_shaped (comparison_of_other unknown_operator v) = false
  is_well_shaped (comparison_of_other op v) = true
  is_well_shaped (all_of ps) = are_well_shaped ps
  is_well_shaped (any_of ps) = are_well_shaped ps
  is_well_shaped (negation p) = is_well_shaped p
  is_well_shaped _ = false

  pub are_well_shaped : Predicates → Bool
  are_well_shaped no_more = true
  are_well_shaped (also p ps) = is_well_shaped p && are_well_shaped ps

abbrev pub until_is_sound : WaitUntil → Bool
until_is_sound (duration_minutes n) = is_whole n
until_is_sound (at_context_field key offset) = not (str_eq key "") && offset_is_finite offset
until_is_sound (event name) = not (str_eq name "")
until_is_sound no_moment = false

abbrev pub reminder_is_sound : WaitNode → Option JsonNumber → Bool
reminder_is_sound n none = true
reminder_is_sound n (some minutes) =
    is_event n.until
    && (is_positive minutes
        && (is_named n.remind_queue
            && (says_something n.remind_summary && cap_is_positive n.max_reminders)))

abbrev pub kind_is_sound : PlaybookNode → Bool
kind_is_sound (decision_node n) =
    not (is_empty_list n.branches) && all (λ (b : Branch). is_well_shaped b.condition) n.branches
kind_is_sound (wait_node n) = until_is_sound n.until && reminder_is_sound n n.remind_after_minutes
kind_is_sound _ = true

-- a node of a known kind, whose targets are nodes of the playbook
abbrev pub node_is_sound : Nodes → PlaybookNode → Bool
node_is_sound nodes n = elim (outgoing n) [
  | none ↦ false
  | some targets ↦ all (has_node nodes) targets && kind_is_sound n
]

pub record IsWellFormed (d : PlaybookDefinition) : Type 0 where
  pub begins_somewhere : has_node d.nodes d.start_node ≡ true
  pub nodes_sound : all (λ (e : String × PlaybookNode). node_is_sound d.nodes e.1) d.nodes ≡ true
  pub all_on_path : All (λ (e : String × PlaybookNode). Reaches d e.0) d.nodes
  pub can_end : has_terminal d.nodes ≡ true

module _ {A : Type 0} where
  is_empty_list-append :
      (xs ys : List A) → is_empty_list (xs ++ ys) ≡ (is_empty_list xs && is_empty_list ys)
  is_empty_list-append [] ys = refl
  is_empty_list-append (x ∷ xs) ys = refl

  is_empty_list-map :
      {B : Type 0} (f : A → B) (xs : List A) → is_empty_list (map f xs) ≡ is_empty_list xs
  is_empty_list-map f [] = refl
  is_empty_list-map f (x ∷ xs) = refl

  is_empty_list-push_if : (b : Bool) (x : A) → is_empty_list (push_if b x) ≡ not b
  is_empty_list-push_if b x = ground arith

not_twice : (b : Bool) → not (not b) ≡ b
not_twice b = ground arith

and_grouped : (a b c : Bool) → ((a && b) && c) ≡ (a && (b && c))
and_grouped a b c = ground arith

ruleset empty_lists =
    (and_grouped, not_twice, is_empty_list-append, is_empty_list-map, is_empty_list-push_if)

mutual
  predicate_issues-shape :
      (p : Predicate) (path : PredicatePath)
      → is_empty_list (predicate_issues p path) ≡ is_well_shaped p
  predicate_issues-shape (comparison fs op v) path = ground arith
  predicate_issues-shape (comparison_of_other op v) path = ground arith
  predicate_issues-shape (all_of ps) path = children_issues-shape ps path 0
  predicate_issues-shape (any_of ps) path = children_issues-shape ps path 0
  predicate_issues-shape (negation p) path = predicate_issues-shape p (inside_not path)
  predicate_issues-shape not_an_object path = refl
  predicate_issues-shape all_not_an_array path = refl
  predicate_issues-shape any_not_an_array path = refl
  predicate_issues-shape unrecognised path = refl

  children_issues-shape :
      (ps : Predicates) (path : PredicatePath) (i : ℕ)
      → is_empty_list (children_issues ps path i) ≡ are_well_shaped ps
  children_issues-shape no_more path i = refl
  children_issues-shape (also p ps) path i =
      rw
        (
          is_empty_list-append,
          predicate_issues-shape p (item path i),
          children_issues-shape ps path (suc i),
        )
        refl

branches_issues-shape :
    (bs : List Branch) (i : ℕ)
    → is_empty_list (branches_issues bs i) ≡ all (λ (b : Branch). is_well_shaped b.condition) bs
branches_issues-shape [] i = refl
branches_issues-shape (b ∷ bs) i =
    rw
      (
        is_empty_list-append,
        is_empty_list-map,
        predicate_issues-shape b.condition (branch_when i),
        branches_issues-shape bs (suc i),
      )
      refl

dangling_issues-targets :
    (nodes : Nodes) (ts : List String)
    → is_empty_list (dangling_issues nodes ts) ≡ all (has_node nodes) ts
dangling_issues-targets nodes [] = refl
dangling_issues-targets nodes (t ∷ ts) =
    rw (is_empty_list-append, is_empty_list-push_if, dangling_issues-targets nodes ts)
      (ground arith)

until_issues_sound : (u : WaitUntil) → is_empty_list (until_issues u) ≡ until_is_sound u
until_issues_sound (duration_minutes n) = simp empty_lists
until_issues_sound (at_context_field key offset) = simp empty_lists
until_issues_sound (event name) = simp empty_lists
until_issues_sound no_moment = refl

reminder_issues_sound :
    (n : WaitNode) (o : Option JsonNumber)
    → is_empty_list (reminder_issues n o) ≡ reminder_is_sound n o
reminder_issues_sound n none = refl
reminder_issues_sound n (some minutes) = simp (empty_lists, reminder_is_sound)

kind_issues_sound : (n : PlaybookNode) → is_empty_list (kind_issues n) ≡ kind_is_sound n
kind_issues_sound (agent_task_node n) = refl
kind_issues_sound (human_checkpoint_node n) = refl
kind_issues_sound (decision_node n) = simp (empty_lists, branches_issues-shape)
kind_issues_sound (wait_node n) = simp (empty_lists, until_issues_sound, reminder_issues_sound)
kind_issues_sound (terminal_node o) = refl
kind_issues_sound unknown_node = refl

node_issues_sound :
    (nodes : Nodes) (n : PlaybookNode) → is_empty_list (node_issues nodes n) ≡ node_is_sound nodes n
node_issues_sound nodes n = elim (Option-cases (outgoing n)) [
  | inl unknown ↦ rw (node_issues, node_is_sound, unknown) refl
  | inr (ts, known) ↦
      rw (node_issues, node_is_sound, known)
        (simp (empty_lists, dangling_issues-targets nodes ts, kind_issues_sound n))
]

entries_issues_sound :
    (nodes es : Nodes)
    → is_empty_list (entries_issues nodes es)
      ≡ all (λ (e : String × PlaybookNode). node_is_sound nodes e.1) es
entries_issues_sound nodes [] = refl
entries_issues_sound nodes (e ∷ es) =
    simp (empty_lists, node_issues_sound nodes e.1, entries_issues_sound nodes es)

unreachable_issues-seen :
    (seen : List String) (es : Nodes)
    → is_empty_list (unreachable_issues seen es)
      ≡ all (λ (e : String × PlaybookNode). includes seen e.0) es
unreachable_issues-seen seen [] = refl
unreachable_issues-seen seen (e ∷ es) = simp (empty_lists, unreachable_issues-seen seen es)

pub graph_issues_sound :
    (d : PlaybookDefinition) (seen : List String)
    → is_empty_list (graph_issues d seen) ≡ (
        has_node d.nodes d.start_node
        && (all (λ (e : String × PlaybookNode). node_is_sound d.nodes e.1) d.nodes
            && (all (λ (e : String × PlaybookNode). includes seen e.0) d.nodes
                && has_terminal d.nodes)))
graph_issues_sound d seen = simp (empty_lists, entries_issues_sound, unreachable_issues-seen)
