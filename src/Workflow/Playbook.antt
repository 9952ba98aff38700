-- ===== src/Workflow/Playbook.antt =====
-- packages/workflow/src/playbook.ts: the node graph of a playbook and its validation. The nodes are
-- the entries of the JSON object in order. Numbers are whole or not finite, a key that is left out
-- is `none`, and a node of another kind is one node without parts.
pub mod Reachability
pub mod Collected
pub mod Ends
pub mod WellFormed
pub mod Accepted
pub mod Shapes
use burkham_wickmont_operati.Prelude.{
  List, not, if◌then◌else◌, Option, ◌++◌, false, ℕ, sum_of, is_blank, String, Bool, zero, str_eq,
  some, suc, [], ltb, is_some, includes, any, own_property, true, length, none, ◌∷◌, map,
}
use burkham_wickmont_operati.Workflow.Predicate.{
  all_of, any_of, negation, no_more, also, not_an_object, all_not_an_array, any_not_an_array,
  unrecognised, comparison, comparison_of_other, unknown_operator, Predicate, Predicates,
}

-- a number of the JSON document
pub data JsonNumber : Type 0 where
  whole : ℕ → JsonNumber
  -- below zero, by this much
  below : ℕ → JsonNumber
  not_finite : JsonNumber

pub record AgentTaskNode : Type 0 where
  pub department : String
  pub action : String
  pub sla_minutes : Option ℕ
  pub max_attempts : Option ℕ
  pub backoff_seconds : Option ℕ
  pub next : String

pub record HumanCheckpointNode : Type 0 where
  pub queue : String
  pub summary : String
  pub sla_minutes : Option ℕ
  pub next : String

pub record Branch : Type 0 where
  pub condition : Predicate
  pub next : String

pub record DecisionNode : Type 0 where
  pub branches : List Branch
  pub otherwise : String

pub data WaitUntil : Type 0 where
  duration_minutes : JsonNumber → WaitUntil
  event : String → WaitUntil
  at_context_field : String → Option JsonNumber → WaitUntil
  -- none of the three keys
  no_moment : WaitUntil

pub record WaitNode : Type 0 where
  pub until : WaitUntil
  pub remind_after_minutes : Option JsonNumber
  pub remind_queue : Option String
  pub remind_summary : Option String
  pub max_reminders : Option JsonNumber
  pub next : String

pub data TerminalOutcome : Type 0 where
  ends_completed ends_cancelled : TerminalOutcome

pub data PlaybookNode : Type 0 where
  agent_task_node : AgentTaskNode → PlaybookNode
  human_checkpoint_node : HumanCheckpointNode → PlaybookNode
  decision_node : DecisionNode → PlaybookNode
  wait_node : WaitNode → PlaybookNode
  terminal_node : TerminalOutcome → PlaybookNode
  unknown_node : PlaybookNode

abbrev pub Nodes : Type 0
Nodes = List (String × PlaybookNode)

pub record PlaybookDefinition : Type 0 where
  pub start_node : String
  pub nodes : Nodes

-- `path`, which says where a predicate stands in the node
pub data PredicatePath : Type 0 where
  branch_when : ℕ → PredicatePath
  item : PredicatePath → ℕ → PredicatePath
  inside_not : PredicatePath → PredicatePath

pub data PredicateProblem : Type 0 where
  is_not_an_object is_not_an_array needs_field_and_op has_unknown_operator : PredicateProblem

pub data NodeProblem : Type 0 where
  has_no_nodes no_terminal unknown_kind no_branches unreachable : NodeProblem
  start_node_missing dangling : String → NodeProblem
  bad_predicate : PredicatePath × PredicateProblem → NodeProblem
  bad_duration bad_context_field bad_offset bad_event : NodeProblem
  reminder_without_event bad_remind_after no_remind_queue no_remind_summary : NodeProblem
  bad_max_reminders : NodeProblem

-- the playbook itself is `none`
pub record ValidationIssue : Type 0 where
  pub node_key : Option String
  pub problem : NodeProblem

-- `if (b) issues.push(x)`
abbrev pub push_if {ℓ} : {A : Type ℓ} → Bool → A → List A
push_if b x = if b then x ∷ [] else []

abbrev pub is_whole : JsonNumber → Bool
is_whole (whole n) = true
is_whole _ = false

abbrev pub is_finite : JsonNumber → Bool
is_finite not_finite = false
is_finite _ = true

abbrev pub is_positive : JsonNumber → Bool
is_positive (whole n) = ltb 0 n
is_positive _ = false

-- `none` where the source iterates `undefined`, a TypeError
abbrev pub outgoing : PlaybookNode → Option (List String)
outgoing (agent_task_node n) = some (n.next ∷ [])
outgoing (human_checkpoint_node n) = some (n.next ∷ [])
outgoing (wait_node n) = some (n.next ∷ [])
outgoing (decision_node n) = some (map (λ (b : Branch). b.next) n.branches ++ n.otherwise ∷ [])
outgoing (terminal_node o) = some []
outgoing unknown_node = none

abbrev pub has_node : Nodes → String → Bool
has_node nodes key = is_some (own_property nodes key)

-- what every object inherits
abbrev pub inherited_names : List String
inherited_names =
    "constructor" ∷ "__defineGetter__" ∷ "__defineSetter__" ∷ "hasOwnProperty" ∷ "__lookupGetter__"
    ∷ "__lookupSetter__" ∷ "isPrototypeOf" ∷ "propertyIsEnumerable" ∷ "toString" ∷ "valueOf"
    ∷ "__proto__" ∷ "toLocaleString" ∷ []

-- `nodes[key]`: a name that is inherited gives an object that is of no kind
abbrev pub node_or_inherited : Option PlaybookNode → String → Option PlaybookNode
node_or_inherited (some n) key = some n
node_or_inherited none key = if includes inherited_names key then some unknown_node else none

unfoldable pub node_at : Nodes → String → Option PlaybookNode
node_at nodes key = node_or_inherited (own_property nodes key) key

abbrev mutual
  pub predicate_issues : Predicate → PredicatePath → List (PredicatePath × PredicateProblem)
  predicate_issues not_an_object path = (path, is_not_an_object) ∷ []
  predicate_issues all_not_an_array path = (path, is_not_an_array) ∷ []
  predicate_issues any_not_an_array path = (path, is_not_an_array) ∷ []
  predicate_issues (all_of ps) path = children_issues ps path 0
  predicate_issues (any_of ps) path = children_issues ps path 0
  predicate_issues (negation p) path = predicate_issues p (inside_not path)
  predicate_issues unrecognised path = (path, needs_field_and_op) ∷ []
  predicate_issues (comparison fs unknown_operator v) path = (path, has_unknown_operator) ∷ []
  predicate_issues (comparison fs op v) path = []
  -- `'field' in predicate`, which does not look at the field's type
  predicate_issues (comparison_of_other unknown_operator v) path = (path, has_unknown_operator) ∷ []
  predicate_issues (comparison_of_other op v) path = []

  pub children_issues : Predicates → PredicatePath → ℕ → List (PredicatePath × PredicateProblem)
  children_issues no_more path i = []
  children_issues (also p ps) path i =
      predicate_issues p (item path i) ++ children_issues ps path (suc i)

abbrev pub branches_issues : List Branch → ℕ → List NodeProblem
branches_issues [] i = []
branches_issues (b ∷ bs) i =
    map bad_predicate (predicate_issues b.condition (branch_when i)) ++ branches_issues bs (suc i)

abbrev pub is_empty_list {ℓ} : {A : Type ℓ} → List A → Bool
is_empty_list [] = true
is_empty_list (x ∷ xs) = false

abbrev pub decision_issues : DecisionNode → List NodeProblem
decision_issues n = push_if (is_empty_list n.branches) no_branches ++ branches_issues n.branches 0

abbrev pub offset_is_finite : Option JsonNumber → Bool
offset_is_finite none = true
offset_is_finite (some n) = is_finite n

abbrev pub until_issues : WaitUntil → List NodeProblem
until_issues (duration_minutes n) = push_if (not (is_whole n)) bad_duration
until_issues (at_context_field key offset) =
    push_if (str_eq key "") bad_context_field ++ push_if (not (offset_is_finite offset)) bad_offset
until_issues (event name) = push_if (str_eq name "") bad_event
until_issues no_moment = bad_event ∷ []

abbrev pub is_event : WaitUntil → Bool
is_event (event name) = true
is_event _ = false

-- `typeof queue === 'string' && queue !== ''`
abbrev pub is_named : Option String → Bool
is_named none = false
is_named (some s) = not (str_eq s "")

abbrev pub says_something : Option String → Bool
unfolding is_blank
says_something none = false
says_something (some s) = not (is_blank s)

abbrev pub cap_is_positive : Option JsonNumber → Bool
cap_is_positive none = true
cap_is_positive (some n) = is_positive n

abbrev pub reminder_issues : WaitNode → Option JsonNumber → List NodeProblem
reminder_issues n none = []
reminder_issues n (some minutes) =
    push_if (not (is_event n.until)) reminder_without_event
    ++ push_if (not (is_positive minutes)) bad_remind_after
    ++ push_if (not (is_named n.remind_queue)) no_remind_queue
    ++ push_if (not (says_something n.remind_summary)) no_remind_summary
    ++ push_if (not (cap_is_positive n.max_reminders)) bad_max_reminders

abbrev pub wait_issues : WaitNode → List NodeProblem
wait_issues n = until_issues n.until ++ reminder_issues n n.remind_after_minutes

abbrev pub dangling_issues : Nodes → List String → List NodeProblem
dangling_issues nodes [] = []
dangling_issues nodes (t ∷ ts) =
    push_if (not (has_node nodes t)) (dangling t) ++ dangling_issues nodes ts

abbrev pub kind_issues : PlaybookNode → List NodeProblem
kind_issues (decision_node n) = decision_issues n
kind_issues (wait_node n) = wait_issues n
kind_issues _ = []

-- the body of the loop over the entries
abbrev pub node_issues : Nodes → PlaybookNode → List NodeProblem
node_issues nodes n = elim (outgoing n) [
  | none ↦ unknown_kind ∷ []
  | some targets ↦ dangling_issues nodes targets ++ kind_issues n
]

abbrev pub issue_at : Option String → NodeProblem → ValidationIssue
issue_at key p = record { node_key = key; problem = p }

abbrev pub entries_issues : Nodes → Nodes → List ValidationIssue
entries_issues nodes [] = []
entries_issues nodes (e ∷ es) =
    map (issue_at (some e.0)) (node_issues nodes e.1) ++ entries_issues nodes es

pub data Search : Type 0 where
  reached : List String → Search
  type_error out_of_fuel : Search

pub data Visit : Type 0 where
  -- the frontier, its end first, and the set
  go_on : List String → List String → Visit
  throws : Visit

-- `for (const target of targets) frontier.push(target)`
abbrev pub push_each : List String → List String → List String
push_each [] frontier = frontier
push_each (t ∷ ts) frontier = push_each ts (t ∷ frontier)

abbrev pub expand : String → List String → List String → Option PlaybookNode → Visit
expand key frontier seen none = go_on frontier seen
expand key frontier seen (some node) = elim (outgoing node) [
  | none ↦ throws
  | some targets ↦ go_on (push_each targets frontier) (key ∷ seen)
]

-- the body of the `while` loop, after `key` left the end of the frontier
unfoldable pub visit : Nodes → String → List String → List String → Visit
unfolding node_at
visit nodes key frontier seen =
    if includes seen key then go_on frontier seen else expand key frontier seen (node_at nodes key)

unfoldable pub explore : Nodes → ℕ → List String → List String → Search
explore nodes fuel [] seen = reached seen
explore nodes zero (key ∷ frontier) seen = out_of_fuel
explore nodes (suc fuel) (key ∷ frontier) seen = elim (visit nodes key frontier seen) [
  | throws ↦ type_error
  | go_on frontier' seen' ↦ explore nodes fuel frontier' seen'
]

abbrev pub edges : Option (List String) → ℕ
edges none = 0
edges (some targets) = length targets

-- a key is pushed once for the start and once for each edge
abbrev pub rounds : Nodes → ℕ
rounds nodes = suc (sum_of (λ (e : String × PlaybookNode). edges (outgoing e.1)) nodes)

unfoldable pub reachable_from_start : PlaybookDefinition → Search
unfolding explore
reachable_from_start d = explore d.nodes (rounds d.nodes) (d.start_node ∷ []) []

abbrev pub unreachable_issues : List String → Nodes → List ValidationIssue
unreachable_issues seen [] = []
unreachable_issues seen (e ∷ es) =
    push_if (not (includes seen e.0)) (issue_at (some e.0) unreachable)
    ++ unreachable_issues seen es

abbrev pub is_terminal : PlaybookNode → Bool
is_terminal (terminal_node o) = true
is_terminal _ = false

abbrev pub has_terminal : Nodes → Bool
has_terminal nodes = any (λ (e : String × PlaybookNode). is_terminal e.1) nodes

abbrev pub graph_issues : PlaybookDefinition → List String → List ValidationIssue
graph_issues d seen =
    push_if (not (has_node d.nodes d.start_node)) (issue_at none (start_node_missing d.start_node))
    ++ entries_issues d.nodes d.nodes
    ++ unreachable_issues seen d.nodes
    ++ push_if (not (has_terminal d.nodes)) (issue_at none no_terminal)

pub data Validation : Type 0 where
  issues : List ValidationIssue → Validation
  validate_throws validate_loops : Validation

abbrev pub validation_of : PlaybookDefinition → Search → Validation
validation_of d (reached seen) = issues (graph_issues d seen)
validation_of d type_error = validate_throws
validation_of d out_of_fuel = validate_loops

unfoldable pub validate : PlaybookDefinition → Validation
unfolding reachable_from_start
validate d =
    if is_empty_list d.nodes
    then issues (issue_at none has_no_nodes ∷ [])
    else validation_of d (reachable_from_start d)

unfoldable pub is_valid : PlaybookDefinition → Bool
unfolding validate
is_valid d = elim (validate d) [ issues is ↦ is_empty_list is | _ ↦ false ]
