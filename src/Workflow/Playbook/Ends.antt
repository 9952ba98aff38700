-- ===== src/Workflow/Playbook/Ends.antt =====
-- The worklist of `validate` in packages/workflow/src/playbook.ts ends, or throws.
use burkham_wickmont_operati.Prelude.{
  true, ◌∷◌, refl, ◌≡◌, Bool-cases, Option-cases, some, ℕ, inl, suc, [], String, zero, false, List,
  inr, includes, arith, ◌∙◌, sym, eq_iff, str_eq, eq_refl, ap, Bool, length, ◌≤◌, own_property, ◌+◌,
  if◌then◌else◌, ◌≢◌, ◌<◌, none,
}
use mathlib.Core.Path.{subst}
use mathlib.Core.Option.{some-injective, none-ne-some}
use burkham_wickmont_operati.Workflow.Playbook.{
  go_on, Nodes, push_each, type_error, PlaybookNode, node_at, PlaybookDefinition, outgoing, Visit,
  throws, reached, visit, explore, reachable_from_start, edges, rounds, validate, validate_loops,
  out_of_fuel, is_empty_list, inherited_names, node_or_inherited, unknown_node, Search,
  validation_of, validate_throws,
}
use burkham_wickmont_operati.Workflow.Playbook.Collected.{unknown_not_collected}
use burkham_wickmont_operati.Workflow.Playbook.Reachability.{
  expands, Reaches, Visited, skips, visited,
}

-- the edges of the nodes that are not collected yet
abbrev edges_left : List String → Nodes → ℕ
edges_left seen [] = 0
edges_left seen ((j, n) ∷ es) =
    (if includes seen j then 0 else edges (outgoing n)) + edges_left seen es

edges_left-more :
    (key : String) (seen : List String) (es : Nodes)
    → edges_left (key ∷ seen) es ≤ edges_left seen es
edges_left-more key seen [] = omega arith
edges_left-more key seen ((j, n) ∷ es) = ground (arith, edges_left-more key seen es)

edges_left-first :
    (key : String) (seen : List String) (es : Nodes) (n : PlaybookNode) (ts : List String)
    → includes seen key ≡ false
    → outgoing n ≡ some ts
    → edges_left (key ∷ seen) ((key, n) ∷ es) + length ts ≤ edges_left seen ((key, n) ∷ es)
edges_left-first key seen es n ts new known =
    rw (eq_refl key, new, known) (omega (arith, edges_left-more key seen es))

edges_left-new :
    (key : String) (seen : List String) (es : Nodes) (n : PlaybookNode) (ts : List String)
    → includes seen key ≡ false
    → own_property es key ≡ some n
    → outgoing n ≡ some ts
    → edges_left (key ∷ seen) es + length ts ≤ edges_left seen es
edges_left-new key seen [] n ts new there known = cc
edges_left-new key seen ((j, m) ∷ es) n ts new there known = elim (Bool-cases (str_eq key j)) [
  | inl e ↦
      let same_node : n ≡ m = some-injective _ _ (sym there ∙ rw e refl) in
      subst (λ k. edges_left (key ∷ seen) ((k, m) ∷ es) + length ts ≤ edges_left seen ((k, m) ∷ es))
        ((eq_iff key j).0 e)
        (edges_left-first key seen es m ts new (subst (λ u. outgoing u ≡ some ts) same_node known))
  | inr e ↦ ground (arith, edges_left-new key seen es n ts new (rw e at there) known)
]

no_edges :
    {A : Type 0} (b : Bool) {n : PlaybookNode} {ts : List String}
    → (if b then some unknown_node else none) ≡ some n
    → outgoing n ≡ some ts
    → A
no_edges true h k = absurd (none-ne-some _ (ap outgoing (some-injective _ _ h) ∙ k))
no_edges false h k = absurd (none-ne-some _ h)

-- only a node of its own has edges
own_node :
    (nodes : Nodes) (key : String) (n : PlaybookNode) (ts : List String)
    → node_at nodes key ≡ some n
    → outgoing n ≡ some ts
    → own_property nodes key ≡ some n
unfolding node_at
own_node nodes key n ts there known = elim (Option-cases (own_property nodes key)) [
  | inl no_own ↦
      no_edges (includes inherited_names key)
        (subst (λ o. node_or_inherited o key ≡ some n) no_own there) known
  | inr (m, own) ↦ own ∙ subst (λ o. node_or_inherited o key ≡ some n) own there
]

-- a round takes a key from the frontier and adds only edges that are left
rounds_left : Nodes → List String → List String → ℕ
rounds_left nodes frontier seen = length frontier + edges_left seen nodes

length-push_each :
    (ts frontier : List String) → length (push_each ts frontier) ≡ length ts + length frontier
length-push_each [] frontier = omega arith
length-push_each (t ∷ ts) frontier = omega (arith, length-push_each ts (t ∷ frontier))

round_shortens :
    (nodes : Nodes) (key : String) (frontier seen frontier' seen' : List String)
    → Visited nodes key frontier seen (go_on frontier' seen')
    → rounds_left nodes frontier' seen' < rounds_left nodes (key ∷ frontier) seen
unfolding rounds_left
round_shortens nodes key frontier seen _ _ (skips old) = omega arith
round_shortens nodes key frontier seen _ _ (expands n ts new there known) = omega (
  arith,
  length-push_each ts frontier,
  edges_left-new key seen nodes n ts new (own_node nodes key n ts there known) known,
)

explore_ends :
    (nodes : Nodes) (fuel : ℕ) (frontier seen : List String)
    → rounds_left nodes frontier seen ≤ fuel
    → explore nodes fuel frontier seen ≢ out_of_fuel
unfolding rounds_left explore
explore_ends nodes fuel [] seen h = ground arith
explore_ends nodes zero (key ∷ frontier) seen h = omega arith
explore_ends nodes (suc fuel) (key ∷ frontier) seen h =
    round (visit nodes key frontier seen) (visited nodes key frontier seen)
      (λ fr s k. explore_ends nodes fuel fr s k)
  where
    round :
        (v : Visit)
        → Visited nodes key frontier seen v
        → ((fr s : List String)
            → rounds_left nodes fr s ≤ fuel
            → explore nodes fuel fr s ≢ out_of_fuel)
        → (elim v [ throws ↦ type_error | go_on fr s ↦ explore nodes fuel fr s ]) ≢ out_of_fuel
    round throws w rest = ground arith
    round (go_on fr s) w rest =
        rest fr s (omega (arith, round_shortens nodes key frontier seen fr s w))

edges_left-all : (es : Nodes) → suc (edges_left [] es) ≡ rounds es
edges_left-all [] = refl
edges_left-all ((j, n) ∷ es) = omega (arith, edges_left-all es)

pub reachable_from_start-returns : (d : PlaybookDefinition) → reachable_from_start d ≢ out_of_fuel
unfolding reachable_from_start rounds_left
reachable_from_start-returns d =
    explore_ends d.nodes (rounds d.nodes) (d.start_node ∷ []) []
      (omega (arith, edges_left-all d.nodes))

-- The search of `validate` ends on every playbook: cycles, unknown targets and repeated edges
-- included, the loop takes at most one round for the start and one for each edge.
pub validate-returns : (d : PlaybookDefinition) → validate d ≢ validate_loops
unfolding validate
validate-returns d = elim (Bool-cases (is_empty_list d.nodes)) [
  | inl none_there ↦ rw none_there (ground arith)
  | inr some_there ↦
      rw some_there (returned (reachable_from_start d) (reachable_from_start-returns d))
]
  where
    returned : (s : Search) → s ≢ out_of_fuel → validation_of d s ≢ validate_loops
    returned s h = ground arith

throws_at :
    (d : PlaybookDefinition) (s : Search) (key : String)
    → reachable_from_start d ≡ s
    → Reaches d key
    → node_at d.nodes key ≡ some unknown_node
    → validation_of d s ≡ validate_throws
throws_at d (reached seen) key e r there = unknown_not_collected d seen e key r there
throws_at d type_error key e r there = refl
throws_at d out_of_fuel key e r there = absurd (reachable_from_start-returns d e)

-- A node of an unknown kind that a path leads to is never reported: `validate` throws instead, as
-- it does where an edge names a property that every object inherits, which exists as no node.
pub validate-unknown_node :
    (d : PlaybookDefinition) (key : String)
    → is_empty_list d.nodes ≡ false
    → Reaches d key
    → node_at d.nodes key ≡ some unknown_node
    → validate d ≡ validate_throws
unfolding validate
validate-unknown_node d key some_there r there =
    rw some_there (throws_at d (reachable_from_start d) key refl r there)
