-- ===== src/Workflow/Playbook/Reachability.antt =====
-- The worklist of `validate` in packages/workflow/src/playbook.ts against paths in the graph.
use burkham_wickmont_operati.Prelude.{
  true, ◌∷◌, refl, ◌≡◌, is_some, Bool-cases, ◌||◌, not, Option-cases, some, ℕ, inl, suc, [], String,
  zero, false, List, inr, includes, arith, none,
}
use burkham_wickmont_operati.Workflow.Playbook.{
  go_on, Nodes, push_each, type_error, PlaybookNode, node_at, PlaybookDefinition, outgoing, Visit,
  throws, reached, visit, explore, expand,
}

-- the keys that edges lead to from the start, present in the playbook or not
pub data Reaches (d : PlaybookDefinition) : String → Type 0 where
  at_the_start : Reaches d d.start_node
  along_edge :
      {key target : String} {n : PlaybookNode} {ts : List String}
      → Reaches d key
      → node_at d.nodes key ≡ some n
      → outgoing n ≡ some ts
      → includes ts target ≡ true
      → Reaches d target

-- what one round does
pub data Visited (nodes : Nodes) (key : String) (frontier seen : List String) : Visit → Type 0 where
  skips :
      (includes seen key || not (is_some (node_at nodes key))) ≡ true
      → Visited nodes key frontier seen (go_on frontier seen)
  stops :
      (n : PlaybookNode)
      → includes seen key ≡ false
      → node_at nodes key ≡ some n
      → outgoing n ≡ none
      → Visited nodes key frontier seen throws
  expands :
      (n : PlaybookNode) (ts : List String)
      → includes seen key ≡ false
      → node_at nodes key ≡ some n
      → outgoing n ≡ some ts
      → Visited nodes key frontier seen (go_on (push_each ts frontier) (key ∷ seen))

pub visited :
    (nodes : Nodes) (key : String) (frontier seen : List String)
    → Visited nodes key frontier seen (visit nodes key frontier seen)
unfolding visit
visited nodes key frontier seen = elim (Bool-cases (includes seen key)) [
  | inl old ↦ rw old (skips (rw old refl))
  | inr new ↦ elim (Option-cases (node_at nodes key)) [
    | inl none_there ↦ rw (new, none_there) (skips (rw (new, none_there) refl))
    | inr (n, there) ↦ elim (Option-cases (outgoing n)) [
      | inl unknown ↦ rw (new, there, expand, unknown) (stops n new there unknown)
      | inr (ts, known) ↦ rw (new, there, expand, known) (expands n ts new there known)
    ]
  ]
]

-- an invariant that every round keeps holds at the end, where the frontier is empty
pub explore_rule :
    (nodes : Nodes) (P : List String → List String → Type 0)
    → ((key : String) (frontier seen frontier' seen' : List String)
        → Visited nodes key frontier seen (go_on frontier' seen')
        → P (key ∷ frontier) seen
        → P frontier' seen')
    → (fuel : ℕ) (frontier seen : List String) {found_keys : List String} → P frontier seen
    → explore nodes fuel frontier seen ≡ reached found_keys
    → P [] found_keys
unfolding explore
explore_rule nodes P keep fuel [] seen p h = ground arith
explore_rule nodes P keep zero (key ∷ frontier) seen p h = cc
explore_rule nodes P keep (suc fuel) (key ∷ frontier) seen {found_keys} p h =
    round (visit nodes key frontier seen) (visited nodes key frontier seen)
      (λ fr s q e. explore_rule nodes P keep fuel fr s q e) h
  where
    round :
        (v : Visit)
        → Visited nodes key frontier seen v
        → ((fr s : List String)
            → P fr s
            → explore nodes fuel fr s ≡ reached found_keys
            → P [] found_keys)
        → (elim v [ throws ↦ type_error | go_on fr s ↦ explore nodes fuel fr s ])
          ≡ reached found_keys
        → P [] found_keys
    round throws w rest e = cc
    round (go_on fr s) w rest e = rest fr s (keep key frontier seen fr s w p) e
