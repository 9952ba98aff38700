-- ===== src/Workflow/Playbook/Collected.antt =====
-- What the worklist of `validate` in packages/workflow/src/playbook.ts collects, and what it misses.
use burkham_wickmont_operati.Prelude.{
  true, ◌∷◌, refl, ◌≡◌, is_some, Bool-cases, ◌||◌, not, some, inl, [], String, List, inr, includes,
  arith, All, ◌∙◌, sym, eq_iff, str_eq, eq_refl, ap, Bool,
}
use mathlib.Core.Path.{subst}
use mathlib.Core.Option.{some-injective, none-ne-some}
use burkham_wickmont_operati.Workflow.Playbook.{
  go_on, Nodes, push_each, PlaybookNode, node_at, PlaybookDefinition, outgoing, reached,
  reachable_from_start, rounds, unknown_node,
}
use burkham_wickmont_operati.Workflow.Playbook.Reachability.{
  expands, explore_rule, Reaches, Visited, along_edge, skips, at_the_start,
}

-- a node of the playbook that edges lead to
abbrev pub IsNodeOnPath : PlaybookDefinition → String → Type 0
IsNodeOnPath d key = Reaches d key × (is_some (node_at d.nodes key) ≡ true)

-- such a node, with its edges
abbrev IsExpanded : PlaybookDefinition → String → Type 0
IsExpanded d key =
    Reaches d key
    × ((n : PlaybookNode) × (ts : List String) × (node_at d.nodes key ≡ some n)
        × (outgoing n ≡ some ts))

-- soundness: only keys with a path are collected
IsSound : PlaybookDefinition → List String → List String → Type 0
IsSound d frontier seen = All (Reaches d) frontier × All (IsExpanded d) seen

push_each-All :
    (P : String → Type 0) (ts frontier : List String)
    → All P ts
    → All P frontier
    → All P (push_each ts frontier)
push_each-All P [] frontier h k = k
push_each-All P (t ∷ ts) frontier h k = push_each-All P ts (t ∷ frontier) h.1 (h.0, k)

pub includes-here : (t : String) (ts : List String) → includes (t ∷ ts) t ≡ true
includes-here t ts = rw (eq_refl t) refl

pub includes-later :
    (s t : String) (ts : List String) → includes ts s ≡ true → includes (t ∷ ts) s ≡ true
includes-later s t ts h = ground arith

targets-All :
    (P : String → Type 0) (ts : List String)
    → ((t : String) → includes ts t ≡ true → P t)
    → All P ts
targets-All P [] h = tt
targets-All P (t ∷ ts) h =
    (h t (includes-here t ts), targets-All P ts (λ s k. h s (includes-later s t ts k)))

IsSound-round :
    (d : PlaybookDefinition) (key : String) (frontier seen frontier' seen' : List String)
    → Visited d.nodes key frontier seen (go_on frontier' seen')
    → IsSound d (key ∷ frontier) seen
    → IsSound d frontier' seen'
unfolding IsSound
IsSound-round d key frontier seen _ _ (skips old) h = (h.0.1, h.1)
IsSound-round d key frontier seen _ _ (expands n ts new there known) h = (
  push_each-All (Reaches d) ts frontier
      (targets-All (Reaches d) ts (λ t k. along_edge h.0.0 there known k)) h.0.1,
  ((h.0.0, (n, ts, there, known)), h.1),
)

All-includes :
    (P : String → Type 0) (xs : List String) (s : String) → All P xs → includes xs s ≡ true → P s
All-includes P [] s h k = cc
All-includes P (x ∷ xs) s h k = elim (Bool-cases (str_eq s x)) [
  | inl e ↦ subst P (sym ((eq_iff s x).0 e)) h.0
  | inr e ↦ All-includes P xs s h.1 (rw e at k)
]

-- completeness: what is on a path is collected, or on the frontier, or not in the playbook
abbrev covered : Nodes → List String → List String → String → Bool
covered nodes frontier seen key =
    includes seen key || (includes frontier key || not (is_some (node_at nodes key)))

record IsClosed (d : PlaybookDefinition) (frontier seen : List String) : Type 0 where
  from_start : covered d.nodes frontier seen d.start_node ≡ true
  onward :
      (key target : String) (n : PlaybookNode) (ts : List String)
      → includes seen key ≡ true
      → node_at d.nodes key ≡ some n
      → outgoing n ≡ some ts
      → includes ts target ≡ true
      → covered d.nodes frontier seen target ≡ true

includes-push_each :
    (ts frontier : List String) (s : String)
    → includes (push_each ts frontier) s ≡ (includes ts s || includes frontier s)
includes-push_each [] frontier s = refl
includes-push_each (t ∷ ts) frontier s = ground (arith, includes-push_each ts (t ∷ frontier) s)

covered-skip :
    (nodes : Nodes) (key : String) (frontier seen : List String) (s : String)
    → (includes seen key || not (is_some (node_at nodes key))) ≡ true
    → covered nodes (key ∷ frontier) seen s ≡ true
    → covered nodes frontier seen s ≡ true
covered-skip nodes key frontier seen s old h = elim (Bool-cases (str_eq s key)) [
  | inl e ↦
      subst (λ k. covered nodes frontier seen k ≡ true) (sym ((eq_iff s key).0 e)) (ground arith)
  | inr e ↦ ground arith
]

covered-expand :
    (nodes : Nodes) (key : String) (frontier seen ts : List String) (s : String)
    → covered nodes (key ∷ frontier) seen s ≡ true
    → covered nodes (push_each ts frontier) (key ∷ seen) s ≡ true
covered-expand nodes key frontier seen ts s h = rw (includes-push_each ts frontier s) (ground arith)

IsClosed-round :
    (d : PlaybookDefinition) (key : String) (frontier seen frontier' seen' : List String)
    → Visited d.nodes key frontier seen (go_on frontier' seen')
    → IsClosed d (key ∷ frontier) seen
    → IsClosed d frontier' seen'
IsClosed-round d key frontier seen _ _ (skips old) h = record {
  from_start = covered-skip d.nodes key frontier seen d.start_node old h.from_start;
  onward =
      λ k t n ts a b c e. covered-skip d.nodes key frontier seen t old (h.onward k t n ts a b c e);
}
IsClosed-round d key frontier seen _ _ (expands n ts new there known) h = record {
  from_start = covered-expand d.nodes key frontier seen ts d.start_node h.from_start;
  onward = λ k t n' ts' a b c e. elim (Bool-cases (str_eq k key)) [
    | inl same ↦
        onto_frontier t n' ts' (subst (λ s. node_at d.nodes s ≡ some n') ((eq_iff k key).0 same) b)
          c e
    | inr other_key ↦
        covered-expand d.nodes key frontier seen ts t
          (h.onward k t n' ts' (rw other_key at a) b c e)
  ];
}
  where
    onto_frontier :
        (target : String) (m : PlaybookNode) (us : List String)
        → node_at d.nodes key ≡ some m
        → outgoing m ≡ some us
        → includes us target ≡ true
        → covered d.nodes (push_each ts frontier) (key ∷ seen) target ≡ true
    onto_frontier target m us b c e =
        let same_node : m ≡ n = some-injective _ _ (sym b ∙ there) in
        let same_targets : us ≡ ts = some-injective _ _ (sym c ∙ (ap outgoing same_node ∙ known)) in
        rw (includes-push_each ts frontier target)
          (ground (arith, subst (λ vs. includes vs target ≡ true) same_targets e))

module _ (d : PlaybookDefinition) (seen : List String)
    (h : reachable_from_start d ≡ reached seen) where
  collected-IsExpanded : (key : String) → includes seen key ≡ true → IsExpanded d key
  unfolding reachable_from_start IsSound
  collected-IsExpanded key k =
      All-includes (IsExpanded d) seen key
        (explore_rule d.nodes (IsSound d) (IsSound-round d) (rounds d.nodes) (d.start_node ∷ []) []
          ((at_the_start, tt), tt) h).1
        k

  pub collected_on_path : (key : String) → includes seen key ≡ true → IsNodeOnPath d key
  collected_on_path key k =
      let (r, (n, ts, there, known)) = collected-IsExpanded key k in (r, rw there refl)

  closed : IsClosed d [] seen
  unfolding reachable_from_start
  closed =
      explore_rule d.nodes (IsClosed d) (IsClosed-round d) (rounds d.nodes) (d.start_node ∷ []) []
        (record {
          from_start = ground (arith, eq_refl d.start_node);
          onward = λ k t n ts a b c e. cc;
        })
        h

  path_covered : (key : String) → Reaches d key → covered d.nodes [] seen key ≡ true
  path_covered _ at_the_start = closed.from_start
  path_covered _ (along_edge {key} {target} {n} {ts} r there known among_them) =
      closed.onward key target n ts (ground (arith, path_covered key r)) there known among_them

  pub on_path_collected : (key : String) → IsNodeOnPath d key → includes seen key ≡ true
  on_path_collected key k = ground (arith, path_covered key k.0, k.1)

  pub unknown_not_collected :
      {A : Type 0} (key : String) → Reaches d key → node_at d.nodes key ≡ some unknown_node → A
  unknown_not_collected key r there =
      let (_, (n, ts, there', known)) =
        collected-IsExpanded key (on_path_collected key (r, rw there refl)) in
      absurd (none-ne-some _ (ap outgoing (some-injective _ _ (sym there ∙ there')) ∙ known))
