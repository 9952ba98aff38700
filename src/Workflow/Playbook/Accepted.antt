-- ===== src/Workflow/Playbook/Accepted.antt =====
-- `validate` of packages/workflow/src/playbook.ts accepts the well-formed playbooks and no others.
use mathlib.Core.Path.{subst}
use mathlib.Core.Option.{some-injective}
use burkham_wickmont_operati.Prelude.{
  ◌∷◌, ℕ, str_eq, List, false, ◌≡◌, arith, none, some, Bool, refl, [], All, all, true, suc, String,
  inl, Option-cases, includes, inr, own_property, eq_refl, Bool-cases, sym, All-weaken, &&_split,
  ◌∙◌, all-All, zero, ◌≢◌, All-all, is_some,
}
use burkham_wickmont_operati.Workflow.Playbook.{
  issues, Nodes, has_node, PlaybookNode, PlaybookDefinition, outgoing, is_empty_list, validate,
  validation_of, is_valid, reached, type_error, Search, out_of_fuel, reachable_from_start, go_on,
  explore, node_at, throws, push_each, Visit, visit, node_or_inherited, rounds,
}
use burkham_wickmont_operati.Workflow.Playbook.Reachability.{
  Reaches, Visited, stops, visited, skips, expands,
}
use burkham_wickmont_operati.Workflow.Playbook.WellFormed.{
  IsWellFormed, kind_is_sound, node_is_sound, graph_issues_sound,
}
use burkham_wickmont_operati.Workflow.Playbook.Collected.{on_path_collected, collected_on_path}
use burkham_wickmont_operati.Workflow.Playbook.Ends.{reachable_from_start-returns}

accepted_graph :
    (d : PlaybookDefinition) (s : Search)
    → reachable_from_start d ≡ s
    → (elim (validation_of d s) [ issues is ↦ is_empty_list is | _ ↦ false ]) ≡ true
    → IsWellFormed d
accepted_graph d type_error e h = cc
accepted_graph d out_of_fuel e h = cc
accepted_graph d (reached seen) e h =
    let sound = sym (graph_issues_sound d seen) ∙ h in
    let (a, rest) = &&_split (has_node d.nodes d.start_node) _ sound in
    let (b, rest') =
      &&_split (all (λ (e : String × PlaybookNode). node_is_sound d.nodes e.1) d.nodes) _ rest in
    let (c, f) =
      &&_split (all (λ (e : String × PlaybookNode). includes seen e.0) d.nodes) _ rest' in
    record {
      begins_somewhere = a;
      nodes_sound = b;
      all_on_path =
          All-weaken (λ x. includes seen x.0 ≡ true) (λ x. Reaches d x.0) d.nodes
            (λ x k. (collected_on_path d seen e x.0 k).0)
            (all-All (λ x. includes seen x.0) d.nodes c);
      can_end = f;
    }

-- A playbook that is accepted begins at one of its nodes, every edge of it leads to one of its
-- nodes, every node is on a path from the first one, a terminal node is among them, no decision
-- lacks a branch or holds a malformed predicate (the type of a comparison's field is not looked at),
-- and every wait has a moment and a reminder that are well formed.
pub is_valid-WellFormed : (d : PlaybookDefinition) → is_valid d ≡ true → IsWellFormed d
unfolding validate is_valid
is_valid-WellFormed d h = elim (Bool-cases (is_empty_list d.nodes)) [
  | inl none_there ↦ ground arith
  | inr some_there ↦ accepted_graph d (reachable_from_start d) refl (rw (is_valid, some_there) at h)
]

keys_own : (es : Nodes) → All (λ (e : String × PlaybookNode). has_node es e.0 ≡ true) es
keys_own [] = tt
keys_own ((j, n) ∷ es) = (
  rw (eq_refl j) refl,
  All-weaken (λ e. has_node es e.0 ≡ true) (λ e. has_node ((j, n) ∷ es) e.0 ≡ true) es
      (λ e k. ground arith) (keys_own es),
)

pub own_is_sound :
    (nodes es : Nodes) (key : String) (n : PlaybookNode)
    → all (λ (e : String × PlaybookNode). node_is_sound nodes e.1) es ≡ true
    → own_property es key ≡ some n
    → node_is_sound nodes n ≡ true
own_is_sound nodes [] key n h there = cc
own_is_sound nodes (e ∷ es) key n h there =
    let (a, b) = &&_split (node_is_sound nodes e.1) _ h in
    elim (Bool-cases (str_eq key e.0)) [
      | inl same ↦
          subst (λ m. node_is_sound nodes m ≡ true) (some-injective _ _ (rw same at there)) a
      | inr other_key ↦ own_is_sound nodes es key n b (rw other_key at there)
    ]

All-both :
    {A : Type 0} {P Q R : A → Type 0} (xs : List A)
    → All P xs
    → All Q xs
    → ((x : A) → P x → Q x → R x)
    → All R xs
All-both [] h k f = tt
All-both (x ∷ xs) h k f = (f x h.0 k.0, All-both xs h.1 k.1 f)

all-append :
    (p : String → Bool) (ts frontier : List String)
    → all p ts ≡ true
    → all p frontier ≡ true
    → all p (push_each ts frontier) ≡ true
all-append p [] frontier h k = k
all-append p (t ∷ ts) frontier h k =
    let (a, b) = &&_split (p t) (all p ts) h in all-append p ts (t ∷ frontier) b (rw a k)

sound_known :
    {A : Type 0} (nodes : Nodes) (n : PlaybookNode)
    → node_is_sound nodes n ≡ true
    → outgoing n ≡ none
    → A
sound_known nodes n h unknown = ground arith

sound_targets :
    (nodes : Nodes) (n : PlaybookNode) (ts : List String)
    → node_is_sound nodes n ≡ true
    → outgoing n ≡ some ts
    → all (has_node nodes) ts ≡ true
sound_targets nodes n ts h known =
    (&&_split (all (has_node nodes) ts) (kind_is_sound n) (rw (node_is_sound, known) at h)).0

module _ (d : PlaybookDefinition) (w : IsWellFormed d) where
  sound_at :
      (key : String) (n : PlaybookNode)
      → has_node d.nodes key ≡ true
      → node_at d.nodes key ≡ some n
      → node_is_sound d.nodes n ≡ true
  unfolding node_at
  sound_at key n h there = elim (Option-cases (own_property d.nodes key)) [
    | inl no_own ↦ ground arith
    | inr (m, own) ↦
        own_is_sound d.nodes d.nodes key n w.nodes_sound
          (own ∙ subst (λ o. node_or_inherited o key ≡ some n) own there)
  ]

  no_type_error :
      (fuel : ℕ) (frontier seen : List String)
      → all (has_node d.nodes) frontier ≡ true
      → explore d.nodes fuel frontier seen ≢ type_error
  unfolding explore
  no_type_error fuel [] seen h = ground arith
  no_type_error zero (key ∷ frontier) seen h = ground arith
  no_type_error (suc fuel) (key ∷ frontier) seen h =
      round (visit d.nodes key frontier seen) (visited d.nodes key frontier seen)
        (λ fr s k. no_type_error fuel fr s k)
    where
      round :
          (v : Visit)
          → Visited d.nodes key frontier seen v
          → ((fr s : List String)
              → all (has_node d.nodes) fr ≡ true
              → explore d.nodes fuel fr s ≢ type_error)
          → (elim v [ throws ↦ type_error | go_on fr s ↦ explore d.nodes fuel fr s ]) ≢ type_error
      round _ (skips old) rest = rest frontier seen (&&_split _ _ h).1
      round _ (stops n new there unknown) rest =
          sound_known d.nodes n (sound_at key n (&&_split _ _ h).0 there) unknown
      round _ (expands n ts new there known) rest =
          let sound = sound_at key n (&&_split _ _ h).0 there in
          rest (push_each ts frontier) (key ∷ seen) (
            all-append (has_node d.nodes) ts frontier (sound_targets d.nodes n ts sound known)
              (&&_split _ _ h).1)

  own_at : (key : String) → has_node d.nodes key ≡ true → is_some (node_at d.nodes key) ≡ true
  unfolding node_at
  own_at key h = elim (Option-cases (own_property d.nodes key)) [
    | inl no_own ↦ ground arith
    | inr (m, own) ↦ rw own refl
  ]

  accepts :
      (s : Search)
      → reachable_from_start d ≡ s
      → s ≢ type_error
      → s ≢ out_of_fuel
      → (elim (validation_of d s) [ issues is ↦ is_empty_list is | _ ↦ false ]) ≡ true
  accepts type_error e a b = absurd (a refl)
  accepts out_of_fuel e a b = absurd (b refl)
  accepts (reached seen) e a b =
      graph_issues_sound d seen ∙ rw (w.begins_somewhere, w.nodes_sound, w.can_end, collected) refl
    where
      collected : all (λ (e : String × PlaybookNode). includes seen e.0) d.nodes ≡ true
      collected =
          All-all (λ e. includes seen e.0) d.nodes
            (All-both d.nodes w.all_on_path (keys_own d.nodes)
              (λ x r k. on_path_collected d seen e x.0 (r, own_at x.0 k)))

is_empty_list-eq : {A : Type 0} (xs : List A) → is_empty_list xs ≡ true → xs ≡ []
is_empty_list-eq [] h = refl
is_empty_list-eq (x ∷ xs) h = cc

-- Nothing else is refused: a playbook with these properties is accepted, whatever cycles it has.
pub WellFormed-is_valid : (d : PlaybookDefinition) → IsWellFormed d → is_valid d ≡ true
unfolding validate is_valid reachable_from_start
WellFormed-is_valid d w = elim (Bool-cases (is_empty_list d.nodes)) [
  | inl none_there ↦ ground (
    arith,
    subst (λ (ns : Nodes). has_node ns d.start_node ≡ true) (is_empty_list-eq d.nodes none_there)
        w.begins_somewhere,
  )
  | inr some_there ↦
      rw (is_valid, some_there)
        (accepts d w (reachable_from_start d) refl
          (no_type_error d w (rounds d.nodes) (d.start_node ∷ []) [] (rw w.begins_somewhere refl))
          (reachable_from_start-returns d))
]
