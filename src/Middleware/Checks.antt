-- ===== src/Middleware/Checks.antt =====
-- The rules for the checks of the chain, steps 1 to 5 (packages/middleware/src/index.ts).
use burkham_wickmont_operati.Core.Outcome.{NotOk, ok, is_ok, Outcome, not_ok}
use burkham_wickmont_operati.Core.Events.{Event}
use burkham_wickmont_operati.Identity.{threw, absent, Actor, found, Found, find_actor}
use burkham_wickmont_operati.Middleware.Steps.{
  ◌>>◌, Post, MiddlewareStep, blocked, event_emission, Trace, authentication, last_step-traced,
  firewall, regulatory, Log, append_event, block_at, keep-Post,
}
use burkham_wickmont_operati.Middleware.{
  Services, ChainRequest, RegulatoryClearance, check_gate, action_event, pass_or_record, gate_check,
  jurisdiction_input, authenticated, resolve_client, cleared, emit, gate_unless_skipped, regulate,
  placement_refused_event,
}
use burkham_wickmont_operati.Prelude.{
  some, ◌≡◌, Option, ℕ, true, none, Bool, String, false, ◌∷◌, inl, inr, Bool-cases, refl,
}
use burkham_wickmont_operati.Firewall.{evaluate_gate}
use burkham_wickmont_operati.Clients.{find_client, Client}
use burkham_wickmont_operati.Risk.Gate.{check_do_not_fund}
use burkham_wickmont_operati.Middleware.Clearance.{GateOpen, Regulated, Leaves, BlockedAt}

module _ (w : Services) (q : ChainRequest) where
  module _ (log : Log) where
    pub block-Post :
        {A : Type 0} (P : A → Trace → Log → Type 0) (s : MiddlewareStep) (x : NotOk) (trace : Trace)
        (l : Log)
        → Leaves w q log s x l
        → Post P (BlockedAt w q log) (block_at {A = A} s x trace l)
    block-Post P s NotOk.threw trace l h = tt
    block-Post P s (NotOk.refusal r) trace l h = (s, last_step-traced s blocked trace, h)
    block-Post P s (NotOk.not_built m) trace l h = (s, last_step-traced s blocked trace, h)
    block-Post P s (NotOk.missing m) trace l h = (s, last_step-traced s blocked trace, h)
    block-Post P s (NotOk.failure f) trace l h = (s, last_step-traced s blocked trace, h)

    pub record-Post :
        {A : Type 0} (P : A → Trace → Log → Type 0) (s : MiddlewareStep) (e : Event) (x : NotOk)
        (trace : Trace)
        → Leaves w q log s x (e ∷ log)
        → Post P (BlockedAt w q log) ((append_event w.accepts e >> block_at {A = A} s x) trace log)
    record-Post {A} P s e x trace h = elim (Bool-cases (w.accepts e log)) [
      | inl yes_ ↦ rw yes_ (block-Post P s x trace (e ∷ log) h)
      | inr no_ ↦ rw no_ tt
    ]

    pub pass_or_record-Post :
        {A : Type 0} (s : MiddlewareStep) (e : Event) (o : Outcome A) (trace : Trace)
        → ((x : NotOk) → o ≡ not_ok x → Leaves w q log s x (e ∷ log))
        → Post
            (λ u t l. (l ≡ log) × (is_ok o ≡ true))
            (BlockedAt w q log)
            (pass_or_record w q s e o trace log)
    unfolding is_ok
    pass_or_record-Post s e (ok a) trace h = (refl, refl)
    pass_or_record-Post s e (not_ok x) trace h = record-Post _ s e x trace (h x refl)

    pub authenticated-Post :
        (f : Found Actor) (trace : Trace)
        → find_actor w.actors q.actor_id ≡ f
        → Post
            (λ a t l. (l ≡ log) × (f ≡ found a))
            (BlockedAt w q log)
            (authenticated w q f trace log)
    authenticated-Post threw trace e = tt
    authenticated-Post absent trace e =
        (authentication, last_step-traced authentication blocked trace, (e, refl))
    authenticated-Post (found a) trace e = (refl, refl)

    pub gate_check-Post :
        {A : Type 0} (actor : Actor) (client : Client) (o : Outcome A) (trace : Trace)
        → ((x : NotOk)
            → o ≡ not_ok x
            → Leaves w q log firewall x
                (placement_refused_event w q actor client.id client.compliance_state x ∷ log))
        → Post
            (λ a t l. (l ≡ log) × (o ≡ ok a))
            (BlockedAt w q log)
            (gate_check w q actor client o trace log)
    gate_check-Post actor client (ok a) trace k = (refl, refl)
    gate_check-Post actor client (not_ok NotOk.threw) trace k = tt
    gate_check-Post actor client (not_ok (NotOk.refusal r)) trace k =
        record-Post _ firewall _ (NotOk.refusal r) trace (k (NotOk.refusal r) refl)
    gate_check-Post actor client (not_ok (NotOk.not_built m)) trace k =
        record-Post _ firewall _ (NotOk.not_built m) trace (k (NotOk.not_built m) refl)
    gate_check-Post actor client (not_ok (NotOk.missing m)) trace k =
        record-Post _ firewall _ (NotOk.missing m) trace (k (NotOk.missing m) refl)
    gate_check-Post actor client (not_ok (NotOk.failure f)) trace k =
        record-Post _ firewall _ (NotOk.failure f) trace (k (NotOk.failure f) refl)

    pub resolve_client-Post :
        (o : Outcome Client) (trace : Trace)
        → ((x : NotOk) → o ≡ not_ok x → Leaves w q log firewall x log)
        → Post
            (λ c t l. (l ≡ log) × (o ≡ ok c))
            (BlockedAt w q log)
            (resolve_client w q o trace log)
    resolve_client-Post (ok c) trace k = (refl, refl)
    resolve_client-Post (not_ok x) trace k = block-Post _ firewall x trace log (k x refl)

    abbrev Opened : Option ℕ → Bool → Option ℕ → Trace → Log → Type 0
    Opened c g used trace l = (l ≡ log) × GateOpen w q c g used

    pub check_gate-Post :
        (actor : Actor) (c : ℕ) (trace : Trace)
        → find_actor w.actors q.actor_id ≡ found actor
        → q.client_id ≡ some c
        → Post
            (λ used t l. (l ≡ log) × GateOpen w q (some c) false used)
            (BlockedAt w q log)
            (check_gate w q actor c trace log)
    unfolding check_gate is_ok
    check_gate-Post actor c trace f named =
        keep-Post (λ client. find_client w.clients q.tenant_id c ≡ ok client)
          (Opened (some c) false) (BlockedAt w q log) _ _ log
          (resolve_client-Post (find_client w.clients q.tenant_id c) trace
            (λ x e. (c, named, inl (e, refl))))
          λ client t₁ h₁.
            keep-Post (λ d. check_do_not_fund w.risk q.tenant_id c q.action ≡ ok d)
              (Opened (some c) false) (BlockedAt w q log) _ _ log
              (gate_check-Post actor client (check_do_not_fund w.risk q.tenant_id c q.action) t₁
                (λ x e. (c, named, inr (actor, client, f, h₁, inl e, refl))))
              λ dnf t₂ h₂.
                keep-Post (λ d. w.check_conduct q.tenant_id c q.action ≡ ok d)
                  (Opened (some c) false) (BlockedAt w q log) _ _ log
                  (gate_check-Post actor client (w.check_conduct q.tenant_id c q.action) t₂
                    (λ x e. (c, named, inr (actor, client, f, h₁, inr (inl e), refl))))
                  λ conduct t₃ h₃.
                    keep-Post (λ g. evaluate_gate w.firewall_rows c client.compliance_state ≡ ok g)
                      (Opened (some c) false) (BlockedAt w q log) _ _ log
                      (gate_check-Post actor client
                        (evaluate_gate w.firewall_rows c client.compliance_state) t₃
                        (λ x e. (c, named, inr (actor, client, f, h₁, inr (inr e), refl))))
                      λ gate t₄ h₄. (refl, (client, dnf, h₁, h₂, refl, rw h₃, rw h₄))

    pub gate-Post :
        (actor : Actor) (c : Option ℕ) (g : Bool) (trace : Trace)
        → find_actor w.actors q.actor_id ≡ found actor
        → q.client_id ≡ c
        → Post
            (λ used t l. (l ≡ log) × GateOpen w q c g used)
            (BlockedAt w q log)
            (gate_unless_skipped w q actor c g trace log)
    gate-Post actor none g trace f e = (refl, refl)
    gate-Post actor (some c) true trace f e = (refl, refl)
    gate-Post actor (some c) false trace f e = check_gate-Post actor c trace f e

    pub regulate-Post :
        (content : Option String) (trace : Trace)
        → Post
            (λ c t l. (l ≡ log) × Regulated w q content c)
            (BlockedAt w q log)
            (regulate w q content trace log)
    regulate-Post none trace = (refl, refl)
    regulate-Post (some text) trace = go (w.check_jurisdiction (jurisdiction_input w q)) refl
      where
        go :
            (o : Outcome RegulatoryClearance)
            → w.check_jurisdiction (jurisdiction_input w q) ≡ o
            → Post
                (λ c t l. (l ≡ log) × Regulated w q (some text) c)
                (BlockedAt w q log)
                (cleared w q o trace log)
        go (ok r) e = (refl, (r, e, refl))
        go (not_ok x) e = block-Post _ regulatory x trace log (e, refl)

    pub emit-Post :
        (a : Actor) (trace : Trace)
        → find_actor w.actors q.actor_id ≡ found a
        → Post
            (λ u t l. (l ≡ action_event w q a ∷ log) × Unit {0})
            (BlockedAt w q log)
            (emit w q a trace log)
    unfolding emit
    emit-Post a trace f = elim (Bool-cases (w.accepts (action_event w q a) log)) [
      | inl kept ↦ rw kept (refl, tt)
      | inr lost ↦
          rw lost
            (event_emission, last_step-traced event_emission blocked trace, (a, f, lost, refl))
    ]
