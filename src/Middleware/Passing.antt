-- ===== src/Middleware/Passing.antt =====
-- The chain of packages/middleware/src/index.ts passes whenever its conditions hold.
use burkham_wickmont_operati.Identity.{found, Actor, find_actor, decide_authority}
use burkham_wickmont_operati.Prelude.{
  ℕ, arith, none, Option, refl, ◌∷◌, String, true, ◌≡◌, [], some, false, Bool,
}
use burkham_wickmont_operati.Core.Outcome.{ok, is_ok, Outcome}
use burkham_wickmont_operati.Middleware.{
  chain, RegulatoryClearance, gate_unless_skipped, scan_content, check_scope, regulate, emit,
  check_firewall, pass_or_record, check_gate, action_event, cross_tenant_event, check_regulatory,
  run_chain, check_authority, Services, scan_unless_absent, ChainRequest, ChainResult,
  action_blocked_event, authenticate,
}
use burkham_wickmont_operati.Middleware.Clearance.{Cleared, Regulated, GateOpen, Scanned}
use burkham_wickmont_operati.Middleware.Steps.{
  authority_level, skipped, passed, pass_on, authentication, regulatory, tenant_scope, Log,
  firewall, event_emission, and_then, MiddlewareStep, Step, Run, traced, compliance_scan, Trace,
}
use burkham_wickmont_operati.Firewall.{evaluate_gate}
use burkham_wickmont_operati.Tenancy.{assert_same_tenant}
use burkham_wickmont_operati.Core.Authority.{is_governance_action}
use burkham_wickmont_operati.Core.Events.{Event}

-- a run passes with a value and leaves a Ledger
abbrev pub Passes : {A : Type 0} → A → Log → Run A → Type 0
Passes {A} a l r = (trace : Trace) × (r ≡ pass_on a trace l)

and_then-Passes :
    {A B : Type 0} {a : A} {b : B} {l l' : Log} {m : Run A} (f : A → Step B)
    → Passes a l m
    → ((trace : Trace) → Passes b l' (f a trace l))
    → Passes b l' (and_then m f)
and_then-Passes f p k = rw p.1 (k p.0)

ok_of_is_ok : {A : Type 0} (o : Outcome A) → is_ok o ≡ true → (a : A) × (o ≡ ok a)
unfolding is_ok
ok_of_is_ok (ok a) h = (a, refl)
ok_of_is_ok (Outcome.not_ok x) h = cc

module _ (w : Services) (q : ChainRequest) (log : Log) where
  authenticate-Passes :
      (a : Actor) (trace : Trace)
      → find_actor w.actors q.actor_id ≡ found a
      → Passes a log (authenticate w q trace log)
  unfolding authenticate
  authenticate-Passes a trace h = rw h (traced authentication passed trace, refl)

  pass_or_record-Passes :
      {A : Type 0} (s : MiddlewareStep) (e : Event) (o : Outcome A) (trace : Trace)
      → is_ok o ≡ true
      → Passes tt log (pass_or_record w q s e o trace log)
  unfolding is_ok
  pass_or_record-Passes s e (ok a) trace h = (traced s passed trace, refl)
  pass_or_record-Passes s e (Outcome.not_ok x) trace h = cc

  check_gate-Passes :
      (a : Actor) (c : ℕ) (used : Option ℕ) (trace : Trace)
      → GateOpen w q (some c) false used
      → Passes used log (check_gate w q a c trace log)
  unfolding check_gate
  check_gate-Passes a c used trace (client, dnf, h1, h2, h3, h4, h5) =
      let (conduct, e4) = ok_of_is_ok (w.check_conduct q.tenant_id c q.action) h4 in
      let (opened, e5) = ok_of_is_ok (evaluate_gate w.firewall_rows c client.compliance_state) h5 in
      rw (h1, h2, e4, e5, h3) (traced firewall passed trace, refl)

  gate-Passes :
      (a : Actor) (c : Option ℕ) (g : Bool) (used : Option ℕ) (trace : Trace)
      → GateOpen w q c g used
      → Passes used log (gate_unless_skipped w q a c g trace log)
  gate-Passes a none g used trace h = rw h (traced firewall skipped trace, refl)
  gate-Passes a (some c) true used trace h = rw h (traced firewall skipped trace, refl)
  gate-Passes a (some c) false used trace h = check_gate-Passes a c used trace h

  regulate-Passes :
      (content : Option String) (clearance : Option RegulatoryClearance) (trace : Trace)
      → Regulated w q content clearance
      → Passes clearance log (regulate w q content trace log)
  regulate-Passes none clearance trace h = rw h (traced regulatory skipped trace, refl)
  regulate-Passes (some text) clearance trace (r, h, e) =
      rw (h, e) (traced regulatory passed trace, refl)

  emit-Passes :
      (a : Actor) (trace : Trace)
      → w.accepts (action_event w q a) log ≡ true
      → Passes tt (action_event w q a ∷ log) (emit w q a trace log)
  unfolding emit
  emit-Passes a trace h = rw h (traced event_emission passed trace, refl)

  scan-Passes :
      (a : Actor) (content : Option String) (trace : Trace) (l : Log)
      → Scanned w q a content
      → Passes tt l (scan_unless_absent w q a content trace l)
  scan-Passes a none trace l h = (traced compliance_scan skipped trace, refl)
  scan-Passes a (some text) trace l (r, h, fine, none_absent) =
      rw (h, fine, none_absent) (traced compliance_scan passed trace, refl)

  -- Whenever the actor, the tenant, the level, the client's gate, the jurisdiction and the scan are
  -- clear and the Ledger accepts the action's event, the chain passes with them, and the Ledger has
  -- gained that event.
  pub chain_grants :
      (r : ChainResult)
      → Cleared w q r
      → w.accepts (action_event w q r.actor) log ≡ true
      → Passes r (action_event w q r.actor ∷ log) (chain w q log)
  unfolding chain run_chain check_scope check_authority check_firewall check_regulatory scan_content
      assert_same_tenant is_ok
  chain_grants r c accepted =
      and_then-Passes _ (authenticate-Passes r.actor [] c.identified.authentic) λ t1.
        and_then-Passes _
          (pass_or_record-Passes tenant_scope (cross_tenant_event w q r.actor)
            (assert_same_tenant r.actor.tenant_id q.tenant_id) t1
            (ground (arith, c.identified.same_tenant)))
          λ t2.
            and_then-Passes _
              (pass_or_record-Passes authority_level (action_blocked_event w q r.actor)
                (decide_authority r.actor.authority_level q.action) t2 c.identified.authorised)
              λ t3.
                and_then-Passes _
                  (gate-Passes r.actor q.client_id (is_governance_action q.action)
                    r.do_not_fund_override_id t3 c.gate)
                  λ t4.
                    and_then-Passes _
                      (regulate-Passes q.client_facing_content r.clearance t4 c.regulated)
                      λ t5. and_then-Passes _ (emit-Passes r.actor t5 accepted) λ t6.
                        and_then-Passes _
                          (scan-Passes r.actor q.client_facing_content t6
                            (action_event w q r.actor ∷ log) c.scanned)
                          λ t7. (t7, refl)
