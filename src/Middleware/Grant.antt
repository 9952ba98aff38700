-- ===== src/Middleware/Grant.antt =====
-- What it takes for the chain to pass, and what each run writes to the Event Ledger.
use burkham_wickmont_operati.Core.Outcome.{is_ok}
use burkham_wickmont_operati.Identity.{Actor, found, find_actor, decide_authority}
use burkham_wickmont_operati.Middleware.Steps.{
  ◌>>◌, Post, authority_level, Trace, tenant_scope, Log, keep-Post, bind-Post, pure,
}
use burkham_wickmont_operati.Middleware.{
  Services, ChainRequest, cross_tenant_event, action_blocked_event, RegulatoryClearance, emit,
  scan_content, authenticate, chain, check_scope, check_authority, check_regulatory, check_firewall,
  run_chain,
}
use burkham_wickmont_operati.Prelude.{◌≡◌, Option, ℕ, true, [], refl, arith}
use burkham_wickmont_operati.Core.Authority.{is_governance_action}
use burkham_wickmont_operati.Tenancy.{assert_same_tenant}
use burkham_wickmont_operati.Middleware.Clearance.{
  GateOpen, Regulated, Scanned, Identified, BlockedAt, Granted,
}
use burkham_wickmont_operati.Middleware.Checks.{
  pass_or_record-Post, authenticated-Post, gate-Post, regulate-Post, emit-Post,
}
use burkham_wickmont_operati.Middleware.Scans.{scan-Post, emitted_log}

same_tenant_of_ok : (a b : ℕ) → is_ok (assert_same_tenant a b) ≡ true → a ≡ b
unfolding assert_same_tenant is_ok
same_tenant_of_ok a b h = ground arith

module _ (w : Services) (q : ChainRequest) where
  module _ (log : Log) where
    Granted-Post :
        (a : Actor) (used : Option ℕ) (clearance : Option RegulatoryClearance) (trace : Trace)
        → Identified w q a
        → GateOpen w q q.client_id (is_governance_action q.action) used
        → Regulated w q q.client_facing_content clearance
        → Post (Granted w q log) (BlockedAt w q log) (
            (scan_content w q a
                >> pure
                    (record { actor = a; clearance = clearance; do_not_fund_override_id = used }))
              trace
              (emitted_log w q log a))
    unfolding scan_content
    Granted-Post a used clearance trace i g c =
        bind-Post (λ u t l. (l ≡ emitted_log w q log a) × Scanned w q a q.client_facing_content)
          (Granted w q log) (BlockedAt w q log) _ _
          (scan-Post w q log a q.client_facing_content trace i.authentic refl)
          λ u t l h. (h.0, record { identified = i; gate = g; regulated = c; scanned = h.1 })

    -- A run that passes has cleared the actor, the tenant, the level, the client's gate, the
    -- jurisdiction and the scan, and has appended the action's event and no other. Of a run that is
    -- blocked, the trace ends in the step that blocked it, and the whole Ledger is given by that
    -- step: unchanged for an unknown actor, for a client that is not found, for the jurisdiction and
    -- for a lost append; with the event of the crossed tenant, of the action that the level does not
    -- allow, or of the placement refused, which names the client, its state and the reason; and, for
    -- the scan, with the action's event, and on it the scan's own event where the scan gave one.
    -- Nothing is said of a run whose promise is rejected.
    pub chain_writes : Post (Granted w q log) (BlockedAt w q log) (chain w q log)
    unfolding chain run_chain authenticate check_scope check_authority check_firewall
        check_regulatory assert_same_tenant
    chain_writes =
        keep-Post (λ a. find_actor w.actors q.actor_id ≡ found a) (Granted w q log)
          (BlockedAt w q log) (authenticate w q [] log) _ log
          (authenticated-Post w q log (find_actor w.actors q.actor_id) [] refl)
          λ a t₁ h₁.
            keep-Post (λ u. is_ok (assert_same_tenant a.tenant_id q.tenant_id) ≡ true)
              (Granted w q log) (BlockedAt w q log) (check_scope w q a t₁ log) _ log
              (pass_or_record-Post w q log tenant_scope (cross_tenant_event w q a)
                (assert_same_tenant a.tenant_id q.tenant_id) t₁ (λ x e. (a, h₁, e, refl)))
              λ u t₂ h₂.
                keep-Post (λ u. is_ok (decide_authority a.authority_level q.action) ≡ true)
                  (Granted w q log) (BlockedAt w q log) (check_authority w q a t₂ log) _ log
                  (pass_or_record-Post w q log authority_level (action_blocked_event w q a)
                    (decide_authority a.authority_level q.action) t₂ (λ x e. (a, h₁, e, refl)))
                  λ v t₃ h₃.
                    keep-Post (GateOpen w q q.client_id (is_governance_action q.action))
                      (Granted w q log) (BlockedAt w q log) (check_firewall w q a t₃ log) _ log
                      (gate-Post w q log a q.client_id (is_governance_action q.action) t₃ h₁ refl)
                      λ used t₄ h₄.
                        keep-Post (Regulated w q q.client_facing_content) (Granted w q log)
                          (BlockedAt w q log) (check_regulatory w q t₄ log) _ log
                          (regulate-Post w q log q.client_facing_content t₄)
                          λ clearance t₅ h₅.
                            keep-Post (λ x. Unit) (Granted w q log) (BlockedAt w q log)
                              (emit w q a t₅ log) _ (emitted_log w q log a)
                              (emit-Post w q log a t₅ h₁)
                              λ x t₆ h₆.
                                Granted-Post a used clearance t₆
                                  (record {
                                    authentic = h₁;
                                    same_tenant = same_tenant_of_ok a.tenant_id q.tenant_id h₂;
                                    authorised = h₃;
                                  })
                                  h₄ h₅
