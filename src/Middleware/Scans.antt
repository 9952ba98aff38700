-- ===== src/Middleware/Scans.antt =====
-- The rules for the scan of the content, step 7 (packages/middleware/src/index.ts).
use burkham_wickmont_operati.Core.Outcome.{ok, Outcome, not_ok, NotOk}
use burkham_wickmont_operati.Core.Events.{Event}
use burkham_wickmont_operati.Identity.{Actor, find_actor}
use burkham_wickmont_operati.Middleware.Steps.{
  ◌>>◌, Post, blocked, Trace, compliance_scan, last_step-traced, Log, weaken-Post,
}
use burkham_wickmont_operati.Middleware.{
  found, Services, ChainRequest, missing_disclosures, action_event, scan_input, none_missing, judge,
  append_if_some, after_scan, scan_unless_absent,
}
use burkham_wickmont_operati.Prelude.{
  some, ◌≡◌, Option, true, none, String, false, ◌∷◌, [], inl, inr, Bool-cases, refl, List,
}
use burkham_wickmont_operati.Scanner.{
  ScanResult, scan_for_tenant, is_blocked, MarketingClaim, ScanInput, scan_for_tenant-event,
}
use burkham_wickmont_operati.Middleware.Clearance.{Scanned, BlockedAt, Leaves}
use burkham_wickmont_operati.Middleware.Checks.{block-Post}

module _ (w : Services) (q : ChainRequest) where
  module _ (log : Log) where
    -- the Ledger after step 6
    abbrev pub emitted_log : Actor → Log
    emitted_log a = action_event w q a ∷ log

    pub none_missing-Post :
        (a : Actor) (F : Type 0) (ds : List String) (trace : Trace)
        → F
        → ((x : NotOk) → Leaves w q log compliance_scan x (emitted_log a))
        → Post
            (λ u t l. (l ≡ emitted_log a) × F × (ds ≡ []))
            (BlockedAt w q log)
            (none_missing w q ds trace (emitted_log a))
    none_missing-Post a F [] trace f k = (refl, f, refl)
    none_missing-Post a F (d ∷ ds) trace f k =
        (compliance_scan, last_step-traced compliance_scan blocked trace, k NotOk.threw)

    pub judge-Post :
        (a : Actor) (text : String) (r : ScanResult) (trace : Trace)
        → ((x : NotOk) → Leaves w q log compliance_scan x (emitted_log a))
        → Post
            (λ u t l.
              (l ≡ emitted_log a)
              × (is_blocked r.verdict ≡ false)
              × (missing_disclosures w q text r.required_disclosures ≡ []))
            (BlockedAt w q log)
            (judge w q text r trace (emitted_log a))
    judge-Post a text r trace k = elim (Bool-cases (is_blocked r.verdict)) [
      | inl bad ↦
          rw bad (compliance_scan, last_step-traced compliance_scan blocked trace, k NotOk.threw)
      | inr fine ↦
          let absent_ones = missing_disclosures w q text r.required_disclosures in
          rw fine (none_missing-Post a (false ≡ false) absent_ones trace refl k)
    ]

    -- a block writes its own event on top of the action's
    pub judge_blocked-Post :
        (P : Unit {0} → Trace → Log → Type 0) (a : Actor) (text : String) (r : ScanResult)
        (e : Event) (trace : Trace)
        → is_blocked r.verdict ≡ true
        → ((x : NotOk) → Leaves w q log compliance_scan x (e ∷ emitted_log a))
        → Post P
            (BlockedAt w q log)
            ((append_if_some w q (some e) >> judge w q text r) trace (emitted_log a))
    judge_blocked-Post P a text r e trace bad k = elim (Bool-cases (w.accepts e (emitted_log a))) [
      | inl kept ↦
          rw (kept, bad)
            (compliance_scan, last_step-traced compliance_scan blocked trace, k NotOk.threw)
      | inr lost ↦ rw lost tt
    ]

    pub scan-Post :
        (a : Actor) (content : Option String) (trace : Trace)
        → find_actor w.actors q.actor_id ≡ found a
        → q.client_facing_content ≡ content
        → Post
            (λ u t l. (l ≡ emitted_log a) × Scanned w q a content)
            (BlockedAt w q log)
            (scan_unless_absent w q a content trace (emitted_log a))
    scan-Post a none trace f c = (refl, tt)
    scan-Post a (some text) trace f c = go (scan_for_tenant w.matches library input) refl
      where
        library : List MarketingClaim
        library = w.library q.tenant_id q.jurisdiction

        input : ScanInput
        input = scan_input w q a text

        go :
            (o : Outcome (ScanResult × Option Event))
            → scan_for_tenant w.matches library input ≡ o
            → Post
                (λ u t l. (l ≡ emitted_log a) × Scanned w q a (some text))
                (BlockedAt w q log)
                (after_scan w q text o trace (emitted_log a))
        go (not_ok x) e =
            block-Post w q log _ compliance_scan x trace (emitted_log a) (a, text, f, c, rw e refl)
        go (ok (r, some ev)) e =
            judge_blocked-Post _ a text r ev trace (scan_for_tenant-event w.matches library input e)
              (λ x. (a, text, f, c, rw e refl))
        go (ok (r, none)) e =
            weaken-Post _ _ (BlockedAt w q log) (judge w q text r trace (emitted_log a))
              (judge-Post a text r trace (λ x. (a, text, f, c, rw e refl)))
              λ u t l h. (h.0, (r, e, h.1, h.2))
