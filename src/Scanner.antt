-- ===== src/Scanner.antt =====
-- packages/scanner/src/index.ts: the Communication Compliance Scanner. Where a phrase matches is
-- the answer of the regular-expression engine, the argument `matches phrase text`.
use burkham_wickmont_operati.Core.Outcome.{Outcome, ok, refused, empty_library}
use burkham_wickmont_operati.Core.Events.{EventActor, Event, Payload}
use burkham_wickmont_operati.Prelude.{
  ◌++◌, map, String, length, none, List, false, [], ℕ, ◌∷◌, true, Option, filter, Bool, any, some,
  includes, if◌then◌else◌, ◌≡◌, arith,
}

pub data Disposition : Type 0 where
  approved banned requires_disclaimer : Disposition

pub record MarketingClaim : Type 0 where
  pub phrase : String
  pub disposition : Disposition
  pub required_disclosure : Option String

pub data ScanVerdict : Type 0 where
  clean requires_disclosure blocked_content : ScanVerdict

pub record ScanFinding : Type 0 where
  pub phrase : String
  pub disposition : Disposition
  pub offset : ℕ
  pub required_disclosure : Option String

pub record ScanResult : Type 0 where
  pub verdict : ScanVerdict
  pub findings : List ScanFinding
  pub required_disclosures : List String
  pub library_entries_checked : ℕ

abbrev pub is_banned : Disposition → Bool
is_banned banned = true
is_banned _ = false

abbrev is_approved : Disposition → Bool
is_approved approved = true
is_approved _ = false

abbrev is_disclaimer : Disposition → Bool
is_disclaimer requires_disclaimer = true
is_disclaimer _ = false

abbrev finding_at : MarketingClaim → ℕ → ScanFinding
finding_at claim offset = record {
  phrase = claim.phrase;
  disposition = claim.disposition;
  offset = offset;
  required_disclosure = claim.required_disclosure;
}

module _ (matches : String → String → List ℕ) (text : String) where
  -- the inner loop: one finding for each match of a claim that is not approved
  abbrev claim_findings : MarketingClaim → List ScanFinding
  claim_findings claim =
      if is_approved claim.disposition
      then []
      else map (finding_at claim) (matches claim.phrase text)

  abbrev pub all_findings : List MarketingClaim → List ScanFinding
  all_findings [] = []
  all_findings (claim ∷ library) = claim_findings claim ++ all_findings library

-- `Set.add`
abbrev add_once : String → List String → List String
add_once d ds = if includes ds d then ds else ds ++ d ∷ []

abbrev add_disclosure : ScanFinding → List String → List String
add_disclosure f ds = elim f.required_disclosure [
  | none ↦ ds
  | some d ↦ if is_disclaimer f.disposition then add_once d ds else ds
]

abbrev disclosures_from : List ScanFinding → List String → List String
disclosures_from [] ds = ds
disclosures_from (f ∷ fs) ds = disclosures_from fs (add_disclosure f ds)

abbrev verdict_of : List ScanFinding → ScanVerdict
verdict_of [] = clean
verdict_of (f ∷ fs) =
    if any (λ g. is_banned g.disposition) (f ∷ fs) then blocked_content else requires_disclosure

unfoldable pub scan_text : (String → String → List ℕ) → String → List MarketingClaim → ScanResult
scan_text matches text library =
    let hits = all_findings matches text library in
    record {
      verdict = verdict_of hits;
      findings = hits;
      required_disclosures = disclosures_from hits [];
      library_entries_checked = length library;
    }

pub record ScanInput : Type 0 where
  pub tenant_id : ℕ
  pub text : String
  pub actor : EventActor
  pub client_id : Option ℕ

abbrev pub is_blocked : ScanVerdict → Bool
is_blocked blocked_content = true
is_blocked _ = false

abbrev pub blocked_event : ScanInput → ScanResult → Event
blocked_event i r = record {
  tenant_id = i.tenant_id;
  type = "scanner.blocked_content";
  actor = i.actor;
  client_id = i.client_id;
  correlation_id = none;
  payload =
      Payload.phrases (map (λ f. f.phrase) (filter (λ f. is_banned f.disposition) r.findings));
}

-- Over the library that `activeLibrary` loaded; the second part is the event of a block.
unfoldable pub scan_for_tenant :
    (String → String → List ℕ)
    → List MarketingClaim
    → ScanInput
    → Outcome (ScanResult × Option Event)
scan_for_tenant matches [] i = refused empty_library
scan_for_tenant matches (claim ∷ library) i =
    let r = scan_text matches i.text (claim ∷ library) in
    ok (r, if is_blocked r.verdict then some (blocked_event i r) else none)

-- An event is written only for a block.
pub scan_for_tenant-event :
    (matches : String → String → List ℕ) (library : List MarketingClaim) (i : ScanInput)
    {r : ScanResult} {e : Event}
    → scan_for_tenant matches library i ≡ ok (r, some e)
    → is_blocked r.verdict ≡ true
unfolding scan_for_tenant
scan_for_tenant-event matches [] i h = cc
scan_for_tenant-event matches (claim ∷ library) i {r} {e} h =
    with_event (scan_text matches i.text (claim ∷ library)) h
  where
    with_event :
        (s : ScanResult)
        → ◌≡◌ {A = Outcome (ScanResult × Option Event)}
            (ok (s, if is_blocked s.verdict then some (blocked_event i s) else none))
            (ok (r, some e))
        → is_blocked r.verdict ≡ true
    with_event s p = ground arith
