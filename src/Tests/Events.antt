-- ===== src/Tests/Events.antt =====
-- The Event Ledger, signed by a counter of its parts.
use burkham_wickmont_operati.Prelude.{
  ℕ, if◌then◌else◌, none, ◌==◌, true, ◌*◌, ◌+◌, map, ◌≡◌, [], refl, ==_iff, ◌∷◌, arith,
}
use burkham_wickmont_operati.Core.Events.{LedgerEventInput, ActorKind}
use burkham_wickmont_operati.Ledger.{
  Signing, append, Attempt, read, commits, retryable_error, genesis, verify_integrity, after,
  LedgerEvent, Link, verify_from, intact, Table, sequence_gap, next_entry,
}
use burkham_wickmont_operati.Ledger.Integrity.{
  verify_from-recast, recast, verify_from-removed, verify_from-truncated, append-verifies,
}

abbrev previous : Link ℕ → ℕ
previous genesis = 0
previous (after s) = s

-- the payloads are numbers and a signature is a number
abbrev signing : Signing ℕ ℕ
signing = record {
  sign = λ c. previous c.prev_hash * 31 + c.payload + c.seq;
  same = λ a b. a == b;
  same_bytes = λ a b. a == b;
  redact = λ p. p;
  is_clean = λ p. true;
  same_refl = λ s. (==_iff s s).1 refl;
  same_bytes_refl = λ s. (==_iff s s).1 refl;
}

abbrev note : ℕ → LedgerEventInput ℕ
note p = record {
  tenant_id = 7;
  type = "note";
  actor = record { id = 1; kind = ActorKind.human };
  client_id = none;
  correlation_id = none;
  payload = p;
}

abbrev entry : ℕ → ℕ → Link ℕ → ℕ → LedgerEvent ℕ ℕ
entry p n link s = record {
  tenant_id = 7;
  seq = n;
  type = "note";
  actor = record { id = 1; kind = ActorKind.human };
  client_id = none;
  correlation_id = none;
  payload = p;
  prev_hash = link;
  signature = s;
  created_at = 1000;
}

abbrev first_entry : LedgerEvent ℕ ℕ
first_entry = entry 10 1 genesis 11

abbrev second_entry : LedgerEvent ℕ ℕ
second_entry = entry 20 2 (after 11) 363

abbrev table : Table signing
table k = if k == 7 then first_entry ∷ [] else []

abbrev second_table : Table signing
second_table k = if k == 7 then second_entry ∷ table k else table k

-- the first attempt conflicts with another append, the second commits
abbrev one_conflict : ℕ → Attempt
one_conflict tries = if tries == 4 then retryable_error else commits

append-verifies_example :
    (verify_integrity signing second_table 7 ≡ intact 2) × (second_table 8 ≡ table 8)
unfolding verify_integrity verify_from read append next_entry
append-verifies_example =
    append-verifies signing (note 20) 1000 1 8 one_conflict table {t' = second_table}
      (λ e. omega (arith, e)) refl refl

verify_from-removed_example : verify_from signing genesis 0 (second_entry ∷ []) ≡ sequence_gap 0 2
unfolding verify_from
verify_from-removed_example =
    verify_from-removed signing genesis 0 2 [] first_entry second_entry [] refl

verify_from-recast_example :
    verify_from signing genesis 0
      (map (recast signing (λ e. ActorKind.client)) (first_entry ∷ second_entry ∷ []))
    ≡ verify_from signing genesis 0 (first_entry ∷ second_entry ∷ [])
verify_from-recast_example =
    verify_from-recast signing (λ e. ActorKind.client) genesis 0 (first_entry ∷ second_entry ∷ [])

verify_from-truncated_example : verify_from signing genesis 0 (first_entry ∷ []) ≡ intact 1
unfolding verify_from
verify_from-truncated_example =
    verify_from-truncated signing genesis 0 2 (first_entry ∷ []) (second_entry ∷ []) refl
