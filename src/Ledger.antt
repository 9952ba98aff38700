-- ===== src/Ledger.antt =====
-- packages/ledger/src/index.ts: the Event Ledger. The signature (HMAC-SHA-256 under the signing key)
-- and the comparison of two signatures' bytes come from node:crypto, and the PII redaction from
-- packages/core/src/pii.ts: they are parameters. The text that is signed joins its parts by a unit
-- separator; here it is the record of its parts. A tenant's rows are held newest first, in the
-- descending order of the unique index on tenant and sequence number.
pub mod Integrity
use burkham_wickmont_operati.Core.Events.{LedgerEventInput, EventActor}
use burkham_wickmont_operati.Prelude.{
  ℕ, none, String, zero, suc, if◌then◌else◌, Bool, false, ◌≡◌, ◌+◌, some, ◌&&◌, ◌==◌, List, Option,
  true, not, [], ◌∷◌, reverse,
}

-- the previous entry's signature, or `GENESIS_HASH`
pub data Link (Sig : Type 0) : Type 0 where
  genesis : Link Sig
  after : Sig → Link Sig

pub record Canonical (P Sig : Type 0) : Type 0 where
  pub tenant_id : ℕ
  pub seq : ℕ
  pub type : String
  pub actor_id : ℕ
  pub client_id : Option ℕ
  pub payload : P
  pub prev_hash : Link Sig

pub record LedgerEvent (P Sig : Type 0) : Type 0 where
  pub tenant_id : ℕ
  pub seq : ℕ
  pub type : String
  pub actor : EventActor
  pub client_id : Option ℕ
  pub correlation_id : Option ℕ
  pub payload : P
  pub prev_hash : Link Sig
  pub signature : Sig
  pub created_at : ℕ

-- What node:crypto and pii.ts give.
pub record Signing (P Sig : Type 0) : Type 0 where
  pub sign : Canonical P Sig → Sig
  -- equal as texts
  pub same : Sig → Sig → Bool
  -- `Buffer.from(a, 'hex')` and `Buffer.from(b, 'hex')` have equal length and bytes
  pub same_bytes : Sig → Sig → Bool
  pub redact : P → P
  -- `assertNoPii` does not throw
  pub is_clean : P → Bool
  pub same_refl : (s : Sig) → same s s ≡ true
  pub same_bytes_refl : (s : Sig) → same_bytes s s ≡ true

-- How one attempt at the transaction ends.
pub data Attempt : Type 0 where
  commits retryable_error other_error : Attempt

abbrev pub max_append_attempts : ℕ
max_append_attempts = 5

pub data Verdict : Type 0 where
  intact : ℕ → Verdict
  sequence_gap : ℕ → ℕ → Verdict
  link_broken : ℕ → ℕ → Verdict
  signature_invalid : ℕ → ℕ → Verdict

module _ {P Sig : Type 0} (g : Signing P Sig) where
  -- the rows of each tenant
  abbrev pub Table : Type 0
  Table = ℕ → List (LedgerEvent P Sig)

  abbrev pub canonicalize : LedgerEvent P Sig → Canonical P Sig
  canonicalize e = record {
    tenant_id = e.tenant_id;
    seq = e.seq;
    type = e.type;
    actor_id = e.actor.id;
    client_id = e.client_id;
    payload = e.payload;
    prev_hash = e.prev_hash;
  }

  abbrev tail_seq : List (LedgerEvent P Sig) → ℕ
  tail_seq [] = 0
  tail_seq (t ∷ rest) = t.seq

  abbrev tail_link : List (LedgerEvent P Sig) → Link Sig
  tail_link [] = genesis
  tail_link (t ∷ rest) = after t.signature

  -- the row that the transaction creates, given the tenant's rows
  unfoldable pub next_entry : LedgerEventInput P → ℕ → List (LedgerEvent P Sig) → LedgerEvent P Sig
  next_entry i now rows =
      let safe = g.redact i.payload in
      record {
        tenant_id = i.tenant_id;
        seq = tail_seq rows + 1;
        type = i.type;
        actor = i.actor;
        client_id = i.client_id;
        correlation_id = i.correlation_id;
        payload = safe;
        prev_hash = tail_link rows;
        signature = g.sign (record {
          tenant_id = i.tenant_id;
          seq = tail_seq rows + 1;
          type = i.type;
          actor_id = i.actor.id;
          client_id = i.client_id;
          payload = safe;
          prev_hash = tail_link rows;
        });
        created_at = now;
      }

  abbrev pub write : ℕ → LedgerEvent P Sig → Table → Table
  write tenant e t k = if k == tenant then e ∷ t k else t k

  -- the loop over attempts: `tries` are left, and the environment says how each ends
  abbrev pub attempts_commit : ℕ → (ℕ → Attempt) → Bool
  attempts_commit zero env = false
  attempts_commit (suc tries) env =
      let rest = attempts_commit tries env in
      elim (env tries) [ commits ↦ true | retryable_error ↦ rest | other_error ↦ false ]

  -- `none` is a thrown error
  unfoldable pub append : LedgerEventInput P → ℕ → (ℕ → Attempt) → Table → Option Table
  unfolding next_entry
  append i now env t =
      if g.is_clean (g.redact i.payload) && attempts_commit max_append_attempts env
      then some (write i.tenant_id (next_entry i now (t i.tenant_id)) t)
      else none

  -- `read` of one tenant: ascending sequence numbers
  unfoldable pub read : Table → ℕ → List (LedgerEvent P Sig)
  read t tenant = reverse (t tenant)

  abbrev same_link : Link Sig → Link Sig → Bool
  same_link genesis genesis = true
  same_link (after a) (after b) = g.same a b
  same_link _ _ = false

  -- the loop of `verifyIntegrity` from an index on
  unfoldable pub verify_from : Link Sig → ℕ → List (LedgerEvent P Sig) → Verdict
  verify_from expected index [] = intact index
  verify_from expected index (e ∷ es) =
      let rest = verify_from (after e.signature) (index + 1) es in
      if not (e.seq == index + 1)
      then sequence_gap index e.seq
      else if not (same_link e.prev_hash expected)
      then link_broken index e.seq
      else if not (g.same_bytes e.signature (g.sign (canonicalize e)))
      then signature_invalid index e.seq
      else rest

  unfoldable pub verify_integrity : Table → ℕ → Verdict
  unfolding verify_from read
  verify_integrity t tenant = verify_from genesis 0 (read t tenant)
