-- ===== src/Ledger/Integrity.antt =====
-- What `verifyIntegrity` of packages/ledger/src/index.ts detects, and what it cannot.
use burkham_wickmont_operati.Ledger.{
  Signing, LedgerEvent, Link, verify_from, after, intact, append, genesis, next_entry,
  verify_integrity, Table, Attempt, write, sequence_gap, max_append_attempts, attempts_commit,
}
use burkham_wickmont_operati.Prelude.{
  ℕ, arith, ◌++◌, ◌≡◌, ◌+◌, List, [], ◌∷◌, ◌≢◌, some, reverse-cons, append_assoc, reverse, refl,
  length, ==_iff, ◌&&◌, inl, map, Bool-cases, inr,
}
use burkham_wickmont_operati.Core.Events.{LedgerEventInput, ActorKind}
use mathlib.Core.Option.{some-injective, none-ne-some}

module _ {P Sig : Type 0} (g : Signing P Sig) where
  -- The last of a run that verifies carries the run's number of entries, and what follows it is
  -- checked against it.
  verify_from-last :
      (p : Link Sig) (k n : ℕ) (ys : List (LedgerEvent P Sig)) (t : LedgerEvent P Sig)
      (zs : List (LedgerEvent P Sig))
      → verify_from g p k (ys ++ t ∷ []) ≡ intact n
      → (t.seq ≡ n) × (verify_from g p k (ys ++ t ∷ zs) ≡ verify_from g (after t.signature) n zs)
  unfolding verify_from
  verify_from-last p k n [] t zs h = ground arith
  verify_from-last p k n (y ∷ ys) t zs h =
      ground (arith, verify_from-last (after y.signature) (k + 1) n ys t zs)

  -- An entry made by `append` verifies as the next of a chain that verifies.
  next_entry-verifies :
      (i : LedgerEventInput P) (now n : ℕ) (rows : List (LedgerEvent P Sig))
      → verify_from g genesis 0 (reverse rows) ≡ intact n
      → verify_from g genesis 0 (reverse (next_entry g i now rows ∷ rows)) ≡ intact (n + 1)
  unfolding verify_from next_entry
  next_entry-verifies i now n [] h =
      ground (arith, g.same_bytes_refl (next_entry g i now []).signature)
  next_entry-verifies i now n (t ∷ rest) h =
      let e = next_entry g i now (t ∷ rest) in
      rw (reverse-cons e (t ∷ rest), reverse-cons t rest, append_assoc)
        (ground (
          arith,
          verify_from-last genesis 0 n (reverse rest) t (e ∷ []) (rw (reverse-cons t rest) at h),
          g.same_bytes_refl e.signature,
          g.same_refl t.signature,
        ))

  write-verifies :
      (i : LedgerEventInput P) (now n k : ℕ) (t : Table g) {t' : Table g}
      → k ≢ i.tenant_id
      → verify_integrity g t i.tenant_id ≡ intact n
      → write g i.tenant_id (next_entry g i now (t i.tenant_id)) t ≡ t'
      → (verify_integrity g t' i.tenant_id ≡ intact (n + 1)) × (t' k ≡ t k)
  unfolding verify_integrity
  write-verifies i now n k t ne h e = rw (← e) (
    rw ((==_iff i.tenant_id i.tenant_id).1 refl) (next_entry-verifies i now n (t i.tenant_id) h),
    ground arith,
  )

  -- What an append that succeeds does: the tenant's chain, if it verified with n entries, verifies
  -- with n + 1, and any other tenant's rows are as they were.
  pub append-verifies :
      (i : LedgerEventInput P) (now n k : ℕ) (env : ℕ → Attempt) (t : Table g) {t' : Table g}
      → k ≢ i.tenant_id
      → verify_integrity g t i.tenant_id ≡ intact n
      → append g i now env t ≡ some t'
      → (verify_integrity g t' i.tenant_id ≡ intact (n + 1)) × (t' k ≡ t k)
  unfolding append
  append-verifies i now n k env t ne h a =
      elim (Bool-cases
        (g.is_clean (g.redact i.payload) && attempts_commit g max_append_attempts env)) [
          | inl go ↦ write-verifies i now n k t ne h (some-injective _ _ (rw go at a))
          | inr stop ↦ absurd (none-ne-some _ (rw stop at a))
        ]

  -- Removing any entry that has one after it is detected: the scan stops at the next entry, with a
  -- gap in the sequence.
  pub verify_from-removed :
      (p : Link Sig) (k n : ℕ) (ys : List (LedgerEvent P Sig)) (e next : LedgerEvent P Sig)
      (zs : List (LedgerEvent P Sig))
      → verify_from g p k (ys ++ e ∷ next ∷ zs) ≡ intact n
      → verify_from g p k (ys ++ next ∷ zs) ≡ sequence_gap (k + length ys) next.seq
  unfolding verify_from
  verify_from-removed p k n [] e next zs h = ground arith
  verify_from-removed p k n (y ∷ ys) e next zs h =
      ground (arith, verify_from-removed (after y.signature) (k + 1) n ys e next zs)

  abbrev pub recast : (LedgerEvent P Sig → ActorKind) → LedgerEvent P Sig → LedgerEvent P Sig
  recast kind e = record e { actor = record { id = e.actor.id; kind = kind e } }

  -- The kind of an actor is not signed: giving every entry of a chain another kind of actor leaves
  -- the verdict as it was.
  pub verify_from-recast :
      (kind : LedgerEvent P Sig → ActorKind) (p : Link Sig) (k : ℕ) (es : List (LedgerEvent P Sig))
      → verify_from g p k (map (recast kind) es) ≡ verify_from g p k es
  unfolding verify_from
  verify_from-recast kind p k [] = refl
  verify_from-recast kind p k (e ∷ es) =
      rw (verify_from-recast kind (after e.signature) (k + 1) es) refl

  -- Removing the newest entries is not detected: what is left of a chain that verifies verifies.
  pub verify_from-truncated :
      (p : Link Sig) (k n : ℕ) (ys zs : List (LedgerEvent P Sig))
      → verify_from g p k (ys ++ zs) ≡ intact n
      → verify_from g p k ys ≡ intact (k + length ys)
  unfolding verify_from
  verify_from-truncated p k n [] zs h = ground arith
  verify_from-truncated p k n (y ∷ ys) zs h =
      ground (arith, verify_from-truncated (after y.signature) (k + 1) n ys zs)
