-- ===== src/Workflow/Queue/Retries.antt =====
-- Retries back off and end (packages/workflow/src/queue.ts).
use native.Mathlib.Nat.{pow-suc}
use burkham_wickmont_operati.Prelude.{
  arith, ◌⊎◌, ◌==◌, update_where, refl, String, ◌+◌, ◌∷◌, zero, none, [], ◌<◌, ◌≡◌, ◌≤◌, ℕ, some,
  min, ◌*◌, suc, ==_iff, ◌^◌, ◌-◌, inr, inl, Bool-cases, ◌≢◌,
}
use burkham_wickmont_operati.Workflow.Queue.{
  backoff_for, dead_lettered, buried, retried, max_backoff_seconds, retry_scheduled, Task, Tasks,
  pending, fail_task, FailureDisposition, next_run, dead_letter, TaskStatus,
}

-- two tables of the same rows, pair by pair
abbrev pub RowByRow : (Task → Task → Type 0) → Tasks → Tasks → Type 0
RowByRow R [] [] = Unit
RowByRow R [] (u ∷ us) = ⊥
RowByRow R (t ∷ ts) [] = ⊥
RowByRow R (t ∷ ts) (u ∷ us) = R t u × RowByRow R ts us

-- a row of the identifier is left with the error, without a lease, with its attempts as they were
-- and in the status and at the time given; another row is left as it is
abbrev pub FailedInto : ℕ → String → TaskStatus → (Task → ℕ) → Task → Task → Type 0
FailedInto id error status at_ t u =
    ((t.id ≢ id) × (u ≡ t))
    ⊎ ((t.id ≡ id)
        × (u.id ≡ id)
        × (u.status ≡ status)
        × (u.run_at ≡ at_ t)
        × (u.attempts ≡ t.attempts)
        × (u.max_attempts ≡ t.max_attempts)
        × (u.last_error ≡ some error)
        × (u.locked_by ≡ none)
        × (u.lease_expires_at ≡ none))

buried-RowByRow :
    (id : ℕ) (error : String) (ts : Tasks)
    → RowByRow
        (FailedInto id error dead_letter (λ t. t.run_at))
        ts
        (update_where (λ t. t.id == id) (buried error) ts)
buried-RowByRow id error [] = tt
buried-RowByRow id error (t ∷ ts) = elim (Bool-cases (t.id == id)) [
  | inl e ↦ rw e (
    inr ((==_iff t.id id).0 e, (==_iff t.id id).0 e, refl, refl, refl, refl, refl, refl, refl),
    buried-RowByRow id error ts,
  )
  | inr e ↦ rw e (inl (λ k. ground arith, refl), buried-RowByRow id error ts)
]

retried-RowByRow :
    (id : ℕ) (error : String) (at_ : ℕ) (ts : Tasks)
    → RowByRow
        (FailedInto id error pending (λ t. at_))
        ts
        (update_where (λ t. t.id == id) (retried error at_) ts)
retried-RowByRow id error at_ [] = tt
retried-RowByRow id error at_ (t ∷ ts) = elim (Bool-cases (t.id == id)) [
  | inl e ↦ rw e (
    inr ((==_iff t.id id).0 e, (==_iff t.id id).0 e, refl, refl, refl, refl, refl, refl, refl),
    retried-RowByRow id error at_ ts,
  )
  | inr e ↦ rw e (inl (λ k. ground arith, refl), retried-RowByRow id error at_ ts)
]

-- A failure that is recorded leaves the rows of the task's identifier dead-lettered exactly when the
-- attempts of the caller's copy are used up. Otherwise they are pending again, to run after the
-- copy's backoff, doubled with each attempt after the first and cut to a day. In both cases they
-- hold the error and no lease, and all other rows are as they were.
pub fail_task_exact :
    (task : Task) (error : String) (now : ℕ) (ts : Tasks) {ts' : Tasks} {r : FailureDisposition}
    → fail_task task error now ts ≡ some (ts', r)
    → ((task.max_attempts ≤ task.attempts)
        × (r ≡ dead_lettered task.attempts)
        × RowByRow (FailedInto task.id error dead_letter (λ t. t.run_at)) ts ts')
      ⊎ ((task.attempts < task.max_attempts)
          × ((at_ : ℕ) × (r ≡ retry_scheduled at_ task.attempts)
              × (at_ ≡ now + min (task.backoff_seconds * 2 ^ (task.attempts - 1)) 86400 * 1000)
              × RowByRow (FailedInto task.id error pending (λ t. at_)) ts ts'))
unfolding fail_task backoff_for
fail_task_exact task error now ts h =
    ground (
      arith,
      buried-RowByRow task.id error ts,
      retried-RowByRow task.id error (next_run task now) ts,
    )

backoff_for_suc : (n base : ℕ) → backoff_for (n + 1) base ≡ min (base * 2 ^ n) max_backoff_seconds
unfolding backoff_for
backoff_for_suc n base = let e : n + 1 - 1 ≡ n = omega arith in rw e refl

doubled : (n base : ℕ) → base * 2 ^ (n + 1) ≡ 2 * (base * 2 ^ n)
doubled n base = let e : n + 1 ≡ suc n = omega arith in rw (e, pow-suc 2 n) (grind arith)

-- The delay doubles with each attempt until it reaches a day, and never exceeds one.
pub backoff_for_doubles :
    (attempts base : ℕ)
    → 1 ≤ attempts
    → (backoff_for (attempts + 1) base ≡ min (2 * backoff_for attempts base) max_backoff_seconds)
      × (backoff_for attempts base ≤ backoff_for (attempts + 1) base)
      × (backoff_for attempts base ≤ max_backoff_seconds)
unfolding backoff_for
backoff_for_doubles (suc n) base h =
    ground (arith, backoff_for_suc n base, backoff_for_suc (n + 1) base, doubled n base)
backoff_for_doubles zero base h = omega arith
