-- ===== src/Workflow/Queue/Crashes.antt =====
-- Tasks that kill their workers, in packages/workflow/src/queue.ts: reclaiming does not count against
-- the maximum of attempts.
use burkham_wickmont_operati.Prelude.{
  arith, ◌==◌, update_where, refl, String, ◌+◌, ◌∷◌, zero, none, [], ◌≡◌, ◌≤◌, ℕ, ◌*◌, suc, false,
  true, ==_iff, ltb, order_by, not, take, Bool, length, any-order_by, All, map, filter, insert_by,
  All-weaken,
}
use burkham_wickmont_operati.Workflow.Queue.{
  batch, Task, Tasks, pending, claim, reclaim_expired_leases, claimed, reclaimed, is_claimable,
  has_id, more_urgent,
}
use burkham_wickmont_operati.Workflow.Queue.Retries.{RowByRow}

-- a worker claims up to `limit` tasks and dies; their leases run out and are reclaimed; and so `n` times
unfoldable pub crashes : ℕ → ℕ → String → ℕ → ℕ → Tasks → Tasks
unfolding claim reclaim_expired_leases
crashes zero limit worker lease now ts = ts
crashes (suc n) limit worker lease now ts =
    let later = now + lease * 1000 + 1 in
    crashes n limit worker lease later
      (reclaim_expired_leases later none (claim worker limit now lease none (λ _. false) ts).0)

abbrev pub IsDue : ℕ → Task → Type 0
IsDue now t = (t.status ≡ pending) × (t.run_at ≤ now)

filter-due : (now : ℕ) (ts : Tasks) → All (IsDue now) ts → filter (is_claimable now none) ts ≡ ts
filter-due now [] h = refl
filter-due now (t ∷ ts) h =
    let due : is_claimable now none t ≡ true = rw h.0.0 (ground (arith, h.0.1)) in
    rw (due, filter-due now ts h.1) refl

unlocked : (ts : Tasks) → filter (λ t. not false) ts ≡ ts
unlocked [] = refl
unlocked (t ∷ ts) = rw (unlocked ts) refl

length-insert_by : (t : Task) (ts : Tasks) → length (insert_by more_urgent t ts) ≡ length ts + 1
length-insert_by t [] = refl
length-insert_by t (u ∷ ts) = ground (arith, length-insert_by t ts)

length-order_by : (ts : Tasks) → length (order_by more_urgent ts) ≡ length ts
length-order_by [] = refl
length-order_by (t ∷ ts) =
    ground (arith, length-insert_by t (order_by more_urgent ts), length-order_by ts)

take-whole : (n : ℕ) (ts : Tasks) → length ts ≤ n → take n ts ≡ ts
take-whole zero [] h = refl
take-whole (suc n) [] h = refl
take-whole zero (t ∷ ts) h = absurd (ground arith)
take-whole (suc n) (t ∷ ts) h = rw (take-whole n ts (omega arith)) refl

-- the whole table is due and fits the limit, so it is claimed
batch-due :
    (limit now : ℕ) (ts : Tasks)
    → All (IsDue now) ts
    → length ts ≤ limit
    → batch limit now none (λ _. false) ts ≡ order_by more_urgent ts
batch-due limit now ts h l =
    rw (filter-due now ts h, unlocked (order_by more_urgent ts))
      (take-whole limit (order_by more_urgent ts) (rw (length-order_by ts) l))

update_where-each :
    (p : Task → Bool) (f : Task → Task) (ts : Tasks)
    → All (λ t. p t ≡ true) ts
    → update_where p f ts ≡ map f ts
update_where-each p f [] h = refl
update_where-each p f (t ∷ ts) h = rw (h.0, update_where-each p f ts h.1) refl

has_id-own : (ts : Tasks) → All (λ t. has_id ts t.id ≡ true) ts
has_id-own [] = tt
has_id-own (t ∷ ts) = (
  rw ((==_iff t.id t.id).1 refl) refl,
  All-weaken (λ u. has_id ts u.id ≡ true) (λ u. has_id (t ∷ ts) u.id ≡ true) ts
      (λ u h. ground arith) (has_id-own ts),
)

claim-due :
    (worker : String) (limit now lease : ℕ) (ts : Tasks)
    → All (IsDue now) ts
    → length ts ≤ limit
    → (claim worker limit now lease none (λ _. false) ts).0
      ≡ map (claimed worker (now + lease * 1000)) ts
unfolding claim
claim-due worker limit now lease ts h l = rw (batch-due limit now ts h l) (
    update_where-each (λ t. has_id (order_by more_urgent ts) t.id)
      (claimed worker (now + lease * 1000)) ts
      (All-weaken (λ t. has_id ts t.id ≡ true) (λ t. has_id (order_by more_urgent ts) t.id ≡ true)
        ts (λ t own. rw (any-order_by more_urgent (λ u. u.id == t.id) ts) own) (has_id-own ts)))

-- the row after one crash
abbrev after_crash : String → ℕ → Task → Task
after_crash worker expiry t = reclaimed (claimed worker expiry t)

reclaim-claimed :
    (worker : String) (expiry : ℕ) (ts : Tasks)
    → reclaim_expired_leases (expiry + 1) none (map (claimed worker expiry) ts)
      ≡ map (after_crash worker expiry) ts
unfolding reclaim_expired_leases
reclaim-claimed worker expiry [] = refl
reclaim-claimed worker expiry (t ∷ ts) =
    let over : ltb expiry (expiry + 1) ≡ true = ground arith in
    rw (over, reclaim-claimed worker expiry ts) refl

still_due :
    (worker : String) (now expiry later : ℕ) (ts : Tasks)
    → now ≤ later
    → All (IsDue now) ts
    → All (IsDue later) (map (after_crash worker expiry) ts)
still_due worker now expiry later [] l h = tt
still_due worker now expiry later (t ∷ ts) l h =
    ((refl, omega (arith, h.0.1)), still_due worker now expiry later ts l h.1)

length-after_crash :
    (worker : String) (expiry : ℕ) (ts : Tasks)
    → length (map (after_crash worker expiry) ts) ≡ length ts
length-after_crash worker expiry [] = refl
length-after_crash worker expiry (t ∷ ts) = rw (length-after_crash worker expiry ts) refl

-- a row is pending again, with `n` more attempts and the same maximum
abbrev pub Survives : ℕ → Task → Task → Type 0
Survives n t u =
    (u.id ≡ t.id)
    × (u.status ≡ pending)
    × (u.attempts ≡ t.attempts + n)
    × (u.max_attempts ≡ t.max_attempts)

none_crashed : (now : ℕ) (ts : Tasks) → All (IsDue now) ts → RowByRow (Survives 0) ts ts
none_crashed now [] h = tt
none_crashed now (t ∷ ts) h = ((refl, h.0.0, omega arith, refl), none_crashed now ts h.1)

crashed_before :
    (n : ℕ) (worker : String) (expiry : ℕ) (ts us : Tasks)
    → RowByRow (Survives n) (map (after_crash worker expiry) ts) us
    → RowByRow (Survives (suc n)) ts us
crashed_before n worker expiry [] [] h = tt
crashed_before n worker expiry [] (u ∷ us) h = absurd h
crashed_before n worker expiry (t ∷ ts) [] h = absurd h
crashed_before n worker expiry (t ∷ ts) (u ∷ us) h =
    ((h.0.0, h.0.1, omega (arith, h.0.2), h.0.3), crashed_before n worker expiry ts us h.1)

-- Tasks that are pending and due, in a table that holds nothing else, and that kill each worker that
-- claims them are never dead-lettered: where a worker claims the whole table, without a scope or
-- locks, each row is pending again after any number of crashes, its attempts have grown by that
-- number, and its maximum, whatever it is, has not stopped it.
pub crashes-pending :
    (n limit : ℕ) (worker : String) (lease now : ℕ) (ts : Tasks)
    → All (IsDue now) ts
    → length ts ≤ limit
    → RowByRow (Survives n) ts (crashes n limit worker lease now ts)
unfolding crashes claim reclaim_expired_leases
crashes-pending zero limit worker lease now ts h l = none_crashed now ts h
crashes-pending (suc n) limit worker lease now ts h l =
    let expiry = now + lease * 1000 in
    let crashed = map (after_crash worker expiry) ts in
    let rest =
      crashes-pending n limit worker lease (expiry + 1) crashed
        (still_due worker now expiry (expiry + 1) ts (omega arith) h)
        (rw (length-after_crash worker expiry ts) l) in
    rw (claim-due worker limit now lease ts h l, reclaim-claimed worker expiry ts)
      (crashed_before n worker expiry ts (crashes n limit worker lease (expiry + 1) crashed) rest)
