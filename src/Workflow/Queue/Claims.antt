-- ===== src/Workflow/Queue/Claims.antt =====
-- Two claims never return the same task.
use burkham_wickmont_operati.Prelude.{
  true, update_where, order_by, All, String, filter, Option, ◌∷◌, [], inr, inl, ◌≡◌, Bool, ℕ,
  Bool-cases, false, ◌*◌, not, ◌+◌, arith, ◌==◌, ==_iff, take-All, filter-All, filter-sat,
  order_by-All, filter-each,
}
use burkham_wickmont_operati.Workflow.Queue.{
  is_claimable, has_id, Tasks, claim, claimed, more_urgent, Task, batch,
}

-- a row that a claim took is not claimable in the table it leaves
taken-unclaimable :
    (chosen : Tasks) (worker : String) (expiry now : ℕ) (tenant : Option ℕ) (ts : Tasks)
    → All
        (λ t. is_claimable now tenant t ≡ true → has_id chosen t.id ≡ false)
        (update_where (λ t. has_id chosen t.id) (claimed worker expiry) ts)
taken-unclaimable chosen worker expiry now tenant [] = tt
taken-unclaimable chosen worker expiry now tenant (t ∷ ts) =
    elim (Bool-cases (has_id chosen t.id)) [
      | inl e ↦ rw e (λ h. cc, taken-unclaimable chosen worker expiry now tenant ts)
      | inr e ↦ rw e (λ h. e, taken-unclaimable chosen worker expiry now tenant ts)
    ]

has_id-apart :
    (c1 c2 : Tasks) (k : ℕ)
    → All (λ t. has_id c1 t.id ≡ false) c2
    → has_id c2 k ≡ true
    → has_id c1 k ≡ false
has_id-apart c1 [] k a h = cc
has_id-apart c1 (t ∷ c2) k a h = elim (Bool-cases (t.id == k)) [
  | inl e ↦ rw (← (==_iff t.id k).0 e) a.0
  | inr e ↦ has_id-apart c1 c2 k a.1 (rw e at h)
]

has_id-filter :
    (c ts : Tasks) (k : ℕ) → has_id (filter (λ t. has_id c t.id) ts) k ≡ true → has_id c k ≡ true
has_id-filter c [] k h = cc
has_id-filter c (t ∷ ts) k h = elim (Bool-cases (has_id c t.id)) [
  | inl e ↦ elim (Bool-cases (t.id == k)) [
    | inl s ↦ rw (← (==_iff t.id k).0 s) e
    | inr s ↦ has_id-filter c ts k (rw (e, s) at h)
  ]
  | inr e ↦ has_id-filter c ts k (rw e at h)
]

filter-has_id-false :
    (c ts : Tasks) (k : ℕ) → has_id c k ≡ false → has_id (filter (λ t. has_id c t.id) ts) k ≡ false
filter-has_id-false c ts k h = elim (Bool-cases (has_id (filter (λ t. has_id c t.id) ts) k)) [
  | inl e ↦ ground (arith, has_id-filter c ts k e)
  | inr e ↦ e
]

batch-apart :
    (c : Tasks) (limit now : ℕ) (tenant : Option ℕ) (locked : ℕ → Bool) (ts : Tasks)
    → All (λ t. is_claimable now tenant t ≡ true → has_id c t.id ≡ false) ts
    → All (λ t. has_id c t.id ≡ false) (batch limit now tenant locked ts)
batch-apart c limit now tenant locked ts h =
    let Apart : Task → Type 0 = λ t. has_id c t.id ≡ false in
    let due = filter (is_claimable now tenant) ts in
    take-All Apart limit (filter (λ t. not (locked t.id)) (order_by more_urgent due)) (
      filter-All Apart (λ t. not (locked t.id)) (order_by more_urgent due)
        (order_by-All Apart more_urgent due (filter-sat Apart (is_claimable now tenant) ts h)))

-- Two claims, one after the other, by whichever workers, at whatever times, in whatever scopes and
-- whatever rows are locked, return no task in common.
pub claim-disjoint :
    (w1 w2 : String) (limit1 limit2 now1 now2 lease1 lease2 : ℕ) (tenant1 tenant2 : Option ℕ)
    (locked1 locked2 : ℕ → Bool) (ts : Tasks)
    → let first = claim w1 limit1 now1 lease1 tenant1 locked1 ts in
      let second = claim w2 limit2 now2 lease2 tenant2 locked2 first.0 in
      All (λ t. has_id first.1 t.id ≡ false) second.1
unfolding claim
claim-disjoint w1 w2 limit1 limit2 now1 now2 lease1 lease2 tenant1 tenant2 locked1 locked2 ts =
    let c1 = batch limit1 now1 tenant1 locked1 ts in
    let ts1 = update_where (λ t. has_id c1 t.id) (claimed w1 (now1 + lease1 * 1000)) ts in
    let c2 = batch limit2 now2 tenant2 locked2 ts1 in
    let ts2 = update_where (λ t. has_id c2 t.id) (claimed w2 (now2 + lease2 * 1000)) ts1 in
    filter-each (λ t. has_id (filter (λ t. has_id c1 t.id) ts1) t.id ≡ false) (λ t. has_id c2 t.id)
      ts2
      λ t h. filter-has_id-false c1 ts1 t.id (
        has_id-apart c1 c2 t.id
          (batch-apart c1 limit2 now2 tenant2 locked2 ts1
            (taken-unclaimable c1 w1 (now1 + lease1 * 1000) now2 tenant2 ts))
          h)
