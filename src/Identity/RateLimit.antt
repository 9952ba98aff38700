-- ===== src/Identity/RateLimit.antt =====
-- packages/identity/src/rateLimit.ts: the shared attempt counter. Its one statement is one step here.
-- Which rows a bounded delete takes is the database's choice; here they are the first ones.
use mathlib.Core.Option.{some-injective}
use burkham_wickmont_operati.Prelude.{
  if◌then◌else◌, length, inr, find, some, str_eq, eq_refl, Option-cases, ◌+◌, none, any, inl,
  Option, take, [], String, not, update_where, List, ◌≡◌, ℕ, ◌∷◌, ◌*◌, leb, begins, Bool,
  str_append, codes, refl, filter, Bool-cases, true, false, sym, arith, ◌∙◌, ap,
}

pub record RateLimitCounter : Type 0 where
  pub id : String
  pub attempts : ℕ
  pub window_started_at : ℕ
  pub updated_at : ℕ

pub record RateLimitOutcome : Type 0 where
  pub attempts : ℕ
  pub window_started_at : ℕ

abbrev pub counter_id : String → String → String
counter_id scope key = str_append scope (str_append ":" key)

abbrev pub is_counter : String → RateLimitCounter → Bool
is_counter id row = str_eq row.id id

abbrev pub first_attempt : String → ℕ → RateLimitCounter
first_attempt id now = record { id = id; attempts = 1; window_started_at = now; updated_at = now }

-- `windowStartedAt <= now - window`
abbrev pub has_rolled : ℕ → ℕ → RateLimitCounter → Bool
has_rolled window_seconds now row = leb (row.window_started_at + window_seconds * 1000) now

abbrev pub counted_again : ℕ → ℕ → RateLimitCounter → RateLimitCounter
counted_again window_seconds now row =
    if has_rolled window_seconds now row
    then record row { attempts = 1; window_started_at = now; updated_at = now }
    else record row { attempts = row.attempts + 1; updated_at = now }

abbrev pub outcome_of_row : RateLimitCounter → RateLimitOutcome
outcome_of_row row = record { attempts = row.attempts; window_started_at = row.window_started_at }

-- `INSERT … ON CONFLICT ("id") DO UPDATE … RETURNING`
abbrev pub upsert_counter :
    Option RateLimitCounter
    → String
    → ℕ
    → ℕ
    → List RateLimitCounter
    → RateLimitOutcome × List RateLimitCounter
upsert_counter none id window_seconds now rows =
    (outcome_of_row (first_attempt id now), first_attempt id now ∷ rows)
upsert_counter (some row) id window_seconds now rows = (
  outcome_of_row (counted_again window_seconds now row),
  update_where (is_counter id) (counted_again window_seconds now) rows,
)

unfoldable pub consume_rate_limit :
    String → String → ℕ → ℕ → List RateLimitCounter → RateLimitOutcome × List RateLimitCounter
consume_rate_limit scope key window_seconds now rows =
    upsert_counter (find (is_counter (counter_id scope key)) rows) (counter_id scope key)
      window_seconds now rows

abbrev pub is_stale_counter : ℕ → ℕ → RateLimitCounter → Bool
is_stale_counter older_than_seconds now row = leb (row.updated_at + older_than_seconds * 1000) now

abbrev pub limit_or_thousand : Option ℕ → ℕ
limit_or_thousand none = 1000
limit_or_thousand (some n) = n

-- how many rows are deleted, and the rest
unfoldable pub sweep_rate_limits :
    ℕ → ℕ → Option ℕ → List RateLimitCounter → ℕ × List RateLimitCounter
sweep_rate_limits older_than_seconds now limit rows =
    let doomed =
      take (limit_or_thousand limit) (filter (is_stale_counter older_than_seconds now) rows) in
    (length doomed, filter (λ r. not (any (λ d. str_eq d.id r.id) doomed)) rows)

abbrev pub attempts_of : Option RateLimitCounter → ℕ
attempts_of none = 0
attempts_of (some row) = row.attempts

unfoldable pub rate_limit_count : String → String → List RateLimitCounter → ℕ
rate_limit_count scope key rows = attempts_of (find (is_counter (counter_id scope key)) rows)

-- `startsWith`
abbrev pub in_limit_scope : String → RateLimitCounter → Bool
in_limit_scope scope row = begins (codes (str_append scope ":")) (codes row.id)

unfoldable pub clear_rate_limits : String → List RateLimitCounter → ℕ × List RateLimitCounter
clear_rate_limits scope rows =
    (length (filter (in_limit_scope scope) rows), filter (λ r. not (in_limit_scope scope r)) rows)

counted_again-id :
    (window_seconds now : ℕ) (row : RateLimitCounter)
    → (counted_again window_seconds now row).id ≡ row.id
counted_again-id window_seconds now row = ground arith

find_here :
    (id : String) (r : RateLimitCounter) (rows : List RateLimitCounter)
    → is_counter id r ≡ true
    → find (is_counter id) (r ∷ rows) ≡ some r
find_here id r rows h = ground arith

find_later :
    (id : String) (r : RateLimitCounter) (rows : List RateLimitCounter)
    → is_counter id r ≡ false
    → find (is_counter id) (r ∷ rows) ≡ find (is_counter id) rows
find_later id r rows h = ground arith

find_counted :
    (id : String) (window_seconds now : ℕ) (row : RateLimitCounter) (rows : List RateLimitCounter)
    → find (is_counter id) rows ≡ some row
    → find (is_counter id) (update_where (is_counter id) (counted_again window_seconds now) rows)
      ≡ some (counted_again window_seconds now row)
find_counted id window_seconds now row [] h = cc
find_counted id window_seconds now row (r ∷ rows) h = elim (Bool-cases (is_counter id r)) [
  | inl e ↦
      let same : r ≡ row = some-injective _ _ (sym (find_here id r rows e) ∙ h) in
      let counter_kept : is_counter id (counted_again window_seconds now r) ≡ true =
        ap (λ s. str_eq s id) (counted_again-id window_seconds now r) ∙ e in
      rw (update_where, e)
        (find_here id (counted_again window_seconds now r)
            (update_where (is_counter id) (counted_again window_seconds now) rows) counter_kept
          ∙ ap (λ x. some (counted_again window_seconds now x)) same)
  | inr e ↦
      rw (update_where, e)
        (find_later id r (update_where (is_counter id) (counted_again window_seconds now) rows) e
          ∙ find_counted id window_seconds now row rows (sym (find_later id r rows e) ∙ h))
]

-- The number that an attempt is told is the number that is stored for its source, so the next attempt
-- counts on from it.
consume_rate_limit-count :
    (scope key : String) (window_seconds now : ℕ) (rows : List RateLimitCounter)
    → rate_limit_count scope key (consume_rate_limit scope key window_seconds now rows).1
      ≡ (consume_rate_limit scope key window_seconds now rows).0.attempts
unfolding rate_limit_count consume_rate_limit
consume_rate_limit-count scope key window_seconds now rows =
    elim (Option-cases (find (is_counter (counter_id scope key)) rows)) [
      | inl first ↦ rw (first, eq_refl (counter_id scope key)) refl
      | inr (row, there) ↦
          rw (there, find_counted (counter_id scope key) window_seconds now row rows there) refl
    ]
