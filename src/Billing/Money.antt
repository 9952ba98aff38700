-- ===== src/Billing/Money.antt =====
-- packages/billing/src/money.ts on non-negative amounts: whole cents, as JavaScript numbers. The
-- result of a call is its cents, an exception, or `inexact` where a product leaves the integers
-- that a double holds exactly, and the source's figure is not modelled.
use burkham_wickmont_operati.Prelude.{
  min, ◌≤◌, ◌==◌, if◌then◌else◌, ◌*◌, ◌≡◌, not, leb, Bool, arith, ℕ, ◌/◌, ◌+◌, ◌-◌, ◌<◌,
}

pub data Cents : Type 0 where
  cents : ℕ → Cents
  thrown inexact : Cents

abbrev pub max_safe_integer : ℕ
max_safe_integer = 9007199254740991

abbrev is_safe : ℕ → Bool
is_safe n = leb n max_safe_integer

pub data RoundingDirection : Type 0 where
  toward_client away_from_client : RoundingDirection

-- `Math.floor(n / d)` and `Math.ceil(n / d)`, exact while n is safe
abbrev pub rounded : RoundingDirection → ℕ → ℕ → ℕ
rounded toward_client n d = n / d
rounded away_from_client n d = (n + (d - 1)) / d

abbrev if_exact : ℕ → Cents → Cents
if_exact n c = if is_safe n then c else inexact

unfoldable pub percentage_of : ℕ → ℕ → RoundingDirection → Cents
percentage_of amount basis_points direction =
    if not (is_safe amount)
    then thrown
    else if_exact (amount * basis_points) (cents (rounded direction (amount * basis_points) 10000))

unfoldable pub proportion_of : ℕ → ℕ → ℕ → RoundingDirection → Cents
proportion_of amount numerator denominator direction =
    if denominator == 0
    then thrown
    else if_exact (amount * min numerator denominator)
        (cents (rounded direction (amount * min numerator denominator) denominator))

-- A percentage rounded toward the client is the greatest whole number of cents that does not exceed
-- the exact figure, and rounded away from the client it is the least that is not below it.
pub percentage_of_tight :
    (amount basis_points low high : ℕ)
    → percentage_of amount basis_points toward_client ≡ cents low
    → percentage_of amount basis_points away_from_client ≡ cents high
    → (low * 10000 ≤ amount * basis_points)
      × (amount * basis_points < (low + 1) * 10000)
      × (amount * basis_points ≤ high * 10000)
      × (high * 10000 < amount * basis_points + 10000)
      × (high ≤ low + 1)
unfolding percentage_of
percentage_of_tight amount basis_points low high l h = ground arith
