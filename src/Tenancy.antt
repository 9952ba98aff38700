-- ===== src/Tenancy.antt =====
-- packages/tenancy/src/index.ts: the isolation check.
use burkham_wickmont_operati.Core.Outcome.{Outcome, ok, refused, cross_tenant}
use burkham_wickmont_operati.Prelude.{if◌then◌else◌, ◌==◌, ℕ}

unfoldable pub assert_same_tenant : ℕ → ℕ → Outcome ℕ
assert_same_tenant actor_tenant target =
    if actor_tenant == target then ok target else refused cross_tenant
