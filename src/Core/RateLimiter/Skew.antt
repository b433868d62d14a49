-- ===== src/Core/RateLimiter/Skew.antt =====
-- The script trusts the clock of whichever host sends the request.
use native.Mathlib.Nat.{mul-le-mul_right}
use ject6_4th_ai_analyzer.Base.{
  ℕ, zero, suc, ◌+◌, ◌-◌, ◌*◌, ◌≤◌, ◌≡◌, Option, some, List, [], ◌∷◌, arith, min,
}
use ject6_4th_ai_analyzer.Core.RateLimiter.{Rate, Bucket, unit, refilled, token_bucket}
use ject6_4th_ai_analyzer.Core.RateLimiter.Wait.{allowed_iff}
use ject6_4th_ai_analyzer.Core.RateLimiter.Bound.{Request, granted, taken, updated_at-token_bucket}

-- `n` times: a request of a host whose clock shows `t`, then one of a host that is `skew` ahead.
abbrev pub alternate : ℕ → ℕ → ℕ → ℕ → List Request
alternate zero t skew cost = []
alternate (suc n) t skew cost =
    record { now = t; cost = cost }
    ∷ record { now = t + skew; cost = cost }
    ∷ alternate n t skew cost

enough : (c u k t skew e : ℕ) → c ≤ u → c ≤ skew * k → c ≤ min u (e + (t + skew - t) * k)
enough c u k t skew e h g = let p : t + skew - t ≡ skew = omega arith in rw p (omega arith)

taken_after_skew :
    (r : Rate) (b : Bucket) (t skew cost : ℕ)
    → b.updated_at ≡ t
    → cost ≤ r.capacity
    → cost * unit r ≤ skew * r.refill_num
    → taken r (some b) (record { now = t + skew; cost = cost }) ≡ cost
unfolding taken
taken_after_skew r b t skew cost at_t fits refills =
    let room : cost * unit r ≤ r.capacity * unit r = mul-le-mul_right (unit r) fits in
    rw (
      (allowed_iff r (some b) (t + skew) cost).1
        (unfold refilled in rw at_t (enough _ _ r.refill_num t skew b.tokens room refills)))

-- Where the clocks of two hosts differ by a time that refills `cost`, and requests for `cost` come
-- from them in turn, at least every second request passes, however many there are, while no clock
-- moves: the bound of the rate does not hold between hosts.
pub granted_under_skew :
    (r : Rate) (stored : Option Bucket) (n t skew cost : ℕ)
    → cost ≤ r.capacity
    → cost * unit r ≤ skew * r.refill_num
    → n * cost ≤ granted r stored (alternate n t skew cost)
unfolding granted
granted_under_skew r stored zero t skew cost fits refills = omega arith
granted_under_skew r stored (suc n) t skew cost fits refills =
    let o = token_bucket r stored t cost in
    let o' = token_bucket r (some o.bucket) (t + skew) cost in
    omega (
      arith,
      taken_after_skew r o.bucket t skew cost (updated_at-token_bucket r stored t cost) fits
          refills,
      granted_under_skew r (some o'.bucket) n t skew cost fits refills,
    )
