-- ===== src/Core/RateLimiter/Wait.antt =====
-- When a request passes, and the time to live of the key.
use ject6_4th_ai_analyzer.Base.{
  ℕ, ◌+◌, ◌-◌, ◌*◌, ◌/◌, ◌≤◌, ◌<◌, ◌≡◌, refl, true, inl, inr, ◌↔◌, Option, none, some, arith, leb,
  leb→le, leb_false→lt, Bool-cases,
}
use ject6_4th_ai_analyzer.Core.RateLimiter.{
  Rate, IsRate, Bucket, unit, ceil_div, ttl, refilled, token_bucket,
}
use native.Mathlib.Nat.{div-lt_iff_lt-mul}

-- `ceil_div a b` is the least number whose multiple reaches `a`.
ceil_div_least : (a b n : ℕ) → 0 < b → (ceil_div a b ≤ n) ↔ (a ≤ n * b)
ceil_div_least a b n h =
    let i = div-lt_iff_lt-mul {k = b} {x = a + b - 1} {y = n + 1} h in
    (
      (λ p. let q : (a + b - 1) / b < n + 1 = omega (arith, p) in omega (arith, i.0 q)),
      (λ p. let q : a + b - 1 < (n + 1) * b = omega (arith, p) in omega (arith, i.1 q)),
    )

refilled_full :
    (r : Rate)
    → IsRate r
    → (b : Bucket) (now : ℕ) → b.updated_at + ttl r ≤ now
    → refilled r (some b) now ≡ refilled r none now
unfolding refilled ttl
refilled_full r ok b now late =
    let reaches =
      (ceil_div_least (r.capacity * unit r) r.refill_num (now - b.updated_at) ok.num_pos).0
        (omega (arith, late)) in
    omega (arith, reaches)

-- A request passes exactly if the bucket, once it is refilled, holds what the request asks for.
pub allowed_iff :
    (r : Rate) (stored : Option Bucket) (now cost : ℕ)
    → ((token_bucket r stored now cost).result.allowed ≡ true)
      ↔ (cost * unit r ≤ refilled r stored now)
unfolding token_bucket
allowed_iff r stored now cost = elim (Bool-cases (leb (cost * unit r) (refilled r stored now))) [
  | inl pass ↦ rw pass (λ _. leb→le _ _ pass, λ _. refl)
  | inr short ↦ rw short (λ h. cc, λ h. absurd (omega (arith, h, leb_false→lt _ _ short)))
]

-- Once the time to live has passed, a bucket acts just as one that is missing: that Redis drops the
-- key then is not seen by any request.
pub expiry_unseen :
    (r : Rate)
    → IsRate r
    → (b : Bucket) (now cost : ℕ) → b.updated_at + ttl r ≤ now
    → token_bucket r (some b) now cost ≡ token_bucket r none now cost
unfolding token_bucket
expiry_unseen r ok b now cost late = rw (refilled_full r ok b now late)
