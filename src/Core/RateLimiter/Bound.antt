-- ===== src/Core/RateLimiter/Bound.antt =====
-- What a run of requests may take from a bucket.
use ject6_4th_ai_analyzer.Base.{
  ℕ, ◌+◌, ◌-◌, ◌*◌, ◌≤◌, ◌≡◌, ap, Option, none, some, List, [], ◌∷◌, arith, leb, leb→le, Bool-cases,
  inl, inr, if◌then◌else◌,
}
use ject6_4th_ai_analyzer.Core.RateLimiter.{Rate, Bucket, unit, refilled, token_bucket}

-- A request: its time, and what it asks for.
pub record Request : Type 0 where
  pub now : ℕ
  pub cost : ℕ

unfoldable pub taken : Rate → Option Bucket → Request → ℕ
taken r stored q = if (token_bucket r stored q.now q.cost).result.allowed then q.cost else 0

-- What the requests that pass take, one after the other.
unfoldable pub granted : Rate → Option Bucket → List Request → ℕ
granted r stored [] = 0
granted r stored (q ∷ qs) =
    taken r stored q + granted r (some (token_bucket r stored q.now q.cost).bucket) qs

-- The times do not fall, from `t` on; and the last of them.
abbrev pub InOrder : ℕ → List Request → Type 0
InOrder t [] = Unit
InOrder t (q ∷ qs) = (t ≤ q.now) × InOrder q.now qs

abbrev pub last_time : ℕ → List Request → ℕ
last_time t [] = t
last_time t (q ∷ qs) = last_time q.now qs

last_time-ge : (t : ℕ) (qs : List Request) → InOrder t qs → t ≤ last_time t qs
last_time-ge t [] h = omega arith
last_time-ge t (q ∷ qs) h = omega (arith, last_time-ge q.now qs h.1)

taken-balance :
    (r : Rate) (stored : Option Bucket) (q : Request)
    → taken r stored q * unit r + (token_bucket r stored q.now q.cost).bucket.tokens
      ≡ refilled r stored q.now
unfolding taken token_bucket
taken-balance r stored q = elim (Bool-cases (leb (q.cost * unit r) (refilled r stored q.now))) [
  | inl pass ↦ rw pass (omega (arith, leb→le _ _ pass))
  | inr denied ↦ rw denied (omega arith)
]

refilled-le :
    (r : Rate) (b : Bucket) (now : ℕ)
    → refilled r (some b) now ≤ b.tokens + (now - b.updated_at) * r.refill_num
unfolding refilled
refilled-le r b now = omega arith

refilled_fresh : (r : Rate) (now : ℕ) → refilled r none now ≤ r.capacity * unit r
unfolding refilled
refilled_fresh r now = omega arith

spans_add : (t n l k : ℕ) → t ≤ n → n ≤ l → (n - t) * k + (l - n) * k ≡ (l - t) * k
spans_add t n l k h j =
    let e : (n - t) + (l - n) ≡ l - t = omega arith in omega (arith, ap (λ x. x * k) e)

pub updated_at-token_bucket :
    (r : Rate) (stored : Option Bucket) (now cost : ℕ)
    → (token_bucket r stored now cost).bucket.updated_at ≡ now
unfolding token_bucket
updated_at-token_bucket r stored now cost = ground arith

granted-le :
    (r : Rate) (b : Bucket) (qs : List Request)
    → InOrder b.updated_at qs
    → granted r (some b) qs * unit r
      ≤ b.tokens + (last_time b.updated_at qs - b.updated_at) * r.refill_num
unfolding granted
granted-le r b [] h = omega arith
granted-le r b (q ∷ qs) h =
    let b' : Bucket = (token_bucket r (some b) q.now q.cost).bucket in
    let at_now : b'.updated_at ≡ q.now = updated_at-token_bucket r (some b) q.now q.cost in
    let rest = granted-le r b' qs (rw at_now h.1) in
    omega (
      arith,
      rw at_now at rest,
      taken-balance r (some b) q,
      refilled-le r b q.now,
      spans_add b.updated_at q.now (last_time q.now qs) r.refill_num h.0
          (last_time-ge q.now qs h.1),
    )

-- Requests to a fresh bucket, in the order of their times, are never granted more than the capacity
-- and what the rate refills between the first and the last of them.
pub granted_bound :
    (r : Rate) (q : Request) (qs : List Request)
    → InOrder q.now qs
    → granted r none (q ∷ qs) * unit r
      ≤ r.capacity * unit r + (last_time q.now qs - q.now) * r.refill_num
unfolding granted
granted_bound r q qs h =
    let b' : Bucket = (token_bucket r none q.now q.cost).bucket in
    let at_now : b'.updated_at ≡ q.now = updated_at-token_bucket r none q.now q.cost in
    let rest = granted-le r b' qs (rw at_now h) in
    omega (arith, rw at_now at rest, taken-balance r none q, refilled_fresh r q.now)
