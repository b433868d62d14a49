-- ===== src/Core/RateLimiter.antt =====
-- app/core/rate_limiter.py: the token bucket, a Lua script that Redis runs as one step.
-- Lua's numbers are floats. Here the refill rate is a fraction, and an amount of tokens is counted
-- in units of 1 / (1000 * denominator) of a token: every value of the script but the waits is then a
-- whole number, and nothing is rounded. The rounding of Lua's doubles is left out: a wait of the script may
-- differ from the one here by a millisecond.
pub mod Bound
pub mod Wait
pub mod Skew
use ject6_4th_ai_analyzer.Base.{
  ℕ, ◌+◌, ◌-◌, ◌*◌, ◌/◌, ◌<◌, ◌≤◌, min, Bool, true, false, Option, none, some, leb, if◌then◌else◌,
}

-- `capacity`, and `refill_per_sec` = `refill_num / refill_den`
pub record Rate : Type 0 where
  pub capacity : ℕ
  pub refill_num : ℕ
  pub refill_den : ℕ

pub record IsRate (r : Rate) : Type 0 where
  pub num_pos : 0 < r.refill_num
  pub den_pos : 0 < r.refill_den

-- A token in units; the refill of a millisecond is `refill_num` units.
abbrev pub unit : Rate → ℕ
unit r = 1000 * r.refill_den

-- The hash at the bucket's key; a key that is missing or has expired is `none`.
pub record Bucket : Type 0 where
  pub tokens : ℕ
  pub updated_at : ℕ

-- `math.ceil(a / b)`
abbrev pub ceil_div : ℕ → ℕ → ℕ
ceil_div a b = (a + b - 1) / b

-- `if tokens == nil then tokens = capacity; updated_at = now end`
abbrev pub stored_or_full : Rate → Option Bucket → ℕ → Bucket
stored_or_full r none now = record { tokens = r.capacity * unit r; updated_at = now }
stored_or_full r (some b) now = b

-- The amount in the bucket at `now`. On ℕ the difference stops at 0, as `math.max` makes it.
unfoldable pub refilled : Rate → Option Bucket → ℕ → ℕ
refilled r stored now =
    let b = stored_or_full r stored now in
    let elapsed_ms = now - b.updated_at in
    min (r.capacity * unit r) (b.tokens + elapsed_ms * r.refill_num)

-- The reply of the script. Redis cuts the tokens of a reply down to a whole number.
pub record RateLimitResult : Type 0 where
  pub allowed : Bool
  pub remaining : ℕ
  pub retry_after_ms : ℕ

-- The reply, the hash that is written, and the time to live that it gets.
pub record Outcome : Type 0 where
  pub result : RateLimitResult
  pub bucket : Bucket
  pub ttl_ms : ℕ

unfoldable pub ttl : Rate → ℕ
ttl r = ceil_div (r.capacity * unit r) r.refill_num + 60000

unfoldable pub token_bucket : Rate → Option Bucket → ℕ → ℕ → Outcome
token_bucket r stored now requested =
    let tokens = refilled r stored now in
    let cost = requested * unit r in
    if leb cost tokens
    then record {
      result = record { allowed = true; remaining = (tokens - cost) / unit r; retry_after_ms = 0 };
      bucket = record { tokens = tokens - cost; updated_at = now };
      ttl_ms = ttl r;
    }
    else record {
      result = record {
        allowed = false;
        remaining = tokens / unit r;
        retry_after_ms = ceil_div (cost - tokens) r.refill_num;
      };
      bucket = record { tokens = tokens; updated_at = now };
      ttl_ms = ttl r;
    }
