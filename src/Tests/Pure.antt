-- ===== src/Tests/Pure.antt =====
-- The rate limiter, the chunker, the exceptions and the enums.
use ject6_4th_ai_analyzer.Base.{
  ℕ, ◌+◌, ◌-◌, ◌*◌, ◌≤◌, ◌≡◌, none, some, List, [], ◌∷◌, map, All, codes, arith,
}
use ject6_4th_ai_analyzer.Core.Exceptions.{Exception, rate_limit_exceeded}
use ject6_4th_ai_analyzer.Core.RateLimiter.{Rate, IsRate, Bucket, unit, ttl, token_bucket}
use ject6_4th_ai_analyzer.Core.RateLimiter.Bound.{Request, granted, granted_bound}
use ject6_4th_ai_analyzer.Core.RateLimiter.Wait.{expiry_unseen}
use ject6_4th_ai_analyzer.Core.RateLimiter.Skew.{alternate, granted_under_skew}
use ject6_4th_ai_analyzer.Service.Chunker.{TextChunker, slice_long_text, packed_chunks}
use ject6_4th_ai_analyzer.Service.Chunker.Windows.{stitch, IsWindow, slice_long_text_covers}
use ject6_4th_ai_analyzer.Service.Chunker.Groups.{
  Group, render, members, Fits, packed_chunks_groups,
}
use ject6_4th_ai_analyzer.Tests.World.{code_points}

-- Two tokens, and one more each second.
abbrev two_a_second : Rate
two_a_second = record { capacity = 2; refill_num = 1; refill_den = 1 }

two_a_second-IsRate : IsRate two_a_second
two_a_second-IsRate = record { num_pos = omega arith; den_pos = omega arith }

abbrev empty_bucket : Bucket
empty_bucket = record { tokens = 0; updated_at = 1000 }

abbrev burst : List Request
burst =
    record { now = 1000; cost = 1 }
    ∷ record { now = 1500; cost = 1 }
    ∷ record { now = 2500; cost = 1 }
    ∷ []

granted_bound_example :
    granted two_a_second none (record { now = 1000; cost = 2 } ∷ burst) * unit two_a_second
    ≤ 2 * unit two_a_second + (2500 - 1000) * 1
granted_bound_example =
    granted_bound two_a_second (record { now = 1000; cost = 2 }) burst
      (omega arith, (omega arith, (omega arith, tt)))

expired : 1000 + ttl two_a_second ≤ 70000
unfolding ttl
expired = omega arith

expiry_unseen_example :
    token_bucket two_a_second (some empty_bucket) 70000 1 ≡ token_bucket two_a_second none 70000 1
expiry_unseen_example = expiry_unseen two_a_second two_a_second-IsRate empty_bucket 70000 1 expired

granted_under_skew_example :
    5 * 2 ≤ granted two_a_second (some empty_bucket) (alternate 5 1000 2000 2)
granted_under_skew_example =
    granted_under_skew two_a_second (some empty_bucket) 5 1000 2000 2 (omega arith) (omega arith)

-- Four tokens to a chunk, of which one is repeated.
abbrev small_chunker : TextChunker
small_chunker = record { chunk_size = 4; overlap = 1; encoder = code_points }

slice_long_text_covers_example :
    (ws : List (List ℕ)) × (slice_long_text small_chunker (codes "abcdefghij") ≡ map (λ ts. ts) ws)
    × (stitch 1 ws ≡ codes "abcdefghij")
    × All (IsWindow small_chunker) ws
slice_long_text_covers_example =
    slice_long_text_covers small_chunker (omega arith) (codes "abcdefghij")

packed_chunks_groups_example :
    (gs : List Group) × (packed_chunks small_chunker (codes "ab" ∷ codes "cd" ∷ codes "efghij" ∷ [])
      ≡ render small_chunker gs)
    × (members gs ≡ codes "ab" ∷ codes "cd" ∷ codes "efghij" ∷ [])
    × All (Fits small_chunker) gs
packed_chunks_groups_example =
    packed_chunks_groups small_chunker (codes "ab" ∷ codes "cd" ∷ codes "efghij" ∷ [])

abbrev limited : Exception
limited = rate_limit_exceeded (codes "chat rate limit exceeded") 1500
