-- ===== src/Worker/BatchProgress.antt =====
-- app/worker/ingest_worker.py: the posts of a batch, as the workers that handle them add their ids to the
-- set and then count them. A step is one command to Redis, so that those of different workers may come
-- in any order.
pub mod Complete
pub mod Counts
use ject6_4th_ai_analyzer.Base.{
  ℕ, ◌+◌, ◌≡◌, Bool, false, ◌||◌, List, [], ◌∷◌, ◌++◌, map, leb, ◌==◌, if◌then◌else◌,
}
use ject6_4th_ai_analyzer.Base.Int.{ℤ, int_eq}

-- How far the handling of a post is: before SADD, between SADD and INCR, and after INCR with what it
-- answered.
pub data Progress : Type 0 where
  waiting added : Progress
  counted : ℕ → Progress

pub record Batch : Type 0 where
  pub doc_ids : List ℤ
  pub completed : ℕ
  pub posts : List (ℤ × Progress)

abbrev pub is_member : ℤ → List ℤ → Bool
is_member d [] = false
is_member d (i ∷ ids) = (i == d) || is_member d ids

-- `SADD`
unfoldable pub add_id : ℤ → List ℤ → List ℤ
add_id d ids = if is_member d ids then ids else d ∷ ids

-- `completed >= expected_count`
unfoldable pub reaches : ℕ → Progress → Bool
reaches expected_count (counted completed) = leb expected_count completed
reaches expected_count _ = false

-- The next command for one of the posts.
pub data BatchStep (b : Batch) : Batch → Type 0 where
  add :
      (xs ys : List (ℤ × Progress)) (d : ℤ)
      → b.posts ≡ xs ++ (d, waiting) ∷ ys
      → BatchStep b (record {
        doc_ids = add_id d b.doc_ids;
        completed = b.completed;
        posts = xs ++ (d, added) ∷ ys;
      })
  count :
      (xs ys : List (ℤ × Progress)) (d : ℤ)
      → b.posts ≡ xs ++ (d, added) ∷ ys
      → BatchStep b (record {
        doc_ids = b.doc_ids;
        completed = b.completed + 1;
        posts = xs ++ (d, counted (b.completed + 1)) ∷ ys;
      })

pub data BatchReach (b : Batch) : Batch → Type 0 where
  start : BatchReach b b
  then_next : {c d : Batch} → BatchReach b c → BatchStep c d → BatchReach b d

-- No post has come yet.
unfoldable pub fresh_batch : List ℤ → Batch
fresh_batch docs = record { doc_ids = []; completed = 0; posts = map (λ d. (d, waiting)) docs }
