-- ===== src/Tests/Batches.antt =====
-- A batch of two posts, whose workers take turns.
use ject6_4th_ai_analyzer.Base.{
  zero, suc, ◌++◌, subst, ℕ, ◌+◌, ◌≡◌, false, refl, ap, sym, none, inl, inr, List, [], ◌∷◌, All,
  arith, codes, ◌⊎◌,
}
use ject6_4th_ai_analyzer.Base.Int.{ℤ, pos, int_eq, leb_ℤ}
use ject6_4th_ai_analyzer.Base.Sorting.{Some}
use ject6_4th_ai_analyzer.Core.Effects.{Env, Log, Command, Reply, Result, ok, incr, sadd}
use ject6_4th_ai_analyzer.Worker.FullBlogBatch.{count_post}
use ject6_4th_ai_analyzer.Worker.BatchProgress.{
  Progress, waiting, added, counted, Batch, add_id, add, count, start, then_next, fresh_batch,
}
use ject6_4th_ai_analyzer.Worker.BatchProgress.Complete.{HasId}
use ject6_4th_ai_analyzer.Worker.BatchProgress.Counts.{
  IsAt, IsAt-Some, SharedBatch, count_post_complete, Others, after_add, after_count, add_command,
  count_command,
}
use ject6_4th_ai_analyzer.Tests.World.{world, answers}

abbrev both : List ℤ
both = pos 7 ∷ pos 8 ∷ []

-- The other worker adds and counts its post between the first two commands of this one.
abbrev other_counted : Batch
other_counted = record {
  doc_ids = pos 8 ∷ pos 7 ∷ [];
  completed = 1;
  posts = (pos 7, added) ∷ (pos 8, counted 1) ∷ [];
}

abbrev both_counted : Batch
both_counted = record {
  doc_ids = pos 8 ∷ pos 7 ∷ [];
  completed = 2;
  posts = (pos 7, counted 2) ∷ (pos 8, counted 1) ∷ [];
}

abbrev batch_at : ℕ → Batch
batch_at zero = fresh_batch both
batch_at (suc zero) = other_counted
batch_at (suc (suc _)) = both_counted

-- This worker's SADD and INCR take it on.
abbrev stage_after : Command → ℕ → ℕ
stage_after (sadd _ _) zero = 1
stage_after (sadd _ _) (suc n) = suc n
stage_after (incr _) zero = 0
stage_after (incr _) (suc n) = 2
stage_after _ n = n

abbrev stage : Log → ℕ
stage [] = 0
stage (e ∷ h) = stage_after e.command (stage h)

abbrev batches : Log → Batch
batches h = batch_at (stage h)

abbrev counting : Log → (c : Command) → Result (Reply c)
counting h (incr _) = ok (pos ((batches h).completed + 1))
counting h c = answers none h c

abbrev counting_world : Env
counting_world = record world { answer = counting }

-- The post is at one place in each batch.
only_place :
    (p q : Progress) (d : ℤ) (t : Progress) (b : Batch)
    → b.posts ≡ (pos 7, q) ∷ (d, t) ∷ []
    → (pos 7 ≡ d → ⊥)
    → IsAt (pos 7) p b
    → q ≡ p
only_place p q d t b e ne at =
    elim (subst (Some (λ x. x ≡ (pos 7, p))) e (IsAt-Some (pos 7) p b at)) [
      | inl same ↦ ap (λ x. x.1) same
      | inr (inl other) ↦ absurd (ne (ap (λ x. x.0) (sym other)))
      | inr (inr x) ↦ elim x [ ]
    ]

apart : pos 7 ≡ pos 8 → ⊥
apart e = ground arith

adds :
    (n : ℕ)
    → IsAt (pos 7) waiting (batch_at n)
    → (xs : List (ℤ × Progress)) × (ys : List (ℤ × Progress)) × ((batch_at n).posts
        ≡ xs ++ (pos 7, waiting) ∷ ys)
      × Others
          (pos 7)
          added
          (after_add (pos 7) xs ys (batch_at n))
          (batch_at (stage_after (add_command (codes "b") (pos 7)) n))
unfolding fresh_batch add_id
adds zero at = (
  [],
  (pos 8, waiting) ∷ [],
  refl,
  (
    then_next (then_next start (add ((pos 7, added) ∷ []) [] (pos 8) refl))
        (count ((pos 7, added) ∷ []) [] (pos 8) refl),
    ([], (pos 8, counted 1) ∷ [], refl),
  ),
)
adds (suc zero) at = cc (only_place waiting added (pos 8) (counted 1) other_counted refl apart at)
adds (suc (suc n)) at =
    cc (only_place waiting (counted 2) (pos 8) (counted 1) both_counted refl apart at)

keeps_on :
    (n : ℕ) → IsAt (pos 7) added (batch_at n) → Others (pos 7) added (batch_at n) (batch_at n)
keeps_on n at = (start, at)

counts :
    (n : ℕ)
    → IsAt (pos 7) added (batch_at n)
    → (xs : List (ℤ × Progress)) × (ys : List (ℤ × Progress)) × ((batch_at n).posts
        ≡ xs ++ (pos 7, added) ∷ ys)
      × Others
          (pos 7)
          (counted ((batch_at n).completed + 1))
          (after_count (pos 7) xs ys (batch_at n))
          (batch_at (stage_after (count_command (codes "b")) n))
unfolding fresh_batch
counts zero at = cc (only_place added waiting (pos 8) waiting (fresh_batch both) refl apart at)
counts (suc zero) at =
    ([], (pos 8, counted 1) ∷ [], refl, (start, ([], (pos 8, counted 1) ∷ [], refl)))
counts (suc (suc n)) at =
    cc (only_place added (counted 2) (pos 8) (counted 1) both_counted refl apart at)

shared : SharedBatch counting_world (codes "b") (pos 7) batches
shared = record {
  at_add = λ h. refl;
  at_keep = λ h. refl;
  at_count = λ h. refl;
  add_moves = λ h. adds (stage h);
  keep_moves = λ h. keeps_on (stage h);
  count_moves = λ h. counts (stage h);
}

count_post_complete_example :
    (n : ℕ) × ((count_post counting_world (codes "b") (pos 7) []).0 ≡ ok (pos n))
    × ((leb_ℤ (pos 2) (pos n) ≡ false)
        ⊎ All (HasId (batches (count_post counting_world (codes "b") (pos 7) []).1).doc_ids) both)
unfolding fresh_batch
count_post_complete_example =
    count_post_complete counting_world (codes "b") (pos 7) batches both 2 [] shared start
      ([], (pos 8, waiting) ∷ [], refl) (omega arith)
