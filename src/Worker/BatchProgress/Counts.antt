-- ===== src/Worker/BatchProgress/Counts.antt =====
-- `count_post` of one worker, while the others add and count the other posts of the batch.
use ject6_4th_ai_analyzer.Base.{
  ℕ, ◌+◌, ◌≤◌, ◌≡◌, refl, sym, ap, ◌⊎◌, inl, inr, true, false, subst, Bool-cases, List, [], ◌∷◌,
  ◌++◌, All, Text, codes, arith, length,
}
use ject6_4th_ai_analyzer.Base.Int.{ℤ, pos, leb_ℤ}
use ject6_4th_ai_analyzer.Base.Decimal.{show}
use ject6_4th_ai_analyzer.Base.Sorting.{Some}
use ject6_4th_ai_analyzer.Core.Effects.{Env, Log, Event, Command, ok, call, sadd, expire, incr}
use ject6_4th_ai_analyzer.Worker.FullBlogBatch.{batch_key, batch_ttl, count_post}
use ject6_4th_ai_analyzer.Worker.BatchProgress.{
  Progress, waiting, added, counted, Batch, add_id, reaches, add, count, BatchReach, start,
  then_next, fresh_batch,
}
use ject6_4th_ai_analyzer.Worker.BatchProgress.Complete.{HasId, complete_batch}

abbrev pub done : Command → Event
done c = record { command = c; succeeded = true }

abbrev pub add_command : Text → ℤ → Command
add_command batch_id d = sadd (batch_key batch_id (codes "doc_ids")) (show d)

abbrev pub keep_command : Text → Command
keep_command batch_id = expire (batch_key batch_id (codes "doc_ids")) batch_ttl

abbrev pub count_command : Text → Command
count_command batch_id = incr (batch_key batch_id (codes "completed"))

-- One of the posts is this far.
abbrev pub IsAt : ℤ → Progress → Batch → Type 0
IsAt d p b = (xs : List (ℤ × Progress)) × (ys : List (ℤ × Progress)) × (b.posts ≡ xs ++ (d, p) ∷ ys)

-- From one batch to the other by steps, which leave a post of the document where it is.
abbrev pub Others : ℤ → Progress → Batch → Batch → Type 0
Others d p b c = BatchReach b c × IsAt d p c

-- Where the worker's own commands take the batch.
abbrev pub after_add : ℤ → List (ℤ × Progress) → List (ℤ × Progress) → Batch → Batch
after_add d xs ys b = record {
  doc_ids = add_id d b.doc_ids;
  completed = b.completed;
  posts = xs ++ (d, added) ∷ ys;
}

abbrev pub after_count : ℤ → List (ℤ × Progress) → List (ℤ × Progress) → Batch → Batch
after_count d xs ys b = record {
  doc_ids = b.doc_ids;
  completed = b.completed + 1;
  posts = xs ++ (d, counted (b.completed + 1)) ∷ ys;
}

-- The world of one worker: Redis answers from the batch as it is at the call, and between two calls the
-- others make any steps.
pub record SharedBatch (env : Env) (batch_id : Text) (d : ℤ) (batch : Log → Batch) : Type 0 where
  pub at_add : (h : Log) → env.answer h (add_command batch_id d) ≡ ok tt
  pub at_keep : (h : Log) → env.answer h (keep_command batch_id) ≡ ok tt
  pub at_count :
      (h : Log) → env.answer h (count_command batch_id) ≡ ok (pos ((batch h).completed + 1))
  pub add_moves :
      (h : Log)
      → IsAt d waiting (batch h)
      → (xs : List (ℤ × Progress)) × (ys : List (ℤ × Progress)) × ((batch h).posts
          ≡ xs ++ (d, waiting) ∷ ys)
        × Others d added (after_add d xs ys (batch h)) (batch (done (add_command batch_id d) ∷ h))
  pub keep_moves :
      (h : Log)
      → IsAt d added (batch h)
      → Others d added (batch h) (batch (done (keep_command batch_id) ∷ h))
  pub count_moves :
      (h : Log)
      → IsAt d added (batch h)
      → (xs : List (ℤ × Progress)) × (ys : List (ℤ × Progress)) × ((batch h).posts
          ≡ xs ++ (d, added) ∷ ys)
        × Others d
            (counted ((batch h).completed + 1))
            (after_count d xs ys (batch h))
            (batch (done (count_command batch_id) ∷ h))

BatchReach-trans : {a b c : Batch} → BatchReach a b → BatchReach b c → BatchReach a c
BatchReach-trans p start = p
BatchReach-trans p (then_next q step) = then_next (BatchReach-trans p q) step

Some-middle : (xs ys : List (ℤ × Progress)) (p : ℤ × Progress) → Some (λ q. q ≡ p) (xs ++ p ∷ ys)
Some-middle [] ys p = inl refl
Some-middle (x ∷ xs) ys p = inr (Some-middle xs ys p)

module _ (env : Env) (batch_id : Text) (d : ℤ) (batch : Log → Batch)
    (x : SharedBatch env batch_id d batch) where
  abbrev after : Log → Log
  after h =
      done (count_command batch_id)
      ∷ done (keep_command batch_id)
      ∷ done (add_command batch_id d)
      ∷ h

  abbrev seen_at : Log → ℕ
  seen_at h =
      (batch (done (keep_command batch_id) ∷ done (add_command batch_id d) ∷ h)).completed + 1

  count_post-run : (h : Log) → count_post env batch_id d h ≡ (ok (pos (seen_at h)), after h)
  unfolding count_post call
  count_post-run h = rw (x.at_add, x.at_keep, x.at_count) refl

  -- The run is a path of the batch.
  count_post-reaches :
      (b : Batch) (h : Log)
      → BatchReach b (batch h)
      → IsAt d waiting (batch h)
      → Others d (counted (seen_at h)) b (batch (after h))
  count_post-reaches b h r there =
      let (xs, ys, at, (r1, there1)) = x.add_moves h there in
      let h1 : Log = done (add_command batch_id d) ∷ h in
      let (r2, there2) = x.keep_moves h1 there1 in
      let (xs', ys', at', (r3, counted_there)) =
        x.count_moves (done (keep_command batch_id) ∷ h1) there2 in
      (
        BatchReach-trans
            (then_next (BatchReach-trans (BatchReach-trans (then_next r (add xs ys d at)) r1) r2)
              (count xs' ys' d at'))
            r3,
        counted_there,
      )

pub IsAt-Some : (d : ℤ) (p : Progress) (b : Batch) → IsAt d p b → Some (λ q. q ≡ (d, p)) b.posts
IsAt-Some d p b (xs, ys, at) = subst (Some (λ q. q ≡ (d, p))) (sym at) (Some-middle xs ys (d, p))

reached : (e n : ℕ) → leb_ℤ (pos e) (pos n) ≡ true → reaches e (counted n) ≡ true
unfolding reaches
reached e n h = ground arith

-- A worker that handles the post of a batch adds its id and counts it, whatever the other workers do
-- between its commands. Where the number that it is given reaches the expected count, the set has by then
-- the id of every post, provided that the expected count is at least the number of deliveries that are
-- handled, where one that is handled again is one more. Redis answers from the batch, and no key
-- expires.
pub count_post_complete :
    (env : Env) (batch_id : Text) (d : ℤ) (batch : Log → Batch) (docs : List ℤ) (expected_count : ℕ)
    (h : Log)
    → SharedBatch env batch_id d batch
    → BatchReach (fresh_batch docs) (batch h)
    → IsAt d waiting (batch h)
    → length docs ≤ expected_count
    → (n : ℕ) × ((count_post env batch_id d h).0 ≡ ok (pos n))
      × ((leb_ℤ (pos expected_count) (pos n) ≡ false)
          ⊎ All (HasId (batch (count_post env batch_id d h).1).doc_ids) docs)
count_post_complete env batch_id d batch docs expected h x r at enough =
    let run = count_post-run env batch_id d batch x h in
    let n = seen_at env batch_id d batch x h in
    let (path, there) = count_post-reaches env batch_id d batch x (fresh_batch docs) h r at in
    (
      n,
      ap (λ o. o.0) run,
      elim (Bool-cases (leb_ℤ (pos expected) (pos n))) [
        | inl e ↦ inr (
            subst (λ l. All (HasId (batch l).doc_ids) docs) (sym (ap (λ o. o.1) run))
              (complete_batch docs (batch (after env batch_id d batch x h)) expected (d, counted n)
                path enough (IsAt-Some d (counted n) (batch (after env batch_id d batch x h)) there)
                (reached expected n e)))
        | inr f ↦ inl f
      ],
    )
