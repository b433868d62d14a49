-- ===== src/Worker/BatchProgress/Complete.antt =====
-- app/worker/ingest_worker.py: what a worker that counts the last post of a batch finds in the set.
use ject6_4th_ai_analyzer.Base.{
  ℕ, ◌+◌, ◌≤◌, ◌≡◌, refl, sym, ap, ◌∙◌, subst, inl, inr, true, List, [], ◌∷◌, ◌++◌, map, length,
  length-map, All, All-append, All-of_append, Bool-cases, arith, leb→le, ◌==◌,
}
use ject6_4th_ai_analyzer.Base.Int.{ℤ, int_eq, eqb_ℤ_iff}
use ject6_4th_ai_analyzer.Base.Sorting.{Some, All-mono, Some-All, Some-elim}
use ject6_4th_ai_analyzer.Worker.BatchProgress.{
  Progress, waiting, added, counted, Batch, is_member, add_id, reaches, BatchStep, add, count,
  BatchReach, start, then_next, fresh_batch,
}

abbrev pub HasId : List ℤ → ℤ → Type 0
HasId ids d = Some (λ i. i ≡ d) ids

abbrev one : Progress → ℕ
one (counted n) = 1
one _ = 0

abbrev seen : Progress → ℕ
seen (counted n) = n
seen _ = 0

abbrev IsStored : Progress → Type 0
IsStored waiting = ⊥
IsStored _ = Unit

abbrev tally : List (ℤ × Progress) → ℕ
tally [] = 0
tally (p ∷ ps) = one p.1 + tally ps

record Counted (docs : List ℤ) (b : Batch) : Type 0 where
  pub at_docs : map (λ p. p.0) b.posts ≡ docs
  pub at_count : tally b.posts ≡ b.completed
  pub at_ids : All (λ p. IsStored p.1 → HasId b.doc_ids p.0) b.posts
  pub at_seen : All (λ p. seen p.1 ≤ b.completed) b.posts

-- Only one of the posts changes.
All-changed :
    (P Q : ℤ × Progress → Type 0) (xs ys : List (ℤ × Progress)) (p q : ℤ × Progress)
    → ((r : ℤ × Progress) → P r → Q r)
    → Q q
    → All P (xs ++ p ∷ ys)
    → All Q (xs ++ q ∷ ys)
All-changed P Q xs ys p q f k h =
    let (l, r) = All-of_append P xs (p ∷ ys) h in
    All-append Q xs (q ∷ ys) (All-mono P Q xs f l) (k, All-mono P Q ys f r.1)

docs-changed :
    (xs ys : List (ℤ × Progress)) (d : ℤ) (p q : Progress)
    → map (λ r. r.0) (xs ++ (d, q) ∷ ys) ≡ map (λ r. r.0) (xs ++ (d, p) ∷ ys)
docs-changed [] ys d p q = refl
docs-changed (x ∷ xs) ys d p q = ap (λ t. x.0 ∷ t) (docs-changed xs ys d p q)

tally-changed :
    (xs ys : List (ℤ × Progress)) (d : ℤ) (p q : Progress)
    → tally (xs ++ (d, q) ∷ ys) + one p ≡ tally (xs ++ (d, p) ∷ ys) + one q
tally-changed [] ys d p q = omega arith
tally-changed (x ∷ xs) ys d p q = let i = tally-changed xs ys d p q in omega arith

HasId-of_member : (d : ℤ) (ids : List ℤ) → is_member d ids ≡ true → HasId ids d
HasId-of_member d [] h = cc
HasId-of_member d (i ∷ ids) h = elim (Bool-cases (i == d)) [
  | inl e ↦ inl ((eqb_ℤ_iff i d).0 e)
  | inr e ↦ inr (HasId-of_member d ids (rw e at h))
]

HasId-add_id : (d : ℤ) (ids : List ℤ) → HasId (add_id d ids) d
unfolding add_id
HasId-add_id d ids = elim (Bool-cases (is_member d ids)) [
  | inl e ↦ rw e (HasId-of_member d ids e)
  | inr e ↦ rw e (inl refl)
]

keeps_ids : (d : ℤ) (ids : List ℤ) (i : ℤ) → HasId ids i → HasId (add_id d ids) i
unfolding add_id
keeps_ids d ids i h = elim (Bool-cases (is_member d ids)) [ inl e ↦ rw e h | inr e ↦ rw e (inr h) ]

Counted-step : (docs : List ℤ) (b c : Batch) → Counted docs b → BatchStep b c → Counted docs c
Counted-step docs b c k (add xs ys d e) = record {
  at_docs = docs-changed xs ys d waiting added ∙ ap (map (λ r. r.0)) (sym e) ∙ k.at_docs;
  at_count =
      let t = tally-changed xs ys d waiting added in
      let s = ap tally (sym e) ∙ k.at_count in omega arith;
  at_ids =
      All-changed (λ p. IsStored p.1 → HasId b.doc_ids p.0) _ xs ys (d, waiting) (d, added)
        (λ r f s. keeps_ids d b.doc_ids r.0 (f s)) (λ _. HasId-add_id d b.doc_ids)
        (subst (All (λ p. IsStored p.1 → HasId b.doc_ids p.0)) e k.at_ids);
  at_seen =
      All-changed (λ p. seen p.1 ≤ b.completed) _ xs ys (d, waiting) (d, added) (λ r f. f)
        (omega arith) (subst (All (λ p. seen p.1 ≤ b.completed)) e k.at_seen);
}
Counted-step docs b c k (count xs ys d e) =
    let ids = subst (All (λ p. IsStored p.1 → HasId b.doc_ids p.0)) e k.at_ids in
    record {
      at_docs =
          docs-changed xs ys d added (counted (b.completed + 1))
          ∙ ap (map (λ r. r.0)) (sym e)
          ∙ k.at_docs;
      at_count =
          let t = tally-changed xs ys d added (counted (b.completed + 1)) in
          let s = ap tally (sym e) ∙ k.at_count in omega arith;
      at_ids =
          All-changed (λ p. IsStored p.1 → HasId b.doc_ids p.0) _ xs ys (d, added)
            (d, counted (b.completed + 1)) (λ r f. f)
            (λ _. (All-of_append _ xs ((d, added) ∷ ys) ids).1.0 tt) ids;
      at_seen =
          All-changed (λ p. seen p.1 ≤ b.completed) _ xs ys (d, added)
            (d, counted (b.completed + 1)) (λ r f. omega arith) (omega arith)
            (subst (All (λ p. seen p.1 ≤ b.completed)) e k.at_seen);
    }

Counted-fresh : (docs : List ℤ) → Counted docs (fresh_batch docs)
unfolding fresh_batch
Counted-fresh [] = record { at_docs = refl; at_count = refl; at_ids = tt; at_seen = tt }
Counted-fresh (d ∷ docs) =
    let k = Counted-fresh docs in
    record {
      at_docs = ap (λ t. d ∷ t) k.at_docs;
      at_count = let t = k.at_count in omega arith;
      at_ids = (λ s. elim s [ ], k.at_ids);
      at_seen = (omega arith, k.at_seen);
    }

Counted-reach : (docs : List ℤ) (b : Batch) → BatchReach (fresh_batch docs) b → Counted docs b
Counted-reach docs b start = Counted-fresh docs
Counted-reach docs b (then_next {c} r s) = Counted-step docs c b (Counted-reach docs c r) s

tally-le : (ps : List (ℤ × Progress)) → tally ps ≤ length ps
tally-le [] = omega arith
tally-le ((d, waiting) ∷ ps) = let i = tally-le ps in omega arith
tally-le ((d, added) ∷ ps) = let i = tally-le ps in omega arith
tally-le ((d, counted n) ∷ ps) = let i = tally-le ps in omega arith

All-stored :
    (ps : List (ℤ × Progress)) (ids : List ℤ)
    → length ps ≤ tally ps
    → All (λ p. IsStored p.1 → HasId ids p.0) ps
    → All (HasId ids) (map (λ p. p.0) ps)
All-stored [] ids h k = tt
All-stored ((d, waiting) ∷ ps) ids h k = let i = tally-le ps in absurd (omega arith)
All-stored ((d, added) ∷ ps) ids h k = let i = tally-le ps in absurd (omega arith)
All-stored ((d, counted n) ∷ ps) ids h k = (k.0 tt, All-stored ps ids (omega arith) k.1)

seen_of_reaches :
    (expected_count : ℕ) (p : Progress) → reaches expected_count p ≡ true → expected_count ≤ seen p
unfolding reaches
seen_of_reaches n waiting h = cc
seen_of_reaches n added h = cc
seen_of_reaches n (counted m) h = leb→le n m h

-- In whatever order the workers add and count the posts of a batch, once one of them has counted up to
-- the expected count the set holds the id of every post, where the expected count is at least the
-- number of deliveries of posts that are handled. Each is handled once: a delivery that is handled again
-- is one more.
pub complete_batch :
    (docs : List ℤ) (b : Batch) (expected_count : ℕ) (p : ℤ × Progress)
    → BatchReach (fresh_batch docs) b
    → length docs ≤ expected_count
    → Some (λ q. q ≡ p) b.posts
    → reaches expected_count p.1 ≡ true
    → All (HasId b.doc_ids) docs
complete_batch docs b n p r enough among h =
    let k = Counted-reach docs b r in
    let last : seen p.1 ≤ b.completed =
      Some-elim _ _ b.posts (λ q s. subst (λ x. seen x.1 ≤ b.completed) s.1 s.0)
        (Some-All _ _ b.posts k.at_seen among) in
    let counts = seen_of_reaches n p.1 h in
    let sizes = length-map b.posts (λ q. q.0) in
    let same = ap length k.at_docs in
    let every = k.at_count in
    subst (All (HasId b.doc_ids)) k.at_docs (All-stored b.posts b.doc_ids (omega arith) k.at_ids)
