-- ===== src/Repository/ContextRetrieval/TopK.antt =====
-- app/repository/context_retrieval_repository.py: what the outer query returns.
use ject6_4th_ai_analyzer.Base.{
  ℕ, ◌≤◌, ◌≡◌, sym, ◌∙◌, ◌⊎◌, inl, inr, List, [], ◌∷◌, All, length, take, length-take, arith,
  leb→le, leb_false→lt,
}
use ject6_4th_ai_analyzer.Base.Sorting.{
  Some, Pairwise, sort_by, All-mono, All-map2, All-swap, All-self, All-sort_by, All-take, Some-elim,
  Some-mono, Some-All, Some-sort_by, Pairwise-sort_by, Pairwise-take, sort_by-IsSorted, in_or_after,
}
use ject6_4th_ai_analyzer.Repository.ContextRetrieval.{
  Pgvector, Row, scores_higher, best_chunk_per_doc, top_rows,
}
use ject6_4th_ai_analyzer.Repository.ContextRetrieval.Best.{
  Covers, OtherDocument, All-best_chunk_per_doc, best_chunk_per_doc-Distinct,
  best_chunk_per_doc-Covers,
}

-- `1 - x` turns the order of the distances at hand round: true of floats that are numbers.
abbrev pub NearerScoresHigher : Pgvector → List Row → Type 0
NearerScoresHigher pg rows =
    All
      (λ c.
        All (λ r. pg.rank r.distance ≤ pg.rank c.distance → pg.rank c.score ≤ pg.rank r.score) rows)
      rows

module _ (pg : Pgvector) where
  abbrev pub ScoresAtLeast : Row → Row → Type 0
  ScoresAtLeast a b = pg.rank b.score ≤ pg.rank a.score

  abbrev pub NearestOf : List Row → Row → Type 0
  NearestOf rows r =
      All (λ c. c.document_id ≡ r.document_id → pg.rank r.distance ≤ pg.rank c.distance) rows

  -- The row of a document is the one that covers the others.
  nearest_of_covering :
      (c : Row) (xs : List Row)
      → Pairwise (OtherDocument pg) xs
      → Some (Covers pg c) xs
      → All (λ r. c.document_id ≡ r.document_id → pg.rank r.distance ≤ pg.rank c.distance) xs
  nearest_of_covering c [] p s = tt
  nearest_of_covering c (x ∷ xs) p (inl k) =
      (λ _. k.1, All-mono _ _ xs (λ r o e. absurd (o (k.0 ∙ e))) p.0)
  nearest_of_covering c (x ∷ xs) p (inr s) = (
    λ e. absurd (Some-elim _ ⊥ xs (λ r k. k.0 (sym e ∙ sym (k.1.0))) (Some-All _ _ xs p.0 s)),
    nearest_of_covering c xs p.1 s,
  )

  best_chunk_per_doc-Nearest : (rows : List Row) → All (NearestOf rows) (best_chunk_per_doc pg rows)
  best_chunk_per_doc-Nearest rows = All-swap _ rows (best_chunk_per_doc pg rows) (
      All-mono _ _ rows
        (λ c.
          nearest_of_covering c (best_chunk_per_doc pg rows) (best_chunk_per_doc-Distinct pg rows))
        (best_chunk_per_doc-Covers pg rows))

  pub All-top_rows :
      (P : Row → Type 0) (k : ℕ) (rows : List Row)
      → All P (best_chunk_per_doc pg rows)
      → All P (top_rows pg k rows)
  unfolding top_rows
  All-top_rows P k rows h = All-take P k _ (All-sort_by P (scores_higher pg) _ h)

  by_score :
      (rows : List Row)
      → Pairwise ScoresAtLeast (sort_by (scores_higher pg) (best_chunk_per_doc pg rows))
  by_score rows =
      sort_by-IsSorted ScoresAtLeast (scores_higher pg) (λ a b e. leb→le _ _ e)
        (λ a b e. let k = leb_false→lt (pg.rank b.score) (pg.rank a.score) e in omega arith)
        (λ a b c p q. omega arith) (best_chunk_per_doc pg rows)

  -- The query returns at most `top_k` rows, from the best score to the worst. Each is a row of the
  -- join, of all those of its document one at the least distance, and no two are of one document.
  pub top_rows_of_best :
      (k : ℕ) (rows : List Row)
      → (length (top_rows pg k rows) ≤ k)
        × Pairwise ScoresAtLeast (top_rows pg k rows)
        × Pairwise (OtherDocument pg) (top_rows pg k rows)
        × All (λ r. Some (λ c. c ≡ r) rows × NearestOf rows r) (top_rows pg k rows)
  unfolding top_rows
  top_rows_of_best k rows = (
    let e = length-take k (sort_by (scores_higher pg) (best_chunk_per_doc pg rows)) in omega arith,
    Pairwise-take ScoresAtLeast k _ (by_score rows),
    Pairwise-take _ k _ (
        Pairwise-sort_by (OtherDocument pg) (scores_higher pg) (λ a b o e. o (sym e)) _
          (best_chunk_per_doc-Distinct pg rows)),
    All-top_rows _ k rows (
        All-map2 _ _ _ (best_chunk_per_doc pg rows) (λ r p q. (p, q))
          (All-best_chunk_per_doc pg _ rows (All-self rows)) (best_chunk_per_doc-Nearest rows)),
  )

  cut_off :
      (k : ℕ) (rows xs : List Row) (c : Row)
      → All (λ r. pg.rank r.distance ≤ pg.rank c.distance → pg.rank c.score ≤ pg.rank r.score) xs
      → All
          (λ r.
            Some (λ s. s ≡ r) (take k xs)
            ⊎ ((length (take k xs) ≡ k) × All (λ s. ScoresAtLeast s r) (take k xs)))
          xs
      → Some (Covers pg c) xs
      → Some (Covers pg c) (take k xs)
        ⊎ ((length (take k xs) ≡ k) × All (λ s. ScoresAtLeast s c) (take k xs))
  cut_off k rows xs c higher split s =
      Some-elim _ _ xs
        (λ r p. elim (p.1.0) [
          | inl q ↦ inl (Some-mono _ _ (take k xs) (λ s e. rw e (p.1.1)) q)
          | inr f ↦
              inr (f.0, All-mono _ _ (take k xs) (λ s g. let t = p.0 (p.1.1.1) in omega arith) f.1)
        ])
        (Some-All _ _ xs higher (Some-All _ _ xs split s))

  -- Where `1 - x` turns the order of the distances of the join round: each row of the join has one of
  -- its document, at least as near, among those returned, or `top_k` rows are returned that all score
  -- at least as high as it, whatever the order in which the rows come.
  pub top_rows_complete :
      (k : ℕ) (rows : List Row)
      → NearerScoresHigher pg rows
      → All
          (λ c.
            Some (Covers pg c) (top_rows pg k rows)
            ⊎ ((length (top_rows pg k rows) ≡ k)
                × All (λ r. ScoresAtLeast r c) (top_rows pg k rows)))
          rows
  unfolding top_rows
  top_rows_complete k rows h =
      let sorted = sort_by (scores_higher pg) (best_chunk_per_doc pg rows) in
      All-map2 _ _ _ rows
        (λ c higher covers.
          cut_off k rows sorted c (All-sort_by _ _ _ (All-best_chunk_per_doc pg _ rows higher))
            (in_or_after ScoresAtLeast k sorted (by_score rows)) (Some-sort_by _ _ _ covers))
        h (best_chunk_per_doc-Covers pg rows)
