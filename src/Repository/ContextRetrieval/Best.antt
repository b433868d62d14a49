-- ===== src/Repository/ContextRetrieval/Best.antt =====
-- app/repository/context_retrieval_repository.py: what the inner query returns.
use ject6_4th_ai_analyzer.Base.{
  ◌+◌, ◌≤◌, ◌<◌, ◌≡◌, refl, sym, subst, ◌∙◌, ◌⊎◌, inl, inr, true, false, List, [], ◌∷◌, ◌==◌, All,
  Bool-cases, arith, leb→le, leb_false→lt,
}
use ject6_4th_ai_analyzer.Base.Int.{ℤ, pos, negsuc, pos_part, neg_part, int_eq, eqb_ℤ_iff, ltb_ℤ}
use ject6_4th_ai_analyzer.Base.Sorting.{
  Some, Pairwise, distinct_after, distinct_on, sort_by, All-mono, All-sort_by, All-of_sorted,
  sort_by-IsSorted,
}
use ject6_4th_ai_analyzer.Repository.ContextRetrieval.{
  Pgvector, Row, is_nearer, has_same_document, best_chunk_per_doc,
}

abbrev Below : ℤ → ℤ → Type 0
Below a b = pos_part a + neg_part b < pos_part b + neg_part a

Below-of_false : (a b : ℤ) → (a == b) ≡ false → ltb_ℤ a b ≡ false → Below b a
Below-of_false (pos a) (pos b) h k = ground arith
Below-of_false (pos a) (negsuc b) h k = ground arith
Below-of_false (negsuc a) (pos b) h k = ground arith
Below-of_false (negsuc a) (negsuc b) h k = ground arith

Below-of_true : (a b : ℤ) → ltb_ℤ a b ≡ true → Below a b
Below-of_true a b h = ground arith

Below-ne : (a b : ℤ) → Below a b → a ≡ b → ⊥
Below-ne a b h e = let k : Below b b = rw e at h in omega arith

module _ (pg : Pgvector) where
  -- The order of the inner query.
  abbrev Precedes : Row → Row → Type 0
  Precedes a b =
      Below a.document_id b.document_id
      ⊎ ((a.document_id ≡ b.document_id) × (pg.rank a.distance ≤ pg.rank b.distance))

  before : (a b : Row) → is_nearer pg a b ≡ true → Precedes a b
  before a b h = elim (Bool-cases (a.document_id == b.document_id)) [
    | inl e ↦ inr ((eqb_ℤ_iff _ _).0 e, leb→le _ _ (rw e at h))
    | inr e ↦ inl (Below-of_true a.document_id b.document_id (rw e at h))
  ]

  after : (a b : Row) → is_nearer pg a b ≡ false → Precedes b a
  after a b h = elim (Bool-cases (a.document_id == b.document_id)) [
    | inl e ↦ inr (
      sym ((eqb_ℤ_iff _ _).0 e),
      let k = leb_false→lt (pg.rank a.distance) (pg.rank b.distance) (rw e at h) in omega arith,
    )
    | inr e ↦ inl (Below-of_false a.document_id b.document_id e (rw e at h))
  ]

  trans : (a b c : Row) → Precedes a b → Precedes b c → Precedes a c
  trans a b c (inl p) (inl q) = inl (omega arith)
  trans a b c (inl p) (inr q) = inl (rw (q.0) at p)
  trans a b c (inr p) (inl q) = inl (rw (p.0) q)
  trans a b c (inr p) (inr q) = inr (p.0 ∙ q.0, omega arith)

  -- A row of the same document that is at least as near.
  abbrev pub Covers : Row → Row → Type 0
  Covers c r = (r.document_id ≡ c.document_id) × (pg.rank r.distance ≤ pg.rank c.distance)

  -- No two rows of one document.
  abbrev pub OtherDocument : Row → Row → Type 0
  OtherDocument a b = a.document_id ≡ b.document_id → ⊥

  Covers-of_Precedes : (k c : Row) → Precedes k c → k.document_id ≡ c.document_id → Covers c k
  Covers-of_Precedes k c (inl b) e = elim (Below-ne _ _ b e) [ ]
  Covers-of_Precedes k c (inr p) e = p

  Below-of_Precedes :
      (k c : Row) → Precedes k c → has_same_document k c ≡ false → Below k.document_id c.document_id
  Below-of_Precedes k c (inl b) e = b
  Below-of_Precedes k c (inr p) e =
      let t = (eqb_ℤ_iff k.document_id c.document_id).1 p.0 in ground arith

  Below-All :
      (k y : Row) (ys : List Row)
      → Below k.document_id y.document_id
      → All (Precedes y) ys
      → All (λ r. Below k.document_id r.document_id) ys
  Below-All k y ys b h =
      All-mono (Precedes y) _ ys (λ r p. elim p [ inl q ↦ omega arith | inr q ↦ rw (← q.0) b ]) h

  same_after :
      (k y : Row) (ys : List Row)
      → has_same_document k y ≡ true
      → distinct_after has_same_document k (y ∷ ys) ≡ distinct_after has_same_document k ys
  unfolding distinct_after
  same_after k y ys e = rw (distinct_after, e)

  other_after :
      (k y : Row) (ys : List Row)
      → has_same_document k y ≡ false
      → distinct_after has_same_document k (y ∷ ys) ≡ y ∷ distinct_after has_same_document y ys
  unfolding distinct_after
  other_after k y ys e = rw (distinct_after, e)

  All-distinct_after :
      (P : Row → Type 0) (k : Row) (ys : List Row)
      → All P ys
      → All P (distinct_after has_same_document k ys)
  All-distinct_after P k [] h = unfold distinct_after in tt
  All-distinct_after P k (y ∷ ys) h = elim (Bool-cases (has_same_document k y)) [
    | inl e ↦ rw (same_after k y ys e) (All-distinct_after P k ys h.1)
    | inr e ↦ rw (other_after k y ys e) (h.0, All-distinct_after P y ys h.1)
  ]

  Distinct-distinct_after :
      (k : Row) (ys : List Row)
      → All (Precedes k) ys
      → Pairwise Precedes ys
      → Pairwise OtherDocument (k ∷ distinct_after has_same_document k ys)
  Distinct-distinct_after k [] h s = unfold distinct_after in (tt, tt)
  Distinct-distinct_after k (y ∷ ys) h s = elim (Bool-cases (has_same_document k y)) [
    | inl e ↦ rw (same_after k y ys e) (Distinct-distinct_after k ys h.1 s.1)
    | inr e ↦
        let b = Below-of_Precedes k y h.0 e in
        let apart =
          All-mono _ (OtherDocument k) ys (λ r q. Below-ne _ _ q) (Below-All k y ys b s.0) in
        rw (other_after k y ys e)
          ((Below-ne _ _ b, All-distinct_after _ y ys apart), Distinct-distinct_after y ys s.0 s.1)
  ]

  Covers-distinct_after :
      (k : Row) (ys : List Row)
      → All (Precedes k) ys
      → Pairwise Precedes ys
      → All (λ c. Some (Covers c) (k ∷ distinct_after has_same_document k ys)) ys
  Covers-distinct_after k [] h s = tt
  Covers-distinct_after k (y ∷ ys) h s = elim (Bool-cases (has_same_document k y)) [
    | inl e ↦
        subst (λ ds. All (λ c. Some (Covers c) (k ∷ ds)) (y ∷ ys)) (sym (same_after k y ys e))
          (
            inl (Covers-of_Precedes k y h.0 ((eqb_ℤ_iff _ _).0 e)),
            Covers-distinct_after k ys h.1 s.1,
          )
    | inr e ↦
        subst (λ ds. All (λ c. Some (Covers c) (k ∷ ds)) (y ∷ ys)) (sym (other_after k y ys e))
          (
            inr (inl (refl, omega arith)),
            All-mono _ _ ys (λ c t. inr t) (Covers-distinct_after y ys s.0 s.1),
          )
  ]

  pub All-best_chunk_per_doc :
      (P : Row → Type 0) (rows : List Row) → All P rows → All P (best_chunk_per_doc pg rows)
  unfolding best_chunk_per_doc distinct_on
  All-best_chunk_per_doc P rows h = all (sort_by (is_nearer pg) rows) (All-sort_by P _ rows h)
    where
      all : (xs : List Row) → All P xs → All P (distinct_on has_same_document xs)
      all [] k = tt
      all (x ∷ xs) k = (k.0, All-distinct_after P x xs k.1)

  pub best_chunk_per_doc-Distinct :
      (rows : List Row) → Pairwise OtherDocument (best_chunk_per_doc pg rows)
  unfolding best_chunk_per_doc distinct_on
  best_chunk_per_doc-Distinct rows =
      distinct (sort_by (is_nearer pg) rows)
        (sort_by-IsSorted Precedes (is_nearer pg) before after trans rows)
    where
      distinct :
          (xs : List Row)
          → Pairwise Precedes xs
          → Pairwise OtherDocument (distinct_on has_same_document xs)
      distinct [] s = tt
      distinct (x ∷ xs) s = Distinct-distinct_after x xs s.0 s.1

  covered :
      (xs : List Row)
      → Pairwise Precedes xs
      → All (λ c. Some (Covers c) (distinct_on has_same_document xs)) xs
  unfolding distinct_on
  covered [] s = tt
  covered (x ∷ xs) s = (inl (refl, omega arith), Covers-distinct_after x xs s.0 s.1)

  -- Each row is one of the query, or stands behind one of its document that is at least as near.
  pub best_chunk_per_doc-Covers :
      (rows : List Row) → All (λ c. Some (Covers c) (best_chunk_per_doc pg rows)) rows
  unfolding best_chunk_per_doc
  best_chunk_per_doc-Covers rows =
      All-of_sorted (λ c. Some (Covers c) (best_chunk_per_doc pg rows)) (is_nearer pg) rows
        (covered (sort_by (is_nearer pg) rows)
          (sort_by-IsSorted Precedes (is_nearer pg) before after trans rows))
