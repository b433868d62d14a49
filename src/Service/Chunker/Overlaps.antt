-- ===== src/Service/Chunker/Overlaps.antt =====
-- `_apply_overlap`, and the numbering of the finished chunks.
use ject6_4th_ai_analyzer.Base.{
  ℕ, zero, suc, ◌+◌, ◌<◌, ◌≡◌, refl, ap, some, List, [], ◌∷◌, ◌++◌, arith, length, get_elem?,
  last_n, Text,
}
use ject6_4th_ai_analyzer.Service.Chunker.{
  TextChunker, TextChunk, separator, count, overlapped, apply_overlap, numbered,
}

module _ (c : TextChunker) where
  overlapped_at :
      (prev : Text) (chunks : List Text) (i : ℕ) (before cur : Text)
      → get_elem? (prev ∷ chunks) i ≡ some before
      → get_elem? chunks i ≡ some cur
      → get_elem? (overlapped c prev chunks) i
        ≡ some (c.decode (last_n c.overlap (c.encode before)) ++ separator ++ cur)
  unfolding overlapped
  overlapped_at prev [] i before cur h k = cc
  overlapped_at prev (x ∷ chunks) zero before cur h k = cc
  overlapped_at prev (x ∷ chunks) (suc i) before cur h k = overlapped_at x chunks i before cur h k

  length-overlapped :
      (prev : Text) (chunks : List Text) → length (overlapped c prev chunks) ≡ length chunks
  unfolding overlapped
  length-overlapped prev [] = refl
  length-overlapped prev (x ∷ chunks) = ap suc (length-overlapped x chunks)

-- With an overlap, the first chunk stays, and each later one is led by the last `overlap` tokens of
-- the chunk before it, as that was before its own overlap, and a blank line.
pub apply_overlap_at :
    (c : TextChunker) (chunks : List Text) (i : ℕ) (before cur : Text)
    → 0 < c.overlap
    → get_elem? chunks i ≡ some before
    → get_elem? chunks (suc i) ≡ some cur
    → (get_elem? (apply_overlap c chunks) 0 ≡ get_elem? chunks 0)
      × (get_elem? (apply_overlap c chunks) (suc i)
          ≡ some (c.decode (last_n c.overlap (c.encode before)) ++ separator ++ cur))
      × (length (apply_overlap c chunks) ≡ length chunks)
unfolding apply_overlap
apply_overlap_at c [] i before cur pos h k = cc
apply_overlap_at c (x ∷ []) i before cur pos h k = cc
apply_overlap_at c (x ∷ y ∷ chunks) i before cur pos h k =
    ground (arith, overlapped_at c x (y ∷ chunks) i before cur, length-overlapped c x (y ∷ chunks))

pub apply_overlap-eq-nil :
    (c : TextChunker) (chunks : List Text) → apply_overlap c chunks ≡ [] → chunks ≡ []
unfolding apply_overlap
apply_overlap-eq-nil c [] e = refl
apply_overlap-eq-nil c (x ∷ chunks) e = ground arith

pub numbered_at :
    (c : TextChunker) (k : ℕ) (chunks : List Text) (i : ℕ) (t : TextChunk)
    → get_elem? (numbered c k chunks) i ≡ some t
    → (t.index ≡ k + i)
      × (t.token_count ≡ count c t.content)
      × (get_elem? chunks i ≡ some t.content)
unfolding numbered
numbered_at c k [] i t h = cc
numbered_at c k (x ∷ chunks) zero t h = ground arith
numbered_at c k (x ∷ chunks) (suc i) t h = ground (arith, numbered_at c (k + 1) chunks i t h)
