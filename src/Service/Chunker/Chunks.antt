-- ===== src/Service/Chunker/Chunks.antt =====
-- `chunk` as a whole: when it gives chunks, and what it says of each.
use ject6_4th_ai_analyzer.Base.{
  ℕ, zero, suc, ◌<◌, ◌≡◌, ◌≢◌, ◌↔◌, refl, ap, ◌∙◌, sym, true, false, inl, inr, some, List, [], ◌∷◌,
  arith, Bool-cases, List-cases, length, take, get_elem?, All, Text, strip, split, split_from,
  starts_with, is_space,
}
use ject6_4th_ai_analyzer.Base.Blank.{blank, blank-reverse, blank-strip, strip-eq-nil_iff}
use ject6_4th_ai_analyzer.Service.Chunker.{
  TextChunker, TextChunk, separator, count, packed_chunks, apply_overlap, numbered, chunk,
  stripped_paragraphs, slice_long_text,
}
use ject6_4th_ai_analyzer.Service.Chunker.Windows.{slice_long_text_covers, stitch}
use ject6_4th_ai_analyzer.Service.Chunker.Groups.{
  Group, packed, sliced, members, render, Fits, packed_chunks_groups,
}
use ject6_4th_ai_analyzer.Service.Chunker.Overlaps.{apply_overlap-eq-nil, numbered_at}

abbrev AllBlank : List Text → Type 0
AllBlank [] = Unit
AllBlank (p ∷ ps) = (blank p ≡ true) × AllBlank ps

separator-blank :
    (c : ℕ) (s : Text)
    → starts_with separator (c ∷ s) ≡ true
    → (is_space c ≡ true) × (blank (take 1 s) ≡ true)
unfolding starts_with is_space
separator-blank c [] h = ground arith
separator-blank c (d ∷ s) h = ground arith

-- Pieces between blank lines that are all white space come from a text that is white space.
split_from-blank :
    (skip : ℕ) (piece s : Text)
    → blank (take skip s) ≡ true
    → AllBlank (split_from separator skip piece s)
    → (blank piece ≡ true) × (blank s ≡ true)
unfolding split_from
split_from-blank skip piece [] h all = (sym (blank-reverse piece) ∙ all.0, refl)
split_from-blank (suc skip) piece (c ∷ s) h all = ground (arith, split_from-blank skip piece s)
split_from-blank zero piece (c ∷ s) h all = elim (Bool-cases (starts_with separator (c ∷ s))) [
  | inl found ↦
      let here = separator-blank c s found in
      ground (arith, here, found, split_from-blank 1 [] s here.1, blank-reverse piece)
  | inr further ↦ ground (arith, further, split_from-blank zero (c ∷ piece) s refl)
]

stripped_paragraphs-blank : (ps : List Text) → stripped_paragraphs ps ≡ [] → AllBlank ps
unfolding stripped_paragraphs
stripped_paragraphs-blank [] e = tt
stripped_paragraphs-blank (p ∷ ps) e = elim (List-cases (strip p)) [
  | inl gone ↦ ((strip-eq-nil_iff p).0 gone, stripped_paragraphs-blank ps (rw gone at e))
  | inr (c, s, kept) ↦ ground arith
]

slice_long_text-ne-nil :
    (c : TextChunker)
    → c.overlap < c.chunk_size
    → (p : Text) → c.chunk_size < count c p
    → slice_long_text c p ≢ []
unfolding count
slice_long_text-ne-nil c valid p long e =
    let (ws, decoded, whole, windowed) = slice_long_text_covers c valid p in
    elim (List-cases ws) [
      | inl gone ↦ absurd (omega (arith, ap length (sym whole ∙ ap (stitch c.overlap) gone), long))
      | inr (w, ws', more) ↦ cc
    ]

render-ne-nil :
    (c : TextChunker)
    → c.overlap < c.chunk_size
    → (gs : List Group) → All (Fits c) gs
    → members gs ≢ []
    → render c gs ≢ []
render-ne-nil c valid [] fits ne e = ne refl
render-ne-nil c valid (packed ps ∷ gs) fits ne e = cc
render-ne-nil c valid (sliced p ∷ gs) fits ne e = elim (List-cases (slice_long_text c p)) [
  | inl gone ↦ slice_long_text-ne-nil c valid p fits.0 gone
  | inr (t, ts, more) ↦ cc
]

packed_chunks-ne-nil :
    (c : TextChunker)
    → c.overlap < c.chunk_size
    → (ps : List Text) → ps ≢ []
    → packed_chunks c ps ≢ []
packed_chunks-ne-nil c valid ps ne e =
    let (gs, rendered, complete, fits) = packed_chunks_groups c ps in
    render-ne-nil c valid gs fits (λ gone. ne (sym complete ∙ gone)) (sym rendered ∙ e)

numbered-eq-nil : (c : TextChunker) (chunks : List Text) → numbered c 0 chunks ≡ [] → chunks ≡ []
unfolding numbered
numbered-eq-nil c [] e = refl
numbered-eq-nil c (x ∷ chunks) e = cc

paragraphs-ne-nil :
    (text : Text) → blank text ≡ false → stripped_paragraphs (split separator (strip text)) ≢ []
unfolding split
paragraphs-ne-nil text ink e =
    let all = stripped_paragraphs-blank (split separator (strip text)) e in
    cc (blank-strip text, (split_from-blank 0 [] (strip text) refl all).1)

chunk-ne-nil :
    (c : TextChunker)
    → c.overlap < c.chunk_size
    → (text : Text) → blank text ≡ false
    → chunk c text ≢ []
unfolding chunk
chunk-ne-nil c valid text ink e = elim (List-cases (strip text)) [
  | inl gone ↦ cc ((strip-eq-nil_iff text).0 gone)
  | inr (t, ts, kept) ↦
      packed_chunks-ne-nil c valid _ (paragraphs-ne-nil text ink)
        (apply_overlap-eq-nil c _ (numbered-eq-nil c _ (rw kept (rw kept at e))))
]

-- `chunk` gives no chunk exactly of the texts that are white space throughout.
pub chunk-eq-nil_iff :
    (c : TextChunker)
    → c.overlap < c.chunk_size
    → (text : Text) → (chunk c text ≡ []) ↔ (blank text ≡ true)
unfolding chunk
chunk-eq-nil_iff c valid text = (
  λ e. elim (Bool-cases (blank text)) [
    | inl b ↦ b
    | inr ink ↦ absurd (chunk-ne-nil c valid text ink e)
  ],
  λ b. rw ((strip-eq-nil_iff text).1 b),
)

-- The chunk at position `i` has the index `i`, and the token count of its own content.
pub chunk_at :
    (c : TextChunker) (text : Text) (i : ℕ) (t : TextChunk)
    → get_elem? (chunk c text) i ≡ some t
    → (t.index ≡ i) × (t.token_count ≡ count c t.content)
unfolding chunk
chunk_at c text i t h = ground (
  arith,
  numbered_at c 0
      (apply_overlap c (packed_chunks c (stripped_paragraphs (split separator (strip text))))) i t,
)
