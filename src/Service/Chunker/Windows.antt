-- ===== src/Service/Chunker/Windows.antt =====
-- The windows of `_slice_long_text`.
use native.Mathlib.Nat.{div-eq_of_lt, div-add-mod', mod-lt}
use ject6_4th_ai_analyzer.Base.{
  ℕ, zero, suc, ◌+◌, ◌-◌, ◌*◌, ◌/◌, ◌≤◌, ◌<◌, ◌≡◌, refl, ap, ◌∙◌, sym, inl, inr, List, [], ◌∷◌,
  ◌++◌, append-nil, map, arith, tests, leb, Bool-cases, length, take, drop, All, length-take,
  length-drop, take_all, drop-append, drop-drop, take-append-drop, drop-nil, leb_false→lt,
  List-cases, Text,
}
use ject6_4th_ai_analyzer.Service.Chunker.{
  TextChunker, range, range_from, windows_at, windows, slice_long_text,
}

module _ {ℓ} {A : Type ℓ} (o : ℕ) where
  -- What the later windows add: each without the tokens that it repeats.
  abbrev pub fresh : List (List A) → List A
  fresh [] = []
  fresh (w ∷ ws) = drop o w ++ fresh ws

  -- The first window, and what the later ones add.
  abbrev pub stitch : List (List A) → List A
  stitch [] = []
  stitch (w ∷ ws) = w ++ fresh ws

  abbrev HeadLong : List (List A) → Type 0
  HeadLong [] = Unit
  HeadLong (w ∷ ws) = o ≤ length w

  fresh-eq-drop : (ws : List (List A)) → HeadLong ws → fresh ws ≡ drop o (stitch ws)
  fresh-eq-drop [] h = sym (drop-nil o)
  fresh-eq-drop (w ∷ ws) h = sym (drop-append o w (fresh ws) h)

-- What `_slice_long_text` decodes at a time.
abbrev pub IsWindow : (c : TextChunker) → List c.Token → Type 0
IsWindow c w = (0 < length w) × (length w ≤ c.chunk_size)

module _ (c : TextChunker) (valid : c.overlap < c.chunk_size) (tokens : List c.Token) where
  abbrev step : ℕ
  step = c.chunk_size - c.overlap

  windows_at-HeadLong :
      (k s : ℕ)
      → s + c.overlap ≤ length tokens
      → HeadLong c.overlap (windows_at c tokens (range_from k s step))
  unfolding windows_at range_from
  windows_at-HeadLong zero s h = tt
  windows_at-HeadLong (suc k) s h = elim (Bool-cases (leb (length tokens) (s + c.chunk_size))) [
    | inl last ↦
        rw last (omega (arith, length-take c.chunk_size (drop s tokens), length-drop s tokens))
    | inr more ↦
        rw more (omega (arith, length-take c.chunk_size (drop s tokens), length-drop s tokens))
  ]

  windows_at-stitch :
      (k s : ℕ)
      → s < length tokens
      → length tokens ≤ s + k * step
      → stitch c.overlap (windows_at c tokens (range_from k s step)) ≡ drop s tokens
  unfolding windows_at range_from
  windows_at-stitch zero s h bound = absurd (omega arith)
  windows_at-stitch (suc k) s h bound = elim (Bool-cases (leb (length tokens) (s + c.chunk_size))) [
    | inl last ↦ rw last (
        append-nil _
        ∙ take_all c.chunk_size (drop s tokens) (omega (tests, length-drop s tokens, last)))
    | inr more ↦
        let far = leb_false→lt _ _ more in
        rw more (
          ap (λ t. take c.chunk_size (drop s tokens) ++ t)
            (fresh-eq-drop c.overlap _ (windows_at-HeadLong k (s + step) (omega (arith, far)))
              ∙ ap (drop c.overlap)
                  (windows_at-stitch k (s + step) (omega (arith, far)) (omega (arith, bound)))
              ∙ drop-drop c.overlap (s + step) tokens
              ∙ ap (λ n. drop n tokens) (omega arith)
              ∙ sym (drop-drop c.chunk_size s tokens))
          ∙ take-append-drop c.chunk_size (drop s tokens))
  ]

  windows_at-IsWindow :
      (k s : ℕ) → s < length tokens → All (IsWindow c) (windows_at c tokens (range_from k s step))
  unfolding windows_at range_from
  windows_at-IsWindow zero s h = tt
  windows_at-IsWindow (suc k) s h =
      let size = length-take c.chunk_size (drop s tokens) in
      let left = length-drop s tokens in
      elim (Bool-cases (leb (length tokens) (s + c.chunk_size))) [
        | inl last ↦ rw last ((omega (arith, size, left), omega (arith, size, left)), tt)
        | inr more ↦ rw more (
          (omega (arith, size, left), omega (arith, size, left)),
          windows_at-IsWindow k (s + step) (omega (arith, leb_false→lt _ _ more)),
        )
      ]

round_up_none : (s : ℕ) → 0 < s → (0 + s - 1) / s ≡ 0
round_up_none s h = div-eq_of_lt (omega arith)

round_up : (n s : ℕ) → 0 < s → n ≤ 0 + (n - 0 + s - 1) / s * s
round_up n s h = omega (arith, div-add-mod' (n + s - 1) s, mod-lt (n + s - 1) h)

-- Slicing decodes windows of the text's tokens: every window has from one to `chunk_size` tokens,
-- and the first window with what each later one adds behind the `overlap` that it repeats gives the
-- tokens of the text, in order and complete.
pub slice_long_text_covers :
    (c : TextChunker)
    → c.overlap < c.chunk_size
    → (text : Text)
    → (ws : List (List c.Token)) × (slice_long_text c text ≡ map c.decode ws)
      × (stitch c.overlap ws ≡ c.encode text)
      × All (IsWindow c) ws
unfolding slice_long_text range range_from windows_at
slice_long_text_covers c valid text = elim (List-cases (c.encode text)) [
  | inl none_left ↦
      let stops = round_up_none (c.chunk_size - c.overlap) (omega arith) in
      (windows c (c.encode text), refl, rw (none_left, stops), rw (none_left, stops) tt)
  | inr (t, ts, e) ↦
      let tokens : List c.Token = c.encode text in
      let some_left : 0 < length tokens = rw e (omega arith) in
      let k : ℕ =
        (length tokens - 0 + (c.chunk_size - c.overlap) - 1) / (c.chunk_size - c.overlap) in
      (
        windows c tokens,
        refl,
        windows_at-stitch c valid tokens k 0 some_left
            (round_up (length tokens) (c.chunk_size - c.overlap) (omega arith)),
        windows_at-IsWindow c valid tokens k 0 some_left,
      )
]
