-- ===== src/Service/HtmlExtractor/Paragraphs.antt =====
-- app/service/html_extractor.py and app/service/chunker.py: the lines of a page are the paragraphs of its
-- text.
use ject6_4th_ai_analyzer.Base.{
  ◌≡◌, refl, sym, ap, ◌∙◌, inl, inr, ◌⊎◌, true, false, none, List, [], ◌∷◌, Text, codes, strip,
  split, splitlines, join, is_empty, All, Bool-cases, if◌then◌else◌,
}
use ject6_4th_ai_analyzer.Base.Blank.{blank, blank-strip}
use ject6_4th_ai_analyzer.Base.Trimmed.{IsTrimmed, strip-trimmed, strip-cases, join-IsTrimmed}
use ject6_4th_ai_analyzer.Base.Lines.{
  IsOneLine, split-join, All-strip, splitlines-OneLine, all_blank, splitlines-blank,
}
use ject6_4th_ai_analyzer.Core.Effects.{Result, ok, err}
use ject6_4th_ai_analyzer.Core.Exceptions.{raised, validation_error}
use ject6_4th_ai_analyzer.Service.Chunker.{
  TextChunker, chunk, numbered, apply_overlap, packed_chunks, stripped_paragraphs, separator,
}
use ject6_4th_ai_analyzer.Service.HtmlExtractor.{BeautifulSoup, page_text, extract_text}

dark_is_something : (p : Text) → IsTrimmed p → is_empty p ≡ false
dark_is_something [] h = elim h.0 [ ]
dark_is_something (c ∷ p) h = refl

dark-blank : (p : Text) → IsTrimmed p → blank p ≡ false
dark-blank [] h = elim h.0 [ ]
dark-blank (c ∷ p) h = rw h.0

stripped_paragraphs-blank : (ps : List Text) → is_empty (stripped_paragraphs ps) ≡ all_blank ps
unfolding stripped_paragraphs
stripped_paragraphs-blank [] = refl
stripped_paragraphs-blank (p ∷ ps) =
    let ih = stripped_paragraphs-blank ps in
    elim (strip-cases p) [
      | inl n ↦ rw (n, sym (blank-strip p) ∙ ap blank n) ih
      | inr t ↦
          rw (dark_is_something (strip p) t, sym (blank-strip p) ∙ dark-blank (strip p) t) refl
    ]

stripped_paragraphs-IsTrimmed : (ps : List Text) → All IsTrimmed (stripped_paragraphs ps)
unfolding stripped_paragraphs
stripped_paragraphs-IsTrimmed [] = tt
stripped_paragraphs-IsTrimmed (p ∷ ps) = elim (strip-cases p) [
  | inl n ↦ rw n (stripped_paragraphs-IsTrimmed ps)
  | inr t ↦ elim (Bool-cases (is_empty (strip p))) [
    | inl e ↦ rw e (stripped_paragraphs-IsTrimmed ps)
    | inr e ↦ rw e (t, stripped_paragraphs-IsTrimmed ps)
  ]
]

stripped_paragraphs-OneLine :
    (ps : List Text) → All IsOneLine ps → All IsOneLine (stripped_paragraphs ps)
unfolding stripped_paragraphs
stripped_paragraphs-OneLine [] h = tt
stripped_paragraphs-OneLine (p ∷ ps) (h, hs) = elim (Bool-cases (is_empty (strip p))) [
  | inl e ↦ rw e (stripped_paragraphs-OneLine ps hs)
  | inr e ↦ rw e (All-strip _ p h, stripped_paragraphs-OneLine ps hs)
]

-- Trimmed lines stay as they are.
stripped_paragraphs-trimmed : (ps : List Text) → All IsTrimmed ps → stripped_paragraphs ps ≡ ps
unfolding stripped_paragraphs
stripped_paragraphs-trimmed [] h = refl
stripped_paragraphs-trimmed (p ∷ ps) (h, hs) =
    rw (strip-trimmed p h, dark_is_something p h)
      (ap (λ t. p ∷ t) (stripped_paragraphs-trimmed ps hs))

-- The text of some trimmed lines, as the chunker reads it.
paragraphs-join :
    (p : Text) (ps : List Text)
    → All IsTrimmed (p ∷ ps)
    → All IsOneLine (p ∷ ps)
    → stripped_paragraphs (split separator (strip (join separator (p ∷ ps)))) ≡ p ∷ ps
paragraphs-join p ps (h, hs) (k, ks) =
    ap (λ t. stripped_paragraphs (split separator t))
      (strip-trimmed _ (join-IsTrimmed separator p ps h hs))
    ∙ ap stripped_paragraphs (split-join p ps k ks)
    ∙ stripped_paragraphs-trimmed (p ∷ ps) (h, hs)

abbrev no_text : Result Text
no_text = err (raised validation_error (codes "no readable text found in crawled html") none)

-- What comes of a page with the text, for a chunker.
abbrev pub Extracted : TextChunker → Text → Result Text → Type 0
Extracted c text result =
    ((blank text ≡ true) × (result ≡ no_text))
    ⊎ ((content : Text) × (blank text ≡ false)
        × (result ≡ ok content)
        × (chunk c content
            ≡ numbered c 0
                (apply_overlap c (packed_chunks c (stripped_paragraphs (splitlines text))))))

module _ (c : TextChunker) (text : Text) where
  extracted :
      (lines : List Text)
      → stripped_paragraphs (splitlines text) ≡ lines
      → is_empty lines ≡ blank text
      → All IsTrimmed lines
      → All IsOneLine lines
      → Extracted c text
          (if is_empty (join separator lines) then no_text else ok (join separator lines))
  unfolding chunk join
  extracted [] e b h k = inl (sym b, refl)
  extracted (p ∷ ps) e b h k =
      let content = join separator (p ∷ ps) in
      let trimmed = join-IsTrimmed separator p ps h.0 h.1 in
      let some_text = dark_is_something content trimmed in
      rw some_text (
        inr (
          content,
          sym b,
          refl,
          rw (strip-trimmed content trimmed, some_text)
              (ap (λ lines. numbered c 0 (apply_overlap c (packed_chunks c lines)))
                (ap (λ t. stripped_paragraphs (split separator t))
                    (sym (strip-trimmed content trimmed))
                  ∙ paragraphs-join p ps h k
                  ∙ sym e)),
        ))

-- `extract_text` raises the ValidationError exactly if the text of the page is white space throughout.
-- Otherwise it returns a content of which the chunker makes its chunks from the stripped lines of the page,
-- those that have something in them, as its paragraphs.
pub extract_text-chunk :
    (bs : BeautifulSoup) (c : TextChunker) (html : Text)
    → Extracted c (page_text bs html) (extract_text bs html)
unfolding extract_text
extract_text-chunk bs c html =
    let text = page_text bs html in
    extracted c text (stripped_paragraphs (splitlines text)) refl
      (stripped_paragraphs-blank (splitlines text) ∙ splitlines-blank text)
      (stripped_paragraphs-IsTrimmed (splitlines text))
      (stripped_paragraphs-OneLine (splitlines text) (splitlines-OneLine text))
