-- ===== src/Service/Chunker.antt =====
-- app/service/chunker.py: the chunker that splits a text into pieces of bounded token count.
-- The tokenizer is tiktoken's: a type of tokens with `encode` and `decode`, a parameter.
pub mod Windows
pub mod Groups
pub mod Overlaps
pub mod Chunks
use ject6_4th_ai_analyzer.Base.{
  ℕ, zero, suc, ◌+◌, ◌-◌, ◌/◌, Bool, not, Option, none, some, List, [], ◌∷◌, ◌++◌, map, ltb, leb,
  eqb, ◌||◌, if◌then◌else◌, Text, codes, strip, split, join, length, take, drop, last_n, is_empty,
}
use ject6_4th_ai_analyzer.Client.Tokenizer.{Encoder}

pub record TextChunk : Type 0 where
  pub index : ℕ
  pub content : Text
  pub token_count : ℕ

pub record TextChunker : Type 1 where
  pub chunk_size : ℕ
  pub overlap : ℕ
  pub encoder : Encoder
  pub open encoder use *

-- `TextChunker(...)`; `none` is the `ValueError`.
unfoldable pub init_chunker : ℕ → ℕ → Encoder → Option TextChunker
init_chunker chunk_size overlap encoder =
    if leb chunk_size overlap
    then none
    else some (record { chunk_size = chunk_size; overlap = overlap; encoder = encoder })

abbrev pub separator : Text
separator = codes "\n\n"

-- `range(start, stop, step)`, by the number of values left.
range_from : ℕ → ℕ → ℕ → List ℕ
range_from zero start step = []
range_from (suc k) start step = start ∷ range_from k (start + step) step

pub range : ℕ → ℕ → ℕ → List ℕ
unfolding range_from
range start stop step = range_from ((stop - start + step - 1) / step) start step

-- The state of the loop over the paragraphs.
pub record Packing : Type 0 where
  pub chunks : List Text
  pub buffer : List Text
  pub buffer_tokens : ℕ

module _ (c : TextChunker) where
  unfoldable pub count : Text → ℕ
  count text = length (c.encode text)

  -- The loop of `_slice_long_text`: the windows of tokens, before they are decoded.
  pub windows_at : List c.Token → List ℕ → List (List c.Token)
  windows_at tokens [] = []
  windows_at tokens (start ∷ starts) =
      let rest = windows_at tokens starts in
      let window = take c.chunk_size (drop start tokens) in
      if leb (length tokens) (start + c.chunk_size) then window ∷ [] else window ∷ rest

  pub windows : List c.Token → List (List c.Token)
  unfolding windows_at range
  windows tokens = windows_at tokens (range 0 (length tokens) (c.chunk_size - c.overlap))

  unfoldable pub slice_long_text : Text → List Text
  unfolding windows
  slice_long_text text = map c.decode (windows (c.encode text))

  -- One round of the loop of `chunk`.
  unfoldable pub pack : Packing → Text → Packing
  unfolding count slice_long_text
  pack s para =
      let para_tokens = count para in
      let flushed = s.chunks ++ join separator s.buffer ∷ [] in
      if ltb c.chunk_size para_tokens
      then record {
        chunks = (if is_empty s.buffer then s.chunks else flushed) ++ slice_long_text para;
        buffer = [];
        buffer_tokens = if is_empty s.buffer then s.buffer_tokens else 0;
      }
      else if ltb c.chunk_size (s.buffer_tokens + para_tokens)
      then record { chunks = flushed; buffer = para ∷ []; buffer_tokens = 0 + para_tokens }
      else record s {
        buffer = s.buffer ++ para ∷ [];
        buffer_tokens = s.buffer_tokens + para_tokens;
      }

  unfoldable pub pack_all : Packing → List Text → Packing
  unfolding pack
  pack_all s [] = s
  pack_all s (para ∷ paras) = pack_all (pack s para) paras

  unfoldable pub packed_chunks : List Text → List Text
  unfolding pack_all
  packed_chunks paras =
      let s = pack_all (record { chunks = []; buffer = []; buffer_tokens = 0 }) paras in
      if is_empty s.buffer then s.chunks else s.chunks ++ join separator s.buffer ∷ []

  -- The rounds of the loop of `_apply_overlap`, each over a chunk and the one before it.
  pub overlapped : Text → List Text → List Text
  overlapped prev [] = []
  overlapped prev (chunk ∷ chunks) =
      (c.decode (last_n c.overlap (c.encode prev)) ++ separator ++ chunk) ∷ overlapped chunk chunks

  unfoldable pub apply_overlap : List Text → List Text
  unfolding overlapped
  apply_overlap [] = []
  apply_overlap (chunk ∷ chunks) =
      if eqb c.overlap 0 || leb (length (chunk ∷ chunks)) 1
      then chunk ∷ chunks
      else chunk ∷ overlapped chunk chunks

  -- `enumerate`, and the token counts of the finished chunks.
  pub numbered : ℕ → List Text → List TextChunk
  unfolding count
  numbered i [] = []
  numbered i (content ∷ chunks) =
      record { index = i; content = content; token_count = count content } ∷ numbered (i + 1) chunks

-- The stripped pieces between blank lines that have something in them.
unfoldable pub stripped_paragraphs : List Text → List Text
stripped_paragraphs [] = []
stripped_paragraphs (p ∷ ps) =
    let rest = stripped_paragraphs ps in if is_empty (strip p) then rest else strip p ∷ rest

unfoldable pub chunk : TextChunker → Text → List TextChunk
unfolding packed_chunks apply_overlap numbered stripped_paragraphs
chunk c text =
    let text' = strip text in
    if is_empty text'
    then []
    else numbered c 0
        (apply_overlap c (packed_chunks c (stripped_paragraphs (split separator text'))))
