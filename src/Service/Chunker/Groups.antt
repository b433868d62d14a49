-- ===== src/Service/Chunker/Groups.antt =====
-- The packing of paragraphs into chunks, before the overlap is added.
use ject6_4th_ai_analyzer.Base.{
  ℕ, ◌+◌, ◌≤◌, ◌<◌, ◌≡◌, ◌≢◌, refl, ap, ◌∙◌, sym, inl, inr, List, [], ◌∷◌, ◌++◌, append-nil,
  append_assoc, arith, ltb, if◌then◌else◌, Bool-cases, All, ltb→lt, ltb_false→le, lt→ltb,
  le→ltb_false, Text, join, is_empty,
}
use ject6_4th_ai_analyzer.Service.Chunker.{
  TextChunker, Packing, separator, count, pack, pack_all, packed_chunks, slice_long_text,
}

-- Paragraphs joined into one chunk, or one paragraph that is sliced.
pub data Group : Type 0 where
  packed : List Text → Group
  sliced : Text → Group

abbrev pub members : List Group → List Text
members [] = []
members (packed ps ∷ gs) = ps ++ members gs
members (sliced p ∷ gs) = p ∷ members gs

abbrev pub total : TextChunker → List Text → ℕ
total c [] = 0
total c (p ∷ ps) = count c p + total c ps

abbrev pub render : TextChunker → List Group → List Text
render c [] = []
render c (packed ps ∷ gs) = join separator ps ∷ render c gs
render c (sliced p ∷ gs) = slice_long_text c p ++ render c gs

-- A packed group has paragraphs, whose token counts sum to `chunk_size` at most; only a paragraph
-- of more tokens is sliced.
abbrev pub Fits : TextChunker → Group → Type 0
Fits c (packed ps) = (ps ≢ []) × (total c ps ≤ c.chunk_size)
Fits c (sliced p) = c.chunk_size < count c p

module _ (c : TextChunker) where
  total-snoc : (ps : List Text) (p : Text) → total c (ps ++ p ∷ []) ≡ total c ps + count c p
  total-snoc [] p = omega arith
  total-snoc (q ∷ ps) p = omega (arith, total-snoc ps p)

  abbrev finish : Packing → List Text
  finish s = if is_empty s.buffer then s.chunks else s.chunks ++ join separator s.buffer ∷ []

  abbrev state : List Text → List Text → ℕ → Packing
  state cs buf n = record { chunks = cs; buffer = buf; buffer_tokens = n }

  -- What packing `paras` from the state adds to its chunks.
  record Packs (cs buf : List Text) (n : ℕ) (paras : List Text) : Type 0 where
    groups : List Group
    rendered : finish (pack_all c (state cs buf n) paras) ≡ cs ++ render c groups
    complete : members groups ≡ buf ++ paras
    fitting : All (Fits c) groups

  pack-sliced_nil :
      (cs : List Text) (p : Text)
      → c.chunk_size < count c p
      → pack c (state cs [] 0) p ≡ state (cs ++ slice_long_text c p) [] 0
  unfolding pack
  pack-sliced_nil cs p h = rw (lt→ltb _ _ h)

  pack-sliced_cons :
      (cs : List Text) (b : Text) (bs : List Text) (n : ℕ) (p : Text)
      → c.chunk_size < count c p
      → pack c (state cs (b ∷ bs) n) p
        ≡ state ((cs ++ join separator (b ∷ bs) ∷ []) ++ slice_long_text c p) [] 0
  unfolding pack
  pack-sliced_cons cs b bs n p h = rw (lt→ltb _ _ h)

  pack-flush :
      (cs buf : List Text) (n : ℕ) (p : Text)
      → count c p ≤ c.chunk_size
      → c.chunk_size < n + count c p
      → pack c (state cs buf n) p ≡ state (cs ++ join separator buf ∷ []) (p ∷ []) (0 + count c p)
  unfolding pack
  pack-flush cs buf n p small full = rw (le→ltb_false _ _ small) (rw (lt→ltb _ _ full))

  pack-extend :
      (cs buf : List Text) (n : ℕ) (p : Text)
      → count c p ≤ c.chunk_size
      → n + count c p ≤ c.chunk_size
      → pack c (state cs buf n) p ≡ state cs (buf ++ p ∷ []) (n + count c p)
  unfolding pack
  pack-extend cs buf n p small fits = rw (le→ltb_false _ _ small) (rw (le→ltb_false _ _ fits))

  Packs-step :
      (s t : Packing) (p : Text) (ps : List Text)
      → pack c s p ≡ t
      → finish (pack_all c s (p ∷ ps)) ≡ finish (pack_all c t ps)
  unfolding pack_all
  Packs-step s t p ps e = ap (λ u. finish (pack_all c u ps)) e

  Packs-done : (cs buf : List Text) (n : ℕ) → total c buf ≤ c.chunk_size → Packs cs buf n []
  unfolding pack_all
  Packs-done cs [] n h = record {
    groups = [];
    rendered = sym (append-nil cs);
    complete = refl;
    fitting = tt;
  }
  Packs-done cs (b ∷ bs) n h = record {
    groups = packed (b ∷ bs) ∷ [];
    rendered = refl;
    complete = refl;
    fitting = ((λ e. cc, h), tt);
  }

  Packs-sliced :
      (cs buf : List Text) (n : ℕ) (p : Text) (ps : List Text)
      → n ≡ total c buf
      → n ≤ c.chunk_size
      → c.chunk_size < count c p
      → ((cs' : List Text) → Packs cs' [] 0 ps)
      → Packs cs buf n (p ∷ ps)
  Packs-sliced cs [] n p ps e h long rest =
      let r = rest (cs ++ slice_long_text c p) in
      record {
        groups = sliced p ∷ r.groups;
        rendered =
            rw e
              (Packs-step _ _ p ps (pack-sliced_nil cs p long) ∙ r.rendered ∙ append_assoc cs _ _);
        complete = ap (λ t. p ∷ t) r.complete;
        fitting = (long, r.fitting);
      }
  Packs-sliced cs (b ∷ bs) n p ps e h long rest =
      let r = rest ((cs ++ join separator (b ∷ bs) ∷ []) ++ slice_long_text c p) in
      record {
        groups = packed (b ∷ bs) ∷ sliced p ∷ r.groups;
        rendered =
            Packs-step _ _ p ps (pack-sliced_cons cs b bs n p long)
            ∙ r.rendered
            ∙ append_assoc (cs ++ join separator (b ∷ bs) ∷ []) _ _
            ∙ append_assoc cs _ _;
        complete = ap (λ t. (b ∷ bs) ++ p ∷ t) r.complete;
        fitting = ((λ x. cc, omega arith), (long, r.fitting));
      }

  Packs-flush :
      (cs buf : List Text) (n : ℕ) (p : Text) (ps : List Text)
      → n ≡ total c buf
      → n ≤ c.chunk_size
      → count c p ≤ c.chunk_size
      → c.chunk_size < n + count c p
      → Packs (cs ++ join separator buf ∷ []) (p ∷ []) (0 + count c p) ps
      → Packs cs buf n (p ∷ ps)
  Packs-flush cs buf n p ps e h small full r = record {
    groups = packed buf ∷ r.groups;
    rendered =
        Packs-step _ _ p ps (pack-flush cs buf n p small full) ∙ r.rendered ∙ append_assoc cs _ _;
    complete = ap (λ t. buf ++ t) r.complete;
    fitting =
        ((λ x. absurd (omega (arith, e, full, small, ap (total c) x)), omega arith), r.fitting);
  }

  Packs-extend :
      (cs buf : List Text) (n : ℕ) (p : Text) (ps : List Text)
      → count c p ≤ c.chunk_size
      → n + count c p ≤ c.chunk_size
      → Packs cs (buf ++ p ∷ []) (n + count c p) ps
      → Packs cs buf n (p ∷ ps)
  Packs-extend cs buf n p ps small fits r = record {
    groups = r.groups;
    rendered = Packs-step _ _ p ps (pack-extend cs buf n p small fits) ∙ r.rendered;
    complete = r.complete ∙ append_assoc buf (p ∷ []) ps;
    fitting = r.fitting;
  }

  Packs-all :
      (cs buf : List Text) (n : ℕ) (paras : List Text)
      → n ≡ total c buf
      → n ≤ c.chunk_size
      → Packs cs buf n paras
  Packs-all cs buf n [] e h = Packs-done cs buf n (omega arith)
  Packs-all cs buf n (p ∷ ps) e h =
      let after = λ (cs' buf' : List Text) (m : ℕ). Packs-all cs' buf' m ps in
      elim (Bool-cases (ltb c.chunk_size (count c p))) [
        | inl long ↦
            Packs-sliced cs buf n p ps e h (ltb→lt _ _ long)
              (λ cs'. after cs' [] 0 refl (omega arith))
        | inr short ↦
            let small = ltb_false→le _ _ short in
            elim (Bool-cases (ltb c.chunk_size (n + count c p))) [
              | inl over ↦ Packs-flush cs buf n p ps e h small (ltb→lt _ _ over) (
                  after (cs ++ join separator buf ∷ []) (p ∷ []) (0 + count c p) (omega arith)
                    (omega (arith, small)))
              | inr under ↦
                  let fits = ltb_false→le _ _ under in
                  Packs-extend cs buf n p ps small fits (
                    after cs (buf ++ p ∷ []) (n + count c p) (omega (arith, total-snoc buf p))
                      (omega (arith, fits)))
            ]
      ]

-- The chunks before the overlap come from groups of the paragraphs: every paragraph stands in
-- exactly one group, in order; a packed group has at least one paragraph and token counts that sum
-- to `chunk_size` at most; and only a paragraph of more than `chunk_size` tokens is sliced.
pub packed_chunks_groups :
    (c : TextChunker) (paras : List Text)
    → (gs : List Group) × (packed_chunks c paras ≡ render c gs)
      × (members gs ≡ paras)
      × All (Fits c) gs
unfolding packed_chunks
packed_chunks_groups c paras =
    let r = Packs-all c [] [] 0 paras refl (omega arith) in
    (r.groups, r.rendered, r.complete, r.fitting)
