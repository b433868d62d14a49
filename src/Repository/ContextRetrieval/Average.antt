-- ===== src/Repository/ContextRetrieval/Average.antt =====
-- app/repository/context_retrieval_repository.py: the average of a document's vectors, which the driver
-- hands over as a list, as the text of a vector, or as another sequence.
use mathlib.Core.List.{reverse, reverse-append, reverse-reverse}
use ject6_4th_ai_analyzer.Base.{
  ℕ, ◌≡◌, refl, sym, ap, ◌∙◌, Bool, false, ◌||◌, Option, none, some, List, [], ◌∷◌, ◌++◌, map,
  append-nil, append_assoc, Text, codes, eqb, join, split, split_from, starts_with, All, All-append,
  All-reverse, if◌then◌else◌,
}
use ject6_4th_ai_analyzer.Domain.Schemas.{Float64, Embedding}
use ject6_4th_ai_analyzer.Core.Exceptions.{builtin, value_error}
use ject6_4th_ai_analyzer.Core.Effects.{Result, ok, err}

-- The value of the one row's column.
pub data Average : Type 0 where
  null_average : Average
  list_average : Embedding → Average
  text_average : Text → Average
  other_average : Embedding → Average

abbrev pub is_bracket : ℕ → Bool
is_bracket c = eqb c b'[' || eqb c b']'

drop_brackets : Text → Text
drop_brackets [] = []
drop_brackets (c ∷ s) = let rest = drop_brackets s in if is_bracket c then rest else c ∷ s

-- `emb.strip("[]")`
strip_brackets : Text → Text
unfolding drop_brackets
strip_brackets s = reverse (drop_brackets (reverse (drop_brackets s)))

module _ (float_of : Text → Option Float64) where
  -- `[float(x) for x in parts]`, where `float` is a parameter; `none` is its `ValueError`.
  floats : List Text → Result Embedding
  floats [] = ok []
  floats (t ∷ ts) = elim (float_of t) [
    | none ↦ err (builtin value_error (codes "could not convert string to float"))
    | some x ↦ elim (floats ts) [ err e ↦ err e | ok xs ↦ ok (x ∷ xs) ]
  ]

  unfoldable pub get_document_avg_embedding : Option Average → Result (Option Embedding)
  unfolding floats strip_brackets
  get_document_avg_embedding none = ok none
  get_document_avg_embedding (some null_average) = ok none
  get_document_avg_embedding (some (list_average emb)) = ok (some emb)
  get_document_avg_embedding (some (other_average emb)) = ok (some emb)
  get_document_avg_embedding (some (text_average t)) =
      elim (floats (split (codes ",") (strip_brackets t))) [ err e ↦ err e | ok xs ↦ ok (some xs) ]

-- A character that neither the brackets nor the separator are.
abbrev pub IsPlain : ℕ → Type 0
IsPlain c = (is_bracket c ≡ false) × (eqb b',' c ≡ false)

reverse_step : (c : ℕ) (piece p : Text) → reverse (c ∷ piece) ++ p ≡ reverse piece ++ (c ∷ p)
reverse_step c piece p =
    rw (reverse-append (c ∷ []) piece) (append_assoc (reverse piece) (c ∷ []) p)

split-last :
    (piece p : Text) → All IsPlain p → split_from (codes ",") 0 piece p ≡ (reverse piece ++ p) ∷ []
unfolding split_from starts_with
split-last piece [] h = ap (λ t. t ∷ []) (sym (append-nil _))
split-last piece (c ∷ p) h =
    rw (h.0.1) (split-last (c ∷ piece) p h.1 ∙ ap (λ t. t ∷ []) (reverse_step c piece p))

split-next :
    (piece p rest : Text)
    → All IsPlain p
    → split_from (codes ",") 0 piece (p ++ b',' ∷ rest)
      ≡ (reverse piece ++ p) ∷ split_from (codes ",") 0 [] rest
unfolding split_from starts_with
split-next piece [] rest h = ap (λ t. t ∷ split_from (codes ",") 0 [] rest) (sym (append-nil _))
split-next piece (c ∷ p) rest h = rw (h.0.1) (
    split-next (c ∷ piece) p rest h.1
    ∙ ap (λ t. t ∷ split_from (codes ",") 0 [] rest) (reverse_step c piece p))

split-join :
    (p : Text) (ps : List Text)
    → All IsPlain p
    → All (All IsPlain) ps
    → split (codes ",") (join (codes ",") (p ∷ ps)) ≡ p ∷ ps
unfolding split join
split-join p [] h hs = split-last [] p h
split-join p (q ∷ ps) h hs =
    ap (split_from (codes ",") 0 []) (append_assoc p (codes ",") (join (codes ",") (q ∷ ps)))
    ∙ split-next [] p (join (codes ",") (q ∷ ps)) h
    ∙ ap (λ t. p ∷ t) (split-join q ps hs.0 hs.1)

drop_brackets-plain : (s : Text) → All (λ c. is_bracket c ≡ false) s → drop_brackets s ≡ s
unfolding drop_brackets
drop_brackets-plain [] h = refl
drop_brackets-plain (c ∷ s) h = rw (h.0)

strip_brackets-around :
    (s : Text)
    → All (λ c. is_bracket c ≡ false) s
    → strip_brackets (codes "[" ++ s ++ codes "]") ≡ s
unfolding strip_brackets drop_brackets
strip_brackets-around [] h = refl
strip_brackets-around (c ∷ s) h =
    rw
      (
        h.0,
        reverse-append (c ∷ s) (codes "]"),
        drop_brackets-plain (reverse (c ∷ s)) (All-reverse _ (c ∷ s) h),
      )
      (reverse-reverse (c ∷ s))

no_brackets : (p : Text) → All IsPlain p → All (λ c. is_bracket c ≡ false) p
no_brackets [] h = tt
no_brackets (c ∷ p) h = (h.0.0, no_brackets p h.1)

All-join :
    (ps : List Text) → All (All IsPlain) ps → All (λ c. is_bracket c ≡ false) (join (codes ",") ps)
unfolding join
All-join [] h = tt
All-join (p ∷ []) h = no_brackets p h.0
All-join (p ∷ q ∷ ps) h =
    All-append _ (p ++ codes ",") (join (codes ",") (q ∷ ps))
      (All-append _ p (codes ",") (no_brackets p h.0) (refl, tt)) (All-join (q ∷ ps) h.1)

floats-map :
    (float_of : Text → Option Float64) (show : Float64 → Text)
    → ((x : Float64) → float_of (show x) ≡ some x)
    → (xs : Embedding) → floats float_of (map show xs) ≡ ok xs
unfolding floats
floats-map float_of show back [] = refl
floats-map float_of show back (x ∷ xs) = rw (back x, floats-map float_of show back xs)

All-IsPlain :
    (show : Float64 → Text)
    → ((x : Float64) → All IsPlain (show x))
    → (xs : Embedding) → All (All IsPlain) (map show xs)
All-IsPlain show plain [] = tt
All-IsPlain show plain (x ∷ xs) = (plain x, All-IsPlain show plain xs)

-- The text of a vector, `[x,y,…]`, is read as the floats that it shows, for any way to show a float
-- that `float` reads back and that writes neither a bracket nor a comma. A missing row and a NULL
-- are both none.
pub get_document_avg_embedding-text :
    (float_of : Text → Option Float64) (show : Float64 → Text)
    → ((x : Float64) → float_of (show x) ≡ some x)
    → ((x : Float64) → All IsPlain (show x))
    → (x : Float64) (xs : Embedding)
    → (get_document_avg_embedding float_of
          (some (text_average (codes "[" ++ join (codes ",") (map show (x ∷ xs)) ++ codes "]")))
        ≡ ok (some (x ∷ xs)))
      × (get_document_avg_embedding float_of (some null_average) ≡ ok none)
      × (get_document_avg_embedding float_of none ≡ ok none)
unfolding get_document_avg_embedding split join
get_document_avg_embedding-text float_of show back plain x xs = (
  rw (
    strip_brackets-around _ (All-join (map show (x ∷ xs)) (All-IsPlain show plain (x ∷ xs))),
    split-join (show x) (map show xs) (plain x) (All-IsPlain show plain xs),
    floats-map float_of show back (x ∷ xs),
  ),
  refl,
  refl,
)
