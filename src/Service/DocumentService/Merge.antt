-- ===== src/Service/DocumentService/Merge.antt =====
-- The loop that puts cached and new embeddings together, against a plain description of it.
use ject6_4th_ai_analyzer.Base.{
  ℕ, suc, ◌+◌, ◌≡◌, refl, ap, Option, none, some, List, [], ◌∷◌, ◌++◌, map, append_assoc, Text,
  arith, length, get_elem?, length-append,
}
use ject6_4th_ai_analyzer.Domain.Schemas.{Embedding}
use ject6_4th_ai_analyzer.Core.Effects.{ok, Env}
use ject6_4th_ai_analyzer.Repository.EmbeddingCache.{sort_replies}
use ject6_4th_ai_analyzer.Service.DocumentService.{next_miss, merge, texts_at, present}

-- The positions with no embedding, counted from `i`.
abbrev pub positions : ℕ → List (Option Embedding) → List ℕ
positions i [] = []
positions i (none ∷ cached) = i ∷ positions (i + 1) cached
positions i (some _ ∷ cached) = positions (i + 1) cached

-- Each gap takes the next new embedding.
abbrev pub fill : List (Option Embedding) → List Embedding → List Embedding
fill [] new = []
fill (some emb ∷ cached) new = emb ∷ fill cached new
fill (none ∷ cached) [] = []
fill (none ∷ cached) (emb ∷ new) = emb ∷ fill cached new

pub next_miss_total :
    (is : List ℕ) (new : List Embedding)
    → length new ≡ length is
    → (next : Option (ℕ × Embedding)) × (is' : List ℕ) × (es' : List Embedding) × (next_miss is new
        ≡ ok (next, is', es'))
unfolding next_miss
next_miss_total [] [] h = (none, [], [], refl)
next_miss_total [] (e ∷ new) h = absurd (omega arith)
next_miss_total (i ∷ is) [] h = absurd (omega arith)
next_miss_total (i ∷ is) (e ∷ new) h = (some (i, e), is, new, refl)

pub merge-fill :
    (i : ℕ) (cached : List (Option Embedding)) (new : List Embedding)
    (next : Option (ℕ × Embedding)) (is : List ℕ) (es : List Embedding)
    → length new ≡ length (positions i cached)
    → next_miss (positions i cached) new ≡ ok (next, is, es)
    → merge i cached next is es ≡ ok (fill cached new)
unfolding merge next_miss
merge-fill i [] new next is es h e = refl
merge-fill i (some emb ∷ cached) new next is es h e =
    ground (arith, merge-fill (i + 1) cached new next is es h e)
merge-fill i (none ∷ cached) [] next is es h e = absurd (omega arith)
merge-fill i (none ∷ cached) (emb ∷ new) next is es h e =
    let (next', is', es', q) = next_miss_total (positions (i + 1) cached) new (omega arith) in
    ground (arith, q, merge-fill (i + 1) cached new next' is' es' (omega arith) q)

module _ (f : Text → Embedding) where
  -- The replies of a cache that holds nothing but the texts' own embeddings.
  abbrev pub Matches : (Text → Option Embedding) → List (Option Text) → List Text → Type 0
  Matches loads [] [] = Unit
  Matches loads (none ∷ raw) (t ∷ ts) = Matches loads raw ts
  Matches loads (some v ∷ raw) (t ∷ ts) = (loads v ≡ some (f t)) × Matches loads raw ts
  Matches loads _ _ = ⊥

  abbrev pub known : List (Option Text) → List Text → List (Option Embedding)
  known [] ts = []
  known (_ ∷ raw) [] = []
  known (none ∷ raw) (t ∷ ts) = none ∷ known raw ts
  known (some _ ∷ raw) (t ∷ ts) = some (f t) ∷ known raw ts

  abbrev pub missing : List (Option Text) → List Text → List Text
  missing [] ts = []
  missing (_ ∷ raw) [] = []
  missing (none ∷ raw) (t ∷ ts) = t ∷ missing raw ts
  missing (some _ ∷ raw) (t ∷ ts) = missing raw ts

  pub sort_replies-known :
      (env : Env) (model : Text) (i : ℕ) (raw : List (Option Text)) (ts : List Text)
      → Matches env.embedding_loads raw ts
      → sort_replies env model i raw ≡ ok (known raw ts, positions i (known raw ts))
  unfolding sort_replies
  sort_replies-known env model i [] [] m = refl
  sort_replies-known env model i [] (t ∷ ts) m = elim m [ ]
  sort_replies-known env model i (none ∷ raw) [] m = elim m [ ]
  sort_replies-known env model i (some v ∷ raw) [] m = elim m [ ]
  sort_replies-known env model i (none ∷ raw) (t ∷ ts) m =
      ground (arith, sort_replies-known env model (i + 1) raw ts m)
  sort_replies-known env model i (some v ∷ raw) (t ∷ ts) m =
      ground (arith, sort_replies-known env model (i + 1) raw ts m.1)

  get_elem?-middle :
      (pre : List Text) (t : Text) (ts : List Text)
      → get_elem? (pre ++ t ∷ ts) (length pre) ≡ some t
  get_elem?-middle [] t ts = refl
  get_elem?-middle (p ∷ pre) t ts = get_elem?-middle pre t ts

  pub texts_at-missing :
      (pre : List Text) (n : ℕ) (raw : List (Option Text)) (ts : List Text)
      → n ≡ length pre
      → texts_at (pre ++ ts) (positions n (known raw ts)) ≡ missing raw ts
  unfolding texts_at
  texts_at-missing pre n [] ts e = refl
  texts_at-missing pre n (none ∷ raw) [] e = refl
  texts_at-missing pre n (some v ∷ raw) [] e = refl
  texts_at-missing pre n (none ∷ raw) (t ∷ ts) e =
      let here : get_elem? (pre ++ t ∷ ts) n ≡ some t = rw e (get_elem?-middle pre t ts) in
      let rest : texts_at (pre ++ t ∷ ts) (positions (n + 1) (known raw ts)) ≡ missing raw ts =
        rw (← append_assoc pre (t ∷ []) ts) (
          texts_at-missing (pre ++ t ∷ []) (n + 1) raw ts
            (omega (arith, length-append pre (t ∷ [])))) in
      rw (here, texts_at) (ap (λ r. t ∷ r) rest)
  texts_at-missing pre n (some v ∷ raw) (t ∷ ts) e =
      rw (← append_assoc pre (t ∷ []) ts) (
        texts_at-missing (pre ++ t ∷ []) (n + 1) raw ts (omega (arith, length-append pre (t ∷ []))))

  pub fill-known :
      (loads : Text → Option Embedding) (raw : List (Option Text)) (ts : List Text)
      → Matches loads raw ts
      → fill (known raw ts) (map f (missing raw ts)) ≡ map f ts
  fill-known loads [] [] m = refl
  fill-known loads [] (t ∷ ts) m = elim m [ ]
  fill-known loads (none ∷ raw) [] m = elim m [ ]
  fill-known loads (some v ∷ raw) [] m = elim m [ ]
  fill-known loads (none ∷ raw) (t ∷ ts) m = ap (λ r. f t ∷ r) (fill-known loads raw ts m)
  fill-known loads (some v ∷ raw) (t ∷ ts) m = ap (λ r. f t ∷ r) (fill-known loads raw ts m.1)

  pub present-known :
      (loads : Text → Option Embedding) (n : ℕ) (raw : List (Option Text)) (ts : List Text)
      → Matches loads raw ts
      → positions n (known raw ts) ≡ []
      → present (known raw ts) ≡ map f ts
  unfolding present
  present-known loads n [] [] m e = refl
  present-known loads n [] (t ∷ ts) m e = elim m [ ]
  present-known loads n (none ∷ raw) [] m e = elim m [ ]
  present-known loads n (some v ∷ raw) [] m e = elim m [ ]
  present-known loads n (none ∷ raw) (t ∷ ts) m e = cc
  present-known loads n (some v ∷ raw) (t ∷ ts) m e =
      ap (λ r. f t ∷ r) (present-known loads (n + 1) raw ts m.1 e)

  pub length-missing :
      (n : ℕ) (raw : List (Option Text)) (ts : List Text)
      → length (missing raw ts) ≡ length (positions n (known raw ts))
  length-missing n [] ts = refl
  length-missing n (none ∷ raw) [] = refl
  length-missing n (some v ∷ raw) [] = refl
  length-missing n (none ∷ raw) (t ∷ ts) = ap suc (length-missing (n + 1) raw ts)
  length-missing n (some v ∷ raw) (t ∷ ts) = length-missing (n + 1) raw ts
