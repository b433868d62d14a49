-- ===== src/Base/Sorting.antt =====
-- `ORDER BY` as a stable sort, `DISTINCT ON` as the first row of each run, and `LIMIT` as a prefix.
use Prim.Native.Nat.{ℕ, zero, suc}
use mathlib.Core.Path.{◌≡◌, refl, ap}
use mathlib.Core.Logic.{◌⊎◌, inl, inr}
use mathlib.Core.Bool.{Bool, true, false}
use mathlib.Core.List.{List, [], ◌∷◌}
use ject6_4th_ai_analyzer.Base.Tests.{if◌then◌else◌, Bool-cases}
use ject6_4th_ai_analyzer.Base.Lists.{All, take, length}

behind_head : (P Q S T : Type 0) → ((P ⊎ S) → T) → P ⊎ (Q ⊎ S) → Q ⊎ T
behind_head P Q S T f (inl p) = inr (f (inl p))
behind_head P Q S T f (inr (inl q)) = inl q
behind_head P Q S T f (inr (inr s)) = inr (f (inr s))

module _ {A : Type 0} where
  -- `P` holds of some element.
  abbrev pub Some : (A → Type 0) → List A → Type 0
  Some P [] = ⊥
  Some P (x ∷ xs) = P x ⊎ Some P xs

  -- `R` holds of every element and each later one.
  abbrev pub Pairwise : (A → A → Type 0) → List A → Type 0
  Pairwise R [] = Unit
  Pairwise R (x ∷ xs) = All (R x) xs × Pairwise R xs

  insert_by : (A → A → Bool) → A → List A → List A
  insert_by le x [] = x ∷ []
  insert_by le x (y ∷ ys) = if le x y then x ∷ y ∷ ys else y ∷ insert_by le x ys

  unfoldable pub sort_by : (A → A → Bool) → List A → List A
  unfolding insert_by
  sort_by le [] = []
  sort_by le (x ∷ xs) = insert_by le x (sort_by le xs)

  -- The first of the rows with one key, of rows that stand in the order of their keys.
  unfoldable pub distinct_after : (A → A → Bool) → A → List A → List A
  distinct_after same x [] = []
  distinct_after same x (y ∷ ys) = elim (same x y) [
    | true ↦ distinct_after same x ys
    | false ↦ y ∷ distinct_after same y ys
  ]

  unfoldable pub distinct_on : (A → A → Bool) → List A → List A
  unfolding distinct_after
  distinct_on same [] = []
  distinct_on same (x ∷ xs) = x ∷ distinct_after same x xs

  pub All-mono : (P Q : A → Type 0) (xs : List A) → ((x : A) → P x → Q x) → All P xs → All Q xs
  All-mono P Q [] f h = tt
  All-mono P Q (x ∷ xs) f h = (f x h.0, All-mono P Q xs f h.1)

  pub All-map2 :
      (P Q S : A → Type 0) (xs : List A)
      → ((x : A) → P x → Q x → S x)
      → All P xs
      → All Q xs
      → All S xs
  All-map2 P Q S [] f h k = tt
  All-map2 P Q S (x ∷ xs) f h k = (f x h.0 k.0, All-map2 P Q S xs f h.1 k.1)

  pub All-of : (P : A → Type 0) (xs : List A) → ((x : A) → P x) → All P xs
  All-of P [] f = tt
  All-of P (x ∷ xs) f = (f x, All-of P xs f)

  pub Some-mono : (P Q : A → Type 0) (xs : List A) → ((x : A) → P x → Q x) → Some P xs → Some Q xs
  Some-mono P Q [] f h = elim h [ ]
  Some-mono P Q (x ∷ xs) f (inl p) = inl (f x p)
  Some-mono P Q (x ∷ xs) f (inr p) = inr (Some-mono P Q xs f p)

  -- Both facts of an element that is there.
  pub Some-All : (P Q : A → Type 0) (xs : List A) → All P xs → Some Q xs → Some (λ x. P x × Q x) xs
  Some-All P Q [] h k = elim k [ ]
  Some-All P Q (x ∷ xs) h (inl q) = inl (h.0, q)
  Some-All P Q (x ∷ xs) h (inr q) = inr (Some-All P Q xs h.1 q)

  pub Some-elim : (P : A → Type 0) (T : Type 0) (xs : List A) → ((x : A) → P x → T) → Some P xs → T
  Some-elim P T [] f h = elim h [ ]
  Some-elim P T (x ∷ xs) f (inl p) = f x p
  Some-elim P T (x ∷ xs) f (inr p) = Some-elim P T xs f p

  pub All-swap :
      (R : A → A → Type 0) (xs ys : List A)
      → All (λ x. All (R x) ys) xs
      → All (λ y. All (λ x. R x y) xs) ys
  All-swap R [] ys h = All-of _ ys (λ y. tt)
  All-swap R (x ∷ xs) ys h = All-map2 (R x) _ _ ys (λ y p q. (p, q)) h.0 (All-swap R xs ys h.1)

  pub All-self : (xs : List A) → All (λ x. Some (λ c. c ≡ x) xs) xs
  All-self [] = tt
  All-self (x ∷ xs) = (inl refl, All-mono _ _ xs (λ y p. inr p) (All-self xs))

  -- The sort moves rows and loses none.
  All-insert_by :
      (P : A → Type 0) (le : A → A → Bool) (x : A) (ys : List A)
      → P x
      → All P ys
      → All P (insert_by le x ys)
  unfolding insert_by
  All-insert_by P le x [] p h = (p, tt)
  All-insert_by P le x (y ∷ ys) p h = elim (Bool-cases (le x y)) [
    | inl e ↦ rw e (p, h)
    | inr e ↦ rw e (h.0, All-insert_by P le x ys p h.1)
  ]

  pub All-sort_by :
      (P : A → Type 0) (le : A → A → Bool) (xs : List A) → All P xs → All P (sort_by le xs)
  unfolding sort_by
  All-sort_by P le [] h = tt
  All-sort_by P le (x ∷ xs) h = All-insert_by P le x (sort_by le xs) h.0 (All-sort_by P le xs h.1)

  Some-insert_by :
      (P : A → Type 0) (le : A → A → Bool) (x : A) (ys : List A)
      → P x ⊎ Some P ys
      → Some P (insert_by le x ys)
  unfolding insert_by
  Some-insert_by P le x [] h = h
  Some-insert_by P le x (y ∷ ys) h = elim (Bool-cases (le x y)) [
    | inl e ↦ rw e h
    | inr e ↦ rw e (behind_head (P x) (P y) (Some P ys) _ (Some-insert_by P le x ys) h)
  ]

  All-of_inserted :
      (P : A → Type 0) (le : A → A → Bool) (x : A) (ys : List A)
      → All P (insert_by le x ys)
      → P x × All P ys
  unfolding insert_by
  All-of_inserted P le x [] h = h
  All-of_inserted P le x (y ∷ ys) h = elim (Bool-cases (le x y)) [
    | inl e ↦ rw e at h
    | inr e ↦
        let k : P y × All P (insert_by le x ys) = rw e at h in
        let (p, q) = All-of_inserted P le x ys k.1 in (p, (k.0, q))
  ]

  pub All-of_sorted :
      (P : A → Type 0) (le : A → A → Bool) (xs : List A) → All P (sort_by le xs) → All P xs
  unfolding sort_by
  All-of_sorted P le [] h = tt
  All-of_sorted P le (x ∷ xs) h =
      let (p, q) = All-of_inserted P le x (sort_by le xs) h in (p, All-of_sorted P le xs q)

  pub Some-sort_by :
      (P : A → Type 0) (le : A → A → Bool) (xs : List A) → Some P xs → Some P (sort_by le xs)
  unfolding sort_by
  Some-sort_by P le [] h = elim h [ ]
  Some-sort_by P le (x ∷ xs) (inl p) = Some-insert_by P le x (sort_by le xs) (inl p)
  Some-sort_by P le (x ∷ xs) (inr p) =
      Some-insert_by P le x (sort_by le xs) (inr (Some-sort_by P le xs p))

  module _ (R : A → A → Type 0) (le : A → A → Bool) where
    -- A relation that does not mind the order stays.
    Pairwise-insert_by :
        ((x y : A) → R x y → R y x)
        → (x : A) (ys : List A) → All (R x) ys
        → Pairwise R ys
        → Pairwise R (insert_by le x ys)
    unfolding insert_by
    Pairwise-insert_by turn x [] h k = (tt, tt)
    Pairwise-insert_by turn x (y ∷ ys) h k = elim (Bool-cases (le x y)) [
      | inl e ↦ rw e (h, k)
      | inr e ↦
          rw e
            (All-insert_by (R y) le x ys (turn x y h.0) k.0, Pairwise-insert_by turn x ys h.1 k.1)
    ]

    pub Pairwise-sort_by :
        ((x y : A) → R x y → R y x) → (xs : List A) → Pairwise R xs → Pairwise R (sort_by le xs)
    unfolding sort_by
    Pairwise-sort_by turn [] h = tt
    Pairwise-sort_by turn (x ∷ xs) h =
        Pairwise-insert_by turn x (sort_by le xs) (All-sort_by (R x) le xs h.0)
          (Pairwise-sort_by turn xs h.1)

    -- The sort puts the rows in order.
    module _ (before : (x y : A) → le x y ≡ true → R x y)
        (after : (x y : A) → le x y ≡ false → R y x)
        (trans : (x y z : A) → R x y → R y z → R x z) where
      IsSorted-insert_by : (x : A) (ys : List A) → Pairwise R ys → Pairwise R (insert_by le x ys)
      unfolding insert_by
      IsSorted-insert_by x [] k = (tt, tt)
      IsSorted-insert_by x (y ∷ ys) k = elim (Bool-cases (le x y)) [
        | inl e ↦
            let r = before x y e in
            rw e ((r, All-mono (R y) (R x) ys (λ z q. trans x y z r q) k.0), k)
        | inr e ↦ rw e (All-insert_by (R y) le x ys (after x y e) k.0, IsSorted-insert_by x ys k.1)
      ]

      pub sort_by-IsSorted : (xs : List A) → Pairwise R (sort_by le xs)
      unfolding sort_by
      sort_by-IsSorted [] = tt
      sort_by-IsSorted (x ∷ xs) = IsSorted-insert_by x (sort_by le xs) (sort_by-IsSorted xs)

  -- A prefix.
  pub All-take : (P : A → Type 0) (n : ℕ) (xs : List A) → All P xs → All P (take n xs)
  All-take P zero xs h = tt
  All-take P (suc n) [] h = tt
  All-take P (suc n) (x ∷ xs) h = (h.0, All-take P n xs h.1)

  pub Pairwise-take :
      (R : A → A → Type 0) (n : ℕ) (xs : List A) → Pairwise R xs → Pairwise R (take n xs)
  Pairwise-take R zero xs h = tt
  Pairwise-take R (suc n) [] h = tt
  Pairwise-take R (suc n) (x ∷ xs) h = (All-take (R x) n xs h.0, Pairwise-take R n xs h.1)

  -- An element of an ordered list is in the prefix, or the prefix is full and each of its elements
  -- stands before it.
  pub in_or_after :
      (R : A → A → Type 0) (n : ℕ) (xs : List A)
      → Pairwise R xs
      → All
          (λ c.
            Some (λ r. r ≡ c) (take n xs)
            ⊎ ((length (take n xs) ≡ n) × All (λ r. R r c) (take n xs)))
          xs
  in_or_after R zero xs h = All-of _ xs (λ x. inr (refl, tt))
  in_or_after R (suc n) [] h = tt
  in_or_after R (suc n) (x ∷ xs) h = (
    inl (inl refl),
    All-map2 (R x) _ _ xs
        (λ c r k. elim k [ inl s ↦ inl (inr s) | inr f ↦ inr (ap suc f.0, (r, f.1)) ]) h.0
        (in_or_after R n xs h.1),
  )
