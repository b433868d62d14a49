-- ===== src/Service/BlogDiagnosis/Range.antt =====
-- app/service/blog_diagnosis_service.py: the range of the aggregated scores.
use ject6_4th_ai_analyzer.Base.{
  ◌≤◌, ◌≡◌, refl, subst, true, false, inl, inr, Option, none, some, Text, codes, Bool-cases, arith,
}
use ject6_4th_ai_analyzer.Base.Int.{ℤ, pos, negsuc, pos_part, neg_part, ◌+ℤ◌}
use ject6_4th_ai_analyzer.Domain.Json.{Json, Fields, null, boolean, number, string, array, object}
use ject6_4th_ai_analyzer.Core.Effects.{Result, ok, err}
use ject6_4th_ai_analyzer.Service.BlogDiagnosis.Metrics.{
  Ratios, Aggregated, get_set_field, is_truthy, count_value, smaller_int, larger_int, times_fifteen,
  per_post, interaction_score_of, image_score_of, view_score_of, aggregated, with_image_and_view,
  aggregate_metrics,
}
use ject6_4th_ai_analyzer.Service.ConversationPrompt.{get_or}

-- From 0 to 100.
abbrev pub InRange : Option ℤ → Type 0
InRange none = Unit
InRange (some n) = (neg_part n ≡ 0) × (pos_part n ≤ 100)

abbrev pub ScoresInRange : Aggregated → Type 0
ScoresInRange a = InRange a.interaction_score × InRange a.image_score × InRange a.view_score

abbrev pub IsCount : Json → Type 0
IsCount (number n) = neg_part n ≡ 0
IsCount _ = Unit

abbrev pub IsCountIfSet : Option Json → Type 0
IsCountIfSet none = Unit
IsCountIfSet (some v) = IsCount v

-- The numbers that the crawler counted.
abbrev pub HasCounts : Fields → Type 0
HasCounts meta =
    IsCountIfSet (get_set_field (codes "like_count") meta)
    × IsCountIfSet (get_set_field (codes "comment_count") meta)
    × IsCountIfSet (get_set_field (codes "image_count") meta)
    × IsCountIfSet (get_set_field (codes "view_count") meta)

abbrev pub KeepsSign : (ℤ → ℤ → Result ℤ) → Type 0
KeepsSign ratio = (a n s : ℤ) → neg_part a ≡ 0 → neg_part n ≡ 0 → ratio a n ≡ ok s → neg_part s ≡ 0

min-InRange : (n : ℤ) → neg_part n ≡ 0 → InRange (some (smaller_int (pos 100) n))
min-InRange (pos n) h = ground arith
min-InRange (negsuc n) h = absurd (omega arith)

max_one : (n : ℤ) → neg_part (larger_int (pos 1) n) ≡ 0
max_one (pos n) = ground arith
max_one (negsuc n) = ground arith

-- `P` holds of a value that is returned.
abbrev Post : {A : Type 0} → (A → Type 0) → Result A → Type 0
Post P (ok a) = P a
Post P (err e) = Unit

module _ {A : Type 0} (P : A → Type 0) where
  Post-of : (r : Result A) → ((a : A) → r ≡ ok a → P a) → Post P r
  Post-of (ok a) f = f a refl
  Post-of (err e) f = tt

  Post_ok : (r : Result A) (a : A) → Post P r → r ≡ ok a → P a
  Post_ok r a h e = subst (Post P) e h

  Post-bind :
      {B : Type 0} (Q : B → Type 0) (r : Result A) (f : A → Result B)
      → Post P r
      → ((a : A) → P a → Post Q (f a))
      → Post Q (elim r [ err e ↦ err e | ok a ↦ f a ])
  Post-bind Q (ok a) f h k = k a h
  Post-bind Q (err e) f h k = tt

any_value : {A : Type 0} (r : Result A) → Post (λ _. Unit) r
any_value r = Post-of _ r (λ a e. tt)

count_value-Post : (v : Json) → IsCount v → Post (λ n. neg_part n ≡ 0) (count_value v)
unfolding count_value
count_value-Post (number m) h = h
count_value-Post (boolean true) h = refl
count_value-Post (boolean false) h = refl
count_value-Post null h = tt
count_value-Post (string _) h = tt
count_value-Post (array _) h = tt
count_value-Post (object _) h = tt

per_post-InRange :
    (ratio : ℤ → ℤ → Result ℤ) (total : ℤ) (p : Json)
    → KeepsSign ratio
    → neg_part total ≡ 0
    → Post InRange (per_post ratio total p)
unfolding per_post
per_post-InRange ratio total p keeps h =
    Post-bind (λ _. Unit) InRange (count_value p) _ (any_value (count_value p))
      λ n _.
        Post-bind (λ s. neg_part s ≡ 0) InRange (ratio total (larger_int (pos 1) n)) _
          (Post-of _ (ratio total (larger_int (pos 1) n)) λ s e. keeps total _ s h (max_one n) e)
          λ s. min-InRange s

add-sign : (a b : ℤ) → neg_part a ≡ 0 → neg_part b ≡ 0 → neg_part (a +ℤ b) ≡ 0
unfolding ◌+ℤ◌
add-sign a b h k = ground arith

times_fifteen-sign : (n : ℤ) → neg_part n ≡ 0 → neg_part (times_fifteen n) ≡ 0
times_fifteen-sign n h = ground arith

module _ (ratios : Ratios) where
  interaction_score_of-InRange :
      (likes comments : Option Json) (p : Json)
      → KeepsSign ratios.times_ten
      → IsCountIfSet likes
      → IsCountIfSet comments
      → Post InRange (interaction_score_of ratios likes comments p)
  unfolding interaction_score_of
  interaction_score_of-InRange none c p keeps h k = tt
  interaction_score_of-InRange (some l) none p keeps h k = tt
  interaction_score_of-InRange (some l) (some c) p keeps h k =
      Post-bind _ InRange (count_value l) _ (count_value-Post l h) λ a sa.
        Post-bind _ InRange (count_value c) _ (count_value-Post c k)
          λ b sb. per_post-InRange ratios.times_ten (a +ℤ b) p keeps (add-sign a b sa sb)

  image_score_of-InRange :
      (images thumbnail : Option Json)
      → IsCountIfSet images
      → Post (λ (s : Option ℤ × Text). InRange s.0) (image_score_of images thumbnail)
  unfolding image_score_of
  image_score_of-InRange none none h = tt
  image_score_of-InRange none (some t) h = elim (Bool-cases (is_truthy t)) [
    | inl e ↦ rw e (refl, omega arith)
    | inr e ↦ rw e tt
  ]
  image_score_of-InRange (some v) t h =
      Post-bind _ _ (count_value v) _ (count_value-Post v h)
        λ n sn. min-InRange (times_fifteen n) (times_fifteen-sign n sn)

  view_score_of-InRange :
      (views : Option Json) (p : Json)
      → KeepsSign ratios.by_ten
      → IsCountIfSet views
      → Post (λ (s : Option ℤ × Text). InRange s.0) (view_score_of ratios views p)
  unfolding view_score_of
  view_score_of-InRange none p keeps h = tt
  view_score_of-InRange (some v) p keeps h =
      Post-bind _ _ (count_value v) _ (count_value-Post v h) λ n sn.
        Post-bind InRange _ (per_post ratios.by_ten n p) _
          (per_post-InRange ratios.by_ten n p keeps sn) λ s r. r

  with_view-InRange :
      (meta analysis : Fields) (interaction : Option ℤ) (image : Option ℤ × Text)
      → KeepsSign ratios.by_ten
      → HasCounts meta
      → InRange interaction
      → InRange image.0
      → Post ScoresInRange
          (elim (view_score_of ratios
            (get_set_field (codes "view_count") meta)
            (get_or (codes "post_count") (number (pos 1)) meta)) [
              | err e ↦ err e
              | ok view ↦ ok (aggregated interaction image analysis view)
            ])
  with_view-InRange meta analysis interaction image keeps h r r' =
      Post-bind (λ (s : Option ℤ × Text). InRange s.0) ScoresInRange (view_score_of ratios _ _)
        (λ view. ok (aggregated interaction image analysis view))
        (view_score_of-InRange (get_set_field (codes "view_count") meta) _ keeps h.3)
        λ view r''. (r, r', r'')

  with_image_and_view-InRange :
      (meta analysis : Fields) (interaction : Option ℤ)
      → KeepsSign ratios.by_ten
      → HasCounts meta
      → InRange interaction
      → Post ScoresInRange (with_image_and_view ratios meta analysis interaction)
  unfolding with_image_and_view
  with_image_and_view-InRange meta analysis interaction keeps h r =
      Post-bind (λ (s : Option ℤ × Text). InRange s.0) ScoresInRange
        (image_score_of (get_set_field (codes "image_count") meta)
          (get_set_field (codes "thumbnail_image_url") meta))
        _ (image_score_of-InRange (get_set_field (codes "image_count") meta) _ h.2)
        λ image r'. with_view-InRange meta analysis interaction image keeps h r r'

  -- Where the counts of the metadata are not negative, each aggregated score that there is lies between
  -- 0 and 100, whatever the quotients of floats round to, as long as they keep the sign of what is
  -- not negative.
  pub aggregate_metrics-InRange :
      (meta analysis : Fields) (a : Aggregated)
      → KeepsSign ratios.times_ten
      → KeepsSign ratios.by_ten
      → HasCounts meta
      → aggregate_metrics ratios meta analysis ≡ ok a
      → ScoresInRange a
  unfolding aggregate_metrics
  aggregate_metrics-InRange meta analysis a keeps keeps' h e =
      Post_ok ScoresInRange (aggregate_metrics ratios meta analysis) a
        (Post-bind InRange ScoresInRange
          (interaction_score_of ratios (get_set_field (codes "like_count") meta)
            (get_set_field (codes "comment_count") meta)
            (get_or (codes "post_count") (number (pos 1)) meta))
          (with_image_and_view ratios meta analysis)
          (interaction_score_of-InRange (get_set_field (codes "like_count") meta)
            (get_set_field (codes "comment_count") meta) _ keeps h.0 h.1)
          λ interaction r. with_image_and_view-InRange meta analysis interaction keeps' h r)
        e
