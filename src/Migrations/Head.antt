-- ===== src/Migrations/Head.antt =====
-- alembic/versions: all the way up, and back.
use ject6_4th_ai_analyzer.Base.{
  ◌≡◌, refl, ◌∙◌, ap, true, Option, none, some, List, [], ◌∷◌, ◌++◌, All,
}
use ject6_4th_ai_analyzer.Migrations.{Schema, Operation, apply, apply_all}
use ject6_4th_ai_analyzer.Migrations.Revisions.{
  init_upgrade, tsvector_upgrade, tsvector_downgrade, crawl_upgrade, crawl_downgrade,
  diagnosis_upgrade, diagnosis_downgrade, profile_downgrade, upgrade_all, downgrade_all,
}
use ject6_4th_ai_analyzer.Migrations.Models.{classes, has_match}
use ject6_4th_ai_analyzer.Migrations.Steps.{
  Foreign, head_schema, init_schema, tsvector_schema, crawl_schema, diagnosis_schema, init_up,
  init_down, tsvector_up, tsvector_down, crawl_up, crawl_down, diagnosis_up, diagnosis_down,
  profile_up, profile_down,
}

then_apply :
    (f g : Schema → Option Schema) (r : Option Schema) (t : Schema) (end : Option Schema)
    → ((u : Schema) → f u ≡ some t → g u ≡ end)
    → elim r [ none ↦ none | some u ↦ f u ] ≡ some t
    → elim r [ none ↦ none | some u ↦ g u ] ≡ end
then_apply f g none t end h e = cc
then_apply f g (some u) t end h e = h u e

apply_all-append :
    (os ps : List Operation) (s t : Schema)
    → apply_all os s ≡ some t
    → apply_all (os ++ ps) s ≡ apply_all ps t
unfolding apply_all
apply_all-append [] ps s t e = let same : s ≡ t = cc in ap (apply_all ps) same
apply_all-append (o ∷ os) ps s t e =
    then_apply (apply_all os) (apply_all (os ++ ps)) (apply o s) t (apply_all ps t)
      (λ u q. apply_all-append os ps u t q) e

-- On a database with none of the names of the revisions, whatever else it holds, the upgrades succeed;
-- each class of the models that the program owns then has a table with its columns, their types, null
-- constraints and keys, and no others but generated ones; and the downgrades succeed and leave the
-- database as it was, but for the extension and the wider version number.
pub migrations_undone :
    (s : Schema)
    → Foreign s
    → (apply_all upgrade_all s ≡ some (head_schema s))
      × All (λ m. has_match m (head_schema s).tables ≡ true) classes
      × (apply_all downgrade_all (head_schema s)
          ≡ some (record s { has_vector = true; version_width = 64 }))
unfolding upgrade_all downgrade_all
migrations_undone s f =
    let wide : Foreign (record s { version_width = 64 }) = record {
      no_tables = f.no_tables;
      no_indexes = f.no_indexes;
      no_references = f.no_references;
      elsewhere = f.elsewhere;
    } in
    let w : Schema = record s { version_width = 64 } in
    (
      apply_all-append init_upgrade _ s (init_schema s) (init_up s f)
          ∙ apply_all-append tsvector_upgrade _ (init_schema s) (tsvector_schema s)
              (tsvector_up s f)
          ∙ apply_all-append crawl_upgrade _ (tsvector_schema s) (crawl_schema s) (crawl_up s)
          ∙ apply_all-append diagnosis_upgrade _ (crawl_schema s) (diagnosis_schema s)
              (diagnosis_up s f)
          ∙ profile_up s f,
      (refl, (refl, (refl, (refl, (refl, tt))))),
      apply_all-append profile_downgrade _ (head_schema s) (diagnosis_schema s) (profile_down s f)
          ∙ apply_all-append diagnosis_downgrade _ (diagnosis_schema s) (crawl_schema w)
              (diagnosis_down s f)
          ∙ apply_all-append crawl_downgrade _ (crawl_schema w) (tsvector_schema w)
              (crawl_down w wide)
          ∙ apply_all-append tsvector_downgrade _ (tsvector_schema w) (init_schema w)
              (tsvector_down w wide)
          ∙ init_down w wide,
    )
