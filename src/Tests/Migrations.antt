-- ===== src/Tests/Migrations.antt =====
-- The revisions on a database in which another program has a table.
use ject6_4th_ai_analyzer.Base.{◌≡◌, refl, true, false, some, [], ◌∷◌, All, codes}
use ject6_4th_ai_analyzer.Migrations.{Schema, apply_all, big_integer}
use ject6_4th_ai_analyzer.Migrations.Revisions.{
  column, id_column, index, upgrade_all, downgrade_all,
}
use ject6_4th_ai_analyzer.Migrations.Models.{classes, has_match}
use ject6_4th_ai_analyzer.Migrations.Steps.{Foreign, head_schema}
use ject6_4th_ai_analyzer.Migrations.Head.{migrations_undone}

abbrev shared_database : Schema
shared_database = record {
  has_vector = false;
  version_width = 32;
  tables =
      record {
        name = codes "diagnosis_quotas";
        columns = id_column ∷ column (codes "user_id") big_integer false ∷ [];
      }
      ∷ [];
  indexes =
      index (codes "ix_quotas_user_id") (codes "diagnosis_quotas") (codes "user_id" ∷ []) ∷ [];
}

shared_database-Foreign : Foreign shared_database
shared_database-Foreign = record {
  no_tables = (refl, (refl, (refl, (refl, (refl, tt)))));
  no_indexes = (
    refl,
    (refl, (refl, (refl, (refl, (refl, (refl, (refl, (refl, (refl, (refl, (refl, tt))))))))))),
  );
  no_references = (refl, (refl, (refl, (refl, (refl, tt)))));
  elsewhere = ((refl, tt), ((refl, tt), ((refl, tt), ((refl, tt), ((refl, tt), tt)))));
}

migrations_undone_example :
    (apply_all upgrade_all shared_database ≡ some (head_schema shared_database))
    × All (λ m. has_match m (head_schema shared_database).tables ≡ true) classes
    × (apply_all downgrade_all (head_schema shared_database)
        ≡ some (record shared_database { has_vector = true; version_width = 64 }))
migrations_undone_example = migrations_undone shared_database shared_database-Foreign
