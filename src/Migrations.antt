-- ===== src/Migrations.antt =====
-- alembic/versions: the schema of the database, the operations of a revision on it as PostgreSQL takes
-- them, and the revisions in Migrations/Revisions.

pub mod Revisions
pub mod Steps
pub mod Models
pub mod Head
use ject6_4th_ai_analyzer.Base.{
  ℕ, Bool, true, false, not, ◌&&◌, ◌||◌, Option, none, some, List, [], ◌∷◌, ◌++◌, Text, ◌==◌,
  text_eq, if◌then◌else◌,
}

pub data SqlType : Type 0 where
  big_integer integer sql_text json timestamp tsvector : SqlType
  string : ℕ → SqlType
  vector : ℕ → SqlType

-- `references` is the table of a foreign key, with what deletion does.
pub record Column : Type 0 where
  pub name : Text
  pub sql_type : SqlType
  pub nullable : Bool
  pub is_primary : Bool
  pub references : Option (Text × Text)
  pub server_default : Option Text
  pub generated : Option Text

pub record Table : Type 0 where
  pub name : Text
  pub columns : List Column

-- An index, or the one of a unique constraint.
pub record Index : Type 0 where
  pub name : Text
  pub table : Text
  pub columns : List Text
  pub is_unique : Bool

pub record Schema : Type 0 where
  pub has_vector : Bool
  pub version_width : ℕ
  pub tables : List Table
  pub indexes : List Index

pub data Operation : Type 0 where
  create_extension : Operation
  widen_version : ℕ → Operation
  create_table : Table → Operation
  drop_table : Text → Operation
  add_column : Text → Column → Operation
  drop_column : Text → Text → Operation
  drop_default : Text → Text → Operation
  create_index : Index → Operation
  -- `DROP INDEX`, `DROP CONSTRAINT`; `true` for `IF EXISTS`
  drop_index : Text → Bool → Operation

abbrev pub has_table : Text → List Table → Bool
has_table t [] = false
has_table t (x ∷ xs) = (x.name == t) || has_table t xs

abbrev pub has_index : Text → List Index → Bool
has_index n [] = false
has_index n (i ∷ is) = (i.name == n) || has_index n is

abbrev pub has_column : Text → List Column → Bool
has_column c [] = false
has_column c (x ∷ xs) = (x.name == c) || has_column c xs

abbrev pub is_among : Text → List Text → Bool
is_among t [] = false
is_among t (x ∷ xs) = (x == t) || is_among t xs

abbrev pub refers_to : Text → List Column → Bool
refers_to t [] = false
refers_to t (c ∷ cs) = elim c.references [
  | none ↦ refers_to t cs
  | some r ↦ (r.0 == t) || refers_to t cs
]

-- A table other than this one has a foreign key to it.
abbrev pub is_referenced : Text → List Table → Bool
is_referenced t [] = false
is_referenced t (x ∷ xs) = (not (x.name == t) && refers_to t x.columns) || is_referenced t xs

-- The tables that the foreign keys of a new table need.
abbrev pub targets_exist : List Column → List Table → Bool
targets_exist [] ts = true
targets_exist (c ∷ cs) ts = elim c.references [
  | none ↦ targets_exist cs ts
  | some r ↦ has_table r.0 ts && targets_exist cs ts
]

abbrev pub all_columns : List Text → List Column → Bool
all_columns [] cs = true
all_columns (n ∷ ns) cs = has_column n cs && all_columns ns cs

-- The table of an index has its columns.
abbrev pub has_columns : Text → List Text → List Table → Bool
has_columns t ns [] = false
has_columns t ns (x ∷ xs) = if x.name == t then all_columns ns x.columns else has_columns t ns xs

abbrev pub is_vector : SqlType → Bool
is_vector (vector n) = true
is_vector _ = false

-- A column of a type that comes with the extension.
abbrev pub needs_vector : List Column → Bool
needs_vector [] = false
needs_vector (c ∷ cs) = is_vector c.sql_type || needs_vector cs

abbrev pub without_table : Text → List Table → List Table
without_table t [] = []
without_table t (x ∷ xs) = if x.name == t then xs else x ∷ without_table t xs

abbrev pub without_index : Text → List Index → List Index
without_index n [] = []
without_index n (i ∷ is) = if i.name == n then is else i ∷ without_index n is

abbrev pub without_column : Text → List Column → List Column
without_column c [] = []
without_column c (x ∷ xs) = if x.name == c then xs else x ∷ without_column c xs

-- The indexes left when a table goes, and when a column goes.
abbrev pub not_on : Text → List Index → List Index
not_on t [] = []
not_on t (i ∷ is) = if i.table == t then not_on t is else i ∷ not_on t is

abbrev pub not_using : Text → Text → List Index → List Index
not_using t c [] = []
not_using t c (i ∷ is) =
    if i.table == t && is_among c i.columns then not_using t c is else i ∷ not_using t c is

abbrev pub undefaulted : Text → List Column → List Column
undefaulted c [] = []
undefaulted c (x ∷ xs) =
    if x.name == c then record x { server_default = none } ∷ xs else x ∷ undefaulted c xs

-- The columns of one table changed, where they can be.
abbrev pub changed : Text → (List Column → Option (List Column)) → List Table → Option (List Table)
changed t f [] = none
changed t f (x ∷ xs) =
    if x.name == t
    then elim (f x.columns) [ none ↦ none | some cs ↦ some (record x { columns = cs } ∷ xs) ]
    else elim (changed t f xs) [ none ↦ none | some ys ↦ some (x ∷ ys) ]

abbrev pub with_tables : Schema → Option (List Table) → Option Schema
with_tables s none = none
with_tables s (some ts) = some (record s { tables = ts })

unfoldable pub apply : Operation → Schema → Option Schema
apply create_extension s = some (record s { has_vector = true })
apply (widen_version n) s = some (record s { version_width = n })
apply (create_table t) s =
    if has_table t.name s.tables
      || not (targets_exist t.columns s.tables)
      || (needs_vector t.columns && not s.has_vector)
    then none
    else some (record s { tables = t ∷ s.tables })
apply (drop_table t) s =
    if has_table t s.tables && not (is_referenced t s.tables)
    then some (record s { tables = without_table t s.tables; indexes = not_on t s.indexes })
    else none
apply (add_column t c) s =
    with_tables s
      (changed t (λ cs. if has_column c.name cs then none else some (cs ++ (c ∷ []))) s.tables)
apply (drop_column t c) s =
    with_tables (record s { indexes = not_using t c s.indexes })
      (changed t (λ cs. if has_column c cs then some (without_column c cs) else none) s.tables)
apply (drop_default t c) s =
    with_tables s
      (changed t (λ cs. if has_column c cs then some (undefaulted c cs) else none) s.tables)
apply (create_index i) s =
    if has_index i.name s.indexes || not (has_columns i.table i.columns s.tables)
    then none
    else some (record s { indexes = i ∷ s.indexes })
apply (drop_index n if_exists) s =
    if has_index n s.indexes
    then some (record s { indexes = without_index n s.indexes })
    else if if_exists
    then some s
    else none

unfoldable pub apply_all : List Operation → Schema → Option Schema
unfolding apply
apply_all [] s = some s
apply_all (o ∷ os) s = elim (apply o s) [ none ↦ none | some t ↦ apply_all os t ]
