-- ===== src/Migrations/Settled.antt =====
-- Which operations the catalog settles. Where it does not, PostgreSQL may refuse an operation for a
-- reason that the catalog does not show, or that no migration of the repository meets.
use stock_trader.Prelude.{
  Bool, true, false, not, ◌&&◌, ◌||◌, List, [], ◌∷◌, String, contains, str_eq,
}
use stock_trader.Migrations.Schema.{
  ColumnType, text_type, varchar, enum, Column, ForeignKey, Index, Table, Catalog, Operation,
  create_schema_if_not_exists, drop_schema_if_exists_cascade, create_table, drop_table,
  create_index, drop_index, add_column, drop_column, alter_column, names_of, has_column,
  has_columns, is_taken, has_index,
}

abbrev is_text : ColumnType → Bool
is_text text_type = true
is_text (varchar n) = true
is_text _ = false

abbrev is_enum : ColumnType → Bool
is_enum (enum name labels) = true
is_enum _ = false

-- A table that has rows may have values that a new type does not take, and only texts are known to
-- convert into each other.
abbrev has_text : String → List Column → Bool
has_text name [] = false
has_text name (c ∷ cs) = (str_eq c.name name && is_text c.type) || has_text name cs

abbrev has_empty_text : String → String → List (Table × Bool) → Bool
has_empty_text name col [] = false
has_empty_text name col ((t, filled) ∷ ts) =
    (str_eq t.name name && not filled && has_text col t.columns) || has_empty_text name col ts

abbrev distinct_columns : List Column → Bool
distinct_columns [] = true
distinct_columns (c ∷ cs) = not (has_column c.name cs) && distinct_columns cs

-- Tables, indexes and unique constraints have their names in common.
abbrev has_constraint : String → List (Table × Bool) → Bool
has_constraint name [] = false
has_constraint name (t ∷ ts) = has_index name t.0.unique_constraints || has_constraint name ts

abbrev is_free : String → List (Table × Bool) → Bool
is_free name ts =
    not (contains name (names_of ts)) && not (is_taken name ts) && not (has_constraint name ts)

abbrev all_free : List Index → Table → List (Table × Bool) → Bool
all_free [] t ts = true
all_free (i ∷ is) t ts =
    is_free i.name ts
    && not (str_eq i.name t.name)
    && not (has_index i.name is)
    && has_columns i.columns t.columns
    && all_free is t ts

abbrev is_only : String → List String → Bool
is_only name (k ∷ []) = str_eq k name
is_only name _ = false

-- A foreign key refers to the primary key of another table.
abbrev is_keyed : ForeignKey → List (Table × Bool) → Bool
is_keyed k [] = false
is_keyed k (t ∷ ts) =
    (str_eq t.0.name k.referred_table && is_only k.referred_column t.0.primary_key) || is_keyed k ts

abbrev all_keyed : List ForeignKey → Table → List (Table × Bool) → Bool
all_keyed [] t ts = true
all_keyed (k ∷ ks) t ts = is_keyed k ts && has_column k.column t.columns && all_keyed ks t ts

-- A column that a key, a constraint or an index stands on.
abbrev is_used : String → String → List (Table × Bool) → Bool
is_used name col [] = false
is_used name col (t ∷ ts) = (str_eq t.0.name name && on_column t.0) || is_used name col ts
  where
    any_index : List Index → Bool
    any_index [] = false
    any_index (i ∷ is) = contains col i.columns || any_index is

    any_key : List ForeignKey → Bool
    any_key [] = false
    any_key (k ∷ ks) = str_eq k.column col || any_key ks

    on_column : Table → Bool
    on_column t =
        contains col t.primary_key
        || any_key t.foreign_keys
        || any_index t.unique_constraints
        || any_index t.indexes

abbrev pub is_settled : Operation → Catalog → Bool
is_settled create_schema_if_not_exists c = true
is_settled drop_schema_if_exists_cascade c = true
is_settled (create_table t) c =
    is_free t.name c.tables
    && distinct_columns t.columns
    && has_columns t.primary_key t.columns
    && all_free t.unique_constraints t c.tables
    && all_keyed t.foreign_keys t c.tables
is_settled (drop_table name) c = true
is_settled (create_index name i) c = is_free i.name c.tables
is_settled (drop_index name index) c = true
is_settled (add_column name col) c = not (is_enum col.type)
is_settled (drop_column name col) c = not (is_used name col c.tables)
is_settled (alter_column name col type) c = is_text type && has_empty_text name col c.tables
