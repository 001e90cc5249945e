-- ===== src/Migrations/Schema.antt =====
-- The objects of the schema stock_trader, and what an operation of a migration does to them. Alembic
-- and PostgreSQL are not part of the repository; Database states that they do what is written here.
use stock_trader.Prelude.{
  ℕ, Bool, true, false, not, ◌&&◌, ◌||◌, Option, none, some, List, [], ◌∷◌, ◌++◌, String, map,
  filter, contains, str_eq, if◌then◌else◌,
}
use stock_trader.Errors.{Result, ok, raise, database_error, text, ◌>>=◌}

pub data ColumnType : Type 0 where
  uuid jsonb timestamp_tz text_type date bigint : ColumnType
  varchar : ℕ → ColumnType
  numeric : ℕ → ℕ → ColumnType
  enum : String → List String → ColumnType

pub record Column : Type 0 where
  pub name : String
  pub type : ColumnType
  pub nullable : Bool
  pub server_default : Option String

-- A column that refers to a column of a table, `ondelete="CASCADE"`.
pub record ForeignKey : Type 0 where
  pub column : String
  pub referred_table : String
  pub referred_column : String

pub record Index : Type 0 where
  pub name : String
  pub columns : List String

pub record Table : Type 0 where
  pub name : String
  pub columns : List Column
  pub primary_key : List String
  pub foreign_keys : List ForeignKey
  pub unique_constraints : List Index
  pub indexes : List Index

-- The objects of the schema; `filled` says which tables have rows.
pub record Catalog : Type 0 where
  pub has_schema : Bool
  pub types : List String
  pub tables : List (Table × Bool)

-- The calls of `op` that the migrations make.
pub data Operation : Type 0 where
  create_schema_if_not_exists drop_schema_if_exists_cascade : Operation
  create_table : Table → Operation
  drop_table : String → Operation
  create_index : String → Index → Operation
  drop_index : String → String → Operation
  add_column : String → Column → Operation
  drop_column : String → String → Operation
  alter_column : String → String → ColumnType → Operation

abbrev pub refused {ℓ} : {A : Type ℓ} → String → String → Result A
refused what name = raise database_error (text what ∷ text name ∷ [])

abbrev pub names_of : List (Table × Bool) → List String
names_of ts = map (λ (t : Table × Bool). t.0.name) ts

-- Change a table that has to be there.
abbrev pub update_table :
    String
    → (Table × Bool → Result (Table × Bool))
    → List (Table × Bool)
    → Result (List (Table × Bool))
update_table name f [] = refused "undefined table: " name
update_table name f (t ∷ ts) =
    let here = f t >>= λ t'. ok (t' ∷ ts) in
    let later = update_table name f ts >>= λ ts'. ok (t ∷ ts') in
    if str_eq t.0.name name then here else later

-- The types that the columns of a new table create. They must not be there yet.
abbrev pub create_types : List Column → List String → Result (List String)
create_types [] types = ok types
create_types (c ∷ cs) types = elim c.type [
  | enum name labels ↦
      if contains name types
      then refused "duplicate type: " name
      else create_types cs (types ++ name ∷ [])
  | uuid ↦ create_types cs types
  | jsonb ↦ create_types cs types
  | timestamp_tz ↦ create_types cs types
  | text_type ↦ create_types cs types
  | date ↦ create_types cs types
  | bigint ↦ create_types cs types
  | varchar n ↦ create_types cs types
  | numeric p s ↦ create_types cs types
]

-- Foreign keys refer to tables that are there.
abbrev pub all_there : List ForeignKey → List String → Bool
all_there [] names = true
all_there (k ∷ ks) names = contains k.referred_table names && all_there ks names

abbrev pub refers_to : String → List ForeignKey → Bool
refers_to name [] = false
refers_to name (k ∷ ks) = str_eq k.referred_table name || refers_to name ks

abbrev pub is_referred : String → List (Table × Bool) → Bool
is_referred name [] = false
is_referred name (t ∷ ts) =
    let later = is_referred name ts in
    (not (str_eq t.0.name name) && refers_to name t.0.foreign_keys) || later

abbrev pub remove_table : String → List (Table × Bool) → Result (List (Table × Bool))
remove_table name [] = refused "undefined table: " name
remove_table name (t ∷ ts) =
    let later = remove_table name ts >>= λ ts'. ok (t ∷ ts') in
    if str_eq t.0.name name then ok ts else later

abbrev pub has_index : String → List Index → Bool
has_index name [] = false
has_index name (i ∷ is) = str_eq i.name name || has_index name is

abbrev pub has_column : String → List Column → Bool
has_column name [] = false
has_column name (c ∷ cs) = str_eq c.name name || has_column name cs

abbrev pub has_columns : List String → List Column → Bool
has_columns [] cs = true
has_columns (name ∷ names) cs = has_column name cs && has_columns names cs

-- The names of indexes are those of the whole schema.
abbrev pub is_taken : String → List (Table × Bool) → Bool
is_taken name [] = false
is_taken name (t ∷ ts) = has_index name t.0.indexes || is_taken name ts

abbrev pub add_index : Index → Table × Bool → Result (Table × Bool)
add_index i (t, filled) =
    if not (has_columns i.columns t.columns)
    then refused "undefined column of index: " i.name
    else ok (record t { indexes = t.indexes ++ i ∷ [] }, filled)

-- An index is dropped by its name alone.
abbrev pub without_index : String → List (Table × Bool) → List (Table × Bool)
without_index name [] = []
without_index name ((t, filled) ∷ ts) =
    (record t { indexes = filter (λ (i : Index). not (str_eq i.name name)) t.indexes }, filled)
    ∷ without_index name ts

-- A new column without a default is null in the rows that are there.
abbrev pub fills_with_null : Column → Bool
fills_with_null c = elim c.server_default [ none ↦ not c.nullable | some d ↦ false ]

abbrev pub append_column : Column → Table × Bool → Result (Table × Bool)
append_column c (t, filled) =
    if has_column c.name t.columns
    then refused "duplicate column: " c.name
    else if filled && fills_with_null c
    then refused "null value in column: " c.name
    else ok (record t { columns = t.columns ++ c ∷ [] }, filled)

abbrev pub remove_column : String → Table × Bool → Result (Table × Bool)
remove_column name (t, filled) =
    if has_column name t.columns
    then ok
        (record t { columns = filter (λ (c : Column). not (str_eq c.name name)) t.columns }, filled)
    else refused "undefined column: " name

abbrev pub retype_column : String → ColumnType → List Column → List Column
retype_column name type [] = []
retype_column name type (c ∷ cs) =
    let c' = if str_eq c.name name then record c { type = type } else c in
    c' ∷ retype_column name type cs

abbrev pub set_type : String → ColumnType → Table × Bool → Result (Table × Bool)
set_type name type (t, filled) =
    if has_column name t.columns
    then ok (record t { columns = retype_column name type t.columns }, filled)
    else refused "undefined column: " name

abbrev pub with_tables : Catalog → Result (List (Table × Bool)) → Result Catalog
with_tables c r = r >>= λ tables. ok (record c { tables = tables })

abbrev pub add_table : Table → Catalog → Result Catalog
add_table t c =
    if contains t.name (names_of c.tables)
    then refused "duplicate table: " t.name
    else if not (all_there t.foreign_keys (t.name ∷ names_of c.tables))
    then refused "undefined table" t.name
    else (create_types t.columns c.types >>= λ types.
        ok (record c { types = types; tables = c.tables ++ (t, false) ∷ [] }))

-- What an operation does.
unfoldable pub effect : Operation → Catalog → Result Catalog
effect create_schema_if_not_exists c = ok (record c { has_schema = true })
effect drop_schema_if_exists_cascade c = ok (record { has_schema = false; types = []; tables = [] })
effect (create_table t) c =
    if c.has_schema then add_table t c else refused "undefined schema: " "stock_trader"
effect (drop_table name) c =
    if is_referred name c.tables
    then refused "referred table: " name
    else with_tables c (remove_table name c.tables)
effect (create_index name i) c =
    if is_taken i.name c.tables
    then refused "duplicate index: " i.name
    else with_tables c (update_table name (add_index i) c.tables)
effect (drop_index name index) c =
    if is_taken index c.tables
    then ok (record c { tables = without_index index c.tables })
    else refused "undefined index: " index
effect (add_column name col) c = with_tables c (update_table name (append_column col) c.tables)
effect (drop_column name col) c = with_tables c (update_table name (remove_column col) c.tables)
effect (alter_column name col type) c =
    with_tables c (update_table name (set_type col type) c.tables)

unfoldable pub effects : List Operation → Catalog → Result Catalog
effects [] c = ok c
effects (o ∷ os) c = effect o c >>= λ c'. effects os c'
