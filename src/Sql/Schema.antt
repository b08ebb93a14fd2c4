-- ===== src/Sql/Schema.antt =====
-- What the schema of a database is described as (libs/sql-schema-describer/src/lib.rs), and the lookups
-- of its parts. The set of the values of an enum is a list.
use prisma_engine.Base.{
  ℕ, String, Bool, true, false, ◌&&◌, Option, none, some, List, [], ◌∷◌, ◌==◌, nat_eq, length,
  find?, any, is_some,
}

pub record Sequence : Type 0 where
  pub name : String
  pub initial_value : ℕ
  pub allocation_size : ℕ

pub record Enum : Type 0 where
  pub name : String
  pub values : List String

pub data ForeignKeyAction : Type 0 where
  no_action restrict cascade set_null set_default : ForeignKeyAction

pub record ForeignKey : Type 0 where
  pub constraint_name : Option String
  pub columns : List String
  pub referenced_table : String
  pub referenced_columns : List String
  pub on_delete_action : ForeignKeyAction

pub data ColumnArity : Type 0 where
  required nullable list : ColumnArity

pub data ColumnTypeFamily : Type 0 where
  int float boolean string date_time binary json uuid geometric log_sequence_number text_search
        transaction_id unknown :
      ColumnTypeFamily

pub record ColumnType : Type 0 where
  pub raw : String
  pub family : ColumnTypeFamily

pub record Column : Type 0 where
  pub name : String
  pub tpe : ColumnType
  pub arity : ColumnArity
  pub default : Option String
  pub auto_increment : Bool

pub record PrimaryKey : Type 0 where
  pub columns : List String
  pub sequence : Option Sequence

pub data IndexType : Type 0 where
  unique normal : IndexType

pub record Index : Type 0 where
  pub name : String
  pub columns : List String
  pub tpe : IndexType

pub record Table : Type 0 where
  pub name : String
  pub columns : List Column
  pub indices : List Index
  pub primary_key : Option PrimaryKey
  pub foreign_keys : List ForeignKey

pub record SqlSchema : Type 0 where
  pub tables : List Table
  pub enums : List Enum
  pub sequences : List Sequence

-- The derived equalities compare the places of the constructors.
abbrev pub action_index : ForeignKeyAction → ℕ
action_index no_action = 0
action_index restrict = 1
action_index cascade = 2
action_index set_null = 3
action_index set_default = 4

abbrev pub arity_index : ColumnArity → ℕ
arity_index required = 0
arity_index nullable = 1
arity_index list = 2

abbrev pub family_index : ColumnTypeFamily → ℕ
family_index int = 0
family_index float = 1
family_index boolean = 2
family_index string = 3
family_index date_time = 4
family_index binary = 5
family_index json = 6
family_index uuid = 7
family_index geometric = 8
family_index log_sequence_number = 9
family_index text_search = 10
family_index transaction_id = 11
family_index unknown = 12

abbrev pub index_type_index : IndexType → ℕ
index_type_index unique = 0
index_type_index normal = 1

unfoldable pub names_eq : List String → List String → Bool
names_eq [] [] = true
names_eq [] (y ∷ ys) = false
names_eq (x ∷ xs) [] = false
names_eq (x ∷ xs) (y ∷ ys) = x == y && names_eq xs ys

unfoldable pub get_table : SqlSchema → String → Option Table
get_table schema name = find? (λ t. t.name == name) schema.tables

-- `SqlSchema::table`, whose error is not looked at.
unfoldable pub table : SqlSchema → String → Option Table
table schema name = find? (λ t. t.name == name) schema.tables

unfoldable pub has_table : SqlSchema → String → Bool
has_table schema name = is_some (get_table schema name)

unfoldable pub empty : SqlSchema
empty = record { tables = []; enums = []; sequences = [] }

unfoldable pub column : Table → String → Option Column
column t name = find? (λ c. c.name == name) t.columns

unfoldable pub has_column : Table → String → Bool
has_column t name = is_some (column t name)

unfoldable pub contains : List String → String → Bool
contains names name = any (λ n. n == name) names

unfoldable pub foreign_key_for_column : Table → String → Option ForeignKey
foreign_key_for_column t name = find? (λ fk. contains fk.columns name) t.foreign_keys

unfoldable pub is_part_of_foreign_key : Table → String → Bool
is_part_of_foreign_key t name = is_some (foreign_key_for_column t name)

unfoldable pub is_part_of_primary_key : Table → String → Bool
is_part_of_primary_key t name = elim t.primary_key [
  | some pk ↦ contains pk.columns name
  | none ↦ false
]

unfoldable pub primary_key_columns : Table → List String
primary_key_columns t = elim t.primary_key [ some pk ↦ pk.columns | none ↦ [] ]

unfoldable pub is_single_primary_key : PrimaryKey → String → Bool
is_single_primary_key pk name = nat_eq (length pk.columns) 1 && contains pk.columns name

unfoldable pub is_column_unique : Table → String → Bool
is_column_unique t name =
    any
      (λ index.
        nat_eq (index_type_index index.tpe) 0
        && (nat_eq (length index.columns) 1 && contains index.columns name))
      t.indices
