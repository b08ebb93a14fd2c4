-- ===== src/Datamodel/Ast.antt =====
-- The syntax tree of a Prisma schema (libs/datamodel/src/ast): its nodes with the source's fields,
-- and the lookups of `SchemaAst`. A lookup that returns a reference for writing (`find_model_mut`)
-- is a function that takes the change to make at the place that it finds.
pub mod Render
pub mod Lookup
pub mod Tops
use prisma_engine.Base.{
  ℕ, String, Bool, true, not, ◌∷◌, ◌++◌, Option, none, some, List, [], ◌==◌, find?, filter_map,
  modify_first, and_then, passes, changed,
}
use mathlib.Core.Option

-- span.rs, identifier.rs, comment.rs
pub record Span : Type 0 where
  pub start : ℕ
  pub end : ℕ

abbrev pub empty_span : Span
empty_span = record { start = 0; end = 0 }

pub record Identifier : Type 0 where
  pub name : String
  pub span : Span

abbrev pub new_ident : String → Identifier
new_ident name = record { name = name; span = empty_span }

pub record Comment : Type 0 where
  pub text : String

-- expression.rs
mutual
  pub data Expression : Type 0 where
    numeric_value boolean_value string_value any_value constant_value : String → Span → Expression
    function : String → Expressions → Span → Expression
    array : Expressions → Span → Expression

  pub data Expressions : Type 0 where
    nil : Expressions
    cons : Expression → Expressions → Expressions

-- argument.rs, directive.rs
pub record Argument : Type 0 where
  pub name : Identifier
  pub value : Expression
  pub span : Span

pub record Directive : Type 0 where
  pub name : Identifier
  pub arguments : List Argument
  pub span : Span

-- field.rs
pub data FieldArity : Type 0 where
  required optional list : FieldArity

pub record Field : Type 0 where
  pub field_type : Identifier
  pub name : Identifier
  pub arity : FieldArity
  pub default_value : Option Expression
  pub directives : List Directive
  pub documentation : Option Comment
  pub span : Span

-- enum.rs
pub record EnumValue : Type 0 where
  pub name : String
  pub span : Span

pub record Enum : Type 0 where
  pub name : Identifier
  pub values : List EnumValue
  pub directives : List Directive
  pub documentation : Option Comment
  pub span : Span

-- model.rs
pub record Model : Type 0 where
  pub name : Identifier
  pub fields : List Field
  pub directives : List Directive
  pub documentation : Option Comment
  pub span : Span

-- source_config.rs, generator_config.rs
pub record SourceConfig : Type 0 where
  pub name : Identifier
  pub properties : List Argument
  pub documentation : Option Comment
  pub span : Span

pub record GeneratorConfig : Type 0 where
  pub name : Identifier
  pub properties : List Argument
  pub documentation : Option Comment
  pub span : Span

-- top.rs
pub data Top : Type 0 where
  enum : Enum → Top
  model : Model → Top
  source : SourceConfig → Top
  generator : GeneratorConfig → Top
  type : Field → Top

abbrev pub as_model : Top → Option Model
as_model (model m) = some m
as_model _ = none

abbrev pub as_enum : Top → Option Enum
as_enum (enum e) = some e
as_enum _ = none

abbrev pub top_name : Top → String
top_name (enum e) = e.name.name
top_name (model m) = m.name.name
top_name (source s) = s.name.name
top_name (generator g) = g.name.name
top_name (type t) = t.name.name

-- mod.rs
pub record SchemaAst : Type 0 where
  pub tops : List Top

abbrev pub empty : SchemaAst
empty = record { tops = [] }

unfoldable pub models : SchemaAst → List Model
models s = filter_map as_model s.tops

unfoldable pub enums : SchemaAst → List Enum
enums s = filter_map as_enum s.tops

abbrev pub model_named : String → Model → Bool
model_named n m = m.name.name == n

abbrev pub enum_named : String → Enum → Bool
enum_named n e = e.name.name == n

abbrev pub field_named : String → Field → Bool
field_named n f = f.name.name == n

unfoldable pub find_model : SchemaAst → String → Option Model
unfolding models
find_model s n = find? (model_named n) (models s)

unfoldable pub find_enum : SchemaAst → String → Option Enum
unfolding enums
find_enum s n = find? (enum_named n) (enums s)

unfoldable pub find_field : SchemaAst → String → String → Option Field
unfolding find_model
find_field s m f = and_then (find_model s m) (λ found. find? (field_named f) found.fields)

-- The first model of that name is changed, wherever it stands among the tops.
abbrev pub is_model_named : String → Top → Bool
is_model_named n = passes as_model (model_named n)

abbrev pub is_enum_named : String → Top → Bool
is_enum_named n = passes as_enum (enum_named n)

abbrev pub on_model : (Model → Option Model) → Top → Option Top
on_model = changed as_model model

abbrev pub on_enum : (Enum → Option Enum) → Top → Option Top
on_enum = changed as_enum enum

abbrev pub with_tops : Option (List Top) → Option SchemaAst
with_tops = Option.map (λ ts. record { tops = ts })

unfoldable pub find_model_mut : SchemaAst → String → (Model → Option Model) → Option SchemaAst
find_model_mut s n f = with_tops (modify_first (is_model_named n) (on_model f) s.tops)

unfoldable pub find_enum_mut : SchemaAst → String → (Enum → Option Enum) → Option SchemaAst
find_enum_mut s n f = with_tops (modify_first (is_enum_named n) (on_enum f) s.tops)

unfoldable pub find_field_mut :
    SchemaAst → String → String → (Field → Option Field) → Option SchemaAst
unfolding find_model_mut
find_field_mut s m n f = find_model_mut s m λ found.
    Option.map (λ fs. record found { fields = fs }) (modify_first (field_named n) f found.fields)

-- `tops.push(…)`
abbrev pub push_top : SchemaAst → Top → SchemaAst
push_top s top = record { tops = s.tops ++ top ∷ [] }

-- The tests by which the migration engine keeps all but the model or enum of a name.
abbrev pub is_other_model : String → Top → Bool
is_other_model n (Top.model m) = not (m.name.name == n)
is_other_model n _ = true

abbrev pub is_other_enum : String → Top → Bool
is_other_enum n (Top.enum e) = not (e.name.name == n)
is_other_enum n _ = true
