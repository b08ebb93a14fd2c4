-- ===== src/Datamodel/Ast/Render.antt =====
-- Printing an expression (libs/datamodel/src/ast/renderer/mod.rs, render_value and the functions that
-- it calls), and what is assumed of reading one back, which the generated parser does.
use Prim.Native.String.{◌++◌}
use prisma_engine.Base.{String, Option, none, some, and_then, ◌≡◌}
use prisma_engine.Datamodel.Ast.{
  Expression, Expressions, numeric_value, boolean_value, string_value, any_value, constant_value,
  function, array, nil, cons,
}
use mathlib.Core.Option

-- `none` is the panic of `unimplemented!` at a value of type `Any`. The first element of a list is
-- written with nothing before it, each later one behind ", ".
unfoldable mutual
  pub render_value : Expression → Option String
  render_value (numeric_value v s) = some v
  render_value (boolean_value v s) = some v
  render_value (string_value v s) = some ("\"" ++ (v ++ "\""))
  render_value (any_value v s) = none
  render_value (constant_value v s) = some v
  render_value (function name args s) =
      Option.map (λ inner. name ++ ("(" ++ (inner ++ ")"))) (render_items "" args)
  render_value (array vals s) = Option.map (λ inner. "[" ++ (inner ++ "]")) (render_items "" vals)

  pub render_items : String → Expressions → Option String
  render_items separator nil = some ""
  render_items separator (cons v vs) =
      let rest = render_items ", " vs in
      and_then (render_value v) (λ first. Option.map (λ r. separator ++ (first ++ r)) rest)

-- `Expression::render_to_string` and `str::parse`, as the migration engine uses them. Where
-- `render_value` panics, `render` may be any text. The parser is generated from a grammar.
pub record ExpressionText : Type 0 where
  pub render : Expression → String
  pub parse : String → Option Expression
  pub renders : (e : Expression) (s : String) → render_value e ≡ some s → render e ≡ s
