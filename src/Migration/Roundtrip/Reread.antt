-- ===== src/Migration/Roundtrip/Reread.antt =====
-- What is kept of a node that the differ turns into steps and the calculator turns back: the names, the
-- types and the arities, and each argument as the text of its value reads. There is no documentation,
-- no default value and no span.
use mathlib.Core.Option
use prisma_engine.Base.{
  Option, none, some, List, map, and_then, String, ◌≡◌, refl, map-eq-some, and_then-eq-some,
}
use prisma_engine.Datamodel.Ast.{Model, Enum, Field, Directive, Argument, new_ident, empty_span}
use prisma_engine.Datamodel.Ast.Render.{ExpressionText}
use prisma_engine.Migration.Calculator.Common.{traverse}

abbrev pub plain_directive : String → List Argument → Directive
plain_directive name arguments = record {
  name = new_ident name;
  arguments = arguments;
  span = empty_span;
}

abbrev pub plain_field : Field → List Directive → Field
plain_field x directives = record {
  field_type = new_ident x.field_type.name;
  name = new_ident x.name.name;
  arity = x.arity;
  default_value = none;
  directives = directives;
  documentation = none;
  span = empty_span;
}

abbrev pub plain_model : Model → List Field → List Directive → Model
plain_model m fields directives = record {
  name = new_ident m.name.name;
  fields = fields;
  directives = directives;
  documentation = none;
  span = empty_span;
}

abbrev pub plain_enum : Enum → List Directive → Enum
plain_enum e directives = record {
  name = new_ident e.name.name;
  values = map (λ name. record { name = name; span = empty_span }) (map (λ v. v.name) e.values);
  directives = directives;
  documentation = none;
  span = empty_span;
}

module _ (text : ExpressionText) where
  unfoldable pub reread_argument : Argument → Option Argument
  reread_argument a =
      Option.map (λ e. record { name = new_ident a.name.name; value = e; span = empty_span })
        (text.parse (text.render a.value))

  unfoldable pub reread_directive : Directive → Option Directive
  unfolding traverse reread_argument
  reread_directive d =
      Option.map (plain_directive d.name.name) (traverse reread_argument d.arguments)

  unfoldable pub reread_field : Field → Option Field
  unfolding traverse reread_directive
  reread_field x = Option.map (plain_field x) (traverse reread_directive x.directives)

  unfoldable pub reread_model : Model → Option Model
  unfolding traverse reread_directive reread_field
  reread_model m =
      and_then (traverse reread_field m.fields)
        (λ fs. Option.map (plain_model m fs) (traverse reread_directive m.directives))

  unfoldable pub reread_enum : Enum → Option Enum
  unfolding traverse reread_directive
  reread_enum e = Option.map (plain_enum e) (traverse reread_directive e.directives)

  pub reread_directive-name :
      (d d' : Directive) → reread_directive d ≡ some d' → d'.name.name ≡ d.name.name
  unfolding reread_directive
  reread_directive-name d d' h = let (args, read, out) = map-eq-some _ _ h in rw out refl

  pub reread_field-name : (x x' : Field) → reread_field x ≡ some x' → x'.name.name ≡ x.name.name
  unfolding reread_field
  reread_field-name x x' h = let (ds, read, out) = map-eq-some _ _ h in rw out refl

  pub reread_model-name : (m m' : Model) → reread_model m ≡ some m' → m'.name.name ≡ m.name.name
  unfolding reread_model
  reread_model-name m m' h =
      let (fs, read, rest) = and_then-eq-some (traverse reread_field m.fields) _ h in
      let (ds, more, out) = map-eq-some _ _ rest in rw out refl

  pub reread_enum-name : (e e' : Enum) → reread_enum e ≡ some e' → e'.name.name ≡ e.name.name
  unfolding reread_enum
  reread_enum-name e e' h = let (ds, read, out) = map-eq-some _ _ h in rw out refl
