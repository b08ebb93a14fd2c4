-- ===== src/Migration/Calculator/Fields.antt =====
-- The steps on fields (migration-engine/core/src/migration/datamodel_calculator.rs).
use prisma_engine.Base.{
  String, not, none, some, [], ◌∷◌, ◌++◌, ◌==◌, filter, is_some, is_none, ◌>>=◌, ◌>>◌, ok_or,
  unwrap, ensure,
}
use prisma_engine.Datamodel.Ast.{
  SchemaAst, Model, Field, FieldArity, new_ident, empty_span, find_model, find_field,
  find_model_mut, find_field_mut,
}
use prisma_engine.Migration.Steps
use prisma_engine.Migration.Calculator.Common.{
  Calculation, model_does_not_exist, field_already_exists, field_does_not_exist,
  create_field_on_unknown_model, apply_update,
}

abbrev pub new_field : Steps.CreateField → Field
new_field step = record {
  field_type = new_ident step.tpe;
  name = new_ident step.field;
  arity = step.arity;
  default_value = none;
  directives = [];
  documentation = none;
  span = empty_span;
}

abbrev pub push_field : Field → Model → Model
push_field f m = record m { fields = m.fields ++ f ∷ [] }

unfoldable pub apply_create_field : SchemaAst → Steps.CreateField → Calculation
apply_create_field s step = do
  ensure (is_none (find_field s step.model step.field)) (field_already_exists step.field step.model)
  ok_or (create_field_on_unknown_model step.model)
      (find_model_mut s step.model (λ m. some (push_field (new_field step) m)))

abbrev pub update_field_arity : FieldArity → Field → Field
update_field_arity new_arity f = record f { arity = new_arity }

abbrev pub update_field_type : String → Field → Field
update_field_type new_type f = record f { field_type = new_ident new_type }

abbrev pub update_field_name : String → Field → Field
update_field_name new_name f = record f { name = new_ident new_name }

abbrev pub update_field : Steps.UpdateField → Field → Field
update_field step f =
    apply_update step.new_name update_field_name
      (apply_update step.tpe update_field_type (apply_update step.arity update_field_arity f))

unfoldable pub apply_update_field : SchemaAst → Steps.UpdateField → Calculation
apply_update_field s step = do
  ensure (is_some (find_model s step.model)) (model_does_not_exist step.model)
  ok_or (field_does_not_exist step.field step.model)
      (find_field_mut s step.model step.field (λ f. some (update_field step f)))

unfoldable pub remove_fields : String → Model → Model
remove_fields name m = record m { fields = filter (λ f. not (f.name.name == name)) m.fields }

unfoldable pub apply_delete_field : SchemaAst → Steps.DeleteField → Calculation
apply_delete_field s step = do
  _ ← ok_or (model_does_not_exist step.model) (find_model s step.model)
  _ ← ok_or (field_does_not_exist step.field step.model) (find_field s step.model step.field)
  unwrap (find_model_mut s step.model (λ m. some (remove_fields step.field m)))
