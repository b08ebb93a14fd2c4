-- ===== src/Migration/Calculator/Models.antt =====
-- The steps on models (migration-engine/core/src/migration/datamodel_calculator.rs).
use prisma_engine.Base.{String, none, some, [], filter, is_none, ok, ◌>>=◌, ◌>>◌, ok_or, ensure}
use prisma_engine.Datamodel.Ast.{
  SchemaAst, Top, Model, new_ident, empty_span, find_model, find_model_mut, push_top,
  is_other_model,
}
use prisma_engine.Migration.Steps
use prisma_engine.Migration.Calculator.Common.{
  Calculation, model_already_exists, model_does_not_exist, apply_update,
}

abbrev pub new_model : Steps.CreateModel → Model
new_model step = record {
  name = new_ident step.model;
  fields = [];
  directives = [];
  documentation = none;
  span = empty_span;
}

unfoldable pub apply_create_model : SchemaAst → Steps.CreateModel → Calculation
apply_create_model s step = do
  ensure (is_none (find_model s step.model)) (model_already_exists step.model)
  ok (push_top s (Top.model (new_model step)))

abbrev pub update_model_name : String → Model → Model
update_model_name new_name m = record m { name = new_ident new_name }

unfoldable pub apply_update_model : SchemaAst → Steps.UpdateModel → Calculation
apply_update_model s step =
    ok_or (model_does_not_exist step.model)
      (find_model_mut s step.model (λ m. some (apply_update step.new_name update_model_name m)))

unfoldable pub apply_delete_model : SchemaAst → Steps.DeleteModel → Calculation
apply_delete_model s step = do
  _ ← ok_or (model_does_not_exist step.model) (find_model s step.model)
  ok (record { tops = filter (is_other_model step.model) s.tops })
