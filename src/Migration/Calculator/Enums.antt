-- ===== src/Migration/Calculator/Enums.antt =====
-- The steps on enums (migration-engine/core/src/migration/datamodel_calculator.rs).
use prisma_engine.Base.{
  String, none, some, List, [], ◌++◌, ◌==◌, map, find?, filter, is_none, ok, ◌>>=◌, ◌>>◌, ok_or,
  ensure,
}
use prisma_engine.Datamodel.Ast.{
  SchemaAst, Top, Enum, EnumValue, new_ident, empty_span, find_enum, find_enum_mut, push_top,
  is_other_enum,
}
use prisma_engine.Migration.Steps
use prisma_engine.Migration.Calculator.Common.{
  Calculation, enum_already_exists, enum_does_not_exist, apply_update,
}

abbrev pub new_enum_value : String → EnumValue
new_enum_value name = record { name = name; span = empty_span }

abbrev pub new_enum : Steps.CreateEnum → Enum
new_enum step = record {
  name = new_ident step.enum;
  values = map new_enum_value step.values;
  directives = [];
  documentation = none;
  span = empty_span;
}

unfoldable pub apply_create_enum : SchemaAst → Steps.CreateEnum → Calculation
apply_create_enum s step = do
  ensure (is_none (find_enum s step.enum)) (enum_already_exists step.enum)
  ok (push_top s (Top.enum (new_enum step)))

abbrev pub update_enum_name : String → Enum → Enum
update_enum_name new_name e = record e { name = new_ident new_name }

abbrev pub add_enum_values : List String → Enum → Enum
add_enum_values added e = record e { values = e.values ++ map new_enum_value added }

unfoldable pub remove_enum_values : List String → Enum → Enum
remove_enum_values removed e = record e {
  values = filter (λ v. is_none (find? (λ r. r == v.name) removed)) e.values;
}

unfoldable pub update_enum : Steps.UpdateEnum → Enum → Enum
unfolding remove_enum_values
update_enum step e =
    remove_enum_values step.deleted_values
      (add_enum_values step.created_values (apply_update step.new_name update_enum_name e))

unfoldable pub apply_update_enum : SchemaAst → Steps.UpdateEnum → Calculation
apply_update_enum s step =
    ok_or (enum_does_not_exist step.enum)
      (find_enum_mut s step.enum (λ e. some (update_enum step e)))

unfoldable pub apply_delete_enum : SchemaAst → Steps.DeleteEnum → Calculation
apply_delete_enum s step = do
  _ ← ok_or (enum_does_not_exist step.enum) (find_enum s step.enum)
  ok (record { tops = filter (is_other_enum step.enum) s.tops })
