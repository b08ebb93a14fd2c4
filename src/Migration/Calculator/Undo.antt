-- ===== src/Migration/Calculator/Undo.antt =====
-- Deleting what a step has created gives the schema back
-- (migration-engine/core/src/migration/datamodel_calculator.rs).
use prisma_engine.Base.{
  String, none, some, List, [], ◌∷◌, ◌≡◌, refl, ap, inl, inr, arith, ok, ◌==◌, filter,
  filter-append, find?, filter_map, Bool-cases, append-nil, str_refl, ◌>>=◌,
}
use prisma_engine.Datamodel.Ast.{
  SchemaAst, Top, find_model, find_enum, models, enums, as_model, as_enum, model_named, enum_named,
  is_other_model, is_other_enum, push_top,
}
use prisma_engine.Datamodel.Ast.Tops.{find_model-push_model, find_enum-push_enum}
use prisma_engine.Datamodel.Ast.Render.{ExpressionText}
use prisma_engine.Migration.Steps
use prisma_engine.Migration.Steps.{MigrationStep}
use prisma_engine.Migration.Calculator.{apply}
use prisma_engine.Migration.Calculator.{apply_step}
use prisma_engine.Migration.Calculator.Outputs.{create_model_out, create_enum_out}
use prisma_engine.Migration.Calculator.Models.{apply_create_model, apply_delete_model, new_model}
use prisma_engine.Migration.Calculator.Enums.{apply_create_enum, apply_delete_enum, new_enum}

filter-is_other_model :
    (n : String) (ts : List Top)
    → find? (model_named n) (filter_map as_model ts) ≡ none
    → filter (is_other_model n) ts ≡ ts
unfolding find? filter_map filter
filter-is_other_model n [] h = refl
filter-is_other_model n (Top.model x ∷ ts) h = elim (Bool-cases (x.name.name == n)) [
  | inl e ↦ ground arith
  | inr e ↦ rw e (ap (λ l. Top.model x ∷ l) (filter-is_other_model n ts (rw e at h)))
]
filter-is_other_model n (t ∷ ts) h = ap (λ l. t ∷ l) (filter-is_other_model n ts h)

module _ (s : SchemaAst) {s' : SchemaAst} where
  delete-create_model :
      (c : Steps.CreateModel)
      → apply_create_model s c ≡ ok s'
      → apply_delete_model s' (record { model = c.model }) ≡ ok s
  unfolding apply_delete_model find_model models filter
  delete-create_model c h =
      let (absent, out) = create_model_out s c h in
      let found : find_model s' c.model ≡ some (new_model c) =
        rw (← out) (rw (find_model-push_model s (new_model c) c.model absent, str_refl c.model)) in
      let kept : filter (is_other_model c.model) s'.tops ≡ s.tops = rw (
        ← out,
        filter-append,
        filter-is_other_model c.model s.tops absent,
        str_refl c.model,
        append-nil,
      ) in
      rw (found, ◌>>=◌) (ap (λ ts. ok (record { tops = ts })) kept)

filter-is_other_enum :
    (n : String) (ts : List Top)
    → find? (enum_named n) (filter_map as_enum ts) ≡ none
    → filter (is_other_enum n) ts ≡ ts
unfolding find? filter_map filter
filter-is_other_enum n [] h = refl
filter-is_other_enum n (Top.enum x ∷ ts) h = elim (Bool-cases (x.name.name == n)) [
  | inl e ↦ ground arith
  | inr e ↦ rw e (ap (λ l. Top.enum x ∷ l) (filter-is_other_enum n ts (rw e at h)))
]
filter-is_other_enum n (t ∷ ts) h = ap (λ l. t ∷ l) (filter-is_other_enum n ts h)

module _ (s : SchemaAst) {s' : SchemaAst} where
  delete-create_enum :
      (c : Steps.CreateEnum)
      → apply_create_enum s c ≡ ok s'
      → apply_delete_enum s' (record { enum = c.enum }) ≡ ok s
  unfolding apply_delete_enum find_enum enums filter
  delete-create_enum c h =
      let (absent, out) = create_enum_out s c h in
      let found : find_enum s' c.enum ≡ some (new_enum c) =
        rw (← out) (rw (find_enum-push_enum s (new_enum c) c.enum absent, str_refl c.enum)) in
      let kept : filter (is_other_enum c.enum) s'.tops ≡ s.tops = rw (
        ← out,
        filter-append,
        filter-is_other_enum c.enum s.tops absent,
        str_refl c.enum,
        append-nil,
      ) in
      rw (found, ◌>>=◌) (ap (λ ts. ok (record { tops = ts })) kept)

-- A model that a step creates and the next step deletes leaves the schema as it was, if there was no
-- model of that name.
pub apply-create_delete_model :
    (text : ExpressionText) (s : SchemaAst) (name : String)
    → find_model s name ≡ none
    → apply text s (
        MigrationStep.create_model (record { model = name })
        ∷ (MigrationStep.delete_model (record { model = name }) ∷ []))
      ≡ ok s
unfolding apply apply_step apply_create_model
apply-create_delete_model text s name absent =
    let c : Steps.CreateModel = record { model = name } in
    let created : apply_create_model s c ≡ ok (push_top s (Top.model (new_model c))) =
      rw (absent, ◌>>=◌) refl in
    rw (created, ◌>>=◌) (rw (delete-create_model s c created, ◌>>=◌) refl)

-- An enum that a step creates and the next step deletes leaves the schema as it was, if there was no
-- enum of that name.
pub apply-create_delete_enum :
    (text : ExpressionText) (s : SchemaAst) (name : String) (values : List String)
    → find_enum s name ≡ none
    → apply text s (
        MigrationStep.create_enum (record { enum = name; values = values })
        ∷ (MigrationStep.delete_enum (record { enum = name }) ∷ []))
      ≡ ok s
unfolding apply apply_step apply_create_enum
apply-create_delete_enum text s name values absent =
    let c : Steps.CreateEnum = record { enum = name; values = values } in
    let created : apply_create_enum s c ≡ ok (push_top s (Top.enum (new_enum c))) =
      rw (absent, ◌>>=◌) refl in
    rw (created, ◌>>=◌) (rw (delete-create_enum s c created, ◌>>=◌) refl)
