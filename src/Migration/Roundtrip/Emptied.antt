-- ===== src/Migration/Roundtrip/Emptied.antt =====
-- The steps from a schema to the empty one (migration-engine/core/src/migration).
use prisma_engine.Base.{
  String, true, none, some, List, [], ◌∷◌, ◌++◌, ◌==◌, ◌≡◌, refl, ap, ◌∙◌, ok, map, all, are_new,
  filter, filter-all, filter_map, filter_map-filter_all, find?, is_some, str_refl, append-nil,
  flat_map,
}
use prisma_engine.Datamodel.Ast.{
  SchemaAst, Top, Model, Enum, as_model, models, enums, find_model, find_enum, empty,
}
use prisma_engine.Datamodel.Ast.Render.{ExpressionText}
use prisma_engine.Migration.Calculator.{apply}
use prisma_engine.Migration.Differ.{
  diff, push_enums, push_models, push_created_enums, push_created_models, push_deleted_enums,
  push_deleted_models, push_updated_enums, push_updated_models, push_updated_enum,
  push_updated_model,
}
use prisma_engine.Migration.Steps.{MigrationStep}
use prisma_engine.Migration.Differ.Pairs.{created, deleted, pairs}
use prisma_engine.Migration.Differ.Items.{
  created_models, deleted_models, model_pairs, created_enums, deleted_enums, enum_pairs,
}
use prisma_engine.Migration.Differ.Same.{all-find_self}
use prisma_engine.Migration.Roundtrip.Directives.{apply-append}
use prisma_engine.Migration.Roundtrip.Deleted.{without_models, apply-push_deleted_models}
use prisma_engine.Migration.Roundtrip.DeletedEnums.{
  without_enums, apply-push_deleted_enums, is_kept,
}

filter_map-none : {A B : Type 0} (xs : List A) → filter_map {B = B} (λ x. none) xs ≡ []
unfolding filter_map
filter_map-none [] = refl
filter_map-none (x ∷ xs) = filter_map-none xs

is_kept-model :
    (gone : List String) (t : Top) (m : Model) → as_model t ≡ some m → is_kept gone t ≡ true
unfolding all
is_kept-model [] t m h = refl
is_kept-model (g ∷ gone) (Top.model x) m h = is_kept-model gone (Top.model x) m h
is_kept-model (g ∷ gone) (Top.enum x) m h = cc
is_kept-model (g ∷ gone) (Top.source x) m h = cc
is_kept-model (g ∷ gone) (Top.generator x) m h = cc
is_kept-model (g ∷ gone) (Top.type x) m h = cc

models-without_enums :
    (gone : List String) (s : SchemaAst) → models (without_enums gone s) ≡ models s
unfolding models
models-without_enums gone s =
    filter_map-filter_all as_model (is_kept gone) (is_kept-model gone) s.tops

module _ (text : ExpressionText) (p : SchemaAst) where
  diff-to_empty :
      diff text p empty ≡ push_deleted_enums text (enums p) ++ push_deleted_models text (models p)
  unfolding diff push_enums push_models created_enums deleted_enums enum_pairs created_models
      deleted_models model_pairs created deleted pairs enums models filter filter_map find? flat_map
      push_deleted_enums push_deleted_models push_updated_enums push_updated_models
      push_created_enums push_created_models
  diff-to_empty =
      (λ i.
        (push_deleted_enums text (filter-all (enums p) i)
          ++ flat_map (push_updated_enum text) (filter_map-none {B = Enum × Enum} (enums p) i))
        ++ (push_deleted_models text (filter-all (models p) i)
            ++ flat_map (push_updated_model text)
                (filter_map-none {B = Model × Model} (models p) i)))
      ∙ ap (λ (l : List MigrationStep). l ++ (push_deleted_models text (models p) ++ []))
          (append-nil (push_deleted_enums text (enums p)))
      ∙ ap (λ (l : List MigrationStep). push_deleted_enums text (enums p) ++ l)
          (append-nil (push_deleted_models text (models p)))

  -- The steps from a schema to the empty one take out all of its models and enums, and leave every other
  -- node where it is. The names of its models, and those of its enums, must each be different.
  pub apply-diff-to_empty :
      are_new [] (map (λ m. m.name.name) (models p)) ≡ true
      → are_new [] (map (λ e. e.name.name) (enums p)) ≡ true
      → apply text p (diff text p empty)
        ≡ ok (
            without_models
              (map (λ m. m.name.name) (models p))
              (without_enums (map (λ e. e.name.name) (enums p)) p))
  unfolding find_model find_enum
  apply-diff-to_empty model_names enum_names =
      let s = without_enums (map (λ e. e.name.name) (enums p)) p in
      let kept = models-without_enums (map (λ e. e.name.name) (enums p)) p in
      let here : all (λ m. is_some (find_model p m.name.name)) (models p) ≡ true =
        all-find_self (λ a b. b.name.name == a.name.name) (λ a. str_refl a.name.name) (models p) in
      rw diff-to_empty (
        apply-append text p (push_deleted_enums text (enums p))
          (push_deleted_models text (models p))
          (apply-push_deleted_enums text p (enums p) enum_names (
            all-find_self (λ a b. b.name.name == a.name.name) (λ a. str_refl a.name.name)
              (enums p)))
        ∙ apply-push_deleted_models text s (models p) model_names (rw kept here))
