-- ===== src/Migration/Commands/Calculated.antt =====
-- How the commands that apply steps to the empty datamodel agree
-- (migration-engine/core/src/commands/calculate_datamodel.rs, calculate_database_steps.rs beside it).
use prisma_engine.Base.{
  >>=-eq-ok, String, Option, ◌++◌, ◌≡◌, refl, ap, ◌∙◌, Outcome, ok, err, panic, ◌>>=◌, unwrap,
  map_err,
}
use prisma_engine.Datamodel.Ast.{SchemaAst, empty}
use prisma_engine.Migration.Calculator
use prisma_engine.Migration.Applier.{World}
use prisma_engine.Migration.Commands.{
  CommandError, Engine, MigrationStepsResultOutput, from_errors, from_connector, from_calculator,
}
use prisma_engine.Migration.Commands.Calculate.{
  CalculateDatabaseStepsInput, calculate_datamodel_execute, calculate_database_steps_execute,
  database_steps_between, steps_output,
}
use prisma_engine.Migration.Steps.{MigrationStep}
use prisma_engine.Migration.Roundtrip.Directives.{apply-append}
use prisma_engine.Base.{List}

map_err-eq-ok :
    {A E F : Type 0} (f : E → F) (o : Outcome E A) {a : A} → map_err f o ≡ ok a → o ≡ ok a
map_err-eq-ok f (ok b) same = cc
map_err-eq-ok f (err e) same = cc
map_err-eq-ok f panic same = cc

ok-injective : {E A : Type 0} {a b : A} → ◌≡◌ {A = Outcome E A} (ok a) (ok b) → a ≡ b
ok-injective {a = a} same = ap (λ o. elim o [ ok x ↦ x | err e ↦ a | panic ↦ a ]) same

-- Where a chain of results is ok, the last of them is.
last_is_ok :
    {E B C X Y Z : Type 0} (o : Outcome E B) (g : B → Outcome E C) (h : B → Outcome E X)
    (r : Outcome E Y) (make : C → X → Y → Z) {z : Z}
    → o >>= (λ b. g b >>= λ c. h b >>= λ x. r >>= λ y. ok (make c x y)) ≡ ok z
    → (y : Y) × (r ≡ ok y) × (c : C) × (x : X) × (make c x y ≡ z)
last_is_ok o g h r make same =
    let (b, _, h2) = >>=-eq-ok o (λ b. g b >>= λ c. h b >>= λ x. r >>= λ y. ok (make c x y)) same in
    let (c, _, h3) = >>=-eq-ok (g b) (λ c. h b >>= λ x. r >>= λ y. ok (make c x y)) h2 in
    let (x, _, h4) = >>=-eq-ok (h b) (λ x. r >>= λ y. ok (make c x y)) h3 in
    let (y, e, h5) = >>=-eq-ok r (λ y. ok (make c x y)) h4 in (y, e, c, x, ok-injective h5)

module _ {E D J T Db : Type 0} (engine : Engine E D J T Db)
    (render_schema_ast : SchemaAst → Option String) where
  database_steps_between-datamodel :
      (steps : List MigrationStep) (assumed : D) (next_ast : SchemaAst) (w : World D J Db)
      (output : MigrationStepsResultOutput J)
      → database_steps_between engine render_schema_ast steps assumed next_ast w ≡ ok output
      → unwrap {E = CommandError} (render_schema_ast next_ast) ≡ ok output.datamodel
  unfolding database_steps_between
  database_steps_between-datamodel steps assumed next_ast w output h =
      let (next, _, h1) =
        >>=-eq-ok (from_errors engine (engine.lift_ast next_ast))
          (λ next. from_connector engine (engine.infer assumed next steps w.database) >>= λ t.
            from_connector engine (engine.check t w.database) >>= λ d.
            from_connector engine (engine.render_steps_pretty t) >>= λ js.
            unwrap (render_schema_ast next_ast) >>= λ rendered.
            ok (steps_output engine steps d js rendered))
          h in
      let (rendered, e, d, js, same) =
        last_is_ok (from_connector engine (engine.infer assumed next steps w.database))
          (λ t. from_connector engine (engine.check t w.database))
          (λ t. from_connector engine (engine.render_steps_pretty t))
          (unwrap (render_schema_ast next_ast)) (steps_output engine steps) h1 in
      e ∙ ap (λ (o : MigrationStepsResultOutput J). ok o.datamodel) same

  -- If CalculateDatabaseSteps gives a result, then CalculateDatamodel on the steps that are assumed to
  -- be applied followed by the steps to apply succeeds, with the datamodel of that result.
  pub calculate_datamodel_execute-calculate_database_steps_execute :
      (input : CalculateDatabaseStepsInput) (w : World D J Db)
      (output : MigrationStepsResultOutput J)
      → calculate_database_steps_execute engine render_schema_ast input w ≡ ok output
      → calculate_datamodel_execute engine render_schema_ast
          (record { steps = input.assume_to_be_applied ++ input.steps_to_apply })
        ≡ ok (record { datamodel = output.datamodel })
  unfolding calculate_datamodel_execute calculate_database_steps_execute
  calculate_datamodel_execute-calculate_database_steps_execute input w output h =
      let (assumed_ast, assumed_lem, h1) =
        >>=-eq-ok
          (from_calculator engine (Calculator.apply engine.text empty input.assume_to_be_applied))
          (λ ast. from_errors engine (engine.lift_ast ast) >>= λ assumed.
            from_calculator engine (Calculator.apply engine.text ast input.steps_to_apply)
            >>= λ next_ast.
                database_steps_between engine render_schema_ast input.steps_to_apply assumed
                  next_ast w)
          h in
      let (assumed, _, h2) =
        >>=-eq-ok (from_errors engine (engine.lift_ast assumed_ast))
          (λ assumed.
            from_calculator engine (Calculator.apply engine.text assumed_ast input.steps_to_apply)
            >>= λ next_ast.
                database_steps_between engine render_schema_ast input.steps_to_apply assumed
                  next_ast w)
          h1 in
      let (next_ast, next_lem, h3) =
        >>=-eq-ok
          (from_calculator engine (Calculator.apply engine.text assumed_ast input.steps_to_apply))
          (λ next_ast.
            database_steps_between engine render_schema_ast input.steps_to_apply assumed next_ast w)
          h2 in
      let all_lem =
        apply-append engine.text empty input.assume_to_be_applied input.steps_to_apply (
          map_err-eq-ok _ (Calculator.apply engine.text empty input.assume_to_be_applied)
            assumed_lem)
        ∙ map_err-eq-ok _ (Calculator.apply engine.text assumed_ast input.steps_to_apply)
            next_lem in
      rw
        (
          all_lem,
          database_steps_between-datamodel input.steps_to_apply assumed next_ast w output h3,
        )
        refl
