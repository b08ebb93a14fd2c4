-- ===== src/Migration/Applier/Rounds.antt =====
-- One round of the applier's loop, and the step that it makes
-- (migration-engine/connectors/migration-connector/src/migration_applier.rs).
use native.Mathlib.Numerals.{add-one}
use prisma_engine.Base.{
  ℕ, suc, ◌+◌, Bool, true, false, Option, none, some, List, [], ◌∷◌, Outcome, ok, err, panic, ◌≡◌,
  refl, ap, get_elem?, drop, get_elem?-drop, get_elem?-drop_nil, drop-suc,
}
use prisma_engine.Migration.Persistence.{MigrationUpdateParams}
use prisma_engine.Migration.Applier.{World, Run, persist, go, apply_next_step, answer_of}

-- One round of the loop, by what the step answers.
module _ {E D J Db : Type 0} (step_of : ℕ → Db → Outcome E Bool × Db)
    (count : MigrationUpdateParams → MigrationUpdateParams) where
  abbrev pub continued :
      ℕ → ℕ → MigrationUpdateParams → World D J Db → Outcome E Bool → Option (Run E D J Db)
  continued fuel step u w answer = elim answer [
    | ok more ↦ elim more [
      | true ↦ go step_of count fuel (step + 1) (count u) (persist (count u) w)
      | false ↦ some (record { result = ok tt; params = u; world = w })
    ]
    | err e ↦ some (record { result = err e; params = u; world = w })
    | panic ↦ some (record { result = panic; params = u; world = w })
  ]

  pub go_step :
      (fuel step : ℕ) (u : MigrationUpdateParams) (w : World D J Db) {answer : Outcome E Bool}
      {db : Db}
      → step_of step w.database ≡ (answer, db)
      → go step_of count (suc fuel) step u w
        ≡ continued fuel step u (record { migrations = w.migrations; database = db }) answer
  unfolding go
  go_step fuel step u w e =
      ap
        (λ (p : Outcome E Bool × Db).
          continued fuel step u (record { migrations = w.migrations; database = p.1 }) p.0)
        e

abbrev pub answer : {E : Type 0} → Bool → Outcome E (Unit {0}) → Outcome E Bool
answer more (ok _) = ok more
answer more (err e) = err e
answer more panic = panic

abbrev pub is_cons : {A : Type 0} → List A → Bool
is_cons [] = false
is_cons (x ∷ xs) = true

pub next_step_lem :
    {E S Db : Type 0} (run : S → Db → Outcome E (Unit {0}) × Db) (steps : List S) (step : ℕ) {s : S}
    {rest : List S} {db : Db}
    → drop step steps ≡ s ∷ rest
    → apply_next_step run steps step db ≡ (answer (is_cons rest) (run s db).0, (run s db).1)
unfolding apply_next_step
next_step_lem {E = E} {S = S} run steps step {s} {rest} {db} at =
    rw (get_elem?-drop step steps at, apply_next_step) (rw (answers rest at (run s db).0))
  where
    answers :
        (rest : List S)
        → drop step steps ≡ s ∷ rest
        → (r : Outcome E (Unit {0})) → answer_of run steps step r ≡ answer (is_cons rest) r
    answers [] at (ok _) =
        let e : get_elem? steps (step + 1) ≡ none =
          rw add-one (get_elem?-drop_nil (suc step) steps (drop-suc step steps at)) in
        rw e refl
    answers (t ∷ ts) at (ok _) =
        let e : get_elem? steps (step + 1) ≡ some t =
          rw add-one (get_elem?-drop (suc step) steps (drop-suc step steps at)) in
        rw e refl
    answers rest at (err e) = refl
    answers rest at panic = refl
