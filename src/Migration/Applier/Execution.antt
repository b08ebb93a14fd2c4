-- ===== src/Migration/Applier/Execution.antt =====
-- What it means to make a list of steps, and how the table of migrations counts and records them
-- (migration-engine/connectors/migration-connector/src/migration_applier.rs).
use prisma_engine.Base.{
  ℕ, zero, suc, ◌+◌, ◌-◌, ◌<◌, List, [], ◌∷◌, Outcome, ok, err, panic, ◌≡◌, refl, arith, eq_iff,
}
use prisma_engine.Migration.Persistence.{Migration, MigrationUpdateParams, update, update_row}

-- The meaning of a list of steps: they are made in order until one fails. The number is that of the
-- steps that succeed.
pub record Executed (E Db : Type 0) : Type 0 where
  pub result : Outcome E (Unit {0})
  pub succeeded : ℕ
  pub database : Db

module _ {E S Db : Type 0} (run : S → Db → Outcome E (Unit {0}) × Db) where
  unfoldable pub execute : List S → Db → Executed E Db
  execute [] db = record { result = ok tt; succeeded = 0; database = db }
  execute (s ∷ ss) db =
      let (result, db') = run s db in
      let rest = execute ss db' in
      elim result [
        | ok _ ↦ record rest { succeeded = rest.succeeded + 1 }
        | err e ↦ record { result = err e; succeeded = 0; database = db' }
        | panic ↦ record { result = panic; succeeded = 0; database = db' }
      ]

abbrev pub times {ℓ} : {A : Type ℓ} → ℕ → (A → A) → A → A
times zero f a = a
times (suc n) f a = times n f (f a)

-- How many steps the applier records: the last step of a run that succeeds is not among them.
abbrev pub counted : {E : Type 0} → Outcome E (Unit {0}) → ℕ → ℕ
counted (ok _) n = n - 1
counted (err e) n = n
counted panic n = n

abbrev pub recorded : {E Db : Type 0} → Executed E Db → ℕ
recorded x = counted x.result x.succeeded

pub counted-suc :
    {E : Type 0} (r : Outcome E (Unit {0})) (n : ℕ)
    → (r ≡ ok tt → 0 < n)
    → counted r (n + 1) ≡ suc (counted r n)
counted-suc (ok _) n h = let pos : 0 < n = h refl in omega arith
counted-suc (err e) n h = omega arith
counted-suc panic n h = omega arith

-- A run of at least one step that succeeds has made a step.
pub execute_pos :
    {E S Db : Type 0} (run : S → Db → Outcome E (Unit {0}) × Db) (s : S) (ss : List S) (db : Db)
    → (execute run (s ∷ ss) db).result ≡ ok tt
    → 0 < (execute run (s ∷ ss) db).succeeded
unfolding execute
execute_pos run s ss db h = ground arith

-- Two updates of one row.
pub record SameRow (u v : MigrationUpdateParams) : Type 0 where
  pub name : u.name ≡ v.name
  pub new_name : u.new_name ≡ v.new_name
  pub revision : u.revision ≡ v.revision
  pub kept : u.new_name ≡ u.name

module _ {D J : Type 0} where
  -- The later of two updates of a row stands.
  update_row-update_row :
      (u v : MigrationUpdateParams) (m : Migration D J)
      → SameRow u v
      → update_row v (update_row u m) ≡ update_row v m
  update_row-update_row u v m same =
      ground (arith, eq_iff m.name u.name, eq_iff u.new_name v.name, eq_iff m.name v.name)

  pub update-update :
      (u v : MigrationUpdateParams) (ms : List (Migration D J))
      → SameRow u v
      → update v (update u ms) ≡ update v ms
  unfolding update
  update-update u v [] same = refl
  update-update u v (m ∷ ms) same =
      let head = update_row-update_row u v m same in
      let rest = update-update u v ms same in λ i. head i ∷ rest i
