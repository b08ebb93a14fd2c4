-- ===== src/Migration/Tests/History.antt =====
-- Tests of the migration history
-- (migration-engine/connectors/migration-connector/src/migration_persistence.rs).
use mathlib.Core.List.{Memᴰ}
use prisma_engine.Base.{◌⊎◌, none, List, [], ◌∷◌, ◌≡◌, refl, some, find?, ◌++◌, all, true}
use prisma_engine.Migration.Persistence.{
  Migration, migration_success, migration_failure, pending, last_non_watch_migration,
  last_non_watch_applied_migration, last_non_watch_migration, load_current_watch_migrations, code,
  from_str, is_watch_migration,
}
use prisma_engine.Migration.Persistence.History.{
  last_non_watch_migration-applied, IsLast, IsAppliedNonWatch, Ends, from_str-code,
  last_non_watch_applied_migration-IsLast, load_current_watch_migrations-split,
}
use prisma_engine.Migration.Samples.{migration}

abbrev Record : Type 0
Record = Migration (Unit {0}) (Unit {0})

abbrev first : Record
first = migration "init" 1 migration_success

abbrev history : List Record
history =
    first
    ∷ migration "broken" 2 migration_failure
    ∷ migration "watch-1" 3 migration_success
    ∷ migration "watch-2" 4 pending
    ∷ []

current_watch :
    load_current_watch_migrations history
    ≡ migration "watch-1" 3 migration_success ∷ migration "watch-2" 4 pending ∷ []
unfolding load_current_watch_migrations
current_watch = refl

last_applied : last_non_watch_applied_migration history ≡ some first
unfolding last_non_watch_applied_migration find?
last_applied = refl

from_str-code_example : from_str (code migration_success) ≡ some migration_success
from_str-code_example = from_str-code migration_success

abbrev LastApplied : Type 0
LastApplied =
    ((last_non_watch_applied_migration history ≡ none)
      × ((m : Record) → Memᴰ m history → IsAppliedNonWatch m → ⊥))
    ⊎ ((m : Record) × (last_non_watch_applied_migration history ≡ some m)
        × IsLast IsAppliedNonWatch history m)

last_non_watch_applied_migration-IsLast_example : LastApplied
last_non_watch_applied_migration-IsLast_example = last_non_watch_applied_migration-IsLast history

-- The history is the older migrations and then the current watch migrations.
abbrev Split : Type 0
Split =
    (older : List Record) × (history ≡ older ++ load_current_watch_migrations history)
    × (all is_watch_migration (load_current_watch_migrations history) ≡ true)
    × Ends older

load_current_watch_migrations-split_example : Split
load_current_watch_migrations-split_example = load_current_watch_migrations-split history

abbrev sound_history : List Record
sound_history =
    first ∷ migration "second" 2 migration_success ∷ migration "watch-1" 3 migration_failure ∷ []

last_non_watch_migration-applied_example :
    last_non_watch_migration sound_history ≡ last_non_watch_applied_migration sound_history
unfolding all is_watch_migration
last_non_watch_migration-applied_example = last_non_watch_migration-applied sound_history refl
