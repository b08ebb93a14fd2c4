-- ===== src/Migration/Persistence/History.antt =====
-- What the queries of the migration history find
-- (migration-engine/connectors/migration-connector/src/migration_persistence.rs).
use mathlib.Core.List.{Memᴰ, reverse, reverse-append, reverse-cons, reverse-reverse}
use mathlib.Core.List.Memᴰ.{head, tail}
use prisma_engine.Base.{
  starts_with, Option, none, ◌↔◌, arith, ◌||◌, Bool, true, false, not, some, List, [], ◌∷◌, ◌++◌,
  ◌≡◌, ◌⊎◌, inl, inr, refl, sym, ap, ◌∙◌, find?, all, find?-split, all-reverse, Bool-cases,
  append_assoc,
}
use prisma_engine.Migration.Persistence.{
  Migration, MigrationStatus, code, from_str, pending, migration_in_progress, migration_success,
  migration_failure, rolling_back, rollback_success, rollback_failure, is_watch_migration,
  last_non_watch_migration, last_non_watch_applied_migration, is_applied_non_watch, status_eq,
  take_watch, load_current_watch_migrations,
}

-- A status is read back from the text that is stored for it.
pub from_str-code : (s : MigrationStatus) → from_str (code s) ≡ some s
unfolding from_str code
from_str-code pending = refl
from_str-code migration_in_progress = refl
from_str-code migration_success = refl
from_str-code migration_failure = refl
from_str-code rolling_back = refl
from_str-code rollback_success = refl
from_str-code rollback_failure = refl

false-ne-true : false ≡ true → ⊥
false-ne-true h = cc

-- An item that has the property and that no later item does.
pub record IsLast {A : Type 0} (R : A → Type 0) (xs : List A) (x : A) : Type 0 where
  pub before : List A
  pub after : List A
  pub split : xs ≡ before ++ (x ∷ after)
  pub passes : R x
  pub rest : (y : A) → Memᴰ y after → R y → ⊥

module _ {A : Type 0} (p : A → Bool) where
  none_passes : (xs : List A) → all (λ y. not (p y)) xs ≡ true → (y : A) → Memᴰ y xs → p y ≡ false
  unfolding all
  none_passes [] each y m = elim m [ ]
  none_passes (x ∷ xs) each y (head q) = rw q (ground arith)
  none_passes (x ∷ xs) each y (tail m) = none_passes xs (ground arith) y m

  find?-none : (xs : List A) → find? p xs ≡ none → all (λ y. not (p y)) xs ≡ true
  unfolding find? all
  find?-none [] h = refl
  find?-none (x ∷ xs) h = let ih = find?-none xs in ground (arith, ih)

  -- A search from the back finds the last item that passes, and nothing only where none passes.
  find?-reverse :
      (R : A → Type 0)
      → ((x : A) → (p x ≡ true) ↔ R x)
      → (xs : List A) (o : Option A) → find? p (reverse xs) ≡ o
      → ((o ≡ none) × ((y : A) → Memᴰ y xs → R y → ⊥)) ⊎ ((x : A) × (o ≡ some x) × IsLast R xs x)
  find?-reverse R iff xs none h = inl (
    refl,
    λ y m r. absurd (
        false-ne-true (
          sym
            (none_passes xs (sym (all-reverse (λ y. not (p y)) xs) ∙ find?-none (reverse xs) h) y m)
          ∙ (iff y).1 r)),
  )
  find?-reverse R iff xs (some x) h =
      let (after, before, split, passes, fails) = find?-split p (reverse xs) h in
      inr (
        x,
        refl,
        record {
          before = reverse before;
          after = reverse after;
          split =
              sym (reverse-reverse xs)
              ∙ (ap reverse split
                  ∙ (reverse-append after (x ∷ before)
                      ∙ (ap (λ l. l ++ reverse after) (reverse-cons x before)
                          ∙ append_assoc (reverse before) (x ∷ []) (reverse after))));
          passes = (iff x).0 passes;
          rest = λ y m r. false-ne-true (
              sym (none_passes (reverse after) (all-reverse (λ y. not (p y)) after ∙ fails) y m)
              ∙ (iff y).1 r);
        },
      )

status_eq_iff :
    (s : MigrationStatus) → (status_eq s migration_success ≡ true) ↔ (s ≡ migration_success)
status_eq_iff s = (is_success s, λ e. ap (λ t. status_eq t migration_success) e)
  where
    is_success :
        (t : MigrationStatus) → status_eq t migration_success ≡ true → t ≡ migration_success
    is_success migration_success h = refl
    is_success pending h = absurd (false-ne-true h)
    is_success migration_in_progress h = absurd (false-ne-true h)
    is_success migration_failure h = absurd (false-ne-true h)
    is_success rolling_back h = absurd (false-ne-true h)
    is_success rollback_success h = absurd (false-ne-true h)
    is_success rollback_failure h = absurd (false-ne-true h)

module _ {D J : Type 0} where
  -- Its name does not start with the word for watch migrations, and it has succeeded.
  abbrev pub IsAppliedNonWatch : Migration D J → Type 0
  IsAppliedNonWatch m = (starts_with m.name "watch" ≡ false) × (m.status ≡ migration_success)

  is_applied_non_watch_iff :
      (m : Migration D J) → (is_applied_non_watch m ≡ true) ↔ IsAppliedNonWatch m
  unfolding is_watch_migration
  is_applied_non_watch_iff m =
      let s = status_eq_iff m.status in
      ((λ h. (ground arith, s.0 (ground arith))), (λ (w, t). let e = s.1 t in ground arith))

  -- The query gives the last migration of the history whose name does not start with "watch" and whose
  -- status is success, and nothing exactly where the history has none.
  pub last_non_watch_applied_migration-IsLast :
      (history : List (Migration D J))
      → ((last_non_watch_applied_migration history ≡ none)
          × ((m : Migration D J) → Memᴰ m history → IsAppliedNonWatch m → ⊥))
        ⊎ ((m : Migration D J) × (last_non_watch_applied_migration history ≡ some m)
            × IsLast IsAppliedNonWatch history m)
  unfolding last_non_watch_applied_migration
  last_non_watch_applied_migration-IsLast history =
      find?-reverse is_applied_non_watch IsAppliedNonWatch is_applied_non_watch_iff history _ refl

  -- There is no older migration, or the last of them is not a watch migration.
  abbrev pub Ends : List (Migration D J) → Type 0
  Ends older =
      (older ≡ [])
      ⊎ ((xs : List (Migration D J)) × (m : Migration D J) × (older ≡ xs ++ m ∷ [])
          × (is_watch_migration m ≡ false))

  take_watch-split :
      (ms : List (Migration D J))
      → (rest : List (Migration D J)) × (ms ≡ take_watch ms ++ rest)
        × (all is_watch_migration (take_watch ms) ≡ true)
        × Ends (reverse rest)
  unfolding take_watch all
  take_watch-split [] = ([], refl, refl, inl refl)
  take_watch-split (m ∷ ms) =
      let (rest, split, watch, ends) = take_watch-split ms in
      elim (Bool-cases (is_watch_migration m)) [
        | inl e ↦ (rest, rw e (ap (λ l. m ∷ l) split), rw (e, e) watch, ends)
        | inr e ↦ (m ∷ ms, rw e refl, rw e refl, inr (reverse ms, m, reverse-cons m ms, e))
      ]

  -- The current watch migrations are the longest run of watch migrations at the end of the history:
  -- the history is some older migrations and then these, all of these are watch migrations, and the
  -- older ones are none, or end with one that is not.
  pub load_current_watch_migrations-split :
      (history : List (Migration D J))
      → (older : List (Migration D J)) × (history ≡ older ++ load_current_watch_migrations history)
        × (all is_watch_migration (load_current_watch_migrations history) ≡ true)
        × Ends older
  unfolding load_current_watch_migrations
  load_current_watch_migrations-split history =
      let (rest, split, watch, ends) = take_watch-split (reverse history) in
      (
        reverse rest,
        sym (reverse-reverse history)
            ∙ (ap reverse split ∙ reverse-append (take_watch (reverse history)) rest),
        all-reverse is_watch_migration (take_watch (reverse history)) ∙ watch,
        ends,
      )

  find?-all :
      (p q : Migration D J → Bool) (ms : List (Migration D J))
      → ((m : Migration D J) → q m ≡ true → p m ≡ true)
      → all (λ m. not (p m) || q m) ms ≡ true
      → find? p ms ≡ find? q ms
  unfolding find? all
  find?-all p q [] sub h = refl
  find?-all p q (m ∷ ms) sub h =
      let ih = find?-all p q ms sub in let s = sub m in ground (arith, ih, s)

  -- Every migration of the history is a watch migration or has succeeded.
  abbrev pub has_only_successes : List (Migration D J) → Bool
  has_only_successes = all (λ m. not (not (is_watch_migration m)) || is_applied_non_watch m)

  -- If every migration of the history that is not a watch migration has succeeded, the last migration
  -- that is not a watch migration and the last such one that has succeeded are the same.
  pub last_non_watch_migration-applied :
      (history : List (Migration D J))
      → has_only_successes history ≡ true
      → last_non_watch_migration history ≡ last_non_watch_applied_migration history
  unfolding last_non_watch_migration last_non_watch_applied_migration
  last_non_watch_migration-applied history h =
      find?-all (λ m. not (is_watch_migration m)) is_applied_non_watch (reverse history)
        (λ m e. ground arith)
        (all-reverse (λ m. not (not (is_watch_migration m)) || is_applied_non_watch m) history ∙ h)
