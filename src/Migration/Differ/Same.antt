-- ===== src/Migration/Differ/Same.antt =====
-- A list compared with itself, by a test for the same item
-- (migration-engine/core/src/migration/datamodel_differ).
use mathlib.Core.Option
use mathlib.Core.List.{map-append}
use prisma_engine.Base.{
  String, Bool, true, false, some, List, [], ◌∷◌, ◌++◌, ◌==◌, ◌≡◌, refl, sym, ap, ◌∙◌, arith, find?,
  filter, filter_map, flat_map, map, any, all, is_none, is_some, append_assoc, str_refl,
  str_eq_comm,
}
use prisma_engine.Base.{are_new, are_new-cons}
use prisma_engine.Migration.Differ.Pairs.{created, deleted, pairs}

module _ {A : Type 0} (p : A → Bool) where
  is_some-find? :
      (done : List A) (x : A) (rest : List A)
      → p x ≡ true
      → is_some (find? p (done ++ x ∷ rest)) ≡ true
  unfolding find?
  is_some-find? [] x rest hit = rw hit refl
  is_some-find? (y ∷ done) x rest hit = let ih = is_some-find? done x rest hit in ground (arith, ih)

  is_none-find? :
      (done : List A) (x : A) (rest : List A)
      → p x ≡ true
      → is_none (find? p (done ++ x ∷ rest)) ≡ false
  unfolding find?
  is_none-find? [] x rest hit = rw hit refl
  is_none-find? (y ∷ done) x rest hit = let ih = is_none-find? done x rest hit in ground (arith, ih)

module _ {A : Type 0} (eq : A → A → Bool) (eq_self : (x : A) → eq x x ≡ true) where
  all_found :
      (xs done todo : List A)
      → xs ≡ done ++ todo
      → all (λ p. is_some (find? (λ n. eq p n) xs)) todo ≡ true
  unfolding all
  all_found xs done [] split = refl
  all_found xs done (x ∷ todo) split =
      let hit : is_some (find? (λ n. eq x n) xs) ≡ true =
        rw split (is_some-find? (λ n. eq x n) done x todo (eq_self x)) in
      rw hit (all_found xs (done ++ x ∷ []) todo (split ∙ sym (append_assoc done (x ∷ []) todo)))

  none_created :
      (xs done todo : List A)
      → xs ≡ done ++ todo
      → filter (λ n. is_none (find? (λ p. eq p n) xs)) todo ≡ []
  unfolding filter
  none_created xs done [] split = refl
  none_created xs done (x ∷ todo) split =
      let hit : is_none (find? (λ p. eq p x) xs) ≡ false =
        rw split (is_none-find? (λ p. eq p x) done x todo (eq_self x)) in
      rw hit (none_created xs (done ++ x ∷ []) todo (split ∙ sym (append_assoc done (x ∷ []) todo)))

  none_deleted :
      (xs done todo : List A)
      → xs ≡ done ++ todo
      → filter (λ p. is_none (find? (λ n. eq p n) xs)) todo ≡ []
  unfolding filter
  none_deleted xs done [] split = refl
  none_deleted xs done (x ∷ todo) split =
      let hit : is_none (find? (λ n. eq x n) xs) ≡ false =
        rw split (is_none-find? (λ n. eq x n) done x todo (eq_self x)) in
      rw hit (none_deleted xs (done ++ x ∷ []) todo (split ∙ sym (append_assoc done (x ∷ []) todo)))

  -- Every item is found, so that none is new and none is gone.
  pub all-find_self : (xs : List A) → all (λ p. is_some (find? (eq p) xs)) xs ≡ true
  all-find_self xs = all_found xs [] xs refl

  pub created_self : (xs : List A) → created eq xs xs ≡ []
  unfolding created
  created_self xs = none_created xs [] xs refl

  pub deleted_self : (xs : List A) → deleted eq xs xs ≡ []
  unfolding deleted
  deleted_self xs = none_deleted xs [] xs refl

module _ {A : Type 0} (name : A → String) where
  find?-same :
      (done : List A) (x : A) (rest : List A)
      → any (λ t. t == name x) (map name done) ≡ false
      → find? (λ n. name x == name n) (done ++ x ∷ rest) ≡ some x
  unfolding find? any
  find?-same [] x rest h = rw (str_refl (name x)) refl
  find?-same (y ∷ done) x rest h =
      let ih = find?-same done x rest in
      let e = str_eq_comm (name x) (name y) in ground (arith, ih, e)

  pairs_same :
      (xs done todo : List A)
      → xs ≡ done ++ todo
      → are_new (map name done) (map name todo) ≡ true
      → filter_map {B = A × A}
          (λ p. Option.map (λ n. (p, n)) (find? (λ n. name p == name n) xs))
          todo
        ≡ map (λ x. (x, x)) todo
  unfolding filter_map
  pairs_same xs done [] split h = refl
  pairs_same xs done (x ∷ todo) split h =
      let (absent, later) = are_new-cons (map name done) (name x) (map name todo) h in
      let hit : find? (λ n. name x == name n) xs ≡ some x =
        rw split (find?-same done x todo absent) in
      rw (hit, filter_map)
        (ap (λ l. (x, x) ∷ l)
          (pairs_same xs (done ++ x ∷ []) todo (split ∙ sym (append_assoc done (x ∷ []) todo))
            (rw (map-append name done (x ∷ [])) later)))

  -- If no two items have one name, each is paired with itself.
  pub pairs_self :
      (xs : List A)
      → are_new [] (map name xs) ≡ true
      → pairs (λ p n. name p == name n) xs xs ≡ map (λ x. (x, x)) xs
  unfolding pairs
  pairs_self xs h = pairs_same xs [] xs refl h

pub flat_map-map_nil :
    {A B : Type 0} (f : A × A → List B) (good : A → Bool)
    → ((x : A) → good x ≡ true → f (x, x) ≡ [])
    → (xs : List A) → all good xs ≡ true
    → flat_map f (map (λ x. (x, x)) xs) ≡ []
unfolding flat_map all
flat_map-map_nil f good h [] each = refl
flat_map-map_nil f good h (x ∷ xs) each =
    rw (h x (ground arith), flat_map-map_nil f good h xs (ground arith)) refl

pub flat_map-map_none :
    {A B : Type 0} (f : A × A → List B)
    → ((x : A) → f (x, x) ≡ [])
    → (xs : List A) → flat_map f (map (λ x. (x, x)) xs) ≡ []
unfolding flat_map
flat_map-map_none f h [] = refl
flat_map-map_none f h (x ∷ xs) = rw (h x, flat_map-map_none f h xs) refl
