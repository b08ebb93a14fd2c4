-- ===== src/Sql/Names.antt =====
-- Whether a name is among the names of the items of a list that pass a test of their name.
use prisma_engine.Base.{
  String, Bool, ◌&&◌, ◌||◌, none, some, List, [], ◌∷◌, ◌++◌, ◌==◌, ◌≡◌, refl, find?, any, filter,
  filter_map, map, is_some, if◌then◌else◌, arith, eq_iff,
}
use prisma_engine.Sql.Schema.{contains}

module _ {A : Type 0} (name : A → String) where
  pub any-find? :
      (xs : List A) (n : String) → is_some (find? (λ x. name x == n) xs) ≡ any (λ x. name x == n) xs
  unfolding find? any
  any-find? [] n = refl
  any-find? (x ∷ xs) n = let ih = any-find? xs n in ground (arith, ih)

  pub contains-map :
      (xs : List A) (n : String) → contains (map name xs) n ≡ any (λ x. name x == n) xs
  unfolding contains any
  contains-map [] n = refl
  contains-map (x ∷ xs) n = let ih = contains-map xs n in ground (arith, ih)

  -- What is made of the items whose name passes has the name, if the name passes and an item has it.
  pub any-filter_map :
      {B : Type 0} (make : A → B) (named : B → String)
      → ((x : A) → named (make x) ≡ name x)
      → (passes : String → Bool) (xs : List A) (n : String)
      → any
          (λ b. named b == n)
          (filter_map (λ x. if passes (name x) then some (make x) else none) xs)
        ≡ (passes n && any (λ x. name x == n) xs)
  unfolding any filter_map
  any-filter_map make named same passes [] n = ground arith
  any-filter_map make named same passes (x ∷ xs) n =
      let ih = any-filter_map make named same passes xs n in
      let e = same x in ground (arith, ih, e, eq_iff (name x) n)

pub contains-append :
    (xs ys : List String) (n : String) → contains (xs ++ ys) n ≡ (contains xs n || contains ys n)
unfolding contains any
contains-append [] ys n = refl
contains-append (x ∷ xs) ys n = let ih = contains-append xs ys n in ground (arith, ih)

pub contains-filter :
    (keep : String → Bool) (xs : List String) (n : String)
    → contains (filter keep xs) n ≡ (keep n && contains xs n)
unfolding contains any filter
contains-filter keep [] n = ground arith
contains-filter keep (x ∷ xs) n =
    let ih = contains-filter keep xs n in ground (arith, ih, eq_iff x n)
