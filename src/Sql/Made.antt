-- ===== src/Sql/Made.antt =====
-- Tests that all elements pass of a list that is made by a filter or a map.
use mathlib.Core.Option
use prisma_engine.Base.{
  map, arith, Bool, true, Option, none, some, List, [], ◌∷◌, ◌≡◌, refl, all, filter_map, flat_map,
  if◌then◌else◌, arith, Option-cases, inl, inr, all-append,
}
use mathlib.Core.Option.{some-injective}
use prisma_engine.Sql.Unchanged.{All}

-- A step is made of an item of a list, and what is true of each item is true of what it makes.
pub all-filter_map :
    {A B : Type 0} (f : A → Option B) (q : B → Bool) (xs : List A)
    → All (λ x. (y : B) → f x ≡ some y → q y ≡ true) xs
    → all q (filter_map f xs) ≡ true
unfolding all filter_map
all-filter_map f q [] h = refl
all-filter_map f q (x ∷ xs) (h, hs) = elim (Option-cases (f x)) [
  | inl e ↦ rw (e, filter_map) (all-filter_map f q xs hs)
  | inr (y, e) ↦ rw (e, filter_map, h y e) (all-filter_map f q xs hs)
]

pub all-guarded :
    {A B : Type 0} (g : A → Bool) (make : A → B) (q : B → Bool)
    → ((x : A) → q (make x) ≡ true)
    → (xs : List A) → all q (filter_map (λ x. if g x then some (make x) else none) xs) ≡ true
unfolding all filter_map
all-guarded g make q h [] = refl
all-guarded g make q h (x ∷ xs) =
    let ih = all-guarded g make q h xs in let made = h x in ground (arith, ih, made)

pub all-mapped :
    {A B C : Type 0} (o : A → Option B) (make : A → B → C) (q : C → Bool)
    → ((x : A) (y : B) → q (make x y) ≡ true)
    → (xs : List A) → all q (filter_map (λ x. Option.map (make x) (o x)) xs) ≡ true
unfolding all filter_map
all-mapped o make q h [] = refl
all-mapped o make q h (x ∷ xs) = elim (Option-cases (o x)) [
  | inl e ↦ rw (e, filter_map) (all-mapped o make q h xs)
  | inr (y, e) ↦ rw (e, filter_map, h x y) (all-mapped o make q h xs)
]

pub all-flat_map :
    {A B : Type 0} (f : A → List B) (q : B → Bool) (xs : List A)
    → All (λ x. all q (f x) ≡ true) xs
    → all q (flat_map f xs) ≡ true
unfolding all flat_map
all-flat_map f q [] h = refl
all-flat_map f q (x ∷ xs) (h, hs) =
    let e = all-append q (f x) (flat_map f xs) in
    let ih = all-flat_map f q xs hs in ground (arith, e, h, ih)

pub All-map :
    {A : Type 0} (P Q : A → Type 0) → ((x : A) → P x → Q x) → (xs : List A) → All P xs → All Q xs
All-map P Q f [] h = tt
All-map P Q f (x ∷ xs) (h, hs) = (f x h, All-map P Q f xs hs)

pub all-All : {A : Type 0} (q : A → Bool) (xs : List A) → All (λ x. q x ≡ true) xs → all q xs ≡ true
unfolding all
all-All q [] h = refl
all-All q (x ∷ xs) (h, hs) = rw (h, all-All q xs hs) refl

pub all-map :
    {A B : Type 0} (q : B → Bool) (step : A → B) (xs : List A)
    → all (λ x. q (step x)) xs ≡ true
    → all q (map step xs) ≡ true
unfolding all
all-map q step [] h = refl
all-map q step (x ∷ xs) h = let ih = all-map q step xs (ground arith) in ground (arith, ih)

pub all-passed :
    {A : Type 0} (q : A → Bool) → ((x : A) → q x ≡ true) → (xs : List A) → all q xs ≡ true
unfolding all
all-passed q h [] = refl
all-passed q h (x ∷ xs) = rw (h x, all-passed q h xs) refl
