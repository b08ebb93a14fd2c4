-- ===== src/Base/Lists.antt =====
-- Laws of `find?`, `filter`, `filter_map`, `any` and `all`.
use Prim.Native.Nat.{ℕ, zero, suc}
use mathlib.Core.Path.{◌≡◌, refl, ap}
use mathlib.Core.Bool.{Bool, true, false, not, ◌&&◌}
use mathlib.Core.Logic.{inl, inr}
use mathlib.Core.Option.{Option, none, some}
use mathlib.Core.List.{List, [], ◌∷◌, ◌++◌, reverse, reverse-cons}
use native.Mathlib.Omega.{arith}
use prisma_engine.Base.Tests.{if◌then◌else◌, Bool-cases, Option-cases}
use prisma_engine.Base.Search.{find?, filter, filter_map, all, is_some, get_elem?, drop}

module _ {ℓ} {A : Type ℓ} where
  pub find?-append :
      (p : A → Bool) (xs ys : List A)
      → find? p (xs ++ ys) ≡ (if is_some (find? p xs) then find? p xs else find? p ys)
  unfolding find?
  find?-append p [] ys = refl
  find?-append p (x ∷ xs) ys = let ih = find?-append p xs ys in ground (arith, ih)

  pub find?-passes : (p : A → Bool) (xs : List A) {x : A} → find? p xs ≡ some x → p x ≡ true
  unfolding find?
  find?-passes p [] h = cc
  find?-passes p (y ∷ ys) {x} h = elim (Bool-cases (p y)) [
    | inl e ↦ ground arith
    | inr e ↦ find?-passes p ys (rw e at h)
  ]

  pub filter-append :
      (p : A → Bool) (xs ys : List A) → filter p (xs ++ ys) ≡ filter p xs ++ filter p ys
  unfolding filter
  filter-append p [] ys = refl
  filter-append p (x ∷ xs) ys = let ih = filter-append p xs ys in ground (arith, ih)

module _ {ℓ} {A : Type ℓ} (p q : A → Bool) where
  -- A filter that drops all that a search accepts, or none of it.
  pub find?-filter-none :
      ((x : A) → q x ≡ true → p x ≡ false) → (xs : List A) → find? q (filter p xs) ≡ none
  unfolding find? filter
  find?-filter-none h [] = refl
  find?-filter-none h (x ∷ xs) = let ih = find?-filter-none h xs in ground (arith, ih, h x)

  pub find?-filter-id :
      ((x : A) → q x ≡ true → p x ≡ true) → (xs : List A) → find? q (filter p xs) ≡ find? q xs
  unfolding find? filter
  find?-filter-id h [] = refl
  find?-filter-id h (x ∷ xs) = let ih = find?-filter-id h xs in ground (arith, ih, h x)

module _ {ℓ κ} {A : Type ℓ} {B : Type κ} (view : A → Option B) where
  pub filter_map-append :
      (xs ys : List A) → filter_map view (xs ++ ys) ≡ filter_map view xs ++ filter_map view ys
  unfolding filter_map
  filter_map-append [] ys = refl
  filter_map-append (x ∷ xs) ys =
      let ih = filter_map-append xs ys in
      elim (Option-cases (view x)) [ inl v ↦ ground (arith, ih) | inr (b, v) ↦ ground (arith, ih) ]

  -- A filter through the view is the filter of what is seen.
  pub filter_map-filter :
      (p : A → Bool) (q : B → Bool)
      → ((a : A) (b : B) → view a ≡ some b → p a ≡ q b)
      → (xs : List A) → filter_map view (filter p xs) ≡ filter q (filter_map view xs)
  unfolding filter_map filter
  filter_map-filter p q h [] = refl
  filter_map-filter p q h (x ∷ xs) =
      let ih = filter_map-filter p q h xs in
      elim (Option-cases (view x)) [
        | inl v ↦ ground (arith, ih)
        | inr (b, v) ↦ ground (arith, ih, h x b v)
      ]

  pub filter_map-filter_all :
      (p : A → Bool)
      → ((a : A) (b : B) → view a ≡ some b → p a ≡ true)
      → (xs : List A) → filter_map view (filter p xs) ≡ filter_map view xs
  unfolding filter_map filter
  filter_map-filter_all p h [] = refl
  filter_map-filter_all p h (x ∷ xs) =
      let ih = filter_map-filter_all p h xs in
      elim (Option-cases (view x)) [
        | inl v ↦ ground (arith, ih)
        | inr (b, v) ↦ ground (arith, ih, h x b v)
      ]

module _ {ℓ} {A : Type ℓ} (p : A → Bool) where
  pub all-append : (xs ys : List A) → all p (xs ++ ys) ≡ (all p xs && all p ys)
  unfolding all
  all-append [] ys = refl
  all-append (x ∷ xs) ys = let ih = all-append xs ys in ground (arith, ih)

  pub all-reverse : (xs : List A) → all p (reverse xs) ≡ all p xs
  unfolding all
  all-reverse [] = refl
  all-reverse (x ∷ xs) =
      let ih = all-reverse xs in
      rw (reverse-cons x xs, all-append (reverse xs) (x ∷ [])) (ground (arith, ih))

  -- The first item that passes, and what stands around it.
  pub find?-split :
      (xs : List A) {x : A}
      → find? p xs ≡ some x
      → (before : List A) × (after : List A) × (xs ≡ before ++ (x ∷ after))
        × (p x ≡ true)
        × (all (λ y. not (p y)) before ≡ true)
  unfolding find? all
  find?-split [] h = cc
  find?-split (y ∷ ys) h = elim (Bool-cases (p y)) [
    | inl e ↦ ([], ys, ground arith, ground arith, refl)
    | inr e ↦
        let (before, after, split, passes, fails) = find?-split ys (rw e at h) in
        (y ∷ before, after, ap (λ l. y ∷ l) split, passes, rw e fails)
  ]

module _ {ℓ} {A : Type ℓ} where
  -- The items from an index on, by what stands there.
  pub get_elem?-drop :
      (i : ℕ) (xs : List A) {y : A} {ys : List A} → drop i xs ≡ y ∷ ys → get_elem? xs i ≡ some y
  get_elem?-drop zero [] h = cc
  get_elem?-drop zero (x ∷ xs) h = cc
  get_elem?-drop (suc i) [] h = cc
  get_elem?-drop (suc i) (x ∷ xs) h = get_elem?-drop i xs h

  pub drop-suc :
      (i : ℕ) (xs : List A) {y : A} {ys : List A} → drop i xs ≡ y ∷ ys → drop (suc i) xs ≡ ys
  drop-suc zero [] h = cc
  drop-suc zero (x ∷ xs) h = cc
  drop-suc (suc i) [] h = cc
  drop-suc (suc i) (x ∷ xs) h = drop-suc i xs h

  pub get_elem?-drop_nil : (i : ℕ) (xs : List A) → drop i xs ≡ [] → get_elem? xs i ≡ none
  get_elem?-drop_nil i [] h = refl
  get_elem?-drop_nil zero (x ∷ xs) h = cc
  get_elem?-drop_nil (suc i) (x ∷ xs) h = get_elem?-drop_nil i xs h

module _ {ℓ} {A : Type ℓ} where
  pub filter-filter :
      (p q : A → Bool) (xs : List A) → filter q (filter p xs) ≡ filter (λ x. p x && q x) xs
  unfolding filter
  filter-filter p q [] = refl
  filter-filter p q (x ∷ xs) = let ih = filter-filter p q xs in ground (arith, ih)

  pub filter-cong :
      (p q : A → Bool) → ((x : A) → p x ≡ q x) → (xs : List A) → filter p xs ≡ filter q xs
  unfolding filter
  filter-cong p q h [] = refl
  filter-cong p q h (x ∷ xs) = rw (h x, filter-cong p q h xs) refl

  pub filter-all : (xs : List A) → filter (λ x. true) xs ≡ xs
  unfolding filter
  filter-all [] = refl
  filter-all (x ∷ xs) = ap (λ l. x ∷ l) (filter-all xs)
