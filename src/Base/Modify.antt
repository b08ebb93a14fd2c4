-- ===== src/Base/Modify.antt =====
-- Laws of `modify_first`.
use mathlib.Core.Path.{◌≡◌, refl, sym}
use mathlib.Core.Logic.{◌⊎◌, inl, inr}
use mathlib.Core.Bool.{Bool, true, false}
use mathlib.Core.Option.{Option, none, some}
use mathlib.Core.Option
use mathlib.Core.List.{List, [], ◌∷◌}
use native.Mathlib.Omega.{arith}
use prisma_engine.Base.Tests.{Bool-cases, Option-cases}
use prisma_engine.Base.Search.{is_some, modify_first, and_then, find?, filter_map, passes, changed}

pub map-eq-some {ℓ κ} :
    {A : Type ℓ} {B : Type κ} (g : A → B) (o : Option A) {b : B}
    → Option.map g o ≡ some b
    → (a : A) × (o ≡ some a) × (b ≡ g a)
map-eq-some g none h = cc
map-eq-some g (some a) h = (a, refl, cc)

pub and_then-eq-some {ℓ κ} :
    {A : Type ℓ} {B : Type κ} (o : Option A) (g : A → Option B) {b : B}
    → and_then o g ≡ some b
    → (a : A) × (o ≡ some a) × (g a ≡ some b)
and_then-eq-some none g h = cc
and_then-eq-some (some a) g h = (a, refl, h)

module _ {ℓ} {A : Type ℓ} (p : A → Bool) (f : A → Option A) where
  -- The two ways to change a list with a head.
  abbrev pub Hit : A → List A → List A → Type ℓ
  Hit x xs ys = (y : A) × (p x ≡ true) × (f x ≡ some y) × (ys ≡ y ∷ xs)

  abbrev pub Miss : A → List A → List A → Type ℓ
  Miss x xs ys = (zs : List A) × (p x ≡ false) × (modify_first p f xs ≡ some zs) × (ys ≡ x ∷ zs)

  pub modify_first-cons :
      (x : A) (xs : List A) {ys : List A}
      → modify_first p f (x ∷ xs) ≡ some ys
      → Hit x xs ys ⊎ Miss x xs ys
  unfolding modify_first
  modify_first-cons x xs h = elim (Bool-cases (p x)) [
    | inl e ↦ let (y, fx, ys) = map-eq-some _ _ (rw e at h) in inl (y, e, fx, ys)
    | inr e ↦ let (zs, fx, ys) = map-eq-some _ _ (rw e at h) in inr (zs, e, fx, ys)
  ]

  -- It fails only where the change of the element that it finds does.
  pub modify_first-total :
      (xs : List A) (x y : A)
      → find? p xs ≡ some x
      → f x ≡ some y
      → (ys : List A) × (modify_first p f xs ≡ some ys)
  unfolding modify_first find?
  modify_first-total [] x y h k = cc
  modify_first-total (z ∷ zs) x y h k = elim (Bool-cases (p z)) [
    | inl e ↦ (y ∷ zs, ground arith)
    | inr e ↦ let (ys, r) = modify_first-total zs x y (rw e at h) k in (z ∷ ys, ground arith)
  ]

module _ {ℓ} {A : Type ℓ} (p : A → Bool) (f g : A → Option A)
    (keeps : (x y : A) → f x ≡ some y → p x ≡ true → p y ≡ true) where
  -- Two changes at the same element are one.
  pub modify_first-fuse :
      (xs : List A)
      → and_then (modify_first p f xs) (modify_first p g)
        ≡ modify_first p (λ x. and_then (f x) g) xs
  unfolding modify_first
  modify_first-fuse [] = refl
  modify_first-fuse (x ∷ xs) = elim (Bool-cases (p x)) [
    | inl e ↦ elim (Option-cases (f x)) [
      | inl fx ↦ rw (e, fx) refl
      | inr (y, fx) ↦ rw (e, fx, keeps x y fx e) refl
    ]
    | inr e ↦ elim (Option-cases (modify_first p f xs)) [
      | inl r ↦ let ih = modify_first-fuse xs in ground (arith, ih)
      | inr (ys, r) ↦ let ih = modify_first-fuse xs in ground (arith, ih)
    ]
  ]

module _ {ℓ} {A : Type ℓ} (p : A → Bool) (f : A → Option A)
    (keeps : (x y : A) → f x ≡ some y → p x ≡ true → p y ≡ true) where
  -- What the test finds afterwards is the changed element.
  pub find?-modify_first_self :
      (xs ys : List A) → modify_first p f xs ≡ some ys → find? p ys ≡ and_then (find? p xs) f
  unfolding modify_first find?
  find?-modify_first_self [] ys h = cc
  find?-modify_first_self (x ∷ xs) ys h = elim (modify_first-cons p f x xs h) [
    | inl (y, e, fx, out) ↦ rw (out, e, keeps x y fx e) (sym fx)
    | inr (zs, e, r, out) ↦ rw (out, e) (find?-modify_first_self xs zs r)
  ]

module _ {ℓ} {A : Type ℓ} (p q : A → Bool) (f : A → Option A)
    (before : (x : A) → p x ≡ true → q x ≡ false)
    (after : (x y : A) → f x ≡ some y → p x ≡ true → q y ≡ false) where
  -- A test that neither the element nor its change passes finds what it found.
  pub find?-modify_first_other :
      (xs ys : List A) → modify_first p f xs ≡ some ys → find? q ys ≡ find? q xs
  unfolding modify_first find?
  find?-modify_first_other [] ys h = cc
  find?-modify_first_other (x ∷ xs) ys h = elim (modify_first-cons p f x xs h) [
    | inl (y, e, fx, out) ↦ rw (out, before x e, after x y fx e)
    | inr (zs, e, r, out) ↦ let ih = find?-modify_first_other xs zs r in rw out (ground (arith, ih))
  ]

module _ {ℓ κ} {A : Type ℓ} {B : Type κ} (view : A → Option B) (back : B → A)
    (seen : (b : B) → view (back b) ≡ some b) (q : B → Bool) (f : B → Option B) where
  -- A change through a view is the change of the elements that are seen.
  pub filter_map-modify_first :
      (xs : List A)
      → Option.map (filter_map view) (modify_first (passes view q) (changed view back f) xs)
        ≡ modify_first q f (filter_map view xs)
  unfolding modify_first filter_map
  filter_map-modify_first [] = refl
  filter_map-modify_first (x ∷ xs) =
      let ih = filter_map-modify_first xs in
      elim (Option-cases (view x)) [
        | inl v ↦ ground (arith, ih)
        | inr (b, v) ↦ elim (Bool-cases (q b)) [
          | inl qb ↦ elim (Option-cases (f b)) [
            | inl fb ↦ ground arith
            | inr (c, fb) ↦ ground (arith, seen c)
          ]
          | inr qb ↦ ground (arith, ih)
        ]
      ]

module _ {ℓ κ μ} {A : Type ℓ} {B : Type κ} {C : Type μ} (view : A → Option B) (back : B → A)
    (other : A → Option C) (apart : (a : A) (b : B) → view a ≡ some b → other a ≡ none)
    (unseen : (b : B) → other (back b) ≡ none) (q : B → Bool) (f : B → Option B) where
  -- It leaves what another view sees.
  pub filter_map-modify_first_other :
      (xs ys : List A)
      → modify_first (passes view q) (changed view back f) xs ≡ some ys
      → filter_map other ys ≡ filter_map other xs
  unfolding modify_first filter_map
  filter_map-modify_first_other [] ys h = cc
  filter_map-modify_first_other (x ∷ xs) ys h =
      elim (modify_first-cons (passes view q) (changed view back f) x xs h) [
        | inl (y, e, fx, out) ↦ elim (Option-cases (view x)) [
          | inl v ↦ ground arith
          | inr (b, v) ↦ elim (Option-cases (f b)) [
            | inl fb ↦ ground arith
            | inr (c, fb) ↦ ground (arith, apart x b, unseen c)
          ]
        ]
        | inr (zs, e, r, out) ↦
            let ih = filter_map-modify_first_other xs zs r in rw out (ground (arith, ih))
      ]

pub is_some-map {ℓ κ} :
    {A : Type ℓ} {B : Type κ} (g : A → B) (o : Option A) → is_some (Option.map g o) ≡ is_some o
is_some-map g none = refl
is_some-map g (some a) = refl

module _ {ℓ} {A : Type ℓ} (p : A → Bool) (f : A → Option A) where
  -- When a change succeeds.
  pub is_some-modify_first :
      (xs : List A) → is_some (modify_first p f xs) ≡ is_some (and_then (find? p xs) f)
  unfolding modify_first find?
  is_some-modify_first [] = refl
  is_some-modify_first (x ∷ xs) = elim (Bool-cases (p x)) [
    | inl e ↦ rw (e, is_some-map) refl
    | inr e ↦ rw (e, is_some-map) (is_some-modify_first xs)
  ]
