-- ===== src/QueryGraph/Inner/Listed/Indices.antt =====
-- Laws of the indices of the elements that pass a test.
use mathlib.Core.Path.{subst}
use prisma_engine.Base.{
  ℕ, zero, suc, ◌+◌, ◌≤◌, ◌≡◌, refl, inl, inr, Bool, true, false, some, List, [], ◌∷◌, ◌++◌, arith,
  length, get_elem?, if◌then◌else◌, Bool-cases,
}
use mathlib.Core.List.{Memᴰ}
use mathlib.Core.List.Memᴰ.{head, tail}
use prisma_engine.QueryGraph.Inner.Listed.Lists.{update_at, last_first, swap_remove, indices, count}

module _ {A : Type 0} (p : A → Bool) where
  abbrev pub Passing : List A → ℕ → Type 0
  Passing xs i = (a : A) × (get_elem? xs i ≡ some a) × (p a ≡ true)

  pub indices_sound :
      (k : ℕ) (xs : List A) (e : ℕ) → Memᴰ e (indices p k xs) → (i : ℕ) × (e ≡ k + i) × Passing xs i
  unfolding indices
  indices_sound k [] e m = elim m [ ]
  indices_sound k (x ∷ xs) e m = elim (Bool-cases (p x)) [
    | inl h ↦ cases h (λ m. indices_sound (suc k) xs e m) (rw h at m)
    | inr h ↦
        let (i, at, rest) = indices_sound (suc k) xs e (rw h at m) in
        (suc i, omega (arith, at), rest)
  ]
    where
      cases :
          p x ≡ true
          → (Memᴰ e (indices p (suc k) xs) → (i : ℕ) × (e ≡ suc k + i) × Passing xs i)
          → Memᴰ e (k ∷ indices p (suc k) xs)
          → (i : ℕ) × (e ≡ k + i) × Passing (x ∷ xs) i
      cases h ih (head q) = (0, omega (arith, q), (x, refl, h))
      cases h ih (tail m) = let (i, at, rest) = ih m in (suc i, omega (arith, at), rest)

  pub indices_complete :
      (k : ℕ) (xs : List A) (i : ℕ) → Passing xs i → Memᴰ (k + i) (indices p k xs)
  unfolding indices
  indices_complete k [] i (a, at, h) = absurd cc
  indices_complete k (x ∷ xs) zero (a, at, h) = rw (passes at h) (head (omega arith))
    where
      passes : {a : A} → some x ≡ some a → p a ≡ true → p x ≡ true
      passes e h = cc
  indices_complete k (x ∷ xs) (suc i) (a, at, h) =
      let m =
        subst (λ n. Memᴰ n (indices p (suc k) xs)) (omega arith)
          (indices_complete (suc k) xs i (a, at, h)) in
      elim (Bool-cases (p x)) [ inl q ↦ rw q (tail m) | inr q ↦ rw q m ]

  pub indices-snoc :
      (k : ℕ) (xs : List A) (x : A) → p x ≡ false → indices p k (xs ++ (x ∷ [])) ≡ indices p k xs
  unfolding indices
  indices-snoc k [] x h = rw h refl
  indices-snoc k (y ∷ ys) x h = let ih = indices-snoc (suc k) ys x h in ground (arith, ih)

  pub indices-update_at :
      (k i : ℕ) (f : A → A)
      → ((x : A) → p (f x) ≡ p x)
      → (xs : List A) → indices p k (update_at i f xs) ≡ indices p k xs
  unfolding indices update_at
  indices-update_at k i f same [] = refl
  indices-update_at k zero f same (x ∷ xs) = ground (arith, same x)
  indices-update_at k (suc i) f same (x ∷ xs) =
      let ih = indices-update_at (suc k) i f same xs in ground (arith, ih)

  -- The number of elements that pass, wherever the count starts.
  passing : List A → ℕ
  passing [] = 0
  passing (x ∷ xs) = let rest = passing xs in if p x then suc rest else rest

  length-indices : (k : ℕ) (xs : List A) → length (indices p k xs) ≡ passing xs
  unfolding indices passing
  length-indices k [] = refl
  length-indices k (x ∷ xs) = let ih = length-indices (suc k) xs in ground (arith, ih)

  passing-last_first : (x : A) (xs : List A) → passing (last_first x xs) ≡ passing (x ∷ xs)
  unfolding passing last_first
  passing-last_first x [] = refl
  passing-last_first x (y ∷ ys) = let ih = passing-last_first y ys in ground (arith, ih)

  passing-swap_remove : (i : ℕ) (xs : List A) → passing (swap_remove i xs) ≤ passing xs
  unfolding passing swap_remove
  passing-swap_remove i [] = omega arith
  passing-swap_remove zero (x ∷ []) = ground arith
  passing-swap_remove zero (x ∷ y ∷ ys) = let e = passing-last_first y ys in ground (arith, e)
  passing-swap_remove (suc i) (x ∷ xs) = let ih = passing-swap_remove i xs in ground (arith, ih)

  pub count-swap_remove : (i : ℕ) (xs : List A) → count p (swap_remove i xs) ≤ count p xs
  count-swap_remove i xs =
      rw (length-indices 0 (swap_remove i xs), length-indices 0 xs) (passing-swap_remove i xs)

module _ {A : Type 0} where
  -- What is left was there.
  get-last_first :
      (x : A) (xs : List A) (e : ℕ)
      → (k : ℕ) × (get_elem? (last_first x xs) e ≡ get_elem? (x ∷ xs) k)
  unfolding last_first
  get-last_first x [] e = (e, refl)
  get-last_first x (y ∷ ys) e = cases (last_first y ys) (λ j. get-last_first y ys j) e
    where
      cases :
          (zs : List A)
          → ((j : ℕ) → (k : ℕ) × (get_elem? zs j ≡ get_elem? (y ∷ ys) k))
          → (e : ℕ)
          → (k : ℕ) × (get_elem? (elim zs [ [] ↦ x ∷ [] | l ∷ rest ↦ l ∷ x ∷ rest ]) e
              ≡ get_elem? (x ∷ y ∷ ys) k)
      cases [] h zero = (0, refl)
      cases [] h (suc e) = let (k, q) = h 0 in (suc k, q)
      cases (l ∷ rest) h zero = let (k, q) = h 0 in (suc k, q)
      cases (l ∷ rest) h (suc zero) = (0, refl)
      cases (l ∷ rest) h (suc (suc e)) = let (k, q) = h (suc e) in (suc k, q)

  pub get-swap_remove :
      (i : ℕ) (xs : List A) (e : ℕ) → (k : ℕ) × (get_elem? (swap_remove i xs) e ≡ get_elem? xs k)
  unfolding swap_remove
  get-swap_remove i [] e = (e, refl)
  get-swap_remove zero (x ∷ []) e = (1, refl)
  get-swap_remove zero (x ∷ y ∷ ys) e = let (k, q) = get-last_first y ys e in (suc k, q)
  get-swap_remove (suc i) (x ∷ xs) zero = (0, refl)
  get-swap_remove (suc i) (x ∷ xs) (suc e) = let (k, q) = get-swap_remove i xs e in (suc k, q)
