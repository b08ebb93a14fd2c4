-- ===== src/QueryGraph/Inner/Listed/Lists.antt =====
-- Updates of a list at an index, and the indices of the elements that pass a test.
use prisma_engine.Base.{
  ℕ, zero, suc, ◌≡◌, refl, ap, Bool, true, none, some, List, [], ◌∷◌, ◌++◌, arith, length,
  get_elem?, nat_eq, ltb, all, if◌then◌else◌,
}

module _ {A : Type 0} where
  unfoldable pub update_at : ℕ → (A → A) → List A → List A
  update_at i f [] = []
  update_at zero f (x ∷ xs) = f x ∷ xs
  update_at (suc i) f (x ∷ xs) = x ∷ update_at i f xs

  -- The last element takes the place of the one that goes.
  unfoldable pub last_first : A → List A → List A
  last_first x [] = x ∷ []
  last_first x (y ∷ ys) = elim (last_first y ys) [ [] ↦ x ∷ [] | l ∷ rest ↦ l ∷ x ∷ rest ]

  unfoldable pub swap_remove : ℕ → List A → List A
  swap_remove i [] = []
  swap_remove zero (x ∷ []) = []
  swap_remove zero (x ∷ y ∷ ys) = last_first y ys
  swap_remove (suc i) (x ∷ xs) = x ∷ swap_remove i xs

  unfoldable pub indices : (A → Bool) → ℕ → List A → List ℕ
  indices p k [] = []
  indices p k (x ∷ xs) = let rest = indices p (suc k) xs in if p x then k ∷ rest else rest

  abbrev pub count : (A → Bool) → List A → ℕ
  count p xs = length (indices p 0 xs)

  pub length-update_at : (i : ℕ) (f : A → A) (xs : List A) → length (update_at i f xs) ≡ length xs
  unfolding update_at
  length-update_at i f [] = refl
  length-update_at zero f (x ∷ xs) = refl
  length-update_at (suc i) f (x ∷ xs) = ap suc (length-update_at i f xs)

  pub get_elem?-update_at :
      (i : ℕ) (f : A → A) (xs : List A) {x : A}
      → get_elem? xs i ≡ some x
      → (j : ℕ)
      → get_elem? (update_at i f xs) j ≡ (if nat_eq j i then some (f x) else get_elem? xs j)
  unfolding update_at
  get_elem?-update_at i f [] h j = cc
  get_elem?-update_at zero f (y ∷ ys) h zero = ground arith
  get_elem?-update_at zero f (y ∷ ys) h (suc j) = ground arith
  get_elem?-update_at (suc i) f (y ∷ ys) h zero = ground arith
  get_elem?-update_at (suc i) f (y ∷ ys) h (suc j) =
      let ih = get_elem?-update_at i f ys h j in ground (arith, ih)

  pub get_elem?-snoc :
      (xs : List A) (x : A) (j : ℕ)
      → get_elem? (xs ++ (x ∷ [])) j ≡ (if nat_eq j (length xs) then some x else get_elem? xs j)
  get_elem?-snoc [] x zero = ground arith
  get_elem?-snoc [] x (suc j) = ground arith
  get_elem?-snoc (y ∷ ys) x zero = ground arith
  get_elem?-snoc (y ∷ ys) x (suc j) = let ih = get_elem?-snoc ys x j in ground (arith, ih)

  pub get_elem?-length : (xs : List A) → get_elem? xs (length xs) ≡ none
  get_elem?-length [] = refl
  get_elem?-length (x ∷ xs) = get_elem?-length xs

  pub length-snoc : (xs : List A) (x : A) → length (xs ++ (x ∷ [])) ≡ suc (length xs)
  length-snoc [] x = refl
  length-snoc (y ∷ ys) x = ap suc (length-snoc ys x)

  pub get_elem?-some :
      (xs : List A) (i : ℕ) → ltb i (length xs) ≡ true → (x : A) × (get_elem? xs i ≡ some x)
  get_elem?-some [] i h = ground arith
  get_elem?-some (x ∷ xs) zero h = (x, refl)
  get_elem?-some (x ∷ xs) (suc i) h = get_elem?-some xs i (ground arith)

  module _ (p : A → Bool) where
    pub all-get :
        (xs : List A) (i : ℕ) {x : A} → all p xs ≡ true → get_elem? xs i ≡ some x → p x ≡ true
    unfolding all
    all-get [] i a h = cc
    all-get (y ∷ ys) zero a h = ground arith
    all-get (y ∷ ys) (suc i) a h = all-get ys i (ground arith) h

    pub all-snoc :
        (xs : List A) (x : A) → all p xs ≡ true → p x ≡ true → all p (xs ++ (x ∷ [])) ≡ true
    unfolding all
    all-snoc [] x a h = ground arith
    all-snoc (y ∷ ys) x a h = let ih = all-snoc ys x (ground arith) h in ground (arith, ih)

    pub all-update_at :
        (i : ℕ) (f : A → A)
        → ((x : A) → p (f x) ≡ p x)
        → (xs : List A) → all p xs ≡ true
        → all p (update_at i f xs) ≡ true
    unfolding all update_at
    all-update_at i f k [] a = refl
    all-update_at zero f k (x ∷ xs) a = ground (arith, k x)
    all-update_at (suc i) f k (x ∷ xs) a =
        let ih = all-update_at i f k xs (ground arith) in ground (arith, ih)

    all-last_first : (x : A) (xs : List A) → all p (x ∷ xs) ≡ true → all p (last_first x xs) ≡ true
    unfolding all last_first
    all-last_first x [] a = a
    all-last_first x (y ∷ ys) a = let ih = all-last_first y ys (ground arith) in ground (arith, ih)

    pub all-swap_remove : (i : ℕ) (xs : List A) → all p xs ≡ true → all p (swap_remove i xs) ≡ true
    unfolding all swap_remove
    all-swap_remove i [] a = refl
    all-swap_remove zero (x ∷ []) a = refl
    all-swap_remove zero (x ∷ y ∷ ys) a = all-last_first y ys (ground arith)
    all-swap_remove (suc i) (x ∷ xs) a =
        let ih = all-swap_remove i xs (ground arith) in ground (arith, ih)
