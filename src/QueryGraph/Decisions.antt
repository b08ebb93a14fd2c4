-- ===== src/QueryGraph/Decisions.antt =====
-- Searches of a list with a test that may fail (query-engine/core/src/query_graph/mod.rs): what they
-- decide, when the test decides it of each element.
use prisma_engine.Base.{
  all_ok, find_ok, traverse_ok, filter_map_ok, Option, none, ℕ, ◌≡◌, refl, sym, ap, ◌∙◌, ◌↔◌, ◌⊎◌,
  inl, inr, Bool, true, false, some, List, [], ◌∷◌, arith, nat_eq, eq_of_nat_eq, ltb, if◌then◌else◌,
  Bool-cases, Outcome, ok, ◌>>=◌, is_some,
}
use mathlib.Core.Option.{some-injective}
use mathlib.Core.List.{Memᴰ}
use mathlib.Core.List.Memᴰ.{head, tail}
use prisma_engine.QueryGraph.Edges.{sort, insert}

-- A test that gives a result, and gives it by the truth of `R`.
abbrev pub Decides : {E : Type 0} → Outcome E Bool → Type 0 → Type 0
Decides o R = (b : Bool) × (o ≡ ok b) × ((b ≡ true) ↔ R)

pub Decides-cong :
    {E : Type 0} (o : Outcome E Bool) (R S : Type 0) → (R ↔ S) → Decides o R → Decides o S
Decides-cong o R S (f, g) (b, e, (to, from)) = (b, e, ((λ h. f (to h)), (λ s. from (g s))))

pub false-ne-true : false ≡ true → ⊥
false-ne-true h = cc

pub none-ne-some : {A : Type 0} {a : A} → none ≡ some a → ⊥
none-ne-some h = cc

pub nat_eq_iff : (a b : ℕ) → (nat_eq a b ≡ true) ↔ (a ≡ b)
nat_eq_iff a b = (eq_of_nat_eq a b, λ e. ground arith)

-- A test that comes first, and one that is made only if it fails.
pub Decides-if :
    {E : Type 0} (b : Bool) (o : Outcome E Bool) (R S : Type 0)
    → ((b ≡ true) ↔ R)
    → Decides o S
    → Decides (if b then ok true else o) (R ⊎ S)
Decides-if true o R S (to, from) d = (true, refl, ((λ _. inl (to refl)), (λ _. refl)))
Decides-if false o R S (to, from) (c, e, (to', from')) = (
  c,
  e,
  ((λ k. inr (to' k)), (λ w. elim w [ inl r ↦ absurd (false-ne-true (from r)) | inr s ↦ from' s ])),
)

pub ok_injective : {E B : Type 0} {a b : B} → ◌≡◌ {A = Outcome E B} (ok a) (ok b) → a ≡ b
ok_injective h = cc

module _ {E A : Type 0} (p : A → Outcome E Bool) (R : A → Type 0) where
  abbrev pub some_passes : List A → Outcome E Bool
  some_passes xs = find_ok p xs >>= λ found. ok (is_some found)

  pub find_ok-Decides :
      (xs : List A)
      → ((x : A) → Memᴰ x xs → Decides (p x) (R x))
      → Decides (some_passes xs) ((x : A) × Memᴰ x xs × R x)
  unfolding find_ok
  find_ok-Decides [] h = (false, refl, ((λ k. absurd cc), (λ (x, m, r). elim m [ ])))
  find_ok-Decides (x ∷ xs) h = cases (h x (head refl)) (find_ok-Decides xs (λ y m. h y (tail m)))
    where
      back :
          {B : Type 0}
          → (R x → B)
          → ((y : A) × Memᴰ y xs × R y → B)
          → (y : A) × Memᴰ y (x ∷ xs) × R y
          → B
      back here there (y, head q, r) = here (rw q at r)
      back here there (y, tail m, r) = there (y, m, r)

      cases :
          Decides (p x) (R x)
          → Decides (some_passes xs) ((x : A) × Memᴰ x xs × R x)
          → Decides
              ((p x >>= λ b. if b then ok (some x) else find_ok p xs) >>= λ found.
                ok (is_some found))
              ((y : A) × Memᴰ y (x ∷ xs) × R y)
      cases (true, e, (to, from)) ih =
          (true, rw e refl, ((λ _. (x, head refl, to refl)), (λ _. refl)))
      cases (false, e, (to, from)) (b, e', (to', from')) = (
        b,
        rw e e',
        (
          (λ k. let (y, m, r) = to' k in (y, tail m, r)),
          (λ w. back (λ r. absurd (false-ne-true (from r))) from' w),
        ),
      )

  pub all_ok-Decides :
      (xs : List A)
      → ((x : A) → Memᴰ x xs → Decides (p x) (R x))
      → Decides (all_ok p xs) ((x : A) → Memᴰ x xs → R x)
  unfolding all_ok
  all_ok-Decides [] h = (true, refl, ((λ _ x m. elim m [ ]), (λ _. refl)))
  all_ok-Decides (x ∷ xs) h = cases (h x (head refl)) (all_ok-Decides xs (λ y m. h y (tail m)))
    where
      each : R x → ((y : A) → Memᴰ y xs → R y) → (y : A) → Memᴰ y (x ∷ xs) → R y
      each here there y (head q) = rw q here
      each here there y (tail m) = there y m

      cases :
          Decides (p x) (R x)
          → Decides (all_ok p xs) ((x : A) → Memᴰ x xs → R x)
          → Decides
              (p x >>= λ b. if b then all_ok p xs else ok false)
              ((y : A) → Memᴰ y (x ∷ xs) → R y)
      cases (true, e, (to, from)) (b, e', (to', from')) =
          (b, rw e e', ((λ k. each (to refl) (to' k)), (λ f. from' (λ y m. f y (tail m)))))
      cases (false, e, (to, from)) ih =
          (false, rw e refl, ((λ k. absurd cc), (λ f. from (f x (head refl)))))

-- Sorting keeps what is in the list.
mem-insert : (e x : ℕ) (xs : List ℕ) → Memᴰ e (insert x xs) ↔ Memᴰ e (x ∷ xs)
unfolding insert
mem-insert e x [] = ((λ m. m), (λ m. m))
mem-insert e x (y ∷ ys) = elim (Bool-cases (ltb y x)) [
  | inl h ↦ rw h (there (mem-insert e x ys))
  | inr h ↦ rw h ((λ m. m), (λ m. m))
]
  where
    swap : Memᴰ e (x ∷ ys) → Memᴰ e (x ∷ y ∷ ys)
    swap (head q) = head q
    swap (tail m) = tail (tail m)

    from : (Memᴰ e (x ∷ ys) → Memᴰ e (insert x ys)) → Memᴰ e (x ∷ y ∷ ys) → Memᴰ e (y ∷ insert x ys)
    from f (head q) = tail (f (head q))
    from f (tail (head q)) = head q
    from f (tail (tail m)) = tail (f (tail m))

    to : (Memᴰ e (insert x ys) → Memᴰ e (x ∷ ys)) → Memᴰ e (y ∷ insert x ys) → Memᴰ e (x ∷ y ∷ ys)
    to f (head q) = tail (head q)
    to f (tail m) = swap (f m)

    there : Memᴰ e (insert x ys) ↔ Memᴰ e (x ∷ ys) → Memᴰ e (y ∷ insert x ys) ↔ Memᴰ e (x ∷ y ∷ ys)
    there (f, g) = (to f, from g)

pub mem-sort : (e : ℕ) (xs : List ℕ) → Memᴰ e (sort xs) ↔ Memᴰ e xs
unfolding sort
mem-sort e [] = ((λ m. m), (λ m. m))
mem-sort e (x ∷ xs) =
    let ih = mem-sort e xs in
    let step = mem-insert e x (sort xs) in
    ((λ m. under ih.0 (step.0 m)), (λ m. step.1 (under ih.1 m)))
  where
    under : {ys zs : List ℕ} → (Memᴰ e ys → Memᴰ e zs) → Memᴰ e (x ∷ ys) → Memᴰ e (x ∷ zs)
    under f (head q) = head q
    under f (tail m) = tail (f m)

-- A traversal whose function never fails, with what it does to each element.
pub traverse_ok-mem :
    {E A B : Type 0} (f : A → Outcome E B) (xs : List A)
    → ((x : A) → Memᴰ x xs → (y : B) × (f x ≡ ok y))
    → (ys : List B) × (traverse_ok f xs ≡ ok ys)
      × ((y : B) → Memᴰ y ys ↔ ((x : A) × Memᴰ x xs × (f x ≡ ok y)))
unfolding traverse_ok
traverse_ok-mem f [] h = ([], refl, λ y. ((λ m. elim m [ ]), (λ (x, m, e). elim m [ ])))
traverse_ok-mem {E = E} {A = A} {B = B} f (x ∷ xs) h =
    let (y, e) = h x (head refl) in
    let (ys, es, iff) = traverse_ok-mem f xs (λ z m. h z (tail m)) in
    (y ∷ ys, rw (e, es) refl, λ z. (to y ys e (λ m. (iff z).0 m), from y ys e (λ w. (iff z).1 w)))
  where
    to :
        (y : B) (ys : List B)
        → f x ≡ ok y
        → {z : B} → (Memᴰ z ys → (v : A) × Memᴰ v xs × (f v ≡ ok z))
        → Memᴰ z (y ∷ ys)
        → (v : A) × Memᴰ v (x ∷ xs) × (f v ≡ ok z)
    to y ys e k (head q) = (x, head refl, e ∙ ap ok (sym q))
    to y ys e k (tail m) = let (v, n, r) = k m in (v, tail n, r)

    from :
        (y : B) (ys : List B)
        → f x ≡ ok y
        → {z : B} → ((v : A) × Memᴰ v xs × (f v ≡ ok z) → Memᴰ z ys)
        → (v : A) × Memᴰ v (x ∷ xs) × (f v ≡ ok z)
        → Memᴰ z (y ∷ ys)
    from y ys e k (v, head q, r) = head (ok_injective (sym r ∙ ap f q ∙ e))
    from y ys e k (v, tail m, r) = tail (k (v, m, r))

-- As traverse_ok-mem, for a function that may leave elements out.
pub filter_map_ok-mem :
    {E A B : Type 0} (f : A → Outcome E (Option B)) (xs : List A)
    → ((x : A) → Memᴰ x xs → (o : Option B) × (f x ≡ ok o))
    → (ys : List B) × (filter_map_ok f xs ≡ ok ys)
      × ((y : B) → Memᴰ y ys ↔ ((x : A) × Memᴰ x xs × (f x ≡ ok (some y))))
unfolding filter_map_ok
filter_map_ok-mem f [] h = ([], refl, λ y. ((λ m. elim m [ ]), (λ (x, m, e). elim m [ ])))
filter_map_ok-mem {E = E} {A = A} {B = B} f (x ∷ xs) h =
    let (o, e) = h x (head refl) in
    let (ys, es, iff) = filter_map_ok-mem f xs (λ z m. h z (tail m)) in one o e ys es iff
  where
    Found : List A → List B → Type 0
    Found zs ys = (y : B) → Memᴰ y ys ↔ ((v : A) × Memᴰ v zs × (f v ≡ ok (some y)))

    skipped :
        {z : B}
        → f x ≡ ok none
        → (v : A) × Memᴰ v (x ∷ xs) × (f v ≡ ok (some z))
        → (v : A) × Memᴰ v xs × (f v ≡ ok (some z))
    skipped {z} e (v, head q, r) = absurd (none-ne-some (ok_injective (sym e ∙ ap f (sym q) ∙ r)))
    skipped e (v, tail m, r) = (v, m, r)

    to :
        (y : B) (ys : List B)
        → f x ≡ ok (some y)
        → {z : B} → (Memᴰ z ys → (v : A) × Memᴰ v xs × (f v ≡ ok (some z)))
        → Memᴰ z (y ∷ ys)
        → (v : A) × Memᴰ v (x ∷ xs) × (f v ≡ ok (some z))
    to y ys e k (head q) = (x, head refl, e ∙ ap (λ b. ok (some b)) (sym q))
    to y ys e k (tail m) = let (v, n, r) = k m in (v, tail n, r)

    from :
        (y : B) (ys : List B)
        → f x ≡ ok (some y)
        → {z : B} → ((v : A) × Memᴰ v xs × (f v ≡ ok (some z)) → Memᴰ z ys)
        → (v : A) × Memᴰ v (x ∷ xs) × (f v ≡ ok (some z))
        → Memᴰ z (y ∷ ys)
    from y ys e k (v, head q, r) = head (some-injective _ _ (ok_injective (sym r ∙ ap f q ∙ e)))
    from y ys e k (v, tail m, r) = tail (k (v, m, r))

    one :
        (o : Option B)
        → f x ≡ ok o
        → (ys : List B) → filter_map_ok f xs ≡ ok ys
        → Found xs ys
        → (zs : List B) × ((f x >>= λ y.
              filter_map_ok f xs >>= λ ys. ok (elim y [ none ↦ ys | some z ↦ z ∷ ys ]))
            ≡ ok zs)
          × Found (x ∷ xs) zs
    one none e ys es iff = (
      ys,
      rw (e, es) refl,
      λ z. ((λ m. let (v, n, r) = (iff z).0 m in (v, tail n, r)), (λ w. (iff z).1 (skipped e w))),
    )
    one (some y) e ys es iff = (
      y ∷ ys,
      rw (e, es) refl,
      λ z. (to y ys e (λ m. (iff z).0 m), from y ys e (λ w. (iff z).1 w)),
    )
