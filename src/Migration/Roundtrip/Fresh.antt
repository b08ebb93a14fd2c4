-- ===== src/Migration/Roundtrip/Fresh.antt =====
-- The search and the change of the last item of a list whose names are all different.
use mathlib.Core.Option
use prisma_engine.Base.{
  Bool-cases, inl, inr, String, Bool, true, false, Option, none, some, List, [], ◌∷◌, ◌++◌, ◌==◌,
  ◌≡◌, refl, arith, any, find?, modify_first, map, and_then-eq-some, map-eq-some,
}
use prisma_engine.Migration.Calculator.Common.{traverse}

module _ {A : Type 0} (name : A → String) (n : String) where
  pub find?-absent :
      (xs : List A) → any (λ t. t == n) (map name xs) ≡ false → find? (λ x. name x == n) xs ≡ none
  unfolding find? any
  find?-absent [] h = refl
  find?-absent (x ∷ xs) h = let ih = find?-absent xs in ground (arith, ih)

module _ {A : Type 0} (p : A → Bool) (f : A → Option A) where
  -- The item that is changed is the last, if no other passes.
  pub modify_first-snoc :
      (xs : List A) (x : A)
      → find? p xs ≡ none
      → p x ≡ true
      → modify_first p f (xs ++ x ∷ []) ≡ Option.map (λ y. xs ++ y ∷ []) (f x)
  unfolding modify_first find?
  modify_first-snoc [] x none_before hit = rw hit refl
  modify_first-snoc (y ∷ ys) x none_before hit = elim (Bool-cases (p y)) [
    | inl e ↦ (let bad : some y ≡ none = rw e at none_before in cc)
    | inr e ↦
        let ih = modify_first-snoc ys x (rw e at none_before) hit in rw (e, ih) (map-map (f x))
  ]
    where
      map-map :
          (o : Option A)
          → Option.map (λ zs. y ∷ zs) (Option.map (λ z. ys ++ z ∷ []) o)
            ≡ Option.map (λ z. y ∷ (ys ++ z ∷ [])) o
      map-map none = refl
      map-map (some z) = refl

pub traverse-cons :
    {A B : Type 0} (f : A → Option B) (x : A) (xs : List A) {zs : List B}
    → traverse f (x ∷ xs) ≡ some zs
    → (y : B) × (ys : List B) × (f x ≡ some y) × (traverse f xs ≡ some ys) × (zs ≡ y ∷ ys)
unfolding traverse
traverse-cons f x xs h =
    let (y, e, out) = and_then-eq-some (f x) _ h in
    let (ys, r, z) = map-eq-some _ _ out in (y, ys, e, r, z)
