-- ===== src/Base/Fallible.antt =====
-- What a fallible Rust function gives: a value, an error that the caller sees, or a panic.
use mathlib.Core.Path.{◌≡◌, refl}
use mathlib.Core.List.{List, [], ◌∷◌}
use prisma_engine.Base.Tests.{if◌then◌else◌}
use mathlib.Core.Bool.{Bool, true, false}
use mathlib.Core.Option.{Option, none, some}

pub data Outcome (E : Type 0) (A : Type 0) : Type 0 where
  panic : Outcome E A
  ok : A → Outcome E A
  err : E → Outcome E A

infixl 5 ◌>>=◌ ◌>>◌
-- The `?` of Rust: only a value goes on.
abbrev pub ◌>>=◌ : {E A B : Type 0} → Outcome E A → (A → Outcome E B) → Outcome E B
panic >>= next = panic
err e >>= next = err e
ok a >>= next = next a

abbrev pub ◌>>◌ : {E B : Type 0} → Outcome E (Unit {0}) → Outcome E B → Outcome E B
panic >> after = panic
err e >> after = err e
ok _ >> after = after

-- `Option::ok_or_else` and `Option::unwrap`.
abbrev pub ok_or : {E A : Type 0} → E → Option A → Outcome E A
ok_or e (some a) = ok a
ok_or e none = err e

abbrev pub unwrap : {E A : Type 0} → Option A → Outcome E A
unwrap (some a) = ok a
unwrap none = panic

abbrev pub ensure : {E : Type 0} → Bool → E → Outcome E (Unit {0})
ensure false e = err e
ensure true e = ok tt

pub >>=-eq-ok :
    {E A B : Type 0} (first : Outcome E A) (next : A → Outcome E B) {z : B}
    → first >>= next ≡ ok z
    → (x : A) × (first ≡ ok x) × (next x ≡ ok z)
>>=-eq-ok panic next h = cc
>>=-eq-ok (err e) next h = cc
>>=-eq-ok (ok x) next h = (x, refl, h)

pub ok_or-eq-ok : {E A : Type 0} (e : E) (o : Option A) {a : A} → ok_or e o ≡ ok a → o ≡ some a
ok_or-eq-ok e none h = cc
ok_or-eq-ok e (some b) h = cc

pub unwrap-eq-ok : {E A : Type 0} (o : Option A) {a : A} → unwrap {E = E} o ≡ ok a → o ≡ some a
unwrap-eq-ok none h = cc
unwrap-eq-ok (some b) h = cc

pub ensure-eq-ok : {E : Type 0} (b : Bool) (e : E) {u : Unit {0}} → ensure b e ≡ ok u → b ≡ true
ensure-eq-ok true e h = refl
ensure-eq-ok false e h = cc

-- The conversion of an error by `?`, `Result::map_err`.
abbrev pub map_err : {A E F : Type 0} → (E → F) → Outcome E A → Outcome F A
map_err f (ok a) = ok a
map_err f (err e) = err (f e)
map_err f panic = panic

-- A map whose function may fail.
unfoldable pub traverse_ok : {E A B : Type 0} → (A → Outcome E B) → List A → Outcome E (List B)
traverse_ok f [] = ok []
traverse_ok f (x ∷ xs) = f x >>= λ y. traverse_ok f xs >>= λ ys. ok (y ∷ ys)

-- `Iterator::find` and `Iterator::all` with a test that may fail.
unfoldable pub find_ok : {E A : Type 0} → (A → Outcome E Bool) → List A → Outcome E (Option A)
find_ok p [] = ok none
find_ok p (x ∷ xs) = p x >>= λ b. if b then ok (some x) else find_ok p xs

unfoldable pub all_ok : {E A : Type 0} → (A → Outcome E Bool) → List A → Outcome E Bool
all_ok p [] = ok true
all_ok p (x ∷ xs) = p x >>= λ b. if b then all_ok p xs else ok false

unfoldable pub filter_map_ok :
    {E A B : Type 0} → (A → Outcome E (Option B)) → List A → Outcome E (List B)
filter_map_ok f [] = ok []
filter_map_ok f (x ∷ xs) =
    f x >>= λ y. filter_map_ok f xs >>= λ ys. ok (elim y [ none ↦ ys | some z ↦ z ∷ ys ])

-- A result with the state that is left, and what is done next with both.
abbrev pub and_with :
    {E S A B : Type 0} → Outcome E A × S → (A → S → Outcome E B × S) → Outcome E B × S
and_with (ok a, s) next = next a s
and_with (err e, s) next = (err e, s)
and_with (panic, s) next = (panic, s)

-- Two chains agree when they agree after each first result.
pub and_with-chain :
    {E S A B D : Type 0} (first : Outcome E A × S) (left : A → S → Outcome E B × S)
    (right : A → S → Outcome E B × S) (after : B → S → Outcome E D × S)
    (after_right : B → S → Outcome E D × S)
    → ((a : A) (s : S) → and_with (left a s) after ≡ and_with (right a s) after_right)
    → and_with (and_with first left) after ≡ and_with (and_with first right) after_right
and_with-chain (ok a, s) left right after after_right agree = agree a s
and_with-chain (err e, s) left right after after_right agree = refl
and_with-chain (panic, s) left right after after_right agree = refl

pub and_with-scope :
    {E S A B D : Type 0} (first : Outcome E A × S) (left : A → S → Outcome E B × S)
    (after : B → S → Outcome E D × S) {right : A → S → Outcome E D × S}
    → ((a : A) (s : S) → and_with (left a s) after ≡ right a s)
    → and_with (and_with first left) after ≡ and_with first right
and_with-scope (ok a, s) left after agree = agree a s
and_with-scope (err e, s) left after agree = refl
and_with-scope (panic, s) left after agree = refl
