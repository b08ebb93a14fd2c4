-- ===== src/Base/Names.antt =====
-- Lists of names that are all different, built from the front.
use mathlib.Core.Path.{◌≡◌}
use mathlib.Core.Bool.{Bool, true, false, not, ◌&&◌}
use mathlib.Core.List.{List, [], ◌∷◌, ◌++◌}
use native.Mathlib.Omega.{arith}
use Prim.Native.String.{String}
use text.Mathlib.Text.{◌==◌}
use prisma_engine.Base.Search.{any}

-- No name is among those before it, or among those that are taken.
unfoldable pub are_new : List String → List String → Bool
unfolding any
are_new taken [] = true
are_new taken (x ∷ xs) =
    let rest = are_new (taken ++ x ∷ []) xs in not (any (λ t. t == x) taken) && rest

pub are_new-cons :
    (taken : List String) (x : String) (xs : List String)
    → are_new taken (x ∷ xs) ≡ true
    → (any (λ t. t == x) taken ≡ false) × (are_new (taken ++ x ∷ []) xs ≡ true)
unfolding are_new
are_new-cons taken x xs h = ground arith
