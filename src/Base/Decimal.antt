-- ===== src/Base/Decimal.antt =====
-- Numbers as Rust prints them.
use Prim.Native.Nat.{ℕ, zero, suc, ◌/◌, ◌%◌}
use Prim.Native.String.{String, ◌++◌}
use mathlib.Core.List.{[], ◌∷◌}
use prisma_engine.Base.Tests.{if◌then◌else◌, ltb}
use prisma_engine.Base.Search.{get_elem?, unwrap_or}

-- A number in decimal digits, which are at most one more than the number.
abbrev digit : ℕ → String
digit n =
    unwrap_or (get_elem? ("0" ∷ "1" ∷ "2" ∷ "3" ∷ "4" ∷ "5" ∷ "6" ∷ "7" ∷ "8" ∷ "9" ∷ []) n) ""

digits : ℕ → ℕ → String
digits zero n = ""
digits (suc fuel) n =
    let rest = digits fuel (n / 10) in if ltb n 10 then digit n else rest ++ digit (n % 10)

unfoldable pub decimal : ℕ → String
unfolding digits
decimal n = digits (suc n) n
