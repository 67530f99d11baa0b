-- ===== src/Base/Decimal.antt =====
-- A number in a template literal.
use Prim.Native.Nat.{ℕ, zero, suc, ◌/◌, ◌%◌}
use Prim.Native.String.{String}
use mathlib.Core.List.{List, [], ◌∷◌}
use dokion.Base.Tests.{ltb, if◌then◌else◌}
use dokion.Base.Lists.{◌⧺◌}

abbrev pick : List String → ℕ → String
pick [] n = ""
pick (x ∷ xs) zero = x
pick (x ∷ xs) (suc n) = pick xs n

abbrev digit : ℕ → String
digit = pick ("0" ∷ "1" ∷ "2" ∷ "3" ∷ "4" ∷ "5" ∷ "6" ∷ "7" ∷ "8" ∷ "9" ∷ [])

-- the digits of `n`, of which there are at most `fuel + 1`
abbrev decimal_within : ℕ → ℕ → String
decimal_within zero n = digit n
decimal_within (suc fuel) n =
    let front = decimal_within fuel (n / 10) in if ltb n 10 then digit n else front ⧺ digit (n % 10)

-- `${n}`: a number has no more digits than it counts
abbrev pub decimal : ℕ → String
decimal n = decimal_within n n
