-- ===== src/Common/Text.antt =====
-- Text constants as the program's bytes, and numbers as `printf` writes them.
use Prim.Native.Nat.{ℕ, zero, suc, ◌+◌, ◌/◌, ◌%◌}
use Prim.Native.Char.{code}
use Prim.Native.String.{String}
use mathlib.Core.List.{List, [], ◌∷◌, ◌++◌}
use ntlinux.Common.Tests.{ltb, if◌then◌else◌}

-- The bytes of a text in ASCII.
abbrev pub codes : String → List ℕ
codes String.[] = []
codes (String.◌∷◌ c s) = code c ∷ codes s

-- `%0<n>x`: `n` hexadecimal digits, the lowest last.
unfoldable pub hex_digit : ℕ → ℕ
hex_digit d = if ltb d 10 then 48 + d else 87 + d

unfoldable pub hex : ℕ → ℕ → List ℕ
hex zero h = []
hex (suc n) h = hex n (h / 16) ++ hex_digit (h % 16) ∷ []

-- `%u`, `%lu` and `%zu`: the decimal digits, 20 at most.
unfoldable pub decimal_from : ℕ → ℕ → List ℕ
decimal_from zero n = []
decimal_from (suc fuel) n =
    let rest = decimal_from fuel (n / 10) in
    let digit = 48 + n % 10 in if ltb n 10 then digit ∷ [] else rest ++ digit ∷ []

unfoldable pub decimal : ℕ → List ℕ
decimal n = decimal_from 20 n
