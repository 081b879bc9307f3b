-- ===== src/Base/Text.antt =====
-- Numbers written in decimal, and texts joined, as `format!` does.
use Prim.Native.Nat.{ℕ, zero, suc, ◌/◌, ◌%◌}
use Prim.Native.String.{String, ◌++◌}
use rust_game_harry_potter.Base.Tests.{ltb, if◌then◌else◌}

abbrev pub join : String → String → String
join s t = s ++ t

abbrev pub digit : ℕ → String
digit zero = "0"
digit (suc zero) = "1"
digit (suc (suc zero)) = "2"
digit (suc (suc (suc zero))) = "3"
digit (suc (suc (suc (suc zero)))) = "4"
digit (suc (suc (suc (suc (suc zero))))) = "5"
digit (suc (suc (suc (suc (suc (suc zero)))))) = "6"
digit (suc (suc (suc (suc (suc (suc (suc zero))))))) = "7"
digit (suc (suc (suc (suc (suc (suc (suc (suc zero)))))))) = "8"
digit _ = "9"

-- At most as many digits as the fuel.
unfoldable pub digits : ℕ → ℕ → String
digits zero n = digit n
digits (suc fuel) n =
    let front = digits fuel (n / 10) in if ltb n 10 then digit n else front ++ digit (n % 10)

-- `{n}` in a format string. A number has fewer digits than its value plus one.
unfoldable pub decimal : ℕ → String
unfolding digits
decimal n = digits n n
