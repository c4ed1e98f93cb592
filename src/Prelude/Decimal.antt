-- ===== src/Prelude/Decimal.antt =====
-- Numbers as decimal texts, for `format!`.
use Prim.Native.Nat.{ℕ, zero, suc, ◌/◌, ◌%◌}
use Prim.Native.String.{String}
use visuara.Prelude.Tests.{ltb, if◌then◌else◌}
use visuara.Prelude.Text.{◌+s◌}

unfoldable pub digit : ℕ → String
digit zero = "0"
digit (suc zero) = "1"
digit (suc (suc zero)) = "2"
digit (suc (suc (suc zero))) = "3"
digit (suc (suc (suc (suc zero)))) = "4"
digit (suc (suc (suc (suc (suc zero))))) = "5"
digit (suc (suc (suc (suc (suc (suc zero)))))) = "6"
digit (suc (suc (suc (suc (suc (suc (suc zero))))))) = "7"
digit (suc (suc (suc (suc (suc (suc (suc (suc zero)))))))) = "8"
digit _ = "9"

-- `{:0width}` of a number with at most `width` digits.
unfoldable pub decimal_padded : ℕ → ℕ → String
unfolding digit
decimal_padded zero n = ""
decimal_padded (suc width) n = decimal_padded width (n / 10) +s digit (n % 10)

-- `{}`; a number has fewer digits than its own value, plus one.
unfoldable pub decimal_from : ℕ → ℕ → String
decimal_from zero n = digit n
decimal_from (suc fuel) n =
    let more = decimal_from fuel (n / 10) +s digit (n % 10) in if ltb n 10 then digit n else more

unfoldable pub decimal : ℕ → String
unfolding decimal_from digit
decimal n = decimal_from n n
