-- ===== src/Base/Decimal.antt =====
-- Numbers in decimal.
use Prim.Native.Nat.{ℕ, zero, suc, ◌+◌, ◌/◌, ◌%◌}
use mathlib.Core.List.{[], ◌∷◌, ◌++◌}
use lite_settings.Base.Tests.{ltb, if◌then◌else◌}
use lite_settings.Base.Text.{Text}

-- `strconv.Itoa` of a number that is not negative; a number has at most as many digits as its value
-- plus one.
unfoldable pub digits_of : ℕ → ℕ → Text
digits_of zero n = []
digits_of (suc f) n =
    let front = digits_of f (n / 10) in
    if ltb n 10 then (n + 48) ∷ [] else front ++ ((n % 10 + 48) ∷ [])

unfoldable pub itoa : ℕ → Text
unfolding digits_of
itoa n = digits_of (suc n) n
