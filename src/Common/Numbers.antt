-- ===== src/Common/Numbers.antt =====
-- `std::stoi`: blanks, a sign, digits; an exception with no digit, or a value that does not fit an int.
use Prim.Native.Nat.{ℕ, zero, suc, ◌+◌, ◌-◌, ◌*◌, ◌^◌}
use mathlib.Core.Bool.{Bool, false, ◌&&◌, ◌||◌}
use mathlib.Core.List.{[], ◌∷◌}
use xacc_ibm.Common.Tests.{◌==◌, leb, ltb, if◌then◌else◌}
use xacc_ibm.Common.Results.{Result, ok, err, thrown}
use xacc_ibm.Common.Text.{Text}
use xacc_ibm.Common.Int.{ℤ, pos, negsuc}

abbrev pub is_space : ℕ → Bool
is_space c = c == 32 || leb 9 c && leb c 13

abbrev pub is_digit : ℕ → Bool
is_digit c = leb 48 c && leb c 57

unfoldable pub skip_spaces : Text → Text
skip_spaces [] = []
skip_spaces (c ∷ s) = let rest = skip_spaces s in if is_space c then rest else c ∷ s

-- The digits at the front, after the value of those before them.
unfoldable pub digits_value : ℕ → Text → ℕ
digits_value n [] = n
digits_value n (c ∷ s) =
    let rest = digits_value (n * 10 + (c - 48)) s in if is_digit c then rest else n

unfoldable pub starts_with_digit : Text → Bool
starts_with_digit [] = false
starts_with_digit (c ∷ s) = is_digit c

unfoldable pub unsigned : Text → Result ℤ
unfolding digits_value starts_with_digit
unsigned s =
    let n = digits_value 0 s in
    if starts_with_digit s then (if ltb n (2 ^ 31) then ok (pos n) else err thrown) else err thrown

abbrev pub negate : ℕ → ℤ
negate zero = pos 0
negate (suc n) = negsuc n

unfoldable pub negative : Text → Result ℤ
unfolding digits_value starts_with_digit
negative s =
    let n = digits_value 0 s in
    if starts_with_digit s
    then (if leb n (2 ^ 31) then ok (negate n) else err thrown)
    else err thrown

unfoldable pub signed : Text → Result ℤ
unfolding unsigned negative
signed [] = err thrown
signed (c ∷ s) =
    if c == b'-' then negative s else if c == b'+' then unsigned s else unsigned (c ∷ s)

unfoldable pub stoi : Text → Result ℤ
unfolding signed skip_spaces
stoi s = signed (skip_spaces s)
