-- ===== src/Common/Decimals.antt =====
-- Numbers that are printed are read back.
use Prim.Native.Nat.{ℕ, zero, suc, ◌+◌, ◌*◌, ◌/◌, ◌%◌, ◌^◌, ◌≤◌, ◌<◌}
use mathlib.Core.Path.{◌≡◌, ap, ◌∙◌}
use mathlib.Core.Logic.{inl, inr}
use mathlib.Core.Bool.{true}
use mathlib.Core.List.{[], ◌∷◌}
use native.Mathlib.Omega.{arith}
use xacc_ibm.Common.Tests.{Bool-cases, ltb, if◌then◌else◌}
use xacc_ibm.Common.Results.{ok, err, thrown}
use xacc_ibm.Common.Text.{Text, decimal, to_string}
use xacc_ibm.Common.Int.{pos}
use xacc_ibm.Common.Numbers.{digits_value, starts_with_digit, unsigned, skip_spaces, stoi}

-- A digit behind the value of those before it.
digits_value-digit :
    (n d : ℕ) (s : Text) → d < 10 → digits_value n ((48 + d) ∷ s) ≡ digits_value (n * 10 + d) s
unfolding digits_value
digits_value-digit n d s l = ground arith

small_lem : (n : ℕ) → ltb n 10 ≡ true → 0 * 10 + n % 10 ≡ n
small_lem n h = ground (arith, h)

tenth_le : (fuel n : ℕ) → n ≤ suc fuel → n / 10 ≤ fuel
tenth_le fuel n l = omega (arith, l)

-- Reading what is printed before `acc` gives the number that is printed.
digits_value-decimal :
    (fuel n : ℕ) (acc : Text) → n ≤ fuel → digits_value 0 (decimal fuel n acc) ≡ digits_value n acc
unfolding decimal
digits_value-decimal zero n acc l = ground (arith, digits_value-digit 0 (n % 10) acc (omega arith))
digits_value-decimal (suc fuel) n acc l = elim (Bool-cases (ltb n 10)) [
  | inl small ↦ rw small (
      digits_value-digit 0 (n % 10) acc (omega arith)
      ∙ ap (λ m. digits_value m acc) (small_lem n small))
  | inr large ↦ rw large (
      digits_value-decimal fuel (n / 10) ((48 + n % 10) ∷ acc) (tenth_le fuel n l)
      ∙ digits_value-digit (n / 10) (n % 10) acc (omega arith)
      ∙ ap (λ m. digits_value m acc) (omega arith))
]

starts_with_digit-decimal :
    (fuel n : ℕ) (acc : Text) → starts_with_digit (decimal fuel n acc) ≡ true
unfolding decimal starts_with_digit
starts_with_digit-decimal zero n acc = ground arith
starts_with_digit-decimal (suc fuel) n acc =
    ground (arith, starts_with_digit-decimal fuel (n / 10) ((48 + n % 10) ∷ acc))

-- Digits at the front are neither blanks nor a sign.
stoi-unsigned : (s : Text) → starts_with_digit s ≡ true → stoi s ≡ unsigned s
unfolding stoi skip_spaces starts_with_digit
stoi-unsigned [] h = absurd (cc h)
stoi-unsigned (c ∷ s) h = ground (arith, h)

pub stoi-to_string :
    (n : ℕ) → stoi (to_string n) ≡ (if ltb n (2 ^ 31) then ok (pos n) else err thrown)
unfolding to_string unsigned digits_value
stoi-to_string n = rw (
  stoi-unsigned (decimal n n []) (starts_with_digit-decimal n n []),
  starts_with_digit-decimal n n [],
  digits_value-decimal n n [] (omega arith),
)
