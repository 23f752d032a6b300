-- ===== src/Accelerator/Rates.antt =====
-- `IBMAccelerator::getOneBitErrorRates` and `getTwoBitErrorRates` (accelerator/IBMAccelerator.cpp).
-- `xacc::split` is the argument `split`.
use xacc_ibm.Common.{
  ℕ, ◌+◌, List, [], ◌∷◌, Result, ok, at_hand, ◌>>=◌, get_elem?, ◌==◌, ◌&&◌, if◌then◌else◌,
}
use xacc_ibm.Common.Text.{Text}
use xacc_ibm.Common.Int.{ℤ}
use xacc_ibm.Common.Numbers.{stoi}
use xacc_ibm.Accelerator.{Accelerator}

abbrev pub get_one_bit_error_rates : {D : Type 0} → Accelerator D → List D
get_one_bit_error_rates a = a.chosen_backend.gate_errors

-- `std::regex_replace(mqg, std::regex("CX"), "")`
unfoldable pub remove_cx : Text → Text
remove_cx [] = []
remove_cx (c ∷ []) = c ∷ []
remove_cx (c ∷ d ∷ s) =
    let behind = remove_cx s in
    let rest = remove_cx (d ∷ s) in if c == b'C' && d == b'X' then behind else c ∷ rest

module _ {D : Type 0} (split : Text → ℕ → List Text) where
  -- The loop, from gate `i` on.
  unfoldable pub two_bit_from : List D → ℕ → List Text → Result (List ((ℤ × ℤ) × D))
  unfolding remove_cx
  two_bit_from errors i [] = ok []
  two_bit_from errors i (g ∷ gs) = do
    let pieces = split (remove_cx g) b'_'
    first ← at_hand (get_elem? pieces 0)
    s ← stoi first
    second ← at_hand (get_elem? pieces 1)
    t ← stoi second
    e ← at_hand (get_elem? errors i)
    rest ← two_bit_from errors (i + 1) gs
    ok (((s, t), e) ∷ rest)

  unfoldable pub get_two_bit_error_rates : Accelerator D → Result (List ((ℤ × ℤ) × D))
  unfolding two_bit_from
  get_two_bit_error_rates a =
      two_bit_from a.chosen_backend.multi_qubit_gate_errors 0 a.chosen_backend.multi_qubit_gates
