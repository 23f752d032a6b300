-- ===== src/Tests/Measuring.antt =====
-- Measurement outcomes of a buffer of four qubits of which 2 and 0 were measured.
use xacc_ibm.Common.{
  ℕ, ◌-◌, ◌<◌, ◌≡◌, refl, List, [], ◌∷◌, some, ok, true, leb, length, arith, get_elem?, contains,
}
use Prim.Native.Nat.{min}
use xacc_ibm.Common.Text.{Text, codes}
use xacc_ibm.Outcome.{
  widen, sort, from_device, from_simulator, strip, place, insert_sorted, mask, mask_from, cut,
}
use xacc_ibm.Outcome.{outcome}
use xacc_ibm.Outcome.Bits.{are_bits, outcome-bits}
use xacc_ibm.Outcome.Placement.{dealt, or, widen_lem}
use xacc_ibm.Outcome.Masking.{qubit, keep, from_device_lem}
use xacc_ibm.Local.{Accelerator, Buffer, fill, create_full_buffer}
use xacc_ibm.Accelerator.{is_valid_buffer_size}
use xacc_ibm.Common.Int.{pos}
use xacc_ibm.Local.Counts.{with_outcomes, fill_lem}

-- Qubit 2 has the left bit, qubit 0 the right one.
from_simulator_blanks : from_simulator 4 (2 ∷ 0 ∷ []) (codes "1 0") ≡ ok (codes "0100")
unfolding from_simulator strip widen place sort insert_sorted
from_simulator_blanks = refl

from_device_cut : from_device 4 (2 ∷ 0 ∷ []) (codes "1011111") ≡ codes "0101"
unfolding from_device mask mask_from cut
from_device_cut = refl

widen_lem_example :
    (wide : Text) × (widen 4 (2 ∷ 0 ∷ []) (codes "10") ≡ ok wide)
    × (length wide ≡ 4)
    × ((k : ℕ)
        → k < 4
        → get_elem? wide (4 - 1 - k) ≡ or (dealt (sort (2 ∷ 0 ∷ [])) (codes "01") k) (some b'0'))
widen_lem_example =
    widen_lem 4 (2 ∷ 0 ∷ []) (codes "10") (refl, (refl, tt)) (omega arith, (omega arith, tt))
      (omega arith)

from_device_lem_example :
    (length (from_device 4 (2 ∷ 0 ∷ []) (codes "1011111")) ≡ min 4 7)
    × ((k : ℕ)
        → k < 4
        → qubit (from_device 4 (2 ∷ 0 ∷ []) (codes "1011111")) k
          ≡ keep (contains (2 ∷ 0 ∷ []) k) (qubit (codes "1011111") k))
from_device_lem_example = from_device_lem 4 (2 ∷ 0 ∷ []) (codes "1011111")

abbrev counts : List (Text × ℕ)
counts = (codes "10", 2) ∷ (codes "01", 1) ∷ []

abbrev empty_buffer : Buffer
empty_buffer = record { name = codes "b"; size = 4; outcomes = [] }

abbrev fresh : Accelerator
fresh = record { measurement_supports = []; stored = [] }

fill_lem_example :
    fill 4 (2 ∷ 0 ∷ []) counts empty_buffer fresh
    ≡ with_outcomes empty_buffer fresh (ok (codes "0100" ∷ codes "0100" ∷ codes "0001" ∷ []))
unfolding widen place sort insert_sorted
fill_lem_example = fill_lem 4 (2 ∷ 0 ∷ []) counts empty_buffer fresh

-- A buffer without a size has the greatest size that is valid.
full_buffer :
    create_full_buffer (codes "b") fresh
    ≡ ok (
      record { name = codes "b"; size = 30; outcomes = [] },
      record { measurement_supports = []; stored = (codes "b", pos 30) ∷ [] },
    )
unfolding create_full_buffer is_valid_buffer_size
full_buffer = refl

-- Two bits with a blank between, for the qubits 0 and 3 of five.
spread : outcome true 5 (3 ∷ 0 ∷ []) (codes "1 0") ≡ ok (codes "01000")
unfolding outcome from_simulator widen strip place sort insert_sorted
spread = refl

blanks_aside : are_bits (strip (codes "1 0")) ≡ true
unfolding strip
blanks_aside = refl

outcome-bits_example : (are_bits (codes "01000") ≡ true) × (leb 5 (length (codes "01000")) ≡ true)
outcome-bits_example =
    outcome-bits true 5 (3 ∷ 0 ∷ []) (codes "1 0") (codes "01000") blanks_aside spread
