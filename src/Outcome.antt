-- ===== src/Outcome.antt =====
-- Measurement outcomes as bit strings: what `IBMAccelerator::processResponse`
-- (accelerator/IBMAccelerator.cpp) and `LocalIBMAccelerator::execute`
-- (accelerator/LocalIBMAccelerator.cpp) do to the name of a count before they store it.
-- The leftmost character is the most significant: qubit q of an n-qubit buffer is character n - 1 - q.
pub mod Placement
pub mod Masking
pub mod Bits
pub mod Sorting
use mathlib.Core.List.{reverse}
use xacc_ibm.Common.{
  ℕ, ◌+◌, ◌-◌, Bool, true, false, not, ◌&&◌, ◌||◌, List, [], ◌∷◌, ◌++◌, Result, ok, err, undefined,
  ◌>>=◌, length, set, drop, replicate, contains, ltb, leb, ◌==◌, if◌then◌else◌,
}
use xacc_ibm.Common.Text.{Text}

-- `::isspace`
abbrev pub is_space : ℕ → Bool
is_space c = c == 32 || leb 9 c && leb c 13

-- `erase(remove_if(..., ::isspace), end())`
unfoldable pub strip : Text → Text
strip [] = []
strip (c ∷ s) = let rest = strip s in if is_space c then rest else c ∷ rest

-- `std::sort` of the measured qubits
unfoldable pub insert_sorted : ℕ → List ℕ → List ℕ
insert_sorted a [] = a ∷ []
insert_sorted a (x ∷ xs) = if leb a x then a ∷ x ∷ xs else x ∷ insert_sorted a xs

unfoldable pub sort : List ℕ → List ℕ
unfolding insert_sorted
sort [] = []
sort (x ∷ xs) = insert_sorted x (sort xs)

-- The loop `for (i = bitStr.length() - 1; i >= 0; i--)`: the supports from `counter` on, the bits from
-- `i` down, and `bitString`. An index out of range is undefined.
unfoldable pub place : ℕ → List ℕ → List ℕ → Text → Result Text
place size qs [] s = ok s
place size [] (b ∷ bs) s = err undefined
place size (q ∷ qs) (b ∷ bs) s =
    let rest = place size qs bs (set s (size - 1 - q) b) in
    if ltb q size then rest else err undefined

-- The zeros of `bitString`, and the loop over the sorted supports.
unfoldable pub widen : ℕ → List ℕ → Text → Result Text
unfolding place
widen size supports s = place size (sort supports) (reverse s) (replicate size b'0')

-- The simulator's branch: blanks go, and a short string is widened to the buffer.
unfoldable pub from_simulator : ℕ → List ℕ → Text → Result Text
unfolding strip widen
from_simulator size supports s =
    let bits = strip s in
    let wide = widen size supports bits in if ltb (length bits) size then wide else ok bits

-- The loop that turns off what was not measured, from the right, with `counter`.
unfoldable pub mask_from : List ℕ → ℕ → Text → Text
mask_from supports counter [] = []
mask_from supports counter (c ∷ s) =
    (if contains supports counter then c else b'0') ∷ mask_from supports (counter + 1) s

unfoldable pub mask : List ℕ → Text → Text
unfolding mask_from
mask supports s = reverse (mask_from supports 0 (reverse s))

-- `substr(length - size, length)` of a string that is longer than the buffer
unfoldable pub cut : ℕ → Text → Text
cut size s = if ltb size (length s) then drop (length s - size) s else s

-- The device's branch.
unfoldable pub from_device : ℕ → List ℕ → Text → Text
unfolding cut mask
from_device size supports s = mask supports (cut size s)

-- What is stored for a count, on the backend's kind.
unfoldable pub outcome : Bool → ℕ → List ℕ → Text → Result Text
unfolding from_simulator from_device
outcome true size supports s = from_simulator size supports s
outcome false size supports s = ok (from_device size supports s)

-- The local simulator's branch: the supports of the kernel are sorted in place, so the next short
-- string finds them sorted. The string that is stored, and the supports.
unfoldable pub local_outcome : ℕ → List ℕ → Text → Result (Text × List ℕ)
unfolding place
local_outcome size supports s =
    if ltb (length s) size
    then (do
      let sorted = sort supports
      s' ← place size sorted (reverse s) (replicate size b'0')
      ok (s', sorted))
    else ok (s, supports)
