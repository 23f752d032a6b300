-- ===== src/Listener/Indices.antt =====
-- The qubits that the callbacks read (`std::stoi` on `INT()->getText()`, compiler/OQASMToXACCListener.cpp).
use xacc_ibm.Common.{
  ◌&&◌, Bool, ℕ, ◌^◌, ◌<◌, ◌≡◌, refl, Bool-cases, inl, inr, true, List, [], ◌∷◌, map, Option, some,
  ok, err, thrown, ltb, if◌then◌else◌, arith,
}
use xacc_ibm.Common.Text.{Text, to_string}
use xacc_ibm.Common.Decimals.{stoi-to_string}
use xacc_ibm.Listener.{read_index, read_indices}

abbrev pub printed : List ℕ → List (Option Text)
printed qs = map (λ q. some (to_string q)) qs

-- Whether they all fit into an int.
abbrev pub fit : List ℕ → Bool
fit [] = true
fit (q ∷ qs) = ltb q (2 ^ 31) && fit qs

pub read_index-to_string :
    (q : ℕ) → read_index (some (to_string q)) ≡ (if ltb q (2 ^ 31) then ok q else err thrown)
unfolding read_index
read_index-to_string q =
    rw (stoi-to_string q)
      (elim (Bool-cases (ltb q (2 ^ 31))) [ inl t ↦ rw t refl | inr f ↦ rw f refl ])

-- Any list of qubits that is printed in decimal is read back by the callbacks as the same list,
-- where every qubit is below 2^31; where one is not, reading them is an exception.
pub read_indices-printed :
    (qs : List ℕ) → read_indices (printed qs) ≡ (if fit qs then ok qs else err thrown)
unfolding read_indices
read_indices-printed [] = refl
read_indices-printed (q ∷ qs) =
    rw (read_index-to_string q, read_indices-printed qs)
      (elim (Bool-cases (ltb q (2 ^ 31))) [
        | inl t ↦ rw t (elim (Bool-cases (fit qs)) [ inl u ↦ rw u refl | inr v ↦ rw v refl ])
        | inr f ↦ rw f refl
      ])

pub read_index-fits : (q : ℕ) → q < 2 ^ 31 → read_index (some (to_string q)) ≡ ok q
read_index-fits q l = rw (read_index-to_string q) (ground (arith, l))
