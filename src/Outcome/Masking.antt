-- ===== src/Outcome/Masking.antt =====
-- What a device's outcome keeps: the characters of the measured qubits.
use mathlib.Core.List.{reverse, reverse-reverse}
use native.Mathlib.Nat.{add-zero, zero-add}
use Prim.Native.Nat.{min}
use xacc_ibm.Common.{
  ℕ, zero, suc, ◌+◌, ◌-◌, ◌<◌, ◌≡◌, refl, ap, ◌∙◌, Bool, List, [], ◌∷◌, Option, none, some, length,
  get_elem?, contains, ltb, if◌then◌else◌, arith, Bool-cases, inl, inr, length-reverse, length-drop,
  get_elem?-reverse-drop,
}
use xacc_ibm.Common.Text.{Text}
use xacc_ibm.Outcome.{mask_from, mask, cut, from_device}

-- The character of qubit `k` of an outcome: the (k+1)-th from the right.
abbrev pub qubit : Text → ℕ → Option ℕ
qubit s k = get_elem? (reverse s) k

abbrev pub keep : Bool → Option ℕ → Option ℕ
keep on none = none
keep on (some c) = some (if on then c else b'0')

shift : (a k : ℕ) → a + suc k ≡ a + 1 + k
shift a k = omega arith

mask_from_lem :
    (supports : List ℕ) (from k : ℕ) (s : Text)
    → get_elem? (mask_from supports from s) k ≡ keep (contains supports (from + k)) (get_elem? s k)
unfolding mask_from
mask_from_lem supports from k [] = refl
mask_from_lem supports from zero (c ∷ s) = rw add-zero
mask_from_lem supports from (suc k) (c ∷ s) =
    rw (shift from k) (mask_from_lem supports (from + 1) k s)

-- Masking keeps the character of a measured qubit and turns off every other.
qubit-mask :
    (supports : List ℕ) (s : Text) (k : ℕ)
    → qubit (mask supports s) k ≡ keep (contains supports k) (qubit s k)
unfolding mask
qubit-mask supports s k = rw (reverse-reverse, mask_from_lem supports 0 k (reverse s), zero-add)

length-mask_from :
    (supports : List ℕ) (from : ℕ) (s : Text) → length (mask_from supports from s) ≡ length s
unfolding mask_from
length-mask_from supports from [] = refl
length-mask_from supports from (c ∷ s) = ap suc (length-mask_from supports (from + 1) s)

pub length-mask : (supports : List ℕ) (s : Text) → length (mask supports s) ≡ length s
unfolding mask
length-mask supports s =
    length-reverse (mask_from supports 0 (reverse s))
    ∙ length-mask_from supports 0 (reverse s)
    ∙ length-reverse s

qubit-cut : (size : ℕ) (s : Text) (k : ℕ) → k < size → qubit (cut size s) k ≡ qubit s k
unfolding cut
qubit-cut size s k h = elim (Bool-cases (ltb size (length s))) [
  | inl e ↦ rw e (get_elem?-reverse-drop (length s - size) s k (ground arith))
  | inr e ↦ rw e
]

pub length-cut : (size : ℕ) (s : Text) → length (cut size s) ≡ min size (length s)
unfolding cut
length-cut size s = elim (Bool-cases (ltb size (length s))) [
  | inl e ↦ rw (e, length-drop (length s - size) s) (ground arith)
  | inr e ↦ rw e (ground arith)
]

-- Of a device's outcome, a longer one is cut to the buffer's size and a shorter one keeps its
-- length; and every qubit of the buffer keeps its character if it was measured, and is '0' if it was
-- not.
pub from_device_lem :
    (size : ℕ) (supports : List ℕ) (s : Text)
    → (length (from_device size supports s) ≡ min size (length s))
      × ((k : ℕ)
          → k < size
          → qubit (from_device size supports s) k ≡ keep (contains supports k) (qubit s k))
unfolding from_device
from_device_lem size supports s = (
  rw (length-mask supports (cut size s)) (length-cut size s),
  λ k h. rw (qubit-mask supports (cut size s) k, qubit-cut size s k h),
)
