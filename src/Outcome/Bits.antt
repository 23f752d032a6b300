-- ===== src/Outcome/Bits.antt =====
-- Outcomes are texts of the characters 0 and 1.
use mathlib.Core.List.{reverse, reverse-cons}
use xacc_ibm.Common.{
  ℕ, zero, suc, ◌+◌, ◌-◌, ◌≡◌, refl, ◌∙◌, Bool, true, false, ◌&&◌, ◌||◌, List, [], ◌∷◌, ◌++◌, ok,
  length, set, drop, replicate, ltb, leb, ◌==◌, if◌then◌else◌, arith, length-set, length-replicate,
  Bool-cases, inl, inr,
}
use xacc_ibm.Common.Text.{Text}
use xacc_ibm.Outcome.{
  sort, place, widen, strip, from_simulator, mask_from, mask, cut, from_device, outcome,
}
use xacc_ibm.Outcome.Masking.{length-mask, length-cut}

abbrev is_bit : ℕ → Bool
is_bit c = c == b'0' || c == b'1'

abbrev pub are_bits : Text → Bool
are_bits [] = true
are_bits (c ∷ s) = is_bit c && are_bits s

are_bits-append : (s t : Text) → are_bits s ≡ true → are_bits t ≡ true → are_bits (s ++ t) ≡ true
are_bits-append [] t h k = k
are_bits-append (c ∷ s) t h k = ground (arith, h, are_bits-append s t)

are_bits-reverse : (s : Text) → are_bits s ≡ true → are_bits (reverse s) ≡ true
are_bits-reverse [] h = refl
are_bits-reverse (c ∷ s) h =
    let last : are_bits (c ∷ []) ≡ true = ground (arith, h) in
    let others : are_bits s ≡ true = ground (arith, h) in
    rw (reverse-cons c s) (are_bits-append (reverse s) (c ∷ []) (are_bits-reverse s others) last)

are_bits-set :
    (s : Text) (i b : ℕ) → are_bits s ≡ true → is_bit b ≡ true → are_bits (set s i b) ≡ true
are_bits-set [] i b h k = refl
are_bits-set (c ∷ s) zero b h k = ground (arith, h, k)
are_bits-set (c ∷ s) (suc i) b h k = ground (arith, h, are_bits-set s i b)

are_bits-drop : (n : ℕ) (s : Text) → are_bits s ≡ true → are_bits (drop n s) ≡ true
are_bits-drop zero s h = h
are_bits-drop (suc n) [] h = refl
are_bits-drop (suc n) (c ∷ s) h = are_bits-drop n s (ground (arith, h))

are_bits-replicate : (n : ℕ) → are_bits (replicate n b'0') ≡ true
are_bits-replicate zero = refl
are_bits-replicate (suc n) = are_bits-replicate n

are_bits-mask_from :
    (supports : List ℕ) (counter : ℕ) (s : Text)
    → are_bits s ≡ true
    → are_bits (mask_from supports counter s) ≡ true
unfolding mask_from
are_bits-mask_from supports counter [] h = refl
are_bits-mask_from supports counter (c ∷ s) h =
    ground (arith, h, are_bits-mask_from supports (counter + 1) s)

-- Placing bits into bits of the buffer's length.
place-bits :
    (size : ℕ) (qs bs : List ℕ) (s t : Text)
    → are_bits bs ≡ true
    → are_bits s ≡ true
    → place size qs bs s ≡ ok t
    → (are_bits t ≡ true) × (length t ≡ length s)
unfolding place
place-bits size qs [] s t hb hs h = let same : s ≡ t = cc h in (rw (← same) hs, rw (← same) refl)
place-bits size [] (b ∷ bs) s t hb hs h = absurd (cc h)
place-bits size (q ∷ qs) (b ∷ bs) s t hb hs h =
    let first : is_bit b ≡ true = ground (arith, hb) in
    let others : are_bits bs ≡ true = ground (arith, hb) in
    elim (Bool-cases (ltb q size)) [
      | inr e ↦ absurd (cc (rw e at h))
      | inl e ↦
          let (bits, size_kept) =
            place-bits size qs bs (set s (size - 1 - q) b) t others
              (are_bits-set s (size - 1 - q) b hs first) (rw e at h) in
          (bits, size_kept ∙ length-set s (size - 1 - q) b)
    ]

are_bits-mask :
    (supports : List ℕ) (s : Text) → are_bits s ≡ true → are_bits (mask supports s) ≡ true
unfolding mask
are_bits-mask supports s h =
    are_bits-reverse (mask_from supports 0 (reverse s))
      (are_bits-mask_from supports 0 (reverse s) (are_bits-reverse s h))

are_bits-cut : (size : ℕ) (s : Text) → are_bits s ≡ true → are_bits (cut size s) ≡ true
unfolding cut
are_bits-cut size s h = elim (Bool-cases (ltb size (length s))) [
  | inl e ↦ rw e (are_bits-drop (length s - size) s h)
  | inr e ↦ rw e h
]

device-bits :
    (size : ℕ) (supports : List ℕ) (s : Text)
    → are_bits s ≡ true
    → (are_bits (from_device size supports s) ≡ true)
      × (leb (length (from_device size supports s)) size ≡ true)
unfolding from_device
device-bits size supports s h = (
  are_bits-mask supports (cut size s) (are_bits-cut size s h),
  rw (length-mask supports (cut size s), length-cut size s) (ground arith),
)

-- When the bit string of a count has the characters 0 and 1 only, blanks aside on a simulator, and
-- an outcome is made of it, the outcome has the characters 0 and 1 only; on a simulator it is at
-- least as long as the buffer, and on a device at most.
pub outcome-bits :
    (sim : Bool) (size : ℕ) (supports : List ℕ) (s t : Text)
    → are_bits (if sim then strip s else s) ≡ true
    → outcome sim size supports s ≡ ok t
    → (are_bits t ≡ true) × ((if sim then leb size (length t) else leb (length t) size) ≡ true)
unfolding outcome from_simulator widen
outcome-bits true size supports s t h e = elim (Bool-cases (ltb (length (strip s)) size)) [
  | inl short ↦
      let (bits, wide) =
        place-bits size (sort supports) (reverse (strip s)) (replicate size b'0') t
          (are_bits-reverse (strip s) h) (are_bits-replicate size) (rw short at e) in
      (bits, ground (arith, wide, length-replicate {A = ℕ} size b'0'))
  | inr long ↦
      let same : strip s ≡ t = cc (rw long at e) in
      (rw (← same) h, rw (← same) (ground (arith, long)))
]
outcome-bits false size supports s t h e =
    let same : from_device size supports s ≡ t = cc e in
    let (bits, short) = device-bits size supports s h in (rw (← same) bits, rw (← same) short)
