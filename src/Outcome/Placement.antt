-- ===== src/Outcome/Placement.antt =====
-- Where the bits of a short outcome go.
use mathlib.Core.List.{reverse}
use xacc_ibm.Common.{
  ℕ, suc, ◌-◌, ◌≤◌, ◌<◌, ◌≡◌, refl, ◌≢◌, ◌∙◌, false, ◌||◌, List, [], ◌∷◌, ok, Option, none, some,
  length, set, get_elem?, replicate, contains, ◌==◌, if◌then◌else◌, All, arith, length-set,
  get_elem?-set_self, get_elem?-set_ne, get_elem?-replicate, length-replicate, Bool-cases, inl, inr,
}
use xacc_ibm.Common.Text.{Text}
use xacc_ibm.Outcome.{insert_sorted, sort, place, widen}

abbrev pub IsDistinct : List ℕ → Type 0
IsDistinct [] = Unit
IsDistinct (x ∷ xs) = (contains xs x ≡ false) × IsDistinct xs

contains-insert_sorted :
    (a b : ℕ) (xs : List ℕ) → contains (insert_sorted a xs) b ≡ (a == b || contains xs b)
unfolding insert_sorted
contains-insert_sorted a b [] = refl
contains-insert_sorted a b (x ∷ xs) = ground (arith, contains-insert_sorted a b xs)

contains-sort : (xs : List ℕ) (b : ℕ) → contains (sort xs) b ≡ contains xs b
unfolding sort
contains-sort [] b = refl
contains-sort (x ∷ xs) b = ground (arith, contains-insert_sorted x b (sort xs), contains-sort xs b)

insert_sorted-IsDistinct :
    (a : ℕ) (xs : List ℕ) → contains xs a ≡ false → IsDistinct xs → IsDistinct (insert_sorted a xs)
unfolding insert_sorted
insert_sorted-IsDistinct a [] h d = (refl, tt)
insert_sorted-IsDistinct a (x ∷ xs) h d =
    ground (arith, contains-insert_sorted a x xs, insert_sorted-IsDistinct a xs)

pub sort-IsDistinct : (xs : List ℕ) → IsDistinct xs → IsDistinct (sort xs)
unfolding sort
sort-IsDistinct [] d = tt
sort-IsDistinct (x ∷ xs) d =
    insert_sorted-IsDistinct x (sort xs) (contains-sort xs x ∙ d.0) (sort-IsDistinct xs d.1)

insert_sorted-All :
    (n a : ℕ) (xs : List ℕ) → a < n → All (λ q. q < n) xs → All (λ q. q < n) (insert_sorted a xs)
unfolding insert_sorted
insert_sorted-All n a [] p h = (p, tt)
insert_sorted-All n a (x ∷ xs) p h = ground (arith, insert_sorted-All n a xs)

pub sort-All : (n : ℕ) (xs : List ℕ) → All (λ q. q < n) xs → All (λ q. q < n) (sort xs)
unfolding sort
sort-All n [] h = tt
sort-All n (x ∷ xs) h = insert_sorted-All n x (sort xs) h.0 (sort-All n xs h.1)

length-insert_sorted : (a : ℕ) (xs : List ℕ) → length (insert_sorted a xs) ≡ suc (length xs)
unfolding insert_sorted
length-insert_sorted a [] = refl
length-insert_sorted a (x ∷ xs) = ground (arith, length-insert_sorted a xs)

pub length-sort : (xs : List ℕ) → length (sort xs) ≡ length xs
unfolding sort
length-sort [] = refl
length-sort (x ∷ xs) = omega (arith, length-insert_sorted x (sort xs), length-sort xs)

-- The bit that is dealt to qubit `k`, if one is: bits are dealt to the qubits of the list in order.
abbrev pub dealt : List ℕ → List ℕ → ℕ → Option ℕ
dealt qs [] k = none
dealt [] (b ∷ bs) k = none
dealt (q ∷ qs) (b ∷ bs) k = if q == k then some b else dealt qs bs k

abbrev pub or : Option ℕ → Option ℕ → Option ℕ
or none d = d
or (some b) d = some b

dealt_of_absent : (qs bs : List ℕ) (k : ℕ) → contains qs k ≡ false → dealt qs bs k ≡ none
dealt_of_absent qs [] k h = refl
dealt_of_absent [] (b ∷ bs) k h = refl
dealt_of_absent (q ∷ qs) (b ∷ bs) k h = ground (arith, dealt_of_absent qs bs k)

-- The result of the loop, for distinct qubits inside the buffer.
pub record Placed (size : ℕ) (qs bs : List ℕ) (s : Text) : Type 0 where
  pub result : Text
  pub returns : place size qs bs s ≡ ok result
  pub width : length result ≡ size
  pub character :
      (k : ℕ)
      → k < size
      → get_elem? result (size - 1 - k) ≡ or (dealt qs bs k) (get_elem? s (size - 1 - k))

-- One write, seen from qubit `k`.
character-set :
    (size q k b : ℕ) (qs bs : List ℕ) (s : Text)
    → q < size
    → k < size
    → length s ≡ size
    → contains qs q ≡ false
    → or (dealt qs bs k) (get_elem? (set s (size - 1 - q) b) (size - 1 - k))
      ≡ or (dealt (q ∷ qs) (b ∷ bs) k) (get_elem? s (size - 1 - k))
character-set size q k b qs bs s hq hk w absent = elim (Bool-cases (q == k)) [
  | inl e ↦
      let same : q ≡ k = ground arith in
      rw
        (
          ← same,
          dealt_of_absent qs bs q absent,
          get_elem?-set_self s (size - 1 - q) b (omega arith),
        )
        (ground arith)
  | inr e ↦
      let apart : size - 1 - q ≢ size - 1 - k = λ p. ground arith in
      rw (e, get_elem?-set_ne s (size - 1 - q) (size - 1 - k) b apart)
]

pub place_lem :
    (size : ℕ) (qs bs : List ℕ) (s : Text)
    → IsDistinct qs
    → All (λ q. q < size) qs
    → length bs ≤ length qs
    → length s ≡ size
    → Placed size qs bs s
unfolding place
place_lem size qs [] s d h l w = record {
  result = s;
  returns = refl;
  width = w;
  character = λ k p. refl;
}
place_lem size [] (b ∷ bs) s d h l w = elim l [ ]
place_lem size (q ∷ qs) (b ∷ bs) s d h l w =
    let more : Placed size qs bs (set s (size - 1 - q) b) =
      place_lem size qs bs (set s (size - 1 - q) b) d.1 h.1 (omega arith)
        (length-set s (size - 1 - q) b ∙ w) in
    record {
      result = more.result;
      returns = ground (arith, more.returns);
      width = more.width;
      character = λ k p. more.character k p ∙ character-set size q k b qs bs s h.0 p w d.0;
    }

-- For distinct measured qubits inside the buffer, and an outcome with at most as many bits as there
-- are measured qubits, the widened outcome has one character for each qubit of the buffer: the j-th
-- bit from the right at the j-th measured qubit in ascending order, and '0' at every other qubit.
pub widen_lem :
    (size : ℕ) (supports : List ℕ) (s : Text)
    → IsDistinct supports
    → All (λ q. q < size) supports
    → length (reverse s) ≤ length supports
    → (wide : Text) × (widen size supports s ≡ ok wide)
      × (length wide ≡ size)
      × ((k : ℕ)
          → k < size
          → get_elem? wide (size - 1 - k) ≡ or (dealt (sort supports) (reverse s) k) (some b'0'))
unfolding widen
widen_lem size supports s d h l =
    let placed : Placed size (sort supports) (reverse s) (replicate size b'0') =
      place_lem size (sort supports) (reverse s) (replicate size b'0') (sort-IsDistinct supports d)
        (sort-All size supports h) (omega (arith, length-sort supports))
        (length-replicate size b'0') in
    (
      placed.result,
      placed.returns,
      placed.width,
      λ k p.
          rw (← get_elem?-replicate {A = ℕ} size (size - 1 - k) b'0' (omega arith))
            (placed.character k p),
    )
