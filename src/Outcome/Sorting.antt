-- ===== src/Outcome/Sorting.antt =====
-- The order of the sorted supports.
use xacc_ibm.Common.{ℕ, ◌≤◌, ◌≡◌, refl, List, [], ◌∷◌, leb, All, arith, Bool-cases, inl, inr}
use xacc_ibm.Outcome.{insert_sorted, sort}

abbrev pub IsAscending : List ℕ → Type 0
IsAscending [] = Unit
IsAscending (x ∷ xs) = All (λ y. x ≤ y) xs × IsAscending xs

All-insert_sorted :
    (n a : ℕ) (xs : List ℕ) → n ≤ a → All (λ y. n ≤ y) xs → All (λ y. n ≤ y) (insert_sorted a xs)
unfolding insert_sorted
All-insert_sorted n a [] p h = (p, tt)
All-insert_sorted n a (x ∷ xs) p h = ground (arith, All-insert_sorted n a xs)

All-mono : (m n : ℕ) (xs : List ℕ) → m ≤ n → All (λ y. n ≤ y) xs → All (λ y. m ≤ y) xs
All-mono m n [] p h = tt
All-mono m n (x ∷ xs) p h = (omega (arith, h.0), All-mono m n xs p h.1)

insert_sorted-IsAscending :
    (a : ℕ) (xs : List ℕ) → IsAscending xs → IsAscending (insert_sorted a xs)
unfolding insert_sorted
insert_sorted-IsAscending a [] h = (tt, tt)
insert_sorted-IsAscending a (x ∷ xs) h = elim (Bool-cases (leb a x)) [
  | inl e ↦ rw e ((ground arith, All-mono a x xs (ground arith) h.0), h)
  | inr e ↦ rw e (All-insert_sorted x a xs (ground arith) h.0, insert_sorted-IsAscending a xs h.1)
]

pub sort-IsAscending : (xs : List ℕ) → IsAscending (sort xs)
unfolding sort
sort-IsAscending [] = tt
sort-IsAscending (x ∷ xs) = insert_sorted-IsAscending x (sort xs) (sort-IsAscending xs)

insert_sorted_front : (a : ℕ) (xs : List ℕ) → All (λ y. a ≤ y) xs → insert_sorted a xs ≡ a ∷ xs
unfolding insert_sorted
insert_sorted_front a [] h = refl
insert_sorted_front a (x ∷ xs) h = ground arith

pub sort_of_IsAscending : (xs : List ℕ) → IsAscending xs → sort xs ≡ xs
unfolding sort
sort_of_IsAscending [] h = refl
sort_of_IsAscending (x ∷ xs) h = rw (sort_of_IsAscending xs h.1) (insert_sorted_front x xs h.0)

pub sort-sort : (xs : List ℕ) → sort (sort xs) ≡ sort xs
sort-sort xs = sort_of_IsAscending (sort xs) (sort-IsAscending xs)
