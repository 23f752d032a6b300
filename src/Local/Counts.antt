-- ===== src/Local/Counts.antt =====
-- The outcomes of the local simulator are those of `Outcome`: sorting the supports in place, again and
-- again, changes nothing.
use xacc_ibm.Common.{
  ℕ, ◌≡◌, refl, ◌∙◌, Bool, true, false, List, [], ◌∷◌, ◌++◌, ok, ltb, if◌then◌else◌, length,
  replicate, append-nil, append_assoc, Bool-cases, Result-cases, inl, inr, Result, err, ap,
}
use xacc_ibm.Common
use xacc_ibm.Common.Text.{Text}
use xacc_ibm.Outcome.{sort, widen, local_outcome}
use xacc_ibm.Outcome.Sorting.{sort-sort}
use xacc_ibm.Local.{Buffer, Accelerator, fill, append_times}

-- What is stored for one bit string.
abbrev pub stored_as : ℕ → List ℕ → Text → Result Text
stored_as size supports s = if ltb (length s) size then widen size supports s else ok s

-- The bit strings of all counts, each as often as it was counted.
abbrev pub expanded : ℕ → List ℕ → List (Text × ℕ) → Result (List Text)
expanded size supports [] = ok []
expanded size supports ((s, n) ∷ counts) =
    Common.◌>>=◌ (stored_as size supports s)
      λ s'. Common.◌>>=◌ (expanded size supports counts) λ rest. ok (replicate n s' ++ rest)

-- Supports that have been sorted do as well.
widen-sort :
    (size : ℕ) (supports : List ℕ) (s : Text) → widen size (sort supports) s ≡ widen size supports s
unfolding widen
widen-sort size supports s = rw sort-sort

stored_as-sort :
    (size : ℕ) (supports : List ℕ) (s : Text)
    → stored_as size (sort supports) s ≡ stored_as size supports s
stored_as-sort size supports s = rw (widen-sort size supports s)

expanded-sort :
    (size : ℕ) (supports : List ℕ) (counts : List (Text × ℕ))
    → expanded size (sort supports) counts ≡ expanded size supports counts
expanded-sort size supports [] = refl
expanded-sort size supports ((s, n) ∷ counts) =
    rw (stored_as-sort size supports s, expanded-sort size supports counts)

abbrev pub with_outcomes : Buffer → Accelerator → Result (List Text) → Result (Buffer × Accelerator)
with_outcomes b a (ok ss) = ok (record b { outcomes = b.outcomes ++ ss }, a)
with_outcomes b a (err e) = err e

-- The supports after one bit string.
abbrev after : ℕ → List ℕ → Text → List ℕ
after size supports s = if ltb (length s) size then sort supports else supports

local_outcome_lem :
    (size : ℕ) (supports : List ℕ) (s : Text)
    → local_outcome size supports s
      ≡ Common.◌>>=◌ (stored_as size supports s) (λ s'. ok (s', after size supports s))
unfolding local_outcome widen
local_outcome_lem size supports s = elim (Bool-cases (ltb (length s) size)) [
  | inl e ↦ rw e
  | inr e ↦ rw e
]

expanded-after :
    (size : ℕ) (supports : List ℕ) (s : Text) (counts : List (Text × ℕ))
    → expanded size (after size supports s) counts ≡ expanded size supports counts
expanded-after size supports s counts = elim (Bool-cases (ltb (length s) size)) [
  | inl e ↦ rw e (expanded-sort size supports counts)
  | inr e ↦ rw e
]

append_rest :
    (s : Text) (n : ℕ) (b : Buffer) (a : Accelerator) (r : Result (List Text))
    → with_outcomes (append_times s n b) a r
      ≡ with_outcomes b a (Common.◌>>=◌ r λ rest. ok (replicate n s ++ rest))
append_rest s n b a (ok ss) = rw append_assoc
append_rest s n b a (err e) = refl

-- Filling a buffer appends the bit strings of its counts, each widened to the buffer by the supports
-- as they were before the loop, as often as it was counted; it fails where one of them cannot be
-- widened, and leaves the accelerator alone.
pub fill_lem :
    (size : ℕ) (supports : List ℕ) (counts : List (Text × ℕ)) (b : Buffer) (a : Accelerator)
    → fill size supports counts b a ≡ with_outcomes b a (expanded size supports counts)
unfolding fill
fill_lem size supports [] b a = rw append-nil
fill_lem size supports ((s, n) ∷ counts) b a = elim (Result-cases (stored_as size supports s)) [
  | inl (s', e) ↦
      rw (local_outcome_lem size supports s, e)
        (fill_lem size (after size supports s) counts (append_times s' n b) a
          ∙ ap (with_outcomes (append_times s' n b) a) (expanded-after size supports s counts)
          ∙ append_rest s' n b a (expanded size supports counts))
  | inr (why, e) ↦ rw (local_outcome_lem size supports s, e)
]
