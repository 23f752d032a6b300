-- ===== src/Transform/Edits.antt =====
-- The edits of one round of the transformation: where the instructions go and how far the index moves.
use xacc_ibm.Common.{
  ℕ, suc, ◌+◌, ◌-◌, ◌≡◌, true, List, [], ◌∷◌, ◌++◌, ok, length, length-append, append-nil,
  append_assoc, arith,
}
use native.Mathlib.Nat.{add-zero, zero-add}
use xacc_ibm.Ir.{Inst, gate, hadamard, cnot, Xacc, IsLawful}
use xacc_ibm.Transform.{reversed, insert_all, replace}

module _ {P : Type 0} where
  -- Hadamards round the reversed CNOT.
  abbrev pub flipped : ℕ → ℕ → List (Inst P)
  flipped s t =
      gate hadamard true (s ∷ []) []
      ∷ gate hadamard true (t ∷ []) []
      ∷ gate cnot true (t ∷ s ∷ []) []
      ∷ gate hadamard true (s ∷ []) []
      ∷ gate hadamard true (t ∷ []) []
      ∷ []

  count_up :
      (mid new : List (Inst P)) (i : Inst P)
      → length mid + suc (length new) ≡ length (mid ++ i ∷ []) + length new
  count_up mid new i = omega (arith, length-append mid (i ∷ []))

module _ {P : Type 0} (X : Xacc P) (L : IsLawful X) where
  pub reversed-flipped : (s t : ℕ) → reversed X s t ≡ ok (flipped s t)
  unfolding reversed
  reversed-flipped s t = rw (L.create_h s, L.create_h t, L.create_cnot t s)

  -- Insertion behind what was inserted before.
  insert_behind :
      (pre mid rest : List (Inst P)) (i : Inst P)
      → X.insert_instruction (pre ++ mid ++ rest) (length pre + length mid) i
        ≡ ok (pre ++ mid ++ i ∷ rest)
  insert_behind pre mid rest i = rw (← length-append pre mid) (L.insert_at (pre ++ mid) i rest)

  pub insert_all_lem :
      (new pre mid rest : List (Inst P))
      → insert_all X new (length pre) (length mid) (pre ++ mid ++ rest)
        ≡ ok (pre ++ mid ++ new ++ rest, length mid + length new)
  unfolding insert_all
  insert_all_lem [] pre mid rest = rw (append-nil, add-zero)
  insert_all_lem (i ∷ new) pre mid rest =
      rw (insert_behind pre mid rest i, count_up mid new i, ← length-append mid (i ∷ []))
        (simp append_assoc (simp append_assoc at (insert_all_lem new pre (mid ++ i ∷ []) rest)))

  insert_all_here :
      (new pre rest : List (Inst P))
      → insert_all X new (length pre) 0 (pre ++ rest) ≡ ok (pre ++ new ++ rest, length new)
  insert_all_here new pre rest = simp (append-nil, zero-add) at (insert_all_lem new pre [] rest)

  pub replace_lem :
      (new pre : List (Inst P)) (i : Inst P) (rest : List (Inst P))
      → replace X
          (record { current_idx = length pre; new_instructions = new; kernel = pre ++ i ∷ rest })
        ≡ ok (record {
          current_idx = length pre + (length new - 1);
          new_instructions = new;
          kernel = pre ++ new ++ rest;
        })
  unfolding replace
  replace_lem new pre i rest = rw (L.remove_at pre i rest) (rw (insert_all_here new pre rest))
