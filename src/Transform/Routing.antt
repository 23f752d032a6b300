-- ===== src/Transform/Routing.antt =====
-- What the transformation makes of a kernel: every CNOT is replaced on its own, in place.
use xacc_ibm.Common.{
  ℕ, ◌≡◌, refl, true, false, List, [], ◌∷◌, ◌++◌, ok, length, length-append, append-nil,
  append_assoc, Bool-cases, inl, inr, if◌then◌else◌, All,
}
use native.Mathlib.Nat.{add_assoc}
use xacc_ibm.Ir.{Inst, gate, conditional, function, pulse, cnot, Kernel, Xacc, IsLawful, IsFlat}
use xacc_ibm.Transform.{Couplers, is_coupling_available, State, step, run, transform_kernel}
use xacc_ibm.Transform.Edits.{flipped, reversed-flipped, replace_lem}

module _ {P : Type 0} where
  -- An enabled gate, and if it is a CNOT, one on two qubits.
  abbrev pub IsPlain : Inst P → Type 0
  IsPlain (gate cnot true (s ∷ t ∷ []) ps) = Unit {0}
  IsPlain (gate cnot on qs ps) = ⊥
  IsPlain (gate g on qs ps) = on ≡ true
  IsPlain (conditional on q is) = ⊥
  IsPlain (function n a on is) = ⊥
  IsPlain (pulse on qs r) = ⊥

  -- What one instruction becomes.
  unfoldable pub route : Couplers → Inst P → List (Inst P)
  route cs (gate cnot true (s ∷ t ∷ []) ps) =
      if is_coupling_available cs s t then gate cnot true (s ∷ t ∷ []) ps ∷ [] else flipped s t
  route cs i = i ∷ []

  unfoldable pub route_all : Couplers → List (Inst P) → List (Inst P)
  unfolding route
  route_all cs [] = []
  route_all cs (i ∷ is) = route cs i ++ route_all cs is

  -- The state between two rounds: `pre` is done and `rest` is still to come.
  abbrev between : List (Inst P) → List (Inst P) → State P
  between pre rest = record {
    current_idx = length pre;
    new_instructions = [];
    kernel = pre ++ rest;
  }

module _ {P : Type 0} (X : Xacc P) (L : IsLawful X) (cs : Couplers) where
  step-cnot :
      (pre rest : List (Inst P)) (s t : ℕ) (ps : List P)
      → step X cs
          (between pre (gate cnot true (s ∷ t ∷ []) ps ∷ rest))
          (gate cnot true (s ∷ t ∷ []) ps)
        ≡ ok (between (pre ++ route cs (gate cnot true (s ∷ t ∷ []) ps)) rest)
  unfolding step route
  step-cnot pre rest s t ps = elim (Bool-cases (is_coupling_available cs s t)) [
    | inl e ↦ rw e (rw (length-append, append_assoc))
    | inr e ↦
        rw
          (
            e,
            reversed-flipped X L s t,
            replace_lem X L (flipped s t) pre (gate cnot true (s ∷ t ∷ []) ps) rest,
          )
          (rw (length-append, add_assoc))
  ]

  step-plain :
      (pre rest : List (Inst P)) (i : Inst P)
      → IsPlain i
      → step X cs (between pre (i ∷ rest)) i ≡ ok (between (pre ++ route cs i) rest)
  unfolding step route
  step-plain pre rest (gate cnot true (s ∷ t ∷ []) ps) h = step-cnot pre rest s t ps
  step-plain pre rest (gate cnot on qs ps) h = absurd h
  step-plain pre rest (gate g true qs ps) h = rw (length-append, append_assoc)
  step-plain pre rest (gate g false qs ps) h = absurd (cc h)
  step-plain pre rest (conditional on q is) h = absurd h
  step-plain pre rest (function n a on is) h = absurd h
  step-plain pre rest (pulse on qs r) h = absurd h

  run-plain :
      (is pre : List (Inst P))
      → All IsPlain is
      → run X cs (between pre is) is ≡ ok (between (pre ++ route_all cs is) [])
  unfolding run route_all
  run-plain [] pre h = simp append-nil
  run-plain (i ∷ is) pre h =
      rw (step-plain pre is i h.0) (rw (← append_assoc) (run-plain is (pre ++ route cs i) h.1))

All-IsFlat : {P : Type 0} (is : List (Inst P)) → All IsPlain is → IsFlat is
All-IsFlat [] h = tt
All-IsFlat (gate g on qs ps ∷ is) h = (refl, All-IsFlat is h.1)
All-IsFlat (conditional on q js ∷ is) h = absurd h.0
All-IsFlat (function n a on js ∷ is) h = absurd h.0
All-IsFlat (pulse on qs r ∷ is) h = absurd h.0

-- For a lawful framework and a kernel of enabled gates whose CNOTs have two qubits, the transformed
-- kernel keeps its name and flag, and its instructions are those of the kernel, in order, each CNOT
-- whose direction is not coupled replaced in place by two Hadamards, the reversed CNOT and two
-- Hadamards.
pub transform_kernel-route_all :
    {P : Type 0} (X : Xacc P)
    → IsLawful X
    → (cs : Couplers) (k : Kernel P) → All IsPlain k.instructions
    → transform_kernel X cs k ≡ ok (record k { instructions = route_all cs k.instructions })
unfolding transform_kernel
transform_kernel-route_all X L cs k h =
    rw (
      L.walk_flat k (All-IsFlat k.instructions h),
      run-plain X L cs k.instructions [] h,
      append-nil,
    )
