-- ===== src/Ir.antt =====
-- The part of XACC's intermediate representation that the plugins read and build: gate instructions,
-- conditional functions, gate functions (kernels), pulses, and what the plugins call on them.
-- XACC itself is not in the repository. Its operations are the fields of the interface `Xacc`, and
-- what the code relies on is `IsLawful`.
use xacc_ibm.Common.{ℕ, ◌≡◌, Bool, true, false, List, [], ◌∷◌, ◌++◌, length, Result, ok}
use xacc_ibm.Common.Text.{Text, codes}

-- The gates that `AllGateVisitor` visits.
pub data Gate : Type 0 where
  hadamard identity cz cnot x y z u measure rx ry rz cphase swap : Gate

-- An instruction over the type `P` of instruction parameters. A gate has its enabled flag, its
-- qubits (`bits()`) and its parameters; a conditional function its enabled flag, the qubit that it
-- tests and its instructions; a gate function its name, whether it is analog, its enabled flag and
-- its instructions. A pulse is an instruction that is not in the repository (the one of
-- tests/TestPulse.hpp is an example): it has its enabled flag, its qubits, and what its own
-- `customVisitAction` appends to the native assembly of the visitor, or the error that this ends with.
-- It is not called `Measure` or `CNOT`.
mutual
  pub data Inst (P : Type 0) : Type 0 where
    gate : Gate → Bool → List ℕ → List P → Inst P
    conditional : Bool → ℕ → Insts P → Inst P
    function : Text → Bool → Bool → Insts P → Inst P
    pulse : Bool → List ℕ → Result Text → Inst P

  pub data Insts (P : Type 0) : Type 0 where
    nil : Insts P
    cons : Inst P → Insts P → Insts P

-- A kernel with its declared parameters, the root of what `InstructionIterator` walks.
pub record Kernel (P : Type 0) : Type 0 where
  pub name : Text
  pub parameters : List P
  pub analog : Bool
  pub instructions : List (Inst P)

module _ {P : Type 0} where
  abbrev pub to_insts : List (Inst P) → Insts P
  to_insts [] = nil
  to_insts (i ∷ is) = cons i (to_insts is)

  -- The kernel as a node of its own tree.
  abbrev pub node : Kernel P → Inst P
  node k = function k.name k.analog true (to_insts k.instructions)

  -- `isEnabled()`
  abbrev pub is_enabled : Inst P → Bool
  is_enabled (gate g on bits ps) = on
  is_enabled (conditional on q is) = on
  is_enabled (function n a on is) = on
  is_enabled (pulse on qs r) = on

  -- `isComposite()`
  abbrev pub is_composite : Inst P → Bool
  is_composite (gate g on bits ps) = false
  is_composite (conditional on q is) = true
  is_composite (function n a on is) = true
  is_composite (pulse on qs r) = false

  -- `bits()`
  abbrev pub bits : Inst P → List ℕ
  bits (gate g on qs ps) = qs
  bits (conditional on q is) = []
  bits (function n a on is) = []
  bits (pulse on qs r) = qs

  -- `name() == "Measure"` and `name() == "CNOT"`
  abbrev pub is_measure : Inst P → Bool
  is_measure (gate measure on qs ps) = true
  is_measure (gate _ on qs ps) = false
  is_measure (conditional on q is) = false
  is_measure (function n a on is) = false
  is_measure (pulse on qs r) = false

  abbrev pub is_cnot : Inst P → Bool
  is_cnot (gate cnot on qs ps) = true
  is_cnot (gate _ on qs ps) = false
  is_cnot (conditional on q is) = false
  is_cnot (function n a on is) = false
  is_cnot (pulse on qs r) = false

-- What the plugins call of XACC: the nodes that `InstructionIterator(kernel)` hands out, in order,
-- `removeInstruction` and `insertInstruction` of a function, `createInstruction` of the gate
-- registry, `toString` of an instruction parameter and `setParameter` of an instruction.
pub record Xacc (P : Type 0) : Type 0 where
  pub walk : Kernel P → List (Inst P)
  pub remove_instruction : List (Inst P) → ℕ → Result (List (Inst P))
  pub insert_instruction : List (Inst P) → ℕ → Inst P → Result (List (Inst P))
  pub create_instruction : Text → List ℕ → List P → Result (Inst P)
  pub param_text : P → Text
  pub set_parameter : Inst P → ℕ → P → Result (Inst P)

-- A kernel with no nested function.
abbrev pub IsFlat : {P : Type 0} → List (Inst P) → Type 0
IsFlat [] = Unit {0}
IsFlat (i ∷ is) = (is_composite i ≡ false) × IsFlat is

-- What the plugins rely on. The iterator is a pre-order walk: of a kernel with no nested function it
-- hands out the kernel and then its instructions. The functions edit at a position, and the registry
-- knows the gates `H` and `CNOT`.
pub record IsLawful {P : Type 0} (X : Xacc P) : Type 0 where
  pub walk_flat : (k : Kernel P) → IsFlat k.instructions → X.walk k ≡ node k ∷ k.instructions
  pub remove_at :
      (xs : List (Inst P)) (a : Inst P) (ys : List (Inst P))
      → X.remove_instruction (xs ++ a ∷ ys) (length xs) ≡ ok (xs ++ ys)
  pub insert_at :
      (xs : List (Inst P)) (a : Inst P) (ys : List (Inst P))
      → X.insert_instruction (xs ++ ys) (length xs) a ≡ ok (xs ++ a ∷ ys)
  pub create_h :
      (q : ℕ) → X.create_instruction (codes "H") (q ∷ []) [] ≡ ok (gate hadamard true (q ∷ []) [])
  pub create_cnot :
      (s t : ℕ)
      → X.create_instruction (codes "CNOT") (s ∷ t ∷ []) [] ≡ ok (gate cnot true (s ∷ t ∷ []) [])
