-- ===== src/Transform.antt =====
-- `IBMIRTransformation` (accelerator/IBMIRTransformation.cpp and .hpp): a CNOT that the device does
-- not couple in its direction is replaced by Hadamards round the reversed CNOT.
-- A kernel is a list of instruction values: an object that stands twice in one kernel is not modelled,
-- and that a visited CNOT is disabled is seen by the round that visits it, not in a kernel that keeps the
-- CNOT because the index is another instruction's.
pub mod Edits
pub mod Routing
pub mod Clifford
pub mod Coupling
use xacc_ibm.Common.{
  ℕ, ◌+◌, ◌-◌, Bool, true, false, not, ◌&&◌, List, [], ◌∷◌, ◌++◌, Result, ok, err, at_hand, ◌>>=◌,
  get_elem?, ◌==◌, if◌then◌else◌,
}
use xacc_ibm.Common.Text.{codes}
use xacc_ibm.Ir.{
  Inst, gate, conditional, function, pulse, cnot, Kernel, is_enabled, is_composite, is_cnot, Xacc,
}

abbrev pub Couplers : Type 0
Couplers = List (ℕ × ℕ)

unfoldable pub is_coupling_available : Couplers → ℕ → ℕ → Bool
is_coupling_available [] src tgt = false
is_coupling_available ((a, b) ∷ cs) src tgt =
    if a == src && b == tgt then true else is_coupling_available cs src tgt

-- The fields of the object, and the instructions of the kernel that it edits.
pub record State (P : Type 0) : Type 0 where
  pub current_idx : ℕ
  pub new_instructions : List (Inst P)
  pub kernel : List (Inst P)

module _ {P : Type 0} (X : Xacc P) where
  -- The five instructions that `visit` pushes: h0, h1, revCnot, h0, h1.
  unfoldable pub reversed : ℕ → ℕ → Result (List (Inst P))
  reversed source target = do
    h0 ← X.create_instruction (codes "H") (source ∷ []) []
    h1 ← X.create_instruction (codes "H") (target ∷ []) []
    rev ← X.create_instruction (codes "CNOT") (target ∷ source ∷ []) []
    ok (h0 ∷ h1 ∷ rev ∷ h0 ∷ h1 ∷ [])

  -- `visit(CNOT&)`: the instruction, disabled if it has to go, and the list of new instructions.
  unfoldable pub visit_cnot :
      Couplers → Bool → List ℕ → List P → List (Inst P) → Result (Inst P × List (Inst P))
  visit_cnot cs on qs ps new = do
    source ← at_hand (get_elem? qs 0)
    target ← at_hand (get_elem? qs 1)
    if is_coupling_available cs source target
        then ok (gate cnot on qs ps, new)
        else do more ← reversed source target; ok (gate cnot false qs ps, new ++ more)

  -- `accept(this)`: the transformation is a visitor of CNOT alone.
  unfoldable pub accept : Couplers → Inst P → List (Inst P) → Result (Inst P × List (Inst P))
  unfolding visit_cnot
  accept cs (gate cnot on qs ps) new = visit_cnot cs on qs ps new
  accept cs (gate g on qs ps) new = ok (gate g on qs ps, new)
  accept cs (conditional on q is) new = ok (conditional on q is, new)
  accept cs (function n a on is) new = ok (function n a on is, new)
  accept cs (pulse on qs r) new = ok (pulse on qs r, new)

  -- The loop over `newInstructions`: the kernel, and `count`.
  unfoldable pub insert_all : List (Inst P) → ℕ → ℕ → List (Inst P) → Result (List (Inst P) × ℕ)
  insert_all [] idx count body = ok (body, count)
  insert_all (i ∷ is) idx count body = do
    body' ← X.insert_instruction body (idx + count) i
    insert_all is idx (count + 1) body'

  -- `removeInstruction` and the insertions, where the visited CNOT was disabled.
  unfoldable pub replace : State P → Result (State P)
  unfolding insert_all
  replace s = do
    body ← X.remove_instruction s.kernel s.current_idx
    (body', count) ← insert_all s.new_instructions s.current_idx 0 body
    ok (record s { current_idx = s.current_idx + (count - 1); kernel = body' })

  -- One round of the loop over the nodes.
  unfoldable pub step : Couplers → State P → Inst P → Result (State P)
  unfolding accept
  step cs s i =
      if not (is_composite i) && is_enabled i
      then (do
        (i', new) ← accept cs i s.new_instructions
        let t : State P = record s { new_instructions = new }
        t' ← if not (is_enabled i') && is_cnot i' then replace t else ok t
        ok (record t' { new_instructions = []; current_idx = t'.current_idx + 1 }))
      else ok s

  unfoldable pub run : Couplers → State P → List (Inst P) → Result (State P)
  unfolding step
  run cs s [] = ok s
  run cs s (i ∷ is) = do s' ← step cs s i; run cs s' is

  -- The body of the loop over the kernels. `newInstructions` is empty between rounds.
  unfoldable pub transform_kernel : Couplers → Kernel P → Result (Kernel P)
  unfolding run
  transform_kernel cs k = do
    s ←
        run cs (record { current_idx = 0; new_instructions = []; kernel = k.instructions })
          (X.walk k)
    ok (record k { instructions = s.kernel })

  -- `transform`: the kernels of the new IR.
  unfoldable pub transform : Couplers → List (Kernel P) → Result (List (Kernel P))
  unfolding transform_kernel
  transform cs [] = ok []
  transform cs (k ∷ ks) = do k' ← transform_kernel cs k; ks' ← transform cs ks; ok (k' ∷ ks')
