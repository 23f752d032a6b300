-- ===== src/Compiler.antt =====
-- `OQASMCompiler::translate` (compiler/OQASMCompiler.cpp): the OpenQasm text of a kernel.
pub mod Width
use xacc_ibm.Common.{ℕ, ◌+◌, List, [], ◌∷◌, Result, ok, ◌>>=◌, ltb, if◌then◌else◌, false}
use xacc_ibm.Common.Text.{Text}
use xacc_ibm.Ir.{Inst, Kernel, Xacc, is_enabled, bits}
use xacc_ibm.Qasm.{Visitor, new_visitor, visit_nodes}

-- `for (auto &b : nextInst->bits()) if (b > maxBit) maxBit = b;`
unfoldable pub max_of : ℕ → List ℕ → ℕ
max_of max_bit [] = max_bit
max_of max_bit (b ∷ bs) = max_of (if ltb max_bit b then b else max_bit) bs

-- The first walk, over the enabled nodes.
unfoldable pub max_bit : {P : Type 0} → ℕ → List (Inst P) → ℕ
unfolding max_of
max_bit m [] = m
max_bit m (i ∷ is) = max_bit (if is_enabled i then max_of m (bits i) else m) is

module _ {P : Type 0} (X : Xacc P) where
  unfoldable pub translate : Kernel P → Result Text
  unfolding max_bit
  translate k = do
    let n_qubits = max_bit 0 (X.walk k) + 1
    v ← visit_nodes X.param_text (X.walk k) (new_visitor n_qubits false)
    ok v.native
