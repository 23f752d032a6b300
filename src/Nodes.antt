-- ===== src/Nodes.antt =====
-- The loops over the nodes of a kernel in `IBMAccelerator::processInput` and in
-- `LocalIBMAccelerator::execute`: every enabled node is visited, and the qubit of every enabled
-- measurement is kept, in the order of the measurements.
pub mod Supports
pub mod Kept
use xacc_ibm.Common.{
  ℕ, ◌-◌, Bool, true, false, List, [], ◌∷◌, ◌++◌, Result, ok, err, at_hand, ◌>>=◌, ◌==◌,
  if◌then◌else◌, get_elem?, length, take,
}
use xacc_ibm.Common.Text.{Text}
use xacc_ibm.Ir.{Inst, is_enabled, is_measure, bits}
use xacc_ibm.Qasm
use xacc_ibm.Qasm.{Visitor}
use xacc_ibm.Pulse

-- `std::regex_replace(qasmStr, std::regex("\n"), "\\n")`
unfoldable pub escape_newlines : Text → Text
escape_newlines [] = []
escape_newlines (c ∷ s) =
    let rest = escape_newlines s in if c == b'\n' then b'\\' ∷ b'n' ∷ rest else c ∷ rest

-- `s.substr(0, s.length() - 1)`
abbrev pub without_last : Text → Text
without_last s = take (length s - 1) s

module _ {P : Type 0} where
  -- `if (nextInst->name() == "Measure") ... push_back(nextInst->bits()[0])`
  unfoldable pub keep_measured : Inst P → List ℕ → Result (List ℕ)
  keep_measured i qs =
      if is_measure i then (do q ← at_hand (get_elem? (bits i) 0); ok (qs ++ q ∷ [])) else ok qs

  -- The loop, for a visitor whose state is `V`.
  unfoldable pub walk_nodes :
      {V : Type 0} → (Inst P → V → Result V) → List (Inst P) → V → List ℕ → Result (V × List ℕ)
  unfolding keep_measured
  walk_nodes visit [] v qs = ok (v, qs)
  walk_nodes visit (i ∷ is) v qs =
      let visited = (do v' ← visit i v; qs' ← keep_measured i qs; walk_nodes visit is v' qs') in
      let skipped = walk_nodes visit is v qs in if is_enabled i then visited else skipped

  -- With `OpenQasmVisitor`, and with `OpenPulseVisitor`.
  unfoldable pub walk_qasm :
      (P → Text) → List (Inst P) → Visitor → List ℕ → Result (Visitor × List ℕ)
  unfolding walk_nodes
  walk_qasm param_text = walk_nodes (Qasm.visit param_text)

  unfoldable pub walk_pulse : List (Inst P) → Text → List ℕ → Result (Text × List ℕ)
  unfolding walk_nodes
  walk_pulse = walk_nodes Pulse.visit
