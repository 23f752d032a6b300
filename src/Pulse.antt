-- ===== src/Pulse.antt =====
-- `OpenPulseVisitor` (utils/OpenPulseVisitor.hpp): it takes no gate but the identity, which prints
-- nothing; a pulse appends its own text.
use xacc_ibm.Common.{◌-◌, ◌++◌, Result, ok, err, ◌>>=◌, error, length, take}
use xacc_ibm.Common.Text.{Text, codes}
use xacc_ibm.Ir.{
  Gate, hadamard, identity, cz, cnot, x, y, z, u, measure, rx, ry, rz, cphase, swap, Inst, gate,
  conditional, function, pulse,
}

-- The constructor: `native`.
unfoldable pub new_pulse : Text → Text
new_pulse name = codes "{ \"name\": \"" ++ name ++ codes "\", \"instructions\": ["

unsupported : Text → Result Text
unsupported what =
    err (error (codes "digital 2 analog not supported for " ++ what ++ codes " yet."))

unfoldable pub visit_gate : Gate → Text → Result Text
unfolding unsupported
visit_gate hadamard native = unsupported (codes "hadamard")
visit_gate identity native = ok native
visit_gate cz native = err (error (codes "cz not supported"))
visit_gate cnot native = unsupported (codes "CNOT")
visit_gate x native = unsupported (codes "x")
visit_gate y native = unsupported (codes "y")
visit_gate z native = unsupported (codes "z")
visit_gate u native = unsupported (codes "u")
visit_gate measure native = unsupported (codes "measure")
visit_gate rx native = unsupported (codes "rx")
visit_gate ry native = unsupported (codes "ry")
visit_gate rz native = unsupported (codes "rz")
visit_gate cphase native = unsupported (codes "cphase")
visit_gate swap native = unsupported (codes "CNOT")

unfoldable pub visit : {P : Type 0} → Inst P → Text → Result Text
unfolding visit_gate
visit (gate g on qs ps) native = visit_gate g native
visit (conditional on q is) native = ok native
visit (function n a on is) native = ok native
visit (pulse on qs r) native = do text ← r; ok (native ++ text)

-- `getOpenPulseInstructionsJson`
unfoldable pub instructions_json : Text → Text
instructions_json native = take (length native - 1) native ++ codes "]}"
