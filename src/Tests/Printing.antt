-- ===== src/Tests/Printing.antt =====
-- What is printed for kernels, and what the listener reads.
use xacc_ibm.Common.{
  ℕ, ◌+◌, ◌<◌, ◌≤◌, ◌≡◌, refl, true, false, List, [], ◌∷◌, ◌++◌, none, some, Result, ok, err,
  map_ok, arith, ◌>>=◌,
}
use xacc_ibm.Common.Text.{Text, codes, text_eq, to_string}
use xacc_ibm.Ir.{Inst, gate, conditional, nil, cons, function, hadamard, x, measure, Kernel}
use xacc_ibm.Qasm.{
  Visitor, new_visitor, preamble, visit, visit_measure, visit_nodes, visit_gate, visit_hadamard,
  emit, measure_qasm, conditional_text, get_operations_json_string,
}
use xacc_ibm.Qasm.Frame.{behind, visit-behind, visit_nodes-behind}
use xacc_ibm.Qasm.Registers.{visit_nodes-counter}
use xacc_ibm.Qasm.Conditions.{tested, conditional-visit_nodes}
use xacc_ibm.Common.Dict
use xacc_ibm.Common.{if◌then◌else◌, ◌&&◌}
use xacc_ibm.Common.Keys.{nat_key}
use xacc_ibm.Qasm.Operations.{IsSupported, visit_nodes_total, operations_json_of_silent}
use xacc_ibm.Compiler.{translate}
use xacc_ibm.Compiler.Width.{Fits, translate_lem}
use xacc_ibm.Nodes.{walk_qasm}
use xacc_ibm.Nodes.Supports.{walk_qasm_lem}
use xacc_ibm.Listener.{Params}
use xacc_ibm.Listener.Gates.{KnowsU}
use xacc_ibm.Tests.Framework.{xacc, inst_nodes, insts_nodes}

abbrev show : Text → Text
show t = t

-- Two qubits are measured, the second first.
abbrev nodes : List (Inst Text)
nodes =
    gate hadamard true (1 ∷ []) []
    ∷ gate x false (5 ∷ []) []
    ∷ gate measure true (1 ∷ []) (codes "0" ∷ [])
    ∷ gate measure true (0 ∷ []) (codes "1" ∷ [])
    ∷ []

abbrev measuring : Kernel Text
measuring = record { name = codes "m"; parameters = []; analog = false; instructions = nodes }

native_of_nodes :
    map_ok (λ v. v.native) (visit_nodes show nodes (new_visitor 2 true))
    ≡ ok (
        codes
          "u2(0, 3.14159) q[1];\ncreg c0[1];\nmeasure q[1] -> c0[0];\ncreg c1[1];\nmeasure q[0] -> c1[0];\n")
unfolding visit_nodes visit visit_gate visit_measure visit_hadamard emit measure_qasm to_string
native_of_nodes = refl

-- The visitor at the end of the walk.
abbrev last_of : Result Visitor → Visitor
last_of (ok v) = v
last_of (err e) = new_visitor 0 true

abbrev end_of_nodes : Visitor
end_of_nodes = last_of (visit_nodes show nodes (new_visitor 2 false))

nodes_end : visit_nodes show nodes (new_visitor 2 false) ≡ ok end_of_nodes
unfolding visit_nodes visit visit_gate
nodes_end = refl

visit-behind_example :
    visit show (gate x true (0 ∷ []) []) (behind (codes "a") (codes "b") (new_visitor 1 true))
    ≡ map_ok
        (behind (codes "a") (codes "b"))
        (visit show (gate x true (0 ∷ []) []) (new_visitor 1 true))
visit-behind_example =
    visit-behind show (gate x true (0 ∷ []) []) (codes "a") (codes "b") (new_visitor 1 true)

visit_nodes-behind_example :
    visit_nodes show nodes (behind (preamble 2) (codes "[") (new_visitor 2 true))
    ≡ map_ok (behind (preamble 2) (codes "[")) (visit_nodes show nodes (new_visitor 2 true))
visit_nodes-behind_example =
    visit_nodes-behind show nodes (preamble 2) (codes "[") (new_visitor 2 true)

visit_nodes-counter_example : end_of_nodes.counter ≡ 0 + 2
visit_nodes-counter_example =
    visit_nodes-counter show nodes (new_visitor 2 false) end_of_nodes nodes_end

-- Qubit 1 is measured first, into register 0.
conditional-visit_nodes_example :
    visit show (conditional true 1 (cons (gate x true (0 ∷ []) []) nil)) end_of_nodes ≡ (do
      w ← visit show (gate x true (0 ∷ []) []) (new_visitor 2 true)
      ok (record end_of_nodes {
        native = end_of_nodes.native ++ (conditional_text (tested 1 nodes) ++ w.native);
        qubit_to_classical = Dict.insert 1 0 end_of_nodes.qubit_to_classical;
      }))
conditional-visit_nodes_example =
    conditional-visit_nodes show 2 false nodes end_of_nodes 1 (gate x true (0 ∷ []) []) nodes_end

-- Qubit 0 is measured second; where a conditional on it stands before, register 0 stays its register.
tested_run :
    (tested 0 nodes ≡ 1)
    × (tested 0 (conditional true 0 (cons (gate x true (0 ∷ []) []) nil) ∷ nodes) ≡ 0)
tested_run = (refl, refl)

visit_nodes_total_example : (w : Visitor) × (visit_nodes show nodes (new_visitor 2 true) ≡ ok w)
unfolding IsSupported
visit_nodes_total_example = visit_nodes_total show nodes (new_visitor 2 true) (
  (omega arith, omega arith),
  ((omega arith, omega arith), ((omega arith, omega arith), ((omega arith, omega arith), tt))),
)

abbrev phases : List (Inst Text)
phases = function (codes "k") false true nil ∷ gate x false (0 ∷ []) [] ∷ []

operations_json_of_silent_example : get_operations_json_string (new_visitor 3 false) ≡ codes "]"
unfolding visit_nodes visit
operations_json_of_silent_example =
    operations_json_of_silent show phases 3 (new_visitor 3 false) (tt, (tt, tt)) refl

translate_lem_example :
    (n : ℕ) × (w : Visitor) × (visit_nodes show (xacc.walk measuring) (new_visitor n true) ≡ ok w)
    × (translate xacc measuring ≡ ok (preamble n ++ w.native))
    × Fits n (xacc.walk measuring)
    × ((m : ℕ) → 0 < m → Fits m (xacc.walk measuring) → n ≤ m)
unfolding IsSupported inst_nodes insts_nodes
translate_lem_example = translate_lem xacc measuring (
  tt,
  (
    (omega arith, omega arith),
    ((omega arith, omega arith), ((omega arith, omega arith), ((omega arith, omega arith), tt))),
  ),
)

walk_qasm_lem_example :
    (walk_qasm show nodes (new_visitor 2 false) [] ≡ ok (end_of_nodes, 1 ∷ 0 ∷ []))
    × (2 ≡ end_of_nodes.counter)
walk_qasm_lem_example = walk_qasm_lem show nodes 2 end_of_nodes nodes_end

-- Expressions that are digits are numbers.
abbrev pub params : Params Text Text
params = record {
  eval = λ t. elim t [ [] ↦ none | c ∷ s ↦ some (c ∷ s) ];
  decimal = λ n k. if text_eq (to_string n) (codes "0") then codes "0.0" else to_string n;
  divide = λ a b.
      if text_eq a (codes "31415926") && text_eq b (codes "20") then codes "1.5707963" else [];
  of_double = λ d. d;
  of_text = λ t. t;
  of_int = λ n. [];
}

abbrev pub knows_u : KnowsU xacc
unfolding text_eq
knows_u = record {
  fresh = codes "0";
  create_u = λ q. refl;
  set_first = λ qs a b c p. refl;
  set_second = λ qs a b c p. refl;
  set_third = λ qs a b c p. refl;
}
