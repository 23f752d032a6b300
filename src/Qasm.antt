-- ===== src/Qasm.antt =====
-- `OpenQasmVisitor` (utils/OpenQasmVisitor.hpp): the OpenQasm text and the JSON operations of the
-- instructions visited.
-- A double that the visitor prints itself is the text that `<<` makes of it, with six digits. The
-- base class starts `native` empty. Qubit indices are not negative.
pub mod Frame
pub mod Registers
pub mod Conditions
pub mod Operations
use xacc_ibm.Common.{
  ℕ, suc, ◌+◌, ◌-◌, ◌<◌, ◌≡◌, Bool, true, false, List, [], ◌∷◌, ◌++◌, Result, ok, err, error,
  at_hand, ◌>>=◌, get_elem?, length, take, ltb, if◌then◌else◌, none, some,
}
use xacc_ibm.Common.Text.{Text, codes, to_string}
use xacc_ibm.Common.Dict.{Dict, insert, assign, get_or}
use xacc_ibm.Common.Keys.{nat_key}
use xacc_ibm.Ir.{
  Gate, hadamard, identity, cz, cnot, x, y, z, u, measure, rx, ry, rz, cphase, swap, Inst, gate,
  conditional, function, pulse, Insts, nil, cons, is_enabled,
}

pub record Visitor : Type 0 where
  pub native : Text
  pub qubit_to_classical : Dict ℕ ℕ
  pub n_qubits : ℕ
  pub operations_json : Text
  pub counter : ℕ

-- `std::to_string` or `<<` of what the visitor prints
abbrev pub pi_text : Text
pi_text = codes "3.14159"

abbrev pub half_pi_text : Text
half_pi_text = codes "1.5708"

abbrev pub minus_half_pi_text : Text
minus_half_pi_text = codes "-1.5708"

unfoldable pub preamble : ℕ → Text
preamble n = codes "\ninclude \\\"qelib1.inc\\\";\nqreg q[" ++ to_string n ++ codes "];\n"

-- The constructor.
abbrev pub new_visitor : ℕ → Bool → Visitor
new_visitor n skip_preamble = record {
  native = if skip_preamble then [] else preamble n;
  qubit_to_classical = [];
  n_qubits = n;
  operations_json = codes "[";
  counter = 0;
}

-- `native += ss.str(); operationsJsonStr += js.str();`
unfoldable pub emit : Text → Text → Visitor → Visitor
emit ss js v = record v { native = v.native ++ ss; operations_json = v.operations_json ++ js }

-- `name q[i];`, and `],"qubits":[i]},`
abbrev pub on_qubit : ℕ → Text
on_qubit q = codes " q[" ++ to_string q ++ codes "];\n"

abbrev pub json_qubit : ℕ → Text
json_qubit q = codes "],\"qubits\":[" ++ to_string q ++ codes "]},"

unfoldable pub visit_hadamard : ℕ → Visitor → Visitor
visit_hadamard q =
    emit (codes "u2(" ++ to_string 0 ++ codes ", " ++ pi_text ++ codes ")" ++ on_qubit q)
      (codes "{\"name\":\"u2\",\"params\": [0.0," ++ pi_text ++ json_qubit q)

unfoldable pub visit_identity : ℕ → Visitor → Visitor
visit_identity q =
    emit (codes "id" ++ on_qubit q) (codes "{\"name\":\"id\",\"params\": [" ++ json_qubit q)

unfoldable pub visit_cnot : ℕ → ℕ → Visitor → Visitor
visit_cnot a b =
    emit (codes "cx q[" ++ to_string a ++ codes "], q[" ++ to_string b ++ codes "];\n") (
      codes "{\"name\":\"cx\",\"params\": [],\"qubits\":["
      ++ to_string a
      ++ codes ", "
      ++ to_string b
      ++ codes "]},")

-- `u3(a, b, c) q[i];` and its JSON, as the visits of X, Y, Rx and Ry print it
abbrev pub emit_u3 : Text → Text → Text → ℕ → Visitor → Visitor
emit_u3 a b c q =
    emit (codes "u3(" ++ a ++ codes ", " ++ b ++ codes ", " ++ c ++ codes ")" ++ on_qubit q) (
      codes "{\"name\":\"u3\",\"params\": ["
      ++ a
      ++ codes ", "
      ++ b
      ++ codes ", "
      ++ c
      ++ json_qubit q)

-- `u1(a) q[i];` and its JSON, as the visits of Z and Rz print it
abbrev pub emit_u1 : Text → ℕ → Visitor → Visitor
emit_u1 a q =
    emit (codes "u1(" ++ a ++ codes ")" ++ on_qubit q)
      (codes "{\"name\":\"u1\",\"params\": [" ++ a ++ json_qubit q)

unfoldable pub visit_x : ℕ → Visitor → Visitor
visit_x = emit_u3 pi_text (to_string 0) pi_text

unfoldable pub visit_y : ℕ → Visitor → Visitor
visit_y = emit_u3 pi_text half_pi_text pi_text

unfoldable pub visit_z : ℕ → Visitor → Visitor
visit_z = emit_u1 pi_text

unfoldable pub visit_u : Text → Text → Text → ℕ → Visitor → Visitor
visit_u theta phi lambda q =
    emit
      (codes "U(" ++ theta ++ codes ", " ++ phi ++ codes ", " ++ lambda ++ codes ")" ++ on_qubit q)
      (codes "{\"name\":\"U\",\"params\": ["
        ++ theta
        ++ codes ", "
        ++ phi
        ++ codes ", "
        ++ lambda
        ++ json_qubit q)

unfoldable pub visit_rx : Text → ℕ → Visitor → Visitor
visit_rx angle = emit_u3 angle minus_half_pi_text half_pi_text

unfoldable pub visit_ry : Text → ℕ → Visitor → Visitor
visit_ry angle = emit_u3 angle (to_string 0) (to_string 0)

unfoldable pub visit_rz : Text → ℕ → Visitor → Visitor
visit_rz angle = emit_u1 angle

unfoldable pub measure_qasm : ℕ → ℕ → Text
measure_qasm q c =
    codes "creg c"
    ++ to_string c
    ++ codes "[1];\n"
    ++ codes "measure q["
    ++ to_string q
    ++ codes "] -> c"
    ++ to_string c
    ++ codes "[0];\n"

unfoldable pub measure_json : ℕ → ℕ → Text
measure_json q c =
    codes "{\"clbits\":["
    ++ to_string c
    ++ codes "],\"name\":\"measure\",\"qubits\":["
    ++ to_string q
    ++ codes "]},"

unfoldable pub visit_measure : ℕ → Visitor → Visitor
visit_measure q v = record (emit (measure_qasm q v.counter) (measure_json q v.counter) v) {
  qubit_to_classical = insert q v.counter v.qubit_to_classical;
  counter = v.counter + 1;
}

unfoldable pub visit_swap : ℕ → ℕ → Visitor → Visitor
unfolding visit_cnot
visit_swap a b v = visit_cnot a b (visit_cnot b a (visit_cnot a b v))

-- The text of a conditional: the condition on the classical register of the qubit, register 0 if it has
-- none (`operator[]` adds that entry), and what the inner visitor made of the instructions.
unfoldable pub conditional_text : ℕ → Text
conditional_text c = codes "if (c" ++ to_string c ++ codes " == 1) "

unfoldable pub visit_conditional : ℕ → Result Visitor → Visitor → Result Visitor
visit_conditional q inner v = do
  let c = get_or q 0 v.qubit_to_classical
  w ← inner
  ok (record v {
    native = v.native ++ (conditional_text c ++ w.native);
    qubit_to_classical = insert q 0 v.qubit_to_classical;
  })

-- `nInstructions() > 1`
abbrev pub is_long : {P : Type 0} → Insts P → Bool
is_long (cons i (cons j is)) = true
is_long _ = false

module _ {P : Type 0} (param_text : P → Text) where
  -- The visit of a gate; `bits()[0]` and `getParameter(0)` are undefined where they are missing.
  unfoldable pub visit_gate : Gate → List ℕ → List P → Visitor → Result Visitor
  visit_gate hadamard qs ps v = do q ← at_hand (get_elem? qs 0); ok (visit_hadamard q v)
  visit_gate identity qs ps v = do q ← at_hand (get_elem? qs 0); ok (visit_identity q v)
  visit_gate cz qs ps v = err (error (codes "cz not supported"))
  visit_gate cnot qs ps v = do
    a ← at_hand (get_elem? qs 0)
    b ← at_hand (get_elem? qs 1)
    ok (visit_cnot a b v)
  visit_gate x qs ps v = do q ← at_hand (get_elem? qs 0); ok (visit_x q v)
  visit_gate y qs ps v = do q ← at_hand (get_elem? qs 0); ok (visit_y q v)
  visit_gate z qs ps v = do q ← at_hand (get_elem? qs 0); ok (visit_z q v)
  visit_gate u qs ps v = do
    theta ← at_hand (get_elem? ps 0)
    phi ← at_hand (get_elem? ps 1)
    lambda ← at_hand (get_elem? ps 2)
    q ← at_hand (get_elem? qs 0)
    ok (visit_u (param_text theta) (param_text phi) (param_text lambda) q v)
  visit_gate measure qs ps v = do q ← at_hand (get_elem? qs 0); ok (visit_measure q v)
  visit_gate rx qs ps v = do
    angle ← at_hand (get_elem? ps 0)
    q ← at_hand (get_elem? qs 0)
    ok (visit_rx (param_text angle) q v)
  visit_gate ry qs ps v = do
    angle ← at_hand (get_elem? ps 0)
    q ← at_hand (get_elem? qs 0)
    ok (visit_ry (param_text angle) q v)
  visit_gate rz qs ps v = do
    angle ← at_hand (get_elem? ps 0)
    q ← at_hand (get_elem? qs 0)
    ok (visit_rz (param_text angle) q v)
  visit_gate cphase qs ps v = ok v
  visit_gate swap qs ps v = do
    a ← at_hand (get_elem? qs 0)
    b ← at_hand (get_elem? qs 1)
    ok (visit_swap a b v)

  unfoldable mutual
    -- `accept(visitor)`
    pub visit : Inst P → Visitor → Result Visitor
    visit (gate g on qs ps) v = visit_gate g qs ps v
    visit (conditional on q is) v =
        let m = visit_each is (new_visitor v.n_qubits true) in
        if is_long is
        then err (error (codes "IBM only supports single conditional operations."))
        else visit_conditional q m v
    visit (function n a on is) v = ok v
    visit (pulse on qs r) v = do text ← r; ok (record v { native = v.native ++ text })

    -- The loop over the instructions of a conditional function.
    pub visit_each : Insts P → Visitor → Result Visitor
    visit_each nil v = ok v
    visit_each (cons i is) v = do w ← visit i v; visit_each is w

  -- `while (it.hasNext())`: every enabled node is visited.
  unfoldable pub visit_nodes : List (Inst P) → Visitor → Result Visitor
  visit_nodes [] v = ok v
  visit_nodes (i ∷ is) v =
      let rest = visit i v >>= visit_nodes is in
      let skipped = visit_nodes is v in if is_enabled i then rest else skipped

-- `getOpenQasmString` and `getOperationsJsonString`, which takes the last character off
unfoldable pub get_operations_json_string : Visitor → Text
get_operations_json_string v = take (length v.operations_json - 1) v.operations_json ++ codes "]"

-- `classicalAddresses` is never written: `substr(0, size() - 2)` of the empty text is empty.
unfoldable pub get_classical_addresses : Visitor → Text
get_classical_addresses v = codes "[" ++ codes "]"
