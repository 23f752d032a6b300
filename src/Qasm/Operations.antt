-- ===== src/Qasm/Operations.antt =====
-- The JSON array of operations, and when the visits succeed.
use xacc_ibm.Common.{
  ℕ, ◌≤◌, ◌≡◌, refl, ◌∙◌, Bool, true, false, List, [], ◌∷◌, Result, ok, err, at_hand, ◌>>=◌,
  get_elem?, some, Option, arith, Bool-cases, inl, inr, length, All, get_elem?-some, >>=-eq-ok,
}
use xacc_ibm.Common.Text.{Text, codes}
use xacc_ibm.Ir.{
  Gate, cz, cnot, u, rx, ry, rz, cphase, swap, Inst, gate, conditional, function, pulse, Insts, nil,
  cons, is_enabled,
}
use xacc_ibm.Qasm.{
  Visitor, visit_conditional, visit_gate, visit, visit_each, is_long, new_visitor, visit_nodes,
  get_operations_json_string,
}

-- The qubits and the parameters that the visit of a gate reads.
abbrev pub arity : Gate → ℕ
arity cz = 0
arity cphase = 0
arity cnot = 2
arity swap = 2
arity _ = 1

abbrev pub angles : Gate → ℕ
angles u = 3
angles rx = 1
angles ry = 1
angles rz = 1
angles _ = 0

-- What the visitor supports: every gate but CZ, with its qubits and parameters, and conditional
-- functions of one such instruction, pulses whose own action succeeds.
unfoldable mutual
  pub IsSupported : {P : Type 0} → Inst P → Type 0
  IsSupported (gate cz on qs ps) = ⊥
  IsSupported (gate g on qs ps) = (arity g ≤ length qs) × (angles g ≤ length ps)
  IsSupported (conditional on q is) = (is_long is ≡ false) × AreSupported is
  IsSupported (function n a on is) = Unit {0}
  IsSupported (pulse on qs r) = (text : Text) × (r ≡ ok text)

  pub AreSupported : {P : Type 0} → Insts P → Type 0
  AreSupported nil = Unit {0}
  AreSupported (cons i is) = IsSupported i × AreSupported is

module _ {P : Type 0} (param_text : P → Text) where
  reading_total :
      {A : Type 0} (o : Option A) (f : A → Result Visitor)
      → (a : A) × (o ≡ some a)
      → ((a : A) → (w : Visitor) × (f a ≡ ok w))
      → (w : Visitor) × ((at_hand o >>= f) ≡ ok w)
  reading_total o f (a, e) h = rw e (h a)

  gate_total :
      (g : Gate) (on : Bool) (qs : List ℕ) (ps : List P) (v : Visitor)
      → IsSupported (gate g on qs ps)
      → (w : Visitor) × (visit_gate param_text g qs ps v ≡ ok w)
  unfolding visit_gate IsSupported
  gate_total cz on qs ps v h = absurd h
  gate_total cphase on qs ps v h = (v, refl)
  gate_total cnot on qs ps v h =
      reading_total (get_elem? qs 0) _ (get_elem?-some qs 0 (omega arith))
        λ a. reading_total (get_elem? qs 1) _ (get_elem?-some qs 1 (omega arith)) λ b. (_, refl)
  gate_total swap on qs ps v h =
      reading_total (get_elem? qs 0) _ (get_elem?-some qs 0 (omega arith))
        λ a. reading_total (get_elem? qs 1) _ (get_elem?-some qs 1 (omega arith)) λ b. (_, refl)
  gate_total u on qs ps v h =
      reading_total (get_elem? ps 0) _ (get_elem?-some ps 0 (omega arith)) λ a.
        reading_total (get_elem? ps 1) _ (get_elem?-some ps 1 (omega arith)) λ b.
          reading_total (get_elem? ps 2) _ (get_elem?-some ps 2 (omega arith))
            λ c. reading_total (get_elem? qs 0) _ (get_elem?-some qs 0 (omega arith)) λ q. (_, refl)
  gate_total rx on qs ps v h =
      reading_total (get_elem? ps 0) _ (get_elem?-some ps 0 (omega arith))
        λ a. reading_total (get_elem? qs 0) _ (get_elem?-some qs 0 (omega arith)) λ q. (_, refl)
  gate_total ry on qs ps v h =
      reading_total (get_elem? ps 0) _ (get_elem?-some ps 0 (omega arith))
        λ a. reading_total (get_elem? qs 0) _ (get_elem?-some qs 0 (omega arith)) λ q. (_, refl)
  gate_total rz on qs ps v h =
      reading_total (get_elem? ps 0) _ (get_elem?-some ps 0 (omega arith))
        λ a. reading_total (get_elem? qs 0) _ (get_elem?-some qs 0 (omega arith)) λ q. (_, refl)
  gate_total g on qs ps v h =
      reading_total (get_elem? qs 0) _ (get_elem?-some qs 0 (omega arith)) λ q. (_, refl)

  conditional_total :
      (q : ℕ) (m : Result Visitor) (v : Visitor)
      → (w : Visitor) × (m ≡ ok w)
      → (w : Visitor) × (visit_conditional q m v ≡ ok w)
  unfolding visit_conditional
  conditional_total q m v (w, e) = rw e (_, refl)

  mutual
    unfolding visit IsSupported

    inst_total :
        (i : Inst P) (v : Visitor) → IsSupported i → (w : Visitor) × (visit param_text i v ≡ ok w)
    inst_total (gate g on qs ps) v h = gate_total g on qs ps v h
    inst_total (function n a on is) v h = (v, refl)
    inst_total (pulse on qs r) v (text, e) = rw e (_, refl)
    inst_total (conditional on q is) v h =
        rw h.0 (conditional_total q _ v (each_total is (new_visitor v.n_qubits true) h.1))

    each_total :
        (is : Insts P) (v : Visitor)
        → AreSupported is
        → (w : Visitor) × (visit_each param_text is v ≡ ok w)
    each_total nil v h = (v, refl)
    each_total (cons i is) v h = let (w, e) = inst_total i v h.0 in rw e (each_total is w h.1)

  -- The visits of nodes that are all supported succeed: of gates other than a controlled Z that have
  -- the qubits and parameters that the visit reads, of conditional functions of at most one
  -- instruction, itself supported, of gate functions, and of pulses whose own action succeeds.
  pub visit_nodes_total :
      (is : List (Inst P)) (v : Visitor)
      → All IsSupported is
      → (w : Visitor) × (visit_nodes param_text is v ≡ ok w)
  unfolding visit_nodes
  visit_nodes_total [] v h = (v, refl)
  visit_nodes_total (i ∷ is) v h = elim (Bool-cases (is_enabled i)) [
    | inl e ↦ rw e (let (w, first) = inst_total i v h.0 in rw first (visit_nodes_total is w h.1))
    | inr e ↦ rw e (visit_nodes_total is v h.1)
  ]

-- A node that adds nothing to the operations: a disabled one, a controlled phase, a conditional
-- function, a gate function or a pulse.
abbrev pub IsSilent : {P : Type 0} → Inst P → Type 0
IsSilent (gate cphase on qs ps) = Unit {0}
IsSilent (gate g false qs ps) = Unit {0}
IsSilent (gate g true qs ps) = ⊥
IsSilent (conditional on q is) = Unit {0}
IsSilent (function n a on is) = Unit {0}
IsSilent (pulse on qs r) = Unit {0}

module _ {P : Type 0} (param_text : P → Text) where
  silent-json :
      (i : Inst P) (v w : Visitor)
      → IsSilent i
      → is_enabled i ≡ true
      → visit param_text i v ≡ ok w
      → w.operations_json ≡ v.operations_json
  unfolding visit visit_gate visit_conditional
  silent-json (gate cphase on qs ps) v w s e h = ground arith
  silent-json (gate g true qs ps) v w s e h = absurd s
  silent-json (gate g false qs ps) v w s e h = absurd (cc e)
  silent-json (conditional on q is) v w s e h = ground arith
  silent-json (function n a on is) v w s e h = ground arith
  silent-json (pulse on qs (ok t)) v w s e h = ground arith
  silent-json (pulse on qs (err why)) v w s e h = absurd (cc h)

  silent_nodes-json :
      (is : List (Inst P)) (v w : Visitor)
      → All IsSilent is
      → visit_nodes param_text is v ≡ ok w
      → w.operations_json ≡ v.operations_json
  unfolding visit_nodes
  silent_nodes-json [] v w s h = ground arith
  silent_nodes-json (i ∷ is) v w s h = elim (Bool-cases (is_enabled i)) [
    | inl e ↦
        let (m, first, rest) =
          >>=-eq-ok (visit param_text i v) (visit_nodes param_text is) (rw e at h) in
        silent_nodes-json is m w s.1 rest ∙ silent-json i v m s.0 e first
    | inr e ↦ silent_nodes-json is v w s.1 (rw e at h)
  ]

  -- When all nodes visited add nothing to the operations, and the visits succeed, the operations
  -- string is a closing bracket alone.
  pub operations_json_of_silent :
      (is : List (Inst P)) (n : ℕ) (w : Visitor)
      → All IsSilent is
      → visit_nodes param_text is (new_visitor n false) ≡ ok w
      → get_operations_json_string w ≡ codes "]"
  unfolding get_operations_json_string
  operations_json_of_silent is n w s h = rw (silent_nodes-json is (new_visitor n false) w s h)
