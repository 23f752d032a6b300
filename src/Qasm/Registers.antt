-- ===== src/Qasm/Registers.antt =====
-- How many classical registers the measurements take.
use xacc_ibm.Common.{
  ℕ, suc, ◌+◌, ◌≡◌, refl, ◌≢◌, true, false, List, [], ◌∷◌, ok, err, arith, Bool-cases, inl, inr,
  >>=-eq-ok,
}
use xacc_ibm.Common.Text.{Text}
use xacc_ibm.Common.Keys.{nat_key}
use xacc_ibm.Ir.{Gate, u, measure, Inst, gate, conditional, function, pulse, is_enabled}
use xacc_ibm.Qasm.{
  Visitor, emit, visit_hadamard, visit_identity, visit_cnot, visit_x, visit_y, visit_z, visit_u,
  visit_rx, visit_ry, visit_rz, visit_measure, visit_swap, visit_conditional, visit_gate, visit,
  visit_nodes,
}

-- The measurements that a list of nodes makes.
abbrev pub measures : {P : Type 0} → List (Inst P) → ℕ
measures [] = 0
measures (gate measure true qs ps ∷ is) = suc (measures is)
measures (i ∷ is) = measures is

pub measures-disabled :
    {P : Type 0} (i : Inst P) (is : List (Inst P))
    → is_enabled i ≡ false
    → measures (i ∷ is) ≡ measures is
measures-disabled (gate measure true qs ps) is e = absurd (cc e)
measures-disabled (gate measure false qs ps) is e = refl
measures-disabled (gate g on qs ps) is e = refl
measures-disabled (conditional on q js) is e = refl
measures-disabled (function n a on js) is e = refl
measures-disabled (pulse on qs r) is e = refl

-- The visitor keeps the map, the counter and the number of qubits.
abbrev pub SameRegisters : Visitor → Visitor → Type 0
SameRegisters v w =
    (w.qubit_to_classical ≡ v.qubit_to_classical)
    × (w.counter ≡ v.counter)
    × (w.n_qubits ≡ v.n_qubits)

module _ {P : Type 0} (param_text : P → Text) where
  -- Only a measurement touches the registers.
  pub gate-registers :
      (g : Gate) (qs : List ℕ) (ps : List P) (v w : Visitor)
      → g ≢ measure
      → visit_gate param_text g qs ps v ≡ ok w
      → SameRegisters v w
  unfolding visit_gate visit_hadamard visit_identity visit_cnot visit_x visit_y visit_z visit_u
      visit_rx visit_ry visit_rz visit_swap emit
  gate-registers measure qs ps v w n h = absurd (n refl)
  gate-registers u qs ps v w n h = ground arith
  gate-registers g qs ps v w n h = ground arith

  -- The counter of a visitor after one node.
  inst-counter :
      (i : Inst P) (v w : Visitor)
      → is_enabled i ≡ true
      → visit param_text i v ≡ ok w
      → (is : List (Inst P)) → w.counter + measures is ≡ v.counter + measures (i ∷ is)
  unfolding visit visit_conditional visit_gate visit_measure emit
  inst-counter (gate measure true [] ps) v w e h is = absurd (cc h)
  inst-counter (gate measure true (q ∷ qs) ps) v w e h is = ground arith
  inst-counter (gate measure false qs ps) v w e h is = absurd (cc e)
  inst-counter (gate g on qs ps) v w e h is =
      ground (arith, gate-registers g qs ps v w (λ p. cc p) h)
  inst-counter (conditional on q js) v w e h is = ground arith
  inst-counter (function n a on js) v w e h is = ground arith
  inst-counter (pulse on qs (ok t)) v w e h is = ground arith
  inst-counter (pulse on qs (err why)) v w e h is = absurd (cc h)

  -- Successful visits of all enabled nodes raise the counter of classical registers by the number of
  -- enabled measurements.
  pub visit_nodes-counter :
      (is : List (Inst P)) (v w : Visitor)
      → visit_nodes param_text is v ≡ ok w
      → w.counter ≡ v.counter + measures is
  unfolding visit_nodes
  visit_nodes-counter [] v w h = ground arith
  visit_nodes-counter (i ∷ is) v w h = elim (Bool-cases (is_enabled i)) [
    | inl e ↦
        let (m, first, rest) =
          >>=-eq-ok (visit param_text i v) (visit_nodes param_text is) (rw e at h) in
        omega (arith, inst-counter i v m e first is, visit_nodes-counter is m w rest)
    | inr e ↦ omega (arith, measures-disabled i is e, visit_nodes-counter is v w (rw e at h))
  ]
