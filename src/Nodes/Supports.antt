-- ===== src/Nodes/Supports.antt =====
-- The measured qubits that the walk keeps, and the visitor that it leaves.
use xacc_ibm.Common.{
  ℕ, suc, ap, ◌∙◌, sym, Result, ◌≡◌, refl, true, false, List, [], ◌∷◌, ◌++◌, ok, >>=-eq-ok, length,
  Bool-cases, inl, inr, arith, append-nil, append_assoc,
}
use xacc_ibm.Common.Text.{Text}
use xacc_ibm.Ir.{measure, Inst, gate, conditional, function, pulse, is_enabled}
use xacc_ibm.Qasm
use xacc_ibm.Qasm.{Visitor, visit_nodes, visit_gate, new_visitor}
use xacc_ibm.Qasm.Registers.{measures, measures-disabled, visit_nodes-counter}
use xacc_ibm.Nodes.{keep_measured, walk_nodes, walk_qasm}

-- The qubits of the enabled measurements, in order.
abbrev pub measured : {P : Type 0} → List (Inst P) → List ℕ
measured [] = []
measured (gate measure true (q ∷ qs) ps ∷ is) = q ∷ measured is
measured (i ∷ is) = measured is

module _ {P : Type 0} where
  -- What is kept of one enabled node.
  kept_of_node :
      (i : Inst P) (qs rs : List ℕ) (is : List (Inst P))
      → is_enabled i ≡ true
      → keep_measured i qs ≡ ok rs
      → rs ++ measured is ≡ qs ++ measured (i ∷ is)
  unfolding keep_measured
  kept_of_node (gate measure true [] ps) qs rs is e h = absurd (cc h)
  kept_of_node (gate measure true (q ∷ bs) ps) qs rs is e h =
      let same : rs ≡ qs ++ q ∷ [] = cc h in rw same (append_assoc qs (q ∷ []) (measured is))
  kept_of_node (gate measure false bs ps) qs rs is e h = absurd (cc e)
  kept_of_node (gate g on bs ps) qs rs is e h = cc h
  kept_of_node (conditional on q js) qs rs is e h = cc h
  kept_of_node (function n a on js) qs rs is e h = cc h
  kept_of_node (pulse on bs r) qs rs is e h = cc h

  measured-disabled :
      (i : Inst P) (is : List (Inst P)) → is_enabled i ≡ false → measured (i ∷ is) ≡ measured is
  measured-disabled (gate measure true qs ps) is e = absurd (cc e)
  measured-disabled (gate measure false qs ps) is e = refl
  measured-disabled (gate g on qs ps) is e = refl
  measured-disabled (conditional on q js) is e = refl
  measured-disabled (function n a on js) is e = refl
  measured-disabled (pulse on qs r) is e = refl

  -- Whatever the visitor, a walk that succeeds keeps the qubits of the enabled measurements.
  pub walk_nodes-measured :
      {V : Type 0} (visit : Inst P → V → Result V) (is : List (Inst P)) (v w : V) (qs rs : List ℕ)
      → walk_nodes visit is v qs ≡ ok (w, rs)
      → rs ≡ qs ++ measured is
  unfolding walk_nodes
  walk_nodes-measured visit [] v w qs rs h = simp append-nil (cc h)
  walk_nodes-measured visit (i ∷ is) v w qs rs h = elim (Bool-cases (is_enabled i)) [
    | inr e ↦
        walk_nodes-measured visit is v w qs rs (rw e at h)
        ∙ ap (λ m. qs ++ m) (sym (measured-disabled i is e))
    | inl e ↦
        let (v', first, rest) = >>=-eq-ok (visit i v) _ (rw e at h) in
        let (qs', kept, others) =
          >>=-eq-ok (keep_measured i qs) (λ qs'. walk_nodes visit is v' qs') rest in
        walk_nodes-measured visit is v' w qs' rs others ∙ kept_of_node i qs qs' is e kept
  ]

module _ {P : Type 0} (param_text : P → Text) where
  -- One enabled node that the visitor takes.
  keep_measured_lem :
      (i : Inst P) (v w : Visitor) (qs : List ℕ) (is : List (Inst P))
      → is_enabled i ≡ true
      → Qasm.visit param_text i v ≡ ok w
      → (rs : List ℕ) × (keep_measured i qs ≡ ok rs) × (rs ++ measured is ≡ qs ++ measured (i ∷ is))
  unfolding keep_measured Qasm.visit visit_gate
  keep_measured_lem (gate measure true [] ps) v w qs is e h = absurd (cc h)
  keep_measured_lem (gate measure true (q ∷ bs) ps) v w qs is e h =
      (qs ++ q ∷ [], refl, append_assoc qs (q ∷ []) (measured is))
  keep_measured_lem (gate measure false bs ps) v w qs is e h = absurd (cc e)
  keep_measured_lem (gate g on bs ps) v w qs is e h = (qs, refl, refl)
  keep_measured_lem (conditional on q js) v w qs is e h = (qs, refl, refl)
  keep_measured_lem (function n a on js) v w qs is e h = (qs, refl, refl)
  keep_measured_lem (pulse on bs r) v w qs is e h = (qs, refl, refl)

  walk_qasm-measured :
      (is : List (Inst P)) (v w : Visitor) (qs : List ℕ)
      → visit_nodes param_text is v ≡ ok w
      → walk_qasm param_text is v qs ≡ ok (w, qs ++ measured is)
  unfolding walk_qasm visit_nodes
  walk_qasm-measured [] v w qs h = simp append-nil (ground arith)
  walk_qasm-measured (i ∷ is) v w qs h = elim (Bool-cases (is_enabled i)) [
    | inl e ↦
        let (m, first, rest) =
          >>=-eq-ok (Qasm.visit param_text i v) (visit_nodes param_text is) (rw e at h) in
        let (rs, kept, same) = keep_measured_lem i v m qs is e first in
        rw (e, first, kept, ← same) (walk_qasm-measured is m w rs rest)
    | inr e ↦ rw (e, measured-disabled i is e) (walk_qasm-measured is v w qs (rw e at h))
  ]

  length-step :
      (i : Inst P) (v w : Visitor) (is : List (Inst P))
      → is_enabled i ≡ true
      → Qasm.visit param_text i v ≡ ok w
      → length (measured is) ≡ measures is
      → length (measured (i ∷ is)) ≡ measures (i ∷ is)
  unfolding Qasm.visit visit_gate
  length-step (gate measure true [] ps) v w is e h l = absurd (cc h)
  length-step (gate measure true (q ∷ bs) ps) v w is e h l = ap suc l
  length-step (gate measure false bs ps) v w is e h l = absurd (cc e)
  length-step (gate g on bs ps) v w is e h l = l
  length-step (conditional on q js) v w is e h l = l
  length-step (function n a on js) v w is e h l = l
  length-step (pulse on bs r) v w is e h l = l

  length-measured :
      (is : List (Inst P)) (v w : Visitor)
      → visit_nodes param_text is v ≡ ok w
      → length (measured is) ≡ measures is
  unfolding visit_nodes
  length-measured [] v w h = refl
  length-measured (i ∷ is) v w h = elim (Bool-cases (is_enabled i)) [
    | inl e ↦
        let (m, first, rest) =
          >>=-eq-ok (Qasm.visit param_text i v) (visit_nodes param_text is) (rw e at h) in
        length-step i v m is e first (length-measured is m w rest)
    | inr e ↦
        rw (measured-disabled i is e, measures-disabled i is e) (length-measured is v w (rw e at h))
  ]

  -- Where the visits of all enabled nodes succeed, the walk over the nodes succeeds with the same
  -- visitor, the qubits that it keeps are those of the enabled measurements in order, and they are
  -- as many as the classical registers that the visitor declared.
  pub walk_qasm_lem :
      (is : List (Inst P)) (n : ℕ) (w : Visitor)
      → visit_nodes param_text is (new_visitor n false) ≡ ok w
      → (walk_qasm param_text is (new_visitor n false) [] ≡ ok (w, measured is))
        × (length (measured is) ≡ w.counter)
  walk_qasm_lem is n w h = (
    walk_qasm-measured is (new_visitor n false) w [] h,
    omega (
      arith,
      visit_nodes-counter param_text is (new_visitor n false) w h,
      length-measured is (new_visitor n false) w h,
    ),
  )
