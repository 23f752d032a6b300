-- ===== src/Qasm/Conditions.antt =====
-- Which classical register a conditional function tests.
use xacc_ibm.Common.{
  ℕ, ◌+◌, ◌≡◌, refl, ap, ◌∙◌, Bool, true, false, List, [], ◌∷◌, ◌++◌, Option, some, none, Result,
  ok, err, ◌>>=◌, ◌==◌, if◌then◌else◌, arith, Bool-cases, inl, inr, >>=-eq-ok,
}
use xacc_ibm.Common.Text.{Text}
use xacc_ibm.Common.Dict.{Dict, get_or, lookup, insert, lookup-insert, get_or-lookup}
use xacc_ibm.Common.Keys.{nat_key}
use xacc_ibm.Ir.{measure, Inst, gate, conditional, function, pulse, nil, cons, is_enabled}
use xacc_ibm.Qasm.{
  Visitor, emit, visit_measure, visit_conditional, conditional_text, visit_gate, visit, new_visitor,
  visit_nodes,
}
use xacc_ibm.Qasm.Registers.{gate-registers}

-- What the first enabled node on `q` gives it, where `c` measurements are done before the nodes: a
-- measurement the register of its own number, a conditional function the register 0.
abbrev pub first_register : {P : Type 0} → ℕ → ℕ → List (Inst P) → Option ℕ
first_register q c [] = none
first_register q c (gate measure true (b ∷ bs) ps ∷ is) =
    if b == q then some c else first_register q (c + 1) is
first_register q c (conditional true b js ∷ is) = if b == q then some 0 else first_register q c is
first_register q c (i ∷ is) = first_register q c is

abbrev register_in : Option ℕ → ℕ
register_in (some c) = c
register_in none = 0

-- The register that a conditional on `q` behind the nodes tests.
abbrev pub tested : {P : Type 0} → ℕ → List (Inst P) → ℕ
tested q is = register_in (first_register q 0 is)

abbrev or_else : Option ℕ → Option ℕ → Option ℕ
or_else (some c) o = some c
or_else none o = o

first_register-disabled :
    {P : Type 0} (q c : ℕ) (i : Inst P) (is : List (Inst P))
    → is_enabled i ≡ false
    → first_register q c (i ∷ is) ≡ first_register q c is
first_register-disabled q c (gate measure true qs ps) is e = absurd (cc e)
first_register-disabled q c (gate measure false qs ps) is e = refl
first_register-disabled q c (gate g on qs ps) is e = refl
first_register-disabled q c (conditional true b js) is e = absurd (cc e)
first_register-disabled q c (conditional false b js) is e = refl
first_register-disabled q c (function n a on js) is e = refl
first_register-disabled q c (pulse on qs r) is e = refl

module _ {P : Type 0} (param_text : P → Text) (q : ℕ) where
  -- The register of `q` in the end, as the nodes to come give it.
  abbrev outcome : Visitor → List (Inst P) → Option ℕ
  outcome v is = or_else (lookup q v.qubit_to_classical) (first_register q v.counter is)

  inst_step :
      (i : Inst P) (v w : Visitor)
      → is_enabled i ≡ true
      → visit param_text i v ≡ ok w
      → (is : List (Inst P)) → (w.n_qubits ≡ v.n_qubits) × (outcome w is ≡ outcome v (i ∷ is))
  unfolding visit visit_conditional visit_gate visit_measure emit
  inst_step (gate measure true [] ps) v w e h is = absurd (cc h)
  inst_step (gate measure true (b ∷ bs) ps) v w e h is =
      ground (arith, lookup-insert b q v.counter v.qubit_to_classical, nat_key.beq_iff b q)
  inst_step (gate measure false qs ps) v w e h is = absurd (cc e)
  inst_step (gate g on qs ps) v w e h is =
      let (same_map, same_counter, same_size) =
        gate-registers param_text g qs ps v w (λ p. cc p) h in
      (same_size, rw (same_map, same_counter))
  inst_step (conditional true b js) v w e h is =
      ground (arith, lookup-insert b q 0 v.qubit_to_classical, nat_key.beq_iff b q)
  inst_step (conditional false b js) v w e h is = absurd (cc e)
  inst_step (function n a on js) v w e h is = ground arith
  inst_step (pulse on qs (ok t)) v w e h is = ground arith
  inst_step (pulse on qs (err why)) v w e h is = absurd (cc h)

  nodes_step :
      (is : List (Inst P)) (v w : Visitor)
      → visit_nodes param_text is v ≡ ok w
      → (w.n_qubits ≡ v.n_qubits) × (outcome w [] ≡ outcome v is)
  unfolding visit_nodes
  nodes_step [] v w h = let same : v ≡ w = cc h in rw (← same) (refl, refl)
  nodes_step (i ∷ is) v w h = elim (Bool-cases (is_enabled i)) [
    | inl e ↦
        let (m, first, rest) =
          >>=-eq-ok (visit param_text i v) (visit_nodes param_text is) (rw e at h) in
        let (size, this) = inst_step i v m e first is in
        let (size', others) = nodes_step is m w rest in (size' ∙ size, others ∙ this)
    | inr e ↦ rw (first_register-disabled q v.counter i is e) (nodes_step is v w (rw e at h))
  ]

get_or-register : (q : ℕ) (m : Dict ℕ ℕ) → get_or q 0 m ≡ register_in (lookup q m)
get_or-register q m =
    get_or-lookup q 0 m
    ∙ elim (lookup q m) as (λ o. elim o [ some w ↦ w | none ↦ 0 ] ≡ register_in o) [
      | some w ↦ refl
      | none ↦ refl
    ]

conditional_with :
    (q c : ℕ) (m : Result Visitor) (v : Visitor)
    → register_in (lookup q v.qubit_to_classical) ≡ c
    → visit_conditional q (m >>= λ w. ok w) v ≡ (
        m >>= λ w. ok (record v {
          native = v.native ++ (conditional_text c ++ w.native);
          qubit_to_classical = insert q 0 v.qubit_to_classical;
        }))
unfolding visit_conditional
conditional_with q c (ok w) v h = rw (get_or-register q v.qubit_to_classical, h)
conditional_with q c (err e) v h = refl

register_found : (a b : Option ℕ) → or_else a none ≡ b → register_in a ≡ register_in b
register_found (some d) b h = ap register_in h
register_found none b h = ap register_in h

-- When the visits of a list of nodes succeed, a conditional function of one instruction that is
-- visited next prints what the instruction alone prints behind a test of one register. The first
-- enabled node of the list that measures the qubit or is a conditional on it says which: a
-- measurement, the register with the number of enabled measurements before it; a conditional, the
-- register 0; and it is the register 0 where there is no such node. Register 0 is then kept for the
-- qubit if it had none.
pub conditional-visit_nodes :
    {P : Type 0} (param_text : P → Text) (n : ℕ) (skip : Bool) (is : List (Inst P)) (v : Visitor)
    (q : ℕ) (i : Inst P)
    → visit_nodes param_text is (new_visitor n skip) ≡ ok v
    → visit param_text (conditional true q (cons i nil)) v ≡ (do
      w ← visit param_text i (new_visitor n true)
      ok (record v {
        native = v.native ++ (conditional_text (tested q is) ++ w.native);
        qubit_to_classical = insert q 0 v.qubit_to_classical;
      }))
unfolding visit lookup
conditional-visit_nodes param_text n skip is v q i h =
    let (size, registers) = nodes_step param_text q is (new_visitor n skip) v h in
    conditional_with q (tested q is) (visit param_text i (new_visitor v.n_qubits true)) v
      (register_found (lookup q v.qubit_to_classical) (first_register q 0 is) registers)
    ∙ ap
        (λ m. visit param_text i (new_visitor m true) >>= λ w. ok (record v {
          native = v.native ++ (conditional_text (tested q is) ++ w.native);
          qubit_to_classical = insert q 0 v.qubit_to_classical;
        }))
        size
