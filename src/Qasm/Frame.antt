-- ===== src/Qasm/Frame.antt =====
-- What was printed before does not influence a visit: texts are only appended.
use xacc_ibm.Common.{
  ℕ, ◌+◌, ◌≡◌, refl, ap, ◌∙◌, List, [], ◌∷◌, ◌++◌, Result, ok, err, at_hand, ◌>>=◌, map_ok,
  append_assoc, get_elem?, some, none, Option, Bool-cases, inl, inr,
}
use xacc_ibm.Common.Text.{Text}
use xacc_ibm.Common.Dict.{insert, get_or}
use xacc_ibm.Common.Keys.{nat_key}
use xacc_ibm.Ir.{
  Gate, hadamard, identity, cz, cnot, x, y, z, u, measure, rx, ry, rz, cphase, swap, Inst, gate,
  conditional, function, pulse, Insts, nil, cons, is_enabled,
}
use xacc_ibm.Qasm.{
  Visitor, emit, visit_hadamard, visit_identity, visit_cnot, visit_x, visit_y, visit_z, visit_u,
  visit_rx, visit_ry, visit_rz, visit_measure, measure_qasm, measure_json, visit_swap,
  visit_conditional, conditional_text, visit_gate, visit, visit_each, is_long, visit_nodes,
}

-- The visitor with text in front of what it holds.
abbrev pub behind : Text → Text → Visitor → Visitor
behind s j v = record v { native = s ++ v.native; operations_json = j ++ v.operations_json }

module _ (s j : Text) where
  emit-behind : (ss js : Text) (v : Visitor) → emit ss js (behind s j v) ≡ behind s j (emit ss js v)
  unfolding emit
  emit-behind ss js v = λ i. record v {
    native = append_assoc s v.native ss i;
    operations_json = append_assoc j v.operations_json js i;
  }

  cnot-behind :
      (a b : ℕ) (v : Visitor) → visit_cnot a b (behind s j v) ≡ behind s j (visit_cnot a b v)
  unfolding visit_cnot
  cnot-behind a b v = emit-behind _ _ v

  measure-behind :
      (q : ℕ) (v : Visitor) → visit_measure q (behind s j v) ≡ behind s j (visit_measure q v)
  unfolding visit_measure
  measure-behind q v = λ i.
      record (emit-behind (measure_qasm q v.counter) (measure_json q v.counter) v i) {
        qubit_to_classical = insert q v.counter v.qubit_to_classical;
        counter = v.counter + 1;
      }

  swap-behind :
      (a b : ℕ) (v : Visitor) → visit_swap a b (behind s j v) ≡ behind s j (visit_swap a b v)
  unfolding visit_swap
  swap-behind a b v =
      ap (λ w. visit_cnot a b (visit_cnot b a w)) (cnot-behind a b v)
      ∙ ap (visit_cnot a b) (cnot-behind b a (visit_cnot a b v))
      ∙ cnot-behind a b (visit_cnot b a (visit_cnot a b v))

  conditional-behind :
      (q : ℕ) (inner : Result Visitor) (v : Visitor)
      → visit_conditional q inner (behind s j v) ≡ map_ok (behind s j) (visit_conditional q inner v)
  unfolding visit_conditional
  conditional-behind q (ok w) v = λ i. ok (record v {
    native =
        append_assoc s v.native (conditional_text (get_or q 0 v.qubit_to_classical) ++ w.native) i;
    operations_json = j ++ v.operations_json;
    qubit_to_classical = insert q 0 v.qubit_to_classical;
  })
  conditional-behind q (err e) v = refl

  module _ {ℓ} {A : Type ℓ} (f : A → Visitor → Result Visitor) where
    -- A visit that first reads something.
    reading-behind :
        (o : Option A) (v : Visitor)
        → ((a : A) → f a (behind s j v) ≡ map_ok (behind s j) (f a v))
        → (at_hand o >>= λ a. f a (behind s j v)) ≡ map_ok (behind s j) (at_hand o >>= λ a. f a v)
    reading-behind none v h = refl
    reading-behind (some a) v h = h a

  bind-behind :
      (m : Result Visitor) (f : Visitor → Result Visitor)
      → ((w : Visitor) → f (behind s j w) ≡ map_ok (behind s j) (f w))
      → (map_ok (behind s j) m >>= f) ≡ map_ok (behind s j) (m >>= f)
  bind-behind (ok w) f h = h w
  bind-behind (err e) f h = refl

module _ (s j : Text) {P : Type 0} (param_text : P → Text) where
  angle-behind :
      (f : Text → ℕ → Visitor → Visitor) (qs : List ℕ) (ps : List P) (v : Visitor)
      → ((t : Text) (q : ℕ) → f t q (behind s j v) ≡ behind s j (f t q v))
      → (do
        p ← at_hand (get_elem? ps 0)
        q ← at_hand (get_elem? qs 0)
        ok (f (param_text p) q (behind s j v)))
        ≡ map_ok (behind s j) (do
          p ← at_hand (get_elem? ps 0)
          q ← at_hand (get_elem? qs 0)
          ok (f (param_text p) q v))
  angle-behind f qs ps v h =
      reading-behind s j (λ p w. at_hand (get_elem? qs 0) >>= λ q. ok (f (param_text p) q w))
        (get_elem? ps 0) v
        (λ p.
          reading-behind s j (λ q w. ok (f (param_text p) q w)) (get_elem? qs 0) v
            (λ q. ap ok (h (param_text p) q)))

  gate-behind :
      (g : Gate) (qs : List ℕ) (ps : List P) (v : Visitor)
      → visit_gate param_text g qs ps (behind s j v)
        ≡ map_ok (behind s j) (visit_gate param_text g qs ps v)
  unfolding visit_gate visit_hadamard visit_identity visit_x visit_y visit_z visit_u visit_rx
      visit_ry visit_rz
  gate-behind cz qs ps v = refl
  gate-behind cphase qs ps v = refl
  gate-behind hadamard qs ps v =
      reading-behind s j (λ q w. ok (visit_hadamard q w)) (get_elem? qs 0) v
        (λ q. ap ok (emit-behind s j _ _ v))
  gate-behind identity qs ps v =
      reading-behind s j (λ q w. ok (visit_identity q w)) (get_elem? qs 0) v
        (λ q. ap ok (emit-behind s j _ _ v))
  gate-behind x qs ps v =
      reading-behind s j (λ q w. ok (visit_x q w)) (get_elem? qs 0) v
        (λ q. ap ok (emit-behind s j _ _ v))
  gate-behind y qs ps v =
      reading-behind s j (λ q w. ok (visit_y q w)) (get_elem? qs 0) v
        (λ q. ap ok (emit-behind s j _ _ v))
  gate-behind z qs ps v =
      reading-behind s j (λ q w. ok (visit_z q w)) (get_elem? qs 0) v
        (λ q. ap ok (emit-behind s j _ _ v))
  gate-behind measure qs ps v =
      reading-behind s j (λ q w. ok (visit_measure q w)) (get_elem? qs 0) v
        (λ q. ap ok (measure-behind s j q v))
  gate-behind cnot qs ps v =
      reading-behind s j (λ a w. at_hand (get_elem? qs 1) >>= λ b. ok (visit_cnot a b w))
        (get_elem? qs 0) v
        (λ a.
          reading-behind s j (λ b w. ok (visit_cnot a b w)) (get_elem? qs 1) v
            (λ b. ap ok (cnot-behind s j a b v)))
  gate-behind swap qs ps v =
      reading-behind s j (λ a w. at_hand (get_elem? qs 1) >>= λ b. ok (visit_swap a b w))
        (get_elem? qs 0) v
        (λ a.
          reading-behind s j (λ b w. ok (visit_swap a b w)) (get_elem? qs 1) v
            (λ b. ap ok (swap-behind s j a b v)))
  gate-behind rx qs ps v = angle-behind visit_rx qs ps v (λ t q. emit-behind s j _ _ v)
  gate-behind ry qs ps v = angle-behind visit_ry qs ps v (λ t q. emit-behind s j _ _ v)
  gate-behind rz qs ps v = angle-behind visit_rz qs ps v (λ t q. emit-behind s j _ _ v)
  gate-behind u qs [] v = refl
  gate-behind u qs (a ∷ []) v = refl
  gate-behind u qs (a ∷ b ∷ []) v = refl
  gate-behind u qs (a ∷ b ∷ c ∷ ps) v =
      reading-behind s j (λ q w. ok (visit_u (param_text a) (param_text b) (param_text c) q w))
        (get_elem? qs 0) v (λ q. ap ok (emit-behind s j _ _ v))

  mutual
    unfolding visit

    inst-behind :
        (i : Inst P) (v : Visitor)
        → visit param_text i (behind s j v) ≡ map_ok (behind s j) (visit param_text i v)
    inst-behind (gate g on qs ps) v = gate-behind g qs ps v
    inst-behind (function n a on is) v = refl
    inst-behind (pulse on qs (ok text)) v =
        ap (λ t. ok (record (behind s j v) { native = t })) (append_assoc s v.native text)
    inst-behind (pulse on qs (err why)) v = refl
    inst-behind (conditional on q is) v = elim (Bool-cases (is_long is)) [
      | inl e ↦ rw e
      | inr e ↦ rw e (conditional-behind s j q _ v)
    ]

    each-behind :
        (is : Insts P) (v : Visitor)
        → visit_each param_text is (behind s j v) ≡ map_ok (behind s j) (visit_each param_text is v)
    each-behind nil v = refl
    each-behind (cons i is) v =
        rw (inst-behind i v) (
          bind-behind s j (visit param_text i v) (visit_each param_text is) (λ w. each-behind is w))

-- What was printed before a visit stays in front of what the visit prints and changes nothing of it,
-- and a visit that fails fails in the same way.
pub visit-behind :
    {P : Type 0} (param_text : P → Text) (i : Inst P) (s j : Text) (v : Visitor)
    → visit param_text i (behind s j v) ≡ map_ok (behind s j) (visit param_text i v)
visit-behind param_text i s j v = inst-behind s j param_text i v

-- What was printed before the visits of all enabled nodes stays in front of what they print and
-- changes nothing of it, and visits that fail fail in the same way.
pub visit_nodes-behind :
    {P : Type 0} (param_text : P → Text) (is : List (Inst P)) (s j : Text) (v : Visitor)
    → visit_nodes param_text is (behind s j v) ≡ map_ok (behind s j) (visit_nodes param_text is v)
unfolding visit_nodes
visit_nodes-behind param_text [] s j v = refl
visit_nodes-behind param_text (i ∷ is) s j v = elim (Bool-cases (is_enabled i)) [
  | inl e ↦
      rw (e, visit-behind param_text i s j v)
        (bind-behind s j (visit param_text i v) (visit_nodes param_text is)
          (λ w. visit_nodes-behind param_text is s j w))
  | inr e ↦ rw e (visit_nodes-behind param_text is s j v)
]
