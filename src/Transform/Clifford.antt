-- ===== src/Transform/Clifford.antt =====
-- The transformation does not change what a kernel computes. A gate is read by what it does to signed
-- Pauli operators under conjugation, which determines H and CNOT up to a global phase; instructions
-- of other kinds may do anything.
use xacc_ibm.Common.{
  ℕ, ◌≡◌, refl, ◌≢◌, Bool, true, false, ◌&&◌, not, List, [], ◌∷◌, ◌++◌, ok, arith, ◌==◌,
  if◌then◌else◌, All, Bool-cases, inl, inr,
}
use xacc_ibm.Ir.{Kernel, Xacc, IsLawful, Inst, gate, conditional, function, pulse, hadamard, cnot}
use xacc_ibm.Transform.{Couplers, is_coupling_available, transform_kernel}
use xacc_ibm.Transform.Routing.{IsPlain, route, route_all, transform_kernel-route_all}

-- The X and the Z part of each qubit, and the sign.
pub record Pauli : Type 0 where
  pub xs : ℕ → Bool
  pub zs : ℕ → Bool
  pub minus : Bool

abbrev xor : Bool → Bool → Bool
xor true b = not b
xor false b = b

abbrev pub write : (ℕ → Bool) → ℕ → Bool → ℕ → Bool
write f q b k = if k == q then b else f k

-- H exchanges X and Z, and turns Y into -Y.
pub conjugate_h : ℕ → Pauli → Pauli
conjugate_h q p = record {
  xs = write p.xs q (p.zs q);
  zs = write p.zs q (p.xs q);
  minus = xor p.minus (p.xs q && p.zs q);
}

-- CNOT copies X from the source to the target, and Z from the target to the source.
pub conjugate_cnot : ℕ → ℕ → Pauli → Pauli
conjugate_cnot s t p = record {
  xs = write p.xs t (xor (p.xs t) (p.xs s));
  zs = write p.zs s (xor (p.zs s) (p.zs t));
  minus = xor p.minus (p.xs s && p.zs t && not (xor (p.xs t) (p.zs s)));
}

Pauli_ext :
    (p q : Pauli)
    → ((k : ℕ) → p.xs k ≡ q.xs k)
    → ((k : ℕ) → p.zs k ≡ q.zs k)
    → p.minus ≡ q.minus
    → p ≡ q
Pauli_ext p q hx hz hm = λ i. record { xs = λ k. hx k i; zs = λ k. hz k i; minus = hm i }

abbrev round : ℕ → ℕ → Pauli → Pauli
round s t p = conjugate_h t (conjugate_h s (conjugate_cnot t s (conjugate_h t (conjugate_h s p))))

module _ (s t : ℕ) (p : Pauli) (h : s ≢ t) where
  xs-round : (k : ℕ) → (round s t p).xs k ≡ (conjugate_cnot s t p).xs k
  unfolding conjugate_h conjugate_cnot
  xs-round k = ground arith

  zs-round : (k : ℕ) → (round s t p).zs k ≡ (conjugate_cnot s t p).zs k
  unfolding conjugate_h conjugate_cnot
  zs-round k = ground arith

  minus-round : (round s t p).minus ≡ (conjugate_cnot s t p).minus
  unfolding conjugate_h conjugate_cnot
  minus-round = ground arith

  -- Hadamards round the reversed CNOT act as the CNOT.
  conjugate-round : round s t p ≡ conjugate_cnot s t p
  conjugate-round = Pauli_ext _ _ xs-round zs-round minus-round

module _ {P : Type 0} (other : Inst P → Pauli → Pauli) where
  -- What an instruction does to a Pauli operator.
  abbrev pub act : Inst P → Pauli → Pauli
  act (gate hadamard on (q ∷ []) ps) p = conjugate_h q p
  act (gate cnot on (s ∷ t ∷ []) ps) p = conjugate_cnot s t p
  act i p = other i p

  abbrev pub act_all : List (Inst P) → Pauli → Pauli
  act_all [] p = p
  act_all (i ∷ is) p = act_all is (act i p)

  act_all-append :
      (is js : List (Inst P)) (p : Pauli) → act_all (is ++ js) p ≡ act_all js (act_all is p)
  act_all-append [] js p = refl
  act_all-append (i ∷ is) js p = act_all-append is js (act i p)

-- A CNOT has two different qubits.
abbrev pub IsProper : {P : Type 0} → Inst P → Type 0
IsProper (gate cnot on (s ∷ t ∷ []) ps) = s ≢ t
IsProper i = Unit {0}

module _ {P : Type 0} (other : Inst P → Pauli → Pauli) (cs : Couplers) where
  act-route :
      (i : Inst P) (p : Pauli)
      → IsPlain i
      → IsProper i
      → act_all other (route cs i) p ≡ act other i p
  unfolding route
  act-route (gate cnot true (s ∷ t ∷ []) ps) p h d =
      elim (Bool-cases (is_coupling_available cs s t)) [
        | inl e ↦ rw e
        | inr e ↦ rw e (conjugate-round s t p d)
      ]
  act-route (gate cnot on qs ps) p h d = absurd h
  act-route (gate g on qs ps) p h d = refl
  act-route (conditional on q is) p h d = absurd h
  act-route (function n a on is) p h d = absurd h
  act-route (pulse on qs r) p h d = absurd h

  act-route_all :
      (is : List (Inst P)) (p : Pauli)
      → All IsPlain is
      → All IsProper is
      → act_all other (route_all cs is) p ≡ act_all other is p
  unfolding route_all
  act-route_all [] p h d = refl
  act-route_all (i ∷ is) p h d =
      rw (act_all-append other (route cs i) (route_all cs is) p, act-route i p h.0 d.0)
        (act-route_all is (act other i p) h.1 d.1)

-- For a lawful framework and a kernel of enabled gates whose CNOTs have two different qubits, the
-- transformation succeeds, and the new kernel takes every signed Pauli operator where the old one
-- takes it, whatever the instructions other than H and CNOT do.
pub transform_kernel-act_all :
    {P : Type 0} (X : Xacc P)
    → IsLawful X
    → (other : Inst P → Pauli → Pauli) (cs : Couplers) (k : Kernel P) → All IsPlain k.instructions
    → All IsProper k.instructions
    → (k' : Kernel P) × (transform_kernel X cs k ≡ ok k')
      × ((p : Pauli) → act_all other k'.instructions p ≡ act_all other k.instructions p)
transform_kernel-act_all X L other cs k h d = (
  record k { instructions = route_all cs k.instructions },
  transform_kernel-route_all X L cs k h,
  λ p. act-route_all other cs k.instructions p h d,
)
