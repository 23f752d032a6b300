-- ===== src/Transform/Coupling.antt =====
-- After the transformation every CNOT follows a coupler of the device.
use xacc_ibm.Common.{
  ℕ, false, ◌==◌, ◌&&◌, ◌≡◌, ◌⊎◌, inl, inr, true, List, [], ◌∷◌, ok, arith, All, All-append,
  Bool-cases,
}
use xacc_ibm.Ir.{Kernel, Xacc, IsLawful, Inst, gate, conditional, function, pulse, cnot}
use xacc_ibm.Transform.{Couplers, is_coupling_available, transform_kernel}
use xacc_ibm.Transform.Routing.{IsPlain, route, route_all, transform_kernel-route_all}

-- The pair is one of the couplers.
abbrev pub Couples : Couplers → ℕ → ℕ → Type 0
Couples [] s t = ⊥
Couples ((a, b) ∷ cs) s t = ((a ≡ s) × (b ≡ t)) ⊎ Couples cs s t

-- The qubits of the CNOT are a coupler in its direction.
abbrev pub IsCoupled : {P : Type 0} → Couplers → Inst P → Type 0
IsCoupled cs (gate cnot on (s ∷ t ∷ []) ps) = Couples cs s t
IsCoupled cs i = Unit {0}

-- The qubits of the CNOT are a coupler in one direction at least.
abbrev pub IsLinked : {P : Type 0} → Couplers → Inst P → Type 0
IsLinked cs (gate cnot on (s ∷ t ∷ []) ps) = Couples cs s t ⊎ Couples cs t s
IsLinked cs i = Unit {0}

available→couples : (cs : Couplers) (s t : ℕ) → is_coupling_available cs s t ≡ true → Couples cs s t
unfolding is_coupling_available
available→couples [] s t h = absurd (cc h)
available→couples ((a, b) ∷ cs) s t h = elim (Bool-cases (a == s && b == t)) [
  | inl e ↦ inl (ground arith)
  | inr e ↦ inr (available→couples cs s t (rw e at h))
]

couples→available : (cs : Couplers) (s t : ℕ) → Couples cs s t → is_coupling_available cs s t ≡ true
unfolding is_coupling_available
couples→available [] s t h = absurd h
couples→available ((a, b) ∷ cs) s t (inl h) = ground arith
couples→available ((a, b) ∷ cs) s t (inr h) = ground (arith, couples→available cs s t h)

-- Of a CNOT whose direction is not found, the other one is a coupler.
linked_back :
    (cs : Couplers) (s t : ℕ)
    → Couples cs s t ⊎ Couples cs t s
    → is_coupling_available cs s t ≡ false
    → Couples cs t s
linked_back cs s t (inl c) e = absurd (cc (couples→available cs s t c, e))
linked_back cs s t (inr c) e = c

module _ {P : Type 0} (cs : Couplers) where
  route-IsCoupled : (i : Inst P) → IsPlain i → IsLinked cs i → All (IsCoupled cs) (route cs i)
  unfolding route
  route-IsCoupled (gate cnot true (s ∷ t ∷ []) ps) h l =
      elim (Bool-cases (is_coupling_available cs s t)) [
        | inl e ↦ rw e (available→couples cs s t e, tt)
        | inr e ↦ rw e (tt, (tt, (linked_back cs s t l e, (tt, (tt, tt)))))
      ]
  route-IsCoupled (gate cnot on qs ps) h l = absurd h
  route-IsCoupled (gate g on qs ps) h l = (tt, tt)
  route-IsCoupled (conditional on q is) h l = absurd h
  route-IsCoupled (function n a on is) h l = absurd h
  route-IsCoupled (pulse on qs r) h l = absurd h

  route_all-IsCoupled :
      (is : List (Inst P))
      → All IsPlain is
      → All (IsLinked cs) is
      → All (IsCoupled cs) (route_all cs is)
  unfolding route_all
  route_all-IsCoupled [] h l = tt
  route_all-IsCoupled (i ∷ is) h l =
      All-append (IsCoupled cs) (route cs i) (route_all cs is) (route-IsCoupled i h.0 l.0)
        (route_all-IsCoupled is h.1 l.1)

-- For a lawful framework and a kernel of enabled gates whose CNOTs have two qubits that the device
-- couples in one direction at least, the transformation succeeds, and every CNOT of the new kernel
-- follows a coupler in its own direction.
pub transform_kernel-IsCoupled :
    {P : Type 0} (X : Xacc P)
    → IsLawful X
    → (cs : Couplers) (k : Kernel P) → All IsPlain k.instructions
    → All (IsLinked cs) k.instructions
    → (k' : Kernel P) × (transform_kernel X cs k ≡ ok k') × All (IsCoupled cs) k'.instructions
transform_kernel-IsCoupled X L cs k h l = (
  record k { instructions = route_all cs k.instructions },
  transform_kernel-route_all X L cs k h,
  route_all-IsCoupled cs k.instructions h l,
)
