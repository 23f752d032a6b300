-- ===== src/Tests/Transformation.antt =====
-- The transformation of a kernel for a device that couples 0 to 1 and 1 to 2, and the couplers of a
-- simulator.
use xacc_ibm.Common.{ℕ, ◌≡◌, refl, true, false, [], ◌∷◌, ok, All, inl, inr, arith}
use xacc_ibm.Common.Text.{Text, codes}
use xacc_ibm.Ir.{gate, hadamard, cnot, measure, Kernel}
use xacc_ibm.Transform.{Couplers, is_coupling_available, transform_kernel}
use xacc_ibm.Transform.Routing.{route_all, transform_kernel-route_all}
use xacc_ibm.Transform.Clifford.{Pauli, act_all, transform_kernel-act_all}
use xacc_ibm.Transform.Coupling.{IsCoupled, transform_kernel-IsCoupled}
use xacc_ibm.Accelerator.{Backend, connectivity}
use xacc_ibm.Accelerator.Connectivity.{connectivity-simulator}
use xacc_ibm.Tests.Framework.{xacc, lawful}

abbrev line : Couplers
line = (0, 1) ∷ (1, 2) ∷ []

abbrev ghz : Kernel Text
ghz = record {
  name = codes "ghz";
  parameters = [];
  analog = false;
  instructions =
      gate hadamard true (1 ∷ []) []
      ∷ gate cnot true (1 ∷ 0 ∷ []) []
      ∷ gate cnot true (1 ∷ 2 ∷ []) []
      ∷ gate measure true (0 ∷ []) (codes "0" ∷ [])
      ∷ [];
}

-- The CNOT from 1 to 0 is turned, the one from 1 to 2 stays.
abbrev routed : Kernel Text
routed = record ghz {
  instructions =
      gate hadamard true (1 ∷ []) []
      ∷ gate hadamard true (1 ∷ []) []
      ∷ gate hadamard true (0 ∷ []) []
      ∷ gate cnot true (0 ∷ 1 ∷ []) []
      ∷ gate hadamard true (1 ∷ []) []
      ∷ gate hadamard true (0 ∷ []) []
      ∷ gate cnot true (1 ∷ 2 ∷ []) []
      ∷ gate measure true (0 ∷ []) (codes "0" ∷ [])
      ∷ [];
}

transform_kernel-route_all_example : transform_kernel xacc line ghz ≡ ok routed
unfolding is_coupling_available route_all
transform_kernel-route_all_example =
    transform_kernel-route_all xacc lawful line ghz (refl, (tt, (tt, (refl, tt))))

transform_kernel-IsCoupled_example :
    (k' : Kernel Text) × (transform_kernel xacc line ghz ≡ ok k')
    × All (IsCoupled line) k'.instructions
unfolding is_coupling_available
transform_kernel-IsCoupled_example =
    transform_kernel-IsCoupled xacc lawful line ghz (refl, (tt, (tt, (refl, tt))))
      (tt, (inr (inl (refl, refl)), (inl (inr (inl (refl, refl))), (tt, tt))))

transform_kernel-act_all_example :
    (k' : Kernel Text) × (transform_kernel xacc line ghz ≡ ok k')
    × ((p : Pauli) → act_all (λ i p. p) k'.instructions p ≡ act_all (λ i p. p) ghz.instructions p)
transform_kernel-act_all_example =
    transform_kernel-act_all xacc lawful (λ i p. p) line ghz (refl, (tt, (tt, (refl, tt))))
      (tt, ((λ e. omega (arith, e)), ((λ e. omega (arith, e)), (tt, tt))))

abbrev simulator : Backend ℕ
simulator = record {
  name = codes "ibmq_qasm_simulator";
  description = [];
  n_qubits = 4;
  couplers = [];
  status = true;
  is_simulator = true;
  gate_set = [];
  basis_gates = [];
  readout_errors = [];
  gate_errors = [];
  multi_qubit_gates = [];
  multi_qubit_gate_errors = [];
  t1s = [];
  t2s = [];
  frequencies = [];
}

connectivity-simulator_example : is_coupling_available (connectivity simulator) 1 3 ≡ true
connectivity-simulator_example = connectivity-simulator simulator 1 3 refl
