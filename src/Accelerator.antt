-- ===== src/Accelerator.antt =====
-- The state of `IBMAccelerator` (accelerator/IBMAccelerator.hpp), its service and its options, and
-- the methods that look backends up: `createBuffer`, `isValidBufferSize`, `getIRTransformations`,
-- `isPhysical`, `getAcceleratorConnectivity`, and the choice of the backend.
pub mod Connectivity
pub mod Rates
use xacc_ibm.Common.{
  ℕ, zero, suc, ◌+◌, ◌<◌, Bool, true, false, not, ◌&&◌, List, [], ◌∷◌, ◌++◌, map, Option, none,
  some, Result, ok, err, error, Error, ltb, if◌then◌else◌, waiting,
}
use xacc_ibm.Common.Text.{Text, codes, text_eq, to_string}
use xacc_ibm.Common.Int.{ℤ, pos, negsuc, pos_part}
use xacc_ibm.Common.Dict.{Dict, lookup}
use xacc_ibm.Common.Keys.{text_key, nat_key}
use xacc_ibm.Common.Exec.{Exec, pure, raise, lift, gets, modify, ◌>>=◌, ◌>>◌}

-- `IBMBackend`
pub record Backend (D : Type 0) : Type 0 where
  pub name : Text
  pub description : Text
  pub n_qubits : ℕ
  pub couplers : List (ℕ × ℕ)
  pub status : Bool
  pub is_simulator : Bool
  pub gate_set : Text
  pub basis_gates : Text
  pub readout_errors : List D
  pub gate_errors : List D
  pub multi_qubit_gates : List Text
  pub multi_qubit_gate_errors : List D
  pub t1s : List D
  pub t2s : List D
  pub frequencies : List D

-- The members of the object; `replies` is what the service answers to the calls to come, in order,
-- `requests` the calls made (their path), and `stored` the buffers stored in the base class.
pub record Accelerator (D : Type 0) : Type 0 where
  pub current_api_token : Text
  pub url : Text
  pub hub : Text
  pub group : Text
  pub project : Text
  pub post_path : Text
  pub remote_url : Text
  pub available_backends : Dict Text (Backend D)
  pub measurement_supports : Dict ℕ (List ℕ)
  pub kernel_names : List Text
  pub chosen_backend : Backend D
  pub initialized : Bool
  pub replies : List Text
  pub requests : List Text
  pub stored : List (Text × ℤ)

-- `xacc::optionExists` and `xacc::getOption`
abbrev pub Options : Type 0
Options = Text → Option Text

abbrev pub default_backend : Text
default_backend = codes "ibmq_qasm_simulator"

-- `isValidBufferSize`
unfoldable pub is_valid_buffer_size : ℤ → Bool
is_valid_buffer_size (pos n) = ltb 0 n && ltb n 31
is_valid_buffer_size (negsuc n) = false

-- The backend's name of the options, the simulator's if there is none.
abbrev pub backend_name : Options → Text
backend_name opts = elim (opts (codes "ibm-backend")) [ none ↦ default_backend | some name ↦ name ]

unavailable : Text → Error
unavailable name = error (name ++ codes " is not available.")

-- The pairs (i, j) with i < j, in the order of the two loops.
unfoldable pub pairs_from : ℕ → ℕ → ℕ → List (ℕ × ℕ)
pairs_from i j zero = []
pairs_from i j (suc left) =
    let rest = pairs_from i (j + 1) left in if ltb i j then (i, j) ∷ rest else rest

unfoldable pub rows_from : ℕ → ℕ → ℕ → List (ℕ × ℕ)
unfolding pairs_from
rows_from n i zero = []
rows_from n i (suc left) = pairs_from i 0 n ++ rows_from n (i + 1) left

module _ {D : Type 0} where
  -- `handleExceptionRestClientGet` and `handleExceptionRestClientPost`. A service that answers no
  -- more leaves the call waiting.
  unfoldable pub call : Text → Exec (Accelerator D) Text
  call path a = elim a.replies [
    | [] ↦ err waiting
    | reply ∷ replies ↦
        ok (reply, record a { replies = replies; requests = a.requests ++ path ∷ [] })
  ]

  -- `createBuffer(varId, size)`: the size of the buffer.
  unfoldable pub create_buffer : Text → ℤ → Exec (Accelerator D) ℕ
  create_buffer var_id size a =
      if is_valid_buffer_size size
      then ok (pos_part size, record a { stored = a.stored ++ (var_id, size) ∷ [] })
      else err (error (codes "Invalid buffer size."))

  -- `createBuffer(varId)`
  unfoldable pub create_full_buffer : Text → Exec (Accelerator D) ℕ
  unfolding create_buffer
  create_full_buffer var_id = create_buffer var_id (pos 30)

  -- `getIRTransformations`: the list that is built is cleared before it is returned.
  unfoldable pub get_ir_transformations : {T : Type 0} → Options → Exec (Accelerator D) (List T)
  unfolding unavailable
  get_ir_transformations opts a = elim (lookup (backend_name opts) a.available_backends) [
    | none ↦ err (unavailable (backend_name opts))
    | some b ↦ ok ([], a)
  ]

  unfoldable pub connectivity : Backend D → List (ℕ × ℕ)
  unfolding rows_from
  connectivity b = elim b.couplers [ [] ↦ rows_from b.n_qubits 0 b.n_qubits | c ∷ cs ↦ c ∷ cs ]

  -- `getAcceleratorConnectivity`
  unfoldable pub get_accelerator_connectivity : Options → Exec (Accelerator D) (List (ℕ × ℕ))
  unfolding connectivity unavailable
  get_accelerator_connectivity opts a = elim (lookup (backend_name opts) a.available_backends) [
    | none ↦ err (unavailable (backend_name opts))
    | some b ↦ ok (connectivity b, a)
  ]

  -- `isPhysical`
  unfoldable pub is_physical : Options → Exec (Accelerator D) Bool
  is_physical opts a = elim (opts (codes "ibm-backend")) [
    | none ↦ ok (false, a)
    | some name ↦ elim (lookup name a.available_backends) [
      | none ↦ err (error (codes "Invalid IBM Backend string"))
      | some b ↦ ok (not b.is_simulator, a)
    ]
  ]

  -- The choice of the backend in `initialize` and `processInput`: the name to use.
  unfoldable pub choose_backend : Options → Exec (Accelerator D) Text
  choose_backend opts a = elim (opts (codes "ibm-backend")) [
    | none ↦ ok (default_backend, a)
    | some name ↦ elim (lookup name a.available_backends) [
      | none ↦ err (error (codes "Invalid IBM Backend string"))
      | some b ↦
          if b.status
          then ok (name, record a { chosen_backend = b })
          else err (error (name ++ codes " is currently unavailable, status = off"))
    ]
  ]
