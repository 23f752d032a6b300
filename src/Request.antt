-- ===== src/Request.antt =====
-- `IBMAccelerator::processInput` (accelerator/IBMAccelerator.cpp): the job that is posted for a list of
-- kernels, the measured qubits that are kept for the response, and the wait for the device.
pub mod Names
pub mod Supports
pub mod Posted
pub mod Analog
pub mod Waiting
use xacc_ibm.Common.{
  ℕ, zero, suc, ◌+◌, ◌-◌, Bool, true, false, not, ◌&&◌, List, [], ◌∷◌, ◌++◌, Option, none, some,
  Result, ok, err, error, waiting, at_hand, ltb, ◌==◌, if◌then◌else◌, get_elem?, length, take,
}
use xacc_ibm.Common
use xacc_ibm.Common.Text.{Text, codes, text_eq, to_string}
use xacc_ibm.Common.Dict.{Dict, insert, assign, get_or}
use xacc_ibm.Common.Keys.{nat_key}
use xacc_ibm.Common.Exec.{Exec, pure, raise, lift, gets, modify, ◌>>=◌, ◌>>◌}
use xacc_ibm.Ir.{Inst, Kernel, Xacc, is_enabled, is_measure, bits}
use xacc_ibm.Json.{Json, member, get_string}
use xacc_ibm.Nodes.{walk_qasm, walk_pulse, escape_newlines, without_last}
use xacc_ibm.Qasm.{Visitor, new_visitor}
use xacc_ibm.Pulse.{new_pulse, instructions_json}
use xacc_ibm.Accelerator.{Accelerator, Options, default_backend, call, choose_backend}

-- The number of analog kernels.
unfoldable pub analogs : {P : Type 0} → List (Kernel P) → ℕ
analogs [] = 0
analogs (k ∷ ks) = (if k.analog then 1 else 0) + analogs ks

abbrev pub meas_lo_freq : Text
meas_lo_freq =
    codes
      "7.02304866,6.988508651,7.021087557,6.914462388,7.085532103,6.949279909,7.108946695,6.909172065,6.994924756,6.901232112,7.046906055,7.002697717,7.056662542, 6.944036858,7.102260098,6.942593417,7.087802113,6.89580952,7.003100376,6.89580523"

abbrev pub qubit_lo_freq : Text
qubit_lo_freq =
    codes
      "4.920222867865243,4.832046403202443,4.940398096698374,4.514466758212148,4.662970579288438,4.957220580605086,4.995704948314061,4.811225865860375,5.0124078826037755,5.0564924363956045,4.72033587911043,4.899360137518408,4.772030460533516,5.110023809671274,4.990894220665049,4.806558974441183,4.956319934060655,4.599367389589547,4.827896792802955,4.938182460530852"

unfoldable pub pulse_head : Text → Text → Text
pulse_head backend shots =
    codes
      "{ \"qObject\": {\"qobj_id\": \"xacc-qobj\", \"schema_version\": \"1.0.0\", \"type\": \"PULSE\", \"header\": { \"description\": \"\", \"backend_name\": \""
    ++ backend
    ++ codes "\" }, \"config\": { \"meas_lo_freq\": ["
    ++ meas_lo_freq
    ++ codes "], \"qubit_lo_freq\": ["
    ++ qubit_lo_freq
    ++ codes "], \"rep_time\": 500, \"meas_level\": 1, \"shots\":"
    ++ shots
    ++ codes
        ", \"meas_return\": \"avg\", \"memory_slot_size\": 1, \"seed\": 1, \"pulse_library\": ["

-- The entries of the pulse library's cache.
unfoldable pub pulse_library : List (Text × Text) → Text
pulse_library [] = []
pulse_library ((name, samples) ∷ cache) =
    codes "{\"name\": \""
    ++ name
    ++ codes "\", \"samples\": "
    ++ samples
    ++ codes "},"
    ++ pulse_library cache

-- The end of the text of a job of OpenQasm kernels, and of one of OpenPulse kernels.
unfoldable pub finish_qasm : Text → Text → Text → Text
finish_qasm json shots backend =
    without_last json
    ++ codes "]"
    ++ codes ", \"shots\": "
    ++ shots
    ++ codes ", \"maxCredits\": 5, \"backend\": {\"name\": \""
    ++ backend
    ++ codes "\"}}"

unfoldable pub finish_pulse : List (Text × Text) → Text → Text → Text → Text
unfolding pulse_library
finish_pulse cache init json backend =
    without_last (init ++ pulse_library cache)
    ++ without_last json
    ++ codes "]}, \"backend\": {\"name\": \""
    ++ backend
    ++ codes "\"}}"

mixed : ℕ → ℕ → Text
mixed all analog =
    codes "Cannot mix OpenQasm and OpenPulse executions. You have "
    ++ to_string all
    ++ codes " functions but "
    ++ to_string analog
    ++ codes " analog functions."

-- The path that asks for the device.
unfoldable pub device_path : Text → Text → Text → Text
device_path [] backend token = codes "/api/Backends/" ++ backend
device_path (c ∷ hub) backend token =
    codes "/api/Network/ibm-q-ornl/devices/" ++ backend ++ codes "?access_token=" ++ token

abbrev pub shots_of : Options → Text
shots_of opts = elim (opts (codes "ibm-shots")) [ none ↦ codes "1024" | some s ↦ s ]

-- One kernel of a job: its text, with a comma behind it.
unfoldable pub kernel_json : {P : Type 0} → Xacc P → Bool → ℕ → Kernel P → Result (Text × List ℕ)
kernel_json X false size k = elim (walk_qasm X.param_text (X.walk k) (new_visitor size false) []) [
  | ok (v, qs) ↦ ok (codes "{\"qasm\": \"" ++ escape_newlines v.native ++ codes "\"},", qs)
  | err e ↦ err e
]
kernel_json X true size k = elim (walk_pulse (X.walk k) (new_pulse k.name) []) [
  | ok (native, qs) ↦ ok (instructions_json native ++ codes ",", qs)
  | err e ↦ err e
]

module _ {P D : Type 0} (X : Xacc P) where
  -- `measurementSupports.insert({k, {}})`, and the qubits pushed to `measurementSupports[k]`.
  unfoldable pub keep_supports : ℕ → List ℕ → Accelerator D → Accelerator D
  keep_supports k qs a =
      let m = insert k [] a.measurement_supports in
      record a { measurement_supports = assign k (get_or k [] m ++ qs) m }

  -- The loop over the kernels, from `kernelCounter` on.
  unfoldable pub kernels_json : Bool → ℕ → ℕ → List (Kernel P) → Text → Exec (Accelerator D) Text
  unfolding keep_supports kernel_json
  kernels_json analog size counter [] json = pure json
  kernels_json analog size counter (k ∷ ks) json = do
    (piece, qs) ← lift (kernel_json X analog size k)
    modify (keep_supports counter qs)
    modify (λ a. record a { kernel_names = a.kernel_names ++ k.name ∷ [] })
    kernels_json analog size (counter + 1) ks (json ++ piece)

-- `d["status"].GetString()`
unfoldable pub status_of : {D : Type 0} → Json D → Result Text
status_of d = Common.◌>>=◌ (member d (codes "status")) get_string

module _ {D : Type 0} (parse : Text → Json D) where
  -- `while (_status != "on")`, for `rounds` answers.
  unfoldable pub wait_online : Text → ℕ → Exec (Accelerator D) (Unit {0})
  wait_online path zero a = raise waiting a
  wait_online path (suc rounds) a =
      let more = wait_online path rounds in
      (do
        reply ← call path
        status ← lift (status_of (parse reply))
        if text_eq status (codes "on") then pure tt else more)
        a

  -- "Check that the qpu is online".
  unfoldable pub check_online : Text → Exec (Accelerator D) (Unit {0})
  check_online backend = if text_eq backend default_backend then pure tt else (do
    a ← gets (λ a. a)
    let path = device_path a.hub backend a.current_api_token
    wait_online path (suc (length a.replies)))

  -- `processInput`: the text that is posted. `size` is the buffer's.
  unfoldable pub process_input :
      {P : Type 0} (X : Xacc P) (opts : Options) (cache : List (Text × Text)) (size : ℕ)
      → List (Kernel P)
      → Exec (Accelerator D) Text
  unfolding mixed
  process_input X opts cache size ks = do
    backend ← choose_backend opts
    let n = analogs ks
    let analog = ltb 0 n
    if analog && not (n == length ks) then raise (error (mixed (length ks) n)) else do
      json ←
          kernels_json X analog size 0 ks
            (if analog then codes "] }, \"experiments\": [" else codes "{\"qasms\": [")
      check_online backend
      pure (
          if analog
          then finish_pulse cache (pulse_head backend (shots_of opts)) json backend
          else finish_qasm json (shots_of opts) backend)
