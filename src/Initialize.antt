-- ===== src/Initialize.antt =====
-- `IBMAccelerator::initialize` (accelerator/IBMAccelerator.cpp) and `handleOptions`
-- (accelerator/IBMAccelerator.hpp): the login, the backends and the calibration of the devices, and the
-- choice of a backend. The headers and the text of the login are not modelled. `unset` is what a backend's `nQubits` holds when the document has none.
pub mod Once
use xacc_ibm.Common.{
  ℕ, ◌+◌, Bool, true, false, not, ◌&&◌, List, [], ◌∷◌, ◌++◌, Option, none, some, Result, ok, err,
  error, if◌then◌else◌,
}
use xacc_ibm.Common
use xacc_ibm.Common.Text.{Text, codes, find_in}
use xacc_ibm.Common.Dict.{Dict, insert}
use xacc_ibm.Common.Keys.{text_key}
use xacc_ibm.Common.Exec.{Exec, pure, raise, lift, gets, modify, ◌>>=◌, ◌>>◌}
use xacc_ibm.Json.{Json, has_member, member, get_string, get_array, get_double}
use xacc_ibm.Accelerator.{Backend, Accelerator, Options, call, choose_backend}
use xacc_ibm.Config.{Credentials, Surroundings, search_api_key}
use xacc_ibm.Backends.{backends_path, jobs_path, device_data_path, text_at, read_backend}

module _ {D : Type 0} (of_int : ℕ → D) where
  -- `v[key]["value"].GetDouble()`
  abbrev pub measured_value : Json D → Text → Result D
  measured_value v key =
      Common.◌>>=◌ (member v key) λ m. Common.◌>>=◌ (member m (codes "value")) (get_double of_int)

  -- The loops over the calibration's qubits and gates, and over the parameters' qubits.
  unfoldable pub add_qubits : List (Json D) → Backend D → Result (Backend D)
  add_qubits [] x = ok x
  add_qubits (q ∷ qs) x = Common.◌>>=◌ (measured_value q (codes "readoutError")) λ readout.
      Common.◌>>=◌ (measured_value q (codes "gateError")) λ gate. add_qubits qs (record x {
        readout_errors = x.readout_errors ++ readout ∷ [];
        gate_errors = x.gate_errors ++ gate ∷ [];
      })

  unfoldable pub add_gates : List (Json D) → Backend D → Result (Backend D)
  add_gates [] x = ok x
  add_gates (g ∷ gs) x = Common.◌>>=◌ (text_at g (codes "name")) λ name.
      Common.◌>>=◌ (measured_value g (codes "gateError")) λ e. add_gates gs (record x {
        multi_qubit_gates = x.multi_qubit_gates ++ name ∷ [];
        multi_qubit_gate_errors = x.multi_qubit_gate_errors ++ e ∷ [];
      })

  unfoldable pub add_times : List (Json D) → Backend D → Result (Backend D)
  add_times [] x = ok x
  add_times (q ∷ qs) x = Common.◌>>=◌ (measured_value q (codes "T1")) λ t1.
      Common.◌>>=◌ (measured_value q (codes "T2")) λ t2.
        Common.◌>>=◌ (measured_value q (codes "frequency")) λ f. add_times qs (record x {
          t1s = x.t1s ++ t1 ∷ [];
          t2s = x.t2s ++ t2 ∷ [];
          frequencies = x.frequencies ++ f ∷ [];
        })

  -- The calibration's document, and the parameters' one.
  unfoldable pub add_calibration : Json D → Backend D → Result (Backend D)
  unfolding add_qubits add_gates
  add_calibration d x = Common.◌>>=◌ (has_member d (codes "qubits")) λ qubits.
      Common.◌>>=◌ (if qubits then has_member d (codes "multiQubitGates") else ok false) λ both.
        if both
        then (Common.◌>>=◌ (Common.◌>>=◌ (member d (codes "qubits")) get_array) λ qs.
            Common.◌>>=◌ (Common.◌>>=◌ (member d (codes "multiQubitGates")) get_array)
              λ gs. Common.◌>>=◌ (add_qubits qs x) (add_gates gs))
        else ok x

  unfoldable pub add_parameters : Json D → Backend D → Result (Backend D)
  unfolding add_times
  add_parameters d x = Common.◌>>=◌ (has_member d (codes "qubits")) λ qubits.
      if qubits
      then (Common.◌>>=◌ (Common.◌>>=◌ (member d (codes "qubits")) get_array) λ qs. add_times qs x)
      else ok x

module _ {D : Type 0} (parse : Text → Json D) (of_int : ℕ → D) (unset : ℕ) where
  -- The two calls for a device of a hub.
  unfoldable pub calibrate : Backend D → Exec (Accelerator D) (Backend D)
  unfolding add_calibration add_parameters
  calibrate x = do
    a ← gets (λ a. a)
    calibration ← call (device_data_path a.hub x.name (codes "calibration") a.current_api_token)
    y ← lift (add_calibration of_int (parse calibration) x)
    parameters ← call (device_data_path a.hub x.name (codes "parameters") a.current_api_token)
    lift (add_parameters of_int (parse parameters) y)

  abbrev pub has_hub : Accelerator D → Bool
  has_hub a = elim a.hub [ [] ↦ false | _ ∷ _ ↦ true ]

  -- The body of the loop over the backends, and the loop.
  unfoldable pub add_backend : Json D → Exec (Accelerator D) (Unit {0})
  unfolding calibrate
  add_backend b = do
    x ← lift (read_backend unset b)
    in_hub ← gets has_hub
    y ← if not x.is_simulator && in_hub then calibrate x else pure x
    modify (λ a. record a { available_backends = insert y.name y a.available_backends })

  unfoldable pub add_backends : List (Json D) → Exec (Accelerator D) (Unit {0})
  unfolding add_backend
  add_backends [] = pure tt
  add_backends (b ∷ bs) = add_backend b >> add_backends bs

  module _ (S : Surroundings) (opts : Options) where
    -- The search for the credentials: the key comes back, the rest goes to the members.
    unfoldable pub take_credentials : Exec (Accelerator D) Credentials
    take_credentials = do
      a ← gets (λ a. a)
      c ← lift (
          search_api_key S opts
            (record { key = []; url = a.url; hub = a.hub; group = a.group; project = a.project }))
      modify (λ a. record a { url = c.url; hub = c.hub; group = c.group; project = c.project })
      pure c

    -- The login.
    unfoldable pub login : Exec (Accelerator D) (Unit {0})
    login = do
      response ← call (codes "/api/users/loginWithToken")
      if find_in response (codes "error")
          then raise (error (codes "Error received from IBM\n" ++ response))
          else (do
            id ← lift (text_at (parse response) (codes "id"))
            modify (λ a. record a { current_api_token = id }))

    -- The members that the base class posts with.
    abbrev pub open_service : Credentials → Accelerator D → Accelerator D
    open_service c a = record a {
      post_path = jobs_path c ++ a.current_api_token;
      remote_url = a.url;
      initialized = true;
    }

    -- The body of `if (!initialized)` as far as the backends, and the rest of it.
    unfoldable pub load : Exec (Accelerator D) Credentials
    unfolding take_credentials login add_backends
    load = do
      c ← take_credentials
      login
      token ← gets (λ a. a.current_api_token)
      reply ← call (backends_path c ++ token)
      array ← lift (get_array (parse reply))
      add_backends array
      pure c

    unfoldable pub start : Exec (Accelerator D) (Unit {0})
    unfolding load
    start = do c ← load; modify (open_service c); choose_backend opts; pure tt

    -- `initialize`
    unfoldable pub initialize : Exec (Accelerator D) (Unit {0})
    unfolding start
    initialize a = let started = start a in if a.initialized then ok (tt, a) else started

    -- The lines that list the backends.
    unfoldable pub listing : Dict Text (Backend D) → List Text
    listing [] = []
    listing ((name, x) ∷ m) =
        (codes "Available IBM Backend: "
          ++ name
          ++ codes " ["
          ++ (if x.status then codes "on" else codes "off")
          ++ codes "]")
        ∷ listing m

    -- `handleOptions`: whether the runtime should exit, and the lines that are logged.
    unfoldable pub handle_options : Options → Exec (Accelerator D) (Bool × List Text)
    unfolding initialize listing
    handle_options given = elim (given (codes "ibm-list-backends")) [
      | some _ ↦ (do
        initialize
        backends ← gets (λ a. a.available_backends)
        pure (true, [] ∷ listing backends))
      | none ↦ elim (given (codes "ibm-print-queue")) [
        | some backend ↦ (do
          initialize
          queue ← call (codes "/api/Backends/" ++ backend ++ codes "/queue/status")
          pure (true, [] ∷ (codes "Queue Status for " ++ backend ++ codes ": " ++ queue) ∷ []))
        | none ↦ pure (false, [])
      ]
    ]
