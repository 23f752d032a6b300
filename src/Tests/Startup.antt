-- ===== src/Tests/Startup.antt =====
-- An accelerator that logs in to a service with one device.
use xacc_ibm.Common.{ℕ, ◌≡◌, refl, true, false, [], ◌∷◌, some, Result, ok, err, if◌then◌else◌, ◌==◌}
use xacc_ibm.Common.Text.{Text, codes, text_eq, find_in, starts_with}
use xacc_ibm.Common.Dict.{lookup, insert}
use xacc_ibm.Json.{Json, string, integer, boolean, array, object, nil, cons, field, end}
use xacc_ibm.Accelerator.Rates.{remove_cx}
use xacc_ibm.Accelerator.{Accelerator, Backend, Options, call, choose_backend}
use xacc_ibm.Config.{
  Surroundings, search_api_key, read_credentials, find_api_key_in_file, read_lines, read_line,
  piece, check_key,
}
use xacc_ibm.Backends.{jobs_path, read_backend, read_gates, read_couplers}
use xacc_ibm.Initialize.{
  initialize, start, load, login, take_credentials, add_backends, add_backend,
}
use xacc_ibm.Initialize.Once.{IsNamed, IsReady, initialize-IsReady}

-- The answers "login" and "devices" stand for the documents.
abbrev pairs : Json ℕ
pairs = array (cons (array (cons (integer 0) (cons (integer 1) nil))) nil)

abbrev documents : Text → Json ℕ
documents t =
    if text_eq t (codes "login")
    then object (field (codes "id") (string (codes "token")) end)
    else array (
        cons
          (object (
            field (codes "name") (string (codes "ibmqx2")) (
              field (codes "nQubits") (integer 5) (
                field (codes "status") (string (codes "on")) (
                  field (codes "simulator") (boolean false)
                    (field (codes "couplingMap") pairs end))))))
          nil)

abbrev no_backend : Backend ℕ
no_backend = record {
  name = [];
  description = [];
  n_qubits = 0;
  couplers = [];
  status = true;
  is_simulator = true;
  gate_set = [];
  basis_gates = [];
  readout_errors = [];
  gate_errors = [];
  multi_qubit_gates = [];
  multi_qubit_gate_errors = [];
  t1s = [];
  t2s = [];
  frequencies = [];
}

abbrev stopped : Accelerator ℕ
stopped = record {
  current_api_token = [];
  url = [];
  hub = [];
  group = [];
  project = [];
  post_path = [];
  remote_url = [];
  available_backends = [];
  measurement_supports = [];
  kernel_names = [];
  chosen_backend = no_backend;
  initialized = false;
  replies = codes "login" ∷ codes "devices" ∷ [];
  requests = [];
  stored = [];
}

abbrev key_file : Surroundings
key_file = record {
  split = λ t c. if c == b'\n' then t ∷ [] else codes "key" ∷ codes "abc" ∷ [];
  trim = λ t. t;
  getenv = λ name. some (codes "/root");
  contents = λ path. some (codes "key:abc");
}

abbrev on_device : Options
on_device name = some (codes "ibmqx2")

abbrev state_of : Result (Unit {0} × Accelerator ℕ) → Accelerator ℕ
state_of (ok (u, a)) = a
state_of (err e) = stopped

abbrev started : Accelerator ℕ
started = state_of (initialize documents (λ n. n) 0 key_file on_device stopped)

initialize-started : initialize documents (λ n. n) 0 key_file on_device stopped ≡ ok (tt, started)
unfolding initialize start load login take_credentials add_backends add_backend search_api_key
    read_credentials find_api_key_in_file read_lines read_line piece check_key find_in starts_with
    call choose_backend read_backend read_gates read_couplers text_eq lookup insert
initialize-started = refl

started_paths :
    (started.post_path ≡ codes "/api/Jobs?access_token=token")
    × (started.chosen_backend.couplers ≡ (0, 1) ∷ [])
unfolding initialize start load login take_credentials add_backends add_backend search_api_key
    read_credentials find_api_key_in_file read_lines read_line piece check_key find_in starts_with
    call choose_backend read_backend read_gates read_couplers text_eq lookup insert jobs_path
started_paths = (refl, refl)

stopped-IsNamed : IsNamed stopped
unfolding lookup
stopped-IsNamed n b h = absurd (cc h)

initialize-IsReady_example :
    IsReady (codes "ibmqx2") started
    × (initialize documents (λ n. n) 0 key_file on_device started ≡ ok (tt, started))
initialize-IsReady_example =
    initialize-IsReady documents (λ n. n) 0 key_file on_device (codes "ibmqx2") stopped started refl
      stopped-IsNamed refl initialize-started

gate_name : remove_cx (codes "CX1_0") ≡ codes "1_0"
unfolding remove_cx
gate_name = refl
