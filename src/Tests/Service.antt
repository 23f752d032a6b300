-- ===== src/Tests/Service.antt =====
-- The accelerator with a scripted service, and a configuration file.
use xacc_ibm.Common.{ℕ, ◌≡◌, refl, true, false, List, [], ◌∷◌, none, ok, err, error, arith}
use xacc_ibm.Common.Text.{Text, codes, find_in, text_eq, starts_with}
use xacc_ibm.Ir.{gate, hadamard, measure, Kernel}
use xacc_ibm.Json.{Json, object, string, integer, real, field, end}
use xacc_ibm.Accelerator.{Accelerator, Backend, Options, choose_backend}
use xacc_ibm.Request.{
  process_input, kernels_json, check_online, keep_supports, kernel_json, analogs,
}
use xacc_ibm.Request.Names.{process_input-kernel_names}
use xacc_ibm.Nodes.{walk_qasm}
use xacc_ibm.Qasm.{visit, visit_gate}
use xacc_ibm.Response.{Buffer, report, poll, many_results}
use xacc_ibm.Response.Polling.{
  completed, failed, IsPending, IsDone, IsReadable, poll_ends, poll_fails,
}
use xacc_ibm.Response.Results.{expected_all, finishing, many_results_lem}
use xacc_ibm.Config.{}
use xacc_ibm.Tests.Framework.{xacc, inst_nodes, insts_nodes}

abbrev device : Backend ℕ
device = record {
  name = codes "ibmqx2";
  description = [];
  n_qubits = 5;
  couplers = (0, 1) ∷ [];
  status = true;
  is_simulator = false;
  gate_set = [];
  basis_gates = [];
  readout_errors = [];
  gate_errors = [];
  multi_qubit_gates = [];
  multi_qubit_gate_errors = [];
  t1s = [];
  t2s = [];
  frequencies = [];
}

-- Two kernels were posted before, of which the first measured qubit 0 and the second qubits 0 and 1.
abbrev pub accelerator : Accelerator ℕ
accelerator = record {
  current_api_token = codes "token";
  url = [];
  hub = [];
  group = [];
  project = [];
  post_path = [];
  remote_url = [];
  available_backends = [];
  measurement_supports = (0, 0 ∷ []) ∷ (1, 0 ∷ 1 ∷ []) ∷ [];
  kernel_names = codes "a" ∷ codes "b" ∷ [];
  chosen_backend = device;
  initialized = true;
  replies = [];
  requests = [];
  stored = [];
}

-- Each answer is a document whose status is the answer's text.
abbrev as_status : Text → Json ℕ
as_status t = object (field (codes "status") (string t) end)

status_IsReadable : (t : Text) → IsReadable as_status t
unfolding report text_eq
status_IsReadable t a = refl

running_IsPending : IsPending as_status (codes "RUNNING")
unfolding find_in starts_with
running_IsPending = (refl, refl, status_IsReadable (codes "RUNNING"))

completed-IsDone : IsDone as_status completed
unfolding find_in starts_with
completed-IsDone = (refl, refl, status_IsReadable completed)

failed_found : find_in (codes "ERROR_RUNNING_JOB") failed ≡ true
unfolding find_in starts_with
failed_found = refl

poll_ends_example :
    poll as_status
      (codes "/api/Jobs/1")
      3
      (record accelerator { replies = codes "RUNNING" ∷ completed ∷ codes "x" ∷ [] })
    ≡ ok (
      completed,
      record accelerator {
        replies = codes "x" ∷ [];
        requests = codes "/api/Jobs/1" ∷ codes "/api/Jobs/1" ∷ [];
      },
    )
poll_ends_example =
    poll_ends as_status (codes "/api/Jobs/1") (codes "RUNNING" ∷ []) completed (codes "x" ∷ []) 3
      accelerator (running_IsPending, tt) completed-IsDone (omega arith)

poll_fails_example :
    poll as_status
      (codes "/api/Jobs/1")
      3
      (record accelerator { replies = codes "RUNNING" ∷ codes "ERROR_RUNNING_JOB" ∷ [] })
    ≡ err (error (codes "Error encountered running IBM job."))
poll_fails_example =
    poll_fails as_status (codes "/api/Jobs/1") (codes "RUNNING" ∷ []) (codes "ERROR_RUNNING_JOB") []
      3 accelerator (running_IsPending, tt) failed_found (omega arith)

-- A kernel's part of the result's document.
abbrev pub result_of : Text → ℕ → Json ℕ
result_of bits n = object (
    field (codes "result")
      (object (
        field (codes "data")
          (object (
            field (codes "time") (real 7)
              (field (codes "counts") (object (field bits (integer n) end)) end)))
          end))
      end)

abbrev pub buffer : Buffer ℕ
buffer = record { name = codes "q"; size = 2; measurements = []; extra = [] }

abbrev results : List (Json ℕ)
results = result_of (codes "00011") 600 ∷ result_of (codes "00011") 424 ∷ []

many_results_lem_example :
    many_results (λ n. n) results buffer accelerator
    ≡ finishing
        (λ n. n)
        2
        accelerator
        buffer
        (expected_all
          (λ n. n)
          2
          accelerator.kernel_names
          accelerator.measurement_supports
          false
          0
          results)
many_results_lem_example = many_results_lem (λ n. n) results buffer accelerator

abbrev pub no_options : Options
no_options name = none

abbrev bell : Kernel Text
bell = record {
  name = codes "bell";
  parameters = [];
  analog = false;
  instructions = gate hadamard true (0 ∷ []) [] ∷ gate measure true (0 ∷ []) (codes "0" ∷ []) ∷ [];
}

abbrev job : Text × Accelerator ℕ
job = elim (process_input as_status xacc no_options [] 2 (bell ∷ []) accelerator) [
  | ok r ↦ r
  | err e ↦ ([], accelerator)
]

job_posted :
    process_input as_status xacc no_options [] 2 (bell ∷ []) accelerator ≡ ok (job.0, job.1)
unfolding process_input kernels_json kernel_json keep_supports choose_backend check_online walk_qasm
    visit visit_gate inst_nodes insts_nodes analogs text_eq
job_posted = refl

process_input-kernel_names_example : job.1.kernel_names ≡ codes "a" ∷ codes "b" ∷ codes "bell" ∷ []
process_input-kernel_names_example =
    process_input-kernel_names as_status xacc no_options [] 2 (bell ∷ []) job.0 accelerator job.1
      job_posted
