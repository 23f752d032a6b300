-- ===== src/Tests/Runs.antt =====
-- A job from its kernels to its buffers.
use xacc_ibm.Common.{
  ℕ, ◌≡◌, refl, true, false, List, [], ◌∷◌, ◌++◌, ok, err, some, String, map, All,
}
use xacc_ibm.Common.Text.{Text, codes, find_in, starts_with, text_eq}
use xacc_ibm.Common.Dict.{get_or, assign, insert}
use xacc_ibm.Common.Keys.{nat_key}
use xacc_ibm.Ir.{gate, pulse, identity, hadamard, measure, Kernel}
use xacc_ibm.Json.{Json, Items, nil, cons, array, object, string, field, end}
use xacc_ibm.Accelerator.{Accelerator, choose_backend, is_valid_buffer_size}
use xacc_ibm.Request.{
  process_input, kernels_json, check_online, keep_supports, kernel_json, analogs,
}
use xacc_ibm.Request.Posted.{printed, document, process_input-document}
use xacc_ibm.Request.Analog.{IsAnalog, texts, comma_behind, experiment, kernel_json-experiment}
use xacc_ibm.Request.Supports.{process_input-measured}
use xacc_ibm.Nodes.{walk_qasm}
use xacc_ibm.Qasm.{visit, visit_gate}
use xacc_ibm.Outcome
use xacc_ibm.Response
use xacc_ibm.Response.{process_response, report, number}
use xacc_ibm.Response.Polling.{completed, IsPending, IsDone}
use xacc_ibm.Response.Single.{written, gained}
use xacc_ibm.Response.Results.{finishing}
use xacc_ibm.Local
use xacc_ibm.Local.Runs.{filled, head_of, execute_lem}
use xacc_ibm.Nodes.Kept.{by_kernel}
use xacc_ibm.Job.{kernel_buffers, polled, process_response-kernel_buffers, process_response-single}
use xacc_ibm.Tests.Framework.{xacc, inst_nodes, insts_nodes}
use xacc_ibm.Tests.Service.{accelerator, buffer, no_options, result_of}

-- A kernel that measures one qubit.
abbrev one_qubit : String → ℕ → Kernel Text
one_qubit name q = record {
  name = codes name;
  parameters = [];
  analog = false;
  instructions = gate hadamard true (q ∷ []) [] ∷ gate measure true (q ∷ []) (codes "0" ∷ []) ∷ [];
}

abbrev kernels : List (Kernel Text)
kernels = one_qubit "left" 0 ∷ one_qubit "right" 1 ∷ []

-- The document of every answer: the answer's text as the id and the status, and the results.
abbrev results : Items ℕ
results = cons (result_of (codes "00001") 600) (cons (result_of (codes "00010") 424) nil)

abbrev as_job : Text → Json ℕ
as_job t = object (
    field (codes "id") (string t)
      (field (codes "status") (string t) (field (codes "qasms") (array results) end)))

abbrev fresh : Accelerator ℕ
fresh = record accelerator {
  measurement_supports = [];
  kernel_names = [];
  replies = codes "QUEUED" ∷ codes "RUNNING" ∷ completed ∷ [];
}

abbrev posted : Text × Accelerator ℕ
posted = elim (process_input as_job xacc no_options [] 2 kernels fresh) [
  | ok r ↦ r
  | err e ↦ ([], fresh)
]

job_posted : process_input as_job xacc no_options [] 2 kernels fresh ≡ ok (posted.0, posted.1)
unfolding process_input kernels_json kernel_json keep_supports choose_backend check_online walk_qasm
    visit visit_gate inst_nodes insts_nodes analogs text_eq
job_posted = refl

process_input-measured_example : get_or 1 [] posted.1.measurement_supports ≡ 1 ∷ []
unfolding inst_nodes insts_nodes
process_input-measured_example =
    process_input-measured as_job xacc no_options [] 2 kernels posted.0 fresh posted.1 1
      (one_qubit "right" 1) refl job_posted refl

digital : analogs kernels ≡ 0
unfolding analogs
digital = refl

process_input-document_example :
    (backend : Text) × (b : Accelerator ℕ) × (n : Text) × (ns : List Text) × (choose_backend
        no_options fresh
      ≡ ok (backend, b))
    × (printed xacc 2 kernels ≡ ok (n ∷ ns))
    × (posted.0 ≡ document (codes "1024") backend n ns)
process_input-document_example =
    process_input-document as_job xacc no_options [] 2 (one_qubit "left" 0)
      (one_qubit "right" 1 ∷ []) posted.0 fresh posted.1 digital job_posted

answers_left : posted.1.replies ≡ codes "QUEUED" ∷ codes "RUNNING" ∷ completed ∷ []
unfolding process_input kernels_json kernel_json keep_supports choose_backend check_online walk_qasm
    visit visit_gate inst_nodes insts_nodes analogs text_eq
answers_left = refl

running-IsPending : IsPending as_job (codes "RUNNING")
unfolding find_in starts_with report text_eq
running-IsPending = (refl, refl, λ a. refl)

completed-IsDone : IsDone as_job completed
unfolding find_in starts_with report text_eq
completed-IsDone = (refl, refl, λ a. refl)

no_error : find_in (codes "17") (codes "error") ≡ false
unfolding find_in starts_with
no_error = refl

process_response-kernel_buffers_example :
    process_response as_job (λ n. n) buffer (codes "17") posted.1
    ≡ finishing
        (λ n. n)
        2
        (polled 3 (codes "17") [] posted.1)
        buffer
        (kernel_buffers xacc
          (λ n. n)
          posted.1.chosen_backend.is_simulator
          2
          kernels
          (result_of (codes "00001") 600 ∷ result_of (codes "00010") 424 ∷ []))
unfolding text_eq
process_response-kernel_buffers_example =
    process_response-kernel_buffers as_job (λ n. n) xacc no_options [] buffer kernels posted.0 fresh
      posted.1 (codes "17") (codes "17") (codes "QUEUED") (codes "RUNNING" ∷ []) completed []
      (array results) (result_of (codes "00001") 600) (result_of (codes "00010") 424) [] refl refl
      job_posted no_error refl answers_left (running-IsPending, tt) completed-IsDone refl refl

-- Each kernel's buffer has the outcome at the qubit that it measures.
two_buffers :
    kernel_buffers xacc
      (λ n. n)
      false
      2
      kernels
      (result_of (codes "00001") 600 ∷ result_of (codes "00010") 424 ∷ [])
    ≡ ok (
        record {
          name = codes "left";
          size = 2;
          measurements = (codes "01", 600) ∷ [];
          extra = (codes "time", number 7) ∷ [];
        }
        ∷ record {
          name = codes "right";
          size = 2;
          measurements = (codes "10", 424) ∷ [];
          extra = (codes "time", number 7) ∷ [];
        }
        ∷ [])
unfolding Response.read_data Outcome.outcome Outcome.from_device Outcome.mask Outcome.cut
    Outcome.mask_from is_valid_buffer_size inst_nodes insts_nodes text_eq
two_buffers = refl

-- The local simulator: a surrounding whose simulator counts one bit string for each circuit.
abbrev simulator : Local.Surroundings ℕ ℕ
simulator = record {
  parse_operations = λ t. some 0;
  simulate = λ cs c. Local.finished (map (λ x. (codes "1", 3) ∷ []) cs);
  stod = λ t. ok 0;
  split = λ t c. [];
  measurement_counts = λ ts. [];
}

abbrev local : Local.Accelerator
local = record { measurement_supports = []; stored = [] }

abbrev run : List Local.Buffer × Local.Accelerator
run = elim (Local.execute xacc simulator no_options 2 kernels local) [
  | ok r ↦ r
  | err e ↦ ([], local)
]

run_ends : Local.execute xacc simulator no_options 2 kernels local ≡ ok (run.0, run.1)
unfolding Local.execute Local.circuits Local.circuit Local.config Local.take_results Local.fill
    Local.create_buffer walk_qasm visit visit_gate inst_nodes insts_nodes text_eq
    is_valid_buffer_size Outcome.local_outcome Outcome.sort get_or assign insert
run_ends = refl

execute_lem_example :
    (cs : List (Local.Circuit ℕ)) × (c : Local.Config ℕ) × (r : Local.Results) × (map
        (head_of xacc simulator)
        cs
      ≡ (codes "left", 1) ∷ (codes "right", 1) ∷ [])
    × (simulator.simulate cs c ≡ Local.finished r)
    × (by_kernel (filled 2) xacc kernels r ≡ ok run.0)
    × (run.1.measurement_supports ≡ [])
unfolding inst_nodes insts_nodes
execute_lem_example =
    execute_lem xacc simulator no_options 2 kernels local run.1 run.0 refl run_ends

-- Each kernel's bit stands at the qubit that it measures.
local_outcomes :
    map (λ (b : Local.Buffer). b.outcomes) run.0
    ≡ (codes "01" ∷ codes "01" ∷ codes "01" ∷ []) ∷ (codes "10" ∷ codes "10" ∷ codes "10" ∷ []) ∷ []
unfolding Local.execute Local.circuits Local.circuit Local.config Local.take_results Local.fill
    Local.create_buffer walk_qasm visit visit_gate inst_nodes insts_nodes text_eq
    is_valid_buffer_size Outcome.local_outcome Outcome.place Outcome.sort Outcome.insert_sorted
    get_or assign insert
local_outcomes = refl

-- A job of one kernel, on a device: its counts are stored as they are.
abbrev as_single : Text → Json ℕ
as_single t = object (
    field (codes "id") (string t) (
      field (codes "status") (string t)
        (field (codes "qasms") (array (cons (result_of (codes "00001") 600) nil)) end)))

abbrev single : Text × Accelerator ℕ
single = elim (process_input as_single xacc no_options [] 2 (one_qubit "left" 0 ∷ []) fresh) [
  | ok r ↦ r
  | err e ↦ ([], fresh)
]

single_posted :
    process_input as_single xacc no_options [] 2 (one_qubit "left" 0 ∷ []) fresh
    ≡ ok (single.0, single.1)
unfolding process_input kernels_json kernel_json keep_supports choose_backend check_online walk_qasm
    visit visit_gate inst_nodes insts_nodes analogs text_eq
single_posted = refl

single_answers : single.1.replies ≡ codes "QUEUED" ∷ codes "RUNNING" ∷ completed ∷ []
unfolding process_input kernels_json kernel_json keep_supports choose_backend check_online walk_qasm
    visit visit_gate inst_nodes insts_nodes analogs text_eq
single_answers = refl

single-IsPending : IsPending as_single (codes "RUNNING")
unfolding find_in starts_with report text_eq
single-IsPending = (refl, refl, λ a. refl)

single-IsDone : IsDone as_single completed
unfolding find_in starts_with report text_eq
single-IsDone = (refl, refl, λ a. refl)

single_data :
    Response.read_data (λ n. n) (result_of (codes "00001") 600)
    ≡ ok (7, written ((codes "00001", 600) ∷ []))
unfolding Response.read_data text_eq
single_data = refl

process_response-single_example :
    process_response as_single (λ n. n) buffer (codes "17") single.1
    ≡ ok (
      (gained single.1 (codes "left") 7 ((codes "00001", 600) ∷ []) buffer, []),
      record (polled 3 (codes "17") [] single.1) { measurement_supports = [] },
    )
unfolding text_eq
process_response-single_example =
    process_response-single as_single (λ n. n) xacc no_options [] buffer (one_qubit "left" 0) []
      single.0 fresh single.1 (codes "17") (codes "17") (codes "QUEUED") (codes "RUNNING" ∷ [])
      completed [] (array (cons (result_of (codes "00001") 600) nil))
      (result_of (codes "00001") 600) 7 ((codes "00001", 600) ∷ []) refl single_posted no_error refl
      single_answers (single-IsPending, tt) single-IsDone refl refl single_data

-- An OpenPulse kernel: an identity is visited, and nothing is printed.
abbrev analog_kernel : Kernel Text
analog_kernel = record {
  name = codes "p";
  parameters = [];
  analog = true;
  instructions =
      pulse true (0 ∷ []) (ok (codes "{ a },"))
      ∷ gate identity true (0 ∷ []) []
      ∷ pulse true (0 ∷ []) (ok (codes "{ b },"))
      ∷ [];
}

pulse_nodes-IsAnalog : All IsAnalog (xacc.walk analog_kernel)
unfolding inst_nodes insts_nodes
pulse_nodes-IsAnalog = (tt, (tt, (tt, (tt, tt))))

analog_texts :
    texts (xacc.walk analog_kernel) ≡ ok (map comma_behind (codes "{ a }" ∷ codes "{ b }" ∷ []))
unfolding inst_nodes insts_nodes
analog_texts = refl

kernel_json-experiment_example :
    kernel_json xacc true 2 analog_kernel
    ≡ ok (experiment (codes "p") (codes "{ a }" ∷ codes "{ b }" ∷ []) ++ codes ",", [])
kernel_json-experiment_example =
    kernel_json-experiment xacc 2 analog_kernel (codes "{ a }" ∷ codes "{ b }" ∷ [])
      pulse_nodes-IsAnalog analog_texts

-- The texts are those of a JSON document, and without a pulse the opening bracket is missing.
experiment_run :
    (experiment (codes "p") (codes "{ a }" ∷ codes "{ b }" ∷ [])
      ≡ codes "{ \"name\": \"p\", \"instructions\": [{ a },{ b }]}")
    × (experiment (codes "p") [] ≡ codes "{ \"name\": \"p\", \"instructions\": ]}")
experiment_run = (refl, refl)
