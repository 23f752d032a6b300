-- ===== src/Response.antt =====
-- `IBMAccelerator::processResponse` (accelerator/IBMAccelerator.cpp): waiting for the job, and the
-- counts of its result. The console output and the log are not modelled.
pub mod Polling
pub mod Results
pub mod Single
pub mod Whole
use xacc_ibm.Common.{
  ℕ, zero, suc, ◌+◌, Bool, true, false, not, List, [], ◌∷◌, ◌++◌, Option, none, some, Result, ok,
  err, error, waiting, at_hand, ltb, if◌then◌else◌, get_elem?, length,
}
use xacc_ibm.Common
use xacc_ibm.Common.Text.{Text, codes, find_in}
use xacc_ibm.Common.Int.{ℤ, pos}
use xacc_ibm.Common.Dict.{Dict, get_or}
use xacc_ibm.Common.Keys.{nat_key}
use xacc_ibm.Common.Exec.{Exec, pure, raise, lift, gets, modify, ◌>>=◌, ◌>>◌}
use xacc_ibm.Json.{
  Json, has_member, member, get_string, get_int, get_array, members, index, get_double,
}
use xacc_ibm.Accelerator.{Backend, Accelerator, call, create_buffer}
use xacc_ibm.Outcome.{strip, outcome}

-- What is stored in a buffer under a name.
pub data Info (D : Type 0) : Type 0 where
  number : D → Info D
  text : Text → Info D
  numbers : List D → Info D
  texts : List Text → Info D

-- An `AcceleratorBuffer`: its name and size, and the calls of `appendMeasurement` and `addExtraInfo`
-- made on it, in order.
pub record Buffer (D : Type 0) : Type 0 where
  pub name : Text
  pub size : ℕ
  pub measurements : List (Text × ℕ)
  pub extra : List (Text × Info D)

module _ {D : Type 0} where
  abbrev pub append_measurement : Text → ℕ → Buffer D → Buffer D
  append_measurement s n b = record b { measurements = b.measurements ++ (s, n) ∷ [] }

  abbrev pub add_extra_info : Text → Info D → Buffer D → Buffer D
  add_extra_info k v b = record b { extra = b.extra ++ (k, v) ∷ [] }

  -- What is added for a device, in both branches.
  unfoldable pub add_device_info : Backend D → Buffer D → Buffer D
  add_device_info c b = if c.is_simulator then b else record b {
    extra =
        b.extra
        ++ ((codes "gateSet", text c.gate_set)
            ∷ (codes "basisGates", text c.basis_gates)
            ∷ (codes "readoutErrors", numbers c.readout_errors)
            ∷ (codes "gateErrors", numbers c.gate_errors)
            ∷ (codes "multiQubitGates", texts c.multi_qubit_gates)
            ∷ (codes "multiQubitGateErrors", numbers c.multi_qubit_gate_errors)
            ∷ (codes "frequencies", numbers c.frequencies)
            ∷ (codes "T1", numbers c.t1s)
            ∷ (codes "T2", numbers c.t2s)
            ∷ []);
  }

module _ {D : Type 0} where
  -- The reads that the progress message makes of an answer.
  unfoldable pub report : Json D → Exec (Accelerator D) (Unit {0})
  report d = do
    queued ← lift (has_member d (codes "infoQueue"))
    if queued
        then (do
          info ← lift (member d (codes "infoQueue"))
          status ← lift (member d (codes "status"))
          lift (get_string status)
          queue ← lift (member info (codes "status"))
          lift (get_string queue)
          placed ← lift (has_member info (codes "position"))
          if placed
              then (do
                position ← lift (member info (codes "position"))
                lift (get_int position)
                pure tt)
              else pure tt)
        else (do status ← lift (member d (codes "status")); lift (get_string status); pure tt)

module _ {D : Type 0} (parse : Text → Json D) where
  -- `while (!jobCompleted)`. Each round takes one of the answers to come, `rounds` of them.
  unfoldable pub poll : Text → ℕ → Exec (Accelerator D) Text
  poll path zero a = raise waiting a
  poll path (suc rounds) a =
      let more = poll path rounds in
      (do
        reply ← call path
        if find_in reply (codes "ERROR_RUNNING_JOB")
            then raise (error (codes "Error encountered running IBM job."))
            else (do
              report (parse reply)
              if find_in reply (codes "COMPLETED") then pure reply else more))
        a

module _ {D : Type 0} where
  -- The counts of a kernel in the branch of one kernel: blanks go on a simulator.
  unfoldable pub single_counts :
      Bool → List (Text × Json D) → Buffer D → Exec (Accelerator D) (Buffer D)
  single_counts sim [] b = pure b
  single_counts sim ((bits, v) ∷ counts) b = do
    n ← lift (get_int v)
    single_counts sim counts (append_measurement (if sim then strip bits else bits) n b)

  -- The counts of kernel `i` in the branch of several kernels.
  unfoldable pub kernel_counts :
      Bool → ℕ → List ℕ → List (Text × Json D) → Buffer D → Exec (Accelerator D) (Buffer D)
  kernel_counts sim size supports [] b = pure b
  kernel_counts sim size supports ((bits, v) ∷ counts) b = do
    n ← lift (get_int v)
    s ← lift (outcome sim size supports bits)
    kernel_counts sim size supports counts (append_measurement s n b)

  -- `qasmsArray[i]["result"]["data"][key]`
  abbrev pub value_of : Json D → Text → Result (Json D)
  value_of q key =
      Common.◌>>=◌ (member q (codes "result"))
        λ result. Common.◌>>=◌ (member result (codes "data")) λ values. member values key

module _ {D : Type 0} (of_int : ℕ → D) where
  -- The branch of one kernel: all goes to the given buffer, and no buffer is returned.
  unfoldable pub single_result : Json D → Buffer D → Exec (Accelerator D) (Buffer D)
  unfolding single_counts add_device_info
  single_result q b = do
    chosen ← gets (λ a. a.chosen_backend)
    counts ← lift (value_of q (codes "counts"))
    entries ← lift (members counts)
    b ← single_counts chosen.is_simulator entries b
    time ← lift (value_of q (codes "time"))
    seconds ← lift (get_double of_int time)
    names ← gets (λ a. a.kernel_names)
    name ← lift (at_hand (get_elem? names 0))
    let b' =
        add_extra_info (codes "kernel") (text name)
          (add_extra_info (codes "time") (number seconds) b)
    modify (λ a. record a { measurement_supports = [] })
    pure (add_device_info chosen b')

  -- The time and the counts of a kernel.
  unfoldable pub read_data : Json D → Result (D × List (Text × Json D))
  read_data q = Common.◌>>=◌ (value_of q (codes "time")) λ time.
      Common.◌>>=◌ (get_double of_int time) λ seconds.
        Common.◌>>=◌ (value_of q (codes "counts"))
          λ counts. Common.◌>>=◌ (members counts) λ entries. ok (seconds, entries)

  -- The buffer of kernel `i`.
  unfoldable pub kernel_result : ℕ → ℕ → Json D → Exec (Accelerator D) (Buffer D)
  kernel_result size i q = do
    names ← gets (λ a. a.kernel_names)
    supports ← gets (λ a. get_or i [] a.measurement_supports)
    chosen ← gets (λ a. a.chosen_backend)
    name ← lift (at_hand (get_elem? names i))
    size' ← create_buffer name (pos size)
    (seconds, entries) ← lift (read_data q)
    kernel_counts chosen.is_simulator size supports entries (record {
      name = name;
      size = size';
      measurements = [];
      extra = (codes "time", number seconds) ∷ [];
    })

  unfoldable pub kernel_results : ℕ → ℕ → List (Json D) → Exec (Accelerator D) (List (Buffer D))
  kernel_results size i [] = pure []
  kernel_results size i (q ∷ qs) = do
    b ← kernel_result size i q
    bs ← kernel_results size (i + 1) qs
    pure (b ∷ bs)

  -- The branch of several kernels: the given buffer, and a buffer for each kernel.
  unfoldable pub many_results :
      List (Json D) → Buffer D → Exec (Accelerator D) (Buffer D × List (Buffer D))
  many_results qs b = do
    chosen ← gets (λ a. a.chosen_backend)
    bs ← kernel_results b.size 0 qs
    modify (λ a. record a { measurement_supports = [] })
    pure (add_device_info chosen b, bs)

  unfoldable pub take_array :
      List (Json D) → Buffer D → Exec (Accelerator D) (Buffer D × List (Buffer D))
  take_array (q ∷ []) b = do b' ← single_result q b; pure (b', [])
  take_array qs b = many_results qs b

  -- What is done with the completed job's document.
  unfoldable pub take_results :
      Json D → Buffer D → Exec (Accelerator D) (Buffer D × List (Buffer D))
  unfolding take_array
  take_results d b = do
    qasms ← lift (member d (codes "qasms"))
    array ← lift (get_array qasms)
    take_array array b

module _ {D : Type 0} (parse : Text → Json D) (of_int : ℕ → D) where
  -- `processResponse`: the given buffer as it is left, and the buffers returned.
  unfoldable pub process_response :
      Buffer D → Text → Exec (Accelerator D) (Buffer D × List (Buffer D))
  unfolding take_results
  process_response b response =
      if find_in response (codes "error") then raise (error response) else (do
        job ← lift (member (parse response) (codes "id"))
        id ← lift (get_string job)
        token ← gets (λ a. a.current_api_token)
        let path = codes "/api/Jobs/" ++ id ++ codes "?access_token=" ++ token
        call path
        rounds ← gets (λ a. suc (length a.replies))
        reply ← poll parse path rounds
        take_results of_int (parse reply) b)
