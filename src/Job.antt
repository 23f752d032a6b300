-- ===== src/Job.antt =====
-- A job from its kernels to its buffers: `processInput` and then `processResponse`
-- (accelerator/IBMAccelerator.cpp), as the base class of XACC calls them, with the answer to the post between.
use xacc_ibm.Common.{
  ℕ, suc, ◌≡◌, refl, ◌∙◌, ap, Bool, false, List, [], ◌∷◌, ◌++◌, some, get_elem?, Result, ok, length,
  replicate, All,
}
use xacc_ibm.Common.Text.{Text, codes, find_in}
use xacc_ibm.Common.Keys.{nat_key}
use xacc_ibm.Ir.{Kernel, Xacc}
use xacc_ibm.Json.{Json, member, string, get_array}
use xacc_ibm.Accelerator.{Accelerator, Options}
use xacc_ibm.Request.{process_input}
use xacc_ibm.Request.Names.{names, process_input-kernel_names}
use xacc_ibm.Request.Supports.{process_input-measured}
use xacc_ibm.Response.{Buffer, read_data, many_results, take_results, process_response}
use xacc_ibm.Response.Polling.{IsPending, IsDone}
use xacc_ibm.Nodes.Kept.{by_kernel, numbered-kept}
use xacc_ibm.Response.Results.{filled, finishing, many_results_lem}
use xacc_ibm.Response.Single.{written, gained, single_result_lem}
use xacc_ibm.Common.Exec
use xacc_ibm.Response.Whole.{job_path, process_response-take_results}

-- The buffers of kernels from the parts of a document, in order, each with the name of its kernel and the
-- outcomes of the counts by the qubits that the kernel measures.
abbrev pub kernel_buffers :
    {P D : Type 0} (X : Xacc P) (of_int : ℕ → D) (sim : Bool) (size : ℕ)
    → List (Kernel P)
    → List (Json D)
    → Result (List (Buffer D))
kernel_buffers X of_int sim size = by_kernel (filled of_int size sim) X

-- The state when the answer about the finished job is taken.
abbrev pub polled : {D : Type 0} → ℕ → Text → List Text → Accelerator D → Accelerator D
polled n id rest a = record a {
  replies = rest;
  requests = a.requests ++ replicate n (job_path id a.current_api_token);
}

module _ {P D : Type 0} (parse : Text → Json D) (of_int : ℕ → D) (X : Xacc P) where
  take_results-many :
      (d qasms : Json D) (q q' : Json D) (qs : List (Json D)) (b : Buffer D) (a : Accelerator D)
      → member d (codes "qasms") ≡ ok qasms
      → get_array qasms ≡ ok (q ∷ q' ∷ qs)
      → take_results of_int d b a ≡ many_results of_int (q ∷ q' ∷ qs) b a
  unfolding take_results
  take_results-many d qasms q q' qs b a e f = rw (e, f) refl

  take_results-single :
      (d qasms q : Json D) (b : Buffer D) (a : Accelerator D) (name : Text) (seconds : D)
      (counts : List (Text × ℕ))
      → member d (codes "qasms") ≡ ok qasms
      → get_array qasms ≡ ok (q ∷ [])
      → read_data of_int q ≡ ok (seconds, written counts)
      → get_elem? a.kernel_names 0 ≡ some name
      → take_results of_int d b a
        ≡ ok ((gained a name seconds counts b, []), record a { measurement_supports = [] })
  unfolding take_results
  take_results-single d qasms q b a name seconds counts e f h n =
      rw (e, f, single_result_lem of_int q b a name seconds counts h n, Exec.◌>>=◌) refl

  many_results-kernel_buffers :
      (opts : Options) (cache : List (Text × Text)) (b : Buffer D) (ks : List (Kernel P)) (t : Text)
      (a a' : Accelerator D) (qs : List (Json D)) (n : ℕ) (id : Text) (rest : List Text)
      → a.kernel_names ≡ []
      → a.measurement_supports ≡ []
      → process_input parse X opts cache b.size ks a ≡ ok (t, a')
      → many_results of_int qs b (polled n id rest a')
        ≡ finishing of_int b.size
            (polled n id rest a')
            b
            (kernel_buffers X of_int a'.chosen_backend.is_simulator b.size ks qs)
  many_results-kernel_buffers opts cache b ks t a a' qs n id rest no_names no_supports h =
      many_results_lem of_int qs b (polled n id rest a')
      ∙ ap (finishing of_int b.size (polled n id rest a') b) (
          numbered-kept (filled of_int b.size a'.chosen_backend.is_simulator) X ks qs
            a'.kernel_names a'.measurement_supports
            (process_input-kernel_names parse X opts cache b.size ks t a a' h
              ∙ ap (λ ns. ns ++ names ks) no_names)
            (λ j k e.
              process_input-measured parse X opts cache b.size ks t a a' j k no_supports h e))

  -- On an accelerator that keeps no kernel names and no measured qubits from before: when the input
  -- is processed, the answer to the post does not contain the word `error` and its document has an
  -- id, the service then answers once with anything, then with pending answers, then with one that
  -- says the job is done, and the array of its document has two parts at least, processing the
  -- response returns a buffer for each part, in order, with the name of the kernel of that number
  -- and the outcomes of the part placed by the qubits that this kernel measures, gives the device's
  -- data to the given buffer, and drops the kept measurements; it fails as the first buffer that
  -- cannot be made, for which there must be a kernel.
  pub process_response-kernel_buffers :
      (opts : Options) (cache : List (Text × Text)) (b : Buffer D) (ks : List (Kernel P)) (t : Text)
      (a a' : Accelerator D) (response id first : Text) (pre : List Text) (r : Text)
      (rest : List Text) (qasms q q' : Json D) (qs : List (Json D))
      → a.kernel_names ≡ []
      → a.measurement_supports ≡ []
      → process_input parse X opts cache b.size ks a ≡ ok (t, a')
      → find_in response (codes "error") ≡ false
      → member (parse response) (codes "id") ≡ ok (string id)
      → a'.replies ≡ first ∷ pre ++ r ∷ rest
      → All (IsPending parse) pre
      → IsDone parse r
      → member (parse r) (codes "qasms") ≡ ok qasms
      → get_array qasms ≡ ok (q ∷ q' ∷ qs)
      → process_response parse of_int b response a'
        ≡ finishing of_int b.size
            (polled (suc (suc (length pre))) id rest a')
            b
            (kernel_buffers X of_int a'.chosen_backend.is_simulator b.size ks (q ∷ q' ∷ qs))
  process_response-kernel_buffers opts cache b ks t a a' response id first pre r rest qasms q q' qs
        no_names no_supports h no_error job answers pending finished document array =
      ap (λ rs. process_response parse of_int b response (record a' { replies = rs })) answers
      ∙ process_response-take_results parse of_int b response id first pre r rest a' no_error job
          pending finished
      ∙ take_results-many (parse r) qasms q q' qs b (polled (suc (suc (length pre))) id rest a')
          document array
      ∙ many_results-kernel_buffers opts cache b ks t a a' (q ∷ q' ∷ qs) (suc (suc (length pre))) id
          rest no_names no_supports h

  -- On an accelerator that keeps no kernel names from before: when the input is processed, the
  -- answer to the post does not contain the word `error` and its document has an id, the service
  -- then answers once with anything, then with pending answers, then with one that says the job is
  -- done, and the array of its document has one part, with a time and counts, processing the
  -- response returns no buffer; the given buffer gains the counts of the part, with blanks taken off
  -- on a simulator and unchanged on a device, the time, the name of the first kernel and the
  -- device's data; and the kept measurements are dropped.
  pub process_response-single :
      (opts : Options) (cache : List (Text × Text)) (b : Buffer D) (k : Kernel P)
      (ks : List (Kernel P)) (t : Text) (a a' : Accelerator D) (response id first : Text)
      (pre : List Text) (r : Text) (rest : List Text) (qasms q : Json D) (seconds : D)
      (counts : List (Text × ℕ))
      → a.kernel_names ≡ []
      → process_input parse X opts cache b.size (k ∷ ks) a ≡ ok (t, a')
      → find_in response (codes "error") ≡ false
      → member (parse response) (codes "id") ≡ ok (string id)
      → a'.replies ≡ first ∷ pre ++ r ∷ rest
      → All (IsPending parse) pre
      → IsDone parse r
      → member (parse r) (codes "qasms") ≡ ok qasms
      → get_array qasms ≡ ok (q ∷ [])
      → read_data of_int q ≡ ok (seconds, written counts)
      → process_response parse of_int b response a'
        ≡ ok (
          (gained a' k.name seconds counts b, []),
          record (polled (suc (suc (length pre))) id rest a') { measurement_supports = [] },
        )
  process_response-single opts cache b k ks t a a' response id first pre r rest qasms q seconds
        counts no_names h no_error job answers pending finished document array values =
      let named =
        process_input-kernel_names parse X opts cache b.size (k ∷ ks) t a a' h
        ∙ ap (λ ns. ns ++ names (k ∷ ks)) no_names in
      ap (λ rs. process_response parse of_int b response (record a' { replies = rs })) answers
      ∙ process_response-take_results parse of_int b response id first pre r rest a' no_error job
          pending finished
      ∙ take_results-single (parse r) qasms q b (polled (suc (suc (length pre))) id rest a') k.name
          seconds counts document array values (ap (λ ns. get_elem? ns 0) named)
