-- ===== src/Response/Whole.antt =====
-- `processResponse` as a whole, for a job that the service runs to its end.
use xacc_ibm.Common.{
  ℕ, suc, ◌≡◌, refl, ◌∙◌, false, List, [], ◌∷◌, ◌++◌, ok, length, length-append, replicate, All,
  arith, append_assoc,
}
use xacc_ibm.Common.Text.{Text, codes, find_in}
use xacc_ibm.Common.Exec.{◌>>=◌, ◌>>◌}
use xacc_ibm.Json.{Json, member, string}
use xacc_ibm.Accelerator.{Accelerator, call}
use xacc_ibm.Response.{Buffer, poll, take_results, process_response}
use xacc_ibm.Response.Polling.{IsPending, IsDone, poll_ends}

-- The path of a job.
abbrev pub job_path : Text → Text → Text
job_path id token = codes "/api/Jobs/" ++ id ++ codes "?access_token=" ++ token

module _ {D : Type 0} (parse : Text → Json D) (of_int : ℕ → D) where
  polled :
      (path : Text) (pre : List Text) (r : Text) (rest : List Text) (a : Accelerator D)
      → All (IsPending parse) pre
      → IsDone parse r
      → poll parse path
          (suc (length (pre ++ r ∷ rest)))
          (record a { replies = pre ++ r ∷ rest; requests = a.requests ++ path ∷ [] })
        ≡ ok (
          r,
          record a {
            replies = rest;
            requests = a.requests ++ replicate (suc (suc (length pre))) path;
          },
        )
  polled path pre r rest a p d =
      poll_ends parse path pre r rest (suc (length (pre ++ r ∷ rest)))
        (record a { requests = a.requests ++ path ∷ [] }) p d
        (omega (arith, length-append pre (r ∷ rest)))
      ∙ rw append_assoc

  -- When the answer to the post does not contain the word `error` and its document has an id, and
  -- the service answers to the job's path once with anything, then with pending answers, then with
  -- one that says the job is done, processing the response takes the results of that last answer's
  -- document; the answers up to it were taken with one call each of the job's path, and the first of
  -- them was not read.
  pub process_response-take_results :
      (b : Buffer D) (response id first : Text) (pre : List Text) (r : Text) (rest : List Text)
      (a : Accelerator D)
      → find_in response (codes "error") ≡ false
      → member (parse response) (codes "id") ≡ ok (string id)
      → All (IsPending parse) pre
      → IsDone parse r
      → process_response parse of_int b response (record a { replies = first ∷ pre ++ r ∷ rest })
        ≡ take_results of_int (parse r) b (record a {
          replies = rest;
          requests =
              a.requests ++ replicate (suc (suc (length pre))) (job_path id a.current_api_token);
        })
  unfolding process_response call
  process_response-take_results b response id first pre r rest a e j p d =
      rw (e, j, ◌>>=◌, ◌>>◌, polled (job_path id a.current_api_token) pre r rest a p d) refl
