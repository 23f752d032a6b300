-- ===== src/Response/Polling.antt =====
-- The wait for the job: which answer ends it, and how.
use xacc_ibm.Common.{
  ℕ, zero, suc, ◌<◌, ◌≡◌, ◌∙◌, true, false, List, [], ◌∷◌, ◌++◌, ok, err, error, length, replicate,
  All, arith, append_assoc,
}
use xacc_ibm.Common.Text.{Text, codes, find_in}
use xacc_ibm.Common.Exec.{◌>>=◌, ◌>>◌}
use xacc_ibm.Json.{Json}
use xacc_ibm.Accelerator.{Accelerator, call}
use xacc_ibm.Response.{report, poll}

abbrev pub completed : Text
completed = codes "COMPLETED"

abbrev pub failed : Text
failed = codes "ERROR_RUNNING_JOB"

module _ {D : Type 0} (parse : Text → Json D) where
  -- The progress message can be made of the answer.
  abbrev pub IsReadable : Text → Type 0
  IsReadable r = (a : Accelerator D) → report (parse r) a ≡ ok (tt, a)

  -- An answer of a job that goes on, and one of a job that is done.
  abbrev pub IsPending : Text → Type 0
  IsPending r = (find_in r failed ≡ false) × (find_in r completed ≡ false) × IsReadable r

  abbrev pub IsDone : Text → Type 0
  IsDone r = (find_in r failed ≡ false) × (find_in r completed ≡ true) × IsReadable r

module _ {D : Type 0} (parse : Text → Json D) (path : Text) where
  -- A round that takes a pending answer.
  poll-pending :
      (rounds : ℕ) (r : Text) (rest : List Text) (a : Accelerator D)
      → IsPending parse r
      → poll parse path (suc rounds) (record a { replies = r ∷ rest })
        ≡ poll parse path rounds (record a { replies = rest; requests = a.requests ++ path ∷ [] })
  unfolding poll call
  poll-pending rounds r rest a h =
      rw (h.0, h.2 (record a { replies = rest; requests = a.requests ++ path ∷ [] }), ◌>>=◌, ◌>>◌)
        (rw h.1)

  poll-done :
      (rounds : ℕ) (r : Text) (rest : List Text) (a : Accelerator D)
      → IsDone parse r
      → poll parse path (suc rounds) (record a { replies = r ∷ rest })
        ≡ ok (r, record a { replies = rest; requests = a.requests ++ path ∷ [] })
  unfolding poll call
  poll-done rounds r rest a h =
      rw (h.0, h.2 (record a { replies = rest; requests = a.requests ++ path ∷ [] }), ◌>>=◌, ◌>>◌)
        (rw h.1)

  -- When the answers to come are pending ones, then one that says the job is done, and there are
  -- rounds enough, the wait returns that answer, takes the answers up to it from the service with
  -- one call each, and changes nothing else.
  pub poll_ends :
      (pre : List Text) (r : Text) (rest : List Text) (rounds : ℕ) (a : Accelerator D)
      → All (IsPending parse) pre
      → IsDone parse r
      → length pre < rounds
      → poll parse path rounds (record a { replies = pre ++ r ∷ rest })
        ≡ ok (
          r,
          record a { replies = rest; requests = a.requests ++ replicate (suc (length pre)) path },
        )
  poll_ends pre r rest zero a p d l = elim l [ ]
  poll_ends [] r rest (suc rounds) a p d l = poll-done rounds r rest a d
  poll_ends (s ∷ pre) r rest (suc rounds) a p d l =
      poll-pending rounds s (pre ++ r ∷ rest) a p.0
      ∙ poll_ends pre r rest rounds (record a { requests = a.requests ++ path ∷ [] }) p.1 d
          (omega arith)
      ∙ rw append_assoc

  -- When the answers to come are pending ones, then one that says the job failed, and there are
  -- rounds enough, the wait ends with the program's error.
  pub poll_fails :
      (pre : List Text) (r : Text) (rest : List Text) (rounds : ℕ) (a : Accelerator D)
      → All (IsPending parse) pre
      → find_in r failed ≡ true
      → length pre < rounds
      → poll parse path rounds (record a { replies = pre ++ r ∷ rest })
        ≡ err (error (codes "Error encountered running IBM job."))
  unfolding poll call
  poll_fails pre r rest zero a p d l = elim l [ ]
  poll_fails [] r rest (suc rounds) a p d l = rw d
  poll_fails (s ∷ pre) r rest (suc rounds) a p d l =
      poll-pending rounds s (pre ++ r ∷ rest) a p.0
      ∙ poll_fails pre r rest rounds (record a { requests = a.requests ++ path ∷ [] }) p.1 d
          (omega arith)
