-- ===== src/Tests/Jobs.antt =====
-- A job from its answer to its document.
use xacc_ibm.Common.{ℕ, ◌≡◌, refl, false, [], ◌∷◌, ok}
use xacc_ibm.Common.Text.{Text, codes, find_in, starts_with, text_eq}
use xacc_ibm.Json.{Json, member, object, string, field, end}
use xacc_ibm.Response.{report, take_results, process_response}
use xacc_ibm.Accelerator.{default_backend}
use xacc_ibm.Request.{status_of, check_online, device_path}
use xacc_ibm.Request.Waiting.{IsOffline, check_online-ends}
use xacc_ibm.Response.Polling.{completed, IsPending, IsDone}
use xacc_ibm.Response.Whole.{process_response-take_results}
use xacc_ibm.Tests.Service.{accelerator, buffer}

-- A document that holds the answer's text as its id and its status.
abbrev as_job : Text → Json ℕ
as_job t = object (field (codes "id") (string t) (field (codes "status") (string t) end))

running-IsPending : IsPending as_job (codes "RUNNING")
unfolding find_in starts_with report text_eq
running-IsPending = (refl, refl, λ a. refl)

completed-IsDone : IsDone as_job completed
unfolding find_in starts_with report text_eq
completed-IsDone = (refl, refl, λ a. refl)

no_error : find_in (codes "17") (codes "error") ≡ false
unfolding find_in starts_with
no_error = refl

id_of_job : member (as_job (codes "17")) (codes "id") ≡ ok (string (codes "17"))
unfolding text_eq
id_of_job = refl

process_response-take_results_example :
    process_response as_job
      (λ n. n)
      buffer
      (codes "17")
      (record accelerator { replies = codes "QUEUED" ∷ codes "RUNNING" ∷ completed ∷ [] })
    ≡ take_results
        (λ n. n)
        (as_job completed)
        buffer
        (record accelerator {
          replies = [];
          requests =
              codes "/api/Jobs/17?access_token=token"
              ∷ codes "/api/Jobs/17?access_token=token"
              ∷ codes "/api/Jobs/17?access_token=token"
              ∷ [];
        })
process_response-take_results_example =
    process_response-take_results as_job (λ n. n) buffer (codes "17") (codes "17") (codes "QUEUED")
      (codes "RUNNING" ∷ []) completed [] accelerator no_error id_of_job (running-IsPending, tt)
      completed-IsDone

other_backend : text_eq (codes "ibmqx2") default_backend ≡ false
unfolding text_eq
other_backend = refl

off-IsOffline : IsOffline as_job (codes "off")
unfolding status_of text_eq
off-IsOffline = (codes "off", refl, refl)

status_on : status_of (as_job (codes "on")) ≡ ok (codes "on")
unfolding status_of text_eq
status_on = refl

check_online-ends_example :
    check_online as_job
      (codes "ibmqx2")
      (record accelerator { replies = codes "off" ∷ codes "on" ∷ [] })
    ≡ ok (
      tt,
      record accelerator {
        replies = [];
        requests = codes "/api/Backends/ibmqx2" ∷ codes "/api/Backends/ibmqx2" ∷ [];
      },
    )
unfolding device_path
check_online-ends_example =
    check_online-ends as_job (codes "ibmqx2") (codes "off" ∷ []) (codes "on") [] accelerator
      other_backend (off-IsOffline, tt) status_on
