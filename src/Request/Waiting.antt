-- ===== src/Request/Waiting.antt =====
-- The wait for the device before a job is posted.
use xacc_ibm.Common.{
  ℕ, zero, suc, ◌<◌, ◌≡◌, refl, ◌∙◌, false, List, [], ◌∷◌, ◌++◌, ok, length, length-append,
  replicate, All, arith, append_assoc,
}
use xacc_ibm.Common.Text.{Text, codes, text_eq}
use xacc_ibm.Common.Exec.{◌>>=◌}
use xacc_ibm.Json.{Json}
use xacc_ibm.Accelerator.{Accelerator, call, default_backend}
use xacc_ibm.Request.{status_of, wait_online, check_online, device_path}

module _ {D : Type 0} (parse : Text → Json D) where
  -- An answer whose status is another than "on".
  abbrev pub IsOffline : Text → Type 0
  IsOffline r = (s : Text) × (status_of (parse r) ≡ ok s) × (text_eq s (codes "on") ≡ false)

  wait_online-ends :
      (path : Text) (pre : List Text) (r : Text) (rest : List Text) (rounds : ℕ) (a : Accelerator D)
      → All IsOffline pre
      → status_of (parse r) ≡ ok (codes "on")
      → length pre < rounds
      → wait_online parse path rounds (record a { replies = pre ++ r ∷ rest })
        ≡ ok (
          tt,
          record a { replies = rest; requests = a.requests ++ replicate (suc (length pre)) path },
        )
  unfolding wait_online call text_eq
  wait_online-ends path pre r rest zero a p d l = elim l [ ]
  wait_online-ends path [] r rest (suc rounds) a p d l = rw (d, ◌>>=◌) refl
  wait_online-ends path (q ∷ pre) r rest (suc rounds) a p d l =
      rw (p.0.1, ◌>>=◌)
        (rw p.0.2 (
          wait_online-ends path pre r rest rounds (record a { requests = a.requests ++ path ∷ [] })
            p.1 d (omega arith)
          ∙ rw append_assoc))

  -- For another backend than the default simulator, when the answers to come have another status
  -- than `on`, then one has the status `on`, the wait for the device succeeds, takes the answers up
  -- to that one with one call each of the device's path, and changes nothing else.
  pub check_online-ends :
      (backend : Text) (pre : List Text) (r : Text) (rest : List Text) (a : Accelerator D)
      → text_eq backend default_backend ≡ false
      → All IsOffline pre
      → status_of (parse r) ≡ ok (codes "on")
      → check_online parse backend (record a { replies = pre ++ r ∷ rest })
        ≡ ok (
          tt,
          record a {
            replies = rest;
            requests =
                a.requests
                ++ replicate (suc (length pre)) (device_path a.hub backend a.current_api_token);
          },
        )
  unfolding check_online
  check_online-ends backend pre r rest a e p d = rw e (
      wait_online-ends (device_path a.hub backend a.current_api_token) pre r rest
        (suc (length (pre ++ r ∷ rest))) a p d (omega (arith, length-append pre (r ∷ rest))))
