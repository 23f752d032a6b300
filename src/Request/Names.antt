-- ===== src/Request/Names.antt =====
-- The names that are kept for the response.
use xacc_ibm.Common.{
  ℕ, zero, suc, ◌+◌, ◌≡◌, ◌∙◌, Bool, List, [], ◌∷◌, ◌++◌, map, Result, ok, arith, append_assoc,
  append-nil, ap, Bool-cases, Result-cases, inl, inr, length, not, ◌&&◌, ltb, ◌==◌,
}
use xacc_ibm.Common.Text.{Text, codes, text_eq}
use xacc_ibm.Common.Exec.{pure, ◌>>=◌, Exec, >>=-eq-ok}
use xacc_ibm.Ir.{Kernel, Xacc}
use xacc_ibm.Json.{Json}
use xacc_ibm.Accelerator.{Accelerator, Options, call, choose_backend}
use xacc_ibm.Request.{
  analogs, kernel_json, keep_supports, kernels_json, wait_online, status_of, check_online,
  device_path, process_input,
}

abbrev pub names : {P : Type 0} → List (Kernel P) → List Text
names = map (λ k. k.name)

module _ {P D : Type 0} (X : Xacc P) where
  kernels_json-names :
      (analog : Bool) (size counter : ℕ) (ks : List (Kernel P)) (json t : Text)
      (a a' : Accelerator D)
      → kernels_json X analog size counter ks json a ≡ ok (t, a')
      → a'.kernel_names ≡ a.kernel_names ++ names ks
  unfolding kernels_json keep_supports
  kernels_json-names analog size counter [] json t a a' h = rw append-nil (ground arith)
  kernels_json-names analog size counter (k ∷ ks) json t a a' h =
      elim (Result-cases (kernel_json X analog size k)) [
        | inl ((piece, qs), e) ↦
            kernels_json-names analog size (counter + 1) ks (json ++ piece) t
              (record (keep_supports X counter qs a) {
                kernel_names = a.kernel_names ++ k.name ∷ [];
              })
              a' (rw e at h)
            ∙ append_assoc a.kernel_names (k.name ∷ []) (names ks)
        | inr (why, e) ↦ absurd (cc (rw e at h))
      ]

module _ {D : Type 0} (parse : Text → Json D) where
  on_line :
      (b a' : Accelerator D)
      → ◌≡◌ {A = Result (Unit {0} × Accelerator D)} (ok (tt, b)) (ok (tt, a'))
      → a'.kernel_names ≡ b.kernel_names
  on_line b a' h = ground arith

  wait_online-names :
      (path : Text) (rounds : ℕ) (replies : List Text) (a a' : Accelerator D)
      → wait_online parse path rounds (record a { replies = replies }) ≡ ok (tt, a')
      → a'.kernel_names ≡ a.kernel_names
  unfolding wait_online call
  wait_online-names path zero replies a a' h = absurd (cc h)
  wait_online-names path (suc rounds) [] a a' h = absurd (cc h)
  wait_online-names path (suc rounds) (r ∷ replies) a a' h =
      elim (Result-cases (status_of (parse r))) [
        | inr (why, e) ↦ absurd (cc (rw (e, ◌>>=◌) at h))
        | inl (status, e) ↦ elim (Bool-cases (text_eq status (codes "on"))) [
          | inl f ↦
              on_line (record a { replies = replies; requests = a.requests ++ path ∷ [] }) a'
                (rw (e, f, ◌>>=◌) at h)
          | inr f ↦
              wait_online-names path rounds replies
                (record a { requests = a.requests ++ path ∷ [] }) a' (rw (e, f, ◌>>=◌) at h)
        ]
      ]

  check_online-names :
      (backend : Text) (a a' : Accelerator D)
      → check_online parse backend a ≡ ok (tt, a')
      → a'.kernel_names ≡ a.kernel_names
  unfolding check_online
  check_online-names backend a a' h = ground (
    arith,
    wait_online-names (device_path a.hub backend a.current_api_token) (suc (length a.replies))
        a.replies a a',
  )

-- An action that adds the names `ns` when it succeeds.
abbrev Adds : {D A : Type 0} → Exec (Accelerator D) A → List Text → Type 0
Adds {D} {A} m ns =
    (a : Accelerator D) (r : A) (a' : Accelerator D)
    → m a ≡ ok (r, a')
    → a'.kernel_names ≡ a.kernel_names ++ ns

pure-Adds : {D A : Type 0} (r : A) → Adds {D = D} (pure r) []
pure-Adds r a r' a' h = rw append-nil (ground arith)

bind-Adds :
    {D A B : Type 0} (m : Exec (Accelerator D) A) (f : A → Exec (Accelerator D) B)
    (ns ms : List Text)
    → Adds m ns
    → ((r : A) → Adds (f r) ms)
    → Adds (m >>= f) (ns ++ ms)
bind-Adds m f ns ms hm hf a r a' h =
    let (x, b, first, second) = >>=-eq-ok m f a h in
    hf x b r a' second ∙ ap (λ l. l ++ ms) (hm a x b first) ∙ append_assoc a.kernel_names ns ms

choose_backend-Adds : {D : Type 0} (opts : Options) → Adds {D = D} (choose_backend opts) []
unfolding choose_backend
choose_backend-Adds opts a t a' h = rw append-nil (ground arith)

check_online-Adds :
    {D : Type 0} (parse : Text → Json D) (backend : Text) → Adds (check_online parse backend) []
check_online-Adds parse backend a r a' h = rw append-nil (check_online-names parse backend a a' h)

-- When the input is processed, the names of the posted kernels are put behind the names of all
-- kernels posted before: no job forgets those of an earlier one.
pub process_input-kernel_names :
    {P D : Type 0} (parse : Text → Json D) (X : Xacc P) (opts : Options)
    (cache : List (Text × Text)) (size : ℕ) (ks : List (Kernel P)) (t : Text) (a a' : Accelerator D)
    → process_input parse X opts cache size ks a ≡ ok (t, a')
    → a'.kernel_names ≡ a.kernel_names ++ names ks
unfolding process_input
process_input-kernel_names parse X opts cache size ks t a a' h =
    bind-Adds (choose_backend opts) _ [] (names ks) (choose_backend-Adds opts)
      (λ backend. elim (Bool-cases (ltb 0 (analogs ks) && not (analogs ks == length ks))) [
        | inl e ↦ λ b r b' k. absurd (cc (rw e at k))
        | inr e ↦ λ b r b' k.
            (bind-Adds (kernels_json X (ltb 0 (analogs ks)) size 0 ks _) _ (names ks) []
              (λ a t a' h. kernels_json-names X _ size 0 ks _ t a a' h)
              (λ json.
                bind-Adds (check_online parse backend) _ [] [] (check_online-Adds parse backend)
                  (λ u. pure-Adds _))
              b r b' (rw e at k))
            ∙ ap (λ l. b.kernel_names ++ l) (append-nil (names ks))
      ])
      a t a' h
