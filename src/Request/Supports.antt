-- ===== src/Request/Supports.antt =====
-- The measured qubits that are kept for the response.
use xacc_ibm.Common.{
  ℕ, zero, suc, ◌+◌, ◌≡◌, refl, sym, ◌∙◌, ap, Bool, true, false, List, [], ◌∷◌, ◌++◌, some, ok,
  arith, get_elem?, Bool-cases, Result-cases, inl, inr, ltb, ◌==◌, length, not, ◌&&◌,
}
use xacc_ibm.Common.Text.{Text, codes, text_eq}
use xacc_ibm.Common.Dict.{get_or}
use xacc_ibm.Common.Keys.{nat_key}
use xacc_ibm.Common.Exec.{
  lift, gets, Keeps, pure-Keeps, gets-Keeps, lift-Keeps, >>=-Keeps, >>=-eq-ok, same_state,
}
use xacc_ibm.Ir.{Kernel, Xacc}
use xacc_ibm.Json.{Json}
use xacc_ibm.Nodes.{walk_qasm, walk_pulse}
use xacc_ibm.Nodes.Supports.{measured}
use xacc_ibm.Nodes.Kept.{Supports, put, kept, kept-get_elem?, qasm-measured, pulse-measured}
use xacc_ibm.Qasm.{new_visitor}
use xacc_ibm.Pulse.{new_pulse}
use xacc_ibm.Accelerator.{default_backend, Accelerator, Options, call, choose_backend}
use xacc_ibm.Request.{
  analogs, kernel_json, keep_supports, kernels_json, wait_online, status_of, check_online,
  device_path, process_input,
}

module _ {P : Type 0} (X : Xacc P) where
  kernel_json-measured :
      (analog : Bool) (size : ℕ) (k : Kernel P) (piece : Text) (qs : List ℕ)
      → kernel_json X analog size k ≡ ok (piece, qs)
      → qs ≡ measured (X.walk k)
  unfolding kernel_json
  kernel_json-measured false size k piece qs h =
      elim (Result-cases (walk_qasm X.param_text (X.walk k) (new_visitor size false) [])) [
        | inl ((v, rs), e) ↦
            let same : rs ≡ qs = cc (rw (e, kernel_json) at h) in
            sym same ∙ qasm-measured X.param_text (X.walk k) (new_visitor size false) v rs e
        | inr (why, e) ↦ absurd (cc (rw (e, kernel_json) at h))
      ]
  kernel_json-measured true size k piece qs h =
      elim (Result-cases (walk_pulse (X.walk k) (new_pulse k.name) [])) [
        | inl ((v, rs), e) ↦
            let same : rs ≡ qs = cc (rw (e, kernel_json) at h) in
            sym same ∙ pulse-measured (X.walk k) (new_pulse k.name) v rs e
        | inr (why, e) ↦ absurd (cc (rw (e, kernel_json) at h))
      ]

module _ {P D : Type 0} (X : Xacc P) where
  kernels_json-kept :
      (analog : Bool) (size c : ℕ) (ks : List (Kernel P)) (json t : Text) (a a' : Accelerator D)
      → kernels_json X analog size c ks json a ≡ ok (t, a')
      → a'.measurement_supports ≡ kept X c ks a.measurement_supports
  unfolding kernels_json keep_supports
  kernels_json-kept analog size c [] json t a a' h = ground arith
  kernels_json-kept analog size c (k ∷ ks) json t a a' h =
      elim (Result-cases (kernel_json X analog size k)) [
        | inl ((piece, qs), e) ↦
            kernels_json-kept analog size (c + 1) ks (json ++ piece) t
              (record (keep_supports X c qs a) { kernel_names = a.kernel_names ++ k.name ∷ [] }) a'
              (rw e at h)
            ∙ ap (λ rs. kept X (c + 1) ks (put c rs a.measurement_supports))
                (kernel_json-measured X analog size k piece qs e)
        | inr (why, e) ↦ absurd (cc (rw e at h))
      ]

-- What leaves the kept qubits alone.
abbrev HasSupports : {D : Type 0} → Supports → Accelerator D → Type 0
HasSupports m a = a.measurement_supports ≡ m

module _ {D : Type 0} (m : Supports) where
  call-HasSupports : (path : Text) → Keeps (HasSupports {D = D} m) (call path)
  unfolding call
  call-HasSupports path a r a' i h = ground (arith, i)

  choose_backend-HasSupports :
      (opts : Options) → Keeps (HasSupports {D = D} m) (choose_backend opts)
  unfolding choose_backend
  choose_backend-HasSupports opts a r a' i h = ground (arith, i)

  wait_online-HasSupports :
      (parse : Text → Json D) (path : Text) (rounds : ℕ)
      → Keeps (HasSupports m) (wait_online parse path rounds)
  unfolding wait_online
  wait_online-HasSupports parse path zero = λ a r a' i h. absurd (cc h)
  wait_online-HasSupports parse path (suc rounds) =
      >>=-Keeps (HasSupports m) (call path) _ (call-HasSupports path) λ reply.
        >>=-Keeps (HasSupports m) (lift (status_of (parse reply))) _
          (lift-Keeps (HasSupports m) (status_of (parse reply)))
          λ status. elim (Bool-cases (text_eq status (codes "on"))) [
            | inl e ↦ rw e (pure-Keeps (HasSupports m) tt)
            | inr e ↦ rw e (wait_online-HasSupports parse path rounds)
          ]

  check_online-HasSupports :
      (parse : Text → Json D) (backend : Text) → Keeps (HasSupports m) (check_online parse backend)
  unfolding check_online
  check_online-HasSupports parse backend = elim (Bool-cases (text_eq backend default_backend)) [
    | inl e ↦ rw e (pure-Keeps (HasSupports m) tt)
    | inr e ↦ rw e (
        >>=-Keeps (HasSupports m) (gets (λ a. a)) _ (gets-Keeps (HasSupports m) (λ a. a)) λ a.
          wait_online-HasSupports parse (device_path a.hub backend a.current_api_token)
            (suc (length a.replies)))
  ]

module _ {P D : Type 0} (parse : Text → Json D) (X : Xacc P) (opts : Options)
    (cache : List (Text × Text)) (size : ℕ) where
  process_input-kept :
      (ks : List (Kernel P)) (t : Text) (a a' : Accelerator D)
      → process_input parse X opts cache size ks a ≡ ok (t, a')
      → a'.measurement_supports ≡ kept X 0 ks a.measurement_supports
  unfolding process_input
  process_input-kept ks t a a' h =
      let (backend, b, chosen, rest) = >>=-eq-ok (choose_backend opts) _ a h in
      elim (Bool-cases (ltb 0 (analogs ks) && not (analogs ks == length ks))) [
        | inl e ↦ absurd (cc (rw e at rest))
        | inr e ↦
            let (json, c, written, rest') =
              >>=-eq-ok (kernels_json X (ltb 0 (analogs ks)) size 0 ks _) _ b (rw e at rest) in
            let (u, d, online, last) = >>=-eq-ok (check_online parse backend) _ c rest' in
            let m = kept X 0 ks b.measurement_supports in
            ap (λ s. s.measurement_supports) (sym (same_state _ t d a' last))
            ∙ check_online-HasSupports m parse backend c u d
                (kernels_json-kept X _ size 0 ks _ json b c written) online
            ∙ ap (kept X 0 ks)
                (choose_backend-HasSupports a.measurement_supports opts a backend b refl chosen)
      ]

  -- When the input is processed on an accelerator that keeps no measured qubits from before, the
  -- qubits that are then kept under the number of each kernel, of OpenQasm or OpenPulse, are those
  -- of its enabled measurements, in order.
  pub process_input-measured :
      (ks : List (Kernel P)) (t : Text) (a a' : Accelerator D) (i : ℕ) (k : Kernel P)
      → a.measurement_supports ≡ []
      → process_input parse X opts cache size ks a ≡ ok (t, a')
      → get_elem? ks i ≡ some k
      → get_or i [] a'.measurement_supports ≡ measured (X.walk k)
  unfolding get_or
  process_input-measured ks t a a' i k fresh h e =
      let counted : 0 + i ≡ i = omega arith in
      rw (process_input-kept ks t a a' h, fresh)
        (rw counted at (kept-get_elem? X ks 0 i k [] (λ j l. refl) e))
