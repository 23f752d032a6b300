-- ===== src/Response/Results.antt =====
-- The buffers that a job of several kernels returns.
use xacc_ibm.Common.{
  ℕ, zero, suc, ◌+◌, ◌<◌, ◌≡◌, refl, ◌∙◌, Bool, true, false, not, List, [], ◌∷◌, ◌++◌, map, Option,
  none, some, Result, ok, err, error, length, get_elem?, ltb, if◌then◌else◌, at_hand, arith,
  append_assoc, append-nil, Bool-cases, Option-cases, Result-cases, inl, inr, >>=-eq-ok,
}
use xacc_ibm.Common
use xacc_ibm.Common.Text.{Text, codes}
use xacc_ibm.Common.Dict.{Dict, get_or}
use xacc_ibm.Common.Keys.{nat_key}
use xacc_ibm.Json.{Json, get_int}
use xacc_ibm.Common.Exec
use xacc_ibm.Common.Int.{ℤ, pos}
use xacc_ibm.Accelerator.{Accelerator, create_buffer, is_valid_buffer_size}
use xacc_ibm.Nodes.Kept.{numbered_one, numbered}
use xacc_ibm.Outcome.{outcome}
use xacc_ibm.Response.{
  Buffer, kernel_counts, append_measurement, kernel_result, kernel_results, read_data, many_results,
  add_device_info, number, Info,
}

module _ {D : Type 0} where
  -- The counts of a kernel as they are stored: each name on its own, with its number.
  abbrev pub stored : Bool → ℕ → List ℕ → List (Text × Json D) → Result (List (Text × ℕ))
  stored sim size supports [] = ok []
  stored sim size supports ((bits, v) ∷ counts) = Common.◌>>=◌ (get_int v) λ n.
      Common.◌>>=◌ (outcome sim size supports bits)
        λ s. Common.◌>>=◌ (stored sim size supports counts) λ rest. ok ((s, n) ∷ rest)

  abbrev with_measurements :
      Buffer D → Accelerator D → Result (List (Text × ℕ)) → Result (Buffer D × Accelerator D)
  with_measurements b a (ok ms) = ok (record b { measurements = b.measurements ++ ms }, a)
  with_measurements b a (err e) = err e

  append_one :
      (s : Text) (n : ℕ) (b : Buffer D) (a : Accelerator D) (r : Result (List (Text × ℕ)))
      → with_measurements (append_measurement s n b) a r
        ≡ with_measurements b a (Common.◌>>=◌ r λ rest. ok ((s, n) ∷ rest))
  append_one s n b a (ok ms) = rw append_assoc
  append_one s n b a (err e) = refl

  kernel_counts_lem :
      (sim : Bool) (size : ℕ) (supports : List ℕ) (counts : List (Text × Json D)) (b : Buffer D)
      (a : Accelerator D)
      → kernel_counts sim size supports counts b a
        ≡ with_measurements b a (stored sim size supports counts)
  unfolding kernel_counts
  kernel_counts_lem sim size supports [] b a = rw append-nil
  kernel_counts_lem sim size supports ((bits, v) ∷ counts) b a = elim (Result-cases (get_int v)) [
    | inr (e, p) ↦ rw p
    | inl (n, p) ↦ elim (Result-cases (outcome sim size supports bits)) [
      | inr (e, q) ↦ rw (p, q)
      | inl (s, q) ↦
          rw (p, q)
            (kernel_counts_lem sim size supports counts (append_measurement s n b) a
              ∙ append_one s n b a (stored sim size supports counts))
    ]
  ]

module _ {D : Type 0} (of_int : ℕ → D) (size : ℕ) where
  -- The buffer of a kernel's part of the document, by the kernel's name and the qubits that it measures:
  -- the name, the given size, the time of the document, and its counts, each name turned into an
  -- outcome by the qubits.
  abbrev pub filled : Bool → Text → List ℕ → Json D → Result (Buffer D)
  filled sim name supports q =
      if is_valid_buffer_size (pos size)
      then (Common.◌>>=◌ (read_data of_int q) λ (seconds, entries).
          Common.◌>>=◌ (stored sim size supports entries) λ ms. ok (record {
            name = name;
            size = size;
            measurements = ms;
            extra = (codes "time", number seconds) ∷ [];
          }))
      else err (error (codes "Invalid buffer size."))

  -- The buffer of kernel `i`, from the state alone: by the name and the qubits that were kept for it.
  abbrev pub expected : List Text → Dict ℕ (List ℕ) → Bool → ℕ → Json D → Result (Buffer D)
  expected names supports sim i q = numbered_one (filled sim) names supports i q

  -- The buffer is stored under its name.
  abbrev storing : Accelerator D → Result (Buffer D) → Result (Buffer D × Accelerator D)
  storing a (ok b) = ok (b, record a { stored = a.stored ++ (b.name, pos size) ∷ [] })
  storing a (err e) = err e

  counted :
      (a : Accelerator D) (name : Text) (time : Text × Info D) (r : Result (List (Text × ℕ)))
      → with_measurements
          (record { name = name; size = size; measurements = []; extra = time ∷ [] })
          (record a { stored = a.stored ++ (name, pos size) ∷ [] })
          r
        ≡ storing a (
            Common.◌>>=◌ r
              λ ms. ok (record { name = name; size = size; measurements = ms; extra = time ∷ [] }))
  counted a name time (ok ms) = refl
  counted a name time (err e) = refl

  kernel_result_lem :
      (i : ℕ) (q : Json D) (a : Accelerator D)
      → kernel_result of_int size i q a
        ≡ storing a
            (expected a.kernel_names a.measurement_supports a.chosen_backend.is_simulator i q)
  unfolding kernel_result create_buffer
  kernel_result_lem i q a = elim (Option-cases (get_elem? a.kernel_names i)) [
    | inl e ↦ rw e
    | inr (name, e) ↦ elim (Bool-cases (is_valid_buffer_size (pos size))) [
      | inr f ↦ rw (e, f, Exec.◌>>=◌, create_buffer)
      | inl f ↦ elim (Result-cases (read_data of_int q)) [
        | inr (why, g) ↦ rw (e, f, g, Exec.◌>>=◌, create_buffer)
        | inl ((seconds, entries), g) ↦
            rw (e, f, g, Exec.◌>>=◌, create_buffer)
              (rw kernel_counts_lem (
                counted a name (codes "time", number seconds)
                  (stored a.chosen_backend.is_simulator size (get_or i [] a.measurement_supports)
                    entries)))
      ]
    ]
  ]

  abbrev pub expected_all :
      List Text → Dict ℕ (List ℕ) → Bool → ℕ → List (Json D) → Result (List (Buffer D))
  expected_all names supports sim i qs = numbered (filled sim) names supports i qs

  abbrev entry : Buffer D → Text × ℤ
  entry b = (b.name, pos size)

  abbrev storing_all :
      Accelerator D → Result (List (Buffer D)) → Result (List (Buffer D) × Accelerator D)
  storing_all a (ok bs) = ok (bs, record a { stored = a.stored ++ map entry bs })
  storing_all a (err e) = err e

  storing_next :
      (a : Accelerator D) (b : Buffer D) (r : Result (List (Buffer D)))
      → Exec.◌>>=◌
          (λ s. storing_all s r)
          (λ bs. Exec.pure (b ∷ bs))
          (record a { stored = a.stored ++ entry b ∷ [] })
        ≡ storing_all a (Common.◌>>=◌ r λ bs. ok (b ∷ bs))
  storing_next a b (ok bs) = rw append_assoc
  storing_next a b (err e) = refl

  kernel_results_lem :
      (qs : List (Json D)) (i : ℕ) (a : Accelerator D)
      → kernel_results of_int size i qs a
        ≡ storing_all a
            (expected_all a.kernel_names a.measurement_supports a.chosen_backend.is_simulator i qs)
  unfolding kernel_results
  kernel_results_lem [] i a = rw append-nil
  kernel_results_lem (q ∷ qs) i a =
      elim (Result-cases
        (expected a.kernel_names a.measurement_supports a.chosen_backend.is_simulator i q)) [
          | inr (why, e) ↦ rw (kernel_result_lem i q a, e, kernel_results, Exec.◌>>=◌)
          | inl (b, e) ↦
              rw (kernel_result_lem i q a, e, kernel_results, Exec.◌>>=◌)
                (rw
                  (
                    kernel_results_lem qs (i + 1) (record a { stored = a.stored ++ entry b ∷ [] }),
                    Exec.◌>>=◌,
                  )
                  (storing_next a b (
                    expected_all a.kernel_names a.measurement_supports a.chosen_backend.is_simulator
                      (i + 1) qs)))
        ]

  abbrev pub finishing :
      Accelerator D
      → Buffer D
      → Result (List (Buffer D))
      → Result ((Buffer D × List (Buffer D)) × Accelerator D)
  finishing a b (ok bs) = ok (
    (add_device_info a.chosen_backend b, bs),
    record a { stored = a.stored ++ map entry bs; measurement_supports = [] },
  )
  finishing a b (err e) = err e

-- A job of several kernels returns one buffer for each kernel of the document, in order, each with
-- the name, size, time and outcomes that `expected` gives for it; every buffer is stored under its
-- name, the given buffer only gains the device's data, the kept measurements are dropped, and
-- nothing else of the accelerator changes. It fails as the first kernel that `expected` refuses.
pub many_results_lem :
    {D : Type 0} (of_int : ℕ → D) (qs : List (Json D)) (b : Buffer D) (a : Accelerator D)
    → many_results of_int qs b a
      ≡ finishing of_int b.size a b (
          expected_all of_int b.size a.kernel_names a.measurement_supports
            a.chosen_backend.is_simulator 0 qs)
unfolding many_results
many_results_lem of_int qs b a =
    elim (Result-cases (
      expected_all of_int b.size a.kernel_names a.measurement_supports a.chosen_backend.is_simulator
        0 qs)) [
          | inl (bs, e) ↦ rw (kernel_results_lem of_int b.size qs 0 a, e, Exec.◌>>=◌)
          | inr (why, e) ↦ rw (kernel_results_lem of_int b.size qs 0 a, e, Exec.◌>>=◌)
        ]
